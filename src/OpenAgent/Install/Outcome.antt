-- ===== src/OpenAgent/Install/Outcome.antt =====
-- When the installation of the OpenAgent succeeds (internal/controller/install_agents.go,
-- installOpenAgent).
use whatap_operator.Prelude.{
  ℕ, String, Bool, true, false, Option, none, some, Option-cases, List, [], ◌∷◌, is_some, not, ◌&&◌,
  ◌⊎◌, inl, inr, ◌≡◌, refl, ◌∙◌, arith,
}
use whatap_operator.OpenAgent.Types.{ScrapeSpec}
use whatap_operator.OpenAgent.Scrape.{ScrapeConfig}
use whatap_operator.OpenAgent.Deployment.{OpenAgentPod, Credentials, OpenAgentSpec}
use whatap_operator.OpenAgent.Install.{
  Request, Result, Api, service_account, cluster_role, cluster_role_binding, config_map, call,
  list_call, deploy, deployed, install_open_agent, apply_deployment, apply_service_account,
  apply_cluster_role, apply_cluster_role_binding, list_pod_monitors, list_service_monitors,
  list_static_endpoints, apply_config_map, sleep,
}
use whatap_operator.OpenAgent.Install.Retry.{attempt_succeeds, deploy_ends}

abbrev pub succeeds : Result → Bool
succeeds r = not (is_some r.1)

abbrev pub listed : {A : Type 0} → String ⊎ List A → Bool
listed (inl e) = false
listed (inr xs) = true

-- Whether every call before the Deployment succeeds.
abbrev pub prepared : Api → Bool
prepared api =
    not (is_some (api.apply_failed service_account))
    && (not (is_some (api.apply_failed cluster_role))
        && (not (is_some (api.apply_failed cluster_role_binding))
            && (listed api.pod_monitors
                && (listed api.service_monitors
                    && (listed api.static_endpoints
                        && not (is_some (api.apply_failed config_map)))))))

-- Whether the Deployment is among the requests.
abbrev pub asks_deployment : List Request → Bool
asks_deployment [] = false
asks_deployment (apply_deployment pod ∷ rs) = true
asks_deployment (r ∷ rs) = asks_deployment rs

abbrev is_deployment : Request → Bool
is_deployment r = asks_deployment (r ∷ [])

-- A test of a result that a call which fails makes false, and that skips other calls.
module _ (f : Result → Bool)
    (stops : (r : Request) (e : String) → is_deployment r ≡ false → f (r ∷ [], some e) ≡ false)
    (skips : (r : Request) (rest : Result)
      → is_deployment r ≡ false
      → f (r ∷ rest.0, rest.1) ≡ f rest) where
  call_test :
      (r : Request) (failed : Option String) (rest : Result) (b : Bool)
      → is_deployment r ≡ false
      → f rest ≡ b
      → f (call r failed rest) ≡ (not (is_some failed) && b)
  call_test r none rest b h e = skips r rest h ∙ e
  call_test r (some x) rest b h e = stops r x h

  list_call_test :
      {A : Type 0} (r : Request) (o : String ⊎ List A) (next : List A → Result) (b : Bool)
      → is_deployment r ≡ false
      → ((xs : List A) → f (next xs) ≡ b)
      → f (list_call r o next) ≡ (listed o && b)
  list_call_test r (inl x) next b h e = stops r x h
  list_call_test r (inr xs) next b h e = skips r (next xs) h ∙ e xs

  install_test :
      (marshal : ScrapeConfig → String ⊎ String) (api : Api) (ns : String) (scrape : ScrapeSpec)
      (cr : Credentials) (spec : OpenAgentSpec) (b : Bool)
      → ((pod : OpenAgentPod) → f (deployed api.deployment_failed pod) ≡ b)
      → f (install_open_agent marshal api ns scrape cr spec) ≡ (prepared api && b)
  unfolding install_open_agent
  install_test marshal api ns scrape cr spec b last =
      call_test _ (api.apply_failed service_account) _ _ refl (
        call_test _ (api.apply_failed cluster_role) _ _ refl (
          call_test _ (api.apply_failed cluster_role_binding) _ _ refl (
            list_call_test _ api.pod_monitors _ _ refl (λ pods.
              list_call_test _ api.service_monitors _ _ refl (λ services.
                list_call_test _ api.static_endpoints _ _ refl
                  (λ statics. call_test _ (api.apply_failed config_map) _ b refl (last _)))))))
      ∙ ground arith

succeeds_stops :
    (r : Request) (e : String) → is_deployment r ≡ false → succeeds (r ∷ [], some e) ≡ false
succeeds_stops r e h = refl

succeeds_skips :
    (r : Request) (rest : Result)
    → is_deployment r ≡ false
    → succeeds (r ∷ rest.0, rest.1) ≡ succeeds rest
succeeds_skips r rest h = refl

asks_skips :
    (r : Request) (rs : List Request)
    → is_deployment r ≡ false
    → asks_deployment (r ∷ rs) ≡ asks_deployment rs
asks_skips apply_service_account rs h = refl
asks_skips apply_cluster_role rs h = refl
asks_skips apply_cluster_role_binding rs h = refl
asks_skips list_pod_monitors rs h = refl
asks_skips list_service_monitors rs h = refl
asks_skips list_static_endpoints rs h = refl
asks_skips (apply_config_map s) rs h = refl
asks_skips (apply_deployment pod) rs h = ground arith
asks_skips (sleep n) rs h = refl

succeeds-deployed :
    (failed : ℕ → Option String) (pod : OpenAgentPod)
    → succeeds (deployed failed pod) ≡ attempt_succeeds failed
unfolding deploy
succeeds-deployed failed pod = let (r, (e, (ok, bounds))) = deploy_ends failed pod 0 in rw e ok

asks_deployment-deployed :
    (failed : ℕ → Option String) (pod : OpenAgentPod)
    → asks_deployment (deployed failed pod).0 ≡ true
unfolding deploy
asks_deployment-deployed failed pod = elim (Option-cases (failed 0)) [
  | inl e ↦ rw e refl
  | inr (x, e) ↦ elim (Option-cases (failed 1)) [
    | inl d ↦ rw (e, d) refl
    | inr (y, d) ↦ elim (Option-cases (failed 2)) [
      | inl c ↦ rw (e, d, c) refl
      | inr (z, c) ↦ rw (e, d, c) refl
    ]
  ]
]

-- The installation asks for the Deployment exactly if every call before it succeeds, the lists of
-- the three kinds of monitors included; and it returns no error exactly if, besides, one of the
-- first three attempts at the Deployment succeeds.
pub install_open_agent_outcome :
    (marshal : ScrapeConfig → String ⊎ String) (api : Api) (ns : String) (scrape : ScrapeSpec)
    (cr : Credentials) (spec : OpenAgentSpec)
    → (asks_deployment (install_open_agent marshal api ns scrape cr spec).0 ≡ prepared api)
      × (succeeds (install_open_agent marshal api ns scrape cr spec)
          ≡ (prepared api && attempt_succeeds api.deployment_failed))
install_open_agent_outcome marshal api ns scrape cr spec = (
  install_test (λ r. asks_deployment r.0) (λ r e h. h) (λ r rest h. asks_skips r rest.0 h) marshal
        api ns scrape cr spec true (asks_deployment-deployed api.deployment_failed)
      ∙ ground arith,
  install_test succeeds succeeds_stops succeeds_skips marshal api ns scrape cr spec
      (attempt_succeeds api.deployment_failed) (succeeds-deployed api.deployment_failed),
)
