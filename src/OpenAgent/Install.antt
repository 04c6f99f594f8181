-- ===== src/OpenAgent/Install.antt =====
-- The installation of the OpenAgent (internal/controller/install_agents.go, installOpenAgent) as
-- the list of its requests and its error. The API server is a parameter, which says how each call
-- ends; the update of an existing Deployment is that of Workload under `open_agent_rules`.
pub mod Retry
pub mod Outcome
use whatap_operator.Prelude.{
  ℕ, zero, suc, ◌+◌, ◌-◌, ◌*◌, String, Bool, true, false, Option, none, some, List, [], ◌∷◌, ◌++◌,
  Dict, if◌then◌else◌, ltb, ◌⊎◌, inl, inr,
}
use whatap_operator.OpenAgent.Types.{
  ScrapeSpec, WhatapPodMonitor, WhatapServiceMonitor, WhatapStaticEndpoint,
}
use whatap_operator.OpenAgent.Scrape.{ScrapeConfig, generate_scrape_config}
use whatap_operator.OpenAgent.Deployment.{Credentials, OpenAgentSpec, OpenAgentPod, open_agent_pod}
use whatap_operator.TlsSecrets.{collect_all_tls_secrets}

-- What the installation asks of the API server, and its waits in milliseconds.
pub data Request : Type 0 where
  apply_service_account apply_cluster_role apply_cluster_role_binding : Request
  list_pod_monitors list_service_monitors list_static_endpoints : Request
  apply_config_map : String → Request
  apply_deployment : OpenAgentPod → Request
  sleep : ℕ → Request

-- The four objects that are applied once.
pub data Applied : Type 0 where
  service_account cluster_role cluster_role_binding config_map : Applied

-- How the calls end: an error is its message, and a list that is there is the right summand. An
-- attempt to apply the Deployment is known by its number, from 0.
pub record Api : Type 0 where
  pub apply_failed : Applied → Option String
  pub pod_monitors : String ⊎ List WhatapPodMonitor
  pub service_monitors : String ⊎ List WhatapServiceMonitor
  pub static_endpoints : String ⊎ List WhatapStaticEndpoint
  pub deployment_failed : ℕ → Option String

-- The requests made, and the error that is returned.
abbrev pub Result : Type 0
Result = List Request × Option String

-- A call, and what follows unless it fails.
abbrev pub call : Request → Option String → Result → Result
call request none rest = (request ∷ rest.0, rest.1)
call request (some e) rest = (request ∷ [], some e)

abbrev pub list_call : {A : Type 0} → Request → String ⊎ List A → (List A → Result) → Result
list_call request (inl e) next = (request ∷ [], some e)
list_call request (inr xs) next = (request ∷ (next xs).0, (next xs).1)

abbrev pub max_retries : ℕ
max_retries = 3

abbrev pub before_result : List Request → Option Result → Option Result
before_result rs none = none
before_result rs (some r) = some (rs ++ r.0, r.1)

-- The loop `for retryCount < maxRetries`: `none` is a loop that is still running when the fuel is
-- used up.
unfoldable pub deploy : (ℕ → Option String) → OpenAgentPod → ℕ → ℕ → Option Result
deploy failed pod zero retry_count = none
deploy failed pod (suc fuel) retry_count =
    let again = deploy failed pod fuel (retry_count + 1) in
    if ltb retry_count max_retries
    then elim (failed retry_count) [
      | none ↦ some (apply_deployment pod ∷ [], none)
      | some e ↦
          if ltb retry_count (max_retries - 1)
          then before_result (apply_deployment pod ∷ sleep ((retry_count + 1) * 100) ∷ []) again
          else some (apply_deployment pod ∷ [], some e)
    ]
    else some ([], none)

-- The three attempts are all the fuel that the loop needs.
abbrev pub deployed : (ℕ → Option String) → OpenAgentPod → Result
deployed failed pod = elim (deploy failed pod max_retries 0) [ none ↦ ([], none) | some r ↦ r ]

unfoldable pub install_open_agent :
    (ScrapeConfig → String ⊎ String)
    → Api
    → String
    → ScrapeSpec
    → Credentials
    → OpenAgentSpec
    → Result
install_open_agent marshal api default_namespace scrape cr spec =
    call apply_service_account (api.apply_failed service_account) (
      call apply_cluster_role (api.apply_failed cluster_role) (
        call apply_cluster_role_binding (api.apply_failed cluster_role_binding) (
          list_call list_pod_monitors api.pod_monitors (λ pods.
            list_call list_service_monitors api.service_monitors (λ services.
              list_call list_static_endpoints api.static_endpoints (λ statics.
                let config =
                  generate_scrape_config marshal scrape default_namespace (some pods)
                    (some services) (some statics) in
                let secrets = collect_all_tls_secrets scrape.targets (some pods) (some services) in
                call (apply_config_map config) (api.apply_failed config_map)
                  (deployed api.deployment_failed (open_agent_pod cr spec secrets))))))))
