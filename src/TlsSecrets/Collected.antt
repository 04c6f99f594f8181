-- ===== src/TlsSecrets/Collected.antt =====
-- That the collected Secrets are those that endpoints refer to
-- (internal/controller/install_agents.go).
use whatap_operator.Prelude.{
  String, Bool, false, Option, none, some, List, [], ◌∷◌, ◌++◌, foldl, Dict, if◌then◌else◌, lookup,
  lookup-insert, or_default, contains, any, ◌&&◌, ◌||◌, ◌==◌, ◌≡◌, refl, ap, ◌∙◌, arith, eq_iff,
  Bool-cases, Option-cases, inl, inr,
}
use whatap_operator.OpenAgent.Types.{
  SecretKeySelector, OpenAgentEndpoint, OpenAgentTargetSpec, WhatapPodMonitor, WhatapServiceMonitor,
}
use whatap_operator.TlsSecrets.{
  keys_of, add, add_endpoint, add_tls_secrets_from_endpoints, add_all, target_endpoints,
  monitor_endpoints, collect_all_tls_secrets,
}

pub contains-append :
    (xs ys : List String) (k : String) → contains (xs ++ ys) k ≡ (contains xs k || contains ys k)
contains-append [] ys k = refl
contains-append (x ∷ xs) ys k = ground (arith, contains-append xs ys k)

-- What refers to a key of a secret.
module _ (n k : String) where
  abbrev pub selects : Option SecretKeySelector → Bool
  selects none = false
  selects (some sel) = sel.name == n && sel.key == k

  abbrev pub endpoint_refers : OpenAgentEndpoint → Bool
  endpoint_refers endpoint = elim endpoint.tls_config [
    | none ↦ false
    | some tls ↦ selects tls.ca_secret || (selects tls.cert_secret || selects tls.key_secret)
  ]

  abbrev pub refers : List OpenAgentEndpoint → Bool
  refers endpoints = any endpoint_refers endpoints

  abbrev pub target_refers : OpenAgentTargetSpec → Bool
  target_refers target = refers target.endpoints

  abbrev pub monitor_refers : WhatapPodMonitor → Bool
  monitor_refers monitor = refers monitor.endpoints

  add_holds :
      (secrets : Dict (List String)) (sel : Option SecretKeySelector)
      → contains (keys_of n (add secrets sel)) k ≡ (contains (keys_of n secrets) k || selects sel)
  unfolding add
  add_holds secrets none = ground arith
  add_holds secrets (some sel) =
      let keys = keys_of sel.name secrets in
      let added = if contains keys sel.key then keys else keys ++ sel.key ∷ [] in
      elim (Bool-cases (sel.name == n)) [
        | inl e ↦
            let same = (eq_iff sel.name n).0 e in
            ap (λ o. contains (or_default o []) k) (lookup-insert sel.name n added secrets)
            ∙ ground (
              arith,
              e,
              ap (λ x. keys_of x secrets) same,
              eq_iff sel.key k,
              contains-append keys (sel.key ∷ []) k,
              ap (contains keys) ((eq_iff sel.key k).0 _),
            )
        | inr e ↦
            ap (λ o. contains (or_default o []) k) (lookup-insert sel.name n added secrets)
            ∙ ground (arith, e)
      ]

  add_endpoint_holds :
      (secrets : Dict (List String)) (e : OpenAgentEndpoint)
      → contains (keys_of n (add_endpoint secrets e)) k
        ≡ (contains (keys_of n secrets) k || endpoint_refers e)
  unfolding add_endpoint
  add_endpoint_holds secrets e = elim (Option-cases e.tls_config) [
    | inl p ↦ rw p (ground arith)
    | inr (tls, p) ↦ rw p (
        ground (
          arith,
          add_holds secrets tls.ca_secret,
          add_holds (add secrets tls.ca_secret) tls.cert_secret,
          add_holds (add (add secrets tls.ca_secret) tls.cert_secret) tls.key_secret,
        ))
  ]

  add_endpoints_hold :
      (es : List OpenAgentEndpoint) (secrets : Dict (List String))
      → contains (keys_of n (foldl add_endpoint secrets es)) k
        ≡ (contains (keys_of n secrets) k || any endpoint_refers es)
  add_endpoints_hold [] secrets = ground arith
  add_endpoints_hold (e ∷ es) secrets =
      add_endpoints_hold es (add_endpoint secrets e) ∙ ground (arith, add_endpoint_holds secrets e)

  add_all_holds {ℓ} :
      {A : Type ℓ} (f : A → List OpenAgentEndpoint) (hs : List A) (secrets : Dict (List String))
      → contains (keys_of n (add_all f secrets hs)) k
        ≡ (contains (keys_of n secrets) k || any (λ h. refers (f h)) hs)
  unfolding add_all add_tls_secrets_from_endpoints
  add_all_holds f [] secrets = ground arith
  add_all_holds f (h ∷ hs) secrets =
      add_all_holds f hs (foldl add_endpoint secrets (f h))
      ∙ ground (arith, add_endpoints_hold (f h) secrets)

  -- A key of a secret is collected exactly if the TLS configuration of an endpoint refers to it, in
  -- an inline target, a pod monitor or a service monitor.
  pub collect_all_tls_secrets_iff :
      (targets : List OpenAgentTargetSpec) (pod_monitors : Option (List WhatapPodMonitor))
      (service_monitors : Option (List WhatapServiceMonitor))
      → contains (keys_of n (collect_all_tls_secrets targets pod_monitors service_monitors)) k ≡ (
          any target_refers targets
          || (any monitor_refers (or_default pod_monitors [])
              || any monitor_refers (or_default service_monitors [])))
  unfolding collect_all_tls_secrets lookup
  collect_all_tls_secrets_iff targets pod_monitors service_monitors =
      let one = add_all target_endpoints [] targets in
      let two = add_all monitor_endpoints one (or_default pod_monitors []) in
      add_all_holds monitor_endpoints (or_default service_monitors []) two
      ∙ ground (
        arith,
        add_all_holds monitor_endpoints (or_default pod_monitors []) one,
        add_all_holds target_endpoints targets [],
      )
