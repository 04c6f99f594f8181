-- ===== src/TlsSecrets.antt =====
-- The Secrets that the OpenAgent mounts for TLS (internal/controller/install_agents.go):
-- addTLSSecretsFromEndpoints, collectTLSSecrets and collectAllTLSSecrets.
pub mod Collected
pub mod Clean
use whatap_operator.Prelude.{
  String, Option, none, some, List, [], ◌∷◌, ◌++◌, foldl, Dict, if◌then◌else◌, lookup, insert,
  or_default, contains,
}
use whatap_operator.OpenAgent.Types.{
  SecretKeySelector, OpenAgentEndpoint, OpenAgentTargetSpec, WhatapPodMonitor, WhatapServiceMonitor,
}

-- The keys collected for a secret.
abbrev pub keys_of : String → Dict (List String) → List String
keys_of name secrets = or_default (lookup name secrets) []

unfoldable pub add : Dict (List String) → Option SecretKeySelector → Dict (List String)
add secrets none = secrets
add secrets (some sel) =
    let keys = keys_of sel.name secrets in
    insert sel.name (if contains keys sel.key then keys else keys ++ sel.key ∷ []) secrets

unfoldable pub add_endpoint : Dict (List String) → OpenAgentEndpoint → Dict (List String)
add_endpoint secrets endpoint = elim endpoint.tls_config [
  | none ↦ secrets
  | some tls ↦ add (add (add secrets tls.ca_secret) tls.cert_secret) tls.key_secret
]

unfoldable pub add_tls_secrets_from_endpoints :
    Dict (List String) → List OpenAgentEndpoint → Dict (List String)
add_tls_secrets_from_endpoints secrets endpoints = foldl add_endpoint secrets endpoints

-- A loop over targets or monitors, by their endpoints.
unfoldable pub add_all {ℓ} :
    {A : Type ℓ} → (A → List OpenAgentEndpoint) → Dict (List String) → List A → Dict (List String)
add_all endpoints_of secrets [] = secrets
add_all endpoints_of secrets (h ∷ hs) =
    add_all endpoints_of (add_tls_secrets_from_endpoints secrets (endpoints_of h)) hs

abbrev pub target_endpoints : OpenAgentTargetSpec → List OpenAgentEndpoint
target_endpoints target = target.endpoints

abbrev pub monitor_endpoints : WhatapPodMonitor → List OpenAgentEndpoint
monitor_endpoints monitor = monitor.endpoints

unfoldable pub collect_tls_secrets : List OpenAgentTargetSpec → Dict (List String)
collect_tls_secrets targets = add_all target_endpoints [] targets

-- A list of monitors that is nil is `none`.
unfoldable pub collect_all_tls_secrets :
    List OpenAgentTargetSpec
    → Option (List WhatapPodMonitor)
    → Option (List WhatapServiceMonitor)
    → Dict (List String)
collect_all_tls_secrets targets pod_monitors service_monitors =
    add_all monitor_endpoints
      (add_all monitor_endpoints (add_all target_endpoints [] targets) (or_default pod_monitors []))
      (or_default service_monitors [])
