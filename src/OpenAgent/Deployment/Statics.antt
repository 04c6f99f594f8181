-- ===== src/OpenAgent/Deployment/Statics.antt =====
-- The certificate files of static endpoints (internal/controller/install_agents.go:
-- generateScrapeConfig, collectAllTLSSecrets and installOpenAgent).
use whatap_operator.Prelude.{
  String, Bool, true, false, some, List, [], ◌∷◌, Dict, any, all, map, any_append_right,
  any_of_mapped, contains, is_empty, ◌&&◌, ◌||◌, ◌==◌, ◌≡◌, refl, ap, arith,
}
use mathlib.Core.List.{Memᴰ}
use whatap_operator.OpenAgent.Types.{
  SecretKeySelector, TlsConfig, OpenAgentEndpoint, WhatapPodMonitor, WhatapServiceMonitor,
  WhatapStaticEndpoint, ScrapeSpec,
}
use whatap_operator.OpenAgent.Yaml.{text, object}
use whatap_operator.OpenAgent.Yaml.Entries.{find}
use whatap_operator.OpenAgent.Convert.{secret_path, convert_tls_config, convert_endpoint}
use whatap_operator.OpenAgent.Targets.{
  inline_targets, pod_monitor_target, service_monitor_target, static_target, static_map,
  configured_targets,
}
use whatap_operator.OpenAgent.Scrape.{scrape_config}
use whatap_operator.OpenAgent.Deployment.{
  key_item, VolumeSource, secret, empty_dir, config_map, Volume, tls_volume, open_agent_volumes,
  open_agent_pod, Credentials, OpenAgentSpec,
}
use whatap_operator.OpenAgent.Deployment.Named.{
  target_names, target_names-endpoints, any-add_gpu_target,
}
use whatap_operator.OpenAgent.Deployment.SecretFiles.{Written, Written-path, endpoint_tls}
use whatap_operator.TlsSecrets.{collect_all_tls_secrets}
use whatap_operator.TlsSecrets.Collected.{target_refers, monitor_refers}
use whatap_operator.TlsSecrets.Clean.{lacks_key, all-collect_all_tls_secrets}

-- Whether a volume has the key `k` of the secret `n`: a volume of a secret has all of its keys
-- unless it lists some.
module _ (n k : String) where
  abbrev pub source_holds : VolumeSource → Bool
  source_holds empty_dir = false
  source_holds (config_map m) = false
  source_holds (secret m optional items) = m == n && (is_empty items || any (λ i. i.key == k) items)

  abbrev pub holds_key : Volume → Bool
  holds_key v = source_holds v.source

  any_key : (ks : List String) → any (λ i. i.key == k) (map key_item ks) ≡ contains ks k
  any_key [] = refl
  any_key (x ∷ ks) = ap (λ b. x == k || b) (any_key ks)

  empty_items : (ks : List String) → is_empty (map key_item ks) ≡ is_empty ks
  empty_items [] = refl
  empty_items (x ∷ ks) = refl

  holds_key-tls_volume :
      (secrets : Dict (List String))
      → all (lacks_key n k) secrets ≡ true
      → any holds_key (map tls_volume secrets) ≡ false
  holds_key-tls_volume [] h = refl
  holds_key-tls_volume ((m, ks) ∷ secrets) h =
      ground (arith, any_key ks, empty_items ks, holds_key-tls_volume secrets)

  holds_key-open_agent_pod :
      (cr : Credentials) (spec : OpenAgentSpec) (secrets : Dict (List String))
      → all (lacks_key n k) secrets ≡ true
      → any holds_key (open_agent_pod cr spec secrets).volumes ≡ false
  unfolding open_agent_pod open_agent_volumes
  holds_key-open_agent_pod cr spec secrets h = holds_key-tls_volume secrets h

static_named :
    (scrape : ScrapeSpec) (pods : List WhatapPodMonitor) (services : List WhatapServiceMonitor)
    (statics : List WhatapStaticEndpoint) (se : WhatapStaticEndpoint) (e : OpenAgentEndpoint)
    (tls : TlsConfig) (k file : String)
    → Memᴰ se statics
    → Memᴰ e se.endpoints
    → find "tlsConfig" (convert_endpoint e) ≡ some (object (convert_tls_config tls))
    → find k (convert_tls_config tls) ≡ some (text file)
    → any
        (target_names k file)
        (configured_targets scrape.targets (some pods) (some services) (some statics))
      ≡ true
unfolding configured_targets static_target static_map
static_named scrape pods services statics se e tls k file m mem w n =
    let named = target_names k file in
    any_append_right named (inline_targets scrape.targets) _ (
      any_append_right named (map pod_monitor_target pods) _ (
        any_append_right named (map service_monitor_target services) _ (
          any_of_mapped named static_target statics se m
            (target_names-endpoints k file e tls w n se.endpoints _ mem))))

-- If an endpoint of a WhatapStaticEndpoint gives a certificate or key by a secret that no inline
-- target, pod monitor or service monitor refers to, then a target of the scrape configuration names
-- a path for it as for any other endpoint, but no volume of the OpenAgent's pod has that key of that
-- secret.
pub static_secret_not_collected :
    (scrape : ScrapeSpec) (ns : String) (pods : List WhatapPodMonitor)
    (services : List WhatapServiceMonitor) (statics : List WhatapStaticEndpoint) (cr : Credentials)
    (spec : OpenAgentSpec) (se : WhatapStaticEndpoint) (e : OpenAgentEndpoint) (tls : TlsConfig)
    (k : String) (s : SecretKeySelector)
    → Memᴰ se statics
    → Memᴰ e se.endpoints
    → e.tls_config ≡ some tls
    → Written tls k s
    → any (target_refers s.name s.key) scrape.targets ≡ false
    → any (monitor_refers s.name s.key) pods ≡ false
    → any (monitor_refers s.name s.key) services ≡ false
    → (any
          (target_names k (secret_path s))
          (scrape_config scrape ns (some pods) (some services) (some statics)).targets
        ≡ true)
      × (any
            (holds_key s.name s.key)
            (open_agent_pod cr spec
              (collect_all_tls_secrets scrape.targets (some pods) (some services))).volumes
          ≡ false)
unfolding scrape_config
static_secret_not_collected scrape ns pods services statics cr spec se e tls k s m mem h w t p r = (
  any-add_gpu_target (target_names k (secret_path s)) ns scrape _ (
      static_named scrape pods services statics se e tls k (secret_path s) m mem
        (endpoint_tls e tls h) (Written-path tls k s w)),
  holds_key-open_agent_pod s.name s.key cr spec _
      (all-collect_all_tls_secrets s.name s.key scrape.targets pods services t p r),
)
