-- ===== src/OpenAgent/Deployment/SecretFiles.antt =====
-- That the certificate files of the scrape configuration are files that the OpenAgent's pod mounts
-- (internal/controller/install_agents.go: convertEndpoints, collectAllTLSSecrets and
-- installOpenAgent).
use whatap_operator.Prelude.{
  is_empty, String, true, Option, some, List, map, any_of_mem, any_append_left, any_append_right,
  any_of_mapped, contains, any, ◌||◌, ◌≡◌, refl, ◌∙◌, arith, eq_refl,
}
use mathlib.Core.List.{Memᴰ}
use whatap_operator.OpenAgent.Types.{
  SecretKeySelector, TlsConfig, OpenAgentEndpoint, OpenAgentTargetSpec, WhatapPodMonitor,
  WhatapServiceMonitor, WhatapStaticEndpoint, ScrapeSpec,
}
use whatap_operator.OpenAgent.Yaml.{text, object, flag, texts_map}
use whatap_operator.OpenAgent.Yaml.Entries.{find}
use whatap_operator.OpenAgent.Convert.{
  secret_path, tls_file, convert_endpoint, convert_tls_config, endpoint_head, set_tls_config,
  set_params,
}
use whatap_operator.OpenAgent.Convert.Lookup.{
  find-skip, find-assign, find-set, find-set_file, find-set_file_other,
}
use whatap_operator.OpenAgent.Targets.{
  inline_targets, pod_monitor_target, service_monitor_target, monitor_map, configured_targets,
}
use whatap_operator.OpenAgent.Scrape.{scrape_config}
use whatap_operator.OpenAgent.Deployment.Named.{
  target_names, inline_names, target_names-endpoints, any-add_gpu_target,
}
use whatap_operator.OpenAgent.Deployment.{open_agent_pod, Credentials, OpenAgentSpec}
use whatap_operator.TlsSecrets.{keys_of, collect_all_tls_secrets}
use whatap_operator.TlsSecrets.Collected.{
  target_refers, monitor_refers, collect_all_tls_secrets_iff, endpoint_refers,
}
use whatap_operator.OpenAgent.Deployment.Mounted.{keys_mounted, mounts_file}

-- An endpoint of an enabled inline target or of a pod or service monitor.
pub data Monitored (targets : List OpenAgentTargetSpec) (pod_monitors : List WhatapPodMonitor)
    (service_monitors : List WhatapServiceMonitor) (e : OpenAgentEndpoint) : Type 0 where
  of_target :
      (t : OpenAgentTargetSpec)
      → Memᴰ t targets
      → t.enabled ≡ true
      → Memᴰ e t.endpoints
      → Monitored targets pod_monitors service_monitors e
  of_pod_monitor :
      (p : WhatapPodMonitor)
      → Memᴰ p pod_monitors
      → Memᴰ e p.endpoints
      → Monitored targets pod_monitors service_monitors e
  of_service_monitor :
      (s : WhatapServiceMonitor)
      → Memᴰ s service_monitors
      → Memᴰ e s.endpoints
      → Monitored targets pod_monitors service_monitors e

-- A secret whose path stands in the configuration: its selector is set and the file is not.
pub data Written (tls : TlsConfig) : String → SecretKeySelector → Type 0 where
  ca : (s : SecretKeySelector) → tls.ca_secret ≡ some s → tls.ca_file ≡ "" → Written tls "caFile" s
  cert :
      (s : SecretKeySelector)
      → tls.cert_secret ≡ some s
      → tls.cert_file ≡ ""
      → Written tls "certFile" s
  key :
      (s : SecretKeySelector)
      → tls.key_secret ≡ some s
      → tls.key_file ≡ ""
      → Written tls "keyFile" s

path_of_secret :
    (file : String) (o : Option SecretKeySelector) (s : SecretKeySelector)
    → o ≡ some s
    → file ≡ ""
    → tls_file file o ≡ some (secret_path s)
path_of_secret file o s p q = rw (p, q) refl

pub Written-path :
    (tls : TlsConfig) (k : String) (s : SecretKeySelector)
    → Written tls k s
    → find k (convert_tls_config tls) ≡ some (text (secret_path s))
unfolding convert_tls_config
Written-path tls k s (ca s' p q) =
    find-skip k "serverName" _ _ _ refl
    ∙ find-set_file_other k "keyFile" _ _ refl
    ∙ find-set_file_other k "certFile" _ _ refl
    ∙ find-set_file k (secret_path s') _ _ (path_of_secret tls.ca_file tls.ca_secret s' p q)
Written-path tls k s (cert s' p q) =
    find-skip k "serverName" _ _ _ refl
    ∙ find-set_file_other k "keyFile" _ _ refl
    ∙ find-set_file k (secret_path s') _ _ (path_of_secret tls.cert_file tls.cert_secret s' p q)
Written-path tls k s (key s' p q) =
    find-skip k "serverName" _ _ _ refl
    ∙ find-set_file k (secret_path s') _ _ (path_of_secret tls.key_file tls.key_secret s' p q)

pub Written-refers :
    (tls : TlsConfig) (k : String) (s : SecretKeySelector) (e : OpenAgentEndpoint)
    → Written tls k s
    → e.tls_config ≡ some tls
    → endpoint_refers s.name s.key e ≡ true
Written-refers tls k s e (ca s' p q) h = rw (h, p) (ground (arith, eq_refl s'.name, eq_refl s'.key))
Written-refers tls k s e (cert s' p q) h =
    rw (h, p) (ground (arith, eq_refl s'.name, eq_refl s'.key))
Written-refers tls k s e (key s' p q) h =
    rw (h, p) (ground (arith, eq_refl s'.name, eq_refl s'.key))

Monitored-found :
    (targets : List OpenAgentTargetSpec) (pods : List WhatapPodMonitor)
    (services : List WhatapServiceMonitor) (e : OpenAgentEndpoint) (n k : String)
    → Monitored targets pods services e
    → endpoint_refers n k e ≡ true
    → (any (target_refers n k) targets
        || (any (monitor_refers n k) pods || any (monitor_refers n k) services))
      ≡ true
Monitored-found targets pods services e n k (of_target t m on m') h = ground (
  arith,
  any_of_mem (target_refers n k) targets t m (any_of_mem (endpoint_refers n k) t.endpoints e m' h),
)
Monitored-found targets pods services e n k (of_pod_monitor p m m') h = ground (
  arith,
  any_of_mem (monitor_refers n k) pods p m (any_of_mem (endpoint_refers n k) p.endpoints e m' h),
)
Monitored-found targets pods services e n k (of_service_monitor s m m') h = ground (
  arith,
  any_of_mem (monitor_refers n k) services s m
      (any_of_mem (endpoint_refers n k) s.endpoints e m' h),
)

Monitored-collected :
    (targets : List OpenAgentTargetSpec) (pods : List WhatapPodMonitor)
    (services : List WhatapServiceMonitor) (e : OpenAgentEndpoint) (n k : String)
    → Monitored targets pods services e
    → endpoint_refers n k e ≡ true
    → contains (keys_of n (collect_all_tls_secrets targets (some pods) (some services))) k ≡ true
Monitored-collected targets pods services e n k m h =
    collect_all_tls_secrets_iff n k targets (some pods) (some services)
    ∙ Monitored-found targets pods services e n k m h

pub endpoint_tls :
    (e : OpenAgentEndpoint) (tls : TlsConfig)
    → e.tls_config ≡ some tls
    → find "tlsConfig" (convert_endpoint e) ≡ some (object (convert_tls_config tls))
unfolding convert_endpoint
endpoint_tls e tls h =
    let m8 = set_tls_config e.tls_config (endpoint_head e) in
    let m9 = set_params e.params m8 in
    find-skip "tlsConfig" "metricRelabelConfigs" _ _ _ refl
    ∙ find-assign "tlsConfig" "addNodeLabel" (flag true) e.add_node_label m9 refl
    ∙ find-skip "tlsConfig" "params" (texts_map e.params) (is_empty e.params) m8 refl
    ∙ rw h (find-set "tlsConfig" "tlsConfig" (object (convert_tls_config tls)) (endpoint_head e))

Monitored-named :
    (targets : List OpenAgentTargetSpec) (pods : List WhatapPodMonitor)
    (services : List WhatapServiceMonitor) (statics : Option (List WhatapStaticEndpoint))
    (e : OpenAgentEndpoint) (tls : TlsConfig) (k file : String)
    → Monitored targets pods services e
    → find "tlsConfig" (convert_endpoint e) ≡ some (object (convert_tls_config tls))
    → find k (convert_tls_config tls) ≡ some (text file)
    → any (target_names k file) (configured_targets targets (some pods) (some services) statics)
      ≡ true
unfolding configured_targets pod_monitor_target service_monitor_target monitor_map
Monitored-named targets pods services statics e tls k file (of_target t m on mem) w n =
    any_append_left (target_names k file) (inline_targets targets) _
      (inline_names k file e tls w n targets t m on mem)
Monitored-named targets pods services statics e tls k file (of_pod_monitor p m mem) w n =
    any_append_right (target_names k file) (inline_targets targets) _ (
      any_append_left (target_names k file) (map pod_monitor_target pods) _ (
        any_of_mapped (target_names k file) pod_monitor_target pods p m
          (target_names-endpoints k file e tls w n p.endpoints _ mem)))
Monitored-named targets pods services statics e tls k file (of_service_monitor s m mem) w n =
    any_append_right (target_names k file) (inline_targets targets) _ (
      any_append_right (target_names k file) (map pod_monitor_target pods) _ (
        any_append_left (target_names k file) (map service_monitor_target services) _ (
          any_of_mapped (target_names k file) service_monitor_target services s m
            (target_names-endpoints k file e tls w n s.endpoints _ mem))))

-- If the TLS configuration of an endpoint of an enabled inline target, a pod monitor or a service
-- monitor gives a certificate or key by a secret and not by a file, then a target of the scrape
-- configuration names a path for it, and the pod of the OpenAgent has that key of the secret of that
-- name in the pod's own namespace mounted at that path. The namespace of the reference plays no
-- part.
pub secret_files_mounted :
    (scrape : ScrapeSpec) (ns : String) (pods : List WhatapPodMonitor)
    (services : List WhatapServiceMonitor) (statics : Option (List WhatapStaticEndpoint))
    (cr : Credentials) (spec : OpenAgentSpec) (e : OpenAgentEndpoint) (tls : TlsConfig) (k : String)
    (s : SecretKeySelector)
    → Monitored scrape.targets pods services e
    → e.tls_config ≡ some tls
    → Written tls k s
    → (any
          (target_names k (secret_path s))
          (scrape_config scrape ns (some pods) (some services) statics).targets
        ≡ true)
      × (mounts_file s.name s.key (secret_path s) (
            open_agent_pod cr spec
              (collect_all_tls_secrets scrape.targets (some pods) (some services)))
          ≡ true)
unfolding scrape_config
secret_files_mounted scrape ns pods services statics cr spec e tls k s m h w = (
  any-add_gpu_target (target_names k (secret_path s)) ns scrape _ (
      Monitored-named scrape.targets pods services statics e tls k (secret_path s) m
        (endpoint_tls e tls h) (Written-path tls k s w)),
  keys_mounted s.name s.key cr spec _ (
      Monitored-collected scrape.targets pods services e s.name s.key m
        (Written-refers tls k s e w h)),
)
