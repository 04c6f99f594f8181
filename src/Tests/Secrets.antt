-- ===== src/Tests/Secrets.antt =====
-- The certificates of the OpenAgent's endpoints (internal/controller/install_agents.go) on a
-- sample: their secrets, their paths and the volumes.
use whatap_operator.Prelude.{
  false, true, none, some, [], ◌∷◌, ◌≡◌, ◌≢◌, refl, any, insert, lookup, String, List,
}
use mathlib.Core.List.{Memᴰ}
use whatap_operator.OpenAgent.Types.{
  SecretKeySelector, TlsConfig, OpenAgentEndpoint, WhatapPodMonitor, WhatapStaticEndpoint,
}
use whatap_operator.OpenAgent.Yaml.Determinism.{SameMap}
use whatap_operator.OpenAgent.Convert.{secret_path}
use whatap_operator.OpenAgent.Scrape.{scrape_config}
use whatap_operator.OpenAgent.Deployment.Named.{target_names}
use whatap_operator.OpenAgent.Deployment.{open_agent_pod, open_agent_volumes}
use whatap_operator.OpenAgent.Deployment.Mounted.{mounts_file}
use whatap_operator.OpenAgent.Deployment.SecretFiles.{of_pod_monitor, cert, secret_files_mounted}
use whatap_operator.OpenAgent.Deployment.Statics.{holds_key, static_secret_not_collected}
use whatap_operator.OpenAgent.Deployment.VolumeOrder.{volumes_depend_on_order}
use whatap_operator.TlsSecrets.{
  collect_all_tls_secrets, add_all, add_tls_secrets_from_endpoints, add_endpoint, add,
}
use whatap_operator.Tests.OpenAgent.{scrape, no_endpoint, no_selector, credentials, open_agent_spec}

abbrev client_cert : SecretKeySelector
client_cert = record { name = "etcd-certs"; key = "tls.crt"; namespace = "" }

abbrev client_tls : TlsConfig
client_tls = record {
  insecure_skip_verify = false;
  ca_secret = some (record { name = "etcd-certs"; key = "ca.crt"; namespace = "" });
  cert_secret = some client_cert;
  key_secret = none;
  ca_file = "/etc/ca.crt";
  cert_file = "";
  key_file = "";
  server_name = "etcd";
}

abbrev etcd_endpoint : OpenAgentEndpoint
etcd_endpoint = record no_endpoint { port = "2379"; tls_config = some client_tls }

abbrev etcd : WhatapPodMonitor
etcd = record {
  namespace = "kube-system";
  name = "etcd";
  selector = no_selector;
  namespace_selector = none;
  endpoints = no_endpoint ∷ etcd_endpoint ∷ [];
  relabel_configs = [];
  job_label = "";
}

abbrev static_etcd : WhatapStaticEndpoint
static_etcd = record {
  namespace = "kube-system";
  name = "etcd";
  endpoints = etcd_endpoint ∷ [];
  relabel_configs = [];
  job_label = "";
}

secret_files_mounted_example :
    (any
        (target_names "certFile" (secret_path client_cert))
        (scrape_config scrape "whatap-monitoring" (some (etcd ∷ [])) (some []) none).targets
      ≡ true)
    × (mounts_file "etcd-certs" "tls.crt" (secret_path client_cert) (
          open_agent_pod credentials open_agent_spec
            (collect_all_tls_secrets scrape.targets (some (etcd ∷ [])) (some [])))
        ≡ true)
secret_files_mounted_example =
    secret_files_mounted scrape "whatap-monitoring" (etcd ∷ []) [] none credentials open_agent_spec
      etcd_endpoint client_tls "certFile" client_cert
      (of_pod_monitor etcd (Memᴰ.head refl) (Memᴰ.tail (Memᴰ.head refl))) refl
      (cert client_cert refl refl)

static_secret_not_collected_example :
    (any
        (target_names "certFile" (secret_path client_cert))
        (scrape_config scrape "whatap-monitoring"
          (some [])
          (some [])
          (some (static_etcd ∷ []))).targets
      ≡ true)
    × (any
          (holds_key "etcd-certs" "tls.crt")
          (open_agent_pod credentials open_agent_spec
            (collect_all_tls_secrets scrape.targets (some []) (some []))).volumes
        ≡ false)
static_secret_not_collected_example =
    static_secret_not_collected scrape "whatap-monitoring" [] [] (static_etcd ∷ []) credentials
      open_agent_spec static_etcd etcd_endpoint client_tls "certFile" client_cert (Memᴰ.head refl)
      (Memᴰ.head refl) refl (cert client_cert refl refl) refl refl refl

volumes_depend_on_order_example :
    SameMap {V = List String}
      (("a", "ca.crt" ∷ []) ∷ ("b", "ca.crt" ∷ []) ∷ [])
      (("b", "ca.crt" ∷ []) ∷ ("a", "ca.crt" ∷ []) ∷ [])
    × (open_agent_volumes (("a", "ca.crt" ∷ []) ∷ ("b", "ca.crt" ∷ []) ∷ [])
        ≢ open_agent_volumes (("b", "ca.crt" ∷ []) ∷ ("a", "ca.crt" ∷ []) ∷ []))
volumes_depend_on_order_example =
    volumes_depend_on_order "a" "b" ("ca.crt" ∷ []) ("ca.crt" ∷ []) [] refl

-- Each key once.
collected :
    collect_all_tls_secrets [] (some (etcd ∷ etcd ∷ [])) none
    ≡ ("etcd-certs", "ca.crt" ∷ "tls.crt" ∷ []) ∷ []
unfolding collect_all_tls_secrets add_all add_tls_secrets_from_endpoints add_endpoint add insert
    lookup
collected = refl
