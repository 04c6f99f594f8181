-- ===== src/OpenAgent/Types.antt =====
-- The types of the OpenAgent's configuration (api/v2alpha1/whatapagent_types.go,
-- whatappodmonitor_types.go, whatapservicemonitor_types.go, whatapstaticendpoint_types.go): the
-- fields that internal/controller/install_agents.go reads. A nil pointer is `none`, an unset text
-- is "", a nil list is empty.
use whatap_operator.Prelude.{String, Bool, ℕ, Option, List, Dict}
use whatap_operator.NodeAgent.{Affinity}
use whatap_operator.Webhook.Types.{NamespaceSelector, PodSelector}

pub record SecretKeySelector : Type 0 where
  pub name : String
  pub key : String
  pub namespace : String

pub record BasicAuthConfig : Type 0 where
  pub username : Option SecretKeySelector
  pub password : Option SecretKeySelector

pub record AuthorizationConfig : Type 0 where
  pub type : String
  pub credentials : String
  pub credentials_env : String
  pub credentials_file : String
  pub credentials_secret : Option SecretKeySelector

pub record TlsConfig : Type 0 where
  pub insecure_skip_verify : Bool
  pub ca_secret : Option SecretKeySelector
  pub cert_secret : Option SecretKeySelector
  pub key_secret : Option SecretKeySelector
  pub ca_file : String
  pub cert_file : String
  pub key_file : String
  pub server_name : String

-- The modulus is a uint64, which is only copied.
pub record MetricRelabelConfig : Type 0 where
  pub source_labels : List String
  pub separator : String
  pub regex : String
  pub modulus : ℕ
  pub target_label : String
  pub replacement : String
  pub action : String

pub record OpenAgentEndpoint : Type 0 where
  pub port : String
  pub address : String
  pub path : String
  pub interval : String
  pub scheme : String
  pub tls_config : Option TlsConfig
  pub basic_auth : Option BasicAuthConfig
  pub authorization : Option AuthorizationConfig
  pub metric_relabel_configs : List MetricRelabelConfig
  pub params : Dict (List String)
  pub add_node_label : Bool

pub record OpenAgentTargetSpec : Type 0 where
  pub target_name : String
  pub type : String
  pub namespace_selector : NamespaceSelector
  pub selector : PodSelector
  pub relabel_configs : List MetricRelabelConfig
  pub endpoints : List OpenAgentEndpoint
  pub enabled : Bool

-- metav1.LabelSelector has the fields of PodSelector.
abbrev pub LabelSelector : Type 0
LabelSelector = PodSelector

-- A WhatapPodMonitor with the two fields of its metadata that are read.
pub record WhatapPodMonitor : Type 0 where
  pub namespace : String
  pub name : String
  pub selector : LabelSelector
  pub namespace_selector : Option NamespaceSelector
  pub endpoints : List OpenAgentEndpoint
  pub relabel_configs : List MetricRelabelConfig
  pub job_label : String

-- WhatapServiceMonitorSpec has the fields of WhatapPodMonitorSpec.
abbrev pub WhatapServiceMonitor : Type 0
WhatapServiceMonitor = WhatapPodMonitor

pub record WhatapStaticEndpoint : Type 0 where
  pub namespace : String
  pub name : String
  pub endpoints : List OpenAgentEndpoint
  pub relabel_configs : List MetricRelabelConfig
  pub job_label : String

-- The fields of spec.features.k8sAgent.gpuMonitoring that the scrape configuration reads.
pub record GpuMonitoringSpec : Type 0 where
  pub enabled : Bool
  pub node_selector : Dict String
  pub affinity : Option Affinity
  pub interval : String
  pub relabel_configs : List MetricRelabelConfig
  pub metric_relabel_configs : List MetricRelabelConfig
  pub group_label : String
  pub cluster_name : String

-- What the scrape configuration reads of a WhatapAgent: `k8s_namespace` and `pod_labels` are
-- spec.features.k8sAgent.namespace and nodeAgent.podLabels.
pub record ScrapeSpec : Type 0 where
  pub enabled : Bool
  pub targets : List OpenAgentTargetSpec
  pub k8s_namespace : String
  pub pod_labels : Dict String
  pub gpu_monitoring : GpuMonitoringSpec
