-- ===== src/NodeAgent/Types.antt =====
-- The types of the pods that the operator installs (api/v2alpha1/whatapagent_types.go, and the part
-- of corev1 that internal/controller/install_agents.go writes). Tolerations and pod security
-- contexts, which are only copied, are texts.
use whatap_operator.Prelude.{String, Bool, Option, List, Dict}
use whatap_operator.Env.{EnvVar}
use whatap_operator.Workload.{Resources}

pub data VolumeSource : Type 0 where
  host_path : String → Option String → VolumeSource
  config_map : String → VolumeSource
  empty_dir : VolumeSource

pub record Volume : Type 0 where
  pub name : String
  pub source : VolumeSource

pub record VolumeMount : Type 0 where
  pub name : String
  pub mount_path : String
  pub sub_path : String
  pub read_only : Bool

-- Ports are by number; the security context of a container is a text.
pub record Container : Type 0 where
  pub name : String
  pub image : String
  pub command : List String
  pub env : List EnvVar
  pub resources : Resources
  pub security_context : Option String
  pub volume_mounts : List VolumeMount

-- Limits that are nil are `none`.
pub record ContainerSpec : Type 0 where
  pub image : String
  pub limits : Option (Dict String)
  pub requests : Dict String
  pub envs : List EnvVar
  pub security_context : Option String

pub record NodeAgentComponentSpec : Type 0 where
  pub tolerations : List String
  pub pod_labels : Dict String
  pub pod_annotations : Dict String
  pub image_pull_secrets : List String
  pub node_helper_container : Option ContainerSpec
  pub node_agent_container : Option ContainerSpec
  pub envs : List EnvVar
  pub runtime : String
  pub runtime_socket_path : String
  pub runtime_class_name : String
  pub host_network : Option Bool
  pub host_pid : Bool
  pub priority_class_name : String
  pub pod_security_context : Option String

-- The fields of spec.features.k8sAgent that name the image, and its pull secrets.
pub record K8sAgentSpec : Type 0 where
  pub custom_image_full_name : String
  pub custom_agent_image_full_name : String
  pub agent_image_name : String
  pub agent_image_version : String
  pub image_pull_secrets : List String

pub record PodTemplate : Type 0 where
  pub labels : Dict String
  pub annotations : Dict String
  pub host_network : Bool
  pub runtime_class_name : Option String
  pub host_pid : Bool
  pub dns_policy : String
  pub service_account_name : String
  pub priority_class_name : String
  pub security_context : String
  pub containers : List Container
  pub tolerations : List String
  pub image_pull_secrets : List String
  pub volumes : List Volume

-- The selector's value for the label "name", and the template.
pub record DaemonSetSpec : Type 0 where
  pub selector_name : String
  pub template : PodTemplate
