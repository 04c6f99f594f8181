-- ===== src/OpenAgent/Deployment.antt =====
-- The pod of the OpenAgent's Deployment (internal/controller/install_agents.go, installOpenAgent
-- and the functions behind it that it calls). What the operator only copies from the resource into
-- the pod (tolerations, pull secrets) is a list of texts here. The source walks the map of TLS secrets in
-- Go's random order: here that is the order of the map's entries.
pub mod Mounted
pub mod Named
pub mod SecretFiles
pub mod Statics
pub mod VolumeOrder
use whatap_operator.Prelude.{
  String, Bool, true, false, Option, none, some, List, [], ◌∷◌, ◌++◌, map, Dict, with_labels,
  if◌then◌else◌, or_default, ◌==◌, ◌⊕◌,
}
use whatap_operator.Env.{EnvVar, env_value, secret_key_ref}
use whatap_operator.NodeAgent.{Affinity}
use whatap_operator.Workload.{SecurityContext}

pub record KeyToPath : Type 0 where
  pub key : String
  pub path : String

-- `secret` has the name, whether it is optional, and the items.
pub data VolumeSource : Type 0 where
  empty_dir : VolumeSource
  config_map : String → VolumeSource
  secret : String → Bool → List KeyToPath → VolumeSource

pub record Volume : Type 0 where
  pub name : String
  pub source : VolumeSource

pub record VolumeMount : Type 0 where
  pub name : String
  pub mount_path : String
  pub sub_path : String
  pub read_only : Bool

abbrev pub tls_volume_name : String → String
tls_volume_name secret_name = "tls-secret-" ⊕ secret_name

abbrev pub key_item : String → KeyToPath
key_item k = record { key = k; path = k }

abbrev pub tls_volume : String × List String → Volume
tls_volume (secret_name, keys) = record {
  name = tls_volume_name secret_name;
  source = secret secret_name true (map key_item keys);
}

abbrev pub tls_mount : String × List String → VolumeMount
tls_mount (secret_name, keys) = record {
  name = tls_volume_name secret_name;
  mount_path = "/etc/ssl/certs/" ⊕ secret_name;
  sub_path = "";
  read_only = true;
}

unfoldable pub open_agent_volumes : Dict (List String) → List Volume
open_agent_volumes tls_secrets =
    record { name = "logs-volume"; source = empty_dir }
    ∷ record { name = "config-volume"; source = config_map "whatap-open-agent-config" }
    ∷ map tls_volume tls_secrets

unfoldable pub open_agent_mounts : Dict (List String) → List VolumeMount
open_agent_mounts tls_secrets =
    record { name = "logs-volume"; mount_path = "/app/logs"; sub_path = ""; read_only = false }
    ∷ record {
      name = "config-volume";
      mount_path = "/app/scrape_config.yaml";
      sub_path = "scrape_config.yaml";
      read_only = false;
    }
    ∷ map tls_mount tls_secrets

-- The fields of spec.features.openAgent that the Deployment uses, without the targets.
pub record OpenAgentSpec : Type 0 where
  pub image_name : String
  pub image_version : String
  pub custom_image_full_name : String
  pub pod_labels : Dict String
  pub pod_annotations : Dict String
  pub image_pull_secrets : List String
  pub priority_class_name : String
  pub node_selector : Dict String
  pub affinity : Option Affinity
  pub tolerations : List String
  pub node_name : String
  pub pod_security_context : Option SecurityContext
  pub envs : List EnvVar
  pub disable_foreground : Bool

-- spec.license, spec.host and spec.port.
pub record Credentials : Type 0 where
  pub license : String
  pub host : String
  pub port : String

-- A value of the resource, or the entry of the Secret whatap-credentials under the variable's name.
abbrev pub credential_env_var : String → String → EnvVar
credential_env_var var value =
    if value == ""
    then record {
      name = var;
      value = "";
      value_from = some (secret_key_ref "whatap-credentials" var);
    }
    else env_value var value

unfoldable pub credential_env_vars : Credentials → List EnvVar
credential_env_vars cr =
    credential_env_var "WHATAP_LICENSE" cr.license
    ∷ credential_env_var "WHATAP_HOST" cr.host
    ∷ credential_env_var "WHATAP_PORT" cr.port
    ∷ []

unfoldable pub get_open_agent_image : OpenAgentSpec → String
get_open_agent_image spec =
    let image_name =
      if spec.image_name == "" then "public.ecr.aws/whatap/open_agent" else spec.image_name in
    let image_version = if spec.image_version == "" then "latest" else spec.image_version in
    if spec.custom_image_full_name == ""
    then image_name ⊕ ":" ⊕ image_version
    else spec.custom_image_full_name

unfoldable pub get_open_agent_args : OpenAgentSpec → List String
get_open_agent_args spec = if spec.disable_foreground then "-d" ∷ [] else []

unfoldable pub get_open_agent_command : OpenAgentSpec → List String
get_open_agent_command spec = []

abbrev pub default_security_context : SecurityContext
default_security_context = record {
  se_linux_options = none;
  windows_options = none;
  run_as_user = some "1001";
  run_as_group = none;
  run_as_non_root = some "true";
  supplemental_groups = none;
  fs_group = none;
  sysctls = none;
  fs_group_change_policy = none;
  seccomp_profile = some "RuntimeDefault";
}

-- The wanted pod template, with its one container. A missing map of labels or annotations is
-- empty.
pub record OpenAgentPod : Type 0 where
  pub labels : Dict String
  pub annotations : Dict String
  pub service_account_name : String
  pub tolerations : List String
  pub affinity : Option Affinity
  pub node_selector : Dict String
  pub priority_class_name : String
  pub image_pull_secrets : List String
  pub node_name : String
  pub security_context : SecurityContext
  pub container_name : String
  pub image : String
  pub command : List String
  pub args : List String
  pub env : List EnvVar
  pub volume_mounts : List VolumeMount
  pub volumes : List Volume

unfoldable pub open_agent_pod : Credentials → OpenAgentSpec → Dict (List String) → OpenAgentPod
open_agent_pod cr spec tls_secrets = record {
  labels = with_labels spec.pod_labels (("app", "whatap-open-agent") ∷ []);
  annotations = with_labels spec.pod_annotations [];
  service_account_name = "whatap-open-agent-sa";
  tolerations = spec.tolerations;
  affinity = spec.affinity;
  node_selector = spec.node_selector;
  priority_class_name = spec.priority_class_name;
  image_pull_secrets = spec.image_pull_secrets;
  node_name = spec.node_name;
  security_context = or_default spec.pod_security_context default_security_context;
  container_name = "whatap-open-agent";
  image = get_open_agent_image spec;
  command = get_open_agent_command spec;
  args = get_open_agent_args spec;
  env = credential_env_vars cr ++ spec.envs;
  volume_mounts = open_agent_mounts tls_secrets;
  volumes = open_agent_volumes tls_secrets;
}
