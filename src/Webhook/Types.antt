-- ===== src/Webhook/Types.antt =====
-- The parts of the API types that the webhooks read (api/v2alpha1/whatapagent_types.go), of the
-- Kubernetes types that they write, and the operator's environment (internal/config/env.go).
-- A nil pointer is `none`, an unset text is "", and a quantity is the text that it is parsed from.
use whatap_operator.Prelude.{String, Bool, Option, ℕ, List, Dict, if◌then◌else◌, ◌==◌}
use whatap_operator.Env.{EnvVar}

-- internal/config/env.go, read once from the process environment.
pub record EnvConfig : Type 0 where
  pub whatap_license : String
  pub whatap_host : String
  pub whatap_port : String
  pub whatap_default_namespace : String
  pub enable_webhooks : String
  pub debug_mode : String

unfoldable pub get_env_config : (String → String) → EnvConfig
get_env_config getenv =
    let debug_val = getenv "DEBUG" in
    record {
      whatap_license = getenv "WHATAP_LICENSE";
      whatap_host = getenv "WHATAP_HOST";
      whatap_port = getenv "WHATAP_PORT";
      whatap_default_namespace = getenv "WHATAP_DEFAULT_NAMESPACE";
      enable_webhooks = getenv "ENABLE_WEBHOOKS";
      debug_mode = if debug_val == "" then getenv "debug" else debug_val;
    }

pub record LabelSelectorRequirement : Type 0 where
  pub key : String
  pub operator : String
  pub values : List String

pub record PodSelector : Type 0 where
  pub match_labels : Dict String
  pub match_expressions : List LabelSelectorRequirement

pub record NamespaceSelector : Type 0 where
  pub match_names : List String
  pub match_labels : Dict String
  pub match_expressions : List LabelSelectorRequirement

-- A ConfigMapRef is its name.
pub record ConfigSpec : Type 0 where
  pub mode : String
  pub config_map_ref : Option String
  pub volume_name : String
  pub mount_path : String
  pub plugin_config_map_ref : Option String

pub record InitContainerSecuritySpec : Type 0 where
  pub run_as_non_root : Option Bool
  pub run_as_user : Option ℕ

pub record ResourceRequirements : Type 0 where
  pub requests : Dict String
  pub limits : Dict String

pub record TargetSpec : Type 0 where
  pub name : String
  pub enabled : Bool
  pub language : String
  pub whatap_apm_versions : Dict String
  pub custom_image_full_name : String
  pub custom_image_name : String
  pub envs : List EnvVar
  pub namespace_selector : NamespaceSelector
  pub pod_selector : PodSelector
  pub config : ConfigSpec
  pub init_container_security : Option InitContainerSecuritySpec
  pub init_container_resources : Option ResourceRequirements
  pub image_pull_secrets : List String

pub record InstrumentationSpec : Type 0 where
  pub enabled : Bool
  pub init_container_security : Option InitContainerSecuritySpec
  pub init_container_resources : Option ResourceRequirements
  pub targets : List TargetSpec

-- The fields of the WhatapAgent resource that the webhooks read.
pub record WhatapAgent : Type 0 where
  pub name : String
  pub license : String
  pub host : String
  pub port : String
  pub namespace : String
  pub instrumentation : InstrumentationSpec

pub record VolumeMount : Type 0 where
  pub name : String
  pub mount_path : String

pub record SecurityContext : Type 0 where
  pub run_as_non_root : Option Bool
  pub run_as_user : Option ℕ

pub data VolumeSource : Type 0 where
  empty_dir : VolumeSource
  config_map : String → VolumeSource
  other_source : String → VolumeSource

pub record Volume : Type 0 where
  pub name : String
  pub source : VolumeSource

pub record Container : Type 0 where
  pub name : String
  pub image : String
  pub image_pull_policy : String
  pub command : List String
  pub args : List String
  pub env : List EnvVar
  pub volume_mounts : List VolumeMount
  pub security_context : Option SecurityContext
  pub resources : ResourceRequirements

-- An image pull secret is its name.
pub record PodSpec : Type 0 where
  pub image_pull_secrets : List String
  pub init_containers : List Container
  pub volumes : List Volume
  pub containers : List Container

pub record Pod : Type 0 where
  pub namespace : String
  pub labels : Dict String
  pub annotations : Dict String
  pub spec : PodSpec
