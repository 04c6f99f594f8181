-- ===== src/Tests/Samples.antt =====
-- Sample data: an instrumented pod, as in internal/webhook/v2alpha1/injector_env_test.go.
use whatap_operator.Prelude.{String, true, none, some, [], ◌∷◌, Dict, Option}
use whatap_operator.Env.{env_value}
use whatap_operator.Webhook.Types.{
  EnvConfig, TargetSpec, InstrumentationSpec, WhatapAgent, Container, Pod, PodSpec,
  ResourceRequirements, empty_dir,
}

abbrev pub cfg : EnvConfig
cfg = record {
  whatap_license = "license-of-operator";
  whatap_host = "10.0.0.1";
  whatap_port = "6600";
  whatap_default_namespace = "whatap-monitoring";
  enable_webhooks = "";
  debug_mode = "";
}

abbrev pub no_resources : ResourceRequirements
no_resources = record { requests = []; limits = [] }

-- A container into which another agent put its own server host, and which has a PYTHONPATH.
abbrev pub container : Container
container = record {
  name = "app";
  image = "app:1";
  image_pull_policy = "";
  command = [];
  args = [];
  env =
      env_value "WHATAP_SERVER_HOST" "127.0.0.1"
      ∷ env_value "whatap.server.host" "127.0.0.1"
      ∷ env_value "PYTHONPATH" "/app"
      ∷ env_value "JAVA_TOOL_OPTIONS" "-Xmx1g"
      ∷ env_value "MODE" "blue"
      ∷ [];
  volume_mounts = record { name = "data"; mount_path = "/data" } ∷ [];
  security_context = none;
  resources = no_resources;
}

abbrev pub target : TargetSpec
target = record {
  name = "shop";
  enabled = true;
  language = "java";
  whatap_apm_versions = ("java", "2.2.58") ∷ [];
  custom_image_full_name = "";
  custom_image_name = "";
  envs = env_value "MODE" "green" ∷ env_value "license" "stale" ∷ [];
  namespace_selector = record {
    match_names = "shop" ∷ [];
    match_labels = [];
    match_expressions = [];
  };
  pod_selector = record {
    match_labels = ("app", "shop") ∷ [];
    match_expressions = record { key = "tier"; operator = "NotIn"; values = "test" ∷ [] } ∷ [];
  };
  config = record {
    mode = "custom";
    config_map_ref = some "shop-conf";
    volume_name = "";
    mount_path = "";
    plugin_config_map_ref = none;
  };
  init_container_security = none;
  init_container_resources = none;
  image_pull_secrets = "pull" ∷ [];
}

abbrev pub instrumentation : InstrumentationSpec
instrumentation = record {
  enabled = true;
  init_container_security = none;
  init_container_resources = none;
  targets = target ∷ [];
}

abbrev pub agent : WhatapAgent
agent = record {
  name = "whatap";
  license = "";
  host = "";
  port = "";
  namespace = "";
  instrumentation = instrumentation;
}

abbrev pub pod_spec : PodSpec
pod_spec = record {
  image_pull_secrets = "pull" ∷ [];
  init_containers = [];
  volumes = record { name = "data"; source = empty_dir } ∷ [];
  containers = container ∷ [];
}

abbrev pub pod : Pod
pod = record {
  namespace = "shop";
  labels = ("app", "shop") ∷ [];
  annotations = [];
  spec = pod_spec;
}

-- The cluster's namespaces.
abbrev pub namespaces : String → Option (Dict String)
namespaces name = some []
