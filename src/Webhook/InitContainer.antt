-- ===== src/Webhook/InitContainer.antt =====
-- createAgentInitContainers of internal/webhook/v2alpha1/process_deployments.go and getAgentImage
-- of utils.go: the container that copies the agent into the shared volume.
pub mod Security
use whatap_operator.Prelude.{
  String, Bool, true, false, Option, none, some, List, [], ◌∷◌, if◌then◌else◌, ◌==◌, or_default,
  or_else, is_some, ◌⊕◌, ◌||◌, ℕ,
}
use whatap_operator.Env.{EnvVar, env_value}
use whatap_operator.Webhook.Names.{
  env_app_name, env_app_process_name, env_okind, init_container_name, volume_name_whatap_agent,
  mount_path_whatap_agent,
}
use whatap_operator.Webhook.Types.{
  EnvConfig, TargetSpec, InstrumentationSpec, InitContainerSecuritySpec, ResourceRequirements,
  SecurityContext, VolumeMount, Container,
}
use whatap_operator.Webhook.Injector.{
  get_whatap_license_env_var, get_whatap_host_env_var, get_whatap_port_env_var, AppConfig,
  get_python_app_config, get_nodejs_app_config,
}

unfoldable pub get_agent_image : TargetSpec → String → String → String
get_agent_image target lang version =
    if target.custom_image_full_name == ""
    then (if target.custom_image_name == ""
        then "public.ecr.aws/whatap/apm-init-" ⊕ lang ⊕ ":" ⊕ version
        else target.custom_image_name)
    else target.custom_image_full_name

-- The overrides of a level that sets any.
abbrev overrides_of : Option InitContainerSecuritySpec → SecurityContext
overrides_of none = record { run_as_non_root = none; run_as_user = none }
overrides_of (some s) = record { run_as_non_root = s.run_as_non_root; run_as_user = s.run_as_user }

abbrev pub sets_any : SecurityContext → Bool
sets_any c = is_some c.run_as_non_root || is_some c.run_as_user

unfoldable pub init_security_context : TargetSpec → InstrumentationSpec → SecurityContext
init_security_context target instrumentation =
    let of_target = overrides_of target.init_container_security in
    let overrides =
      (if sets_any of_target
        then of_target
        else overrides_of instrumentation.init_container_security) in
    if sets_any overrides
    then overrides
    else record { run_as_non_root = some true; run_as_user = none }

abbrev pub default_init_resources : ResourceRequirements
default_init_resources = record {
  requests = [];
  limits = ("cpu", "200m") ∷ ("memory", "256Mi") ∷ [];
}

unfoldable pub init_resources : TargetSpec → InstrumentationSpec → ResourceRequirements
init_resources target instrumentation =
    or_default (or_else target.init_container_resources instrumentation.init_container_resources)
      default_init_resources

abbrev connection_env_vars : EnvConfig → TargetSpec → List EnvVar
connection_env_vars cfg target =
    get_whatap_license_env_var cfg target
    ∷ get_whatap_host_env_var cfg target
    ∷ get_whatap_port_env_var cfg target
    ∷ []

abbrev app_env_vars : EnvConfig → TargetSpec → AppConfig → List EnvVar
app_env_vars cfg target app =
    get_whatap_license_env_var cfg target
    ∷ get_whatap_host_env_var cfg target
    ∷ get_whatap_port_env_var cfg target
    ∷ env_value env_app_name app.app_name
    ∷ env_value env_app_process_name app.app_process_name
    ∷ env_value env_okind app.okind
    ∷ []

unfoldable pub init_env_vars : EnvConfig → TargetSpec → String → List EnvVar
init_env_vars cfg target lang =
    if lang == "python"
    then app_env_vars cfg target (get_python_app_config target.envs)
    else if lang == "java"
    then connection_env_vars cfg target
    else if lang == "nodejs"
    then app_env_vars cfg target (get_nodejs_app_config target.envs)
    else []

abbrev pub agent_mount : VolumeMount
agent_mount = record { name = volume_name_whatap_agent; mount_path = mount_path_whatap_agent }

unfoldable pub create_agent_init_containers :
    EnvConfig → TargetSpec → InstrumentationSpec → String → String → List Container
create_agent_init_containers cfg target instrumentation lang version =
    record {
      name = init_container_name;
      image = get_agent_image target lang version;
      image_pull_policy = "Always";
      command = [];
      args = [];
      env = init_env_vars cfg target lang;
      volume_mounts = agent_mount ∷ [];
      security_context = some (init_security_context target instrumentation);
      resources = init_resources target instrumentation;
    }
    ∷ []
