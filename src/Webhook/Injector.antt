-- ===== src/Webhook/Injector.antt =====
-- The environment that the webhook gives to an application container
-- (internal/webhook/v2alpha1/injector_java.go, injector_python.go, injector_nodejs.go,
-- and the credentials of utils.go and injectLanguageSpecificEnvVars of process_deployments.go).
pub mod Steps
pub mod Managed
pub mod Connection
pub mod Preserved
pub mod Paths
pub mod NodejsPaths
use whatap_operator.Prelude.{
  String, Bool, Option, none, some, List, [], ◌∷◌, ◌++◌, if◌then◌else◌, ◌==◌, contains, is_empty,
  not, or_default, ◌⊕◌, foldl,
}
use whatap_operator.Env.{
  EnvVar, field_ref, env_value, env_field, has_name, find_env_value_by_keys, upsert_env_vars,
  combine_env_vars,
}
use whatap_operator.Webhook.Names.{
  env_whatap_license, env_whatap_host, env_whatap_port, env_node_ip, env_node_name, env_pod_name,
  env_whatap_micro_enabled, val_true, env_java_license, env_java_whatap_host, env_java_whatap_port,
  env_java_agent_path, env_java_tool_options, val_java_agent_path, val_java_agent_option_prefix,
  env_python_license, env_python_whatap_host, env_python_whatap_port, env_python_agent_path,
  env_whatap_home, env_app_name, env_app_process_name, env_okind, env_python_path, val_whatap_home,
  val_python_bootstrap, val_python_agent_path, env_nodejs_license, env_nodejs_whatap_host,
  env_nodejs_whatap_port, env_nodejs_agent_path, env_nodejs_options, env_nodejs_path,
  val_nodejs_agent_path, val_nodejs_modules, val_nodejs_require, python_force_env_names,
  nodejs_force_env_names, operator_managed_env_names,
}
use whatap_operator.Webhook.Types.{EnvConfig, TargetSpec, Container}

-- The credentials: an override in the target's variables, or else the operator's environment.
pub license_value : EnvConfig → TargetSpec → String
license_value cfg target =
    or_default (find_env_value_by_keys target.envs (env_whatap_license ∷ env_java_license ∷ []))
      cfg.whatap_license

pub host_value : EnvConfig → TargetSpec → String
host_value cfg target =
    or_default
      (find_env_value_by_keys target.envs (
        env_whatap_host ∷ env_java_whatap_host ∷ env_python_whatap_host ∷ env_nodejs_whatap_host
        ∷ []))
      cfg.whatap_host

pub port_value : EnvConfig → TargetSpec → String
port_value cfg target =
    or_default
      (find_env_value_by_keys target.envs (
        env_whatap_port ∷ env_java_whatap_port ∷ env_python_whatap_port ∷ env_nodejs_whatap_port
        ∷ []))
      cfg.whatap_port

abbrev pub get_whatap_license_env_var : EnvConfig → TargetSpec → EnvVar
get_whatap_license_env_var cfg target = env_value env_whatap_license (license_value cfg target)

abbrev pub get_whatap_host_env_var : EnvConfig → TargetSpec → EnvVar
get_whatap_host_env_var cfg target = env_value env_whatap_host (host_value cfg target)

abbrev pub get_whatap_port_env_var : EnvConfig → TargetSpec → EnvVar
get_whatap_port_env_var cfg target = env_value env_whatap_port (port_value cfg target)

-- A credential under the name that the agent of a language reads.
abbrev pub renamed : String → EnvVar → EnvVar
renamed n e = record e { name = n }

-- The downward-API variables, which every language gets.
abbrev pub pod_metadata : List EnvVar
pod_metadata =
    env_field env_node_ip "status.hostIP"
    ∷ env_field env_node_name "spec.nodeName"
    ∷ env_field env_pod_name "metadata.name"
    ∷ []

-- The first JAVA_TOOL_OPTIONS gets the option behind its value; where there is none it is added.
pub inject_java_tool_options : List EnvVar → String → List EnvVar
inject_java_tool_options [] agent_option = env_value env_java_tool_options agent_option ∷ []
inject_java_tool_options (e ∷ es) agent_option =
    let rest = inject_java_tool_options es agent_option in
    if e.name == env_java_tool_options
    then record e { value = e.value ⊕ " " ⊕ agent_option } ∷ es
    else e ∷ rest

-- An agent path that neither the container nor the list has is added to the list.
pub add_agent_path : List EnvVar → List EnvVar → String → String → List EnvVar
add_agent_path container_env env_vars name path =
    if has_name name container_env
    then env_vars
    else if has_name name env_vars
    then env_vars
    else env_vars ++ env_value name path ∷ []

abbrev pub java_agent_option : String
java_agent_option = val_java_agent_option_prefix ⊕ val_java_agent_path

abbrev pub java_env_vars : EnvConfig → TargetSpec → List EnvVar
java_env_vars cfg target =
    renamed env_java_license (get_whatap_license_env_var cfg target)
    ∷ renamed env_java_whatap_host (get_whatap_host_env_var cfg target)
    ∷ renamed env_java_whatap_port (get_whatap_port_env_var cfg target)
    ∷ env_value env_whatap_micro_enabled val_true
    ∷ pod_metadata

pub inject_java_env_vars : EnvConfig → Container → TargetSpec → List EnvVar
inject_java_env_vars cfg container target =
    let env_vars = inject_java_tool_options container.env java_agent_option in
    let with_path = add_agent_path container.env env_vars env_java_agent_path val_java_agent_path in
    upsert_env_vars with_path (java_env_vars cfg target)

-- getPythonAppConfig and getNodejsAppConfig: the last value of each name counts.
pub record AppConfig : Type 0 where
  pub app_name : String
  pub app_process_name : String
  pub okind : String

abbrev app_config_step : AppConfig → EnvVar → AppConfig
app_config_step c e =
    if e.name == env_app_name
    then record c { app_name = e.value }
    else if e.name == env_app_process_name
    then record c { app_process_name = e.value }
    else if e.name == env_okind
    then record c { okind = e.value }
    else c

unfoldable pub get_python_app_config : List EnvVar → AppConfig
get_python_app_config =
    foldl app_config_step (record { app_name = ""; app_process_name = ""; okind = "" })

unfoldable pub get_nodejs_app_config : List EnvVar → AppConfig
get_nodejs_app_config =
    foldl app_config_step (record { app_name = ""; app_process_name = ""; okind = "" })

-- The search path of a language: the first entry of the name gets the directory in front of its
-- value, unless the value comes from elsewhere; where there is none it is added.
pub inject_python_path : List EnvVar → String → List EnvVar
inject_python_path [] bootstrap_path = env_value env_python_path bootstrap_path ∷ []
inject_python_path (e ∷ es) bootstrap_path =
    let rest = inject_python_path es bootstrap_path in
    if e.name == env_python_path
    then elim e.value_from [
      | some source ↦ e ∷ es
      | none ↦ record e { value = bootstrap_path ⊕ ":" ⊕ e.value } ∷ es
    ]
    else e ∷ rest

pub inject_nodejs_path : List EnvVar → String → List EnvVar
inject_nodejs_path [] modules_path = env_value env_nodejs_path modules_path ∷ []
inject_nodejs_path (e ∷ es) modules_path =
    let rest = inject_nodejs_path es modules_path in
    if e.name == env_nodejs_path
    then elim e.value_from [
      | some source ↦ e ∷ es
      | none ↦ record e { value = modules_path ⊕ ":" ⊕ e.value } ∷ es
    ]
    else e ∷ rest

pub inject_nodejs_options : List EnvVar → String → List EnvVar
inject_nodejs_options [] require_option = env_value env_nodejs_options require_option ∷ []
inject_nodejs_options (e ∷ es) require_option =
    let rest = inject_nodejs_options es require_option in
    if e.name == env_nodejs_options
    then elim e.value_from [
      | some source ↦ e ∷ es
      | none ↦ record e { value = require_option ⊕ " " ⊕ e.value } ∷ es
    ]
    else e ∷ rest

abbrev app_name_or : String → Container → String
app_name_or app_name container = if app_name == "" then container.name else app_name

-- The list before the search path and the agent path are added.
abbrev python_base_env_vars : EnvConfig → Container → TargetSpec → AppConfig → List EnvVar
python_base_env_vars cfg container target app =
    renamed env_python_license (get_whatap_license_env_var cfg target)
    ∷ renamed env_python_whatap_host (get_whatap_host_env_var cfg target)
    ∷ renamed env_python_whatap_port (get_whatap_port_env_var cfg target)
    ∷ env_value env_app_name (app_name_or app.app_name container)
    ∷ env_value env_app_process_name app.app_process_name
    ∷ env_value env_whatap_home val_whatap_home
    ∷ env_value env_whatap_micro_enabled val_true
    ∷ pod_metadata

abbrev with_okind : List EnvVar → String → List EnvVar
with_okind env_vars okind =
    if okind == "" then env_vars else env_vars ++ env_value env_okind okind ∷ []

pub python_env_vars : EnvConfig → Container → TargetSpec → List EnvVar
python_env_vars cfg container target =
    let app = get_python_app_config target.envs in
    let named = with_okind (python_base_env_vars cfg container target app) app.okind in
    let with_path = inject_python_path named val_python_bootstrap in
    add_agent_path container.env with_path env_python_agent_path val_python_agent_path

pub inject_python_env_vars : EnvConfig → Container → TargetSpec → List EnvVar
inject_python_env_vars cfg container target =
    combine_env_vars container.env (python_env_vars cfg container target)
      (contains python_force_env_names)

abbrev nodejs_base_env_vars : EnvConfig → Container → TargetSpec → AppConfig → List EnvVar
nodejs_base_env_vars cfg container target app =
    renamed env_nodejs_license (get_whatap_license_env_var cfg target)
    ∷ renamed env_nodejs_whatap_host (get_whatap_host_env_var cfg target)
    ∷ renamed env_nodejs_whatap_port (get_whatap_port_env_var cfg target)
    ∷ env_value env_app_name (app_name_or app.app_name container)
    ∷ env_value env_app_process_name app.app_process_name
    ∷ env_value env_whatap_home val_whatap_home
    ∷ env_value env_whatap_micro_enabled val_true
    ∷ pod_metadata

pub nodejs_env_vars : EnvConfig → Container → TargetSpec → List EnvVar
nodejs_env_vars cfg container target =
    let app = get_nodejs_app_config target.envs in
    let named = with_okind (nodejs_base_env_vars cfg container target app) app.okind in
    let with_path = inject_nodejs_path named val_nodejs_modules in
    let with_options = inject_nodejs_options with_path val_nodejs_require in
    add_agent_path container.env with_options env_nodejs_agent_path val_nodejs_agent_path

pub inject_nodejs_env_vars : EnvConfig → Container → TargetSpec → List EnvVar
inject_nodejs_env_vars cfg container target =
    combine_env_vars container.env (nodejs_env_vars cfg container target)
      (contains nodejs_force_env_names)

pub language_env_vars : EnvConfig → Container → TargetSpec → String → List EnvVar
language_env_vars cfg container target lang =
    if lang == "java"
    then inject_java_env_vars cfg container target
    else if lang == "python"
    then inject_python_env_vars cfg container target
    else if lang == "nodejs"
    then inject_nodejs_env_vars cfg container target
    else container.env

-- The names that a variable of the target may override.
abbrev pub is_unmanaged : String → Bool
is_unmanaged name = not (contains operator_managed_env_names name)

unfoldable pub inject_language_specific_env_vars :
    EnvConfig → Container → TargetSpec → String → List EnvVar
inject_language_specific_env_vars cfg container target lang =
    let envs = language_env_vars cfg container target lang in
    if is_empty target.envs then envs else combine_env_vars envs target.envs is_unmanaged
