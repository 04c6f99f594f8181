-- ===== src/Tests/Injection.antt =====
-- The environment of injected containers (internal/webhook/v2alpha1), on the sample container.
use whatap_operator.Prelude.{String, Bool, some, List, [], ◌∷◌, ◌==◌, ◌≡◌, refl, All, or_else}
use whatap_operator.Env.{EnvVar, env_value, effective, combine_env_vars}
use whatap_operator.Webhook.Names.{
  env_java_tool_options, env_python_path, env_python_agent_path, val_python_bootstrap,
  val_python_agent_path,
}
use whatap_operator.Webhook.Injector.{inject_language_specific_env_vars, java_agent_option}
use whatap_operator.Webhook.Injector.Connection.{
  IsGivenOnce, java_connection, python_connection, nodejs_connection, java_connection_forced,
  python_connection_forced, nodejs_connection_forced,
}
use whatap_operator.Webhook.Injector.Preserved.{unmanaged_preserved, java_tool_options_augmented}
use whatap_operator.Webhook.Injector.Steps.{with_option}
use whatap_operator.Webhook.Injector.Paths.{IsDefaulted, python_defaults, python_app_name}
use whatap_operator.Tests.Samples.{cfg, container, target}

abbrev injected : String → List EnvVar
injected = inject_language_specific_env_vars cfg container target

java_connection_forced_example : All (IsGivenOnce (injected "java")) (java_connection cfg target)
java_connection_forced_example = java_connection_forced cfg container target

python_connection_forced_example :
    All (IsGivenOnce (injected "python")) (python_connection cfg target)
python_connection_forced_example = python_connection_forced cfg container target

nodejs_connection_forced_example :
    All (IsGivenOnce (injected "nodejs")) (nodejs_connection cfg target)
nodejs_connection_forced_example = nodejs_connection_forced cfg container target

unmanaged_preserved_example :
    effective "MODE" (injected "java")
    ≡ or_else (effective "MODE" target.envs) (effective "MODE" container.env)
unmanaged_preserved_example = unmanaged_preserved cfg container target "MODE" refl refl "java"

java_tool_options_augmented_example :
    effective env_java_tool_options (injected "java")
    ≡ some (with_option java_agent_option (effective env_java_tool_options container.env))
java_tool_options_augmented_example = java_tool_options_augmented cfg container target

python_defaults_example : All (IsDefaulted (injected "python") container.env) (
    env_value env_python_path val_python_bootstrap
    ∷ python_app_name cfg container target
    ∷ env_value env_python_agent_path val_python_agent_path
    ∷ [])
python_defaults_example = python_defaults cfg container target

-- A license is forced, a mode is not.
abbrev force : String → Bool
force name = name == "license"

abbrev base : List EnvVar
base = env_value "license" "old" ∷ env_value "MODE" "blue" ∷ env_value "license" "older" ∷ []

abbrev incoming : List EnvVar
incoming = env_value "MODE" "green" ∷ env_value "license" "new" ∷ []

combined :
    combine_env_vars base incoming force ≡ env_value "MODE" "blue" ∷ env_value "license" "new" ∷ []
unfolding combine_env_vars
combined = refl
