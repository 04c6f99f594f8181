-- ===== src/Webhook/Injector/NodejsPaths.antt =====
-- Search paths, options, the agent path and the application name of a Node.js container: its own
-- values against the defaults of the operator (internal/webhook/v2alpha1/injector_nodejs.go).
use whatap_operator.Prelude.{
  String, true, false, none, some, List, [], ◌∷◌, ◌==◌, contains, ◌≡◌, refl, arith, or_else, ◌∙◌,
  ap, All,
}
use whatap_operator.Env.{EnvVar, env_value, effective}
use whatap_operator.Env.Combine.{effective-combine_env_vars}
use whatap_operator.Webhook.Names.{
  operator_managed_env_names, nodejs_force_env_names, env_okind, env_nodejs_path,
  env_nodejs_options, env_nodejs_agent_path, val_nodejs_agent_path, val_nodejs_modules,
  val_nodejs_require, env_app_name,
}
use whatap_operator.Webhook.Types.{EnvConfig, TargetSpec, Container}
use whatap_operator.Webhook.Injector.{
  language_env_vars, inject_language_specific_env_vars, nodejs_env_vars, inject_nodejs_env_vars,
  nodejs_base_env_vars, get_nodejs_app_config, inject_nodejs_path, inject_nodejs_options,
  with_okind, app_name_or,
}
use whatap_operator.Webhook.Injector.Steps.{
  SameFor, effective-add_agent_path, inject_nodejs_path-SameFor, inject_nodejs_options-SameFor,
  add_agent_path-SameFor, with_okind-SameFor,
}
use whatap_operator.Webhook.Injector.Managed.{effective_managed}
use whatap_operator.Webhook.Injector.Paths.{IsDefaulted}

effective-inject_nodejs_path :
    (es : List EnvVar) (path : String)
    → effective env_nodejs_path es ≡ none
    → effective env_nodejs_path (inject_nodejs_path es path) ≡ some (env_value env_nodejs_path path)
unfolding inject_nodejs_path effective
effective-inject_nodejs_path [] path h = refl
effective-inject_nodejs_path (e ∷ es) path h = ground (arith, effective-inject_nodejs_path es path)

effective-inject_nodejs_options :
    (es : List EnvVar) (o : String)
    → effective env_nodejs_options es ≡ none
    → effective env_nodejs_options (inject_nodejs_options es o)
      ≡ some (env_value env_nodejs_options o)
unfolding inject_nodejs_options effective
effective-inject_nodejs_options [] o h = refl
effective-inject_nodejs_options (e ∷ es) o h = ground (arith, effective-inject_nodejs_options es o)

module _ (cfg : EnvConfig) (container : Container) (target : TargetSpec) where
  nodejs_additive :
      (d : EnvVar)
      → (d.name == "") ≡ false
      → contains operator_managed_env_names d.name ≡ true
      → contains nodejs_force_env_names d.name ≡ false
      → or_else
          (effective d.name container.env)
          (effective d.name (nodejs_env_vars cfg container target))
        ≡ or_else (effective d.name container.env) (some d)
      → IsDefaulted
          (inject_language_specific_env_vars cfg container target "nodejs")
          container.env
          d
  unfolding language_env_vars inject_nodejs_env_vars
  nodejs_additive d named m f given =
      effective_managed cfg container target "nodejs" d.name named m
      ∙ rw
          (effective-combine_env_vars d.name named container.env
            (nodejs_env_vars cfg container target) (contains nodejs_force_env_names))
          (ground arith)

  abbrev nodejs_named : List EnvVar
  nodejs_named =
      with_okind (nodejs_base_env_vars cfg container target (get_nodejs_app_config target.envs))
        (get_nodejs_app_config target.envs).okind

  nodejs_named-SameFor :
      (n : String)
      → (env_okind == n) ≡ false
      → SameFor n nodejs_named
          (nodejs_base_env_vars cfg container target (get_nodejs_app_config target.envs))
  nodejs_named-SameFor n h = with_okind-SameFor n _ (get_nodejs_app_config target.envs).okind h

  abbrev nodejs_app_name : EnvVar
  nodejs_app_name =
      env_value env_app_name (app_name_or (get_nodejs_app_config target.envs).app_name container)

  abbrev nodejs_with_path : List EnvVar
  nodejs_with_path = inject_nodejs_path nodejs_named val_nodejs_modules

  abbrev nodejs_with_options : List EnvVar
  nodejs_with_options = inject_nodejs_options nodejs_with_path val_nodejs_require

  nodejs_path_default :
      effective env_nodejs_path (nodejs_env_vars cfg container target)
      ≡ some (env_value env_nodejs_path val_nodejs_modules)
  unfolding nodejs_env_vars effective
  nodejs_path_default =
      (add_agent_path-SameFor env_nodejs_path container.env nodejs_with_options _ _ refl).first
      ∙ (inject_nodejs_options-SameFor env_nodejs_path nodejs_with_path _ refl).first
      ∙ effective-inject_nodejs_path nodejs_named val_nodejs_modules
          (nodejs_named-SameFor env_nodejs_path refl).first

  nodejs_options_default :
      effective env_nodejs_options (nodejs_env_vars cfg container target)
      ≡ some (env_value env_nodejs_options val_nodejs_require)
  unfolding nodejs_env_vars effective
  nodejs_options_default =
      (add_agent_path-SameFor env_nodejs_options container.env nodejs_with_options _ _ refl).first
      ∙ effective-inject_nodejs_options nodejs_with_path val_nodejs_require (
          (inject_nodejs_path-SameFor env_nodejs_options nodejs_named _ refl).first
          ∙ (nodejs_named-SameFor env_nodejs_options refl).first)

  nodejs_app_name_default :
      effective env_app_name (nodejs_env_vars cfg container target) ≡ some nodejs_app_name
  unfolding nodejs_env_vars effective
  nodejs_app_name_default =
      (add_agent_path-SameFor env_app_name container.env nodejs_with_options _ _ refl).first
      ∙ (inject_nodejs_options-SameFor env_app_name nodejs_with_path _ refl).first
      ∙ (inject_nodejs_path-SameFor env_app_name nodejs_named _ refl).first
      ∙ (nodejs_named-SameFor env_app_name refl).first

  nodejs_agent_path_default :
      or_else
        (effective env_nodejs_agent_path container.env)
        (effective env_nodejs_agent_path (nodejs_env_vars cfg container target))
      ≡ or_else
          (effective env_nodejs_agent_path container.env)
          (some (env_value env_nodejs_agent_path val_nodejs_agent_path))
  unfolding nodejs_env_vars effective
  nodejs_agent_path_default =
      effective-add_agent_path container.env nodejs_with_options env_nodejs_agent_path
        val_nodejs_agent_path
        ((inject_nodejs_options-SameFor env_nodejs_agent_path nodejs_with_path _ refl).first
          ∙ (inject_nodejs_path-SameFor env_nodejs_agent_path nodejs_named _ refl).first
          ∙ (nodejs_named-SameFor env_nodejs_agent_path refl).first)

  -- A Node.js container keeps its NODE_PATH, NODE_OPTIONS, application name and agent path as they
  -- are, and gets the operator's defaults only where it has none.
  nodejs_defaults :
      All
        (IsDefaulted
          (inject_language_specific_env_vars cfg container target "nodejs")
          container.env)
        (env_value env_nodejs_path val_nodejs_modules
          ∷ env_value env_nodejs_options val_nodejs_require
          ∷ nodejs_app_name
          ∷ env_value env_nodejs_agent_path val_nodejs_agent_path
          ∷ [])
  nodejs_defaults = (
    nodejs_additive (env_value env_nodejs_path val_nodejs_modules) refl refl refl
        (ap (or_else (effective env_nodejs_path container.env)) nodejs_path_default),
    (
      nodejs_additive (env_value env_nodejs_options val_nodejs_require) refl refl refl
          (ap (or_else (effective env_nodejs_options container.env)) nodejs_options_default),
      (
        nodejs_additive nodejs_app_name refl refl refl
            (ap (or_else (effective env_app_name container.env)) nodejs_app_name_default),
        (
          nodejs_additive (env_value env_nodejs_agent_path val_nodejs_agent_path) refl refl refl
              nodejs_agent_path_default,
          tt,
        ),
      ),
    ),
  )
