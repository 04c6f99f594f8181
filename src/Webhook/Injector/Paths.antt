-- ===== src/Webhook/Injector/Paths.antt =====
-- The search path, the agent path and the application name of a Python container: its own values
-- against the defaults of the operator (internal/webhook/v2alpha1/injector_python.go).
use whatap_operator.Prelude.{
  String, true, false, none, some, List, [], ◌∷◌, ◌==◌, contains, ◌≡◌, refl, arith, or_else, ◌∙◌,
  ap, All,
}
use whatap_operator.Env.{EnvVar, env_value, effective}
use whatap_operator.Env.Combine.{effective-combine_env_vars}
use whatap_operator.Webhook.Names.{
  operator_managed_env_names, python_force_env_names, env_okind, env_python_path,
  env_python_agent_path, val_python_agent_path, val_python_bootstrap, env_app_name,
}
use whatap_operator.Webhook.Types.{EnvConfig, TargetSpec, Container}
use whatap_operator.Webhook.Injector.{
  language_env_vars, inject_language_specific_env_vars, python_env_vars, inject_python_env_vars,
  python_base_env_vars, get_python_app_config, inject_python_path, with_okind, app_name_or,
}
use whatap_operator.Webhook.Injector.Steps.{
  SameFor, effective-add_agent_path, inject_python_path-SameFor, add_agent_path-SameFor,
  with_okind-SameFor,
}
use whatap_operator.Webhook.Injector.Managed.{effective_managed}

effective-inject_python_path :
    (es : List EnvVar) (path : String)
    → effective env_python_path es ≡ none
    → effective env_python_path (inject_python_path es path) ≡ some (env_value env_python_path path)
unfolding inject_python_path effective
effective-inject_python_path [] path h = refl
effective-inject_python_path (e ∷ es) path h = ground (arith, effective-inject_python_path es path)

-- The application's own variable, or else the operator's default.
abbrev pub IsDefaulted : List EnvVar → List EnvVar → EnvVar → Type 0
IsDefaulted result original default =
    effective default.name result ≡ or_else (effective default.name original) (some default)

module _ (cfg : EnvConfig) (container : Container) (target : TargetSpec) where
  python_additive :
      (d : EnvVar)
      → (d.name == "") ≡ false
      → contains operator_managed_env_names d.name ≡ true
      → contains python_force_env_names d.name ≡ false
      → or_else
          (effective d.name container.env)
          (effective d.name (python_env_vars cfg container target))
        ≡ or_else (effective d.name container.env) (some d)
      → IsDefaulted
          (inject_language_specific_env_vars cfg container target "python")
          container.env
          d
  unfolding language_env_vars inject_python_env_vars
  python_additive d named m f given =
      effective_managed cfg container target "python" d.name named m
      ∙ rw
          (effective-combine_env_vars d.name named container.env
            (python_env_vars cfg container target) (contains python_force_env_names))
          (ground arith)

  abbrev python_named : List EnvVar
  python_named =
      with_okind (python_base_env_vars cfg container target (get_python_app_config target.envs))
        (get_python_app_config target.envs).okind

  python_named-SameFor :
      (n : String)
      → (env_okind == n) ≡ false
      → SameFor n python_named
          (python_base_env_vars cfg container target (get_python_app_config target.envs))
  python_named-SameFor n h = with_okind-SameFor n _ (get_python_app_config target.envs).okind h

  abbrev pub python_app_name : EnvVar
  python_app_name =
      env_value env_app_name (app_name_or (get_python_app_config target.envs).app_name container)

  python_path_default :
      effective env_python_path (python_env_vars cfg container target)
      ≡ some (env_value env_python_path val_python_bootstrap)
  unfolding python_env_vars effective
  python_path_default =
      (add_agent_path-SameFor env_python_path container.env
        (inject_python_path python_named val_python_bootstrap) _ _ refl).first
      ∙ effective-inject_python_path python_named val_python_bootstrap
          (python_named-SameFor env_python_path refl).first

  python_app_name_default :
      effective env_app_name (python_env_vars cfg container target) ≡ some python_app_name
  unfolding python_env_vars effective
  python_app_name_default =
      (add_agent_path-SameFor env_app_name container.env
        (inject_python_path python_named val_python_bootstrap) _ _ refl).first
      ∙ (inject_python_path-SameFor env_app_name python_named val_python_bootstrap refl).first
      ∙ (python_named-SameFor env_app_name refl).first

  python_agent_path_default :
      or_else
        (effective env_python_agent_path container.env)
        (effective env_python_agent_path (python_env_vars cfg container target))
      ≡ or_else
          (effective env_python_agent_path container.env)
          (some (env_value env_python_agent_path val_python_agent_path))
  unfolding python_env_vars effective
  python_agent_path_default =
      effective-add_agent_path container.env (inject_python_path python_named val_python_bootstrap)
        env_python_agent_path val_python_agent_path
        ((inject_python_path-SameFor env_python_agent_path python_named val_python_bootstrap
            refl).first
          ∙ (python_named-SameFor env_python_agent_path refl).first)

  -- A Python container keeps its PYTHONPATH, its application name and its agent path as they are.
  -- Only where it has none does it get the agent's directory, the name that the target or else the
  -- container gives, and the default agent path.
  pub python_defaults :
      All
        (IsDefaulted
          (inject_language_specific_env_vars cfg container target "python")
          container.env)
        (env_value env_python_path val_python_bootstrap
          ∷ python_app_name
          ∷ env_value env_python_agent_path val_python_agent_path
          ∷ [])
  python_defaults = (
    python_additive (env_value env_python_path val_python_bootstrap) refl refl refl
        (ap (or_else (effective env_python_path container.env)) python_path_default),
    (
      python_additive python_app_name refl refl refl
          (ap (or_else (effective env_app_name container.env)) python_app_name_default),
      (
        python_additive (env_value env_python_agent_path val_python_agent_path) refl refl refl
            python_agent_path_default,
        tt,
      ),
    ),
  )
