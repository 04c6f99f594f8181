-- ===== src/Webhook/Injector/Preserved.antt =====
-- What the injection keeps of the application's own environment
-- (internal/webhook/v2alpha1/injector_*.go).
use whatap_operator.Prelude.{
  String, Bool, true, false, none, some, List, [], ◌∷◌, ◌==◌, contains, ◌≡◌, refl, arith, or_else,
  Bool-cases, inl, inr, all, ◌∙◌, sym, ap, eq_of_test, and_parts,
}
use mathlib.Core.Bool.{false≢true}
use whatap_operator.Env.{EnvVar, effective}
use whatap_operator.Env.Combine.{effective-combine_env_vars, effective-upsert_env_vars}
use whatap_operator.Webhook.Names.{
  operator_managed_env_names, env_okind, env_python_path, env_python_agent_path, env_nodejs_path,
  env_nodejs_options, env_nodejs_agent_path, env_java_tool_options, env_java_agent_path,
  val_java_agent_path,
}
use whatap_operator.Webhook.Types.{EnvConfig, TargetSpec, Container}
use whatap_operator.Webhook.Injector.{
  language_env_vars, inject_language_specific_env_vars, java_env_vars, inject_java_env_vars,
  python_env_vars, inject_python_env_vars, nodejs_env_vars, inject_nodejs_env_vars,
  python_base_env_vars, nodejs_base_env_vars, get_python_app_config, get_nodejs_app_config,
  inject_java_tool_options, java_agent_option, add_agent_path,
}
use whatap_operator.Webhook.Injector.Steps.{
  SameFor-trans, inject_python_path-SameFor, inject_nodejs_path-SameFor,
  inject_java_tool_options-SameFor, with_option, effective-inject_java_tool_options,
  inject_nodejs_options-SameFor, add_agent_path-SameFor, with_okind-SameFor,
}
use whatap_operator.Webhook.Injector.Managed.{effective_managed, effective_unmanaged}

-- The test of a list's names.
abbrev all_managed : List EnvVar → Bool
all_managed = all (λ e. contains operator_managed_env_names e.name)

module _ (n : String) (unmanaged : contains operator_managed_env_names n ≡ false) where
  unmanaged_ne :
      (lit : String) → contains operator_managed_env_names lit ≡ true → (lit == n) ≡ false
  unmanaged_ne lit m = elim (Bool-cases (lit == n)) [
    | inl e ↦ absurd (
        false≢true
          (sym unmanaged ∙ sym (ap (contains operator_managed_env_names) (eq_of_test lit n e)) ∙ m))
    | inr e ↦ e
  ]

  effective_of_all_managed : (es : List EnvVar) → all_managed es ≡ true → effective n es ≡ none
  unfolding effective
  effective_of_all_managed [] h = refl
  effective_of_all_managed (e ∷ es) h =
      let parts = and_parts h in
      rw (unmanaged_ne e.name parts.0) (effective_of_all_managed es parts.1)

module _ (cfg : EnvConfig) (container : Container) (target : TargetSpec) where
  -- The lists that the injectors build hold no unmanaged name.
  java_unmanaged :
      (n : String)
      → contains operator_managed_env_names n ≡ false
      → effective n (java_env_vars cfg target) ≡ none
  java_unmanaged n u = effective_of_all_managed n u (java_env_vars cfg target) refl

  python_unmanaged :
      (n : String)
      → contains operator_managed_env_names n ≡ false
      → effective n (python_env_vars cfg container target) ≡ none
  unfolding python_env_vars
  python_unmanaged n u =
      (SameFor-trans
        (add_agent_path-SameFor n _ _ _ _ (unmanaged_ne n u env_python_agent_path refl))
        (SameFor-trans (inject_python_path-SameFor n _ _ (unmanaged_ne n u env_python_path refl))
          (with_okind-SameFor n _ _ (unmanaged_ne n u env_okind refl)))).first
      ∙ effective_of_all_managed n u
          (python_base_env_vars cfg container target (get_python_app_config target.envs)) refl

  nodejs_unmanaged :
      (n : String)
      → contains operator_managed_env_names n ≡ false
      → effective n (nodejs_env_vars cfg container target) ≡ none
  unfolding nodejs_env_vars
  nodejs_unmanaged n u =
      (SameFor-trans
        (add_agent_path-SameFor n _ _ _ _ (unmanaged_ne n u env_nodejs_agent_path refl))
        (SameFor-trans
          (inject_nodejs_options-SameFor n _ _ (unmanaged_ne n u env_nodejs_options refl))
          (SameFor-trans (inject_nodejs_path-SameFor n _ _ (unmanaged_ne n u env_nodejs_path refl))
            (with_okind-SameFor n _ _ (unmanaged_ne n u env_okind refl))))).first
      ∙ effective_of_all_managed n u
          (nodejs_base_env_vars cfg container target (get_nodejs_app_config target.envs)) refl

  module _ (n : String) (named : (n == "") ≡ false)
      (u : contains operator_managed_env_names n ≡ false) where
    inject_java-unmanaged :
        effective n (inject_java_env_vars cfg container target) ≡ effective n container.env
    unfolding inject_java_env_vars
    inject_java-unmanaged =
        effective-upsert_env_vars n named _ _
        ∙ rw (java_unmanaged n u)
            (SameFor-trans
              (add_agent_path-SameFor n _ _ _ _ (unmanaged_ne n u env_java_agent_path refl))
              (inject_java_tool_options-SameFor n _ _
                (unmanaged_ne n u env_java_tool_options refl))).first

    inject_python-unmanaged :
        effective n (inject_python_env_vars cfg container target) ≡ effective n container.env
    unfolding inject_python_env_vars
    inject_python-unmanaged =
        effective-combine_env_vars n named _ _ _ ∙ ground (arith, python_unmanaged n u)

    inject_nodejs-unmanaged :
        effective n (inject_nodejs_env_vars cfg container target) ≡ effective n container.env
    unfolding inject_nodejs_env_vars
    inject_nodejs-unmanaged =
        effective-combine_env_vars n named _ _ _ ∙ ground (arith, nodejs_unmanaged n u)

    language_unmanaged :
        (lang : String)
        → effective n (language_env_vars cfg container target lang) ≡ effective n container.env
    unfolding language_env_vars
    language_unmanaged lang =
        ground (arith, inject_java-unmanaged, inject_python-unmanaged, inject_nodejs-unmanaged)

    -- Whatever the language: of a name that is not empty and that the operator does not manage,
    -- the first entry is the target's variable if it has one, or else the container's own.
    pub unmanaged_preserved :
        (lang : String)
        → effective n (inject_language_specific_env_vars cfg container target lang)
          ≡ or_else (effective n target.envs) (effective n container.env)
    unmanaged_preserved lang =
        effective_unmanaged cfg container target lang n named u
        ∙ ap (or_else (effective n target.envs)) (language_unmanaged lang)

  -- The first JAVA_TOOL_OPTIONS of a Java container is the one that it had, with the agent's
  -- option behind its value and nothing else changed; where it had none, it is the agent's option
  -- alone.
  pub java_tool_options_augmented :
      effective env_java_tool_options
        (inject_language_specific_env_vars cfg container target "java")
      ≡ some (with_option java_agent_option (effective env_java_tool_options container.env))
  unfolding language_env_vars inject_java_env_vars effective
  java_tool_options_augmented =
      effective_managed cfg container target "java" env_java_tool_options refl refl
      ∙ rw (
        effective-upsert_env_vars env_java_tool_options refl
            (add_agent_path container.env (inject_java_tool_options container.env java_agent_option)
              env_java_agent_path val_java_agent_path)
            (java_env_vars cfg target),
        (add_agent_path-SameFor env_java_tool_options container.env
            (inject_java_tool_options container.env java_agent_option) env_java_agent_path
            val_java_agent_path refl).first,
        effective-inject_java_tool_options container.env java_agent_option,
      )
