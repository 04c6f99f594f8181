-- ===== src/Webhook/Injector/Managed.antt =====
-- The last step of injectLanguageSpecificEnvVars (internal/webhook/v2alpha1/process_deployments.go):
-- the variables of the target against those that the operator manages.
use whatap_operator.Prelude.{
  String, true, false, List, [], ◌∷◌, if◌then◌else◌, ◌==◌, contains, is_empty, not, ◌≡◌, refl,
  arith, or_else, ◌∙◌, ap,
}
use whatap_operator.Env.{EnvVar, effective, has_name, count_name, combine_env_vars}
use whatap_operator.Env.Combine.{effective-combine_env_vars, count_name-combine_env_vars_kept}
use whatap_operator.Webhook.Names.{operator_managed_env_names}
use whatap_operator.Webhook.Types.{EnvConfig, TargetSpec, Container}
use whatap_operator.Webhook.Injector.{
  language_env_vars, inject_language_specific_env_vars, is_unmanaged,
}

-- The variables of a container after the target's are merged in.
abbrev merged : List EnvVar → List EnvVar → List EnvVar
merged envs target_envs =
    if is_empty target_envs then envs else combine_env_vars envs target_envs is_unmanaged

module _ (n : String) (named : (n == "") ≡ false) where
  merged_managed :
      (envs target_envs : List EnvVar)
      → contains operator_managed_env_names n ≡ true
      → effective n (merged envs target_envs) ≡ or_else (effective n envs) (effective n target_envs)
  unfolding effective
  merged_managed envs [] m = ground arith
  merged_managed envs (e ∷ es) m =
      effective-combine_env_vars n named envs (e ∷ es) is_unmanaged ∙ rw m

  merged_unmanaged :
      (envs target_envs : List EnvVar)
      → contains operator_managed_env_names n ≡ false
      → effective n (merged envs target_envs) ≡ or_else (effective n target_envs) (effective n envs)
  unfolding effective
  merged_unmanaged envs [] m = refl
  merged_unmanaged envs (e ∷ es) m =
      effective-combine_env_vars n named envs (e ∷ es) is_unmanaged ∙ rw m

  merged_count :
      (envs target_envs : List EnvVar)
      → contains operator_managed_env_names n ≡ true
      → has_name n envs ≡ true
      → count_name n (merged envs target_envs) ≡ count_name n envs
  merged_count envs [] m h = refl
  merged_count envs (e ∷ es) m h =
      count_name-combine_env_vars_kept n named envs (e ∷ es) is_unmanaged (ap not m) h

module _ (cfg : EnvConfig) (container : Container) (target : TargetSpec) (lang n : String)
    (named : (n == "") ≡ false) where
  -- A managed name: the injector's entry wins, and the target's is the fallback.
  pub effective_managed :
      contains operator_managed_env_names n ≡ true
      → effective n (inject_language_specific_env_vars cfg container target lang)
        ≡ or_else
            (effective n (language_env_vars cfg container target lang))
            (effective n target.envs)
  unfolding inject_language_specific_env_vars
  effective_managed =
      merged_managed n named (language_env_vars cfg container target lang) target.envs

  pub effective_unmanaged :
      contains operator_managed_env_names n ≡ false
      → effective n (inject_language_specific_env_vars cfg container target lang)
        ≡ or_else
            (effective n target.envs)
            (effective n (language_env_vars cfg container target lang))
  unfolding inject_language_specific_env_vars
  effective_unmanaged =
      merged_unmanaged n named (language_env_vars cfg container target lang) target.envs

  -- A managed name that the injector gives gets no further entry.
  pub count_name_managed :
      contains operator_managed_env_names n ≡ true
      → has_name n (language_env_vars cfg container target lang) ≡ true
      → count_name n (inject_language_specific_env_vars cfg container target lang)
        ≡ count_name n (language_env_vars cfg container target lang)
  unfolding inject_language_specific_env_vars
  count_name_managed =
      merged_count n named (language_env_vars cfg container target lang) target.envs
