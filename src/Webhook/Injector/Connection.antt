-- ===== src/Webhook/Injector/Connection.antt =====
-- The connection settings that the operator owns (internal/webhook/v2alpha1/injector_*.go): each is
-- given once, whatever the container and the target bring along.
use whatap_operator.Prelude.{
  String, true, false, some, List, ◌∷◌, ◌==◌, contains, not, ◌≡◌, refl, all, test_of_contains, ◌∙◌,
  ap, All, is_some, eq_false_of_not,
}
use whatap_operator.Env.{EnvVar, env_value, effective, has_name, count_name}
use whatap_operator.Env.Entries.{has_name-eq-is_some}
use whatap_operator.Env.Combine.{
  effective-combine_env_vars, count_name-combine_env_vars_forced, effective-upsert_env_vars,
  count_name-upsert_env_vars,
}
use whatap_operator.Webhook.Names.{
  env_java_license, env_java_whatap_host, env_java_whatap_port, operator_managed_env_names,
  python_force_env_names, nodejs_force_env_names, env_python_license, env_python_whatap_host,
  env_python_whatap_port, env_nodejs_license, env_nodejs_whatap_host, env_nodejs_whatap_port,
  env_whatap_home, val_whatap_home, env_whatap_micro_enabled, val_true, env_okind, env_python_path,
  env_python_agent_path, env_nodejs_path, env_nodejs_options, env_nodejs_agent_path,
}
use whatap_operator.Webhook.Types.{EnvConfig, TargetSpec, Container}
use whatap_operator.Webhook.Injector.{
  language_env_vars, inject_language_specific_env_vars, java_env_vars, inject_java_env_vars,
  python_env_vars, inject_python_env_vars, nodejs_env_vars, inject_nodejs_env_vars, renamed,
  get_whatap_license_env_var, get_whatap_host_env_var, get_whatap_port_env_var, pod_metadata,
  python_base_env_vars, nodejs_base_env_vars, get_python_app_config, get_nodejs_app_config,
}
use whatap_operator.Webhook.Injector.Steps.{
  SameFor, SameFor-trans, inject_python_path-SameFor, inject_nodejs_path-SameFor,
  inject_nodejs_options-SameFor, add_agent_path-SameFor, with_okind-SameFor,
}
use whatap_operator.Webhook.Injector.Managed.{effective_managed, count_name_managed}

-- A variable that is there, with no other entry of its name.
abbrev pub IsGivenOnce : List EnvVar → EnvVar → Type 0
IsGivenOnce envs e = (effective e.name envs ≡ some e) × (count_name e.name envs ≡ 1)

-- The connection settings of each language.
abbrev pub java_connection : EnvConfig → TargetSpec → List EnvVar
java_connection cfg target =
    renamed env_java_license (get_whatap_license_env_var cfg target)
    ∷ renamed env_java_whatap_host (get_whatap_host_env_var cfg target)
    ∷ renamed env_java_whatap_port (get_whatap_port_env_var cfg target)
    ∷ env_value env_whatap_micro_enabled val_true
    ∷ pod_metadata

abbrev pub python_connection : EnvConfig → TargetSpec → List EnvVar
python_connection cfg target =
    renamed env_python_license (get_whatap_license_env_var cfg target)
    ∷ renamed env_python_whatap_host (get_whatap_host_env_var cfg target)
    ∷ renamed env_python_whatap_port (get_whatap_port_env_var cfg target)
    ∷ env_value env_whatap_home val_whatap_home
    ∷ env_value env_whatap_micro_enabled val_true
    ∷ pod_metadata

abbrev pub nodejs_connection : EnvConfig → TargetSpec → List EnvVar
nodejs_connection cfg target =
    renamed env_nodejs_license (get_whatap_license_env_var cfg target)
    ∷ renamed env_nodejs_whatap_host (get_whatap_host_env_var cfg target)
    ∷ renamed env_nodejs_whatap_port (get_whatap_port_env_var cfg target)
    ∷ env_value env_whatap_home val_whatap_home
    ∷ env_value env_whatap_micro_enabled val_true
    ∷ pod_metadata

module _ (cfg : EnvConfig) (container : Container) (target : TargetSpec) where
  -- A managed variable that the injector gives once stays as it is.
  given_after_merge :
      (lang : String) (e : EnvVar)
      → (e.name == "") ≡ false
      → contains operator_managed_env_names e.name ≡ true
      → IsGivenOnce (language_env_vars cfg container target lang) e
      → IsGivenOnce (inject_language_specific_env_vars cfg container target lang) e
  given_after_merge lang e named m (first, once) =
      let there : has_name e.name (language_env_vars cfg container target lang) ≡ true =
        has_name-eq-is_some e.name _ ∙ rw first in
      (
        effective_managed cfg container target lang e.name named m ∙ rw first,
        count_name_managed cfg container target lang e.name named m there ∙ once,
      )

  java_given :
      (e : EnvVar)
      → (e.name == "") ≡ false
      → contains operator_managed_env_names e.name ≡ true
      → IsGivenOnce (java_env_vars cfg target) e
      → IsGivenOnce (inject_language_specific_env_vars cfg container target "java") e
  unfolding language_env_vars inject_java_env_vars
  java_given e named m (first, once) =
      let there : has_name e.name (java_env_vars cfg target) ≡ true =
        has_name-eq-is_some e.name _ ∙ rw first in
      given_after_merge "java" e named m (
        effective-upsert_env_vars e.name named _ _ ∙ rw first,
        count_name-upsert_env_vars e.name named _ _ ∙ rw there once,
      )

  -- Whatever variables the container and the target bring along, a Java container gets each of its
  -- connection settings exactly once: license, host, port, the micro mode and the pod's metadata,
  -- with the operator's values.
  pub java_connection_forced :
      All
        (IsGivenOnce (inject_language_specific_env_vars cfg container target "java"))
        (java_connection cfg target)
  unfolding effective count_name
  java_connection_forced = (
    java_given _ refl refl (refl, refl),
    (
      java_given _ refl refl (refl, refl),
      (
        java_given _ refl refl (refl, refl),
        (
          java_given _ refl refl (refl, refl),
          (
            java_given _ refl refl (refl, refl),
            (java_given _ refl refl (refl, refl), (java_given _ refl refl (refl, refl), tt)),
          ),
        ),
      ),
    ),
  )

  -- The steps after the base list leave the forced names alone.
  python_env_vars-SameFor :
      (n : String)
      → contains python_force_env_names n ≡ true
      → SameFor n
          (python_env_vars cfg container target)
          (python_base_env_vars cfg container target (get_python_app_config target.envs))
  unfolding python_env_vars
  python_env_vars-SameFor n m =
      let ne = λ (lit : String) (h : all (λ f. not (lit == f)) python_force_env_names ≡ true).
        eq_false_of_not (test_of_contains (λ f. not (lit == f)) python_force_env_names n h m) in
      SameFor-trans (add_agent_path-SameFor n _ _ _ _ (ne env_python_agent_path refl)) (
        SameFor-trans (inject_python_path-SameFor n _ _ (ne env_python_path refl))
          (with_okind-SameFor n _ _ (ne env_okind refl)))

  nodejs_env_vars-SameFor :
      (n : String)
      → contains nodejs_force_env_names n ≡ true
      → SameFor n
          (nodejs_env_vars cfg container target)
          (nodejs_base_env_vars cfg container target (get_nodejs_app_config target.envs))
  unfolding nodejs_env_vars
  nodejs_env_vars-SameFor n m =
      let ne = λ (lit : String) (h : all (λ f. not (lit == f)) nodejs_force_env_names ≡ true).
        eq_false_of_not (test_of_contains (λ f. not (lit == f)) nodejs_force_env_names n h m) in
      SameFor-trans (add_agent_path-SameFor n _ _ _ _ (ne env_nodejs_agent_path refl)) (
        SameFor-trans (inject_nodejs_options-SameFor n _ _ (ne env_nodejs_options refl)) (
          SameFor-trans (inject_nodejs_path-SameFor n _ _ (ne env_nodejs_path refl))
            (with_okind-SameFor n _ _ (ne env_okind refl))))

  python_given :
      (e : EnvVar)
      → (e.name == "") ≡ false
      → contains operator_managed_env_names e.name ≡ true
      → contains python_force_env_names e.name ≡ true
      → IsGivenOnce
          (python_base_env_vars cfg container target (get_python_app_config target.envs))
          e
      → IsGivenOnce (inject_language_specific_env_vars cfg container target "python") e
  unfolding language_env_vars inject_python_env_vars
  python_given e named m f (first, once) =
      let same = python_env_vars-SameFor e.name f in
      let there : has_name e.name (python_env_vars cfg container target) ≡ true =
        has_name-eq-is_some e.name _ ∙ ap is_some (same.first ∙ first) in
      given_after_merge "python" e named m (
        effective-combine_env_vars e.name named _ _ _ ∙ rw (f, same.first, first) refl,
        count_name-combine_env_vars_forced e.name named _ _ _ f there ∙ same.often ∙ once,
      )

  nodejs_given :
      (e : EnvVar)
      → (e.name == "") ≡ false
      → contains operator_managed_env_names e.name ≡ true
      → contains nodejs_force_env_names e.name ≡ true
      → IsGivenOnce
          (nodejs_base_env_vars cfg container target (get_nodejs_app_config target.envs))
          e
      → IsGivenOnce (inject_language_specific_env_vars cfg container target "nodejs") e
  unfolding language_env_vars inject_nodejs_env_vars
  nodejs_given e named m f (first, once) =
      let same = nodejs_env_vars-SameFor e.name f in
      let there : has_name e.name (nodejs_env_vars cfg container target) ≡ true =
        has_name-eq-is_some e.name _ ∙ ap is_some (same.first ∙ first) in
      given_after_merge "nodejs" e named m (
        effective-combine_env_vars e.name named _ _ _ ∙ rw (f, same.first, first) refl,
        count_name-combine_env_vars_forced e.name named _ _ _ f there ∙ same.often ∙ once,
      )

  -- A Python container gets each of its connection settings exactly once, with the operator's
  -- values, whatever variables the container and the target bring along.
  pub python_connection_forced :
      All
        (IsGivenOnce (inject_language_specific_env_vars cfg container target "python"))
        (python_connection cfg target)
  unfolding effective count_name
  python_connection_forced = (
    python_given _ refl refl refl (refl, refl),
    (
      python_given _ refl refl refl (refl, refl),
      (
        python_given _ refl refl refl (refl, refl),
        (
          python_given _ refl refl refl (refl, refl),
          (
            python_given _ refl refl refl (refl, refl),
            (
              python_given _ refl refl refl (refl, refl),
              (
                python_given _ refl refl refl (refl, refl),
                (python_given _ refl refl refl (refl, refl), tt),
              ),
            ),
          ),
        ),
      ),
    ),
  )

  -- A Node.js container gets each of its connection settings exactly once, with the operator's
  -- values, whatever variables the container and the target bring along.
  pub nodejs_connection_forced :
      All
        (IsGivenOnce (inject_language_specific_env_vars cfg container target "nodejs"))
        (nodejs_connection cfg target)
  unfolding effective count_name
  nodejs_connection_forced = (
    nodejs_given _ refl refl refl (refl, refl),
    (
      nodejs_given _ refl refl refl (refl, refl),
      (
        nodejs_given _ refl refl refl (refl, refl),
        (
          nodejs_given _ refl refl refl (refl, refl),
          (
            nodejs_given _ refl refl refl (refl, refl),
            (
              nodejs_given _ refl refl refl (refl, refl),
              (
                nodejs_given _ refl refl refl (refl, refl),
                (nodejs_given _ refl refl refl (refl, refl), tt),
              ),
            ),
          ),
        ),
      ),
    ),
  )
