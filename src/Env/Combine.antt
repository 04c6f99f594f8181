-- ===== src/Env/Combine.antt =====
-- upsertEnvVars and combineEnvVars of internal/webhook/v2alpha1/utils.go.
use whatap_operator.Prelude.{
  String, Bool, true, false, none, List, [], ◌∷◌, if◌then◌else◌, ◌==◌, contains, or_else, ◌≡◌, refl,
  arith, eq_iff,
}
use whatap_operator.Env.{
  EnvVar, effective, has_name, count_name, name_set, drop_names, drop_unnamed, upsert_env_vars,
  forced_of, additive_of, combine_env_vars,
}
use whatap_operator.Env.Entries.{
  effective-append, count_name-append, has_name-eq-is_some, count_name_of_not-has_name,
}
use whatap_operator.Env.Merge.{
  contains-name_set, effective-merge_env_vars, count_name-merge_env_vars,
}

module _ (n : String) (named : (n == "") ≡ false) where
  effective-drop_names :
      (names : List String) (es : List EnvVar)
      → effective n (drop_names names es) ≡ (if contains names n then none else effective n es)
  unfolding drop_names effective
  effective-drop_names names [] = ground arith
  effective-drop_names names (e ∷ es) =
      ground (arith, eq_iff e.name n, effective-drop_names names es)

  count_name-drop_names :
      (names : List String) (es : List EnvVar)
      → count_name n (drop_names names es) ≡ (if contains names n then 0 else count_name n es)
  unfolding drop_names count_name
  count_name-drop_names names [] = ground arith
  count_name-drop_names names (e ∷ es) =
      ground (arith, eq_iff e.name n, count_name-drop_names names es)

  effective-drop_unnamed : (es : List EnvVar) → effective n (drop_unnamed es) ≡ effective n es
  unfolding drop_unnamed effective
  effective-drop_unnamed [] = refl
  effective-drop_unnamed (e ∷ es) =
      ground (arith, eq_iff e.name n, eq_iff e.name "", eq_iff n "", effective-drop_unnamed es)

  count_name-drop_unnamed : (es : List EnvVar) → count_name n (drop_unnamed es) ≡ count_name n es
  unfolding drop_unnamed count_name
  count_name-drop_unnamed [] = refl
  count_name-drop_unnamed (e ∷ es) =
      ground (arith, eq_iff e.name n, eq_iff e.name "", eq_iff n "", count_name-drop_unnamed es)

  -- upsertEnvVars: an override wins, and its name's old entries are gone.
  pub effective-upsert_env_vars :
      (base overrides : List EnvVar)
      → effective n (upsert_env_vars base overrides)
        ≡ or_else (effective n overrides) (effective n base)
  unfolding upsert_env_vars
  effective-upsert_env_vars base overrides = ground (
    arith,
    effective-append n (drop_names (name_set overrides) base) (drop_unnamed overrides),
    effective-drop_names (name_set overrides) base,
    effective-drop_unnamed overrides,
    contains-name_set n named overrides,
    has_name-eq-is_some n overrides,
  )

  pub count_name-upsert_env_vars :
      (base overrides : List EnvVar)
      → count_name n (upsert_env_vars base overrides)
        ≡ (if has_name n overrides then count_name n overrides else count_name n base)
  unfolding upsert_env_vars
  count_name-upsert_env_vars base overrides = ground (
    arith,
    count_name-append n (drop_names (name_set overrides) base) (drop_unnamed overrides),
    count_name-drop_names (name_set overrides) base,
    count_name-drop_unnamed overrides,
    contains-name_set n named overrides,
    count_name_of_not-has_name n overrides,
  )

  effective-forced_of :
      (force : String → Bool) (es : List EnvVar)
      → effective n (forced_of force es) ≡ (if force n then effective n es else none)
  unfolding forced_of effective
  effective-forced_of force [] = ground arith
  effective-forced_of force (e ∷ es) =
      ground (arith, eq_iff e.name n, eq_iff e.name "", eq_iff n "", effective-forced_of force es)

  count_name-forced_of :
      (force : String → Bool) (es : List EnvVar)
      → count_name n (forced_of force es) ≡ (if force n then count_name n es else 0)
  unfolding forced_of count_name
  count_name-forced_of force [] = ground arith
  count_name-forced_of force (e ∷ es) =
      ground (arith, eq_iff e.name n, eq_iff e.name "", eq_iff n "", count_name-forced_of force es)

  effective-additive_of :
      (force : String → Bool) (es : List EnvVar)
      → effective n (additive_of force es) ≡ (if force n then none else effective n es)
  unfolding additive_of effective
  effective-additive_of force [] = ground arith
  effective-additive_of force (e ∷ es) =
      ground (arith, eq_iff e.name n, eq_iff e.name "", eq_iff n "", effective-additive_of force es)

  -- combineEnvVars, for a name that is not empty: if it is forced the incoming entry wins, else
  -- the present one; the other list is the fallback.
  pub effective-combine_env_vars :
      (base incoming : List EnvVar) (force : String → Bool)
      → effective n (combine_env_vars base incoming force) ≡ (
          if force n
          then or_else (effective n incoming) (effective n base)
          else or_else (effective n base) (effective n incoming))
  unfolding combine_env_vars
  effective-combine_env_vars base incoming force = ground (
    arith,
    effective-merge_env_vars n named (upsert_env_vars base (forced_of force incoming))
        (additive_of force incoming),
    effective-upsert_env_vars base (forced_of force incoming),
    effective-forced_of force incoming,
    effective-additive_of force incoming,
  )

  -- A forced name that comes in has, after the merge, as many entries as came in.
  pub count_name-combine_env_vars_forced :
      (base incoming : List EnvVar) (force : String → Bool)
      → force n ≡ true
      → has_name n incoming ≡ true
      → count_name n (combine_env_vars base incoming force) ≡ count_name n incoming
  unfolding combine_env_vars
  count_name-combine_env_vars_forced base incoming force f h =
      let arrived : has_name n (forced_of force incoming) ≡ true = ground (
        arith,
        has_name-eq-is_some n (forced_of force incoming),
        has_name-eq-is_some n incoming,
        effective-forced_of force incoming,
      ) in
      let kept : has_name n (upsert_env_vars base (forced_of force incoming)) ≡ true = ground (
        arith,
        has_name-eq-is_some n (upsert_env_vars base (forced_of force incoming)),
        has_name-eq-is_some n (forced_of force incoming),
        effective-upsert_env_vars base (forced_of force incoming),
      ) in
      ground (
        arith,
        count_name-merge_env_vars n named (upsert_env_vars base (forced_of force incoming))
            (additive_of force incoming) kept,
        count_name-upsert_env_vars base (forced_of force incoming),
        count_name-forced_of force incoming,
      )

  -- A name that is not forced keeps its entries where it has any.
  pub count_name-combine_env_vars_kept :
      (base incoming : List EnvVar) (force : String → Bool)
      → force n ≡ false
      → has_name n base ≡ true
      → count_name n (combine_env_vars base incoming force) ≡ count_name n base
  unfolding combine_env_vars
  count_name-combine_env_vars_kept base incoming force f h =
      let absent : has_name n (forced_of force incoming) ≡ false = ground (
        arith,
        has_name-eq-is_some n (forced_of force incoming),
        effective-forced_of force incoming,
      ) in
      let kept : has_name n (upsert_env_vars base (forced_of force incoming)) ≡ true = ground (
        arith,
        has_name-eq-is_some n (upsert_env_vars base (forced_of force incoming)),
        has_name-eq-is_some n (forced_of force incoming),
        has_name-eq-is_some n base,
        effective-upsert_env_vars base (forced_of force incoming),
      ) in
      ground (
        arith,
        count_name-merge_env_vars n named (upsert_env_vars base (forced_of force incoming))
            (additive_of force incoming) kept,
        count_name-upsert_env_vars base (forced_of force incoming),
      )
