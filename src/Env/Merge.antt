-- ===== src/Env/Merge.antt =====
-- mergeEnvVars of internal/webhook/v2alpha1/utils.go: the loop and its set of names.
use whatap_operator.Prelude.{
  String, true, false, ◌||◌, List, [], ◌∷◌, foldl, ◌==◌, contains, or_else, ◌≡◌, refl, arith,
  eq_iff, ◌∙◌,
}
use whatap_operator.Env.{
  EnvVar, effective, has_name, count_name, name_set_step, name_set, MergeState, merge_step,
  merge_env_vars,
}
use whatap_operator.Env.Entries.{
  effective-append, has_name-append, count_name-append, has_name-eq-is_some,
}

-- The set of names holds a name exactly if a variable has it, the empty name apart.
module _ (n : String) (named : (n == "") ≡ false) where
  contains-name_set_from :
      (es : List EnvVar) (names : List String)
      → contains (foldl name_set_step names es) n ≡ (contains names n || has_name n es)
  unfolding name_set_step has_name
  contains-name_set_from [] names = ground arith
  contains-name_set_from (e ∷ es) names =
      contains-name_set_from es (name_set_step names e)
      ∙ ground (arith, eq_iff e.name "", eq_iff e.name n, eq_iff n "")

  pub contains-name_set : (es : List EnvVar) → contains (name_set es) n ≡ has_name n es
  unfolding name_set
  contains-name_set es = contains-name_set_from es []

  -- The set of the loop of mergeEnvVars is that of the names of its list.
  merge_step_existing :
      (st : MergeState) (e : EnvVar)
      → contains st.existing n ≡ has_name n st.base
      → contains (merge_step st e).existing n ≡ has_name n (merge_step st e).base
  unfolding merge_step has_name
  merge_step_existing st e h = ground (arith, eq_iff e.name n, has_name-append n st.base (e ∷ []))

  effective-merge_step :
      (st : MergeState) (e : EnvVar)
      → contains st.existing n ≡ has_name n st.base
      → effective n (merge_step st e).base ≡ or_else (effective n st.base) (effective n (e ∷ []))
  unfolding merge_step effective
  effective-merge_step st e h = ground (
    arith,
    eq_iff e.name n,
    eq_iff e.name "",
    eq_iff n "",
    effective-append n st.base (e ∷ []),
    has_name-eq-is_some n st.base,
  )

  merge_fold_existing :
      (es : List EnvVar) (st : MergeState)
      → contains st.existing n ≡ has_name n st.base
      → contains (foldl merge_step st es).existing n ≡ has_name n (foldl merge_step st es).base
  merge_fold_existing [] st h = h
  merge_fold_existing (e ∷ es) st h =
      merge_fold_existing es (merge_step st e) (merge_step_existing st e h)

  merge_fold_effective :
      (es : List EnvVar) (st : MergeState)
      → contains st.existing n ≡ has_name n st.base
      → effective n (foldl merge_step st es).base ≡ or_else (effective n st.base) (effective n es)
  unfolding effective
  merge_fold_effective [] st h = ground arith
  merge_fold_effective (e ∷ es) st h =
      merge_fold_effective es (merge_step st e) (merge_step_existing st e h)
      ∙ ground (arith, effective-merge_step st e h)

  -- mergeEnvVars: an entry of the base wins, a missing one is taken from the extras.
  pub effective-merge_env_vars :
      (base extras : List EnvVar)
      → effective n (merge_env_vars base extras) ≡ or_else (effective n base) (effective n extras)
  unfolding merge_env_vars
  effective-merge_env_vars base extras =
      merge_fold_effective extras (record { existing = name_set base; base = base })
        (contains-name_set base)

  merge_step_count :
      (st : MergeState) (e : EnvVar)
      → contains st.existing n ≡ true
      → (contains (merge_step st e).existing n ≡ true)
        × (count_name n (merge_step st e).base ≡ count_name n st.base)
  unfolding merge_step count_name
  merge_step_count st e h = (
    ground (arith, eq_iff e.name n),
    ground (arith, eq_iff e.name n, count_name-append n st.base (e ∷ [])),
  )

  merge_fold_count :
      (es : List EnvVar) (st : MergeState)
      → contains st.existing n ≡ true
      → count_name n (foldl merge_step st es).base ≡ count_name n st.base
  merge_fold_count [] st h = refl
  merge_fold_count (e ∷ es) st h =
      merge_fold_count es (merge_step st e) (merge_step_count st e h).0
      ∙ (merge_step_count st e h).1

  -- A name that the base has gets no further entry.
  pub count_name-merge_env_vars :
      (base extras : List EnvVar)
      → has_name n base ≡ true
      → count_name n (merge_env_vars base extras) ≡ count_name n base
  unfolding merge_env_vars
  count_name-merge_env_vars base extras h =
      merge_fold_count extras (record { existing = name_set base; base = base })
        (contains-name_set base ∙ h)
