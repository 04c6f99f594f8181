-- ===== src/NodeAgent/Dcgm/Variables.antt =====
-- Which variables the dcgm-exporter sees (internal/controller/install_agents.go,
-- addDcgmExporterToNodeAgent).
use whatap_operator.Prelude.{
  ℕ, String, Bool, true, false, Option, none, some, List, [], ◌∷◌, if◌then◌else◌, foldl, or_else,
  ◌==◌, ◌≡◌, refl, ap, ◌∙◌, arith, eq_iff, Bool-cases, inl, inr,
}
use whatap_operator.Env.{EnvVar, effective}
use whatap_operator.NodeAgent.Dcgm.{
  ExporterSpec, opts_out, remove_env, overwrite, apply_user_env, exporter_env_vars,
  default_env_vars,
}

-- The last entry of a name, which the user means.
unfoldable pub last_entry : String → List EnvVar → Option EnvVar
last_entry n [] = none
last_entry n (u ∷ us) = or_else (last_entry n us) (if u.name == n then some u else none)

-- What an entry of the user does to its name.
abbrev pub in_force : EnvVar → Option EnvVar
in_force u = if opts_out u then none else some u

effective-remove_env :
    (n m : String) (es : List EnvVar)
    → effective n (remove_env m es) ≡ (if m == n then none else effective n es)
unfolding effective remove_env
effective-remove_env n m [] = ground arith
effective-remove_env n m (e ∷ es) =
    ground (arith, effective-remove_env n m es, eq_iff e.name m, eq_iff e.name n, eq_iff m n)

effective-overwrite :
    (n : String) (u : EnvVar) (es : List EnvVar)
    → effective n (overwrite u es) ≡ (if u.name == n then some u else effective n es)
unfolding effective overwrite
effective-overwrite n u [] = refl
effective-overwrite n u (e ∷ es) =
    ground
      (arith, effective-overwrite n u es, eq_iff e.name u.name, eq_iff e.name n, eq_iff u.name n)

effective-apply_user_env :
    (n : String) (es : List EnvVar) (u : EnvVar)
    → effective n (apply_user_env es u) ≡ (if u.name == n then in_force u else effective n es)
unfolding apply_user_env
effective-apply_user_env n es u = elim (Bool-cases (opts_out u)) [
  | inl e ↦ rw e (effective-remove_env n u.name es)
  | inr e ↦ rw e (effective-overwrite n u es)
]

-- The entry in force after all of the user's, given the one before.
abbrev pub overridden : Option EnvVar → Option EnvVar → Option EnvVar
overridden none before = before
overridden (some u) before = in_force u

overridden_step :
    (o : Option EnvVar) (b : Bool) (u : EnvVar) (before : Option EnvVar)
    → overridden o (if b then in_force u else before)
      ≡ overridden (or_else o (if b then some u else none)) before
overridden_step none true u before = refl
overridden_step none false u before = refl
overridden_step (some v) b u before = refl

effective-foldl :
    (n : String) (us es : List EnvVar)
    → effective n (foldl apply_user_env es us) ≡ overridden (last_entry n us) (effective n es)
unfolding last_entry
effective-foldl n [] es = refl
effective-foldl n (u ∷ us) es =
    effective-foldl n us (apply_user_env es u)
    ∙ ap (overridden (last_entry n us)) (effective-apply_user_env n es u)
    ∙ overridden_step (last_entry n us) (u.name == n) u (effective n es)

-- The exporter sees for a name the last entry that the user gives, and the operator's own where the
-- user gives none; an empty address of a remote host engine takes that variable away.
pub effective-exporter_env_vars :
    (quote_meta : String → String) (show : ℕ → String) (gpu : ExporterSpec) (n : String)
    → effective n (exporter_env_vars quote_meta show gpu)
      ≡ overridden (last_entry n gpu.envs) (effective n (default_env_vars quote_meta show gpu))
unfolding exporter_env_vars
effective-exporter_env_vars quote_meta show gpu n =
    effective-foldl n gpu.envs (default_env_vars quote_meta show gpu)
