-- ===== src/Env.antt =====
-- corev1.EnvVar as the operator uses it, and the merging of environment lists
-- (internal/webhook/v2alpha1/utils.go).
pub mod Entries
pub mod Merge
pub mod Combine
use whatap_operator.Prelude.{
  String, Bool, false, ◌&&◌, Option, none, some, List, [], ◌∷◌, ◌++◌, foldl, if◌then◌else◌, ◌==◌,
  contains, not, or_else, ◌||◌, ℕ, suc,
}

-- corev1.EnvVarSource: the references that the operator writes or that a manifest may hold.
pub data EnvVarSource : Type 0 where
  field_ref : String → EnvVarSource
  resource_field_ref : String → String → EnvVarSource
  secret_key_ref : String → String → EnvVarSource
  config_map_key_ref : String → String → EnvVarSource

pub record EnvVar : Type 0 where
  pub name : String
  pub value : String
  pub value_from : Option EnvVarSource

abbrev pub env_value : String → String → EnvVar
env_value n v = record { name = n; value = v; value_from = none }

abbrev pub env_field : String → String → EnvVar
env_field n path = record { name = n; value = ""; value_from = some (field_ref path) }

-- The entry in force for a name, as the source sees it: the first one.
unfoldable pub effective : String → List EnvVar → Option EnvVar
effective n [] = none
effective n (e ∷ es) = if e.name == n then some e else effective n es

unfoldable pub has_name : String → List EnvVar → Bool
has_name n [] = false
has_name n (e ∷ es) = e.name == n || has_name n es

unfoldable pub count_name : String → List EnvVar → ℕ
count_name n [] = 0
count_name n (e ∷ es) = let rest = count_name n es in if e.name == n then suc rest else rest

-- findEnvValueByKeys: the inner loop is over the variables, the outer one over the keys.
find_value : String → List EnvVar → Option String
find_value k [] = none
find_value k (e ∷ es) = if e.name == k then some e.value else find_value k es

unfoldable pub find_env_value_by_keys : List EnvVar → List String → Option String
unfolding find_value
find_env_value_by_keys envs [] = none
find_env_value_by_keys envs (key ∷ keys) =
    or_else (find_value key envs) (find_env_value_by_keys envs keys)

-- The names of a list as the Go code collects them into a set: no empty name.
name_set_step : List String → EnvVar → List String
name_set_step names e = if e.name == "" then names else e.name ∷ names

pub name_set : List EnvVar → List String
unfolding name_set_step
name_set = foldl name_set_step []

-- One round of the loop of mergeEnvVars: the set of names, and the list that is appended to.
pub record MergeState : Type 0 where
  pub existing : List String
  pub base : List EnvVar

merge_step : MergeState → EnvVar → MergeState
merge_step st e =
    if e.name == ""
    then st
    else if contains st.existing e.name
    then st
    else record { existing = e.name ∷ st.existing; base = st.base ++ (e ∷ []) }

unfoldable pub merge_env_vars : List EnvVar → List EnvVar → List EnvVar
unfolding merge_step name_set
merge_env_vars base extras =
    (foldl merge_step (record { existing = name_set base; base = base }) extras).base

drop_names : List String → List EnvVar → List EnvVar
drop_names names [] = []
drop_names names (e ∷ es) =
    let rest = drop_names names es in if contains names e.name then rest else e ∷ rest

drop_unnamed : List EnvVar → List EnvVar
drop_unnamed [] = []
drop_unnamed (e ∷ es) = let rest = drop_unnamed es in if e.name == "" then rest else e ∷ rest

unfoldable pub upsert_env_vars : List EnvVar → List EnvVar → List EnvVar
unfolding drop_names drop_unnamed name_set
upsert_env_vars base overrides = drop_names (name_set overrides) base ++ drop_unnamed overrides

-- The two lists that combineEnvVars builds in one pass.
is_forced : (String → Bool) → EnvVar → Bool
is_forced force e = not (e.name == "") && force e.name

forced_of : (String → Bool) → List EnvVar → List EnvVar
unfolding is_forced
forced_of force [] = []
forced_of force (e ∷ es) =
    let rest = forced_of force es in if is_forced force e then e ∷ rest else rest

additive_of : (String → Bool) → List EnvVar → List EnvVar
unfolding is_forced
additive_of force [] = []
additive_of force (e ∷ es) =
    let rest = additive_of force es in if is_forced force e then rest else e ∷ rest

unfoldable pub combine_env_vars : List EnvVar → List EnvVar → (String → Bool) → List EnvVar
unfolding merge_env_vars upsert_env_vars forced_of additive_of
combine_env_vars base incoming force =
    merge_env_vars (upsert_env_vars base (forced_of force incoming)) (additive_of force incoming)
