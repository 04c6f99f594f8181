-- ===== src/Webhook/Selector.antt =====
-- Label and namespace selectors (internal/webhook/v2alpha1/utils.go).
pub mod Semantics
use whatap_operator.Prelude.{
  String, Bool, true, false, Option, none, some, List, [], ◌∷◌, Dict, lookup, if◌then◌else◌, ◌==◌,
  contains, is_empty, is_some, not, ◌&&◌,
}
use whatap_operator.Webhook.Types.{LabelSelectorRequirement, PodSelector, NamespaceSelector}

unfoldable pub has_label : Dict String → String → String → Bool
has_label labels key val = elim (lookup key labels) [ none ↦ false | some v ↦ v == val ]

unfoldable pub has_labels : Dict String → Dict String → Bool
has_labels labels [] = true
has_labels labels ((key, val) ∷ selector) =
    if has_label labels key val then has_labels labels selector else false

unfoldable pub matches_in_operator : Dict String → LabelSelectorRequirement → Bool
matches_in_operator labels req = elim (lookup req.key labels) [
  | none ↦ false
  | some value ↦ contains req.values value
]

unfoldable pub matches_not_in_operator : Dict String → LabelSelectorRequirement → Bool
matches_not_in_operator labels req = elim (lookup req.key labels) [
  | none ↦ true
  | some value ↦ not (contains req.values value)
]

unfoldable pub matches_exists_operator : Dict String → LabelSelectorRequirement → Bool
matches_exists_operator labels req = is_some (lookup req.key labels)

unfoldable pub matches_does_not_exist_operator : Dict String → LabelSelectorRequirement → Bool
matches_does_not_exist_operator labels req = not (is_some (lookup req.key labels))

unfoldable pub matches_label_expression : Dict String → LabelSelectorRequirement → Bool
unfolding matches_in_operator matches_not_in_operator matches_exists_operator
    matches_does_not_exist_operator
matches_label_expression labels req =
    if req.operator == "In"
    then matches_in_operator labels req
    else if req.operator == "NotIn"
    then matches_not_in_operator labels req
    else if req.operator == "Exists"
    then matches_exists_operator labels req
    else if req.operator == "DoesNotExist"
    then matches_does_not_exist_operator labels req
    else false

unfoldable pub matches_label_expressions : Dict String → List LabelSelectorRequirement → Bool
matches_label_expressions labels [] = true
matches_label_expressions labels (req ∷ reqs) =
    if matches_label_expression labels req then matches_label_expressions labels reqs else false

unfoldable pub matches_selector : Dict String → PodSelector → Bool
matches_selector labels selector =
    if has_labels labels selector.match_labels
    then matches_label_expressions labels selector.match_expressions
    else false

unfoldable pub matches_namespace_names : String → List String → Bool
matches_namespace_names namespace_name match_names =
    if is_empty match_names then true else contains match_names namespace_name

unfoldable pub matches_namespace_selector : String → Dict String → NamespaceSelector → Bool
matches_namespace_selector namespace_name namespace_labels selector =
    if matches_namespace_names namespace_name selector.match_names
    then (if has_labels namespace_labels selector.match_labels
        then matches_label_expressions namespace_labels selector.match_expressions
        else false)
    else false
