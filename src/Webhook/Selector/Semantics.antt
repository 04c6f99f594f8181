-- ===== src/Webhook/Selector/Semantics.antt =====
-- What it means for labels to satisfy a requirement, apart from the code, and that the matching
-- code of internal/webhook/v2alpha1/utils.go decides it.
use whatap_operator.Prelude.{
  String, true, false, none, some, List, [], ◌∷◌, ◌++◌, map, Dict, lookup, ◌==◌, contains, not,
  ◌&&◌, ◌≡◌, ◌↔◌, ◌⊎◌, refl, arith, eq_iff, Bool-cases, inl, inr, Option-cases, sym, ◌∙◌, ap,
  or_default, eq_of_test, All,
}
use whatap_operator.Webhook.Types.{LabelSelectorRequirement, PodSelector, NamespaceSelector}
use whatap_operator.Webhook.Selector.{
  has_label, has_labels, matches_in_operator, matches_not_in_operator, matches_exists_operator,
  matches_does_not_exist_operator, matches_label_expression, matches_label_expressions,
  matches_selector, matches_namespace_names, matches_namespace_selector,
}

-- The documented meaning of the four operators.
pub data Satisfies (labels : Dict String) (req : LabelSelectorRequirement) : Type 0 where
  is_in :
      (v : String)
      → req.operator ≡ "In"
      → lookup req.key labels ≡ some v
      → contains req.values v ≡ true
      → Satisfies labels req
  not_there : req.operator ≡ "NotIn" → lookup req.key labels ≡ none → Satisfies labels req
  not_in :
      (v : String)
      → req.operator ≡ "NotIn"
      → lookup req.key labels ≡ some v
      → contains req.values v ≡ false
      → Satisfies labels req
  there :
      (v : String) → req.operator ≡ "Exists" → lookup req.key labels ≡ some v → Satisfies labels req
  absent : req.operator ≡ "DoesNotExist" → lookup req.key labels ≡ none → Satisfies labels req

-- A matchLabels entry as the requirement that it stands for.
pub as_requirement : String × String → LabelSelectorRequirement
as_requirement (k, v) = record { key = k; operator = "In"; values = v ∷ [] }

-- All requirements of a selector.
abbrev pub requirements :
    Dict String → List LabelSelectorRequirement → List LabelSelectorRequirement
requirements match_labels match_expressions = map as_requirement match_labels ++ match_expressions

module _ {labels : Dict String} {req : LabelSelectorRequirement} where
  sound_in : req.operator ≡ "In" → matches_in_operator labels req ≡ true → Satisfies labels req
  unfolding matches_in_operator
  sound_in o h = elim (Option-cases (lookup req.key labels)) [
    | inl e ↦ absurd (ground arith)
    | inr (v, e) ↦ is_in v o e (ground arith)
  ]

  sound_not_in :
      req.operator ≡ "NotIn" → matches_not_in_operator labels req ≡ true → Satisfies labels req
  unfolding matches_not_in_operator
  sound_not_in o h = elim (Option-cases (lookup req.key labels)) [
    | inl e ↦ not_there o e
    | inr (v, e) ↦ not_in v o e (ground arith)
  ]

  sound_exists :
      req.operator ≡ "Exists" → matches_exists_operator labels req ≡ true → Satisfies labels req
  unfolding matches_exists_operator
  sound_exists o h = elim (Option-cases (lookup req.key labels)) [
    | inl e ↦ absurd (ground arith)
    | inr (v, e) ↦ there v o e
  ]

  sound_absent :
      req.operator ≡ "DoesNotExist"
      → matches_does_not_exist_operator labels req ≡ true
      → Satisfies labels req
  unfolding matches_does_not_exist_operator
  sound_absent o h = elim (Option-cases (lookup req.key labels)) [
    | inl e ↦ absent o e
    | inr (v, e) ↦ absurd (ground arith)
  ]

sound :
    (labels : Dict String) (req : LabelSelectorRequirement)
    → matches_label_expression labels req ≡ true
    → Satisfies labels req
unfolding matches_label_expression
sound labels req h = elim (Bool-cases (req.operator == "In")) [
  | inl e ↦ sound_in (eq_of_test req.operator "In" e) (ground arith)
  | inr a ↦ elim (Bool-cases (req.operator == "NotIn")) [
    | inl e ↦ sound_not_in (eq_of_test req.operator "NotIn" e) (ground arith)
    | inr b ↦ elim (Bool-cases (req.operator == "Exists")) [
      | inl e ↦ sound_exists (eq_of_test req.operator "Exists" e) (ground arith)
      | inr c ↦ elim (Bool-cases (req.operator == "DoesNotExist")) [
        | inl e ↦ sound_absent (eq_of_test req.operator "DoesNotExist" e) (ground arith)
        | inr d ↦ absurd (ground arith)
      ]
    ]
  ]
]

complete :
    (labels : Dict String) (req : LabelSelectorRequirement)
    → Satisfies labels req
    → matches_label_expression labels req ≡ true
unfolding matches_label_expression
complete labels req (is_in v o l c) = rw o (rw (l, matches_in_operator) c)
complete labels req (not_there o l) = rw o (rw (l, matches_not_in_operator))
complete labels req (not_in v o l c) = rw o (rw (l, matches_not_in_operator) (ap not c))
complete labels req (there v o l) = rw o (rw (l, matches_exists_operator))
complete labels req (absent o l) = rw o (rw (l, matches_does_not_exist_operator))

expressions_sound :
    (labels : Dict String) (reqs : List LabelSelectorRequirement)
    → matches_label_expressions labels reqs ≡ true
    → All (Satisfies labels) reqs
unfolding matches_label_expressions
expressions_sound labels [] h = tt
expressions_sound labels (req ∷ reqs) h =
    (sound labels req (ground arith), expressions_sound labels reqs (ground arith))

expressions_complete :
    (labels : Dict String) (reqs : List LabelSelectorRequirement)
    → All (Satisfies labels) reqs
    → matches_label_expressions labels reqs ≡ true
unfolding matches_label_expressions
expressions_complete labels [] h = refl
expressions_complete labels (req ∷ reqs) h =
    rw (complete labels req h.0) (expressions_complete labels reqs h.1)

-- A label test is the test of the requirement that the entry stands for.
has_label-eq :
    (labels : Dict String) (k v : String)
    → has_label labels k v ≡ matches_label_expression labels (as_requirement (k, v))
unfolding has_label matches_label_expression as_requirement
has_label-eq labels k v =
    ground (
      arith,
      eq_iff v (or_default (lookup k labels) ""),
      eq_iff (or_default (lookup k labels) "") v,
    )

-- matchLabels is the conjunction of `In` requirements with one value each: testing it is testing
-- those requirements.
pub has_labels-eq :
    (labels match_labels : Dict String)
    → has_labels labels match_labels
      ≡ matches_label_expressions labels (map as_requirement match_labels)
unfolding has_labels matches_label_expressions
has_labels-eq labels [] = refl
has_labels-eq labels ((k, v) ∷ m) = rw (has_label-eq labels k v, has_labels-eq labels m)

expressions-append :
    (labels : Dict String) (xs ys : List LabelSelectorRequirement)
    → matches_label_expressions labels (xs ++ ys)
      ≡ (matches_label_expressions labels xs && matches_label_expressions labels ys)
unfolding matches_label_expressions
expressions-append labels [] ys = refl
expressions-append labels (x ∷ xs) ys = ground (arith, expressions-append labels xs ys)

matches_selector-eq :
    (labels : Dict String) (s : PodSelector)
    → matches_selector labels s
      ≡ matches_label_expressions labels (requirements s.match_labels s.match_expressions)
unfolding matches_selector
matches_selector-eq labels s = ground (
  arith,
  has_labels-eq labels s.match_labels,
  expressions-append labels (map as_requirement s.match_labels) s.match_expressions,
)

-- A pod selector matches exactly the labels that satisfy every requirement of its matchLabels and
-- its matchExpressions.
pub matches_selector_iff :
    (labels : Dict String) (s : PodSelector)
    → (matches_selector labels s ≡ true)
      ↔ All (Satisfies labels) (requirements s.match_labels s.match_expressions)
matches_selector_iff labels s = (
  λ h. expressions_sound labels _ (sym (matches_selector-eq labels s) ∙ h),
  λ h. matches_selector-eq labels s ∙ expressions_complete labels _ h,
)

matches_namespace_names_iff :
    (name : String) (names : List String)
    → matches_namespace_names name names ≡ true
    → (names ≡ []) ⊎ (contains names name ≡ true)
unfolding matches_namespace_names
matches_namespace_names_iff name [] h = inl refl
matches_namespace_names_iff name (n ∷ ns) h = inr h

matches_namespace_selector_parts :
    (name : String) (labels : Dict String) (s : NamespaceSelector)
    → matches_namespace_selector name labels s ≡ true
    → (matches_namespace_names name s.match_names ≡ true)
      × (matches_label_expressions labels (requirements s.match_labels s.match_expressions) ≡ true)
unfolding matches_namespace_selector
matches_namespace_selector_parts name labels s h =
    let split = expressions-append labels (map as_requirement s.match_labels) s.match_expressions in
    (ground arith, ground (arith, has_labels-eq labels s.match_labels, split))

namespace_of_parts :
    (name : String) (labels : Dict String) (s : NamespaceSelector)
    → (s.match_names ≡ []) ⊎ (contains s.match_names name ≡ true)
    → matches_label_expressions labels (requirements s.match_labels s.match_expressions) ≡ true
    → matches_namespace_selector name labels s ≡ true
unfolding matches_namespace_selector matches_namespace_names
namespace_of_parts name labels s n h =
    let split = expressions-append labels (map as_requirement s.match_labels) s.match_expressions in
    ground (arith, has_labels-eq labels s.match_labels, split)

-- A namespace selector matches exactly if the namespace is among the names, or no name is given,
-- and its labels satisfy every requirement.
pub matches_namespace_selector_iff :
    (name : String) (labels : Dict String) (s : NamespaceSelector)
    → (matches_namespace_selector name labels s ≡ true) ↔ (
        ((s.match_names ≡ []) ⊎ (contains s.match_names name ≡ true))
        × All (Satisfies labels) (requirements s.match_labels s.match_expressions))
matches_namespace_selector_iff name labels s = (
  λ h.
      let parts = matches_namespace_selector_parts name labels s h in
      (matches_namespace_names_iff name s.match_names parts.0, expressions_sound labels _ parts.1),
  λ h. namespace_of_parts name labels s h.0 (expressions_complete labels _ h.1),
)
