-- ===== src/NodeAgent/Terms.antt =====
-- What the terms mean that the operator builds (internal/controller/install_agents.go).
use whatap_operator.Prelude.{
  String, Bool, true, false, none, some, List, [], ◌∷◌, ◌++◌, map, Dict, all, any, is_empty,
  is_some, not, ◌&&◌, ◌||◌, ◌≡◌, refl, arith, ◌∙◌, ap, Option-cases, inl, inr, All,
}
use whatap_operator.NodeAgent.{
  NodeSelectorRequirement, NodeSelectorTerm, NodeSelectorOperator, op_in, op_not_in, op_exists,
  op_does_not_exist, single, negate_operator, negate_requirements, negate_selector, cross,
  with_expressions, merge_terms, required_terms, set_required, override_affinity,
}
use whatap_operator.NodeAgent.Nodes.{Scheduler, selected, admitted}

module _ {A : Type 0} (p : A → Bool) where
  pub any-append : (xs ys : List A) → any p (xs ++ ys) ≡ (any p xs || any p ys)
  any-append [] ys = refl
  any-append (x ∷ xs) ys = ground (arith, any-append xs ys)

  pub all-append : (xs ys : List A) → all p (xs ++ ys) ≡ (all p xs && all p ys)
  all-append [] ys = refl
  all-append (x ∷ xs) ys = ground (arith, all-append xs ys)

-- Every requirement has a negation.
abbrev pub negatable : List NodeSelectorRequirement → Bool
negatable = all (λ r. is_some (negate_operator r.operator))

-- A term that is not empty, and one that has requirements on labels only.
abbrev pub IsTerm : NodeSelectorTerm → Type 0
IsTerm t = (is_empty t.match_expressions && is_empty t.match_fields) ≡ false

abbrev pub IsPlainTerm : NodeSelectorTerm → Type 0
IsPlainTerm t = (is_empty t.match_expressions ≡ false) × (t.match_fields ≡ [])

pub is_empty-append {ℓ} :
    {A : Type ℓ} (xs ys : List A) → is_empty (xs ++ ys) ≡ (is_empty xs && is_empty ys)
is_empty-append [] ys = refl
is_empty-append (x ∷ xs) ys = refl

module _ (s : Scheduler) where
  open s use {Node, holds, field_holds, has_label, term_matches}

  module _ (n : Node) where
    term_matches-single : (r : NodeSelectorRequirement) → term_matches n (single r) ≡ holds n r
    term_matches-single r = s.term_rule n (single r) ∙ ground arith

    -- A negated requirement holds exactly where the requirement does not.
    holds-negate :
        (k : String) (vs : List String) (o o' : NodeSelectorOperator)
        → negate_operator o ≡ some o'
        → holds n (record { key = k; operator = o'; values = vs })
          ≡ not (holds n (record { key = k; operator = o; values = vs }))
    holds-negate k vs op_in op_not_in h = s.not_in_rule n k vs
    holds-negate k vs op_not_in op_in h = ground (arith, s.not_in_rule n k vs)
    holds-negate k vs op_exists op_does_not_exist h = s.does_not_exist_rule n k vs
    holds-negate k vs op_does_not_exist op_exists h = ground (arith, s.does_not_exist_rule n k vs)
    holds-negate k vs _ _ h = absurd (ground arith)

    negated_holds :
        (r : NodeSelectorRequirement) (o : NodeSelectorOperator)
        → negate_operator r.operator ≡ some o
        → term_matches n (single (record { key = r.key; operator = o; values = r.values }))
          ≡ not (holds n r)
    negated_holds r o h = term_matches-single _ ∙ holds-negate r.key r.values r.operator o h

    -- The negation of a term, read as alternatives, is the negation of its requirements.
    pub any-negate_requirements :
        (rs : List NodeSelectorRequirement)
        → negatable rs ≡ true
        → any (term_matches n) (negate_requirements rs) ≡ not (all (holds n) rs)
    unfolding negate_requirements
    any-negate_requirements [] h = refl
    any-negate_requirements (r ∷ rs) h = elim (Option-cases (negate_operator r.operator)) [
      | inl e ↦ absurd (ground arith)
      | inr (o, e) ↦
          rw (e, negate_requirements)
            (ground (arith, negated_holds r o e, any-negate_requirements rs))
    ]

    pub any-negate_selector :
        (labels : Dict String)
        → any (term_matches n) (negate_selector labels) ≡ not (selected s n labels)
    unfolding negate_selector
    any-negate_selector [] = refl
    any-negate_selector ((k, v) ∷ labels) = ground (
      arith,
      any-negate_selector labels,
      s.has_label_rule n k v,
      s.not_in_rule n k (v ∷ []),
      term_matches-single (record { key = k; operator = op_not_in; values = v ∷ [] }),
    )

    -- A term with further requirements is the conjunction of the two terms.
    term_matches-with_expressions :
        (et at : NodeSelectorTerm)
        → (is_empty et.match_expressions && is_empty et.match_fields) ≡ false
        → is_empty at.match_expressions ≡ false
        → at.match_fields ≡ []
        → term_matches n (with_expressions et at) ≡ (term_matches n et && term_matches n at)
    term_matches-with_expressions et at e a f =
        s.term_rule n (with_expressions et at)
        ∙ ground (
          arith,
          s.term_rule n et,
          s.term_rule n at,
          all-append (holds n) et.match_expressions at.match_expressions,
          is_empty-append et.match_expressions at.match_expressions,
          ap (all (field_holds n)) f,
        )

    any-map_with :
        (et : NodeSelectorTerm) (ats : List NodeSelectorTerm)
        → (is_empty et.match_expressions && is_empty et.match_fields) ≡ false
        → All IsPlainTerm ats
        → any (term_matches n) (map (with_expressions et) ats)
          ≡ (term_matches n et && any (term_matches n) ats)
    any-map_with et [] e h = ground arith
    any-map_with et (at ∷ ats) e h =
        ground (arith, term_matches-with_expressions et at e h.0.0 h.0.1, any-map_with et ats e h.1)

    -- Crossing two lists of alternatives is their conjunction.
    pub any-cross :
        (ets ats : List NodeSelectorTerm)
        → All IsTerm ets
        → All IsPlainTerm ats
        → any (term_matches n) (cross ets ats)
          ≡ (any (term_matches n) ets && any (term_matches n) ats)
    unfolding cross
    any-cross [] ats e h = refl
    any-cross (et ∷ ets) ats e h =
        any-append (term_matches n) (map (with_expressions et) ats) (cross ets ats)
        ∙ ground (arith, any-map_with et ats e.0 h, any-cross ets ats e.1 h)

    pub admitted-override_none :
        (terms : List NodeSelectorTerm)
        → admitted s n (override_affinity none terms)
          ≡ (is_empty terms || any (term_matches n) terms)
    unfolding override_affinity set_required required_terms merge_terms
    admitted-override_none [] = refl
    admitted-override_none (t ∷ ts) = refl
