-- ===== src/NodeAgent/Split.antt =====
-- GPU mode without an affinity of the user: the nodes of the two agents
-- (internal/controller/install_agents.go).
use whatap_operator.Prelude.{
  String, Bool, true, false, Option, none, some, List, [], ◌∷◌, Dict, all, any, is_empty, not, ◌&&◌,
  ◌||◌, ◌≡◌, or_default, refl, arith, ◌∙◌, ap, sym, Option-cases, inl, inr, ◌⊎◌,
}
use whatap_operator.NodeAgent.{
  NodeSelectorTerm, NodeSelectorRequirement, negate_operator, GpuSpec, NodeSpec, has_node_selector,
  has_affinity, gpu_affinity_terms, negate_selector, negate_affinity, anti_terms, gpu_placements,
  place, negate_requirements,
}
use whatap_operator.NodeAgent.Nodes.{Scheduler, selected, eligible}
use whatap_operator.NodeAgent.Terms.{
  negatable, any-append, any-negate_requirements, any-negate_selector, admitted-override_none,
  IsPlainTerm, is_empty-append,
}

-- The GPU affinity has one term, of requirements on labels that all have a negation.
pub record IsSingleTerm (gpu : GpuSpec) : Type 0 where
  pub given : has_affinity gpu ≡ true
  pub term : NodeSelectorTerm
  pub only : gpu_affinity_terms gpu ≡ term ∷ []
  pub plain : IsPlainTerm term
  pub negated : negatable term.match_expressions ≡ true

-- The GPU nodes are described by a node selector, by an affinity with a single term, or by both.
abbrev pub IsSplittable : GpuSpec → Type 0
IsSplittable gpu =
    ((has_node_selector gpu ≡ true) × (has_affinity gpu ≡ false) × (gpu_affinity_terms gpu ≡ []))
    ⊎ IsSingleTerm gpu

is_empty-negate_selector :
    (labels : Dict String) → is_empty (negate_selector labels) ≡ is_empty labels
unfolding negate_selector
is_empty-negate_selector [] = refl
is_empty-negate_selector ((k, v) ∷ labels) = refl

nonempty :
    (rs : List NodeSelectorRequirement)
    → is_empty rs ≡ false
    → negatable rs ≡ true
    → is_empty (negate_requirements rs) ≡ false
unfolding negate_requirements
nonempty [] h m = absurd (ground arith)
nonempty (r ∷ rs) h m = elim (Option-cases (negate_operator r.operator)) [
  | inl e ↦ absurd (ground arith)
  | inr (o, e) ↦ rw (e, negate_requirements)
]

-- The terms of the normal agent negate the description of the GPU nodes.
module _ (s : Scheduler) (gpu : GpuSpec) (n : s.Node) where
  open s use {holds, field_holds, term_matches}

  term_matches-plain :
      (t : NodeSelectorTerm) → IsPlainTerm t → term_matches n t ≡ all (holds n) t.match_expressions
  term_matches-plain t p = s.term_rule n t ∙ ground (arith, p.0, ap (all (field_holds n)) p.1)

  anti_terms_of_selector :
      has_node_selector gpu ≡ true
      → has_affinity gpu ≡ false
      → (is_empty (anti_terms gpu) || any (term_matches n) (anti_terms gpu))
        ≡ not (selected s n (or_default gpu.node_selector []))
  unfolding anti_terms
  anti_terms_of_selector h a =
      let sel = or_default gpu.node_selector [] in
      rw a (
        ground (
          arith,
          any-append (term_matches n) (negate_selector sel) [],
          is_empty-append (negate_selector sel) [],
          is_empty-negate_selector sel,
          any-negate_selector s n sel,
        ))

  pub negate_requirements_matches :
      (t : NodeSelectorTerm)
      → IsPlainTerm t
      → negatable t.match_expressions ≡ true
      → any (term_matches n) (negate_requirements t.match_expressions) ≡ not (term_matches n t)
  negate_requirements_matches t p m =
      any-negate_requirements s n t.match_expressions m ∙ ap not (sym (term_matches-plain t p))

  pub negate_requirements_nonempty :
      (t : NodeSelectorTerm)
      → IsPlainTerm t
      → negatable t.match_expressions ≡ true
      → is_empty (negate_requirements t.match_expressions) ≡ false
  negate_requirements_nonempty t p m = nonempty t.match_expressions p.0 m

  anti_terms_of_term :
      (single_term : IsSingleTerm gpu)
      → (is_empty (anti_terms gpu) || any (term_matches n) (anti_terms gpu))
        ≡ not (selected s n (or_default gpu.node_selector []) && term_matches n single_term.term)
  unfolding anti_terms negate_affinity
  anti_terms_of_term i =
      let sel = or_default gpu.node_selector [] in
      let neg = negate_requirements i.term.match_expressions in
      rw (i.given, i.only)
        (ground (
          arith,
          any-append (term_matches n) (negate_selector sel) neg,
          is_empty-append (negate_selector sel) neg,
          any-negate_selector s n sel,
          negate_requirements_matches i.term i.plain i.negated,
          negate_requirements_nonempty i.term i.plain i.negated,
        ))

share :
    (e e' chosen own without t : Bool)
    → e ≡ (chosen && t)
    → e' ≡ (own && not (without && t))
    → (chosen ≡ without) ⊎ ((without ≡ true) × (chosen ≡ own))
    → e' ≡ (own && not e)
share e e' chosen own without t p q c = ground arith

selector_cases :
    (s : Scheduler) (n : s.Node) (own : Dict String) (o : Option (Dict String))
    → (selected s n (or_default o own) ≡ selected s n (or_default o []))
      ⊎ ((selected s n (or_default o []) ≡ true)
          × (selected s n (or_default o own) ≡ selected s n own))
selector_cases s n own none = inr (refl, refl)
selector_cases s n own (some labels) = inl refl

module _ (s : Scheduler) (node : NodeSpec) (gpu : GpuSpec) (no_affinity : node.affinity ≡ none)
    (n : s.Node) where
  open s use {term_matches}

  gpu_eligible : eligible s n (gpu_placements node gpu).0 ≡ (
      selected s n (or_default gpu.node_selector node.node_selector)
      && (is_empty (gpu_affinity_terms gpu) || any (term_matches n) (gpu_affinity_terms gpu)))
  unfolding gpu_placements place
  gpu_eligible = rw no_affinity (
      ap (λ b. selected s n (or_default gpu.node_selector node.node_selector) && b)
        (admitted-override_none s n (gpu_affinity_terms gpu)))

  normal_eligible : eligible s n (gpu_placements node gpu).1 ≡ (
      selected s n node.node_selector
      && (is_empty (anti_terms gpu) || any (term_matches n) (anti_terms gpu)))
  unfolding gpu_placements place
  normal_eligible =
      rw no_affinity (
        ap (λ b. selected s n node.node_selector && b)
          (admitted-override_none s n (anti_terms gpu)))

  -- If the node agent has no affinity of its own, and the GPU nodes are described by a node
  -- selector only, or by an affinity with a single term of label requirements that all have a
  -- negation (with a node selector or without), then the two placements of GPU mode share out the
  -- nodes: the normal agent may run on exactly those nodes that the node agent's own node
  -- selector allows and where the GPU agent may not run.
  pub gpu_placements_split :
      IsSplittable gpu
      → eligible s n (gpu_placements node gpu).1
        ≡ (selected s n node.node_selector && not (eligible s n (gpu_placements node gpu).0))
  gpu_placements_split (inl (h, a, t)) =
      share _ _ (selected s n (or_default gpu.node_selector node.node_selector))
        (selected s n node.node_selector) (selected s n (or_default gpu.node_selector [])) true
        (gpu_eligible ∙ rw t)
        (normal_eligible ∙ rw (anti_terms_of_selector s gpu n h a) (ground arith))
        (selector_cases s n node.node_selector gpu.node_selector)
  gpu_placements_split (inr i) =
      share _ _ (selected s n (or_default gpu.node_selector node.node_selector))
        (selected s n node.node_selector) (selected s n (or_default gpu.node_selector []))
        (term_matches n i.term) (gpu_eligible ∙ rw i.only (ground arith))
        (normal_eligible ∙ rw (anti_terms_of_term s gpu n i))
        (selector_cases s n node.node_selector gpu.node_selector)
