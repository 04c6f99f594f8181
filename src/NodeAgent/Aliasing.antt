-- ===== src/NodeAgent/Aliasing.antt =====
-- GPU mode with an affinity of the user: the pointer that the template and the resource share
-- (internal/controller/install_agents.go).
use whatap_operator.Prelude.{
  true, false, Option, none, some, List, [], ◌∷◌, all, any, is_empty, is_some, ◌≡◌, refl, arith, ap,
  Option-cases, inl, inr, All,
}
use whatap_operator.NodeAgent.{
  NodeSelectorTerm, NodeSelectorRequirement, Affinity, GpuSpec, NodeSpec, negate_selector,
  negate_affinity, anti_terms, gpu_placements, place, override_affinity, negate_requirements,
  required_terms, set_required, merge_terms, cross, with_expressions, negate_operator,
}
use whatap_operator.NodeAgent.Nodes.{Scheduler, admitted, eligible}
use whatap_operator.NodeAgent.Terms.{
  negatable, all-append, any-negate_requirements, any-cross, IsTerm, IsPlainTerm, is_empty-append,
}
use whatap_operator.NodeAgent.Split.{IsSingleTerm, negate_requirements_nonempty}

-- Writing the required terms and reading them.
required_terms-set_required :
    (a : Option Affinity) (terms : List NodeSelectorTerm)
    → required_terms (some (set_required a terms)) ≡ terms
unfolding required_terms set_required
required_terms-set_required none terms = refl
required_terms-set_required (some a) terms = ground arith

required_terms-override :
    (a : Option Affinity) (ts : List NodeSelectorTerm)
    → is_empty ts ≡ false
    → required_terms (override_affinity a ts) ≡ merge_terms (required_terms a) ts
unfolding override_affinity
required_terms-override a [] h = absurd (ground arith)
required_terms-override a (t ∷ ts) h =
    required_terms-set_required a (merge_terms (required_terms a) (t ∷ ts))

is_some-override :
    (a : Option Affinity) (ts : List NodeSelectorTerm)
    → is_empty ts ≡ false
    → is_some (override_affinity a ts) ≡ true
unfolding override_affinity
is_some-override a [] h = absurd (ground arith)
is_some-override a (t ∷ ts) h = refl

is_empty-cross_single :
    (ets : List NodeSelectorTerm) (t : NodeSelectorTerm)
    → is_empty (cross ets (t ∷ [])) ≡ is_empty ets
unfolding cross
is_empty-cross_single [] t = refl
is_empty-cross_single (et ∷ ets) t = refl

IsTerm-with_expressions :
    (et t : NodeSelectorTerm)
    → is_empty t.match_expressions ≡ false
    → IsTerm (with_expressions et t)
IsTerm-with_expressions et t h =
    ground (arith, is_empty-append et.match_expressions t.match_expressions)

All-IsTerm-cross_single :
    (ets : List NodeSelectorTerm) (t : NodeSelectorTerm)
    → is_empty t.match_expressions ≡ false
    → All IsTerm (cross ets (t ∷ []))
unfolding cross
All-IsTerm-cross_single [] t h = tt
All-IsTerm-cross_single (et ∷ ets) t h =
    (IsTerm-with_expressions et t h, All-IsTerm-cross_single ets t h)

All-IsPlainTerm-negate_requirements :
    (rs : List NodeSelectorRequirement) → All IsPlainTerm (negate_requirements rs)
unfolding negate_requirements
All-IsPlainTerm-negate_requirements [] = tt
All-IsPlainTerm-negate_requirements (r ∷ rs) = elim (Option-cases (negate_operator r.operator)) [
  | inl e ↦ rw (e, negate_requirements) (All-IsPlainTerm-negate_requirements rs)
  | inr (o, e) ↦ rw (e, negate_requirements) ((refl, refl), All-IsPlainTerm-negate_requirements rs)
]

module _ (s : Scheduler) (n : s.Node) where
  open s use {holds, field_holds, term_matches}

  -- An affinity whose required terms are there admits a node by them.
  admitted-override :
      (a : Option Affinity) (ts : List NodeSelectorTerm)
      → is_empty ts ≡ false
      → admitted s n (override_affinity a ts)
        ≡ any (term_matches n) (merge_terms (required_terms a) ts)
  unfolding override_affinity set_required
  admitted-override a [] h = absurd (ground arith)
  admitted-override none (t ∷ ts) h = refl
  admitted-override (some a) (t ∷ ts) h = ground arith

  -- A term that was merged with another matches only where that one does.
  term_matches-merged :
      (et t : NodeSelectorTerm)
      → IsPlainTerm t
      → term_matches n (with_expressions et t) ≡ true
      → term_matches n t ≡ true
  term_matches-merged et t p h = ground (
    arith,
    s.term_rule n (with_expressions et t),
    s.term_rule n t,
    all-append (holds n) et.match_expressions t.match_expressions,
    p.0,
    ap (all (field_holds n)) p.1,
  )

  any-cross_single :
      (ets : List NodeSelectorTerm) (t : NodeSelectorTerm)
      → IsPlainTerm t
      → any (term_matches n) (cross ets (t ∷ [])) ≡ true
      → term_matches n t ≡ true
  unfolding cross
  any-cross_single [] t p h = absurd (ground arith)
  any-cross_single (et ∷ ets) t p h =
      ground (arith, term_matches-merged et t p, any-cross_single ets t p)

  -- Terms that hold a term and its negation match nowhere.
  contradiction :
      (ets : List NodeSelectorTerm) (t : NodeSelectorTerm)
      → IsPlainTerm t
      → negatable t.match_expressions ≡ true
      → is_empty ets ≡ false
      → All IsTerm ets
      → (any (term_matches n) ets ≡ true → term_matches n t ≡ true)
      → any (term_matches n) (merge_terms ets (negate_requirements t.match_expressions)) ≡ false
  unfolding merge_terms
  contradiction ets t p m e i h = rw e (
      ground (
        arith,
        any-cross s n ets (negate_requirements t.match_expressions) i
            (All-IsPlainTerm-negate_requirements t.match_expressions),
        any-negate_requirements s n t.match_expressions m,
        s.term_rule n t,
        p.0,
        ap (all (field_holds n)) p.1,
        h,
      ))

  shared_terms :
      (ets : List NodeSelectorTerm) (t : NodeSelectorTerm)
      → IsPlainTerm t
      → negatable t.match_expressions ≡ true
      → any
          (term_matches n)
          (merge_terms (merge_terms ets (t ∷ [])) (negate_requirements t.match_expressions))
        ≡ false
  unfolding merge_terms
  shared_terms [] t p m =
      contradiction (t ∷ []) t p m refl (ground (arith, p.0), tt) (λ h. ground arith)
  shared_terms (et ∷ ets) t p m =
      contradiction (cross (et ∷ ets) (t ∷ [])) t p m (is_empty-cross_single (et ∷ ets) t)
        (All-IsTerm-cross_single (et ∷ ets) t p.0) (any-cross_single (et ∷ ets) t p)

  anti_terms_of_affinity :
      (gpu : GpuSpec)
      → gpu.node_selector ≡ none
      → (i : IsSingleTerm gpu) → anti_terms gpu ≡ negate_requirements i.term.match_expressions
  unfolding anti_terms negate_affinity negate_selector
  anti_terms_of_affinity gpu h i = rw (h, i.given, i.only) refl

  -- GPU mode with an affinity in the node agent's resource, and the GPU nodes described by an
  -- affinity of a single term only: the normal agent may run on no node at all, since its template
  -- requires the GPU term, which the GPU agent's placement wrote into the shared affinity, and the
  -- negation of that term.
  pub normal_agent_starves :
      (node : NodeSpec) (a : Affinity) (gpu : GpuSpec)
      → node.affinity ≡ some a
      → gpu.node_selector ≡ none
      → IsSingleTerm gpu
      → eligible s n (gpu_placements node gpu).1 ≡ false
  unfolding gpu_placements place
  normal_agent_starves node a gpu given no_selector i =
      let t = i.term in
      let anti = negate_requirements t.match_expressions in
      let some_anti = negate_requirements_nonempty s gpu n t i.plain i.negated in
      rw (given, i.only, anti_terms_of_affinity gpu no_selector i)
        (ground (
          arith,
          admitted-override (override_affinity (some a) (t ∷ [])) anti some_anti,
          ap (λ ts. any (term_matches n) (merge_terms ts anti))
              (required_terms-override (some a) (t ∷ []) refl),
          shared_terms (required_terms (some a)) t i.plain i.negated,
        ))
