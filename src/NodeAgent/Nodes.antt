-- ===== src/NodeAgent/Nodes.antt =====
-- What Kubernetes documents of node selectors, as a parameter: nodes, requirements and terms.
use whatap_operator.Prelude.{
  String, Bool, true, Option, none, some, List, [], ◌∷◌, Dict, all, any, is_empty, not, ◌&&◌, ◌≡◌,
}
use whatap_operator.NodeAgent.{
  NodeSelectorRequirement, NodeSelectorTerm, Affinity, Placement, op_in, op_not_in, op_exists,
  op_does_not_exist,
}

-- The documented rules: NotIn and DoesNotExist are the negations of In and Exists, an entry of a
-- node selector means In with one value, and a term matches if all its requirements hold, an empty
-- one never.
pub record Scheduler : Type 1 where
  pub Node : Type 0
  pub holds : Node → NodeSelectorRequirement → Bool
  pub field_holds : Node → NodeSelectorRequirement → Bool
  pub has_label : Node → String → String → Bool
  pub term_matches : Node → NodeSelectorTerm → Bool
  pub not_in_rule :
      (n : Node) (k : String) (vs : List String)
      → holds n (record { key = k; operator = op_not_in; values = vs })
        ≡ not (holds n (record { key = k; operator = op_in; values = vs }))
  pub does_not_exist_rule :
      (n : Node) (k : String) (vs : List String)
      → holds n (record { key = k; operator = op_does_not_exist; values = vs })
        ≡ not (holds n (record { key = k; operator = op_exists; values = vs }))
  pub has_label_rule :
      (n : Node) (k v : String)
      → has_label n k v ≡ holds n (record { key = k; operator = op_in; values = v ∷ [] })
  pub term_rule :
      (n : Node) (t : NodeSelectorTerm)
      → term_matches n t ≡ (
          not (is_empty t.match_expressions && is_empty t.match_fields)
          && (all (holds n) t.match_expressions && all (field_holds n) t.match_fields))

module _ (s : Scheduler) where
  open s use {Node, has_label, term_matches}

  abbrev pub selected : Node → Dict String → Bool
  selected n labels = all (λ (l : String × String). has_label n l.0 l.1) labels

  -- Whether an affinity lets a pod run on a node.
  abbrev pub admitted : Node → Option Affinity → Bool
  admitted n none = true
  admitted n (some a) = elim a.node_affinity [
    | none ↦ true
    | some na ↦ elim na.required [ none ↦ true | some terms ↦ any (term_matches n) terms ]
  ]

  -- Whether a pod of this placement may run on a node.
  abbrev pub eligible : Node → Placement → Bool
  eligible n p = selected n p.node_selector && admitted n p.affinity
