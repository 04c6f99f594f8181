-- ===== src/NodeAgent.antt =====
-- Where the node agents run (internal/controller/install_agents.go): createOrUpdateNodeAgent, and
-- the placement part of reconcileNodeAgentDaemonSet with negateNodeSelectorTerm.
--
-- The affinity of the node agent in the WhatapAgent resource is behind a pointer, and the pod
-- template that getNodeAgentDaemonSetSpec builds holds that same pointer. So what
-- reconcileNodeAgentDaemonSet writes through the template is written to the resource too, and is
-- seen by the next call. The affinity of the resource is therefore a state here, which each
-- placement returns anew.
pub mod Nodes
pub mod Terms
pub mod Split
pub mod Aliasing
pub mod Requests
pub mod Types
pub mod DaemonSet
pub mod Dcgm
pub mod Pod
use whatap_operator.Prelude.{
  String, Bool, true, false, Option, none, some, List, [], ◌∷◌, ◌++◌, map, Dict, if◌then◌else◌,
  is_empty, is_some, or_default, not, ◌&&◌, ◌||◌,
}

pub data NodeSelectorOperator : Type 0 where
  op_in op_not_in op_exists op_does_not_exist : NodeSelectorOperator
  op_other : String → NodeSelectorOperator

pub record NodeSelectorRequirement : Type 0 where
  pub key : String
  pub operator : NodeSelectorOperator
  pub values : List String

pub record NodeSelectorTerm : Type 0 where
  pub match_expressions : List NodeSelectorRequirement
  pub match_fields : List NodeSelectorRequirement

-- corev1.NodeAffinity with the terms of requiredDuringSchedulingIgnoredDuringExecution.
pub record NodeAffinity : Type 0 where
  pub required : Option (List NodeSelectorTerm)
  pub preferred : List String

-- corev1.Affinity: what is not about nodes is carried along.
pub record Affinity : Type 0 where
  pub node_affinity : Option NodeAffinity
  pub pod_affinity : List String

-- The fields of spec.features.k8sAgent.gpuMonitoring and nodeAgent that decide about placement, and
-- whether the exporter's Service is wanted, as it is where nothing is said about it.
pub record GpuSpec : Type 0 where
  pub enabled : Bool
  pub node_selector : Option (Dict String)
  pub affinity : Option Affinity
  pub service_enabled : Bool

pub record NodeSpec : Type 0 where
  pub node_selector : Dict String
  pub affinity : Option Affinity

-- The placement of a pod template.
pub record Placement : Type 0 where
  pub node_selector : Dict String
  pub affinity : Option Affinity

-- One requirement negated as a term of its own; an operator without a negation is skipped.
abbrev pub negate_operator : NodeSelectorOperator → Option NodeSelectorOperator
negate_operator op_in = some op_not_in
negate_operator op_not_in = some op_in
negate_operator op_exists = some op_does_not_exist
negate_operator op_does_not_exist = some op_exists
negate_operator (op_other o) = none

abbrev pub single : NodeSelectorRequirement → NodeSelectorTerm
single r = record { match_expressions = r ∷ []; match_fields = [] }

unfoldable pub negate_requirements : List NodeSelectorRequirement → List NodeSelectorTerm
negate_requirements [] = []
negate_requirements (r ∷ rs) =
    let rest = negate_requirements rs in
    elim (negate_operator r.operator) [
      | none ↦ rest
      | some o ↦ single (record { key = r.key; operator = o; values = r.values }) ∷ rest
    ]

abbrev pub negate_node_selector_term : NodeSelectorTerm → List NodeSelectorTerm
negate_node_selector_term term = negate_requirements term.match_expressions

-- The merging of the override terms into each existing term.
abbrev pub with_expressions : NodeSelectorTerm → NodeSelectorTerm → NodeSelectorTerm
with_expressions et at = record et {
  match_expressions = et.match_expressions ++ at.match_expressions;
}

unfoldable pub cross : List NodeSelectorTerm → List NodeSelectorTerm → List NodeSelectorTerm
cross [] affinity_terms = []
cross (et ∷ ets) affinity_terms =
    map (with_expressions et) affinity_terms ++ cross ets affinity_terms

unfoldable pub merge_terms : List NodeSelectorTerm → List NodeSelectorTerm → List NodeSelectorTerm
merge_terms existing_terms affinity_terms =
    if is_empty existing_terms
    then existing_terms ++ affinity_terms
    else cross existing_terms affinity_terms

-- The terms that a template requires, nil pointers on the way included.
unfoldable pub required_terms : Option Affinity → List NodeSelectorTerm
required_terms none = []
required_terms (some a) = elim a.node_affinity [ none ↦ [] | some n ↦ or_default n.required [] ]

-- The affinity with its required terms replaced; nil pointers on the way are filled in.
unfoldable pub set_required : Option Affinity → List NodeSelectorTerm → Affinity
set_required none terms = record {
  node_affinity = some (record { required = some terms; preferred = [] });
  pod_affinity = [];
}
set_required (some a) terms = elim a.node_affinity [
  | none ↦ record a { node_affinity = some (record { required = some terms; preferred = [] }) }
  | some n ↦ record a { node_affinity = some (record n { required = some terms }) }
]

-- The affinity override: what the template holds afterwards.
unfoldable pub override_affinity : Option Affinity → List NodeSelectorTerm → Option Affinity
override_affinity affinity affinity_terms =
    if is_empty affinity_terms
    then affinity
    else some (set_required affinity (merge_terms (required_terms affinity) affinity_terms))

-- The placement part of reconcileNodeAgentDaemonSet: the placement of the template, and the
-- affinity of the resource afterwards. Where the resource has an affinity the template shares it;
-- where it has none the override makes a new one.
unfoldable pub place :
    NodeSpec
    → Option Affinity
    → Option (Dict String)
    → List NodeSelectorTerm
    → Placement × Option Affinity
place node shared node_selector affinity_terms =
    let affinity = override_affinity shared affinity_terms in
    (
      record { node_selector = or_default node_selector node.node_selector; affinity = affinity },
      if is_some shared then affinity else none,
    )

-- What createOrUpdateNodeAgent asks of the API server, in order.
pub data Request : Type 0 where
  apply_daemon_set : String → Placement → Bool → Request
  delete_daemon_set : String → Request
  ensure_dcgm_service : Request

abbrev pub gpu_agent : String
gpu_agent = "whatap-node-agent-gpu"

abbrev pub node_agent : String
node_agent = "whatap-node-agent"

abbrev pub has_node_selector : GpuSpec → Bool
has_node_selector gpu = not (is_empty (or_default gpu.node_selector []))

abbrev pub has_affinity : GpuSpec → Bool
has_affinity gpu = elim gpu.affinity [
  | none ↦ false
  | some a ↦ elim a.node_affinity [ none ↦ false | some n ↦ is_some n.required ]
]

abbrev pub gpu_affinity_terms : GpuSpec → List NodeSelectorTerm
gpu_affinity_terms gpu = required_terms gpu.affinity

-- The negation of the node selector: a term for each label.
unfoldable pub negate_selector : Dict String → List NodeSelectorTerm
negate_selector [] = []
negate_selector ((k, v) ∷ labels) =
    single (record { key = k; operator = op_not_in; values = v ∷ [] }) ∷ negate_selector labels

-- The negation of the affinity, only for a single term.
unfoldable pub negate_affinity : List NodeSelectorTerm → List NodeSelectorTerm
negate_affinity [] = []
negate_affinity (term ∷ []) = negate_node_selector_term term
negate_affinity (term ∷ _ ∷ _) = []

unfoldable pub anti_terms : GpuSpec → List NodeSelectorTerm
anti_terms gpu =
    negate_selector (or_default gpu.node_selector [])
    ++ (if has_affinity gpu then negate_affinity (gpu_affinity_terms gpu) else [])

-- The placements of the two agents in GPU mode, the GPU agent's first.
unfoldable pub gpu_placements : NodeSpec → GpuSpec → Placement × Placement
gpu_placements node gpu =
    let (gpu_placement, shared) =
      place node node.affinity gpu.node_selector (gpu_affinity_terms gpu) in
    let (normal_placement, shared') = place node shared none (anti_terms gpu) in
    (gpu_placement, normal_placement)

-- createOrUpdateNodeAgent: the requests made, and whether it returned an error. `fails` says which
-- requests the API server refuses; a refused deletion is logged only. ensureDcgmExporterService makes
-- no request where the service is disabled.
unfoldable pub ensure_service : (Request → Bool) → GpuSpec → List Request × Bool
ensure_service fails gpu =
    if gpu.enabled && gpu.service_enabled
    then (ensure_dcgm_service ∷ [], fails ensure_dcgm_service)
    else ([], false)

abbrev pub and_then : Request → (Request → Bool) → List Request × Bool → List Request × Bool
and_then r fails (requests, failed) = if fails r then (r ∷ [], true) else (r ∷ requests, failed)

unfoldable pub create_or_update_node_agent :
    (Request → Bool) → NodeSpec → GpuSpec → List Request × Bool
create_or_update_node_agent fails node gpu =
    if gpu.enabled && (has_node_selector gpu || has_affinity gpu)
    then (let (gpu_placement, normal_placement) = gpu_placements node gpu in
        and_then (apply_daemon_set gpu_agent gpu_placement true) fails (
          and_then (apply_daemon_set node_agent normal_placement false) fails
            (ensure_service fails gpu)))
    else (let (placement, shared) = place node node.affinity none [] in
        let (requests, failed) =
          and_then (apply_daemon_set node_agent placement gpu.enabled) fails
            (ensure_service fails gpu) in
        (delete_daemon_set gpu_agent ∷ requests, failed))
