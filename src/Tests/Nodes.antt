-- ===== src/Tests/Nodes.antt =====
-- GPU mode (internal/controller/install_agents.go) on a cluster whose nodes are their labels.
use whatap_operator.NodeAgent.{
  Request, apply_daemon_set, delete_daemon_set, ensure_dcgm_service, has_node_selector,
  has_affinity, create_or_update_node_agent,
}
use whatap_operator.NodeAgent.Requests.{
  Reports, applies_gpu_agent, deletes_gpu_agent, create_or_update_node_agent-Reports,
  gpu_agent_switches,
}
use whatap_operator.Prelude.{
  any, ◌||◌, String, Bool, true, false, none, some, List, [], ◌∷◌, ◌≡◌, refl, contains, Dict, ◌&&◌,
  not, all, is_empty, is_some, lookup, inl,
}
use whatap_operator.NodeAgent.{
  NodeSelectorOperator, NodeSelectorRequirement, NodeSelectorTerm, NodeSpec, GpuSpec, Affinity,
  op_in, op_not_in, op_exists, op_does_not_exist, op_other, gpu_placements, single, required_terms,
}
use whatap_operator.NodeAgent.Nodes.{Scheduler, selected, eligible}
use whatap_operator.NodeAgent.Split.{IsSingleTerm, IsSplittable, gpu_placements_split}
use whatap_operator.NodeAgent.Aliasing.{normal_agent_starves}

abbrev holds : Dict String → NodeSelectorOperator → String → List String → Bool
holds node op_in k vs = elim (lookup k node) [ none ↦ false | some v ↦ contains vs v ]
holds node op_not_in k vs = not (elim (lookup k node) [ none ↦ false | some v ↦ contains vs v ])
holds node op_exists k vs = is_some (lookup k node)
holds node op_does_not_exist k vs = not (is_some (lookup k node))
holds node (op_other o) k vs = false

abbrev requirement_holds : Dict String → NodeSelectorRequirement → Bool
requirement_holds node r = holds node r.operator r.key r.values

abbrev no_field : Dict String → NodeSelectorRequirement → Bool
no_field node r = false

abbrev scheduler : Scheduler
scheduler = record {
  Node = Dict String;
  holds = requirement_holds;
  field_holds = no_field;
  has_label = λ node k v. holds node op_in k (v ∷ []);
  term_matches = λ node t.
      not (is_empty t.match_expressions && is_empty t.match_fields)
      && (all (requirement_holds node) t.match_expressions && all (no_field node) t.match_fields);
  not_in_rule = λ node k vs. refl;
  does_not_exist_rule = λ node k vs. refl;
  has_label_rule = λ node k v. refl;
  term_rule = λ node t. refl;
}

abbrev gpu_node : Dict String
gpu_node = ("gpu", "true") ∷ ("os", "linux") ∷ []

abbrev plain_node : NodeSpec
plain_node = record { node_selector = ("os", "linux") ∷ []; affinity = none }

abbrev gpu_by_label : GpuSpec
gpu_by_label = record {
  enabled = true;
  node_selector = some (("gpu", "true") ∷ []);
  affinity = none;
  service_enabled = true;
}

gpu_by_label-IsSplittable : IsSplittable gpu_by_label
unfolding required_terms
gpu_by_label-IsSplittable = inl (refl, refl, refl)

gpu_placements_split_example :
    eligible scheduler gpu_node (gpu_placements plain_node gpu_by_label).1 ≡ (
      selected scheduler gpu_node plain_node.node_selector
      && not (eligible scheduler gpu_node (gpu_placements plain_node gpu_by_label).0))
gpu_placements_split_example =
    gpu_placements_split scheduler plain_node gpu_by_label refl gpu_node gpu_by_label-IsSplittable

abbrev gpu_term : NodeSelectorTerm
gpu_term = single (record { key = "gpu"; operator = op_exists; values = [] })

abbrev affinity_of : List NodeSelectorTerm → Affinity
affinity_of terms = record {
  node_affinity = some (record { required = some terms; preferred = [] });
  pod_affinity = [];
}

abbrev gpu_by_affinity : GpuSpec
gpu_by_affinity = record {
  enabled = true;
  node_selector = none;
  affinity = some (affinity_of (gpu_term ∷ []));
  service_enabled = true;
}

-- The user keeps the node agent off some nodes.
abbrev user_affinity : Affinity
user_affinity =
    affinity_of (single (record { key = "os"; operator = op_in; values = "linux" ∷ [] }) ∷ [])

abbrev node_with_affinity : NodeSpec
node_with_affinity = record { node_selector = []; affinity = some user_affinity }

gpu_by_affinity-IsSingleTerm : IsSingleTerm gpu_by_affinity
unfolding required_terms
gpu_by_affinity-IsSingleTerm = record {
  given = refl;
  term = gpu_term;
  only = refl;
  plain = (refl, refl);
  negated = refl;
}

-- A Linux node without a GPU, where the normal agent should run.
normal_agent_starves_example :
    eligible scheduler (("os", "linux") ∷ []) (gpu_placements node_with_affinity gpu_by_affinity).1
    ≡ false
normal_agent_starves_example =
    normal_agent_starves scheduler (("os", "linux") ∷ []) node_with_affinity user_affinity
      gpu_by_affinity refl refl gpu_by_affinity-IsSingleTerm

-- The API server refuses the service of the exporter.
abbrev refuses : Request → Bool
refuses (apply_daemon_set name placement with_dcgm) = false
refuses (delete_daemon_set name) = true
refuses ensure_dcgm_service = true

create_or_update_node_agent-Reports_example :
    Reports refuses (create_or_update_node_agent refuses plain_node gpu_by_label)
create_or_update_node_agent-Reports_example =
    create_or_update_node_agent-Reports refuses plain_node gpu_by_label

gpu_agent_switches_example :
    (any applies_gpu_agent (create_or_update_node_agent refuses plain_node gpu_by_label).0
      ≡ (true && (has_node_selector gpu_by_label || has_affinity gpu_by_label)))
    × (any deletes_gpu_agent (create_or_update_node_agent refuses plain_node gpu_by_label).0
        ≡ not (true && (has_node_selector gpu_by_label || has_affinity gpu_by_label)))
gpu_agent_switches_example = gpu_agent_switches refuses plain_node gpu_by_label
