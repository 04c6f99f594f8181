-- ===== src/NodeAgent/Pod/Labels.antt =====
-- That the GPU target of the scrape configuration finds the pods with the dcgm-exporter
-- (internal/controller/install_agents.go: createOrUpdateNodeAgent, getNodeAgentDaemonSetSpec and
-- generateScrapeConfig).
use whatap_operator.Prelude.{
  with_labels, String, Bool, true, false, Option, none, some, List, [], ◌∷◌, Dict, if◌then◌else◌,
  lookup, lookup-insert, insert, or_default, is_some, ap, ◌∙◌, arith, is_empty, not, ◌||◌, ◌==◌,
  ◌≡◌, refl, Bool-cases, inl, inr, ◌&&◌, ◌⊎◌, contains, and_intro, eq_refl, sym, test_of_eq,
}
use mathlib.Core.Option
use whatap_operator.Env.{EnvVar}
use whatap_operator.Workload.{Resources}
use whatap_operator.NodeAgent.{
  Affinity, NodeSpec, GpuSpec, has_node_selector, has_affinity, gpu_agent, node_agent, Request,
  apply_daemon_set, ensure_service, create_or_update_node_agent,
}
use whatap_operator.NodeAgent.Types.{K8sAgentSpec, NodeAgentComponentSpec}
use whatap_operator.NodeAgent.DaemonSet.{
  node_agent_labels, get_node_agent_daemon_set_spec, pod_template,
}
use whatap_operator.OpenAgent.Yaml.{
  Value, Fields, text, texts, text_map, array, cons, nil, object, map_slice, end, field,
  to_ordered_yaml, sort_fields, insert_field,
}
use whatap_operator.OpenAgent.Yaml.Entries.{find, at, at-ordered}
use whatap_operator.OpenAgent.Convert.{set, convert_relabel_configs}
use whatap_operator.OpenAgent.Targets.{target_head, set_relabel_configs}
use whatap_operator.OpenAgent.Convert.Lookup.{find-set, find-skip}
use whatap_operator.OpenAgent.Types.{GpuMonitoringSpec, ScrapeSpec}
use whatap_operator.OpenAgent.Gpu.{
  agent_labels, targets_gpu_nodes, target_agent_name, gpu_target_map, gpu_target_name, gpu_endpoint,
  target_namespace, has_value,
}

-- The DaemonSets that are applied with the exporter.
abbrev pub with_exporter : List Request → List String
with_exporter [] = []
with_exporter (apply_daemon_set name placement true ∷ rs) = name ∷ with_exporter rs
with_exporter (r ∷ rs) = with_exporter rs

-- Both decide in the same way whether the GPU agent is a DaemonSet of its own.
same_nodes :
    (gpu : GpuSpec) (m : GpuMonitoringSpec)
    → or_default gpu.node_selector [] ≡ m.node_selector
    → gpu.affinity ≡ m.affinity
    → (has_node_selector gpu || has_affinity gpu) ≡ targets_gpu_nodes m
same_nodes gpu m s a =
    ap (λ d. not (is_empty d) || has_affinity gpu) s
    ∙ ap
        (λ (x : Option Affinity). not (is_empty m.node_selector) || elim x [
          | none ↦ false
          | some f ↦ elim f.node_affinity [ none ↦ false | some n ↦ is_some n.required ]
        ])
        a

exporter_sets :
    (fails : Request → Bool) (node : NodeSpec) (gpu : GpuSpec)
    → ((r : Request) → fails r ≡ false)
    → gpu.enabled ≡ true
    → with_exporter (create_or_update_node_agent fails node gpu).0
      ≡ (if has_node_selector gpu || has_affinity gpu then gpu_agent else node_agent) ∷ []
unfolding create_or_update_node_agent ensure_service
exporter_sets fails node gpu ok e = elim (Bool-cases gpu.service_enabled) [
  | inl s ↦ elim (Bool-cases (has_node_selector gpu || has_affinity gpu)) [
    | inl h ↦ simp (e, h, s, ok)
    | inr h ↦ simp (e, h, s, ok)
  ]
  | inr s ↦ elim (Bool-cases (has_node_selector gpu || has_affinity gpu)) [
    | inl h ↦ simp (e, h, s, ok)
    | inr h ↦ simp (e, h, s, ok)
  ]
]

lookup-with_labels :
    (k : String) (extra labels : Dict String)
    → lookup k extra ≡ none
    → lookup k (with_labels extra labels) ≡ lookup k labels
unfolding lookup
lookup-with_labels k [] labels h = refl
lookup-with_labels k ((j, v) ∷ extra) labels h = elim (Bool-cases (j == k)) [
  | inl e ↦ (let no : some v ≡ none = ground (arith, e, h) in ground (arith, no))
  | inr e ↦
      let rest : lookup k extra ≡ none = ground (arith, e, h) in
      lookup-with_labels k extra (insert j v labels) rest ∙ lookup-insert j k v labels ∙ rw e refl
]

-- Whether an ordered target selects the pods with some labels in a namespace: it names the namespace,
-- and has labels, each of which the pods have.
abbrev labels_hold : Dict String → Fields → Bool
labels_hold labels end = true
labels_hold labels (field k (text v) fs) = has_value (lookup k labels) v && labels_hold labels fs
labels_hold labels (field k v fs) = false

abbrev names_namespace : String → Option Value → Bool
names_namespace ns (some (texts names)) = contains names ns
names_namespace ns v = false

abbrev matches : Dict String → Option Value → Bool
matches labels (some (map_slice fs)) = labels_hold labels fs
matches labels v = false

abbrev pub selects_pods : String → Dict String → Value → Bool
selects_pods ns labels target =
    names_namespace ns (at "matchNames" (at "namespaceSelector" (some target)))
    && matches labels (at "matchLabels" (at "selector" (some target)))

-- What the GPU target has before its relabelings and its endpoint.
abbrev selecting : String → ScrapeSpec → Fields
selecting ns spec =
    set "selector"
      (object
        (set "matchLabels" (text_map (("name", target_agent_name spec.gpu_monitoring) ∷ [])) end))
      (set "namespaceSelector"
        (object (set "matchNames" (texts (target_namespace ns spec ∷ [])) end))
        (target_head gpu_target_name "PodMonitor" true))

find-gpu_target_map :
    (key ns : String) (spec : ScrapeSpec)
    → ("endpoints" == key) ≡ false
    → ("relabelConfigs" == key) ≡ false
    → find key (gpu_target_map ns spec) ≡ find key (selecting ns spec)
unfolding gpu_target_map
find-gpu_target_map key ns spec e r =
    let gpu = spec.gpu_monitoring in
    let relabeled = set_relabel_configs gpu.relabel_configs (selecting ns spec) in
    find-set key "endpoints" (array (cons (object (gpu_endpoint gpu)) nil)) relabeled
    ∙ rw e (
        find-skip key "relabelConfigs" (array (convert_relabel_configs gpu.relabel_configs))
          (is_empty gpu.relabel_configs) (selecting ns spec) r)

gpu_target_namespaces :
    (ns : String) (spec : ScrapeSpec)
    → at "matchNames"
        (at "namespaceSelector" (some (to_ordered_yaml (object (gpu_target_map ns spec)))))
      ≡ some (texts (target_namespace ns spec ∷ []))
unfolding set to_ordered_yaml sort_fields insert_field find
gpu_target_namespaces ns spec = ap (at "matchNames") (
    at-ordered "namespaceSelector" (gpu_target_map ns spec)
    ∙ ap (Option.map to_ordered_yaml) (find-gpu_target_map "namespaceSelector" ns spec refl refl))

gpu_target_labels :
    (ns : String) (spec : ScrapeSpec)
    → at "matchLabels" (at "selector" (some (to_ordered_yaml (object (gpu_target_map ns spec)))))
      ≡ some (map_slice (field "name" (text (target_agent_name spec.gpu_monitoring)) end))
unfolding set to_ordered_yaml sort_fields insert_field find
gpu_target_labels ns spec = ap (at "matchLabels") (
    at-ordered "selector" (gpu_target_map ns spec)
    ∙ ap (Option.map to_ordered_yaml) (find-gpu_target_map "selector" ns spec refl refl))

gpu_target_selects :
    (ns : String) (spec : ScrapeSpec) (labels : Dict String)
    → (spec.k8s_namespace ≡ "") ⊎ (spec.k8s_namespace ≡ ns)
    → lookup "name" labels ≡ some (target_agent_name spec.gpu_monitoring)
    → selects_pods ns labels (to_ordered_yaml (object (gpu_target_map ns spec))) ≡ true
gpu_target_selects ns spec labels h l =
    and_intro (ap (names_namespace ns) (gpu_target_namespaces ns spec) ∙ named) (
      ap (matches labels) (gpu_target_labels ns spec)
      ∙ ap (λ o. has_value o (target_agent_name spec.gpu_monitoring) && true) l
      ∙ and_intro (eq_refl (target_agent_name spec.gpu_monitoring)) refl)
  where
    named : contains (target_namespace ns spec ∷ []) ns ≡ true
    named = elim h [
      | inl e ↦ rw e (ground (arith, eq_refl ns))
      | inr e ↦ elim (Bool-cases (spec.k8s_namespace == "")) [
        | inl z ↦ rw z (ground (arith, eq_refl ns))
        | inr z ↦ rw z (ground (arith, test_of_eq spec.k8s_namespace ns e))
      ]
    ]

-- With GPU monitoring, and if no request of createOrUpdateNodeAgent is refused, exactly one DaemonSet
-- carries the exporter. The GPU target of the scrape configuration, which is made from the same
-- settings, selects in the operator's namespace `ns` the pods with the labels that this DaemonSet
-- gives to its pods, and the check for duplicate targets compares with these labels. The conditions
-- are that the user's own labels do not have the key "name" and that no other namespace is set for
-- the agents.
pub gpu_target_finds_exporter :
    (fails : Request → Bool) (node : NodeSpec) (gpu : GpuSpec) (spec : ScrapeSpec) (ns : String)
    (image : String) (res : Resources) (k8s : K8sAgentSpec) (credentials : List EnvVar)
    (component : NodeAgentComponentSpec)
    → ((r : Request) → fails r ≡ false)
    → gpu.enabled ≡ true
    → spec.gpu_monitoring.enabled ≡ true
    → or_default gpu.node_selector [] ≡ spec.gpu_monitoring.node_selector
    → gpu.affinity ≡ spec.gpu_monitoring.affinity
    → component.pod_labels ≡ spec.pod_labels
    → lookup "name" spec.pod_labels ≡ none
    → (spec.k8s_namespace ≡ "") ⊎ (spec.k8s_namespace ≡ ns)
    → (name : String) × (with_exporter (create_or_update_node_agent fails node gpu).0 ≡ name ∷ [])
      × (selects_pods ns
            (get_node_agent_daemon_set_spec image res k8s credentials component name
              true).template.labels
            (to_ordered_yaml (object (gpu_target_map ns spec)))
          ≡ true)
      × (agent_labels spec
          ≡ (get_node_agent_daemon_set_spec image res k8s credentials component name
              true).template.labels)
unfolding agent_labels node_agent_labels lookup insert get_node_agent_daemon_set_spec pod_template
gpu_target_finds_exporter fails node gpu spec ns image res k8s credentials component ok e e' s a
      same n h =
    let name = target_agent_name spec.gpu_monitoring in
    let labelled : agent_labels spec ≡ node_agent_labels name true component.pod_labels =
      rw (e', same) refl in
    let here : lookup "name" (agent_labels spec) ≡ some name =
      lookup-with_labels "name" spec.pod_labels _ n ∙ rw e' refl in
    (
      name,
      exporter_sets fails node gpu ok e
          ∙ ap (λ b. (if b then gpu_agent else node_agent) ∷ [])
              (same_nodes gpu spec.gpu_monitoring s a),
      gpu_target_selects ns spec (node_agent_labels name true component.pod_labels) h
          (ap (lookup "name") (sym labelled) ∙ here),
      labelled,
    )
