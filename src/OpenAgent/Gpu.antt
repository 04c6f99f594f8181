-- ===== src/OpenAgent/Gpu.antt =====
-- The target for GPU monitoring (internal/controller/install_agents.go, generateScrapeConfig): the check whether a target is there already, and the target.
pub mod Values
pub mod Labels
pub mod Reads
pub mod Conflicts
pub mod Identity
pub mod RulesOut
pub mod Duplicate
use whatap_operator.Prelude.{
  ℕ, String, Bool, true, false, Option, none, some, List, [], ◌∷◌, ◌++◌, Dict, if◌then◌else◌,
  lookup, insert, with_labels, contains, any, all, foldl, is_empty, is_some, ltb, not, ◌&&◌, ◌||◌,
  ◌==◌,
}
use whatap_operator.OpenAgent.Types.{MetricRelabelConfig, GpuMonitoringSpec, ScrapeSpec}
use whatap_operator.OpenAgent.Yaml.{
  Value, Items, Fields, text, flag, texts, text_map, object, array, map_slice, nil, cons, end,
  field, to_ordered_yaml,
}
use whatap_operator.OpenAgent.Yaml.Entries.{find}
use whatap_operator.OpenAgent.Convert.{set, convert_relabel_config, convert_relabel_configs}
use whatap_operator.OpenAgent.LabelName.{sanitize_prom_label_name}
use whatap_operator.OpenAgent.Targets.{target_head, set_relabel_configs}

abbrev pub targets_gpu_nodes : GpuMonitoringSpec → Bool
targets_gpu_nodes gpu = not (is_empty gpu.node_selector) || elim gpu.affinity [
  | none ↦ false
  | some a ↦ elim a.node_affinity [ none ↦ false | some n ↦ is_some n.required ]
]

abbrev pub target_agent_name : GpuMonitoringSpec → String
target_agent_name gpu =
    if targets_gpu_nodes gpu then "whatap-node-agent-gpu" else "whatap-node-agent"

unfoldable pub agent_labels : ScrapeSpec → Dict String
agent_labels spec =
    let gpu = spec.gpu_monitoring in
    let name = ("name", target_agent_name gpu) ∷ [] in
    with_labels spec.pod_labels (if gpu.enabled then insert "whatap-gpu" "true" name else name)

abbrev pub identity_keys : List String
identity_keys =
    "name" ∷ "whatap-gpu" ∷ "app" ∷ "app.kubernetes.io/name" ∷ "app.kubernetes.io/instance" ∷ []

abbrev pub has_value : Option String → String → Bool
has_value none v = false
has_value (some w) v = w == v

-- The loop ends at a label that the agent does not have, and the answer is then no, whatever the
-- order of the labels.
unfoldable pub check_duplicate : Dict String → Dict String → Bool
check_duplicate labels match_labels =
    not (is_empty match_labels)
    && (all (λ (l : String × String). has_value (lookup l.0 labels) l.1) match_labels
        && any (λ (l : String × String). contains identity_keys l.0) match_labels)

abbrev pub gpu_target_name : String
gpu_target_name = "dcgm-exporter-auto"

-- What a loop over the items of a MapSlice finds for a key: the last one.
unfoldable pub last_value : String → Option Value → Fields → Option Value
last_value key found end = found
last_value key found (field k v fs) = last_value key (if k == key then some v else found) fs

-- The value that a target has for a key.
abbrev pub target_value : String → Value → Option Value
target_value key (object fs) = find key fs
target_value key (map_slice fs) = last_value key none fs
target_value key v = none

-- The entries with texts, as a map.
unfoldable pub add_texts : Dict String → Fields → Dict String
add_texts converted end = converted
add_texts converted (field k (text s) fs) = add_texts (insert k s converted) fs
add_texts converted (field k v fs) = add_texts converted fs

abbrev pub converted_map : Value → Dict String
converted_map (text_map d) = d
converted_map (map_slice fs) = add_texts [] fs
converted_map v = []

unfoldable pub check_items : Dict String → Fields → Bool
check_items labels end = false
check_items labels (field k v fs) =
    (k == "matchLabels" && check_duplicate labels (converted_map v)) || check_items labels fs

abbrev pub check_labels_value : Dict String → Option Value → Bool
check_labels_value labels (some (text_map d)) = check_duplicate labels d
check_labels_value labels (some (object fs)) = check_duplicate labels (add_texts [] fs)
check_labels_value labels v = false

abbrev pub selects_agent : Dict String → Option Value → Bool
selects_agent labels (some (object fs)) = check_labels_value labels (find "matchLabels" fs)
selects_agent labels (some (map_slice fs)) = check_items labels fs
selects_agent labels v = false

abbrev pub is_text : String → Option Value → Bool
is_text s (some (text t)) = t == s
is_text s v = false

abbrev pub conflicts : Dict String → Value → Bool
conflicts labels target =
    is_text gpu_target_name (target_value "targetName" target)
    || selects_agent labels (target_value "selector" target)

unfoldable pub is_duplicate : Dict String → List Value → Bool
is_duplicate labels existing = any (conflicts labels) existing

abbrev pub relabel : Fields → Value
relabel m = object (set "action" (text "replace") m)

abbrev pub wtp_src_relabel : Value
wtp_src_relabel =
    relabel (set "replacement" (text "true") (set "target_label" (text "wtp_src") end))

abbrev pub keep_dcgm : Value
keep_dcgm = object (
    set "action" (text "keep")
      (set "regex" (text "DCGM.*") (set "source_labels" (texts ("__name__" ∷ [])) end)))

abbrev pub cluster_relabel : String → Items → Items
cluster_relabel name rest =
    if name == ""
    then rest
    else cons (relabel (set "replacement" (text name) (set "target_label" (text "cluster") end)))
        rest

abbrev pub group_relabel : String → Items → Items
group_relabel label rest =
    if label == ""
    then rest
    else cons
        (relabel (
          set "target_label" (text "whatap_kube_label_gpu_group")
            (set "source_labels" (texts (sanitize_prom_label_name label ∷ [])) end)))
        rest

unfoldable pub gpu_metric_relabels : GpuMonitoringSpec → Items
gpu_metric_relabels gpu = cons wtp_src_relabel (
    cons keep_dcgm (
      cluster_relabel gpu.cluster_name
        (group_relabel gpu.group_label (convert_relabel_configs gpu.metric_relabel_configs))))

abbrev pub gpu_interval : GpuMonitoringSpec → String
gpu_interval gpu = if gpu.interval == "" then "30s" else gpu.interval

unfoldable pub gpu_endpoint : GpuMonitoringSpec → Fields
gpu_endpoint gpu = set "metricRelabelConfigs" (array (gpu_metric_relabels gpu)) (
    set "addNodeLabel" (flag true) (
      set "scheme" (text "http") (
        set "interval" (text (gpu_interval gpu))
          (set "path" (text "/metrics") (set "port" (text "9400") end)))))

abbrev pub target_namespace : String → ScrapeSpec → String
target_namespace default_namespace spec =
    if spec.k8s_namespace == "" then default_namespace else spec.k8s_namespace

unfoldable pub gpu_target_map : String → ScrapeSpec → Fields
gpu_target_map default_namespace spec =
    let gpu = spec.gpu_monitoring in
    let namespaces = texts (target_namespace default_namespace spec ∷ []) in
    let labels = text_map (("name", target_agent_name gpu) ∷ []) in
    set "endpoints" (array (cons (object (gpu_endpoint gpu)) nil)) (
      set_relabel_configs gpu.relabel_configs (
        set "selector" (object (set "matchLabels" labels end)) (
          set "namespaceSelector" (object (set "matchNames" namespaces end))
            (target_head gpu_target_name "PodMonitor" true))))

-- The target for GPU monitoring, behind the existing ones, unless one of them conflicts.
unfoldable pub add_gpu_target : String → ScrapeSpec → List Value → List Value
add_gpu_target default_namespace spec existing =
    if spec.gpu_monitoring.enabled && not (is_duplicate (agent_labels spec) existing)
    then existing ++ to_ordered_yaml (object (gpu_target_map default_namespace spec)) ∷ []
    else existing
