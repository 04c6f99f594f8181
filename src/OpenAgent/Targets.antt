-- ===== src/OpenAgent/Targets.antt =====
-- The targets of the scrape configuration (internal/controller/install_agents.go,
-- generateScrapeConfig): one for each enabled inline target, and one for each WhatapPodMonitor,
-- WhatapServiceMonitor and WhatapStaticEndpoint. For the inline targets the source repeats the code
-- of convertRelabelConfigs, convertEndpoints and, twice, of the selector's map, statement by
-- statement; here it is the same definition.
use whatap_operator.Prelude.{
  String, Bool, true, Option, none, some, List, [], ◌∷◌, ◌++◌, map, if◌then◌else◌, is_empty,
  or_default, ◌&&◌, ◌==◌, ◌⊕◌,
}
use whatap_operator.Webhook.Types.{NamespaceSelector, PodSelector}
use whatap_operator.OpenAgent.Types.{
  MetricRelabelConfig, OpenAgentEndpoint, OpenAgentTargetSpec, WhatapPodMonitor,
  WhatapServiceMonitor, WhatapStaticEndpoint,
}
use whatap_operator.OpenAgent.Yaml.{
  Value, Items, Fields, text, flag, texts, object, array, nil, cons, end, to_ordered_yaml,
}
use whatap_operator.OpenAgent.Convert.{
  set, set_texts, set_labels, set_expressions, convert_label_selector, convert_relabel_config,
  convert_relabel_configs, convert_endpoints,
}

abbrev pub namespace_selector_map : NamespaceSelector → Fields
namespace_selector_map ns =
    set_expressions ns.match_expressions
      (set_labels "matchLabels" ns.match_labels (set_texts "matchNames" ns.match_names end))

abbrev pub set_namespace_selector : NamespaceSelector → Fields → Fields
set_namespace_selector ns m =
    if is_empty ns.match_names && (is_empty ns.match_labels && is_empty ns.match_expressions)
    then m
    else set "namespaceSelector" (object (namespace_selector_map ns)) m

abbrev pub set_selector : PodSelector → Fields → Fields
set_selector s m =
    if is_empty s.match_labels && is_empty s.match_expressions
    then m
    else set "selector" (object (convert_label_selector s)) m

abbrev pub set_relabel_configs : List MetricRelabelConfig → Fields → Fields
set_relabel_configs rcs m =
    if is_empty rcs then m else set "relabelConfigs" (array (convert_relabel_configs rcs)) m

abbrev pub set_endpoints : List OpenAgentEndpoint → Fields → Fields
set_endpoints es m = if is_empty es then m else set "endpoints" (array (convert_endpoints es)) m

-- The name, the type and the flag that each target begins with.
abbrev pub target_head : String → String → Bool → Fields
target_head target_name kind enabled =
    set "enabled" (flag enabled) (set "type" (text kind) (set "targetName" (text target_name) end))

unfoldable pub target_map : OpenAgentTargetSpec → Fields
target_map target = set_endpoints target.endpoints (
    set_relabel_configs target.relabel_configs (
      set_selector target.selector (
        set_namespace_selector target.namespace_selector
          (target_head target.target_name target.type target.enabled))))

-- The loop over the inline targets, which skips those that are disabled.
unfoldable pub inline_targets : List OpenAgentTargetSpec → List Value
inline_targets [] = []
inline_targets (t ∷ ts) =
    let rest = inline_targets ts in
    if t.enabled then to_ordered_yaml (object (target_map t)) ∷ rest else rest

-- The relabel configuration that makes a label the name of the job.
abbrev pub job_relabel : String → Value
job_relabel label = object (
    set "action" (text "replace")
      (set "target_label" (text "job") (set "source_labels" (texts (label ∷ [])) end)))

abbrev pub append_job : List MetricRelabelConfig → String → Items
append_job [] label = cons (job_relabel label) nil
append_job (rc ∷ rcs) label = cons (convert_relabel_config rc) (append_job rcs label)

-- The relabel configurations of a monitor, with that of its job label at the end.
abbrev pub set_monitor_relabels : List MetricRelabelConfig → String → Fields → Fields
set_monitor_relabels rcs label m =
    if label == ""
    then set_relabel_configs rcs m
    else set "relabelConfigs" (array (append_job rcs label)) m

-- The selector of the user, or the monitor's own namespace.
abbrev pub monitor_namespaces : String → Option NamespaceSelector → Fields
monitor_namespaces namespace none = set "matchNames" (texts (namespace ∷ [])) end
monitor_namespaces namespace (some ns) = namespace_selector_map ns

abbrev pub monitor_name : String → String → String
monitor_name namespace name = namespace ⊕ "/" ⊕ name

unfoldable pub monitor_map : String → WhatapPodMonitor → Fields
monitor_map kind monitor = set_endpoints monitor.endpoints (
    set_monitor_relabels monitor.relabel_configs monitor.job_label (
      set "selector" (object (convert_label_selector monitor.selector)) (
        set "namespaceSelector"
          (object (monitor_namespaces monitor.namespace monitor.namespace_selector))
          (target_head (monitor_name monitor.namespace monitor.name) kind true))))

unfoldable pub pod_monitor_target : WhatapPodMonitor → Value
pod_monitor_target monitor = to_ordered_yaml (object (monitor_map "PodMonitor" monitor))

unfoldable pub service_monitor_target : WhatapServiceMonitor → Value
service_monitor_target monitor = to_ordered_yaml (object (monitor_map "ServiceMonitor" monitor))

unfoldable pub static_map : WhatapStaticEndpoint → Fields
static_map se = set_endpoints se.endpoints (
    set_monitor_relabels se.relabel_configs se.job_label
      (target_head (monitor_name se.namespace se.name) "StaticEndpoints" true))

unfoldable pub static_target : WhatapStaticEndpoint → Value
static_target se = to_ordered_yaml (object (static_map se))

-- All targets but the one for GPU monitoring; a list of monitors that is nil is `none`.
unfoldable pub configured_targets :
    List OpenAgentTargetSpec
    → Option (List WhatapPodMonitor)
    → Option (List WhatapServiceMonitor)
    → Option (List WhatapStaticEndpoint)
    → List Value
configured_targets targets pod_monitors service_monitors static_endpoints =
    inline_targets targets
    ++ (map pod_monitor_target (or_default pod_monitors [])
        ++ (map service_monitor_target (or_default service_monitors [])
            ++ map static_target (or_default static_endpoints [])))
