-- ===== src/OpenAgent/Gpu/Reads.antt =====
-- What the check for duplicates reads of the targets' maps (internal/controller/install_agents.go,
-- generateScrapeConfig).
use whatap_operator.Prelude.{
  String, Bool, true, false, Option, none, some, List, if◌then◌else◌, is_empty, ◌&&◌, ◌==◌, ◌≡◌,
  refl, ◌∙◌, Bool-cases, inl, inr,
}
use whatap_operator.Webhook.Types.{PodSelector, NamespaceSelector}
use whatap_operator.OpenAgent.Types.{
  MetricRelabelConfig, OpenAgentEndpoint, OpenAgentTargetSpec, WhatapPodMonitor,
  WhatapStaticEndpoint,
}
use whatap_operator.OpenAgent.Yaml.{Value, Fields, text, array, object}
use whatap_operator.OpenAgent.Yaml.Entries.{find}
use whatap_operator.OpenAgent.Yaml.Keys.{distinct}
use whatap_operator.OpenAgent.Convert.{
  set, convert_label_selector, convert_relabel_configs, convert_endpoints,
}
use whatap_operator.OpenAgent.Convert.Lookup.{find-set}
use whatap_operator.OpenAgent.Convert.Keys.{set-distinct}
use whatap_operator.OpenAgent.Targets.{
  append_job, monitor_namespaces, namespace_selector_map, target_map, monitor_map, monitor_name,
  static_map, set_endpoints, set_relabel_configs, set_namespace_selector, set_monitor_relabels,
  target_head,
}

-- What the check for duplicates reads of a target's map: its keys are distinct, and it has this
-- name and this selector.
pub record Reads (m : Fields) (name : String) (selector : Option Value) : Type 0 where
  pub distinct_keys_of : distinct m ≡ true
  pub name_of : find "targetName" m ≡ some (text name)
  pub selector_of : find "selector" m ≡ selector

-- An entry of another key changes none of it.
module _ (k : String) (v : Value) (n : (k == "targetName") ≡ false)
    (h : (k == "selector") ≡ false) where
  set-Reads :
      (m : Fields) (name : String) (selector : Option Value)
      → Reads m name selector
      → Reads (set k v m) name selector
  set-Reads m name selector r = record {
    distinct_keys_of = set-distinct k v m r.distinct_keys_of;
    name_of = find-set "targetName" k v m ∙ rw n r.name_of;
    selector_of = find-set "selector" k v m ∙ rw h r.selector_of;
  }

  skip-Reads :
      (b : Bool) (m : Fields) (name : String) (selector : Option Value)
      → Reads m name selector
      → Reads (if b then m else set k v m) name selector
  skip-Reads true m name selector r = r
  skip-Reads false m name selector r = set-Reads m name selector r

module _ {m : Fields} {name : String} {selector : Option Value} (r : Reads m name selector) where
  endpoints-Reads : (es : List OpenAgentEndpoint) → Reads (set_endpoints es m) name selector
  endpoints-Reads es =
      skip-Reads "endpoints" (array (convert_endpoints es)) refl refl (is_empty es) m name selector
        r

  relabel_configs-Reads :
      (rcs : List MetricRelabelConfig) → Reads (set_relabel_configs rcs m) name selector
  relabel_configs-Reads rcs =
      skip-Reads "relabelConfigs" (array (convert_relabel_configs rcs)) refl refl (is_empty rcs) m
        name selector r

  monitor_relabels-Reads :
      (rcs : List MetricRelabelConfig) (label : String)
      → Reads (set_monitor_relabels rcs label m) name selector
  monitor_relabels-Reads rcs label = elim (Bool-cases (label == "")) [
    | inl e ↦ rw e (relabel_configs-Reads rcs)
    | inr e ↦
        rw e (set-Reads "relabelConfigs" (array (append_job rcs label)) refl refl m name selector r)
  ]

  namespaces-Reads : (ns : NamespaceSelector) → Reads (set_namespace_selector ns m) name selector
  namespaces-Reads ns =
      skip-Reads "namespaceSelector" (object (namespace_selector_map ns)) refl refl
        (is_empty ns.match_names && (is_empty ns.match_labels && is_empty ns.match_expressions)) m
        name selector r

  selector-Reads : (v : Value) → Reads (set "selector" v m) name (some v)
  selector-Reads v = record {
    distinct_keys_of = set-distinct "selector" v m r.distinct_keys_of;
    name_of = find-set "targetName" "selector" v m ∙ r.name_of;
    selector_of = find-set "selector" "selector" v m;
  }

head-Reads : (name kind : String) (enabled : Bool) → Reads (target_head name kind enabled) name none
unfolding distinct set find
head-Reads name kind enabled = record {
  distinct_keys_of = refl;
  name_of = refl;
  selector_of = refl;
}

-- The selector that an inline target has, if any.
abbrev pub selector_value : PodSelector → Option Value
selector_value s =
    if is_empty s.match_labels && is_empty s.match_expressions
    then none
    else some (object (convert_label_selector s))

choose-Reads :
    {m : Fields} {name : String} (v : Value) (b : Bool)
    → Reads m name none
    → Reads (if b then m else set "selector" v m) name (if b then none else some v)
choose-Reads v true r = r
choose-Reads v false r = selector-Reads r v

pub target_map-Reads :
    (t : OpenAgentTargetSpec) → Reads (target_map t) t.target_name (selector_value t.selector)
unfolding target_map
target_map-Reads t =
    let s = t.selector in
    let head = head-Reads t.target_name t.type t.enabled in
    let base = namespaces-Reads head t.namespace_selector in
    let none_selected = is_empty s.match_labels && is_empty s.match_expressions in
    let selected = choose-Reads (object (convert_label_selector s)) none_selected base in
    endpoints-Reads (relabel_configs-Reads selected t.relabel_configs) t.endpoints

pub monitor_map-Reads :
    (kind : String) (m : WhatapPodMonitor)
    → Reads
        (monitor_map kind m)
        (monitor_name m.namespace m.name)
        (some (object (convert_label_selector m.selector)))
unfolding monitor_map
monitor_map-Reads kind m =
    let head = head-Reads (monitor_name m.namespace m.name) kind true in
    let namespaces = object (monitor_namespaces m.namespace m.namespace_selector) in
    let base = set-Reads "namespaceSelector" namespaces refl refl _ _ _ head in
    let selected = selector-Reads base (object (convert_label_selector m.selector)) in
    endpoints-Reads (monitor_relabels-Reads selected m.relabel_configs m.job_label) m.endpoints

pub static_map-Reads :
    (se : WhatapStaticEndpoint) → Reads (static_map se) (monitor_name se.namespace se.name) none
unfolding static_map
static_map-Reads se =
    let head = head-Reads (monitor_name se.namespace se.name) "StaticEndpoints" true in
    endpoints-Reads (monitor_relabels-Reads head se.relabel_configs se.job_label) se.endpoints
