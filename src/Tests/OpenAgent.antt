-- ===== src/Tests/OpenAgent.antt =====
-- The OpenAgent's scrape configuration and installation (internal/controller/install_agents.go) on
-- samples.
use whatap_operator.Prelude.{
  List, ℕ, zero, suc, String, false, true, Option, none, some, is_some, [], ◌∷◌, ◌++◌, ◌≤◌, ◌⊎◌,
  inl, inr, ◌≡◌, refl, not, ◌&&◌, lookup,
}
use mathlib.Core.Option
use whatap_operator.Webhook.Types.{PodSelector}
use whatap_operator.OpenAgent.Types.{
  OpenAgentEndpoint, OpenAgentTargetSpec, GpuMonitoringSpec, ScrapeSpec, WhatapPodMonitor,
}
use whatap_operator.OpenAgent.Yaml.{
  Value, Fields, text, flag, text_map, object, map_slice, end, field, to_ordered_yaml, sort_fields,
  insert_field,
}
use whatap_operator.OpenAgent.Yaml.TextOrder.{text_leb}
use whatap_operator.OpenAgent.Yaml.Entries.{find, entries, find-to_ordered_yaml}
use whatap_operator.OpenAgent.Yaml.Ascending.{ordered, plain, ordered-to_ordered_yaml}
use whatap_operator.OpenAgent.Yaml.Determinism.{
  same_object, same_field, same_text_map, swap_fields, swap, chain_fields, same_end, alike,
  to_ordered_yaml-Same,
}
use whatap_operator.OpenAgent.Targets.{configured_targets}
use whatap_operator.OpenAgent.LabelName.{sanitize_prom_label_name}
use whatap_operator.OpenAgent.Gpu.{agent_labels, gpu_target_map}
use whatap_operator.OpenAgent.Gpu.RulesOut.{RulesOut}
use whatap_operator.OpenAgent.Gpu.Duplicate.{gpu_target_added}
use whatap_operator.OpenAgent.Scrape.{ScrapeConfig, scrape_config}
use whatap_operator.OpenAgent.Deployment.{Credentials, OpenAgentSpec, OpenAgentPod, open_agent_pod}
use whatap_operator.OpenAgent.Install.{Result, Api, deploy, install_open_agent}
use whatap_operator.OpenAgent.Install.Retry.{attempts, total_sleep, attempt_succeeds, deploy_ends}
use whatap_operator.OpenAgent.Install.Outcome.{
  asks_deployment, succeeds, prepared, install_open_agent_outcome,
}

abbrev pub no_endpoint : OpenAgentEndpoint
no_endpoint = record {
  port = "";
  address = "";
  path = "";
  interval = "";
  scheme = "";
  tls_config = none;
  basic_auth = none;
  authorization = none;
  metric_relabel_configs = [];
  params = [];
  add_node_label = false;
}

abbrev pub no_selector : PodSelector
no_selector = record { match_labels = []; match_expressions = [] }

abbrev pub credentials : Credentials
credentials = record { license = ""; host = "10.0.0.1"; port = "6600" }

abbrev pub open_agent_spec : OpenAgentSpec
open_agent_spec = record {
  image_name = "";
  image_version = "1.0";
  custom_image_full_name = "";
  pod_labels = [];
  pod_annotations = [];
  image_pull_secrets = [];
  priority_class_name = "";
  node_selector = [];
  affinity = none;
  tolerations = [];
  node_name = "";
  pod_security_context = none;
  envs = [];
  disable_foreground = false;
}

-- A target in two orders of its entries and of its labels.
abbrev one_order : Value
one_order = object (
    field "type" (text "PodMonitor") (field "labels" (text_map (("b", "2") ∷ ("a", "1") ∷ [])) end))

abbrev other_order : Value
other_order = object (
    field "labels" (text_map (("a", "1") ∷ ("b", "2") ∷ [])) (field "type" (text "PodMonitor") end))

to_ordered_yaml-Same_example : to_ordered_yaml one_order ≡ to_ordered_yaml other_order
to_ordered_yaml-Same_example = to_ordered_yaml-Same one_order other_order (
    same_object (
      chain_fields
        (same_field "type" (alike (text "PodMonitor"))
          (same_field "labels" (same_text_map (swap "b" "a" "2" "1" [] refl)) same_end))
        (swap_fields "type" "labels" (text "PodMonitor") (text_map (("a", "1") ∷ ("b", "2") ∷ []))
          end refl)))

one_ordered :
    to_ordered_yaml one_order
    ≡ map_slice (
        field "labels"
          (map_slice (field "a" (text "1") (field "b" (text "2") end)))
          (field "type" (text "PodMonitor") end))
unfolding to_ordered_yaml sort_fields insert_field text_leb
one_ordered = refl

abbrev one_fields : Fields
one_fields = field "type" (text "PodMonitor") (field "enabled" (flag true) end)

find-to_ordered_yaml_example :
    find "enabled" (entries (to_ordered_yaml (object one_fields)))
    ≡ Option.map to_ordered_yaml (find "enabled" one_fields)
find-to_ordered_yaml_example = find-to_ordered_yaml "enabled" one_fields

ordered-to_ordered_yaml_example : ordered (to_ordered_yaml one_order) ≡ true
unfolding plain
ordered-to_ordered_yaml_example = ordered-to_ordered_yaml one_order refl

sanitized : sanitize_prom_label_name "team.io/prj-id" ≡ "team_io_prj_id"
unfolding sanitize_prom_label_name
sanitized = refl

abbrev sample_gpu : GpuMonitoringSpec
sample_gpu = record {
  enabled = true;
  node_selector = ("gpu", "yes") ∷ [];
  affinity = none;
  interval = "";
  relabel_configs = [];
  metric_relabel_configs = [];
  group_label = "prj-id";
  cluster_name = "";
}

abbrev shop_target : OpenAgentTargetSpec
shop_target = record {
  target_name = "shop";
  type = "PodMonitor";
  namespace_selector = record { match_names = []; match_labels = []; match_expressions = [] };
  selector = record { match_labels = ("name", "shop") ∷ []; match_expressions = [] };
  relabel_configs = [];
  endpoints = no_endpoint ∷ [];
  enabled = true;
}

abbrev pub scrape : ScrapeSpec
scrape = record {
  enabled = true;
  targets = shop_target ∷ [];
  k8s_namespace = "";
  pod_labels = [];
  gpu_monitoring = sample_gpu;
}

-- A monitor that scrapes the GPU agents itself.
abbrev dcgm : WhatapPodMonitor
dcgm = record {
  namespace = "whatap-monitoring";
  name = "dcgm";
  selector = record {
    match_labels = ("whatap-gpu", "true") ∷ ("name", "whatap-node-agent-gpu") ∷ [];
    match_expressions = [];
  };
  namespace_selector = none;
  endpoints = [];
  relabel_configs = [];
  job_label = "";
}

abbrev sample_config : ScrapeConfig
sample_config = scrape_config scrape "whatap-monitoring" (some (dcgm ∷ [])) (some []) (some [])

abbrev sample_targets : List Value
sample_targets = configured_targets (shop_target ∷ []) (some (dcgm ∷ [])) (some []) (some [])

gpu_target_added_example :
    ((sample_config.targets
        ≡ sample_targets
          ++ to_ordered_yaml (object (gpu_target_map "whatap-monitoring" scrape)) ∷ [])
      × (true ≡ true)
      × (¬ RulesOut (agent_labels scrape) (shop_target ∷ []) (dcgm ∷ []) [] []))
    ⊎ ((sample_config.targets ≡ sample_targets)
        × ((true ≡ false) ⊎ RulesOut (agent_labels scrape) (shop_target ∷ []) (dcgm ∷ []) [] []))
unfolding lookup
gpu_target_added_example =
    gpu_target_added scrape "whatap-monitoring" (dcgm ∷ []) [] [] refl refl refl

abbrev pod : OpenAgentPod
pod = open_agent_pod credentials open_agent_spec []

-- The second attempt succeeds.
abbrev fails_once : ℕ → Option String
fails_once zero = some "conflict"
fails_once (suc n) = none

deploy_ends_example :
    (r : Result) × ((deploy fails_once pod 5 0 ≡ some r)
      × ((not (is_some r.1) ≡ attempt_succeeds fails_once)
          × ((attempts r.0 ≤ 3) × (total_sleep r.0 ≤ 300))))
deploy_ends_example = deploy_ends fails_once pod 2

abbrev api : Api
api = record {
  apply_failed = λ o. none;
  pod_monitors = inr [];
  service_monitors = inr [];
  static_endpoints = inr [];
  deployment_failed = fails_once;
}

abbrev marshal : ScrapeConfig → String ⊎ String
marshal config = inl "features: {}"

install_open_agent_outcome_example :
    (asks_deployment
        (install_open_agent marshal api "whatap-monitoring" scrape credentials open_agent_spec).0
      ≡ prepared api)
    × (succeeds
          (install_open_agent marshal api "whatap-monitoring" scrape credentials open_agent_spec)
        ≡ (prepared api && attempt_succeeds fails_once))
install_open_agent_outcome_example =
    install_open_agent_outcome marshal api "whatap-monitoring" scrape credentials open_agent_spec
