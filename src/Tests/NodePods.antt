-- ===== src/Tests/NodePods.antt =====
-- The pods of the node agents and of the master agent (internal/controller/install_agents.go) on a
-- sample.
use whatap_operator.Prelude.{
  ℕ, String, Bool, true, false, none, some, [], ◌∷◌, Dict, lookup, insert, or_default, ◌≡◌, refl,
  inl,
}
use whatap_operator.Env.{effective, env_value}
use whatap_operator.Workload.{Resources, set_default_resource, fill_missing}
use whatap_operator.NodeAgent.{NodeSpec, GpuSpec, Request, create_or_update_node_agent}
use whatap_operator.NodeAgent.Types.{K8sAgentSpec, NodeAgentComponentSpec}
use whatap_operator.NodeAgent.DaemonSet.{get_node_agent_daemon_set_spec, node_agent_image}
use whatap_operator.NodeAgent.Dcgm.{
  ExporterSpec, Service, add_dcgm_exporter, exporter_env_vars, default_env_vars,
  ensure_dcgm_exporter_service,
}
use whatap_operator.NodeAgent.Dcgm.Variables.{last_entry, overridden, effective-exporter_env_vars}
use whatap_operator.NodeAgent.Pod.Volumes.{is_consistent, node_agent_consistent}
use whatap_operator.NodeAgent.Pod.Labels.{with_exporter, selects_pods, gpu_target_finds_exporter}
use whatap_operator.NodeAgent.Pod.Selector.{selectors_overridden}
use whatap_operator.MasterAgent.{
  MasterAgentComponentSpec, get_master_agent_deployment_spec, master_container, master_resources,
  wanted_master_agent,
}
use whatap_operator.OpenAgent.Yaml.{object, to_ordered_yaml}
use whatap_operator.OpenAgent.Gpu.{agent_labels, gpu_target_map}
use whatap_operator.OpenAgent.Deployment.{open_agent_pod}
use whatap_operator.Tests.OpenAgent.{scrape, credentials, open_agent_spec}

abbrev no_quantities : Resources
no_quantities = record { limits = []; requests = [] }

abbrev k8s : K8sAgentSpec
k8s = record {
  custom_image_full_name = "";
  custom_agent_image_full_name = "";
  agent_image_name = "";
  agent_image_version = "2.0";
  image_pull_secrets = "registry" ∷ [];
}

abbrev component : NodeAgentComponentSpec
component = record {
  tolerations = [];
  pod_labels = ("name", "my-agent") ∷ ("team", "infra") ∷ [];
  pod_annotations = [];
  image_pull_secrets = [];
  node_helper_container = none;
  node_agent_container = none;
  envs = [];
  runtime = "crio";
  runtime_socket_path = "/run/crio.sock";
  runtime_class_name = "";
  host_network = none;
  host_pid = false;
  priority_class_name = "";
  pod_security_context = none;
}

-- The user's empty address takes the variable of the sidecar away.
abbrev exporter : ExporterSpec
exporter = record {
  custom_image_full_name = "";
  envs = env_value "DCGM_REMOTE_HOSTENGINE_INFO" "" ∷ env_value "DCGM_EXPORTER_LISTEN" ":9500" ∷ [];
  resources = no_quantities;
  group_label = "prjId";
  group_label_allowlist_regex = "";
  cluster_name = "";
  devices = "f";
  remote_host_engine_info = "";
  host_engine =
      some (record {
        enabled = true;
        custom_image_full_name = "";
        port = 0;
        resources = no_quantities;
      });
  service = none;
}

abbrev quoted : String → String
quoted s = s

abbrev shown : ℕ → String
shown n = "5555"

node_agent_consistent_example :
    (is_consistent
        (get_node_agent_daemon_set_spec "agent:1" no_quantities k8s [] component "whatap-node-agent"
          true).template
      ≡ true)
    × (is_consistent (
          add_dcgm_exporter quoted shown exporter
            (get_node_agent_daemon_set_spec "agent:1" no_quantities k8s [] component
              "whatap-node-agent" true).template)
        ≡ true)
node_agent_consistent_example =
    node_agent_consistent "agent:1" no_quantities k8s [] component "whatap-node-agent" true quoted
      shown exporter

effective-exporter_env_vars_example :
    effective "DCGM_REMOTE_HOSTENGINE_INFO" (exporter_env_vars quoted shown exporter)
    ≡ overridden
        (last_entry "DCGM_REMOTE_HOSTENGINE_INFO" exporter.envs)
        (effective "DCGM_REMOTE_HOSTENGINE_INFO" (default_env_vars quoted shown exporter))
effective-exporter_env_vars_example =
    effective-exporter_env_vars quoted shown exporter "DCGM_REMOTE_HOSTENGINE_INFO"

image_of_version : node_agent_image k8s ≡ "public.ecr.aws/whatap/kube_agent:2.0"
unfolding node_agent_image
image_of_version = refl

abbrev default_service : Service
default_service = record {
  namespace = "whatap-monitoring";
  selector = ("whatap-gpu", "true") ∷ [];
  service_type = "NodePort";
  port = 9400;
  target_port = 9400;
  node_port = some 30400;
  cluster_ip = "";
  is_local = true;
}

wanted_service :
    ensure_dcgm_exporter_service true "" "whatap-monitoring" exporter "" ≡ some default_service
unfolding ensure_dcgm_exporter_service
wanted_service = refl

abbrev gpu_spec : GpuSpec
gpu_spec = record {
  enabled = true;
  node_selector = some (("gpu", "yes") ∷ []);
  affinity = none;
  service_enabled = true;
}

abbrev node_spec : NodeSpec
node_spec = record { node_selector = []; affinity = none }

abbrev accepts : Request → Bool
accepts r = false

-- The labels that the DaemonSet of a name gives its pods.
abbrev unlabelled : NodeAgentComponentSpec
unlabelled = record component { pod_labels = [] }

abbrev labels_of : String → Dict String
labels_of name =
    (get_node_agent_daemon_set_spec "agent:1" no_quantities k8s [] unlabelled name
      true).template.labels

gpu_target_finds_exporter_example :
    (name : String) × (with_exporter (create_or_update_node_agent accepts node_spec gpu_spec).0
      ≡ name ∷ [])
    × (selects_pods "whatap-monitoring"
          (labels_of name)
          (to_ordered_yaml (object (gpu_target_map "whatap-monitoring" scrape)))
        ≡ true)
    × (agent_labels scrape ≡ labels_of name)
unfolding lookup
gpu_target_finds_exporter_example =
    gpu_target_finds_exporter accepts node_spec gpu_spec scrape "whatap-monitoring" "agent:1"
      no_quantities k8s [] unlabelled (λ r. refl) refl refl refl refl refl refl (inl refl)

abbrev master_component : MasterAgentComponentSpec
master_component = record {
  resources = record { limits = ("cpu", "1") ∷ []; requests = [] };
  envs = env_value "collect_custom_resources" "false" ∷ [];
  tolerations = [];
  affinity = none;
  node_selector = [];
  image_pull_secrets = [];
  priority_class_name = "";
  pod_labels = ("team", "infra") ∷ [];
  pod_annotations = [];
  pod_security_context = none;
  runtime_class_name = "";
  host_pid = false;
  master_agent_container = none;
}

-- The user's limit stays, and the missing quantities are filled in.
master_limits_filled : lookup "cpu" (master_resources master_component).limits ≡ some "1"
unfolding master_resources lookup set_default_resource fill_missing insert
master_limits_filled = refl

master_pod_consistent :
    is_consistent (wanted_master_agent k8s credentials master_component).template ≡ true
unfolding wanted_master_agent get_master_agent_deployment_spec master_container
master_pod_consistent = refl

selectors_overridden_example :
    (lookup "name"
        (get_node_agent_daemon_set_spec "agent:1" no_quantities k8s [] component "whatap-node-agent"
          false).template.labels
      ≡ some (
          or_default
            (lookup "name" component.pod_labels)
            (get_node_agent_daemon_set_spec "agent:1" no_quantities k8s [] component
              "whatap-node-agent" false).selector_name))
    × (lookup "name"
          (get_master_agent_deployment_spec "agent:1" no_quantities k8s credentials
            master_component).template.labels
        ≡ some (
            or_default
              (lookup "name" master_component.pod_labels)
              (get_master_agent_deployment_spec "agent:1" no_quantities k8s credentials
                master_component).selector_name))
    × (lookup "app" (open_agent_pod credentials open_agent_spec []).labels
        ≡ some (or_default (lookup "app" open_agent_spec.pod_labels) "whatap-open-agent"))
unfolding lookup
selectors_overridden_example =
    selectors_overridden "agent:1" no_quantities k8s [] component "whatap-node-agent" false
      credentials master_component open_agent_spec [] refl refl refl
