-- ===== src/MasterAgent.antt =====
-- The master agent's Deployment (internal/controller/install_agents.go): the image and the resources
-- of createOrUpdateMasterAgent, and getMasterAgentDeploymentSpec. The update of the Deployment
-- that is there is in Workload.
--
-- Affinity, tolerations and pod security contexts, which are only copied, are texts.
use whatap_operator.Prelude.{
  ℕ, String, Bool, true, false, Option, none, some, List, [], ◌∷◌, ◌++◌, Dict, if◌then◌else◌,
  is_empty, or_default, with_labels, ◌==◌,
}
use whatap_operator.Env.{EnvVar, env_value, resource_field_ref}
use whatap_operator.Workload.{Resources, set_default_resource}
use whatap_operator.NodeAgent.Types.{
  ContainerSpec, K8sAgentSpec, PodTemplate, Container, Volume, config_map, empty_dir,
}
use whatap_operator.NodeAgent.DaemonSet.{
  image_or, resources_or, own_envs, own_security, write_mount, node_agent_image,
}
use whatap_operator.OpenAgent.Deployment.{Credentials, credential_env_vars}

pub record MasterAgentComponentSpec : Type 0 where
  pub resources : Resources
  pub envs : List EnvVar
  pub tolerations : List String
  pub affinity : Option String
  pub node_selector : Dict String
  pub image_pull_secrets : List String
  pub priority_class_name : String
  pub pod_labels : Dict String
  pub pod_annotations : Dict String
  pub pod_security_context : Option String
  pub runtime_class_name : String
  pub host_pid : Bool
  pub master_agent_container : Option ContainerSpec

-- The label of the selector, the number of replicas, the template, and the pod's placement.
pub record DeploymentSpec : Type 0 where
  pub replicas : ℕ
  pub selector_name : String
  pub template : PodTemplate
  pub affinity : Option String
  pub node_selector : Dict String

-- The agent's own variables, in front of those of its container or else those of the component.
unfoldable pub master_envs : Credentials → MasterAgentComponentSpec → List EnvVar
master_envs cr master =
    (credential_env_vars cr
      ++ record {
        name = "WHATAP_MEM_LIMIT";
        value = "";
        value_from = some (resource_field_ref "whatap-master-agent" "limits.memory");
      }
        ∷ env_value "collect_custom_resources" "true"
        ∷ [])
    ++ (if is_empty (own_envs master.master_agent_container)
        then master.envs
        else own_envs master.master_agent_container)

unfoldable pub master_container :
    String → Resources → Credentials → MasterAgentComponentSpec → Container
master_container image res cr master = record {
  name = "whatap-master-agent";
  image = image_or master.master_agent_container image;
  command = "/bin/entrypoint.sh" ∷ [];
  env = master_envs cr master;
  resources = resources_or master.master_agent_container res;
  security_context = own_security master.master_agent_container;
  volume_mounts =
      record {
        name = "start-script-volume";
        mount_path = "/bin/entrypoint.sh";
        sub_path = "entrypoint.sh";
        read_only = true;
      }
      ∷ write_mount "whatap-config-volume" "/whatap_conf"
      ∷ [];
}

abbrev pub master_volumes : List Volume
master_volumes =
    record { name = "start-script-volume"; source = config_map "master-start-script" }
    ∷ record { name = "whatap-config-volume"; source = empty_dir }
    ∷ []

unfoldable pub get_master_agent_deployment_spec :
    String → Resources → K8sAgentSpec → Credentials → MasterAgentComponentSpec → DeploymentSpec
get_master_agent_deployment_spec image res k8s cr master = record {
  replicas = 1;
  selector_name = "whatap-master-agent";
  template = record {
    labels = with_labels master.pod_labels (("name", "whatap-master-agent") ∷ []);
    annotations = with_labels master.pod_annotations [];
    host_network = false;
    runtime_class_name =
        if master.runtime_class_name == "" then none else some master.runtime_class_name;
    host_pid = master.host_pid;
    dns_policy = "ClusterFirst";
    service_account_name = "whatap";
    priority_class_name = master.priority_class_name;
    security_context =
        or_default master.pod_security_context
          "runAsUser 0, runAsGroup 0, fsGroup 0, RuntimeDefault";
    containers = master_container image res cr master ∷ [];
    tolerations = master.tolerations;
    image_pull_secrets =
        if is_empty master.image_pull_secrets
        then k8s.image_pull_secrets
        else master.image_pull_secrets;
    volumes = master_volumes;
  };
  affinity = master.affinity;
  node_selector = master.node_selector;
}

-- The resources of the component, with the defaults where a quantity is missing.
unfoldable pub master_resources : MasterAgentComponentSpec → Resources
master_resources master =
    set_default_resource master.resources (("cpu", "100m") ∷ ("memory", "300Mi") ∷ [])
      (("cpu", "200m") ∷ ("memory", "350Mi") ∷ [])

-- The specification that createOrUpdateMasterAgent wants: its image is chosen as the node agent's.
unfoldable pub wanted_master_agent :
    K8sAgentSpec → Credentials → MasterAgentComponentSpec → DeploymentSpec
wanted_master_agent k8s cr master =
    get_master_agent_deployment_spec (node_agent_image k8s) (master_resources master) k8s cr master
