-- ===== src/NodeAgent/DaemonSet.antt =====
-- The node agents' pod (internal/controller/install_agents.go): the image of createOrUpdateNodeAgent
-- and getNodeAgentDaemonSetSpec, without the placement, which the parent module has.
use whatap_operator.Prelude.{
  String, Bool, true, false, Option, none, some, List, [], ◌∷◌, ◌++◌, Dict, if◌then◌else◌, is_empty,
  or_default, insert, with_labels, ◌==◌, ◌⊕◌,
}
use whatap_operator.Env.{EnvVar, env_value, env_field, resource_field_ref}
use whatap_operator.Workload.{Resources, or_text}
use whatap_operator.NodeAgent.Types.{
  host_path, config_map, empty_dir, Volume, VolumeMount, Container, ContainerSpec,
  NodeAgentComponentSpec, K8sAgentSpec, PodTemplate, DaemonSetSpec,
}

unfoldable pub node_agent_image : K8sAgentSpec → String
node_agent_image k8s =
    if k8s.custom_image_full_name == ""
    then (if k8s.custom_agent_image_full_name == ""
        then or_text k8s.agent_image_name "public.ecr.aws/whatap/kube_agent"
          ⊕ ":"
          ⊕ or_text k8s.agent_image_version "latest"
        else k8s.custom_agent_image_full_name)
    else k8s.custom_image_full_name

unfoldable pub node_agent_labels : String → Bool → Dict String → Dict String
node_agent_labels ds_name include_dcgm pod_labels =
    let name = ("name", ds_name) ∷ [] in
    with_labels pod_labels (if include_dcgm then insert "whatap-gpu" "true" name else name)

abbrev pub helper_default_resources : Resources
helper_default_resources = record {
  requests = ("memory", "100Mi") ∷ ("cpu", "100m") ∷ [];
  limits = ("memory", "350Mi") ∷ ("cpu", "200m") ∷ [];
}

-- The resources of a container's own spec, if that has limits.
abbrev pub resources_or : Option ContainerSpec → Resources → Resources
resources_or none default = default
resources_or (some c) default = elim c.limits [
  | none ↦ default
  | some limits ↦ record { limits = limits; requests = c.requests }
]

abbrev pub image_or : Option ContainerSpec → String → String
image_or none default = default
image_or (some c) default = or_text c.image default

abbrev pub own_envs : Option ContainerSpec → List EnvVar
own_envs none = []
own_envs (some c) = c.envs

abbrev pub own_security : Option ContainerSpec → Option String
own_security none = none
own_security (some c) = c.security_context

unfoldable pub helper_envs : NodeAgentComponentSpec → List EnvVar
helper_envs node = env_field "NODE_NAME" "spec.nodeName" ∷ own_envs node.node_helper_container

-- The agent's own variables, in front of those of its container or else those of the component;
-- `credentials` are the variables of the licence, the host and the port.
unfoldable pub agent_envs : List EnvVar → NodeAgentComponentSpec → List EnvVar
agent_envs credentials node =
    (env_field "NODE_IP" "status.hostIP" ∷ env_field "NODE_NAME" "spec.nodeName" ∷ credentials
      ++ record {
        name = "WHATAP_MEM_LIMIT";
        value = "";
        value_from = some (resource_field_ref "whatap-node-agent" "limits.memory");
      }
        ∷ env_value "HOST_PREFIX" "/rootfs"
        ∷ env_value "whatap_server_agent_enabled" "true"
        ∷ [])
    ++ (if is_empty (own_envs node.node_agent_container)
        then node.envs
        else own_envs node.node_agent_container)

-- The name of a socket's volume, its path in the container and its path on the host.
abbrev pub Socket : Type 0
Socket = String × String × String

-- The name of the socket's volume, its path in the container and its default on the host.
unfoldable pub runtime_socket : String → Socket
runtime_socket runtime =
    if runtime == "docker"
    then ("dockerdomainsocket", "/var/run/docker.sock", "/var/run/docker.sock")
    else if runtime == "crio"
    then ("criodomainsocket", "/var/run/crio/crio.sock", "/var/run/crio/crio.sock")
    else (
      "containerddomainsocket", "/run/containerd/containerd.sock",
      "/run/containerd/containerd.sock",
    )

abbrev pub read_mount : String → String → VolumeMount
read_mount volume path = record {
  name = volume;
  mount_path = path;
  sub_path = "";
  read_only = true;
}

abbrev pub write_mount : String → String → VolumeMount
write_mount volume path = record {
  name = volume;
  mount_path = path;
  sub_path = "";
  read_only = false;
}

abbrev pub host_volume : String → String → Volume
host_volume volume path = record { name = volume; source = host_path path none }

-- The socket of the component's runtime, with its path on the host if it has one.
abbrev pub socket_of : NodeAgentComponentSpec → Socket
socket_of node =
    let socket = runtime_socket (or_text node.runtime "containerd") in
    (socket.0, socket.1, or_text node.runtime_socket_path socket.2)

unfoldable pub helper_container : String → Socket → NodeAgentComponentSpec → Container
helper_container image socket node = record {
  name = "whatap-node-helper";
  image = image_or node.node_helper_container image;
  command = "/data/agent/node/cadvisor_helper" ∷ "-port" ∷ "6801" ∷ [];
  env = helper_envs node;
  resources = resources_or node.node_helper_container helper_default_resources;
  security_context = own_security node.node_helper_container;
  volume_mounts =
      read_mount "rootfs" "/rootfs"
      ∷ read_mount "hostsys" "/sys"
      ∷ read_mount "hostdiskdevice" "/dev/disk"
      ∷ write_mount socket.0 socket.1
      ∷ [];
}

unfoldable pub agent_container :
    String → Resources → List EnvVar → NodeAgentComponentSpec → Container
agent_container image res credentials node = record {
  name = "whatap-node-agent";
  image = image_or node.node_agent_container image;
  command = "/bin/entrypoint.sh" ∷ [];
  env = agent_envs credentials node;
  resources = resources_or node.node_agent_container res;
  security_context = own_security node.node_agent_container;
  volume_mounts =
      read_mount "rootfs" "/rootfs"
      ∷ record {
        name = "start-script-volume";
        mount_path = "/bin/entrypoint.sh";
        sub_path = "entrypoint.sh";
        read_only = true;
      }
      ∷ write_mount "whatap-config-volume" "/whatap_conf"
      ∷ [];
}

unfoldable pub node_agent_volumes : Socket → List Volume
node_agent_volumes socket =
    host_volume "rootfs" "/"
    ∷ host_volume "hostsys" "/sys"
    ∷ host_volume "hostdiskdevice" "/dev/disk"
    ∷ record { name = "start-script-volume"; source = config_map "node-start-script" }
    ∷ record { name = "whatap-config-volume"; source = empty_dir }
    ∷ record { name = socket.0; source = host_path socket.2 (some "Socket") }
    ∷ []

abbrev pub default_tolerations : List String
default_tolerations =
    "node-role.kubernetes.io/master" ∷ "node-role.kubernetes.io/control-plane" ∷ []

unfoldable pub pod_template :
    String
    → Resources
    → K8sAgentSpec
    → List EnvVar
    → NodeAgentComponentSpec
    → Dict String
    → Socket
    → PodTemplate
pod_template image res k8s credentials node labels socket = record {
  labels = labels;
  annotations = with_labels node.pod_annotations [];
  host_network = or_default node.host_network true;
  runtime_class_name = if node.runtime_class_name == "" then none else some node.runtime_class_name;
  host_pid = node.host_pid;
  dns_policy =
      if or_default node.host_network true then "ClusterFirstWithHostNet" else "ClusterFirst";
  service_account_name = "whatap";
  priority_class_name = node.priority_class_name;
  security_context =
      or_default node.pod_security_context "runAsUser 0, runAsGroup 0, fsGroup 0, RuntimeDefault";
  containers = helper_container image socket node ∷ agent_container image res credentials node ∷ [];
  tolerations = default_tolerations ++ node.tolerations;
  image_pull_secrets =
      if is_empty node.image_pull_secrets then k8s.image_pull_secrets else node.image_pull_secrets;
  volumes = node_agent_volumes socket;
}

unfoldable pub get_node_agent_daemon_set_spec :
    String
    → Resources
    → K8sAgentSpec
    → List EnvVar
    → NodeAgentComponentSpec
    → String
    → Bool
    → DaemonSetSpec
get_node_agent_daemon_set_spec image res k8s credentials node ds_name include_dcgm = record {
  selector_name = ds_name;
  template =
      pod_template image res k8s credentials node
        (node_agent_labels ds_name include_dcgm node.pod_labels) (socket_of node);
}
