-- ===== src/NodeAgent/Dcgm.antt =====
-- The dcgm-exporter beside the node agent (internal/controller/install_agents.go,
-- addDcgmExporterToNodeAgent and ensureDcgmExporterService). The texts of numbers and the quoting of
-- regular expressions, which are Go's fmt and regexp, are parameters.
pub mod Variables
use whatap_operator.Prelude.{
  ℕ, String, Bool, true, false, Option, none, some, is_some, List, [], ◌∷◌, ◌++◌, Dict,
  if◌then◌else◌, foldl, insert, nat_eq, not, ◌&&◌, ◌||◌, ◌==◌, ◌⊕◌,
}
use whatap_operator.Env.{EnvVar, env_value, env_field}
use whatap_operator.Workload.{Resources, or_text}
use whatap_operator.NodeAgent.Types.{Container, Volume, PodTemplate, config_map}
use whatap_operator.NodeAgent.DaemonSet.{read_mount, host_volume}

-- The fields of DcgmHostEngineSpec.
pub record HostEngine : Type 0 where
  pub enabled : Bool
  pub custom_image_full_name : String
  pub port : ℕ
  pub resources : Resources

-- The fields of GpuMonitoringServiceSpec.
pub record ServiceSpec : Type 0 where
  pub enabled : Bool
  pub service_type : String
  pub port : ℕ
  pub node_port : ℕ

-- The fields of GpuMonitoringSpec that the exporter uses.
pub record ExporterSpec : Type 0 where
  pub custom_image_full_name : String
  pub envs : List EnvVar
  pub resources : Resources
  pub group_label : String
  pub group_label_allowlist_regex : String
  pub cluster_name : String
  pub devices : String
  pub remote_host_engine_info : String
  pub host_engine : Option HostEngine
  pub service : Option ServiceSpec

abbrev pub remote_info : String
remote_info = "DCGM_REMOTE_HOSTENGINE_INFO"

-- The host engine beside the exporter, if there is one.
abbrev pub sidecar : ExporterSpec → Option HostEngine
sidecar gpu = elim gpu.host_engine [ none ↦ none | some e ↦ if e.enabled then some e else none ]

abbrev pub engine_port : HostEngine → ℕ
engine_port e = if nat_eq e.port 0 then 5555 else e.port

module _ (quote_meta : String → String) (show : ℕ → String) where
  abbrev pub group_env_vars : ExporterSpec → List EnvVar
  group_env_vars gpu =
      if gpu.group_label == ""
      then []
      else (env_value "DCGM_EXPORTER_KUBERNETES_ENABLE_POD_LABELS" "true"
          ∷ env_value "DCGM_EXPORTER_KUBERNETES_POD_LABEL_ALLOWLIST_REGEX"
              (or_text gpu.group_label_allowlist_regex ("^(" ⊕ quote_meta gpu.group_label ⊕ ")$"))
          ∷ [])

  abbrev pub cluster_env_vars : ExporterSpec → List EnvVar
  cluster_env_vars gpu =
      if gpu.cluster_name == ""
      then []
      else env_value "DCGM_EXPORTER_KUBERNETES_CLUSTER_NAME" gpu.cluster_name ∷ []

  abbrev pub device_env_vars : ExporterSpec → List EnvVar
  device_env_vars gpu =
      if gpu.devices == "" || gpu.devices == "f"
      then []
      else env_value "DCGM_EXPORTER_DEVICES_STR" gpu.devices ∷ []

  abbrev pub remote_env_vars : ExporterSpec → List EnvVar
  remote_env_vars gpu = elim (sidecar gpu) [
    | some e ↦ env_value remote_info ("localhost:" ⊕ show (engine_port e)) ∷ []
    | none ↦
        if gpu.remote_host_engine_info == ""
        then []
        else env_value remote_info gpu.remote_host_engine_info ∷ []
  ]

  unfoldable pub default_env_vars : ExporterSpec → List EnvVar
  default_env_vars gpu =
      (env_value "DCGM_EXPORTER_LISTEN" ":9400"
        ∷ env_value "DCGM_EXPORTER_KUBERNETES" "true"
        ∷ env_value "DCGM_EXPORTER_COLLECTORS" "/etc/dcgm-exporter/whatap-dcgm-exporter.csv"
        ∷ env_field "NODE_NAME" "spec.nodeName"
        ∷ [])
      ++ (group_env_vars gpu
          ++ (cluster_env_vars gpu ++ (device_env_vars gpu ++ remote_env_vars gpu)))

-- An empty address of a remote host engine takes the variable away.
abbrev pub opts_out : EnvVar → Bool
opts_out u = u.name == remote_info && (u.value == "" && not (is_some u.value_from))

unfoldable pub remove_env : String → List EnvVar → List EnvVar
remove_env n [] = []
remove_env n (e ∷ es) = let rest = remove_env n es in if e.name == n then rest else e ∷ rest

unfoldable pub overwrite : EnvVar → List EnvVar → List EnvVar
overwrite u [] = u ∷ []
overwrite u (e ∷ es) = let rest = overwrite u es in if e.name == u.name then u ∷ es else e ∷ rest

unfoldable pub apply_user_env : List EnvVar → EnvVar → List EnvVar
apply_user_env envs u = if opts_out u then remove_env u.name envs else overwrite u envs

unfoldable pub exporter_env_vars : (String → String) → (ℕ → String) → ExporterSpec → List EnvVar
exporter_env_vars quote_meta show gpu =
    foldl apply_user_env (default_env_vars quote_meta show gpu) gpu.envs

unfoldable pub dcgm_container : (String → String) → (ℕ → String) → ExporterSpec → Container
dcgm_container quote_meta show gpu = record {
  name = "dcgm-exporter";
  image =
      or_text gpu.custom_image_full_name
        "public.ecr.aws/whatap/dcgm-exporter:4.6.0-4.8.3-distroless";
  command = [];
  env = exporter_env_vars quote_meta show gpu;
  resources = gpu.resources;
  security_context = some "runAsNonRoot false, runAsUser 0, add SYS_ADMIN";
  volume_mounts =
      read_mount "pod-gpu-resources" "/var/lib/kubelet/pod-resources"
      ∷ record {
        name = "whatap-dcgm-exporter-csv";
        mount_path = "/etc/dcgm-exporter/whatap-dcgm-exporter.csv";
        sub_path = "whatap-gpu.csv";
        read_only = true;
      }
      ∷ [];
}

unfoldable pub host_engine_container : HostEngine → Container
host_engine_container e = record {
  name = "dcgm-hostengine";
  image = or_text e.custom_image_full_name "nvcr.io/nvidia/cloud-native/dcgm:4.6.0-1-ubuntu24.04";
  command = [];
  env = [];
  resources = e.resources;
  security_context =
      some "runAsNonRoot false, runAsUser 0, allowPrivilegeEscalation true, add SYS_ADMIN";
  volume_mounts = [];
}

abbrev pub engine_containers : Option HostEngine → List Container
engine_containers none = []
engine_containers (some e) = host_engine_container e ∷ []

unfoldable pub append_exporter : Container → List Container → PodTemplate → PodTemplate
append_exporter exporter engines pod = record pod {
  containers = pod.containers ++ exporter ∷ engines;
  volumes =
      pod.volumes
      ++ host_volume "pod-gpu-resources" "/var/lib/kubelet/pod-resources"
        ∷ record { name = "whatap-dcgm-exporter-csv"; source = config_map "dcgm-exporter-csv" }
        ∷ [];
}

unfoldable pub add_dcgm_exporter :
    (String → String) → (ℕ → String) → ExporterSpec → PodTemplate → PodTemplate
add_dcgm_exporter quote_meta show gpu pod =
    append_exporter (dcgm_container quote_meta show gpu) (engine_containers (sidecar gpu)) pod

-- The Service of the exporter.
pub record Service : Type 0 where
  pub namespace : String
  pub selector : Dict String
  pub service_type : String
  pub port : ℕ
  pub target_port : ℕ
  pub node_port : Option ℕ
  pub cluster_ip : String
  pub is_local : Bool

abbrev pub service_or : Option ServiceSpec → ServiceSpec
service_or none = record {
  enabled = true;
  service_type = "NodePort";
  port = 9400;
  node_port = 30400;
}
service_or (some s) = record {
  enabled = s.enabled;
  service_type = or_text s.service_type "NodePort";
  port = if nat_eq s.port 0 then 9400 else s.port;
  node_port = if nat_eq s.node_port 0 then 30400 else s.node_port;
}

-- The Service that is wanted, if any: `monitoring` is gpuMonitoring.enabled, and `cluster_ip` the
-- address of the Service that is there, or "".
unfoldable pub ensure_dcgm_exporter_service :
    Bool → String → String → ExporterSpec → String → Option Service
ensure_dcgm_exporter_service monitoring k8s_namespace default_namespace gpu cluster_ip =
    let s = service_or gpu.service in
    let is_node_port = s.service_type == "NodePort" in
    if monitoring && s.enabled
    then some (record {
      namespace = or_text k8s_namespace default_namespace;
      selector = ("whatap-gpu", "true") ∷ [];
      service_type = s.service_type;
      port = s.port;
      target_port = 9400;
      node_port = if is_node_port then some s.node_port else none;
      cluster_ip = cluster_ip;
      is_local = is_node_port;
    })
    else none
