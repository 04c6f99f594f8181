-- ===== src/NodeAgent/Pod/Volumes.antt =====
-- That the pods of the node agents are consistent (internal/controller/install_agents.go:
-- getNodeAgentDaemonSetSpec and addDcgmExporterToNodeAgent).
use whatap_operator.Prelude.{
  ℕ, String, Bool, true, Option, none, some, List, Dict, [], ◌∷◌, map, contains, any, all, not,
  ◌&&◌, ◌==◌, ◌≡◌, refl, Bool-cases, inl, inr,
}
use whatap_operator.Env.{EnvVar}
use whatap_operator.Workload.{Resources, or_text}
use whatap_operator.NodeAgent.Types.{
  Volume, VolumeMount, PodTemplate, K8sAgentSpec, NodeAgentComponentSpec,
}
use whatap_operator.NodeAgent.DaemonSet.{
  get_node_agent_daemon_set_spec, helper_container, agent_container, node_agent_volumes,
  runtime_socket, Socket, pod_template, node_agent_labels,
}
use whatap_operator.NodeAgent.Dcgm.{
  ExporterSpec, add_dcgm_exporter, dcgm_container, host_engine_container, sidecar, HostEngine,
  append_exporter, engine_containers,
}

abbrev pub has_volume : List Volume → VolumeMount → Bool
has_volume volumes m = any (λ v. v.name == m.name) volumes

-- Whether every mount of every container has a volume.
abbrev pub mounts_backed : PodTemplate → Bool
mounts_backed pod = all (λ c. all (has_volume pod.volumes) c.volume_mounts) pod.containers

abbrev pub distinct_names : List String → Bool
distinct_names [] = true
distinct_names (n ∷ ns) = not (contains ns n) && distinct_names ns

abbrev pub is_consistent : PodTemplate → Bool
is_consistent pod =
    mounts_backed pod
    && (distinct_names (map (λ v. v.name) pod.volumes)
        && distinct_names (map (λ c. c.name) pod.containers))

-- The two pods for a socket with one of the names, and with a host engine or without.
module _ (image : String) (res : Resources) (k8s : K8sAgentSpec) (credentials : List EnvVar)
    (node : NodeAgentComponentSpec) (labels : Dict String) (quote_meta : String → String)
    (show : ℕ → String) (gpu : ExporterSpec) where
  abbrev base_pod : Socket → PodTemplate
  base_pod socket = pod_template image res k8s credentials node labels socket

  abbrev gpu_pod : Option HostEngine → Socket → PodTemplate
  gpu_pod engine socket =
      append_exporter (dcgm_container quote_meta show gpu) (engine_containers engine)
        (base_pod socket)

  abbrev Consistent : Option HostEngine → String → Type 0
  Consistent engine name =
      (inside outside : String)
      → (is_consistent (base_pod (name, inside, outside)) ≡ true)
        × (is_consistent (gpu_pod engine (name, inside, outside)) ≡ true)

  docker-Consistent : (engine : Option HostEngine) → Consistent engine "dockerdomainsocket"
  unfolding pod_template helper_container agent_container node_agent_volumes append_exporter
      dcgm_container host_engine_container
  docker-Consistent none inside outside = (refl, refl)
  docker-Consistent (some e) inside outside = (refl, refl)

  crio-Consistent : (engine : Option HostEngine) → Consistent engine "criodomainsocket"
  unfolding pod_template helper_container agent_container node_agent_volumes append_exporter
      dcgm_container host_engine_container
  crio-Consistent none inside outside = (refl, refl)
  crio-Consistent (some e) inside outside = (refl, refl)

  containerd-Consistent : (engine : Option HostEngine) → Consistent engine "containerddomainsocket"
  unfolding pod_template helper_container agent_container node_agent_volumes append_exporter
      dcgm_container host_engine_container
  containerd-Consistent none inside outside = (refl, refl)
  containerd-Consistent (some e) inside outside = (refl, refl)

  runtime-Consistent :
      (engine : Option HostEngine) (runtime : String) → Consistent engine (runtime_socket runtime).0
  unfolding runtime_socket
  runtime-Consistent engine runtime = elim (Bool-cases (runtime == "docker")) [
    | inl e ↦ rw e (docker-Consistent engine)
    | inr e ↦ elim (Bool-cases (runtime == "crio")) [
      | inl f ↦ rw (e, f) (crio-Consistent engine)
      | inr f ↦ rw (e, f) (containerd-Consistent engine)
    ]
  ]

-- Whatever the resource says, in the pod of a node agent, with the dcgm-exporter and its host engine
-- or without, every mount has a volume, no two volumes have one name, and no two containers do.
pub node_agent_consistent :
    (image : String) (res : Resources) (k8s : K8sAgentSpec) (credentials : List EnvVar)
    (node : NodeAgentComponentSpec) (ds_name : String) (include_dcgm : Bool)
    (quote_meta : String → String) (show : ℕ → String) (gpu : ExporterSpec)
    → let ds = get_node_agent_daemon_set_spec image res k8s credentials node ds_name include_dcgm in
      (is_consistent ds.template ≡ true)
      × (is_consistent (add_dcgm_exporter quote_meta show gpu ds.template) ≡ true)
unfolding get_node_agent_daemon_set_spec add_dcgm_exporter
node_agent_consistent image res k8s credentials node ds_name include_dcgm quote_meta show gpu =
    runtime-Consistent image res k8s credentials node
      (node_agent_labels ds_name include_dcgm node.pod_labels) quote_meta show gpu (sidecar gpu)
      (or_text node.runtime "containerd") _ _
