-- ===== src/NodeAgent/Pod/Selector.antt =====
-- Whether the selectors of the workloads match their own pods (internal/controller/install_agents.go:
-- getNodeAgentDaemonSetSpec, getMasterAgentDeploymentSpec and installOpenAgent).
use whatap_operator.Prelude.{
  String, Bool, true, false, Option, none, some, or_else, or_default, List, [], ◌∷◌, Dict,
  if◌then◌else◌, with_labels, lookup, insert, lookup-insert, ◌==◌, ◌≡◌, refl, sym, ap, ◌∙◌, arith,
  eq_of_test, and_parts, Bool-cases, Option-cases, inl, inr,
}
use whatap_operator.Env.{EnvVar}
use whatap_operator.Workload.{Resources}
use whatap_operator.NodeAgent.Types.{K8sAgentSpec, NodeAgentComponentSpec}
use whatap_operator.NodeAgent.DaemonSet.{
  get_node_agent_daemon_set_spec, pod_template, node_agent_labels,
}
use whatap_operator.MasterAgent.{MasterAgentComponentSpec, get_master_agent_deployment_spec}
use whatap_operator.OpenAgent.Gpu.Labels.{distinct_keys, unknown}
use whatap_operator.OpenAgent.Deployment.{Credentials, OpenAgentSpec, open_agent_pod}

unknown-none : (k : String) (d : Dict String) → unknown k d ≡ true → lookup k d ≡ none
unknown-none k d h = elim (Option-cases (lookup k d)) [
  | inl e ↦ e
  | inr (v, e) ↦ (let no : unknown k d ≡ false = rw e refl in ground (arith, no, h))
]

lookup-with_labels :
    (k : String) (extra labels : Dict String)
    → distinct_keys extra ≡ true
    → lookup k (with_labels extra labels) ≡ or_else (lookup k extra) (lookup k labels)
unfolding lookup
lookup-with_labels k [] labels h = refl
lookup-with_labels k ((j, v) ∷ extra) labels h =
    lookup-with_labels k extra (insert j v labels) (and_parts h).1 ∙ elim (Bool-cases (j == k)) [
      | inl e ↦
          let gone : lookup k extra ≡ none =
            ap (λ x. lookup x extra) (sym (eq_of_test j k e))
            ∙ unknown-none j extra (and_parts h).0 in
          rw (gone, lookup-insert j k v labels, e) refl
      | inr e ↦ rw (lookup-insert j k v labels, e) refl
    ]

-- The label that the selector of a node agent's DaemonSet asks for, the one that the selector of the
-- master agent's Deployment asks for, and the one that the selector of the OpenAgent's Deployment
-- asks for have the selector's value in the pod template unless the user's pod labels have the
-- key "name" or, for the OpenAgent, "app": then they have the user's value, and the workload does
-- not select its own pods unless that is the same.
pub selectors_overridden :
    (image : String) (res : Resources) (k8s : K8sAgentSpec) (credentials : List EnvVar)
    (node : NodeAgentComponentSpec) (ds_name : String) (include_dcgm : Bool) (cr : Credentials)
    (master : MasterAgentComponentSpec) (spec : OpenAgentSpec) (secrets : Dict (List String))
    → distinct_keys node.pod_labels ≡ true
    → distinct_keys master.pod_labels ≡ true
    → distinct_keys spec.pod_labels ≡ true
    → let ds = get_node_agent_daemon_set_spec image res k8s credentials node ds_name include_dcgm in
      let deploy = get_master_agent_deployment_spec image res k8s cr master in
      (lookup "name" ds.template.labels
        ≡ some (or_default (lookup "name" node.pod_labels) ds.selector_name))
      × (lookup "name" deploy.template.labels
          ≡ some (or_default (lookup "name" master.pod_labels) deploy.selector_name))
      × (lookup "app" (open_agent_pod cr spec secrets).labels
          ≡ some (or_default (lookup "app" spec.pod_labels) "whatap-open-agent"))
unfolding get_node_agent_daemon_set_spec pod_template node_agent_labels open_agent_pod
    get_master_agent_deployment_spec lookup insert
selectors_overridden image res k8s credentials node ds_name include_dcgm cr master spec secrets h m
      g =
    (
      lookup-with_labels "name" node.pod_labels _ h
          ∙ ap (or_else (lookup "name" node.pod_labels)) (named include_dcgm)
          ∙ or_some (lookup "name" node.pod_labels) ds_name,
      lookup-with_labels "name" master.pod_labels _ m
          ∙ or_some (lookup "name" master.pod_labels) "whatap-master-agent",
      lookup-with_labels "app" spec.pod_labels _ g
          ∙ or_some (lookup "app" spec.pod_labels) "whatap-open-agent",
    )
  where
    named :
        (b : Bool)
        → lookup "name" (
            if b
            then insert "whatap-gpu" "true" (("name", ds_name) ∷ [])
            else ("name", ds_name) ∷ [])
          ≡ some ds_name
    named true = refl
    named false = refl

    or_some : (o : Option String) (d : String) → or_else o (some d) ≡ some (or_default o d)
    or_some none d = refl
    or_some (some x) d = refl
