-- ===== src/Controller.antt =====
-- The reconciliation of the WhatapAgent resource (internal/controller/whatapagent_controller.go):
-- Reconcile with its finalizer, its steps and its status, and the cleanups of disabled agents.
--
-- The API server is a parameter, an `Api`, which says how each call ends; what Reconcile does is
-- the list of its writes. What one installation step writes is modelled elsewhere (WebhookObjects,
-- MasterAgent, NodeAgent, OpenAgent), so such a step is one action here, `install`.
pub mod Progress
pub mod Release
pub mod Leftover
pub mod Cleanup
pub mod WebhookObjects
use whatap_operator.Prelude.{
  String, Bool, true, false, Option, none, some, List, [], ◌∷◌, ◌++◌, if◌then◌else◌, contains, not,
}

-- The objects that the cleanups delete, by kind and name.
pub data Object : Type 0 where
  deployment daemon_set config_map service_account cluster_role cluster_role_binding secret service
        mutating_webhook_configuration :
      String → Object

-- What Reconcile installs, one step each.
pub data Step : Type 0 where
  webhook_service webhook_tls_secret webhook_configuration master_agent node_agent apiserver_monitor
        etcd_monitor scheduler_monitor open_agent :
      Step

-- The condition "Available" of the status.
pub data Condition : Type 0 where
  reconciling installed : Condition
  install_failed : String → Condition

-- What Reconcile asks to be written, in order.
pub data Action : Type 0 where
  add_finalizer remove_finalizer : Action
  install : Step → Action
  warn : Step → Action
  delete : Object → Action
  write_status : Condition → Action

-- Which features of the resource are enabled.
pub record Features : Type 0 where
  pub master_agent_enabled : Bool
  pub node_agent_enabled : Bool
  pub apiserver_monitoring_enabled : Bool
  pub etcd_monitoring_enabled : Bool
  pub scheduler_monitoring_enabled : Bool
  pub open_agent_enabled : Bool

-- The resource as Reconcile reads it.
pub record Agent : Type 0 where
  pub is_deleted : Bool
  pub finalizers : List String
  pub features : Features

pub data Fetched : Type 0 where
  not_found : Fetched
  get_failed : String → Fetched
  found : Agent → Fetched

-- How the calls end: an error is its message. `delete_failed` is about errors other than NotFound,
-- and `status_failed` about the final status, all retries on a conflict included.
pub record Api : Type 0 where
  pub fetched : Fetched
  pub update_failed : Option String
  pub install_failed : Step → Option String
  pub exists : Object → Bool
  pub delete_failed : Object → Bool
  pub status_failed : Option String

-- What Reconcile returns, with the writes it made.
pub record Outcome : Type 0 where
  pub actions : List Action
  pub error : Option String
  pub requeue_after : Bool

abbrev pub whatap_finalizer : String
whatap_finalizer = "whatapagent.finalizers.monitoring.whatap.com"

-- Get and Delete of objects one after another, up to the first deletion that fails.
unfoldable pub delete_existing : Api → List Object → List Action
delete_existing api [] = []
delete_existing api (o ∷ os) =
    let rest = delete_existing api os in
    if api.exists o then (if api.delete_failed o then delete o ∷ [] else delete o ∷ rest) else rest

abbrev pub master_agent_objects : List Object
master_agent_objects = deployment "whatap-master-agent" ∷ []

abbrev pub node_agent_objects : List Object
node_agent_objects = daemon_set "whatap-node-agent" ∷ []

abbrev pub open_agent_objects : List Object
open_agent_objects =
    deployment "whatap-open-agent"
    ∷ config_map "whatap-open-agent-config"
    ∷ service_account "whatap-open-agent-sa"
    ∷ cluster_role "whatap-open-agent-role"
    ∷ cluster_role_binding "whatap-open-agent-role-binding"
    ∷ []

abbrev pub cleanup_master_agent : Api → List Action
cleanup_master_agent api = delete_existing api master_agent_objects

abbrev pub cleanup_node_agent : Api → List Action
cleanup_node_agent api = delete_existing api node_agent_objects

abbrev pub cleanup_open_agent : Api → List Action
cleanup_open_agent api = delete_existing api open_agent_objects

-- These are deleted without a Get before it.
abbrev pub webhook_deletions : List Action
webhook_deletions =
    delete (mutating_webhook_configuration "whatap-webhook")
    ∷ delete (service "whatap-admission-controller")
    ∷ delete (secret "whatap-webhook-certificate")
    ∷ []

-- The cleanup of a deleted resource: an error in one part does not keep the next from running.
unfoldable pub cleanup_agents : Api → List Action
cleanup_agents api =
    cleanup_master_agent api
    ++ (cleanup_node_agent api ++ (cleanup_open_agent api ++ webhook_deletions))

-- The steps of Reconcile after the finalizer, in order: what is installed if it is enabled, and
-- which cleanup runs instead.
pub data Task : Type 0 where
  ensure : Step → Task
  clean : List Object → Task

abbrev pub when : Bool → Step → List Task
when enabled step = if enabled then ensure step ∷ [] else []

unfoldable pub tasks : Features → List Task
tasks f =
    ensure webhook_service
    ∷ ensure webhook_tls_secret
    ∷ ensure webhook_configuration
    ∷ (if f.master_agent_enabled then ensure master_agent else clean master_agent_objects)
    ∷ (if f.node_agent_enabled then ensure node_agent else clean node_agent_objects)
    ∷ (when f.apiserver_monitoring_enabled apiserver_monitor
        ++ (when f.etcd_monitoring_enabled etcd_monitor
            ++ (when f.scheduler_monitoring_enabled scheduler_monitor
                ++ ((if f.open_agent_enabled then ensure open_agent else clean open_agent_objects)
                    ∷ []))))

-- The end of Reconcile: the status of a successful installation, which is an action only if it was
-- written in the end.
unfoldable pub finish : Api → Outcome
finish api = elim api.status_failed [
  | none ↦ record { actions = write_status installed ∷ []; error = none; requeue_after = true }
  | some e ↦ record { actions = []; error = some e; requeue_after = false }
]

abbrev pub after : List Action → Outcome → Outcome
after actions o = record o { actions = actions ++ o.actions }

-- The steps one after another: a step that fails ends Reconcile with an event, a status and the
-- error; a cleanup that fails does not.
unfoldable pub run : Api → List Task → Outcome
run api [] = finish api
run api (ensure step ∷ ts) =
    let rest = run api ts in
    elim (api.install_failed step) [
      | none ↦ after (install step ∷ []) rest
      | some e ↦ record {
        actions = install step ∷ warn step ∷ write_status (install_failed e) ∷ [];
        error = some e;
        requeue_after = false;
      }
    ]
run api (clean os ∷ ts) = let rest = run api ts in after (delete_existing api os) rest

abbrev pub failing : String → List Action → Outcome
failing e actions = record { actions = actions; error = some e; requeue_after = false }

-- A resource that is being deleted.
unfoldable pub finalize : Api → Agent → Outcome
finalize api agent =
    let cleanup = if contains agent.finalizers whatap_finalizer then cleanup_agents api else [] in
    after cleanup
      (record { actions = remove_finalizer ∷ []; error = api.update_failed; requeue_after = false })

abbrev pub maintain : Api → Agent → Outcome
maintain api agent = after (write_status reconciling ∷ []) (run api (tasks agent.features))

unfoldable pub reconcile_agent : Api → Agent → Outcome
reconcile_agent api agent =
    if agent.is_deleted
    then finalize api agent
    else (if contains agent.finalizers whatap_finalizer
        then maintain api agent
        else elim api.update_failed [
          | none ↦ after (add_finalizer ∷ []) (maintain api agent)
          | some e ↦ failing e (add_finalizer ∷ [])
        ])

unfoldable pub reconcile_fetched : Api → Fetched → Outcome
reconcile_fetched api not_found = record { actions = []; error = none; requeue_after = false }
reconcile_fetched api (get_failed e) = failing e []
reconcile_fetched api (found agent) = reconcile_agent api agent

unfoldable pub reconcile : Api → Outcome
reconcile api = reconcile_fetched api api.fetched
