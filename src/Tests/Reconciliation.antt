-- ===== src/Tests/Reconciliation.antt =====
-- Reconcile (internal/controller/whatapagent_controller.go) on a sample resource.
use whatap_operator.Prelude.{
  String, true, false, none, some, Option, List, [], ◌∷◌, ◌++◌, ◌≡◌, refl, any, all, not, ◌&&◌,
  is_some, inl,
}
use whatap_operator.Controller.{
  Step, node_agent, webhook_service, open_agent, Action, write_status, install_failed, delete,
  deployment, Features, Agent, found, Api, Task, ensure, clean, tasks, run, reconcile,
  whatap_finalizer, master_agent_objects, reconcile_fetched, reconcile_agent, finish,
}
use whatap_operator.Controller.Progress.{
  is_available, is_install, is_release, succeeds, is_guarded, reconcile_available_iff, run_stops,
}
use whatap_operator.Controller.Release.{reconcile_releases}
use whatap_operator.Controller.Leftover.{deletes_gpu_agent, gpu_agent_kept}
use whatap_operator.Controller.Cleanup.{Within, no_master_agent, unused_agents_removed}

-- The master agent is disabled.
abbrev features : Features
features = record {
  master_agent_enabled = false;
  node_agent_enabled = true;
  apiserver_monitoring_enabled = true;
  etcd_monitoring_enabled = false;
  scheduler_monitoring_enabled = false;
  open_agent_enabled = true;
}

abbrev resource : Agent
resource = record { is_deleted = false; finalizers = []; features = features }

-- A cluster where everything exists and all calls succeed.
abbrev api : Api
api = record {
  fetched = found resource;
  update_failed = none;
  install_failed = λ step. none;
  exists = λ o. true;
  delete_failed = λ o. false;
  status_failed = none;
}

abbrev deleted_resource : Agent
deleted_resource = record resource { is_deleted = true; finalizers = whatap_finalizer ∷ [] }

abbrev deleting_api : Api
deleting_api = record api { fetched = found deleted_resource; delete_failed = λ o. true }

abbrev refusals : Step → Option String
refusals node_agent = some "quota"
refusals step = none

-- The DaemonSet of the node agent is refused.
abbrev refusing_api : Api
refusing_api = record api { install_failed = refusals }

reconcile_available_iff_example :
    (any is_available (reconcile api).actions ≡ (
      is_guarded api resource
      && (all (succeeds api) (tasks resource.features) && not (is_some api.status_failed))))
    × (is_some (reconcile api).error ≡ not (any is_available (reconcile api).actions))
    × ((reconcile api).requeue_after ≡ not (is_some (reconcile api).error))
reconcile_available_iff_example = reconcile_available_iff api resource refl refl

reconcile_releases_example :
    (any is_release (reconcile deleting_api).actions ≡ true)
    × (any is_install (reconcile deleting_api).actions ≡ false)
    × ((reconcile deleting_api).requeue_after ≡ false)
    × ((reconcile deleting_api).error ≡ deleting_api.update_failed)
reconcile_releases_example = reconcile_releases deleting_api deleted_resource refl refl

abbrev before : List Task
before = ensure webhook_service ∷ clean master_agent_objects ∷ []

abbrev behind : List Task
behind = ensure open_agent ∷ []

run_stops_example :
    (run refusing_api (before ++ ensure node_agent ∷ behind)
      ≡ run refusing_api (before ++ ensure node_agent ∷ []))
    × ((run refusing_api (before ++ ensure node_agent ∷ behind)).error ≡ some "quota")
    × ((written : List Action) × ((run refusing_api (before ++ ensure node_agent ∷ behind)).actions
          ≡ written ++ write_status (install_failed "quota") ∷ []))
run_stops_example = run_stops refusing_api before behind node_agent "quota" refl refl

gpu_agent_kept_example : any deletes_gpu_agent (reconcile deleting_api).actions ≡ false
gpu_agent_kept_example = gpu_agent_kept deleting_api

reconcile_error : (reconcile api).error ≡ none
unfolding reconcile reconcile_fetched reconcile_agent run tasks finish
reconcile_error = refl

unused_agents_removed_example :
    Within (delete (deployment "whatap-master-agent")) (reconcile api).actions
unused_agents_removed_example =
    unused_agents_removed api resource master_agent_objects (deployment "whatap-master-agent") refl
      refl reconcile_error (no_master_agent refl) (inl refl) refl (refl, tt)
