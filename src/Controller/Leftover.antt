-- ===== src/Controller/Leftover.antt =====
-- What the cleanups of Reconcile leave behind (internal/controller/whatapagent_controller.go).
use whatap_operator.Prelude.{
  Bool, true, false, List, [], ◌∷◌, if◌then◌else◌, contains, ◌==◌, any, ◌≡◌, refl, arith, ◌∙◌,
  Option-cases, Bool-cases, inl, inr, All, All-append,
}
use whatap_operator.Controller.{
  Object, daemon_set, cleanup_agents, reconcile_fetched, Step, Action, delete, remove_finalizer,
  Agent, found, get_failed, not_found, Api, Fetched, Task, ensure, clean, delete_existing, tasks,
  finish, run, finalize, maintain, reconcile_agent, reconcile, whatap_finalizer, when, Features,
  master_agent_objects, node_agent_objects, open_agent_objects,
}
use whatap_operator.Controller.Progress.{
  any-append, any-delete_existing, reconcile_agent-guarded, reconcile_agent-fresh,
  reconcile_agent-refused, reconcile_agent-deleted,
}
use whatap_operator.Controller.Release.{any-cleanup_agents}

-- Deletions that a run asks for.
abbrev pub deletes_gpu_agent : Action → Bool
deletes_gpu_agent (delete (daemon_set name)) = name == "whatap-node-agent-gpu"
deletes_gpu_agent _ = false

no_deletion_of_gpu_agent : (api : Api) → any deletes_gpu_agent (cleanup_agents api) ≡ false
no_deletion_of_gpu_agent api = ground (
  arith,
  any-cleanup_agents deletes_gpu_agent api,
  any-delete_existing deletes_gpu_agent api master_agent_objects (refl, tt),
  any-delete_existing deletes_gpu_agent api node_agent_objects (refl, tt),
  any-delete_existing deletes_gpu_agent api open_agent_objects
      (refl, (refl, (refl, (refl, (refl, tt))))),
)

-- A task whose own deletions are not of the GPU agent.
abbrev Spares : Task → Type 0
Spares (ensure step) = Unit
Spares (clean os) = All (λ o. deletes_gpu_agent (delete o) ≡ false) os

run-Spares :
    (api : Api) (ts : List Task)
    → All Spares ts
    → any deletes_gpu_agent (run api ts).actions ≡ false
unfolding run finish
run-Spares api [] h = elim (Option-cases api.status_failed) [ inl e ↦ rw e | inr (m, e) ↦ rw e ]
run-Spares api (ensure step ∷ ts) h = elim (Option-cases (api.install_failed step)) [
  | inl e ↦ rw (e, run) (run-Spares api ts h.1)
  | inr (m, e) ↦ rw (e, run)
]
run-Spares api (clean os ∷ ts) h =
    any-append deletes_gpu_agent (delete_existing api os) (run api ts).actions
    ∙ ground (arith, any-delete_existing deletes_gpu_agent api os h.0, run-Spares api ts h.1)

Spares-if :
    (b : Bool) (step : Step) (os : List Object)
    → All (λ o. deletes_gpu_agent (delete o) ≡ false) os
    → Spares (if b then ensure step else clean os)
Spares-if true step os h = tt
Spares-if false step os h = h

Spares-when : (b : Bool) (step : Step) → All Spares (when b step)
Spares-when true step = (tt, tt)
Spares-when false step = tt

tasks_spare : (f : Features) → All Spares (tasks f)
unfolding tasks
tasks_spare f =
    let optional = All-append Spares _ _ (Spares-when f.apiserver_monitoring_enabled _) (
      All-append Spares _ _ (Spares-when f.etcd_monitoring_enabled _) (
        All-append Spares _ _ (Spares-when f.scheduler_monitoring_enabled _) (
          Spares-if f.open_agent_enabled _ open_agent_objects
              (refl, (refl, (refl, (refl, (refl, tt))))),
          tt,
        ))) in
    (
      tt,
      (
        tt,
        (
          tt,
          (
            Spares-if f.master_agent_enabled _ master_agent_objects (refl, tt),
            (Spares-if f.node_agent_enabled _ node_agent_objects (refl, tt), optional),
          ),
        ),
      ),
    )

module _ (api : Api) where
  maintain_spares : (agent : Agent) → any deletes_gpu_agent (maintain api agent).actions ≡ false
  maintain_spares agent = run-Spares api (tasks agent.features) (tasks_spare agent.features)

  agent_spares : (agent : Agent) → any deletes_gpu_agent (reconcile_agent api agent).actions ≡ false
  unfolding finalize
  agent_spares agent =
      let own = contains agent.finalizers whatap_finalizer in
      elim (Bool-cases agent.is_deleted) [
        | inl d ↦ rw (reconcile_agent-deleted api agent d) (
            any-append deletes_gpu_agent (if own then cleanup_agents api else [])
              (remove_finalizer ∷ [])
            ∙ (elim (Bool-cases own) [
              | inl e ↦ rw e (ground (arith, no_deletion_of_gpu_agent api))
              | inr e ↦ rw e
            ]))
        | inr d ↦ elim (Bool-cases own) [
          | inl e ↦ rw (reconcile_agent-guarded api agent d e) (maintain_spares agent)
          | inr e ↦ elim (Option-cases api.update_failed) [
            | inl u ↦ rw (reconcile_agent-fresh api agent d e u) (maintain_spares agent)
            | inr (m, u) ↦ rw (reconcile_agent-refused api agent m d e u)
          ]
        ]
      ]

  fetched_spares : (f : Fetched) → any deletes_gpu_agent (reconcile_fetched api f).actions ≡ false
  unfolding reconcile_fetched
  fetched_spares not_found = refl
  fetched_spares (get_failed e) = refl
  fetched_spares (found agent) = agent_spares agent

-- Whatever the resource and however the calls end, Reconcile's cleanups never delete the DaemonSet
-- "whatap-node-agent-gpu", which the GPU mode of the node agent creates.
pub gpu_agent_kept : (api : Api) → any deletes_gpu_agent (reconcile api).actions ≡ false
unfolding reconcile
gpu_agent_kept api = fetched_spares api api.fetched
