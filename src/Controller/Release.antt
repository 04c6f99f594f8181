-- ===== src/Controller/Release.antt =====
-- The run of Reconcile for a resource that is being deleted
-- (internal/controller/whatapagent_controller.go).
use whatap_operator.Prelude.{
  Bool, true, false, [], ◌∷◌, ◌++◌, if◌then◌else◌, contains, ◌||◌, any, ◌≡◌, refl, arith, ap, ◌∙◌,
  Bool-cases, inl, inr,
}
use whatap_operator.Controller.{
  cleanup_agents, webhook_deletions, Action, remove_finalizer, Agent, found, Api, delete_existing,
  finalize, reconcile, whatap_finalizer, master_agent_objects, node_agent_objects,
  open_agent_objects,
}
use whatap_operator.Controller.Progress.{
  any-append, no_deletion, is_install, is_release, reconcile-found, reconcile_agent-deleted,
}

pub any-cleanup_agents :
    (p : Action → Bool) (api : Api)
    → any p (cleanup_agents api) ≡ (
        any p (delete_existing api master_agent_objects)
        || (any p (delete_existing api node_agent_objects)
            || (any p (delete_existing api open_agent_objects) || any p webhook_deletions)))
unfolding cleanup_agents
any-cleanup_agents p api =
    let m = delete_existing api master_agent_objects in
    let n = delete_existing api node_agent_objects in
    let o = delete_existing api open_agent_objects in
    any-append p m (n ++ (o ++ webhook_deletions))
    ∙ ap (λ b. any p m || b)
        (any-append p n (o ++ webhook_deletions)
          ∙ ap (λ b. any p n || b) (any-append p o webhook_deletions))

no_install : (api : Api) → any is_install (cleanup_agents api) ≡ false
no_install api = ground (
  arith,
  any-cleanup_agents is_install api,
  no_deletion is_install api (λ o. refl) master_agent_objects,
  no_deletion is_install api (λ o. refl) node_agent_objects,
  no_deletion is_install api (λ o. refl) open_agent_objects,
)

-- For a resource that is being deleted: however the cleanup ends, Reconcile asks for the finalizer
-- to be removed, installs nothing, does not ask for another run, and returns exactly the error of
-- the removal.
pub reconcile_releases :
    (api : Api) (agent : Agent)
    → api.fetched ≡ found agent
    → agent.is_deleted ≡ true
    → (any is_release (reconcile api).actions ≡ true)
      × (any is_install (reconcile api).actions ≡ false)
      × ((reconcile api).requeue_after ≡ false)
      × ((reconcile api).error ≡ api.update_failed)
unfolding finalize
reconcile_releases api agent h d =
    let own = contains agent.finalizers whatap_finalizer in
    let cleanup = if own then cleanup_agents api else [] in
    rw (reconcile-found api agent h, reconcile_agent-deleted api agent d)
      (
        ground (arith, any-append is_release cleanup (remove_finalizer ∷ [])),
        any-append is_install cleanup (remove_finalizer ∷ []) ∙ (elim (Bool-cases own) [
          | inl e ↦ rw e (ground (arith, no_install api))
          | inr e ↦ rw e
        ]),
        refl,
        refl,
      )
