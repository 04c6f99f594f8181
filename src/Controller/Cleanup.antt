-- ===== src/Controller/Cleanup.antt =====
-- The cleanup of disabled agents in a run of Reconcile
-- (internal/controller/whatapagent_controller.go).
use whatap_operator.Prelude.{
  String, Bool, true, false, Option, none, some, List, [], ◌∷◌, ◌++◌, if◌then◌else◌, contains, ◌≡◌,
  refl, arith, ap, ◌∙◌, sym, Option-cases, Bool-cases, inl, inr, ◌⊎◌, All,
}
use mathlib.Core.Path.{subst}
use whatap_operator.Controller.{
  Object, Features, Step, Action, delete, install, Agent, found, Api, Task, ensure, clean,
  delete_existing, tasks, run, reconcile, whatap_finalizer, after, when, master_agent_objects,
  node_agent_objects, open_agent_objects,
}
use whatap_operator.Controller.Progress.{
  reconcile-found, reconcile_agent-guarded, reconcile_agent-fresh, reconcile_agent-refused,
}

-- An element of a list.
abbrev pub Within : {A : Type 0} → A → List A → Type 0
Within a [] = ⊥
Within a (x ∷ xs) = (x ≡ a) ⊎ Within a xs

Within-append_left : {A : Type 0} (a : A) (xs ys : List A) → Within a xs → Within a (xs ++ ys)
Within-append_left a [] ys h = absurd h
Within-append_left a (x ∷ xs) ys (inl e) = inl e
Within-append_left a (x ∷ xs) ys (inr h) = inr (Within-append_left a xs ys h)

Within-append_right : {A : Type 0} (a : A) (xs ys : List A) → Within a ys → Within a (xs ++ ys)
Within-append_right a [] ys h = h
Within-append_right a (x ∷ xs) ys h = inr (Within-append_right a xs ys h)

-- The agents that are disabled, with the objects that then are to be cleaned up.
pub data Disabled (f : Features) : List Object → Type 0 where
  no_master_agent : f.master_agent_enabled ≡ false → Disabled f master_agent_objects
  no_node_agent : f.node_agent_enabled ≡ false → Disabled f node_agent_objects
  no_open_agent : f.open_agent_enabled ≡ false → Disabled f open_agent_objects

clean_of :
    (b : Bool) (step : Step) (os : List Object)
    → b ≡ false
    → (if b then ensure step else clean os) ≡ clean os
clean_of true step os h = absurd (ground arith)
clean_of false step os h = refl

tasks_clean : (f : Features) (os : List Object) → Disabled f os → Within (clean os) (tasks f)
unfolding tasks
tasks_clean f _ (no_master_agent h) = inr (inr (inr (inl (clean_of f.master_agent_enabled _ _ h))))
tasks_clean f _ (no_node_agent h) =
    inr (inr (inr (inr (inl (clean_of f.node_agent_enabled _ _ h)))))
tasks_clean f _ (no_open_agent h) = inr (
    inr (
      inr (
        inr (
          inr (
            Within-append_right _ (when f.apiserver_monitoring_enabled _) _ (
              Within-append_right _ (when f.etcd_monitoring_enabled _) _ (
                Within-append_right _ (when f.scheduler_monitoring_enabled _) _
                  (inl (clean_of f.open_agent_enabled _ _ h)))))))))

-- If no deletion of the objects fails, each that exists is deleted.
delete_existing-Within :
    (api : Api) (os : List Object) (o : Object)
    → All (λ x. api.delete_failed x ≡ false) os
    → Within o os
    → api.exists o ≡ true
    → Within (delete o) (delete_existing api os)
unfolding delete_existing
delete_existing-Within api [] o d h e = absurd h
delete_existing-Within api (x ∷ os) o d (inl p) e =
    rw (ap (λ x. api.exists x) p ∙ e, d.0) (inl (ap delete p))
delete_existing-Within api (x ∷ os) o d (inr h) e = elim (Bool-cases (api.exists x)) [
  | inl p ↦ rw (p, d.0) (inr (delete_existing-Within api os o d.1 h e))
  | inr p ↦ rw p (delete_existing-Within api os o d.1 h e)
]

run_ensure :
    (api : Api) (step : Step) (ts : List Task)
    → api.install_failed step ≡ none
    → run api (ensure step ∷ ts) ≡ after (install step ∷ []) (run api ts)
unfolding run
run_ensure api step ts e = rw (e, run)

abbrev IsEnsure : Task → Type 0
IsEnsure (ensure step) = Unit
IsEnsure (clean os) = ⊥

abbrev cleaned : Task → List Object
cleaned (ensure step) = []
cleaned (clean os) = os

run_cleans :
    (api : Api) (ts : List Task) (os : List Object) (a : Action)
    → Within (clean os) ts
    → Within a (delete_existing api os)
    → (run api ts).error ≡ none
    → Within a (run api ts).actions
unfolding run
run_cleans api [] os a w d h = absurd w
run_cleans api (ensure step ∷ ts) os a (inl p) d h = absurd (subst IsEnsure p tt)
run_cleans api (ensure step ∷ ts) os a (inr w) d h = elim (Option-cases (api.install_failed step)) [
  | inl e ↦
      let p = run_ensure api step ts e in
      subst (λ r. Within a r.actions) (sym p)
        (inr (run_cleans api ts os a w d (sym (ap (λ r. r.error) p) ∙ h)))
  | inr (m, e) ↦ absurd (ground arith)
]
run_cleans api (clean xs ∷ ts) os a (inl p) d h =
    Within-append_left a (delete_existing api xs) (run api ts).actions
      (subst (λ x. Within a (delete_existing api (cleaned x))) (sym p) d)
run_cleans api (clean xs ∷ ts) os a (inr w) d h =
    Within-append_right a (delete_existing api xs) (run api ts).actions
      (run_cleans api ts os a w d h)

abbrev IsSome : Option String → Type 0
IsSome none = ⊥
IsSome (some a) = Unit

-- Where the resource is maintained, Reconcile's actions contain those of its tasks, and its error
-- is that of the tasks.
maintained :
    (api : Api) (agent : Agent) (a : Action)
    → api.fetched ≡ found agent
    → agent.is_deleted ≡ false
    → (reconcile api).error ≡ none
    → ((run api (tasks agent.features)).error ≡ none
        → Within a (run api (tasks agent.features)).actions)
    → Within a (reconcile api).actions
maintained api agent a h d e within =
    let r = reconcile-found api agent h in
    elim (Bool-cases (contains agent.finalizers whatap_finalizer)) [
      | inl g ↦
          let p = r ∙ reconcile_agent-guarded api agent d g in
          subst (λ o. Within a o.actions) (sym p) (inr (within (sym (ap (λ o. o.error) p) ∙ e)))
      | inr g ↦ elim (Option-cases api.update_failed) [
        | inl u ↦
            let p = r ∙ reconcile_agent-fresh api agent d g u in
            subst (λ o. Within a o.actions) (sym p)
              (inr (inr (within (sym (ap (λ o. o.error) p) ∙ e))))
        | inr (m, u) ↦
            let p = r ∙ reconcile_agent-refused api agent m d g u in
            absurd (subst IsSome (sym (ap (λ o. o.error) p) ∙ e) tt)
      ]
    ]

-- For a resource that is found and not being deleted: if Reconcile returns no error, then of every
-- agent that is disabled (master agent, node agent, open agent) each listed object that exists is
-- deleted, provided that the deletions of that agent's objects do not fail.
pub unused_agents_removed :
    (api : Api) (agent : Agent) (os : List Object) (o : Object)
    → api.fetched ≡ found agent
    → agent.is_deleted ≡ false
    → (reconcile api).error ≡ none
    → Disabled agent.features os
    → Within o os
    → api.exists o ≡ true
    → All (λ x. api.delete_failed x ≡ false) os
    → Within (delete o) (reconcile api).actions
unused_agents_removed api agent os o h d e disabled w there d_ok =
    maintained api agent (delete o) h d e (
      run_cleans api (tasks agent.features) os (delete o) (tasks_clean agent.features os disabled)
        (delete_existing-Within api os o d_ok w there))
