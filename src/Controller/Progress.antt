-- ===== src/Controller/Progress.antt =====
-- What a run of Reconcile achieves (internal/controller/whatapagent_controller.go).
use whatap_operator.Prelude.{
  String, Bool, true, false, none, some, List, [], ◌∷◌, ◌++◌, contains, not, ◌&&◌, ◌||◌, any, all,
  is_some, ◌≡◌, refl, arith, ap, ◌∙◌, sym, Option-cases, Bool-cases, inl, inr, All, and_parts,
  append_assoc,
}
use whatap_operator.Controller.{
  Object, failing, reconcile_fetched, Step, Action, delete, remove_finalizer, add_finalizer,
  install, warn, write_status, installed, install_failed, Agent, found, Api, Task, ensure, clean,
  delete_existing, tasks, finish, run, finalize, maintain, reconcile_agent, reconcile,
  whatap_finalizer, after,
}

pub any-append :
    (p : Action → Bool) (xs ys : List Action) → any p (xs ++ ys) ≡ (any p xs || any p ys)
any-append p [] ys = refl
any-append p (x ∷ xs) ys = ground (arith, any-append p xs ys)

abbrev pub is_available : Action → Bool
is_available (write_status installed) = true
is_available _ = false

abbrev pub is_install : Action → Bool
is_install (install step) = true
is_install _ = false

abbrev pub is_release : Action → Bool
is_release remove_finalizer = true
is_release _ = false

-- A test that every deletion passes or fails alike, for all objects of a list.
pub any-delete_existing :
    (p : Action → Bool) (api : Api) (os : List Object)
    → All (λ o. p (delete o) ≡ false) os
    → any p (delete_existing api os) ≡ false
unfolding delete_existing
any-delete_existing p api [] h = refl
any-delete_existing p api (o ∷ os) h = elim (Bool-cases (api.exists o)) [
  | inl e ↦ elim (Bool-cases (api.delete_failed o)) [
    | inl f ↦ rw (e, f) (ground (arith, h.0))
    | inr f ↦ rw (e, f) (ground (arith, h.0, any-delete_existing p api os h.1))
  ]
  | inr e ↦ rw e (any-delete_existing p api os h.1)
]

module _ (p : Action → Bool) (api : Api) (never : (o : Object) → p (delete o) ≡ false) where
  any_never : (os : List Object) → All (λ o. p (delete o) ≡ false) os
  any_never [] = tt
  any_never (o ∷ os) = (never o, any_never os)

  pub no_deletion : (os : List Object) → any p (delete_existing api os) ≡ false
  no_deletion os = any-delete_existing p api os (any_never os)

abbrev pub succeeds : Api → Task → Bool
succeeds api (ensure step) = not (is_some (api.install_failed step))
succeeds api (clean os) = true

module _ (api : Api) where
  run_available :
      (ts : List Task)
      → any is_available (run api ts).actions
        ≡ (all (succeeds api) ts && not (is_some api.status_failed))
  unfolding run finish
  run_available [] = elim (Option-cases api.status_failed) [ inl e ↦ rw e | inr (m, e) ↦ rw e ]
  run_available (ensure step ∷ ts) = elim (Option-cases (api.install_failed step)) [
    | inl e ↦ rw (e, run) (run_available ts)
    | inr (m, e) ↦ rw (e, run)
  ]
  run_available (clean os ∷ ts) =
      any-append is_available (delete_existing api os) (run api ts).actions
      ∙ ground (arith, no_deletion is_available api (λ o. refl) os, run_available ts)

  run_error :
      (ts : List Task) → is_some (run api ts).error ≡ not (any is_available (run api ts).actions)
  unfolding run finish
  run_error [] = elim (Option-cases api.status_failed) [ inl e ↦ rw e | inr (m, e) ↦ rw e ]
  run_error (ensure step ∷ ts) = elim (Option-cases (api.install_failed step)) [
    | inl e ↦ rw (e, run) (run_error ts)
    | inr (m, e) ↦ rw (e, run)
  ]
  run_error (clean os ∷ ts) =
      run_error ts
      ∙ ground (
        arith,
        any-append is_available (delete_existing api os) (run api ts).actions,
        no_deletion is_available api (λ o. refl) os,
      )

  run_requeue : (ts : List Task) → (run api ts).requeue_after ≡ not (is_some (run api ts).error)
  unfolding run finish
  run_requeue [] = elim (Option-cases api.status_failed) [ inl e ↦ rw e | inr (m, e) ↦ rw e ]
  run_requeue (ensure step ∷ ts) = elim (Option-cases (api.install_failed step)) [
    | inl e ↦ rw (e, run) (run_requeue ts)
    | inr (m, e) ↦ rw (e, run)
  ]
  run_requeue (clean os ∷ ts) = run_requeue ts

-- Whether the resource may keep its finalizer, or gets it.
abbrev pub is_guarded : Api → Agent → Bool
is_guarded api agent = contains agent.finalizers whatap_finalizer || not (is_some api.update_failed)

pub reconcile-found :
    (api : Api) (agent : Agent)
    → api.fetched ≡ found agent
    → reconcile api ≡ reconcile_agent api agent
unfolding reconcile reconcile_fetched
reconcile-found api agent h = ap (reconcile_fetched api) h

pub reconcile_agent-guarded :
    (api : Api) (agent : Agent)
    → agent.is_deleted ≡ false
    → contains agent.finalizers whatap_finalizer ≡ true
    → reconcile_agent api agent ≡ maintain api agent
unfolding reconcile_agent
reconcile_agent-guarded api agent d e = simp (d, e)

pub reconcile_agent-fresh :
    (api : Api) (agent : Agent)
    → agent.is_deleted ≡ false
    → contains agent.finalizers whatap_finalizer ≡ false
    → api.update_failed ≡ none
    → reconcile_agent api agent ≡ after (add_finalizer ∷ []) (maintain api agent)
unfolding reconcile_agent
reconcile_agent-fresh api agent d e u = simp (d, e, u)

pub reconcile_agent-refused :
    (api : Api) (agent : Agent) (m : String)
    → agent.is_deleted ≡ false
    → contains agent.finalizers whatap_finalizer ≡ false
    → api.update_failed ≡ some m
    → reconcile_agent api agent ≡ failing m (add_finalizer ∷ [])
unfolding reconcile_agent
reconcile_agent-refused api agent m d e u = simp (d, e, u)

pub reconcile_agent-deleted :
    (api : Api) (agent : Agent)
    → agent.is_deleted ≡ true
    → reconcile_agent api agent ≡ finalize api agent
unfolding reconcile_agent
reconcile_agent-deleted api agent d = simp d

-- For a resource that is found and not being deleted: Reconcile writes the status "installed"
-- exactly if the finalizer is there or could be added, every step that is due succeeded and the
-- status could be written; it returns an error exactly if it does not write that status; and it
-- asks for the next periodic run exactly if it returns no error.
pub reconcile_available_iff :
    (api : Api) (agent : Agent)
    → api.fetched ≡ found agent
    → agent.is_deleted ≡ false
    → (any is_available (reconcile api).actions ≡ (
        is_guarded api agent
        && (all (succeeds api) (tasks agent.features) && not (is_some api.status_failed))))
      × (is_some (reconcile api).error ≡ not (any is_available (reconcile api).actions))
      × ((reconcile api).requeue_after ≡ not (is_some (reconcile api).error))
reconcile_available_iff api agent h d =
    let available = run_available api (tasks agent.features) in
    let error = run_error api (tasks agent.features) in
    let requeue = run_requeue api (tasks agent.features) in
    elim (Bool-cases (contains agent.finalizers whatap_finalizer)) [
      | inl e ↦
          rw (reconcile-found api agent h, reconcile_agent-guarded api agent d e)
            (ground (arith, e, available), error, requeue)
      | inr e ↦ elim (Option-cases api.update_failed) [
        | inl u ↦
            rw (reconcile-found api agent h, reconcile_agent-fresh api agent d e u)
              (ground (arith, u, available), error, requeue)
        | inr (m, u) ↦
            rw (reconcile-found api agent h, reconcile_agent-refused api agent m d e u)
              (ground (arith, e, u), refl, refl)
      ]
    ]

-- A step that fails ends the run: if the tasks before it succeed, what comes after it makes no
-- difference, the step's error is returned, and the last thing written is a status with this error.
pub run_stops :
    (api : Api) (ts us : List Task) (step : Step) (e : String)
    → all (succeeds api) ts ≡ true
    → api.install_failed step ≡ some e
    → (run api (ts ++ ensure step ∷ us) ≡ run api (ts ++ ensure step ∷ []))
      × ((run api (ts ++ ensure step ∷ us)).error ≡ some e)
      × ((written : List Action) × ((run api (ts ++ ensure step ∷ us)).actions
            ≡ written ++ write_status (install_failed e) ∷ []))
unfolding run
run_stops api [] us step e h f = rw f (refl, refl, (install step ∷ warn step ∷ [], refl))
run_stops api (ensure s ∷ ts) us step e h f =
    let m = and_parts h in
    let (same, error, (written, eq)) = run_stops api ts us step e m.1 f in
    elim (Option-cases (api.install_failed s)) [
      | inl p ↦
          rw (p, run)
            (
              ap (after (install s ∷ [])) same,
              error,
              (install s ∷ written, ap (λ x. install s ∷ x) eq),
            )
      | inr (q, p) ↦ absurd (ground arith)
    ]
run_stops api (clean os ∷ ts) us step e h f =
    let (same, error, (written, eq)) = run_stops api ts us step e h f in
    (
      ap (after (delete_existing api os)) same,
      error,
      (
        delete_existing api os ++ written,
        ap (λ x. delete_existing api os ++ x) eq
            ∙ sym (
                append_assoc (delete_existing api os) written
                  (write_status (install_failed e) ∷ [])),
      ),
    )
