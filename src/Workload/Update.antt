-- ===== src/Workload/Update.antt =====
-- That the update of a pod template settles (internal/controller/install_agents.go: mergePodSpec and
-- the callbacks of createOrUpdateMasterAgent, reconcileNodeAgentDaemonSet and installOpenAgent).
use whatap_operator.Prelude.{
  String, Option, none, some, List, [], ◌∷◌, Dict, if◌then◌else◌, lookup, or_else, is_empty, ◌≡◌,
  refl, sym, ap, ◌∙◌,
}
use whatap_operator.Workload.{
  Container, Rules, SecurityContext, Template, fill_missing, merge_security_context, merge_template,
}
use whatap_operator.Workload.Maps.{lookup-fill_missing, find_container, IsRange}
use whatap_operator.Workload.Containers.{merge_containers_settles}

or_else_twice {ℓ} : {A : Type ℓ} → (a b : Option A) → or_else a (or_else a b) ≡ or_else a b
or_else_twice none b = refl
or_else_twice (some x) b = refl

or_else_self {ℓ} : {A : Type ℓ} → (a : Option A) → or_else a a ≡ a
or_else_self none = refl
or_else_self (some x) = refl

lookup-fill_missing_twice :
    (n : String) (wanted existing : Dict String)
    → lookup n (fill_missing wanted (fill_missing wanted existing))
      ≡ lookup n (fill_missing wanted existing)
lookup-fill_missing_twice n wanted existing =
    lookup-fill_missing n wanted (fill_missing wanted existing)
    ∙ ap (or_else (lookup n wanted)) (lookup-fill_missing n wanted existing)
    ∙ or_else_twice (lookup n wanted) (lookup n existing)
    ∙ sym (lookup-fill_missing n wanted existing)

merge_security_context_twice :
    (new old : Option SecurityContext)
    → merge_security_context new (merge_security_context new old) ≡ merge_security_context new old
unfolding merge_security_context
merge_security_context_twice none none = refl
merge_security_context_twice none (some old) = refl
merge_security_context_twice (some new) none =
    rw
      (
        or_else_self new.se_linux_options,
        or_else_self new.windows_options,
        or_else_self new.run_as_user,
        or_else_self new.run_as_group,
        or_else_self new.run_as_non_root,
        or_else_self new.supplemental_groups,
        or_else_self new.fs_group,
        or_else_self new.sysctls,
        or_else_self new.fs_group_change_policy,
        or_else_self new.seccomp_profile,
      )
      refl
merge_security_context_twice (some new) (some old) =
    rw
      (
        or_else_twice new.se_linux_options old.se_linux_options,
        or_else_twice new.windows_options old.windows_options,
        or_else_twice new.run_as_user old.run_as_user,
        or_else_twice new.run_as_group old.run_as_group,
        or_else_twice new.run_as_non_root old.run_as_non_root,
        or_else_twice new.supplemental_groups old.supplemental_groups,
        or_else_twice new.fs_group old.fs_group,
        or_else_twice new.sysctls old.sysctls,
        or_else_twice new.fs_group_change_policy old.fs_group_change_policy,
        or_else_twice new.seccomp_profile old.seccomp_profile,
      )
      refl

init_twice {ℓ} :
    {A : Type ℓ}
    → (wanted existing : List A)
    → let once = if is_empty existing then wanted else existing in
      (if is_empty once then wanted else once) ≡ once
init_twice [] [] = refl
init_twice (w ∷ ws) [] = refl
init_twice wanted (e ∷ es) = refl

-- An update of a workload that is there settles as a whole, whatever the order of a range over a
-- map: updating the result once more with the same wanted template gives the same labels under
-- every key, the same security context, by name the same containers, and the same init containers.
pub merge_template_settles :
    (rules : Rules) (order : Dict Container → List Container)
    → IsRange order
    → (wanted existing : Template) (n : String)
    → let once = merge_template rules order wanted (some existing) in
      let twice = merge_template rules order wanted (some once) in
      (lookup n twice.labels ≡ lookup n once.labels)
      × (twice.security_context ≡ once.security_context)
      × (find_container n twice.containers ≡ find_container n once.containers)
      × (twice.init_containers ≡ once.init_containers)
unfolding merge_template
merge_template_settles rules order range wanted existing n = (
  lookup-fill_missing_twice n wanted.labels existing.labels,
  merge_security_context_twice wanted.security_context existing.security_context,
  merge_containers_settles rules order range wanted.containers existing.containers n,
  init_twice wanted.init_containers existing.init_containers,
)
