-- ===== src/Workload/Containers.antt =====
-- What the merging of pod templates keeps and replaces (internal/controller/install_agents.go).
use whatap_operator.Prelude.{
  String, true, false, Option, none, some, List, [], ◌∷◌, Dict, if◌then◌else◌, lookup, or_else,
  contains, ◌==◌, ◌≡◌, refl, sym, ap, ◌∙◌, arith, Option-cases, Bool-cases, inl, inr, eq_iff,
}
use whatap_operator.Workload.{
  Container, Rules, remove, by_name, updated, keep_existing, merge_containers,
}
use whatap_operator.Workload.Maps.{
  find_container, find_container-append, IsKeyed, IsGoMap, IsRange, lookup-remove, IsKeyed-remove,
  name_of_lookup, IsDistinct-remove, IsGoMap-by_name,
}

module _ (rules : Rules) where
  -- What a merge has under a name: a wanted container, with the resources of the existing one
  -- where these are kept; else the existing one unless the operator manages the name.
  unfoldable pub merged : Option Container → Option Container → String → Option Container
  merged (some new) (some existing) n = some (updated rules new existing)
  merged (some new) none n = some new
  merged none existing n = if contains rules.managed n then none else existing

  pub IsGoMap-keep_existing :
      (new : Dict Container) (es : List Container)
      → IsGoMap new
      → IsGoMap (keep_existing rules new es).1
  unfolding keep_existing
  IsGoMap-keep_existing new [] h = h
  IsGoMap-keep_existing new (e ∷ es) h = elim (Option-cases (lookup e.name new)) [
    | inl p ↦ elim (Bool-cases (contains rules.managed e.name)) [
      | inl q ↦ rw (p, q, keep_existing) (IsGoMap-keep_existing new es h)
      | inr q ↦ rw (p, q, keep_existing) (IsGoMap-keep_existing new es h)
    ]
    | inr (c, p) ↦
        rw (p, keep_existing)
          (IsGoMap-keep_existing (remove e.name new) es
            (IsKeyed-remove e.name new h.0, IsDistinct-remove e.name new h.1))
  ]

  merged-none : (new : Option Container) (n : String) → new ≡ merged new none n
  unfolding merged
  merged-none none n = ground arith
  merged-none (some c) n = refl

  -- The steps of the loop.
  pub updated_step :
      (new : Dict Container) (e : Container) (es : List Container) (c : Container)
      → lookup e.name new ≡ some c
      → keep_existing rules new (e ∷ es) ≡ (
        updated rules c e ∷ (keep_existing rules (remove e.name new) es).0,
        (keep_existing rules (remove e.name new) es).1,
      )
  unfolding keep_existing
  updated_step new e es c p = rw (p, keep_existing)

  pub dropped_step :
      (new : Dict Container) (e : Container) (es : List Container)
      → lookup e.name new ≡ none
      → contains rules.managed e.name ≡ true
      → keep_existing rules new (e ∷ es) ≡ keep_existing rules new es
  unfolding keep_existing
  dropped_step new e es p q = rw (p, q, keep_existing)

  pub kept_step :
      (new : Dict Container) (e : Container) (es : List Container)
      → lookup e.name new ≡ none
      → contains rules.managed e.name ≡ false
      → keep_existing rules new (e ∷ es)
        ≡ (e ∷ (keep_existing rules new es).0, (keep_existing rules new es).1)
  unfolding keep_existing
  kept_step new e es p q = rw (p, q, keep_existing)

  pub updated_name : (c e : Container) → (updated rules c e).name ≡ c.name
  updated_name c e = elim (Bool-cases (rules.keeps_resources c.name)) [
    | inl h ↦ rw h
    | inr h ↦ rw h
  ]

  merged_both :
      (c e : Container) (n : String) → some (updated rules c e) ≡ merged (some c) (some e) n
  unfolding merged
  merged_both c e n = refl

  found_step :
      (new : Dict Container) (e : Container) (es : List Container) (n : String) (c : Container)
      → IsKeyed new
      → lookup e.name new ≡ some c
      → or_else
          (find_container n (keep_existing rules (remove e.name new) es).0)
          (lookup n (keep_existing rules (remove e.name new) es).1)
        ≡ merged (lookup n (remove e.name new)) (find_container n es) n
      → or_else
          (find_container n (updated rules c e ∷ (keep_existing rules (remove e.name new) es).0))
          (lookup n (keep_existing rules (remove e.name new) es).1)
        ≡ merged (lookup n new) (find_container n (e ∷ es)) n
  unfolding find_container
  found_step new e es n c h p ih =
      let name = updated_name c e ∙ name_of_lookup e.name new c h p in
      elim (Bool-cases (e.name == n)) [
        | inl q ↦
            let same = (eq_iff e.name n).0 q in
            rw (ap (λ x. x == n) name ∙ q, q, ap (λ x. lookup x new) (sym same) ∙ p)
              (merged_both c e n)
        | inr q ↦
            rw (ap (λ x. x == n) name ∙ q, q)
              (ih ∙ ap (λ x. merged x (find_container n es) n) (lookup-remove e.name n new ∙ rw q))
      ]

  missing :
      (new : Dict Container) (e : Container) (es : List Container) (n : String)
      → lookup e.name new ≡ none
      → contains rules.managed e.name ≡ true
      → merged (lookup n new) (find_container n es) n
        ≡ merged (lookup n new) (find_container n (e ∷ es)) n
  unfolding find_container merged
  missing new e es n p q = elim (Bool-cases (e.name == n)) [
    | inl k ↦
        let same = (eq_iff e.name n).0 k in
        rw (k, ap (λ x. lookup x new) (sym same) ∙ p, ap (contains rules.managed) (sym same) ∙ q)
    | inr k ↦ rw k
  ]

  sidecar :
      (new : Dict Container) (e : Container) (es : List Container) (n : String)
      → lookup e.name new ≡ none
      → contains rules.managed e.name ≡ false
      → or_else
          (find_container n (keep_existing rules new es).0)
          (lookup n (keep_existing rules new es).1)
        ≡ merged (lookup n new) (find_container n es) n
      → or_else
          (find_container n (e ∷ (keep_existing rules new es).0))
          (lookup n (keep_existing rules new es).1)
        ≡ merged (lookup n new) (find_container n (e ∷ es)) n
  unfolding find_container merged
  sidecar new e es n p q ih = elim (Bool-cases (e.name == n)) [
    | inl k ↦
        let same = (eq_iff e.name n).0 k in
        rw (k, ap (λ x. lookup x new) (sym same) ∙ p, ap (contains rules.managed) (sym same) ∙ q)
    | inr k ↦ rw k ih
  ]

  find_container-keep_existing :
      (new : Dict Container) (es : List Container) (n : String)
      → IsKeyed new
      → or_else
          (find_container n (keep_existing rules new es).0)
          (lookup n (keep_existing rules new es).1)
        ≡ merged (lookup n new) (find_container n es) n
  unfolding keep_existing find_container
  find_container-keep_existing new [] n h = merged-none (lookup n new) n
  find_container-keep_existing new (e ∷ es) n h = elim (Option-cases (lookup e.name new)) [
    | inr (c, p) ↦
        ap (λ (r : List Container × Dict Container). or_else (find_container n r.0) (lookup n r.1))
          (updated_step new e es c p)
        ∙ found_step new e es n c h p
            (find_container-keep_existing (remove e.name new) es n (IsKeyed-remove e.name new h))
    | inl p ↦ elim (Bool-cases (contains rules.managed e.name)) [
      | inl q ↦
          ap
            (λ (r : List Container × Dict Container). or_else (find_container n r.0) (lookup n r.1))
            (dropped_step new e es p q)
          ∙ find_container-keep_existing new es n h
          ∙ missing new e es n p q
      | inr q ↦
          ap
            (λ (r : List Container × Dict Container). or_else (find_container n r.0) (lookup n r.1))
            (kept_step new e es p q)
          ∙ sidecar new e es n p q (find_container-keep_existing new es n h)
    ]
  ]

  -- Whatever the order of a range over a map: by name, the merge of the containers has the wanted
  -- ones, updated, and the existing ones that the operator does not manage; the existing ones
  -- that it manages and does not want are gone.
  pub find_container-merge_containers :
      (order : Dict Container → List Container)
      → IsRange order
      → (wanted existing : List Container) (n : String)
      → find_container n (merge_containers rules order wanted existing)
        ≡ merged (lookup n (by_name wanted)) (find_container n existing) n
  unfolding merge_containers
  find_container-merge_containers order range wanted existing n =
      let r = keep_existing rules (by_name wanted) existing in
      let m = IsGoMap-by_name wanted in
      find_container-append n r.0 (order r.1)
      ∙ ap (or_else (find_container n r.0))
          (range r.1 (IsGoMap-keep_existing (by_name wanted) existing m) n)
      ∙ find_container-keep_existing (by_name wanted) existing n m.0

  merged_twice :
      (new existing : Option Container) (n : String)
      → merged new (merged new existing n) n ≡ merged new existing n
  unfolding merged
  merged_twice none existing n = ground arith
  merged_twice (some new) none n = elim (Bool-cases (rules.keeps_resources new.name)) [
    | inl h ↦ rw h
    | inr h ↦ rw h
  ]
  merged_twice (some new) (some e) n = elim (Bool-cases (rules.keeps_resources new.name)) [
    | inl h ↦ rw h
    | inr h ↦ rw h
  ]

  -- An update settles, whatever the order of a range over a map: merging the wanted containers
  -- once more into the result of a merge gives, by name, the same containers.
  pub merge_containers_settles :
      (order : Dict Container → List Container)
      → IsRange order
      → (wanted existing : List Container) (n : String)
      → find_container n
          (merge_containers rules order wanted (merge_containers rules order wanted existing))
        ≡ find_container n (merge_containers rules order wanted existing)
  merge_containers_settles order range wanted existing n =
      let new = lookup n (by_name wanted) in
      let once = find_container-merge_containers order range wanted existing n in
      find_container-merge_containers order range wanted
        (merge_containers rules order wanted existing) n
      ∙ ap (λ c. merged new c n) once
      ∙ merged_twice new (find_container n existing) n
      ∙ sym once
