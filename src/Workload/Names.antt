-- ===== src/Workload/Names.antt =====
-- That an update names no container twice (internal/controller/install_agents.go).
use whatap_operator.Prelude.{
  String, List, [], ◌∷◌, ◌++◌, Dict, if◌then◌else◌, ℕ, suc, ◌+◌, ◌≤◌, lookup, is_some, contains,
  ◌==◌, ◌≡◌, ap, arith, Option-cases, Bool-cases, inl, inr, eq_iff,
}
use whatap_operator.Workload.{
  Container, Rules, remove, by_name, updated, keep_existing, merge_containers,
}
use whatap_operator.Workload.Maps.{
  IsKeyed, IsGoMap, lookup-remove, IsKeyed-remove, name_of_lookup, IsGoMap-by_name,
}
use whatap_operator.Workload.Containers.{
  updated_step, dropped_step, kept_step, updated_name, IsGoMap-keep_existing,
}

-- How many containers of a list have a name.
unfoldable pub count_container : String → List Container → ℕ
count_container n [] = 0
count_container n (c ∷ cs) =
    let rest = count_container n cs in if c.name == n then suc rest else rest

count_container-append :
    (n : String) (xs ys : List Container)
    → count_container n (xs ++ ys) ≡ count_container n xs + count_container n ys
unfolding count_container
count_container-append n [] ys = omega arith
count_container-append n (x ∷ xs) ys = ground (arith, count_container-append n xs ys)

-- How often a map has a name: once or not at all.
abbrev pub entries : String → Dict Container → ℕ
entries n m = if is_some (lookup n m) then 1 else 0

-- A range over a map visits each entry exactly once.
abbrev pub VisitsOnce : (Dict Container → List Container) → Type 0
VisitsOnce order =
    (m : Dict Container) → IsGoMap m → (n : String) → count_container n (order m) ≡ entries n m

module _ (rules : Rules) (n : String) where
  -- What the loop keeps and what it leaves, together.
  abbrev total : List Container × Dict Container → ℕ
  total r = count_container n r.0 + entries n r.1

  -- A name that is wanted is there once afterwards, any other as often as before at most.
  abbrev allowed : Dict Container → List Container → ℕ
  allowed new es = if is_some (lookup n new) then 1 else count_container n es

  count_container-keep_existing :
      (new : Dict Container) (es : List Container)
      → IsKeyed new
      → count_container n es ≤ 1
      → total (keep_existing rules new es) ≤ allowed new es
  unfolding keep_existing count_container
  count_container-keep_existing new [] h u = ground arith
  count_container-keep_existing new (e ∷ es) h u = elim (Option-cases (lookup e.name new)) [
    | inr (c, p) ↦ rw (ap total (updated_step rules new e es c p)) (
        ground (
          arith,
          updated_name rules c e,
          name_of_lookup e.name new c h p,
          eq_iff e.name n,
          eq_iff (updated rules c e).name n,
          lookup-remove e.name n new,
          count_container-keep_existing (remove e.name new) es (IsKeyed-remove e.name new h),
          p,
        ))
    | inl p ↦ elim (Bool-cases (contains rules.managed e.name)) [
      | inl q ↦
          rw (ap total (dropped_step rules new e es p q))
            (ground (arith, count_container-keep_existing new es h))
      | inr q ↦ rw (ap total (kept_step rules new e es p q)) (
          ground (
            arith,
            eq_iff e.name n,
            p,
            ap (λ x. lookup x new) ((eq_iff e.name n).0 _),
            count_container-keep_existing new es h,
          ))
    ]
  ]

  -- Where a range over a map visits each entry once: a name that no two existing containers share
  -- is not given to two containers by the merge, however often the wanted ones have it.
  pub count_container-merge_containers :
      (order : Dict Container → List Container)
      → VisitsOnce order
      → (wanted existing : List Container) → count_container n existing ≤ 1
      → count_container n (merge_containers rules order wanted existing) ≤ 1
  unfolding merge_containers
  count_container-merge_containers order visits wanted existing u =
      let r = keep_existing rules (by_name wanted) existing in
      let m = IsGoMap-by_name wanted in
      ground (
        arith,
        count_container-append n r.0 (order r.1),
        visits r.1 (IsGoMap-keep_existing rules (by_name wanted) existing m) n,
        count_container-keep_existing (by_name wanted) existing m.0 u,
        u,
      )
