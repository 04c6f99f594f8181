-- ===== src/GpuMemCheck/Restart.antt =====
-- When the check restarts a pod (internal/controller/gpu_mem_check.go).
use whatap_operator.Prelude.{
  String, true, false, some, List, [], ◌∷◌, ◌++◌, ℕ, ◌+◌, ◌-◌, ◌^◌, test_of_eq, test_of_ne, ◌≤◌,
  ◌<◌, ◌≡◌, ◌≢◌, ◌==◌, ltb, nat_eq, refl, arith, ◌↔◌, Option-cases, Bool-cases, inl, inr, eq_iff,
  ◌⊎◌, ◌∙◌, append_assoc, eq_of_test,
}
use whatap_operator.GpuMemCheck.{
  response, ContainerMeta, MemoryStats, GpuPod, Float64, Outside, working_set, get_memory_stats,
  get_container_limit, find_container_id, strip_prefix, is_over, check_usage, check_pod, check_each,
  check_gpu_pods,
}
use whatap_operator.GpuMemCheck.Answers.{
  IsLimit, IsExporter, IsLimit-find_limit, find_container_id-IsExporter,
  IsExporter-find_container_id, get_memory_stats-eq_some, get_container_limit-eq_some,
}

-- What is in use beyond the inactive file cache, and at least 0.
working_set-sub : (s : MemoryStats) → s.usage < 2 ^ 64 → working_set s ≡ s.usage - s.inactive_file
unfolding working_set
working_set-sub s h = elim (Bool-cases (ltb s.inactive_file s.usage)) [
  | inl e ↦ rw e (ground arith)
  | inr e ↦ rw e (ground arith)
]

-- For a usage in the range of uint64: the working set is what is in use beyond the inactive file
-- cache, and where that cache is more than the usage it is 0, so that the subtraction never wraps.
pub working_set_bounds :
    (s : MemoryStats)
    → s.usage < 2 ^ 64
    → (working_set s ≤ s.usage)
      × ((working_set s + s.inactive_file ≡ s.usage)
          ⊎ ((s.usage < s.inactive_file) × (working_set s ≡ 0)))
working_set_bounds s h = rw (working_set-sub s h) (elim (Bool-cases (ltb s.usage s.inactive_file)) [
  | inl e ↦ (ground arith, inr (ground arith, ground arith))
  | inr e ↦ (ground arith, inl (ground arith))
])

module _ (f : Float64) (out : Outside) where
  -- What the answers about a container say when it uses too much.
  pub record IsUsageOver (pod : GpuPod) (container_id : String) : Type 0 where
    pub stats : MemoryStats
    pub stats_answered : out.fetch_stats pod.pod_ip container_id ≡ response 200 (some stats)
    pub limit : ℕ
    pub containers : List ContainerMeta
    pub limit_answered : out.fetch_containers pod.pod_ip ≡ response 200 (some containers)
    pub has_limit : IsLimit out.parse_quantity container_id containers limit
    pub limited : limit ≢ 0
    pub over :
        f.gt (f.div (f.of_uint64 (working_set stats)) (f.of_uint64 limit)) (f.decimal 7 1) ≡ true

  -- Why a pod is restarted.
  pub record IsOverloaded (pod : GpuPod) : Type 0 where
    pub alive : pod.is_deleting ≡ false
    pub running : pod.phase ≡ "Running"
    pub container_id : String
    pub exporter : IsExporter pod.container_statuses container_id
    pub named : container_id ≢ ""
    pub usage : IsUsageOver pod (strip_prefix container_id)

  check_usage_cases :
      (pod : GpuPod) (container_id : String)
      → (check_usage f out pod container_id ≡ [])
        ⊎ (IsUsageOver pod container_id
            × (check_usage f out pod container_id ≡ (pod.namespace, pod.name) ∷ []))
  unfolding check_usage is_over
  check_usage_cases pod container_id =
      elim (Option-cases (get_memory_stats (out.fetch_stats pod.pod_ip container_id))) [
        | inl e ↦ inl (rw (e, check_usage))
        | inr ((used, stats_limit), e) ↦
            elim (Option-cases (
              get_container_limit out.parse_quantity container_id
                (out.fetch_containers pod.pod_ip))) [
                  | inl g ↦ inl (rw (e, g, check_usage))
                  | inr (limit, g) ↦ elim (Bool-cases (nat_eq limit 0)) [
                    | inl zero ↦ inl (rw (e, g, check_usage) (rw zero))
                    | inr pos ↦ elim (Bool-cases (is_over f out used limit)) [
                      | inl over ↦
                          let (s, r, u) = get_memory_stats-eq_some _ used stats_limit e in
                          let answered =
                            get_container_limit-eq_some out.parse_quantity container_id _ limit g
                              (λ z. ground arith) in
                          inr (
                            record {
                              stats = s;
                              stats_answered = r;
                              limit = limit;
                              containers = answered.0;
                              limit_answered = answered.1;
                              has_limit = answered.2;
                              limited = λ z. ground arith;
                              over = rw (← u) over;
                            },
                            rw (e, g, check_usage) (rw (pos, over)),
                          )
                      | inr under ↦ inl (rw (e, g, check_usage) (rw (pos, under)))
                    ]
                  ]
                ]
      ]

  check_usage-of_over :
      (pod : GpuPod) (container_id : String)
      → IsUsageOver pod container_id
      → check_usage f out pod container_id ≡ (pod.namespace, pod.name) ∷ []
  unfolding check_usage get_memory_stats get_container_limit is_over
  check_usage-of_over pod container_id o =
      let limit_found =
        IsLimit-find_limit out.parse_quantity container_id o.containers o.limit o.has_limit in
      rw (o.stats_answered, check_usage)
        (rw (o.limit_answered, limit_found, check_usage) (ground (arith, o.over, o.limited)))

  check_pod_cases :
      (pod : GpuPod)
      → (check_pod f out pod ≡ [])
        ⊎ (IsOverloaded pod × (check_pod f out pod ≡ (pod.namespace, pod.name) ∷ []))
  unfolding check_pod
  check_pod_cases pod =
      elim (check_usage_cases pod (strip_prefix (find_container_id pod.container_statuses))) [
        | inl none_deleted ↦ inl (ground arith)
        | inr (usage, deleted) ↦ elim (Bool-cases pod.is_deleting) [
          | inl e ↦ inl (ground arith)
          | inr alive ↦ elim (Bool-cases (pod.phase == "Running")) [
            | inr e ↦ inl (ground arith)
            | inl running ↦ elim (Bool-cases (find_container_id pod.container_statuses == "")) [
              | inl e ↦ inl (ground arith)
              | inr there ↦ inr (
                record {
                  alive = alive;
                  running = eq_of_test pod.phase "Running" running;
                  container_id = find_container_id pod.container_statuses;
                  exporter =
                      find_container_id-IsExporter pod.container_statuses
                        (λ e. ground (arith, eq_iff (find_container_id pod.container_statuses) ""));
                  named = λ e. ground (arith, eq_iff (find_container_id pod.container_statuses) "");
                  usage = usage;
                },
                ground arith,
              )
            ]
          ]
        ]
      ]

  check_pod-of_overloaded :
      (pod : GpuPod) → IsOverloaded pod → check_pod f out pod ≡ (pod.namespace, pod.name) ∷ []
  unfolding check_pod check_usage
  check_pod-of_overloaded pod o =
      let found = IsExporter-find_container_id pod.container_statuses o.container_id o.exporter in
      rw (o.alive, test_of_eq pod.phase "Running" o.running, found, test_of_ne _ _ o.named)
        (check_usage-of_over pod (strip_prefix o.container_id) o.usage)

  -- A pod is deleted, and deleted once, exactly if it is overloaded: it runs and is not being
  -- deleted; the first of its containers named dcgm-exporter has an id; for that id, without the
  -- runtime's prefix, both requests are answered with status 200 and a body that can be decoded; its
  -- limit, the first one given, is neither missing nor 0; and the quotient of the working set and
  -- the limit, as floating-point numbers, is more than 0.7. Else nothing is deleted.
  pub check_pod_iff :
      (pod : GpuPod)
      → ((check_pod f out pod ≡ (pod.namespace, pod.name) ∷ []) ↔ IsOverloaded pod)
        × ((check_pod f out pod ≡ []) ⊎ (check_pod f out pod ≡ (pod.namespace, pod.name) ∷ []))
  check_pod_iff pod = elim (check_pod_cases pod) [
    | inl kept ↦ (((λ h. absurd (ground arith)), check_pod-of_overloaded pod), inl kept)
    | inr (over, deleted) ↦ (((λ h. over), check_pod-of_overloaded pod), inr deleted)
  ]

  check_each-append :
      (xs ys : List GpuPod)
      → check_each f out (xs ++ ys) ≡ check_each f out xs ++ check_each f out ys
  unfolding check_each
  check_each-append [] ys = refl
  check_each-append (x ∷ xs) ys = rw (check_each-append xs ys) (rw append_assoc)

  -- Each pod of the list is checked whatever happens to the others: what the check does to the pods
  -- before it and behind it is what it does to these lists on their own.
  pub check_gpu_pods_each :
      (xs ys : List GpuPod) (pod : GpuPod)
      → check_gpu_pods f out (some (xs ++ pod ∷ ys))
        ≡ check_gpu_pods f out (some xs) ++ check_pod f out pod ++ check_gpu_pods f out (some ys)
  unfolding check_gpu_pods
  check_gpu_pods_each xs ys pod = check_each-append xs (pod ∷ ys) ∙ rw append_assoc

  -- More use of the same memory never saves a container: if the statistics `s` are over the
  -- threshold, so are statistics with at least that usage and at most that file cache.
  pub is_over_mono :
      (s t : MemoryStats) (limit : ℕ)
      → s.usage ≤ t.usage
      → t.inactive_file ≤ s.inactive_file
      → s.usage < 2 ^ 64
      → t.usage < 2 ^ 64
      → is_over f out (working_set s) limit ≡ true
      → is_over f out (working_set t) limit ≡ true
  unfolding is_over
  is_over_mono s t limit u i b c h =
      f.gt-mono _ _ (f.decimal 7 1)
        (f.div-mono _ _ limit (
          f.of_uint64-mono (working_set s) (working_set t)
            (rw (working_set-sub s b, working_set-sub t c) (omega arith))))
        h
