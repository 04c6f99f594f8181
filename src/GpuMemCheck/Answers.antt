-- ===== src/GpuMemCheck/Answers.antt =====
-- What the answers of the node say about a container (internal/controller/gpu_mem_check.go:
-- getContainerLimit, getMemoryStats and the loop over the container statuses).
use whatap_operator.Prelude.{
  String, Option, none, some, List, [], ◌∷◌, ℕ, test_of_eq, test_of_ne, ◌||◌, or_default, ap, ◌≡◌,
  ◌≢◌, ◌==◌, refl, arith, Option-cases, Bool-cases, inl, inr, eq_iff, eq_of_test,
}
use whatap_operator.GpuMemCheck.{
  Fetch, request_failed, do_failed, response, ContainerMeta, ContainerStatus, Int64, to_uint64,
  find_limit, MemoryStats, working_set, get_memory_stats, get_container_limit, find_container_id,
}

-- The limit of a container: that of the first entry with its id, which is neither missing nor "0".
pub data IsLimit (parse_quantity : String → Option Int64) (container_id : String)
    : List ContainerMeta → ℕ → Type 0 where
  limit_here :
      (c : ContainerMeta) (cs : List ContainerMeta) (q : Int64) (limit : ℕ)
      → c.id ≡ container_id
      → c.memory_limit ≢ ""
      → c.memory_limit ≢ "0"
      → parse_quantity c.memory_limit ≡ some q
      → to_uint64 q ≡ limit
      → IsLimit parse_quantity container_id (c ∷ cs) limit
  limit_there :
      (c : ContainerMeta) (cs : List ContainerMeta) (limit : ℕ)
      → c.id ≢ container_id
      → IsLimit parse_quantity container_id cs limit
      → IsLimit parse_quantity container_id (c ∷ cs) limit

-- The id in the first status of a container that is named dcgm-exporter.
pub data IsExporter : List ContainerStatus → String → Type 0 where
  exporter_here :
      (s : ContainerStatus) (ss : List ContainerStatus)
      → s.name ≡ "dcgm-exporter"
      → IsExporter (s ∷ ss) s.container_id
  exporter_there :
      (s : ContainerStatus) (ss : List ContainerStatus) (id : String)
      → s.name ≢ "dcgm-exporter"
      → IsExporter ss id
      → IsExporter (s ∷ ss) id

find_limit-IsLimit :
    (parse_quantity : String → Option Int64) (id : String) (cs : List ContainerMeta) (limit : ℕ)
    → find_limit parse_quantity id cs ≡ some limit
    → limit ≢ 0
    → IsLimit parse_quantity id cs limit
unfolding find_limit
find_limit-IsLimit parse_quantity id [] limit h n = absurd (ground arith)
find_limit-IsLimit parse_quantity id (c ∷ cs) limit h n = elim (Bool-cases (c.id == id)) [
  | inr e ↦
      limit_there c cs limit (λ p. ground (arith, eq_iff c.id id))
        (find_limit-IsLimit parse_quantity id cs limit (rw e at h) n)
  | inl e ↦ elim (Bool-cases (c.memory_limit == "" || c.memory_limit == "0")) [
    | inl z ↦ (let zero_limit : some 0 ≡ some limit = rw (e, z) at h in absurd (ground (arith, n)))
    | inr z ↦ elim (Option-cases (parse_quantity c.memory_limit)) [
      | inl q ↦ (let none_there : none ≡ some limit = rw (e, z, q) at h in absurd (ground arith))
      | inr (q, r) ↦
          let same : some (to_uint64 q) ≡ some limit = rw (e, z, r) at h in
          limit_here c cs q limit (eq_of_test c.id id e)
            (λ p. ground (arith, z, eq_iff c.memory_limit ""))
            (λ p. ground (arith, z, eq_iff c.memory_limit "0")) r (ap (λ o. or_default o 0) same)
    ]
  ]
]

pub IsLimit-find_limit :
    (parse_quantity : String → Option Int64) (id : String) (cs : List ContainerMeta) (limit : ℕ)
    → IsLimit parse_quantity id cs limit
    → find_limit parse_quantity id cs ≡ some limit
unfolding find_limit
IsLimit-find_limit parse_quantity id _ _ (limit_here c cs q limit e m z p u) =
    rw (test_of_eq _ _ e, test_of_ne _ _ m, test_of_ne _ _ z, p) (ap some u)
IsLimit-find_limit parse_quantity id _ _ (limit_there c cs limit e r) =
    rw (test_of_ne _ _ e) (IsLimit-find_limit parse_quantity id cs limit r)

pub find_container_id-IsExporter :
    (ss : List ContainerStatus) → find_container_id ss ≢ "" → IsExporter ss (find_container_id ss)
unfolding find_container_id
find_container_id-IsExporter [] h = absurd (h refl)
find_container_id-IsExporter (s ∷ ss) h = elim (Bool-cases (s.name == "dcgm-exporter")) [
  | inl e ↦ rw e (exporter_here s ss (eq_of_test _ _ e))
  | inr e ↦ rw e (
      exporter_there s ss (find_container_id ss)
        (λ p. ground (arith, eq_iff s.name "dcgm-exporter"))
        (find_container_id-IsExporter ss (rw e at h)))
]

pub IsExporter-find_container_id :
    (ss : List ContainerStatus) (id : String) → IsExporter ss id → find_container_id ss ≡ id
unfolding find_container_id
IsExporter-find_container_id _ _ (exporter_here s ss e) = rw (test_of_eq _ _ e) refl
IsExporter-find_container_id _ _ (exporter_there s ss id e r) =
    rw (test_of_ne _ _ e) (IsExporter-find_container_id ss id r)

pub get_memory_stats-eq_some :
    (r : Fetch MemoryStats) (used limit : ℕ)
    → get_memory_stats r ≡ some (used, limit)
    → (s : MemoryStats) × (r ≡ response 200 (some s)) × (used ≡ working_set s)
unfolding get_memory_stats
get_memory_stats-eq_some request_failed used limit h = absurd (ground arith)
get_memory_stats-eq_some do_failed used limit h = absurd (ground arith)
get_memory_stats-eq_some (response status none) used limit h = absurd (ground arith)
get_memory_stats-eq_some (response status (some s)) used limit h = (s, ground arith, ground arith)

pub get_container_limit-eq_some :
    (parse_quantity : String → Option Int64) (id : String) (r : Fetch (List ContainerMeta))
    (limit : ℕ)
    → get_container_limit parse_quantity id r ≡ some limit
    → limit ≢ 0
    → (cs : List ContainerMeta) × (r ≡ response 200 (some cs)) × IsLimit parse_quantity id cs limit
unfolding get_container_limit
get_container_limit-eq_some parse_quantity id request_failed limit h n = absurd (ground arith)
get_container_limit-eq_some parse_quantity id do_failed limit h n = absurd (ground arith)
get_container_limit-eq_some parse_quantity id (response status none) limit h n =
    absurd (ground arith)
get_container_limit-eq_some parse_quantity id (response status (some cs)) limit h n =
    (cs, ground arith, find_limit-IsLimit parse_quantity id cs limit (ground arith) n)
