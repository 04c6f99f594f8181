-- ===== src/GpuMemCheck.antt =====
-- internal/controller/gpu_mem_check.go: the periodic check that restarts a pod whose dcgm-exporter
-- container uses more than 70% of its memory limit. The HTTP answers, the parsing of quantities
-- and the floating-point operations are parameters.
pub mod Answers
pub mod Restart
use Prim.Native.String.{len, slice}
use text.Mathlib.Text.{find?}
use whatap_operator.Prelude.{
  String, Bool, true, false, Option, none, some, List, [], ◌∷◌, ◌++◌, ℕ, ◌+◌, ◌-◌, ◌≤◌, ◌^◌, ◌%◌,
  ◌≡◌, if◌then◌else◌, ◌==◌, ◌||◌, ltb, nat_eq,
}

-- What client.Do and the decoder give back: an error at one of the steps, or a status and the
-- decoded body.
pub data Fetch {ℓ} (A : Type ℓ) : Type ℓ where
  request_failed : Fetch A
  do_failed : Fetch A
  response : ℕ → Option A → Fetch A

pub record MemoryStats : Type 0 where
  pub usage : ℕ
  pub limit : ℕ
  pub inactive_file : ℕ
  pub rss : ℕ

pub record ContainerMeta : Type 0 where
  pub id : String
  pub memory_limit : String

pub record ContainerStatus : Type 0 where
  pub name : String
  pub container_id : String

pub record GpuPod : Type 0 where
  pub name : String
  pub namespace : String
  pub is_deleting : Bool
  pub phase : String
  pub container_statuses : List ContainerStatus
  pub pod_ip : String

-- The int64 of a quantity, and Go's conversion to uint64.
pub data Int64 : Type 0 where
  pos : ℕ → Int64
  negsuc : ℕ → Int64

abbrev pub to_uint64 : Int64 → ℕ
to_uint64 (pos n) = n
to_uint64 (negsuc n) = 2 ^ 64 - 1 - n

-- Go's subtraction of uint64, which wraps.
abbrev pub sub_uint64 : ℕ → ℕ → ℕ
sub_uint64 a b = (a + 2 ^ 64 - b) % 2 ^ 64

-- float64 as far as the check uses it; rounding is monotone. `decimal m e` is the literal for
-- m / 10 ^ e.
pub record Float64 : Type 1 where
  pub Float : Type 0
  pub of_uint64 : ℕ → Float
  pub div : Float → Float → Float
  pub gt : Float → Float → Bool
  pub decimal : ℕ → ℕ → Float
  pub le : Float → Float → Type 0
  pub of_uint64-mono : (a b : ℕ) → a ≤ b → le (of_uint64 a) (of_uint64 b)
  pub div-mono : (x y : Float) (n : ℕ) → le x y → le (div x (of_uint64 n)) (div y (of_uint64 n))
  pub gt-mono : (x y c : Float) → le x y → gt x c ≡ true → gt y c ≡ true

-- What the checker asks of the outside.
pub record Outside : Type 0 where
  pub fetch_stats : String → String → Fetch MemoryStats
  pub fetch_containers : String → Fetch (List ContainerMeta)
  pub parse_quantity : String → Option Int64

-- memory_working_set = usage - inactive_file, not below 0
unfoldable pub working_set : MemoryStats → ℕ
working_set stats =
    if ltb stats.inactive_file stats.usage then sub_uint64 stats.usage stats.inactive_file else 0

-- An error is `none`.
unfoldable pub get_memory_stats : Fetch MemoryStats → Option (ℕ × ℕ)
unfolding working_set
get_memory_stats request_failed = none
get_memory_stats do_failed = none
get_memory_stats (response status body) =
    if nat_eq status 200
    then elim body [ none ↦ none | some stats ↦ some (working_set stats, stats.limit) ]
    else none

-- The loop over the containers' metadata.
unfoldable pub find_limit : (String → Option Int64) → String → List ContainerMeta → Option ℕ
find_limit parse_quantity container_id [] = none
find_limit parse_quantity container_id (c ∷ cs) =
    let rest = find_limit parse_quantity container_id cs in
    if c.id == container_id
    then (if c.memory_limit == "" || c.memory_limit == "0"
        then some 0
        else elim (parse_quantity c.memory_limit) [ none ↦ none | some q ↦ some (to_uint64 q) ])
    else rest

unfoldable pub get_container_limit :
    (String → Option Int64) → String → Fetch (List ContainerMeta) → Option ℕ
get_container_limit parse_quantity container_id request_failed = none
get_container_limit parse_quantity container_id do_failed = none
get_container_limit parse_quantity container_id (response status body) =
    if nat_eq status 200
    then elim body [
      | none ↦ none
      | some containers ↦ find_limit parse_quantity container_id containers
    ]
    else none

-- The first dcgm-exporter status; "" where there is none.
unfoldable pub find_container_id : List ContainerStatus → String
find_container_id [] = ""
find_container_id (s ∷ ss) =
    if s.name == "dcgm-exporter" then s.container_id else find_container_id ss

-- Without the runtime's prefix, such as "containerd://".
unfoldable pub strip_prefix : String → String
strip_prefix container_id = elim (find? container_id "://") [
  | none ↦ container_id
  | some idx ↦ slice container_id (idx + 3) (len container_id)
]

-- A pod that the check deletes, by namespace and name.
abbrev pub Deletion : Type 0
Deletion = String × String

module _ (f : Float64) (out : Outside) where
  open f use {of_uint64, div, gt, decimal}

  -- The constant 0.7 of the source.
  unfoldable pub is_over : ℕ → ℕ → Bool
  is_over working_set limit = gt (div (of_uint64 working_set) (of_uint64 limit)) (decimal 7 1)

  -- The requests for the statistics and the limit, and the decision.
  unfoldable pub check_usage : GpuPod → String → List Deletion
  check_usage pod container_id = elim (get_memory_stats (out.fetch_stats pod.pod_ip container_id)) [
    | none ↦ []
    | some (used, stats_limit) ↦
        elim (get_container_limit out.parse_quantity container_id
          (out.fetch_containers pod.pod_ip)) [
            | none ↦ []
            | some limit ↦
                if nat_eq limit 0
                then []
                else if is_over used limit
                then (pod.namespace, pod.name) ∷ []
                else []
          ]
  ]

  unfoldable pub check_pod : GpuPod → List Deletion
  check_pod pod =
      if pod.is_deleting
      then []
      else if pod.phase == "Running"
      then (let container_id = find_container_id pod.container_statuses in
          if container_id == "" then [] else check_usage pod (strip_prefix container_id))
      else []

  check_each : List GpuPod → List Deletion
  check_each [] = []
  check_each (pod ∷ pods) = check_pod pod ++ check_each pods

  -- `none`: the list of pods could not be read.
  unfoldable pub check_gpu_pods : Option (List GpuPod) → List Deletion
  unfolding check_each
  check_gpu_pods none = []
  check_gpu_pods (some pods) = check_each pods
