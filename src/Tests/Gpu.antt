-- ===== src/Tests/Gpu.antt =====
-- The memory check (internal/controller/gpu_mem_check.go) on sample answers.
use whatap_operator.Prelude.{
  true, false, some, [], ◌∷◌, ◌≡◌, ◌↔◌, ◌⊎◌, refl, ℕ, ◌*◌, ◌+◌, ◌/◌, ◌^◌, ◌≤◌, ◌<◌, ltb, arith,
}
use whatap_operator.GpuMemCheck.{
  response, MemoryStats, GpuPod, pos, Float64, Outside, find_container_id, check_usage,
  get_memory_stats, get_container_limit, find_limit, strip_prefix, working_set, is_over, check_pod,
  check_gpu_pods,
}
use whatap_operator.GpuMemCheck.Restart.{IsOverloaded, working_set_bounds, check_pod_iff}

-- Tenths in place of float64, rounded down.
abbrev tenths : ℕ → ℕ → ℕ
tenths a b = 10 * a / b

tenths_mono : (x y n : ℕ) → x ≤ y → tenths x n ≤ tenths y n
tenths_mono x y n h = grind arith

ltb_mono : (x y c : ℕ) → x ≤ y → ltb c x ≡ true → ltb c y ≡ true
ltb_mono x y c h g = ground arith

abbrev float : Float64
float = record {
  Float = ℕ;
  of_uint64 = λ n. n;
  div = tenths;
  gt = λ x y. ltb y x;
  decimal = λ m e. 10 * m / 10 ^ e;
  le = λ x y. x ≤ y;
  of_uint64-mono = λ a b h. h;
  div-mono = tenths_mono;
  gt-mono = ltb_mono;
}

abbrev stats : MemoryStats
stats = record { usage = 900; limit = 1000; inactive_file = 100; rss = 500 }

abbrev outside : Outside
outside = record {
  fetch_stats = λ ip id. response 200 (some stats);
  fetch_containers = λ ip. response 200 (some (record { id = "abc"; memory_limit = "1000" } ∷ []));
  parse_quantity = λ q. some (pos 1000);
}

abbrev gpu_pod : GpuPod
gpu_pod = record {
  name = "whatap-node-agent-x";
  namespace = "whatap-monitoring";
  is_deleting = false;
  phase = "Running";
  container_statuses = record { name = "dcgm-exporter"; container_id = "containerd://abc" } ∷ [];
  pod_ip = "10.0.0.7";
}

abbrev leaving_pod : GpuPod
leaving_pod = record gpu_pod { is_deleting = true }

working_set_bounds_example :
    (working_set stats ≤ 900)
    × ((working_set stats + 100 ≡ 900) ⊎ ((900 < 100) × (working_set stats ≡ 0)))
working_set_bounds_example = working_set_bounds stats (omega arith)

check_pod_iff_example :
    ((check_pod float outside gpu_pod ≡ ("whatap-monitoring", "whatap-node-agent-x") ∷ [])
      ↔ IsOverloaded float outside gpu_pod)
    × ((check_pod float outside gpu_pod ≡ [])
        ⊎ (check_pod float outside gpu_pod ≡ ("whatap-monitoring", "whatap-node-agent-x") ∷ []))
check_pod_iff_example = check_pod_iff float outside gpu_pod

abbrev more : MemoryStats
more = record { usage = 950; limit = 1000; inactive_file = 50; rss = 500 }

stats-is_over : is_over float outside (working_set stats) 1000 ≡ true
unfolding is_over working_set
stats-is_over = refl

-- A deleted pod stays, one over the threshold goes.
run_of_check :
    check_gpu_pods float outside (some (leaving_pod ∷ gpu_pod ∷ []))
    ≡ ("whatap-monitoring", "whatap-node-agent-x") ∷ []
unfolding check_gpu_pods check_pod find_container_id check_usage get_memory_stats
    get_container_limit find_limit strip_prefix is_over
run_of_check = refl

-- The id without the runtime's prefix.
runtime_stripped : strip_prefix "containerd://abc" ≡ "abc"
unfolding strip_prefix
runtime_stripped = refl
