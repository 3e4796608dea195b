-- ===== src/Ipc/Monitor.antt =====
-- daemon/ipc/ipc_interface.cpp: class StatsMonitor.
use Prim.Native.String.{String}
use ai_optimized_kernel_and.Prelude.{ℕ, Option, none, some, List, [], ◌∷◌, if◌then◌else◌}
use ai_optimized_kernel_and.Types.{Stats}
use ai_optimized_kernel_and.Ipc.Libbpf.{minus_one, is_negative}

pub record StatsMonitor : Type 0 where
  pub stats_map_fd : ℕ

-- the constructor
abbrev pub create : StatsMonitor
create = record { stats_map_fd = minus_one }

unfoldable pub connect : StatsMonitor → ℕ × StatsMonitor
connect m = (0, m)

-- read_stats: the return code, and the caller's statistics after the call. The second argument is what
-- bpf_map_lookup_elem finds for a descriptor, the third the caller's memory, `none` for NULL.
unfoldable pub read_stats : StatsMonitor → (ℕ → Option Stats) → Option Stats → ℕ × Option Stats
read_stats m lookup none = (minus_one, none)
read_stats m lookup (some old) =
    if is_negative m.stats_map_fd
    then (minus_one, some old)
    else elim (lookup m.stats_map_fd) [ none ↦ (minus_one, some old) | some s ↦ (0, some s) ]

-- print_stats: the rows between the two rules, and nothing for NULL
unfoldable pub print_stats : Option Stats → List (String × ℕ)
print_stats none = []
print_stats (some s) =
    ("Tasks Enqueued:", s.tasks_enqueued)
    ∷ ("Tasks Dispatched:", s.tasks_dispatched)
    ∷ ("AI Tasks -> CPU:", s.tasks_ai_routed_cpu)
    ∷ ("AI Tasks -> NPU:", s.tasks_ai_routed_npu)
    ∷ ("Background -> Eff Cores:", s.tasks_bg_routed_eff)
    ∷ ("Avg Enqueue Latency:", s.avg_enqueue_latency_us)
    ∷ ("Est. Energy:", s.total_energy_estimate_mj)
    ∷ []
