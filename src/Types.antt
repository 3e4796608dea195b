-- ===== src/Types.antt =====
-- kernel/include/ai_sched.h: the codes and structures that the kernel programs and the daemon share.
-- Fields are numbers of the width that the header gives them.
pub mod TaskClass
pub mod Device
pub mod Energy
use ai_optimized_kernel_and.Prelude.{ℕ, List, [], ◌∷◌}

-- struct ai_task_telemetry
pub record Telemetry : Type 0 where
  pub pid : ℕ
  pub uid : ℕ
  pub ts_enqueue : ℕ
  pub cpu_util_recent : ℕ
  pub memory_rss_mb : ℕ
  pub syscall_count : ℕ
  pub io_read_bytes : ℕ
  pub io_write_bytes : ℕ
  pub num_threads : ℕ
  pub nice_value : ℕ
  pub sched_class : ℕ
  pub comm : List ℕ

-- struct ai_sched_decision
pub record Decision : Type 0 where
  pub pid : ℕ
  pub task_class : ℕ
  pub preferred_device : ℕ
  pub cpu_affinity_mask : ℕ
  pub time_slice_us : ℕ
  pub priority_boost : ℕ
  pub ts_decision : ℕ

-- struct ai_sched_stats
pub record Stats : Type 0 where
  pub tasks_enqueued : ℕ
  pub tasks_dispatched : ℕ
  pub tasks_ai_routed_cpu : ℕ
  pub tasks_ai_routed_npu : ℕ
  pub tasks_bg_routed_eff : ℕ
  pub avg_enqueue_latency_us : ℕ
  pub total_energy_estimate_mj : ℕ

-- `struct ai_sched_stats empty_stats = {};`
abbrev pub empty_stats : Stats
empty_stats = record {
  tasks_enqueued = 0;
  tasks_dispatched = 0;
  tasks_ai_routed_cpu = 0;
  tasks_ai_routed_npu = 0;
  tasks_bg_routed_eff = 0;
  avg_enqueue_latency_us = 0;
  total_energy_estimate_mj = 0;
}

-- `memset(decision, 0, sizeof(*decision))`
abbrev pub zero_decision : Decision
zero_decision = record {
  pid = 0;
  task_class = 0;
  preferred_device = 0;
  cpu_affinity_mask = 0;
  time_slice_us = 0;
  priority_boost = 0;
  ts_decision = 0;
}
