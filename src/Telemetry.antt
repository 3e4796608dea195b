-- ===== src/Telemetry.antt =====
-- kernel/telemetry.bpf.c: the tracepoint programs that keep a counter record for each PID and report
-- forks to user space. A handler returns 0 always, so only the state is returned here.
pub mod Cores
pub mod Counters
use ai_optimized_kernel_and.Prelude.{ℕ, ◌/◌, ◌^◌, Option, none, some, add64}
use ai_optimized_kernel_and.Bpf.Maps.{Maps}
use ai_optimized_kernel_and.Types.{Telemetry}

-- struct task_telemetry_accum
pub record Accum : Type 0 where
  pub total_syscalls : ℕ
  pub io_read_bytes : ℕ
  pub io_write_bytes : ℕ
  pub last_sample_cpu_util : ℕ
  pub last_sample_ts : ℕ

-- `struct task_telemetry_accum zero = {};`
abbrev pub zero_accum : Accum
zero_accum = record {
  total_syscalls = 0;
  io_read_bytes = 0;
  io_write_bytes = 0;
  last_sample_cpu_util = 0;
  last_sample_ts = 0;
}

-- `__sync_fetch_and_add(&accum->total_syscalls, 1)`
abbrev pub count_syscall : Accum → Accum
count_syscall a = record a { total_syscalls = add64 a.total_syscalls 1 }

-- The fields that handle_sched_fork writes into the reserved memory; it leaves the others.
abbrev pub fork_event : ℕ → Telemetry → Telemetry
fork_event child_pid stale = record stale {
  pid = child_pid;
  cpu_util_recent = 60;
  memory_rss_mb = 300;
  num_threads = 4;
  syscall_count = 250;
  sched_class = 1;
  nice_value = 0;
}

-- `bpf_get_current_pid_tgid() >> 32`
abbrev pub current_pid : ℕ → ℕ
current_pid pid_tgid = pid_tgid / 2 ^ 32

module _ (bpf : Maps) where
  open bpf use {Hash, hash_lookup, hash_update, hash_delete, Ring, ringbuf_reserve, ringbuf_submit}

  -- telemetry_ringbuf and task_accumulators
  pub record State : Type 0 where
    pub telemetry_ringbuf : Ring Telemetry
    pub task_accumulators : Hash Accum

  -- The lookup that sys_enter and block_rq_issue begin with: a missing record is inserted as zero and
  -- looked up again; `none` where that fails too.
  unfoldable pub find_or_create : Hash Accum → ℕ → Option Accum × Hash Accum
  find_or_create m pid = elim (hash_lookup m pid) [
    | some a ↦ (some a, m)
    | none ↦ (hash_lookup (hash_update m pid zero_accum) pid, hash_update m pid zero_accum)
  ]

  -- handle_sys_enter; the atomic addition writes through the pointer.
  unfoldable pub handle_sys_enter : ℕ → State → State
  handle_sys_enter pid_tgid s =
      let pid = current_pid pid_tgid in
      let (found, m) = find_or_create s.task_accumulators pid in
      elim found [
        | none ↦ record s { task_accumulators = m }
        | some a ↦ record s { task_accumulators = hash_update m pid (count_syscall a) }
      ]

  -- handle_block_rq_issue
  unfoldable pub handle_block_rq_issue : ℕ → State → State
  handle_block_rq_issue pid_tgid s = record s {
    task_accumulators = (find_or_create s.task_accumulators (current_pid pid_tgid)).1;
  }

  -- handle_sched_fork, with args->child_pid
  unfoldable pub handle_sched_fork : ℕ → State → State
  handle_sched_fork child_pid s =
      let m = hash_update s.task_accumulators child_pid zero_accum in
      elim (ringbuf_reserve s.telemetry_ringbuf) [
        | none ↦ record s { task_accumulators = m }
        | some (stale, r) ↦ record {
          telemetry_ringbuf = ringbuf_submit r (fork_event child_pid stale);
          task_accumulators = m;
        }
      ]

  -- handle_sched_exit, with args->pid
  unfoldable pub handle_sched_exit : ℕ → State → State
  handle_sched_exit pid s = record s { task_accumulators = hash_delete s.task_accumulators pid }
