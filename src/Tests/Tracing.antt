-- ===== src/Tests/Tracing.antt =====
-- kernel/telemetry.bpf.c on concrete maps and events.
use ai_optimized_kernel_and.Prelude.{ℕ, ◌*◌, ◌+◌, ◌^◌, ◌≡◌, refl, none, some, List, [], ◌∷◌}
use ai_optimized_kernel_and.Types.{Telemetry}
use ai_optimized_kernel_and.Telemetry.{
  State, find_or_create, handle_sys_enter, handle_block_rq_issue, handle_sched_fork,
  handle_sched_exit,
}
use ai_optimized_kernel_and.Telemetry.Counters.{
  Event, sys_enter, block_rq_issue, sched_fork, sched_exit, handle, handle_all, expect, expect_all,
  recorded, handle_all-recorded,
}
use ai_optimized_kernel_and.Tests.Instances.{maps}

-- What the ring buffer's memory happens to hold.
abbrev leftover : Telemetry
leftover = record {
  pid = 1;
  uid = 1000;
  ts_enqueue = 99;
  cpu_util_recent = 7;
  memory_rss_mb = 8;
  syscall_count = 9;
  io_read_bytes = 10;
  io_write_bytes = 11;
  num_threads = 12;
  nice_value = 13;
  sched_class = 14;
  comm = 115 ∷ 104 ∷ [];
}

abbrev pub start : State maps
start = record { telemetry_ringbuf = (some leftover, []); task_accumulators = [] }

abbrev pub thread : ℕ
thread = 5 * 2 ^ 32 + 6

abbrev history : List Event
history =
    sched_fork 5 ∷ sys_enter thread ∷ block_rq_issue thread ∷ sys_enter thread ∷ sched_exit 4 ∷ []

two_calls : expect_all 5 history none ≡ some 2
unfolding expect expect_all
two_calls = refl

handle_all-recorded_example :
    maps.hash_lookup (handle_all maps history start).task_accumulators 5
    ≡ recorded (expect_all 5 history none)
unfolding handle handle_all handle_sys_enter handle_block_rq_issue handle_sched_fork
    handle_sched_exit find_or_create
handle_all-recorded_example =
    handle_all-recorded maps 5 history start none (refl, (refl, (refl, (refl, (tt, tt))))) refl
