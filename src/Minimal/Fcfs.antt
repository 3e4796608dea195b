-- ===== src/Minimal/Fcfs.antt =====
-- minimal-scheduler-main/minimal-scheduler-main/fcfs.bpf.c: first come, first served, no time limit (a slice of -1).
use ai_optimized_kernel_and.Prelude.{ℕ, ◌-◌, ◌^◌}
use ai_optimized_kernel_and.Bpf.Scx.{Scx}
use ai_optimized_kernel_and.Minimal.Task.{Task, shared_dsq_id}

module _ (scx : Scx Task) where
  open scx use {State, create_dsq, dsq_insert, dsq_move_to_local}

  unfoldable pub sched_init : State → State
  sched_init s = create_dsq s shared_dsq_id

  unfoldable pub sched_enqueue : Task → ℕ → State → State
  sched_enqueue p enq_flags s =
      dsq_insert s (record { task = p; slice = 2 ^ 64 - 1; vtime = 0 }) shared_dsq_id enq_flags

  unfoldable pub sched_dispatch : State → State
  sched_dispatch s = (dsq_move_to_local s shared_dsq_id).1
