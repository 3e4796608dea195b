-- ===== src/Minimal/SchedExt.antt =====
-- minimal-scheduler-main/minimal-scheduler-main/sched_ext.bpf.c: first in, first out, the time shared.
use ai_optimized_kernel_and.Prelude.{ℕ}
use ai_optimized_kernel_and.Bpf.Scx.{Scx}
use ai_optimized_kernel_and.Minimal.Task.{Task, shared_dsq_id, share_slice}

module _ (scx : Scx Task) where
  open scx use {State, create_dsq, dsq_insert, dsq_move_to_local, nr_queued}

  unfoldable pub sched_init : State → State
  sched_init s = create_dsq s shared_dsq_id

  unfoldable pub sched_enqueue : Task → ℕ → State → State
  sched_enqueue p enq_flags s =
      dsq_insert s (record { task = p; slice = share_slice (nr_queued s shared_dsq_id); vtime = 0 })
        shared_dsq_id enq_flags

  unfoldable pub sched_dispatch : State → State
  sched_dispatch s = (dsq_move_to_local s shared_dsq_id).1
