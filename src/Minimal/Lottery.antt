-- ===== src/Minimal/Lottery.antt =====
-- minimal-scheduler-main/minimal-scheduler-main/lottery.bpf.c: the next task is drawn by lot.
use ai_optimized_kernel_and.Prelude.{ℕ, ◌%◌}
use ai_optimized_kernel_and.Bpf.Scx.{Scx}
use ai_optimized_kernel_and.Minimal.Task.{Task, shared_dsq_id, share_slice}
use ai_optimized_kernel_and.Minimal.Draw.{draw}

module _ (scx : Scx Task) where
  open scx use {State, queue, create_dsq, dsq_insert, nr_queued}

  unfoldable pub sched_init : State → State
  sched_init s = create_dsq s shared_dsq_id

  unfoldable pub sched_enqueue : Task → ℕ → State → State
  sched_enqueue p enq_flags s =
      dsq_insert s (record { task = p; slice = share_slice (nr_queued s shared_dsq_id); vtime = 0 })
        shared_dsq_id enq_flags

  -- The argument is what bpf_get_prandom_u32 returns. A remainder by zero leaves the number.
  unfoldable pub sched_dispatch : ℕ → State → State
  sched_dispatch prandom s =
      draw scx (λ e. 1) (queue s shared_dsq_id) 0 (prandom % nr_queued s shared_dsq_id) s
