-- ===== src/Minimal/LotteryPrio.antt =====
-- minimal-scheduler-main/minimal-scheduler-main/lottery_prio.bpf.c: the next task is drawn by lot, each task with its weight.
use ai_optimized_kernel_and.Prelude.{ℕ, ◌%◌, List, [], ◌∷◌, add32}
use ai_optimized_kernel_and.Bpf.Scx.{Scx, Entry}
use ai_optimized_kernel_and.Minimal.Task.{Task, shared_dsq_id, share_slice}
use ai_optimized_kernel_and.Minimal.Draw.{draw}

-- `weight_sum += p->scx.weight` over the queue, on u32
unfoldable pub sum_weights : ℕ → List (Entry Task) → ℕ
sum_weights sum [] = sum
sum_weights sum (e ∷ es) = sum_weights (add32 sum e.task.weight) es

module _ (scx : Scx Task) where
  open scx use {State, queue, create_dsq, dsq_insert, nr_queued}

  unfoldable pub sched_init : State → State
  sched_init s = create_dsq s shared_dsq_id

  unfoldable pub sched_enqueue : Task → ℕ → State → State
  sched_enqueue p enq_flags s =
      dsq_insert s (record { task = p; slice = share_slice (nr_queued s shared_dsq_id); vtime = 0 })
        shared_dsq_id enq_flags

  -- The argument is what bpf_get_prandom_u32 returns. A remainder by zero leaves the number.
  unfoldable pub sched_dispatch : ℕ → State → State
  sched_dispatch prandom s =
      let weight_sum = sum_weights 0 (queue s shared_dsq_id) in
      draw scx (λ e. e.task.weight) (queue s shared_dsq_id) 0 (prandom % weight_sum) s
