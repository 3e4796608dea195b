-- ===== src/Minimal/Prio.antt =====
-- minimal-scheduler-main/minimal-scheduler-main/prio.bpf.c: the queue is ordered by 100 - weight.
use ai_optimized_kernel_and.Prelude.{ℕ, sub32}
use ai_optimized_kernel_and.Bpf.Scx.{Scx}
use ai_optimized_kernel_and.Minimal.Task.{Task, shared_dsq_id, share_slice}

-- `100 - p->scx.weight`, computed on u32 and widened to u64
unfoldable pub vtime_of_weight : ℕ → ℕ
vtime_of_weight weight = sub32 100 weight

module _ (scx : Scx Task) where
  open scx use {State, create_dsq, dsq_insert_vtime, dsq_move_to_local, nr_queued}

  unfoldable pub sched_init : State → State
  sched_init s = create_dsq s shared_dsq_id

  unfoldable pub sched_enqueue : Task → ℕ → State → State
  sched_enqueue p enq_flags s =
      dsq_insert_vtime s
        (record {
          task = p;
          slice = share_slice (nr_queued s shared_dsq_id);
          vtime = vtime_of_weight p.weight;
        })
        shared_dsq_id enq_flags

  unfoldable pub sched_dispatch : State → State
  sched_dispatch s = (dsq_move_to_local s shared_dsq_id).1
