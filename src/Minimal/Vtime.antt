-- ===== src/Minimal/Vtime.antt =====
-- minimal-scheduler-main/minimal-scheduler-main/vtime.bpf.c: the queue is ordered by virtual run time.
use ai_optimized_kernel_and.Prelude.{ℕ, ◌/◌, Bool, ltb, if◌then◌else◌, add64, sub64, mul64}
use ai_optimized_kernel_and.Bpf.Scx.{Scx}
use ai_optimized_kernel_and.Minimal.Task.{Task, shared_dsq_id}

-- isSmaller: `(a - b) < 0` on u64
unfoldable pub is_smaller : ℕ → ℕ → Bool
is_smaller a b = ltb (sub64 a b) 0

-- The parameters are SCX_SLICE_DFL and SCX_DSQ_LOCAL of the kernel.
module _ (scx : Scx Task) (slice_dfl dsq_local : ℕ) where
  open scx use {State, create_dsq, dsq_insert, dsq_insert_vtime, dsq_move_to_local}

  -- The global vtime_now beside the queues.
  pub record Sched : Type 0 where
    pub vtime_now : ℕ
    pub dsqs : State

  unfoldable pub sched_init : Sched → Sched
  sched_init s = record s { dsqs = create_dsq s.dsqs shared_dsq_id }

  -- The pair is what scx_bpf_select_cpu_dfl yields: the CPU and whether it is idle.
  unfoldable pub sched_select_cpu : Task → ℕ × Bool → Sched → ℕ × Sched
  sched_select_cpu p (cpu, is_idle) s =
      if is_idle
      then (
        cpu,
        record s {
          dsqs = dsq_insert s.dsqs (record { task = p; slice = slice_dfl; vtime = 0 }) dsq_local 0;
        },
      )
      else (cpu, s)

  -- The virtual time that sched_enqueue settles on.
  unfoldable pub enqueue_vtime : Task → ℕ → ℕ
  enqueue_vtime p now =
      if is_smaller p.dsq_vtime (sub64 now slice_dfl) then sub64 now slice_dfl else p.dsq_vtime

  unfoldable pub sched_enqueue : Task → ℕ → Sched → Sched
  sched_enqueue p enq_flags s = record s {
    dsqs =
        dsq_insert_vtime s.dsqs
          (record { task = p; slice = slice_dfl; vtime = enqueue_vtime p s.vtime_now })
          shared_dsq_id enq_flags;
  }

  unfoldable pub sched_dispatch : Sched → Sched
  sched_dispatch s = record s { dsqs = (dsq_move_to_local s.dsqs shared_dsq_id).1 }

  unfoldable pub sched_running : Task → Sched → Sched
  sched_running p s =
      if is_smaller s.vtime_now p.dsq_vtime then record s { vtime_now = p.dsq_vtime } else s

  -- The charge for a run: `(SLICE - p->scx.slice) * 100 / p->scx.weight`
  unfoldable pub charge : Task → ℕ
  charge p = mul64 (sub64 slice_dfl p.slice) 100 / p.weight

  unfoldable pub sched_stopping : Task → Task
  sched_stopping p = record p { dsq_vtime = add64 p.dsq_vtime (charge p) }

  unfoldable pub sched_enable : Task → Sched → Task
  sched_enable p s = record p { dsq_vtime = s.vtime_now }
