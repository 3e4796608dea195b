-- ===== src/Minimal/Order.antt =====
-- fifo.bpf.c, sched_ext.bpf.c and fcfs.bpf.c serve tasks in the order in which these were enqueued.
use ai_optimized_kernel_and.Prelude.{
  ℕ, zero, suc, ◌+◌, ◌*◌, ◌-◌, ◌^◌, ◌≤◌, ◌<◌, ◌≡◌, ◌⊎◌, inl, inr, Bool-cases, ◌==◌, ap, ◌∙◌, List,
  [], ◌∷◌, ◌++◌, map, arith, length,
}
use ai_optimized_kernel_and.Bpf.Scx.{Scx, Entry}
use ai_optimized_kernel_and.Minimal.Task.{Task, shared_dsq_id, share_slice}
use ai_optimized_kernel_and.Minimal.Fifo
use ai_optimized_kernel_and.Minimal.SchedExt
use ai_optimized_kernel_and.Minimal.Fcfs

-- The three schedulers that keep one queue in order of arrival.
pub data Policy : Type 0 where
  fifo sched_ext fcfs : Policy

module _ (scx : Scx Task) where
  open scx use {State, queue, local, may_run}

  unfoldable pub enqueue : Policy → Task → State → State
  enqueue fifo p s = Fifo.sched_enqueue scx p 0 s
  enqueue sched_ext p s = SchedExt.sched_enqueue scx p 0 s
  enqueue fcfs p s = Fcfs.sched_enqueue scx p 0 s

  unfoldable pub dispatch : Policy → State → State
  dispatch fifo s = Fifo.sched_dispatch scx s
  dispatch sched_ext s = SchedExt.sched_dispatch scx s
  dispatch fcfs s = Fcfs.sched_dispatch scx s

  -- The slice that an enqueue gives when so many tasks wait already.
  unfoldable pub slice : Policy → ℕ → ℕ
  slice fifo n = share_slice n
  slice sched_ext n = share_slice n
  slice fcfs n = 2 ^ 64 - 1

  unfoldable pub enqueue_all : Policy → List Task → State → State
  enqueue_all k [] s = s
  enqueue_all k (p ∷ ps) s = enqueue_all k ps (enqueue k p s)

  unfoldable pub dispatch_times : Policy → ℕ → State → State
  dispatch_times k zero s = s
  dispatch_times k (suc n) s = dispatch_times k n (dispatch k s)

  abbrev pub tasks : List (Entry Task) → List Task
  tasks = map λ e. e.task

  -- Without flags an insertion is at the end.
  insert_plain :
      (s : State) (e : Entry Task)
      → queue (scx.dsq_insert s e shared_dsq_id 0) shared_dsq_id ≡ queue s shared_dsq_id ++ e ∷ []
  insert_plain s e = rw scx.plain_at_end at (scx.insert_self s e shared_dsq_id 0 (omega arith))

  -- The entry goes to the end of the queue with its slice, and nothing runs.
  enqueue-queue :
      (k : Policy) (p : Task) (s : State)
      → queue (enqueue k p s) shared_dsq_id
        ≡ queue s shared_dsq_id
          ++ record { task = p; slice = slice k (length (queue s shared_dsq_id)); vtime = 0 } ∷ []
  unfolding enqueue Fifo.sched_enqueue SchedExt.sched_enqueue Fcfs.sched_enqueue slice
  enqueue-queue fifo p s =
      insert_plain s _
      ∙ ap
          (λ n. queue s shared_dsq_id ++ record { task = p; slice = share_slice n; vtime = 0 } ∷ [])
          (scx.nr_queued_lem s shared_dsq_id)
  enqueue-queue sched_ext p s =
      insert_plain s _
      ∙ ap
          (λ n. queue s shared_dsq_id ++ record { task = p; slice = share_slice n; vtime = 0 } ∷ [])
          (scx.nr_queued_lem s shared_dsq_id)
  enqueue-queue fcfs p s = insert_plain s _

  -- Under fifo and sched_ext a new task gets the share of 5 ms that falls to each of the tasks that
  -- wait already, rounded down; with none waiting it gets a slice of 0.
  slices_share :
      (p : Task) (s : State) (n : ℕ)
      → length (queue s shared_dsq_id) ≡ n
      → (e : Entry Task) × (queue (enqueue fifo p s) shared_dsq_id
          ≡ queue s shared_dsq_id ++ e ∷ [])
        × (queue (enqueue sched_ext p s) shared_dsq_id ≡ queue s shared_dsq_id ++ e ∷ [])
        × (((n ≡ 0) × (e.slice ≡ 0)) ⊎ ((e.slice * n ≤ 5000000) × (5000000 < (e.slice + 1) * n)))
  unfolding slice
  slices_share p s n h = (
    record { task = p; slice = share_slice n; vtime = 0 },
    rw (enqueue-queue fifo p s, h),
    rw (enqueue-queue sched_ext p s, h),
    elim (Bool-cases (n == 0)) [
      | inl z ↦ let e : n ≡ 0 = ground arith in inl (e, rw e)
      | inr z ↦ inr (grind arith, grind arith)
    ],
  )
