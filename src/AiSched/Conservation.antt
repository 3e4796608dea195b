-- ===== src/AiSched/Conservation.antt =====
-- No task is lost or duplicated by kernel/ai_sched.bpf.c.
use mathlib.Core.List.{Perm, perm_middle}
use mathlib.Core.List.Perm
use ai_optimized_kernel_and.Prelude.{
  Bool, insert_at, insert_at-Perm, ℕ, ◌<◌, ◌≡◌, ◌≢◌, inl, inr, sym, some, Option-cases, List, [],
  ◌∷◌, ◌++◌, map, append_assoc, arith, take_first, take_first-Perm, Once, gather, gather-Perm,
}
use ai_optimized_kernel_and.Bpf.Maps.{Maps}
use ai_optimized_kernel_and.Bpf.Scx.{Scx, Entry}
use ai_optimized_kernel_and.AiSched.Task.{Task}
use ai_optimized_kernel_and.AiSched.Hooks.{AiSched, Context, choose, enqueue, dispatch}
use ai_optimized_kernel_and.AiSched.Routing.{select_dsq-lt}
use ai_optimized_kernel_and.AiSched.Enqueue.{enqueue-Inserts}
use ai_optimized_kernel_and.AiSched.Dispatch.{Served, order, serve, dispatch_serves, dispatch_idle}
use ai_optimized_kernel_and.AiSched.Counting.{Event, enqueues, dispatches, writes, run, step}

abbrev pub Below : List ℕ → Type 0
Below [] = Unit {0}
Below (x ∷ xs) = (x < 5) × Below xs

pub order-Once : (d : ℕ) → d < 5 → Once d order
order-Once d h = ground arith

module _ (scx : Scx Task) where
  open scx use {State, queue, local, may_run}

  -- What ran on the CPU and what waits in the five queues.
  abbrev pub held : State → List (Entry Task)
  held s = local s ++ gather order (queue s)

  -- A task that is served is the first of its queue that may run, and the queue is one of the list.
  serve-take_first :
      (ds : List ℕ) (s : State) (d : ℕ) (e : Entry Task) (es : List (Entry Task))
      → Below ds
      → serve scx ds s ≡ some (d, e, es)
      → (d < 5) × (take_first may_run (queue s d) ≡ some (e, es))
  serve-take_first [] s d e es b h = cc
  serve-take_first (x ∷ xs) s d e es (lt, b) h =
      elim (Option-cases (take_first may_run (queue s x))) [
        | inl n ↦ serve-take_first xs s d e es b (ground (arith, h, n))
        | inr ((y, ys), n) ↦
            let q : (x ≡ d) × (y ≡ e) × (ys ≡ es) = ground (arith, h, n) in
            rw (← q.0, ← q.1, ← q.2) (lt, n)
      ]

  -- Whatever a move leaves, the tasks that are held are the same.
  serve-Perm :
      (s s' : State) (d : ℕ) (e : Entry Task) (es : List (Entry Task))
      → serve scx order s ≡ some (d, e, es)
      → Served scx d e es s s'
      → Perm (held s') (held s)
  serve-Perm s s' d e es h v =
      let (lt, t) = serve-take_first order s d e es (ground arith) h in
      let p : Perm (queue s d) (e ∷ queue s' d) =
        rw v.left (take_first-Perm may_run (queue s d) e es t) in
      let q : Perm (gather order (queue s)) (e ∷ gather order (queue s')) =
        gather-Perm (queue s') (queue s) d (λ d' ne. sym (v.others d' ne)) order e (order-Once d lt)
          p in
      rw (v.ran, append_assoc (local s) (e ∷ []) (gather order (queue s')))
        (Perm.append_left (local s) (Perm.symm q))

  -- An entry that is inserted in one of the five queues is one more that is held.
  insert-Perm :
      (s s' : State) (d : ℕ) (e : Entry Task) (head : Bool)
      → d < 5
      → local s' ≡ local s
      → queue s' d ≡ insert_at head e (queue s d)
      → ((d' : ℕ) → d' ≢ d → queue s' d' ≡ queue s d')
      → Perm (held s') (e ∷ held s)
  insert-Perm s s' d e head lt l q others =
      let p : Perm (queue s' d) (e ∷ queue s d) = rw q (insert_at-Perm head e (queue s d)) in
      rw l (
        Perm.trans
          (Perm.append_left (local s)
            (gather-Perm (queue s) (queue s') d others order e (order-Once d lt) p))
          (perm_middle (local s) (gather order (queue s))))

module _ (bpf : Maps) (scx : Scx Task) where
  open scx use {queue, local}

  -- The tasks of a history that are enqueued, the last first.
  abbrev pub tasks_of : List (Event bpf scx) → List Task
  tasks_of [] = []
  tasks_of (enqueues cx p flags ∷ es) = tasks_of es ++ p ∷ []
  tasks_of (dispatches ∷ es) = tasks_of es
  tasks_of (writes d m t ∷ es) = tasks_of es

  -- The tasks that are held by the state.
  abbrev pub tasks : AiSched bpf scx → List Task
  tasks s = map (λ e. e.task) (held scx s.dsqs)

  dispatch-Perm : (s : AiSched bpf scx) → Perm (tasks (dispatch bpf scx s)) (tasks s)
  dispatch-Perm s = elim (Option-cases (serve scx order s.dsqs)) [
    | inl n ↦ rw (dispatch_idle bpf scx s n) (Perm.refl (tasks s))
    | inr ((d, e, es), n) ↦
        Perm.map (λ x. x.task)
          (serve-Perm scx s.dsqs (dispatch bpf scx s).dsqs d e es n
            (dispatch_serves bpf scx s d e es n))
  ]

  enqueue-Perm :
      (cx : Context) (p : Task) (flags : ℕ) (s : AiSched bpf scx)
      → Perm (tasks (enqueue bpf scx cx p flags s)) (p ∷ tasks s)
  unfolding enqueue
  enqueue-Perm cx p flags s =
      let ch = choose bpf s.sched_decisions s.time_slices p in
      let lt = select_dsq-lt bpf s.energy_mode ch.task_class ch.preferred_device in
      let a = enqueue-Inserts bpf scx cx p flags s in
      Perm.map (λ x. x.task)
        (insert-Perm scx s.dsqs (enqueue bpf scx cx p flags s).dsqs _ _ (scx.at_head flags) lt
          (scx.insert_local _ _ _ flags (omega arith)) a.inserted a.others)

  -- After any history of enqueues, dispatches and writes of user space, the tasks that ran on the CPU
  -- and those that wait in the five queues are together, up to their order, those of the start and
  -- the enqueued ones: no task is lost, none is there twice, and none waits in a queue that no
  -- dispatch asks.
  conserved :
      (es : List (Event bpf scx)) (s : AiSched bpf scx)
      → Perm (tasks (run bpf scx es s)) (tasks_of es ++ tasks s)
  unfolding run step
  conserved [] s = Perm.refl (tasks s)
  conserved (enqueues cx p flags ∷ es) s = rw (append_assoc (tasks_of es) (p ∷ []) (tasks s)) (
      Perm.trans (conserved es (enqueue bpf scx cx p flags s))
        (Perm.append_left (tasks_of es) (enqueue-Perm cx p flags s)))
  conserved (dispatches ∷ es) s =
      Perm.trans (conserved es (dispatch bpf scx s))
        (Perm.append_left (tasks_of es) (dispatch-Perm s))
  conserved (writes d m t ∷ es) s =
      conserved es (record s { sched_decisions = d; energy_mode = m; time_slices = t })
