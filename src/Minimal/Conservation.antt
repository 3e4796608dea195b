-- ===== src/Minimal/Conservation.antt =====
-- None of the seven small schedulers loses a task.
use mathlib.Core.List.{Perm, perm_middle}
use mathlib.Core.List.Perm
use ai_optimized_kernel_and.Prelude.{
  ℕ, suc, ◌≡◌, refl, ◌∙◌, sym, inl, inr, true, Bool-cases, some, Option-cases, List, [], ◌∷◌, ◌++◌,
  map, append_assoc, arith, length, get_elem?, ◌&&◌, sub32, nonpos32, before64, take_first,
  take_first-Perm, insert_before-Perm, remove_at, remove_at-Perm, length-append, insert_at-Perm,
  ◌≢◌, Bool, false,
}
use ai_optimized_kernel_and.Bpf.Scx.{Scx, Entry}
use ai_optimized_kernel_and.Minimal.Task.{Task, shared_dsq_id}
use ai_optimized_kernel_and.Minimal.Draw.{draw}
use ai_optimized_kernel_and.Minimal.Fifo
use ai_optimized_kernel_and.Minimal.SchedExt
use ai_optimized_kernel_and.Minimal.Fcfs
use ai_optimized_kernel_and.Minimal.Prio
use ai_optimized_kernel_and.Minimal.Lottery
use ai_optimized_kernel_and.Minimal.LotteryPrio
use ai_optimized_kernel_and.Minimal.Vtime
use ai_optimized_kernel_and.Minimal.Vtime.{Sched}

pub data Policy : Type 0 where
  fifo sched_ext fcfs prio lottery lottery_prio vtime : Policy

-- A hook, with the flags, the random number or what scx_bpf_select_cpu_dfl yields. sched_select_cpu
-- and sched_running are vtime's alone; the others leave these calls to the kernel.
pub data Hook : Type 0 where
  selects : Task → ℕ × Bool → Hook
  enqueues : Task → ℕ → Hook
  dispatches : ℕ → Hook
  runs : Task → Hook

-- Whether the hook of the policy puts the task into the local queue: that of vtime does, where the CPU
-- is idle.
abbrev inserted_by : Policy → Task → Bool → List Task
inserted_by vtime p true = p ∷ []
inserted_by k p idle = []

-- What the hooks insert, the last first.
abbrev pub enqueued : Policy → List Hook → List Task
enqueued k [] = []
enqueued k (selects p (cpu, idle) ∷ hs) = enqueued k hs ++ inserted_by k p idle
enqueued k (enqueues p flags ∷ hs) = enqueued k hs ++ p ∷ []
enqueued k (dispatches random ∷ hs) = enqueued k hs
enqueued k (runs p ∷ hs) = enqueued k hs

module _ (scx : Scx Task) where
  open scx use {State, queue, local, may_run, dsq_move}

  abbrev held : State → List (Entry Task)
  held s = local s ++ queue s shared_dsq_id

  take-Perm : (s : State) → Perm (held (scx.dsq_move_to_local s shared_dsq_id).1) (held s)
  take-Perm s = elim (Option-cases (take_first may_run (queue s shared_dsq_id))) [
    | inl n ↦ rw (scx.move_none s shared_dsq_id n) (Perm.refl (held s))
    | inr ((e, rest), n) ↦
        let (_, left, ran) = scx.move_some s shared_dsq_id e rest n in
        rw (left, ran, append_assoc (local s) (e ∷ []) rest)
          (Perm.append_left (local s)
            (Perm.symm (take_first-Perm may_run (queue s shared_dsq_id) e rest n)))
  ]

  move-Perm :
      (s : State) (i : ℕ) (e : Entry Task)
      → get_elem? (queue s shared_dsq_id) i ≡ some e
      → (dsq_move s shared_dsq_id i scx.local_on_dsq scx.enq_preempt).0 ≡ true
      → Perm (held (dsq_move s shared_dsq_id i scx.local_on_dsq scx.enq_preempt).1) (held s)
  move-Perm s i e at ok =
      let rest = remove_at i (queue s shared_dsq_id) in
      let (ran, left) = scx.move_done s shared_dsq_id i scx.enq_preempt e at ok in
      rw (left, ran)
        (Perm.trans
          (Perm.append_right rest (insert_at-Perm (scx.at_head scx.enq_preempt) e (local s)))
          (Perm.trans (Perm.symm (perm_middle (local s) rest)) (
            Perm.append_left (local s)
              (Perm.symm (remove_at-Perm (queue s shared_dsq_id) i e at)))))

  get_elem?-after :
      {A : Type 0} (xs : List A) (e : A) (ys : List A)
      → get_elem? (xs ++ e ∷ ys) (length xs) ≡ some e
  get_elem?-after [] e ys = refl
  get_elem?-after (x ∷ xs) e ys = get_elem?-after xs e ys

  -- Wherever the iteration of a lottery stands in the queue, it moves one task or none.
  draw-Perm :
      (cost : Entry Task → ℕ) (es past : List (Entry Task)) (random : ℕ) (s : State)
      → queue s shared_dsq_id ≡ past ++ es
      → Perm (held (draw scx cost es (length past) random s)) (held s)
  unfolding draw
  draw-Perm cost [] past random s q = Perm.refl (held s)
  draw-Perm cost (e ∷ es) past random s q =
      let i = length past in
      let at : get_elem? (queue s shared_dsq_id) i ≡ some e = rw q (get_elem?-after past e es) in
      let next : queue s shared_dsq_id ≡ (past ++ e ∷ []) ++ es =
        q ∙ sym (append_assoc past (e ∷ []) es) in
      let n : length (past ++ e ∷ []) ≡ suc i = omega (arith, length-append past (e ∷ [])) in
      let go = rw n at (draw-Perm cost es (past ++ e ∷ []) (sub32 random (cost e)) s next) in
      elim (Bool-cases (nonpos32 (sub32 random (cost e)) && may_run e)) [
        | inl drawn ↦
            elim (Bool-cases (dsq_move s shared_dsq_id i scx.local_on_dsq scx.enq_preempt).0) [
              | inl ok ↦ rw (draw, drawn, ok) (move-Perm s i e at ok)
              | inr failed ↦
                  rw
                    (
                      draw,
                      drawn,
                      failed,
                      scx.move_failed s shared_dsq_id i scx.local_on_dsq scx.enq_preempt failed,
                    )
                    go
            ]
        | inr not_drawn ↦ rw (draw, not_drawn) go
      ]

  insert-Perm :
      (s : State) (e : Entry Task) (flags : ℕ)
      → Perm (held (scx.dsq_insert s e shared_dsq_id flags)) (e ∷ held s)
  insert-Perm s e flags =
      rw
        (
          scx.insert_self s e shared_dsq_id flags (omega arith),
          scx.insert_local s e shared_dsq_id flags (omega arith),
        )
        (Perm.trans
          (Perm.append_left (local s)
            (insert_at-Perm (scx.at_head flags) e (queue s shared_dsq_id)))
          (perm_middle (local s) (queue s shared_dsq_id)))

  insert_to_local-Perm :
      (s : State) (e : Entry Task) (flags : ℕ)
      → Perm (held (scx.dsq_insert s e scx.local_dsq flags)) (e ∷ held s)
  insert_to_local-Perm s e flags =
      let ne : shared_dsq_id ≢ scx.local_dsq = omega (arith, scx.builtin_local_dsq) in
      rw (scx.insert_to_local s e flags, scx.insert_ne s e scx.local_dsq flags shared_dsq_id ne)
        (Perm.append_right (queue s shared_dsq_id) (insert_at-Perm (scx.at_head flags) e (local s)))

  insert_vtime-Perm :
      (s : State) (e : Entry Task) (flags : ℕ)
      → Perm (held (scx.dsq_insert_vtime s e shared_dsq_id flags)) (e ∷ held s)
  insert_vtime-Perm s e flags =
      rw
        (
          scx.insert_vtime_self s e shared_dsq_id flags,
          scx.insert_vtime_local s e shared_dsq_id flags (omega arith),
        )
        (Perm.trans
          (Perm.append_left (local s)
            (insert_before-Perm (λ x y. before64 x.vtime y.vtime) e (queue s shared_dsq_id)))
          (perm_middle (local s) (queue s shared_dsq_id)))

-- The parameter is SCX_SLICE_DFL.
module _ (scx : Scx Task) (slice_dfl : ℕ) where
  abbrev pub World : Type 0
  World = Sched scx slice_dfl scx.local_dsq

  unfoldable pub select_cpu : Policy → Task → ℕ × Bool → World → World
  select_cpu vtime p picked s = (Vtime.sched_select_cpu scx slice_dfl scx.local_dsq p picked s).1
  select_cpu k p picked s = s

  unfoldable pub enqueue : Policy → Task → ℕ → World → World
  enqueue fifo p flags s = record s { dsqs = Fifo.sched_enqueue scx p flags s.dsqs }
  enqueue sched_ext p flags s = record s { dsqs = SchedExt.sched_enqueue scx p flags s.dsqs }
  enqueue fcfs p flags s = record s { dsqs = Fcfs.sched_enqueue scx p flags s.dsqs }
  enqueue prio p flags s = record s { dsqs = Prio.sched_enqueue scx p flags s.dsqs }
  enqueue lottery p flags s = record s { dsqs = Lottery.sched_enqueue scx p flags s.dsqs }
  enqueue lottery_prio p flags s = record s { dsqs = LotteryPrio.sched_enqueue scx p flags s.dsqs }
  enqueue vtime p flags s = Vtime.sched_enqueue scx slice_dfl scx.local_dsq p flags s

  unfoldable pub dispatch : Policy → ℕ → World → World
  dispatch fifo random s = record s { dsqs = Fifo.sched_dispatch scx s.dsqs }
  dispatch sched_ext random s = record s { dsqs = SchedExt.sched_dispatch scx s.dsqs }
  dispatch fcfs random s = record s { dsqs = Fcfs.sched_dispatch scx s.dsqs }
  dispatch prio random s = record s { dsqs = Prio.sched_dispatch scx s.dsqs }
  dispatch lottery random s = record s { dsqs = Lottery.sched_dispatch scx random s.dsqs }
  dispatch lottery_prio random s = record s { dsqs = LotteryPrio.sched_dispatch scx random s.dsqs }
  dispatch vtime random s = Vtime.sched_dispatch scx slice_dfl scx.local_dsq s

  unfoldable pub running : Policy → Task → World → World
  running vtime p s = Vtime.sched_running scx slice_dfl scx.local_dsq p s
  running k p s = s

  unfoldable pub run : Policy → List Hook → World → World
  run k [] s = s
  run k (selects p picked ∷ hs) s = run k hs (select_cpu k p picked s)
  run k (enqueues p flags ∷ hs) s = run k hs (enqueue k p flags s)
  run k (dispatches random ∷ hs) s = run k hs (dispatch k random s)
  run k (runs p ∷ hs) s = run k hs (running k p s)

  abbrev pub tasks : World → List Task
  tasks s = map (λ e. e.task) (held scx s.dsqs)

  select_cpu-Perm :
      (k : Policy) (p : Task) (cpu : ℕ) (idle : Bool) (s : World)
      → Perm (tasks (select_cpu k p (cpu, idle) s)) (inserted_by k p idle ++ tasks s)
  unfolding select_cpu Vtime.sched_select_cpu
  select_cpu-Perm fifo p cpu idle s = Perm.refl (tasks s)
  select_cpu-Perm sched_ext p cpu idle s = Perm.refl (tasks s)
  select_cpu-Perm fcfs p cpu idle s = Perm.refl (tasks s)
  select_cpu-Perm prio p cpu idle s = Perm.refl (tasks s)
  select_cpu-Perm lottery p cpu idle s = Perm.refl (tasks s)
  select_cpu-Perm lottery_prio p cpu idle s = Perm.refl (tasks s)
  select_cpu-Perm vtime p cpu false s = Perm.refl (tasks s)
  select_cpu-Perm vtime p cpu true s = Perm.map (λ e. e.task) (insert_to_local-Perm scx s.dsqs _ 0)

  enqueue-Perm :
      (k : Policy) (p : Task) (flags : ℕ) (s : World)
      → Perm (tasks (enqueue k p flags s)) (p ∷ tasks s)
  unfolding enqueue Fifo.sched_enqueue SchedExt.sched_enqueue Fcfs.sched_enqueue Prio.sched_enqueue
      Lottery.sched_enqueue LotteryPrio.sched_enqueue Vtime.sched_enqueue
  enqueue-Perm fifo p flags s = Perm.map (λ e. e.task) (insert-Perm scx s.dsqs _ flags)
  enqueue-Perm sched_ext p flags s = Perm.map (λ e. e.task) (insert-Perm scx s.dsqs _ flags)
  enqueue-Perm fcfs p flags s = Perm.map (λ e. e.task) (insert-Perm scx s.dsqs _ flags)
  enqueue-Perm prio p flags s = Perm.map (λ e. e.task) (insert_vtime-Perm scx s.dsqs _ flags)
  enqueue-Perm lottery p flags s = Perm.map (λ e. e.task) (insert-Perm scx s.dsqs _ flags)
  enqueue-Perm lottery_prio p flags s = Perm.map (λ e. e.task) (insert-Perm scx s.dsqs _ flags)
  enqueue-Perm vtime p flags s = Perm.map (λ e. e.task) (insert_vtime-Perm scx s.dsqs _ flags)

  dispatch-Perm :
      (k : Policy) (random : ℕ) (s : World) → Perm (tasks (dispatch k random s)) (tasks s)
  unfolding dispatch Fifo.sched_dispatch SchedExt.sched_dispatch Fcfs.sched_dispatch
      Prio.sched_dispatch Lottery.sched_dispatch LotteryPrio.sched_dispatch Vtime.sched_dispatch
  dispatch-Perm fifo random s = Perm.map (λ e. e.task) (take-Perm scx s.dsqs)
  dispatch-Perm sched_ext random s = Perm.map (λ e. e.task) (take-Perm scx s.dsqs)
  dispatch-Perm fcfs random s = Perm.map (λ e. e.task) (take-Perm scx s.dsqs)
  dispatch-Perm prio random s = Perm.map (λ e. e.task) (take-Perm scx s.dsqs)
  dispatch-Perm lottery random s =
      Perm.map (λ e. e.task)
        (draw-Perm scx (λ e. 1) (scx.queue s.dsqs shared_dsq_id) [] _ s.dsqs refl)
  dispatch-Perm lottery_prio random s =
      Perm.map (λ e. e.task)
        (draw-Perm scx (λ e. e.task.weight) (scx.queue s.dsqs shared_dsq_id) [] _ s.dsqs refl)
  dispatch-Perm vtime random s = Perm.map (λ e. e.task) (take-Perm scx s.dsqs)

  running-Perm : (k : Policy) (p : Task) (s : World) → tasks (running k p s) ≡ tasks s
  unfolding running Vtime.sched_running
  running-Perm fifo p s = refl
  running-Perm sched_ext p s = refl
  running-Perm fcfs p s = refl
  running-Perm prio p s = refl
  running-Perm lottery p s = refl
  running-Perm lottery_prio p s = refl
  running-Perm vtime p s = elim (Bool-cases (Vtime.is_smaller s.vtime_now p.dsq_vtime)) [
    | inl y ↦ rw (running, Vtime.sched_running, y) refl
    | inr n ↦ rw (running, Vtime.sched_running, n) refl
  ]

  -- Under each of the seven schedulers, on one CPU, after any history of calls of sched_select_cpu,
  -- sched_enqueue, sched_dispatch with any random numbers, and sched_running: the tasks that ran on the
  -- CPU and those that wait are together, up to their order, those of the start and the inserted ones.
  -- A call of sched_enqueue inserts its task, with any flags; sched_select_cpu inserts its task under
  -- vtime where the kernel found the CPU idle, and under the others it is not theirs.
  pub none_is_lost :
      (k : Policy) (hs : List Hook) (s : World)
      → Perm (tasks (run k hs s)) (enqueued k hs ++ tasks s)
  unfolding run
  none_is_lost k [] s = Perm.refl (tasks s)
  none_is_lost k (selects p (cpu, idle) ∷ hs) s =
      rw (append_assoc (enqueued k hs) (inserted_by k p idle) (tasks s)) (
        Perm.trans (none_is_lost k hs (select_cpu k p (cpu, idle) s))
          (Perm.append_left (enqueued k hs) (select_cpu-Perm k p cpu idle s)))
  none_is_lost k (enqueues p flags ∷ hs) s = rw (append_assoc (enqueued k hs) (p ∷ []) (tasks s)) (
      Perm.trans (none_is_lost k hs (enqueue k p flags s))
        (Perm.append_left (enqueued k hs) (enqueue-Perm k p flags s)))
  none_is_lost k (dispatches random ∷ hs) s =
      Perm.trans (none_is_lost k hs (dispatch k random s))
        (Perm.append_left (enqueued k hs) (dispatch-Perm k random s))
  none_is_lost k (runs p ∷ hs) s = rw (running-Perm k p s) at (none_is_lost k hs (running k p s))
