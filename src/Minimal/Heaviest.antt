-- ===== src/Minimal/Heaviest.antt =====
-- prio.bpf.c over whole histories: which task a dispatch picks.
use ai_optimized_kernel_and.Prelude.{
  ℕ, ◌-◌, ◌≤◌, ◌<◌, ◌≡◌, ◌⊎◌, inl, inr, ◌^◌, Bool, false, some, List, [], ◌∷◌, ◌++◌, arith,
  take_first,
}
use ai_optimized_kernel_and.Bpf.Scx.{Scx, Entry}
use ai_optimized_kernel_and.Minimal.Task.{Task, shared_dsq_id}
use ai_optimized_kernel_and.Minimal.Prio.{vtime_of_weight, sched_enqueue, sched_dispatch}
use ai_optimized_kernel_and.Minimal.Priority.{entry_of, enqueue-queue}
use ai_optimized_kernel_and.Minimal.Sorted.{
  IsSorted, NoneEarlier, insert-IsSorted, take_first-IsSorted, move-IsSorted,
}

abbrev weight : Entry Task → ℕ
weight e = e.task.weight

-- The key was made of a weight up to the default.
abbrev IsLight : Entry Task → Type 0
IsLight e = (weight e ≤ 100) × (e.vtime ≡ 100 - weight e)

light-lt : (e : Entry Task) → IsLight e → e.vtime < 2 ^ 63
light-lt e (h, k) = omega arith

-- Each task is one that the CPU may not run, or is not heavier.
abbrev pub NoneHeavier : (Entry Task → Bool) → ℕ → List (Entry Task) → Type 0
NoneHeavier may_run w [] = Unit {0}
NoneHeavier may_run w (e ∷ es) = ((may_run e ≡ false) ⊎ (weight e ≤ w)) × NoneHeavier may_run w es

-- The comparison of the keys is that of the weights.
NoneEarlier-NoneHeavier :
    (may_run : Entry Task → Bool) (a : Entry Task) (es : List (Entry Task))
    → IsLight a
    → NoneEarlier IsLight light-lt may_run a.vtime es
    → NoneHeavier may_run (weight a) es
NoneEarlier-NoneHeavier may_run a [] l h = tt
NoneEarlier-NoneHeavier may_run a (e ∷ es) l (inl n, h) =
    (inl n, NoneEarlier-NoneHeavier may_run a es l h)
NoneEarlier-NoneHeavier may_run a (e ∷ es) (la, va) (inr ((le, ve), k), h) =
    (inr (omega arith), NoneEarlier-NoneHeavier may_run a es (la, va) h)

-- The hooks that change the queue.
pub data Hook : Type 0 where
  enqueue : Task → ℕ → Hook
  dispatch : Hook

-- No task of the history is heavier than the default.
abbrev pub AllDefault : List Hook → Type 0
AllDefault [] = Unit {0}
AllDefault (enqueue p flags ∷ hs) = (p.weight ≤ 100) × AllDefault hs
AllDefault (dispatch ∷ hs) = AllDefault hs

module _ (scx : Scx Task) where
  open scx use {State, queue, local, may_run}

  unfoldable pub run_hook : Hook → State → State
  run_hook (enqueue p flags) s = sched_enqueue scx p flags s
  run_hook dispatch s = sched_dispatch scx s

  unfoldable pub run_hooks : List Hook → State → State
  run_hooks [] s = s
  run_hooks (h ∷ hs) s = run_hooks hs (run_hook h s)

  entry_of-IsLight : (p : Task) (s : State) → p.weight ≤ 100 → IsLight (entry_of scx p s)
  unfolding vtime_of_weight
  entry_of-IsLight p s h = (h, omega arith)

  sched_enqueue-IsSorted :
      (p : Task) (flags : ℕ) (s : State)
      → p.weight ≤ 100
      → IsSorted IsLight light-lt (queue s shared_dsq_id)
      → IsSorted IsLight light-lt (queue (sched_enqueue scx p flags s) shared_dsq_id)
  sched_enqueue-IsSorted p flags s h k = rw (enqueue-queue scx p flags s) (
      insert-IsSorted IsLight light-lt (entry_of scx p s) (queue s shared_dsq_id)
        (entry_of-IsLight p s h) k)

  sched_dispatch-IsSorted :
      (s : State)
      → IsSorted IsLight light-lt (queue s shared_dsq_id)
      → IsSorted IsLight light-lt (queue (sched_dispatch scx s) shared_dsq_id)
  unfolding sched_dispatch
  sched_dispatch-IsSorted s k = move-IsSorted IsLight light-lt scx s shared_dsq_id k

  run_hooks-IsSorted :
      (hs : List Hook) (s : State)
      → AllDefault hs
      → IsSorted IsLight light-lt (queue s shared_dsq_id)
      → IsSorted IsLight light-lt (queue (run_hooks hs s) shared_dsq_id)
  unfolding run_hooks run_hook
  run_hooks-IsSorted [] s a k = k
  run_hooks-IsSorted (enqueue p flags ∷ hs) s (h, a) k =
      run_hooks-IsSorted hs (sched_enqueue scx p flags s) a (sched_enqueue-IsSorted p flags s h k)
  run_hooks-IsSorted (dispatch ∷ hs) s a k =
      run_hooks-IsSorted hs (sched_dispatch scx s) a (sched_dispatch-IsSorted s k)

  -- After any history of hooks from an empty queue, with no task heavier than the default weight of 100,
  -- a dispatch runs the heaviest of the tasks that the CPU may run: it moves one to the local queue, and
  -- none that stays in the queue and that the CPU may run is heavier.
  pub heaviest_first :
      (hs : List Hook) (s : State) (e : Entry Task) (rest : List (Entry Task))
      → AllDefault hs
      → queue s shared_dsq_id ≡ []
      → take_first may_run (queue (run_hooks hs s) shared_dsq_id) ≡ some (e, rest)
      → let t = run_hooks hs s in
        (local (sched_dispatch scx t) ≡ local t ++ e ∷ [])
        × (queue (sched_dispatch scx t) shared_dsq_id ≡ rest)
        × NoneHeavier may_run e.task.weight rest
  unfolding sched_dispatch
  heaviest_first hs s e rest a q h =
      let t = run_hooks hs s in
      let m = scx.move_some t shared_dsq_id e rest h in
      let ordered = run_hooks-IsSorted hs s a (rw q tt) in
      let (keyed, _, none_earlier) =
        take_first-IsSorted IsLight light-lt may_run (queue t shared_dsq_id) e rest h ordered in
      (m.2, m.1, NoneEarlier-NoneHeavier may_run e rest keyed none_earlier)
