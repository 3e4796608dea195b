-- ===== src/Minimal/Earliest.antt =====
-- vtime.bpf.c over whole histories: which task a dispatch picks.
use ai_optimized_kernel_and.Prelude.{
  ℕ, ◌^◌, ◌<◌, ◌≡◌, ◌≢◌, sym, Bool, some, List, [], ◌∷◌, ◌++◌, arith, take_first,
}
use ai_optimized_kernel_and.Bpf.Scx.{Scx, Entry}
use ai_optimized_kernel_and.Minimal.Task.{Task, shared_dsq_id}
use ai_optimized_kernel_and.Minimal.Vtime.{
  Sched, sched_select_cpu, sched_enqueue, sched_dispatch, sched_running,
}
use ai_optimized_kernel_and.Minimal.VirtualTime.{
  Hook, select_cpu, enqueue, dispatch, running, run_hook, run_hooks, enqueue_keeps_vtime,
}
use ai_optimized_kernel_and.Minimal.Sorted.{
  IsSorted, NoneEarlier, insert-IsSorted, take_first-IsSorted, move-IsSorted,
}

abbrev pub IsEarly : Entry Task → Type 0
IsEarly e = e.vtime < 2 ^ 63

pub early-lt : (e : Entry Task) → IsEarly e → e.vtime < 2 ^ 63
early-lt e h = h

module _ (scx : Scx Task) (slice_dfl dsq_local : ℕ) where
  open scx use {State, queue, local, may_run}

  abbrev S : Type 0
  S = Sched scx slice_dfl dsq_local

  abbrev H : Type 0
  H = Hook scx slice_dfl dsq_local

  -- The virtual times of the tasks that are enqueued are below 2 ^ 63.
  abbrev pub AllEarly : List H → Type 0
  AllEarly [] = Unit {0}
  AllEarly (select_cpu p r ∷ hs) = AllEarly hs
  AllEarly (enqueue p flags ∷ hs) = (p.dsq_vtime < 2 ^ 63) × AllEarly hs
  AllEarly (dispatch ∷ hs) = AllEarly hs
  AllEarly (running p ∷ hs) = AllEarly hs

  abbrev IsOrdered : S → Type 0
  IsOrdered s = IsSorted IsEarly early-lt (queue s.dsqs shared_dsq_id)

  select_cpu-queue :
      (p : Task) (cpu : ℕ) (idle : Bool) (s : S)
      → dsq_local ≢ shared_dsq_id
      → queue (sched_select_cpu scx slice_dfl dsq_local p (cpu, idle) s).1.dsqs shared_dsq_id
        ≡ queue s.dsqs shared_dsq_id
  unfolding sched_select_cpu
  select_cpu-queue p cpu idle s ne =
      let q =
        scx.insert_ne s.dsqs (record { task = p; slice = slice_dfl; vtime = 0 }) dsq_local 0
          shared_dsq_id (λ e. ne (sym e)) in
      ground (arith, q)

  running-dsqs : (p : Task) (s : S) → (sched_running scx slice_dfl dsq_local p s).dsqs ≡ s.dsqs
  unfolding sched_running
  running-dsqs p s = ground arith

  run_hooks-IsOrdered :
      (hs : List H) (s : S)
      → dsq_local ≢ shared_dsq_id
      → AllEarly hs
      → IsOrdered s
      → IsOrdered (run_hooks scx slice_dfl dsq_local hs s)
  unfolding run_hooks run_hook
  run_hooks-IsOrdered [] s ne a k = k
  run_hooks-IsOrdered (select_cpu p (cpu, idle) ∷ hs) s ne a k =
      run_hooks-IsOrdered hs (sched_select_cpu scx slice_dfl dsq_local p (cpu, idle) s).1 ne a
        (rw (select_cpu-queue p cpu idle s ne) k)
  run_hooks-IsOrdered (enqueue p flags ∷ hs) s ne (h, a) k =
      run_hooks-IsOrdered hs (sched_enqueue scx slice_dfl dsq_local p flags s) ne a (
        rw (enqueue_keeps_vtime scx slice_dfl dsq_local p flags s)
          (insert-IsSorted IsEarly early-lt _ (queue s.dsqs shared_dsq_id) h k))
  run_hooks-IsOrdered (dispatch ∷ hs) s ne a k =
      run_hooks-IsOrdered hs (sched_dispatch scx slice_dfl dsq_local s) ne a
        (unfold sched_dispatch in move-IsSorted IsEarly early-lt scx s.dsqs shared_dsq_id k)
  run_hooks-IsOrdered (running p ∷ hs) s ne a k =
      run_hooks-IsOrdered hs (sched_running scx slice_dfl dsq_local p s) ne a
        (rw (running-dsqs p s) k)

  -- After any history of hooks from an empty queue, with virtual times below 2 ^ 63 and a local queue that
  -- is not the shared one, a dispatch runs a task of the least virtual time among those that the CPU may
  -- run: it moves one to the local queue, and none that stays and that the CPU may run is earlier.
  pub earliest_first :
      (hs : List H) (s : S) (e : Entry Task) (rest : List (Entry Task))
      → dsq_local ≢ shared_dsq_id
      → AllEarly hs
      → queue s.dsqs shared_dsq_id ≡ []
      → take_first may_run (queue (run_hooks scx slice_dfl dsq_local hs s).dsqs shared_dsq_id)
        ≡ some (e, rest)
      → let t = run_hooks scx slice_dfl dsq_local hs s in
        let t' = sched_dispatch scx slice_dfl dsq_local t in
        (local t'.dsqs ≡ local t.dsqs ++ e ∷ [])
        × (queue t'.dsqs shared_dsq_id ≡ rest)
        × NoneEarlier IsEarly early-lt may_run e.vtime rest
  unfolding sched_dispatch
  earliest_first hs s e rest ne a q h =
      let t = run_hooks scx slice_dfl dsq_local hs s in
      let m = scx.move_some t.dsqs shared_dsq_id e rest h in
      let k = run_hooks-IsOrdered hs s ne a (rw q tt) in
      (m.2, m.1, (take_first-IsSorted IsEarly early-lt may_run _ e rest h k).2)
