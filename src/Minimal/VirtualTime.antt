-- ===== src/Minimal/VirtualTime.antt =====
-- Virtual time in vtime.bpf.c: the clock, the clamp and the charge.
use ai_optimized_kernel_and.Prelude.{
  ℕ, ◌+◌, ◌-◌, ◌*◌, ◌/◌, ◌^◌, ◌≤◌, ◌<◌, ◌≡◌, refl, ap, ◌∙◌, Bool, false, List, [], ◌∷◌, arith,
  sub64, before64, insert_before, insert_before-first, mul64, u64_mod,
}
use native.Mathlib.Nat.{le-div_iff_mul-le, div-mul-le_self, le_trans, mul-le-mul_left}
use ai_optimized_kernel_and.Bpf.Scx.{Scx, Entry}
use ai_optimized_kernel_and.Minimal.Task.{Task, shared_dsq_id}
use ai_optimized_kernel_and.Minimal.Vtime.{
  is_smaller, Sched, sched_select_cpu, enqueue_vtime, sched_enqueue, sched_dispatch, sched_running,
  charge, sched_enable,
}

abbrev by_vtime : Entry Task → Entry Task → Bool
by_vtime x y = before64 x.vtime y.vtime

div_antitone : (x v w : ℕ) → 0 < v → v ≤ w → x / w ≤ x / v
div_antitone x v w pos h =
    (le-div_iff_mul-le pos).1 (le_trans (mul-le-mul_left (x / w) h) (div-mul-le_self x w))

-- No u64 is below zero.
is_smaller-false : (a b : ℕ) → is_smaller a b ≡ false
unfolding is_smaller
is_smaller-false a b = ground arith

module _ (scx : Scx Task) (slice_dfl dsq_local : ℕ) where
  open scx use {State, queue}

  abbrev S : Type 0
  S = Sched scx slice_dfl dsq_local

  -- The hooks that take the scheduler's state to a new one.
  pub data Hook : Type 0 where
    select_cpu : Task → ℕ × Bool → Hook
    enqueue : Task → ℕ → Hook
    dispatch : Hook
    running : Task → Hook

  unfoldable pub run_hook : Hook → S → S
  run_hook (select_cpu p r) s = (sched_select_cpu scx slice_dfl dsq_local p r s).1
  run_hook (enqueue p flags) s = sched_enqueue scx slice_dfl dsq_local p flags s
  run_hook dispatch s = sched_dispatch scx slice_dfl dsq_local s
  run_hook (running p) s = sched_running scx slice_dfl dsq_local p s

  unfoldable pub run_hooks : List Hook → S → S
  run_hooks [] s = s
  run_hooks (h ∷ hs) s = run_hooks hs (run_hook h s)

  run_hook-now : (h : Hook) (s : S) → (run_hook h s).vtime_now ≡ s.vtime_now
  unfolding run_hook sched_select_cpu sched_enqueue sched_dispatch sched_running
  run_hook-now (select_cpu p (cpu, idle)) s = ground arith
  run_hook-now (enqueue p flags) s = refl
  run_hook-now dispatch s = refl
  run_hook-now (running p) s = rw is_smaller-false

  -- The comparison of two u64 for a negative difference never holds, so the clock never advances: no
  -- history of hooks changes vtime_now, whatever virtual times the running tasks have.
  now_stands_still : (hs : List Hook) (s : S) → (run_hooks hs s).vtime_now ≡ s.vtime_now
  unfolding run_hooks
  now_stands_still [] s = refl
  now_stands_still (h ∷ hs) s = now_stands_still hs (run_hook h s) ∙ run_hook-now h s

  -- For the same reason an enqueue never limits the budget of a task that was idle: the task enters
  -- the queue at its own virtual time, however far that lies in the past.
  pub enqueue_keeps_vtime :
      (p : Task) (flags : ℕ) (s : S)
      → queue (sched_enqueue scx slice_dfl dsq_local p flags s).dsqs shared_dsq_id
        ≡ insert_before by_vtime
            (record { task = p; slice = slice_dfl; vtime = p.dsq_vtime })
            (queue s.dsqs shared_dsq_id)
  unfolding sched_enqueue enqueue_vtime
  enqueue_keeps_vtime p flags s =
      rw is_smaller-false (scx.insert_vtime_self s.dsqs _ shared_dsq_id flags)

  -- A task that is enabled after any history of hooks starts at the virtual time at which the clock
  -- began: it is queued before all others if the task at the front of the queue has a later virtual
  -- time, by less than 2 ^ 63.
  new_task_overtakes :
      (hs : List Hook) (s : S) (p : Task) (flags : ℕ) (e : Entry Task) (es : List (Entry Task))
      → queue (run_hooks hs s).dsqs shared_dsq_id ≡ e ∷ es
      → s.vtime_now < e.vtime
      → e.vtime < s.vtime_now + 2 ^ 63
      → e.vtime < u64_mod
      → let t = run_hooks hs s in
        let p' = sched_enable scx slice_dfl dsq_local p t in
        queue (sched_enqueue scx slice_dfl dsq_local p' flags t).dsqs shared_dsq_id
        ≡ record { task = p'; slice = slice_dfl; vtime = s.vtime_now } ∷ e ∷ es
  unfolding sched_enable
  new_task_overtakes hs s p flags e es q lt near small =
      let t = run_hooks hs s in
      let p' = sched_enable scx slice_dfl dsq_local p t in
      let new : Entry Task = record { task = p'; slice = slice_dfl; vtime = s.vtime_now } in
      enqueue_keeps_vtime p' flags t
      ∙ ap
          (λ v.
            insert_before by_vtime (record { task = p'; slice = slice_dfl; vtime = v })
              (queue t.dsqs shared_dsq_id))
          (now_stands_still hs s)
      ∙ ap (insert_before by_vtime new) q
      ∙ insert_before-first by_vtime new e es (ground arith)

  -- Where 100 times the slice fits in 64 bits, a run of at most one slice is charged by the time
  -- used, scaled by 100 over the weight and rounded down, and a heavier task never pays more than a
  -- lighter one for the same time.
  charge_scales :
      (p : Task) (w : ℕ)
      → p.slice ≤ slice_dfl
      → slice_dfl * 100 < u64_mod
      → 0 < p.weight
      → p.weight ≤ w
      → (charge scx slice_dfl dsq_local p * p.weight ≤ (slice_dfl - p.slice) * 100)
        × ((slice_dfl - p.slice) * 100 < (charge scx slice_dfl dsq_local p + 1) * p.weight)
        × (charge scx slice_dfl dsq_local (record p { weight = w })
            ≤ charge scx slice_dfl dsq_local p)
  unfolding charge
  charge_scales p w le small pos h =
      let used = slice_dfl - p.slice in
      let e : mul64 (sub64 slice_dfl p.slice) 100 ≡ used * 100 = omega arith in
      rw e (grind arith, grind arith, div_antitone (used * 100) p.weight w pos h)
