-- ===== src/Daemon/Lifecycle/Ending.antt =====
-- How daemon/aie_daemon.cpp ends once the flag is down.
use ai_optimized_kernel_and.Prelude.{
  ℕ, zero, suc, ◌+◌, ◌≤◌, ◌<◌, ◌≡◌, ◌≢◌, ◌⊎◌, inl, inr, refl, true, false, arith, Bool-cases,
}
use ai_optimized_kernel_and.Daemon.Lifecycle.{
  MainPc, initialising, initialised, spawning_telemetry, spawning_decision, at_head, in_body,
  joining_telemetry, joining_decision, returned, WorkerPc, absent, looping, working, exited,
  Threads, shut_down, Step, init_done, init_failed, run_refuses, run_starts, spawn_telemetry,
  spawn_decision, main_enters, main_loops, main_leaves, join_telemetry, join_decision,
  telemetry_enters, telemetry_loops, telemetry_leaves, decision_enters, decision_loops,
  decision_leaves, Reach, step, Steps, none, more,
}
use ai_optimized_kernel_and.Daemon.Lifecycle.Invariant.{Workers, Inv, Step-Inv, Reach-Inv}

-- The steps that are left to a worker, and to the main thread with the workers that it creates.
abbrev worker_left : WorkerPc → ℕ
worker_left absent = 0
worker_left looping = 1
worker_left working = 2
worker_left exited = 0

abbrev main_left : MainPc → ℕ
main_left initialising = 0
main_left initialised = 1
main_left spawning_telemetry = 7
main_left spawning_decision = 5
main_left at_head = 3
main_left in_body = 4
main_left joining_telemetry = 2
main_left joining_decision = 1
main_left (returned code) = 0

abbrev left : Threads → ℕ
left s = main_left s.main + worker_left s.telemetry + worker_left s.decision

-- Past init the flag stays down, and a step uses up one of those that are left.
Step-left :
    {s t : Threads}
    → Step s t
    → s.running ≡ false
    → s.main ≢ initialising
    → Workers s.main s.telemetry s.decision
    → (t.running ≡ false) × (t.main ≢ initialising) × (left t < left s)
Step-left (init_done e) d m w = absurd (m e)
Step-left (init_failed e) d m w = absurd (m e)
Step-left (run_refuses e f) d m w = ground (arith, e)
Step-left (run_starts e f) d m w = cc
Step-left (spawn_telemetry e) d m w = ground (arith, e)
Step-left (spawn_decision e) d m w = ground (arith, e)
Step-left (main_enters e f) d m w = cc
Step-left (main_loops e) d m w = ground (arith, e)
Step-left (main_leaves e f) d m w = ground (arith, e)
Step-left (join_telemetry e f) d m w = ground (arith, e)
Step-left (join_decision e f) d m w = ground (arith, e)
Step-left (telemetry_enters e f) d m w = cc
Step-left (telemetry_loops e) d m w = ground (arith, e)
Step-left (telemetry_leaves e f) d m w = ground (arith, e)
Step-left (decision_enters e f) d m w = cc
Step-left (decision_loops e) d m w = ground (arith, e)
Step-left (decision_leaves e f) d m w = ground (arith, e)

Steps-left :
    {s t : Threads} {n : ℕ}
    → Steps s n t
    → s.running ≡ false
    → s.main ≢ initialising
    → Inv s
    → (t.running ≡ false) × (t.main ≢ initialising) × Inv t × (n + left t ≤ left s)
Steps-left none d m v = (d, m, v, omega arith)
Steps-left (more r st) d m v =
    let (d', m', v', le) = Steps-left r d m v in
    let (d'', m'', lt) = Step-left st d' m' v'.workers in (d'', m'', Step-Inv st v', omega arith)

left-le :
    (p : MainPc) (t d : WorkerPc) → Workers p t d → main_left p + worker_left t + worker_left d ≤ 8
left-le p t d w = ground arith

-- Once init is over and the flag is down, the threads of the daemon take at most eight more steps
-- between them, a signal that comes again included, since it changes nothing.
pub ends_in_eight :
    {s t : Threads} {n : ℕ}
    → Reach s
    → s.running ≡ false
    → s.main ≢ initialising
    → Steps s n t
    → (n ≤ 8) × (shut_down t ≡ t)
ends_in_eight {s} r d m run =
    let v = Reach-Inv r in
    let (d', _, _, le) = Steps-left run d m v in
    (omega (arith, left-le s.main s.telemetry s.decision v.workers), cc (d'))

module _ (s : Threads) where
  -- A worker that was created can go on or has ended.
  telemetry_goes_on : s.telemetry ≢ absent → ((t : Threads) × Step s t) ⊎ (s.telemetry ≡ exited)
  telemetry_goes_on h = goes s.telemetry refl
    where
      goes : (p : WorkerPc) → s.telemetry ≡ p → ((t : Threads) × Step s t) ⊎ (s.telemetry ≡ exited)
      goes absent e = absurd (h e)
      goes looping e = elim (Bool-cases s.running) [
        | inl up ↦ inl (_, telemetry_enters e up)
        | inr down ↦ inl (_, telemetry_leaves e down)
      ]
      goes working e = inl (_, telemetry_loops e)
      goes exited e = inr e

  decision_goes_on : s.decision ≢ absent → ((t : Threads) × Step s t) ⊎ (s.decision ≡ exited)
  decision_goes_on h = goes s.decision refl
    where
      goes : (p : WorkerPc) → s.decision ≡ p → ((t : Threads) × Step s t) ⊎ (s.decision ≡ exited)
      goes absent e = absurd (h e)
      goes looping e = elim (Bool-cases s.running) [
        | inl up ↦ inl (_, decision_enters e up)
        | inr down ↦ inl (_, decision_leaves e down)
      ]
      goes working e = inl (_, decision_loops e)
      goes exited e = inr e

  main_goes_on :
      (p : MainPc)
      → s.main ≡ p
      → Workers p s.telemetry s.decision
      → ((t : Threads) × Step s t) ⊎ ((code : ℕ) × (s.main ≡ returned code))
  main_goes_on initialising e w = inl (_, init_done e)
  main_goes_on initialised e w = elim (Bool-cases s.running) [
    | inl up ↦ inl (_, run_starts e up)
    | inr down ↦ inl (_, run_refuses e down)
  ]
  main_goes_on spawning_telemetry e w = inl (_, spawn_telemetry e)
  main_goes_on spawning_decision e w = inl (_, spawn_decision e)
  main_goes_on at_head e w = elim (Bool-cases s.running) [
    | inl up ↦ inl (_, main_enters e up)
    | inr down ↦ inl (_, main_leaves e down)
  ]
  main_goes_on in_body e w = inl (_, main_loops e)
  main_goes_on joining_telemetry e w = elim (telemetry_goes_on w.0) [
    | inl go ↦ inl go
    | inr ended ↦ inl (_, join_telemetry e ended)
  ]
  main_goes_on joining_decision e w = elim (decision_goes_on w.1) [
    | inl go ↦ inl go
    | inr ended ↦ inl (_, join_decision e ended)
  ]
  main_goes_on (returned code) e w = inr (code, e)

-- The daemon never hangs: as long as main has not returned, some thread can take a step.
pub no_deadlock :
    {s : Threads} → Reach s → ((t : Threads) × Step s t) ⊎ ((code : ℕ) × (s.main ≡ returned code))
no_deadlock {s} r = main_goes_on s s.main refl (Reach-Inv r).workers

-- The last threads run to their end, within so many more steps.
finishes :
    (k : ℕ) {s t : Threads} {n : ℕ}
    → Reach t
    → Steps s n t
    → t.running ≡ false
    → t.main ≢ initialising
    → left t ≤ k
    → (m : ℕ) × (u : Threads) × (code : ℕ) × Steps s m u × (u.main ≡ returned code)
finishes zero {s} {t} {n} r steps d m le = elim (no_deadlock r) [
  | inr (code, e) ↦ (n, t, code, steps, e)
  | inl (u, st) ↦ let (_, _, lt) = Step-left st d m (Reach-Inv r).workers in absurd (omega arith)
]
finishes (suc k) {s} {t} {n} r steps d m le = elim (no_deadlock r) [
  | inr (code, e) ↦ (n, t, code, steps, e)
  | inl (u, st) ↦
      let (d', m', lt) = Step-left st d m (Reach-Inv r).workers in
      finishes k (step r st) (more steps st) d' m' (omega arith)
]

-- A shutdown completes: once init is over and the flag is down, at most eight steps of the threads lead
-- to the return of main, from wherever each of them is.
pub completes :
    {s : Threads}
    → Reach s
    → s.running ≡ false
    → s.main ≢ initialising
    → (m : ℕ) × (u : Threads) × (code : ℕ) × Steps s m u × (u.main ≡ returned code) × (m ≤ 8)
completes {s} r d m =
    let (k, u, code, steps, e) = finishes (left s) r none d m (omega arith) in
    (k, u, code, steps, e, (ends_in_eight r d m steps).0)

-- A signal that comes during init is forgotten: init raises the flag, and the daemon goes on to run.
early_signal_is_lost :
    {s : Threads}
    → Reach s
    → s.main ≡ initialising
    → (t : Threads) × Step (shut_down s) t × Step s t × (t.running ≡ true)
early_signal_is_lost {s} r e =
    (record s { running = true; main = initialised }, init_done e, init_done e, refl)
