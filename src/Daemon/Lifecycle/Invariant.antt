-- ===== src/Daemon/Lifecycle/Invariant.antt =====
-- Which threads of daemon/aie_daemon.cpp exist when.
use ai_optimized_kernel_and.Prelude.{ℕ, ◌≡◌, ◌≢◌, ◌⊎◌, refl, false, arith}
use ai_optimized_kernel_and.Daemon.Lifecycle.{
  MainPc, initialising, initialised, spawning_telemetry, spawning_decision, at_head, in_body,
  joining_telemetry, joining_decision, returned, WorkerPc, absent, exited, Threads, start,
  shut_down, Step, init_done, init_failed, run_refuses, run_starts, spawn_telemetry, spawn_decision,
  main_enters, main_loops, main_leaves, join_telemetry, join_decision, telemetry_enters,
  telemetry_loops, telemetry_leaves, decision_enters, decision_loops, decision_leaves, Reach, begin,
  step, signal,
}

-- What the position of the main thread says of the workers.
abbrev pub Workers : MainPc → WorkerPc → WorkerPc → Type 0
Workers initialising t d = (t ≡ absent) × (d ≡ absent)
Workers initialised t d = (t ≡ absent) × (d ≡ absent)
Workers spawning_telemetry t d = (t ≡ absent) × (d ≡ absent)
Workers spawning_decision t d = (t ≢ absent) × (d ≡ absent)
Workers at_head t d = (t ≢ absent) × (d ≢ absent)
Workers in_body t d = (t ≢ absent) × (d ≢ absent)
Workers joining_telemetry t d = (t ≢ absent) × (d ≢ absent)
Workers joining_decision t d = (t ≡ exited) × (d ≢ absent)
Workers (returned code) t d =
    ((code ≡ 0) × (t ≡ exited) × (d ≡ exited)) ⊎ ((code ≢ 0) × (t ≡ absent) × (d ≡ absent))

pub record Inv (s : Threads) : Type 0 where
  pub workers : Workers s.main s.telemetry s.decision
  -- a thread leaves its loop only once the flag is down
  telemetry_down : s.telemetry ≡ exited → s.running ≡ false
  decision_down : s.decision ≡ exited → s.running ≡ false

pub Step-Inv : {s t : Threads} → Step s t → Inv s → Inv t
Step-Inv (init_done e) v = ground (arith, e)
Step-Inv (init_failed e) v = ground (arith, e)
Step-Inv (run_refuses e f) v = ground (arith, e)
Step-Inv (run_starts e f) v = ground (arith, e)
Step-Inv (spawn_telemetry e) v = ground (arith, e)
Step-Inv (spawn_decision e) v = ground (arith, e)
Step-Inv (main_enters e f) v = ground (arith, e)
Step-Inv (main_loops e) v = ground (arith, e)
Step-Inv (main_leaves e f) v = ground (arith, e)
Step-Inv (join_telemetry e f) v = ground (arith, e)
Step-Inv (join_decision e f) v = ground (arith, e)
Step-Inv (telemetry_enters e f) v = ground (arith, e)
Step-Inv (telemetry_loops e) v = ground (arith, e)
Step-Inv (telemetry_leaves e f) v = ground (arith, e)
Step-Inv (decision_enters e f) v = ground (arith, e)
Step-Inv (decision_loops e) v = ground (arith, e)
Step-Inv (decision_leaves e f) v = ground (arith, e)

shut_down-Inv : (s : Threads) → Inv s → Inv (shut_down s)
shut_down-Inv s v = record {
  workers = v.workers;
  telemetry_down = λ e. refl;
  decision_down = λ e. refl;
}

start-Inv : Inv start
start-Inv = record { workers = (refl, refl); telemetry_down = λ e. refl; decision_down = λ e. refl }

pub Reach-Inv : {s : Threads} → Reach s → Inv s
Reach-Inv begin = start-Inv
Reach-Inv (step r st) = Step-Inv st (Reach-Inv r)
Reach-Inv (signal {s} r) = shut_down-Inv s (Reach-Inv r)

-- Whenever main has returned, no worker runs. If it returned 0, both were created and have ended, and
-- the flag is down; otherwise none was ever created.
pub returned_alone :
    {s : Threads} (code : ℕ)
    → Reach s
    → s.main ≡ returned code
    → ((code ≡ 0) × (s.telemetry ≡ exited) × (s.decision ≡ exited) × (s.running ≡ false))
      ⊎ ((code ≢ 0) × (s.telemetry ≡ absent) × (s.decision ≡ absent))
returned_alone code r e =
    let v = Reach-Inv r in
    let w = v.workers in let down = v.telemetry_down in ground (arith, e, w, down)
