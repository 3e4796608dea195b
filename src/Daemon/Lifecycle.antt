-- ===== src/Daemon/Lifecycle.antt =====
-- The threads of daemon/aie_daemon.cpp from start to end: main with init and run, the two workers with
-- their loops, and the signal handler, which may run at any time. Only the control flow is here; what a
-- round of a worker does is in Daemon. A thread is always created.
pub mod Invariant
pub mod Ending
use ai_optimized_kernel_and.Prelude.{ℕ, ◌≡◌, ◌≢◌, Bool, true, false}
use ai_optimized_kernel_and.Ipc.Libbpf.{minus_one}

-- Where the main thread is: in init; at the test of run; at the creation of each thread; at the head or
-- in the body of the loop; at each join; or main has returned.
pub data MainPc : Type 0 where
  initialising initialised spawning_telemetry spawning_decision at_head in_body : MainPc
  joining_telemetry joining_decision : MainPc
  returned : ℕ → MainPc

-- Where a worker is: not created, at the head or in the body of its loop, or at its end.
pub data WorkerPc : Type 0 where
  absent looping working exited : WorkerPc

pub record Threads : Type 0 where
  pub running : Bool
  pub main : MainPc
  pub telemetry : WorkerPc
  pub decision : WorkerPc

-- main up to the call of init
abbrev pub start : Threads
start = record { running = false; main = initialising; telemetry = absent; decision = absent }

-- signal_handler, or another call of shutdown
abbrev pub shut_down : Threads → Threads
shut_down s = record s { running = false }

-- A step of a thread.
pub data Step (s : Threads) : Threads → Type 0 where
  init_done : s.main ≡ initialising → Step s (record s { running = true; main = initialised })
  init_failed : s.main ≡ initialising → Step s (record s { main = returned 1 })
  run_refuses :
      s.main ≡ initialised → s.running ≡ false → Step s (record s { main = returned minus_one })
  run_starts :
      s.main ≡ initialised → s.running ≡ true → Step s (record s { main = spawning_telemetry })
  spawn_telemetry :
      s.main ≡ spawning_telemetry
      → Step s (record s { main = spawning_decision; telemetry = looping })
  spawn_decision :
      s.main ≡ spawning_decision → Step s (record s { main = at_head; decision = looping })
  main_enters : s.main ≡ at_head → s.running ≡ true → Step s (record s { main = in_body })
  main_loops : s.main ≡ in_body → Step s (record s { main = at_head })
  main_leaves :
      s.main ≡ at_head → s.running ≡ false → Step s (record s { main = joining_telemetry })
  join_telemetry :
      s.main ≡ joining_telemetry
      → s.telemetry ≡ exited
      → Step s (record s { main = joining_decision })
  join_decision :
      s.main ≡ joining_decision → s.decision ≡ exited → Step s (record s { main = returned 0 })
  telemetry_enters :
      s.telemetry ≡ looping → s.running ≡ true → Step s (record s { telemetry = working })
  telemetry_loops : s.telemetry ≡ working → Step s (record s { telemetry = looping })
  telemetry_leaves :
      s.telemetry ≡ looping → s.running ≡ false → Step s (record s { telemetry = exited })
  decision_enters :
      s.decision ≡ looping → s.running ≡ true → Step s (record s { decision = working })
  decision_loops : s.decision ≡ working → Step s (record s { decision = looping })
  decision_leaves :
      s.decision ≡ looping → s.running ≡ false → Step s (record s { decision = exited })

-- The states that the program can reach, with signals at any time.
pub data Reach : Threads → Type 0 where
  begin : Reach start
  step : {s t : Threads} → Reach s → Step s t → Reach t
  signal : {s : Threads} → Reach s → Reach (shut_down s)

-- A number of steps with no signal between them.
pub data Steps (s : Threads) : ℕ → Threads → Type 0 where
  none : Steps s 0 s
  more : {n : ℕ} {t u : Threads} → Steps s n t → Step t u → Steps s (ℕ.suc n) u
