-- ===== src/Tests/Lifecycle.antt =====
-- The threads of daemon/aie_daemon.cpp on one run: start, a signal, and the end.
use ai_optimized_kernel_and.Prelude.{ℕ, ◌≡◌, ◌≢◌, ◌⊎◌, ◌≤◌, refl, true, false}
use ai_optimized_kernel_and.Daemon.Lifecycle.{
  in_body, returned, absent, looping, working, exited, Threads, shut_down, Step, init_done,
  run_starts, spawn_telemetry, spawn_decision, main_enters, main_loops, main_leaves, join_telemetry,
  join_decision, telemetry_enters, telemetry_loops, telemetry_leaves, decision_leaves, Reach, begin,
  step, signal, Steps, none, more,
}
use ai_optimized_kernel_and.Daemon.Lifecycle.Invariant.{returned_alone}
use ai_optimized_kernel_and.Daemon.Lifecycle.Ending.{completes, ends_in_eight, no_deadlock}

-- The main thread and the telemetry worker are in their loops.
abbrev busy : Threads
busy = record { running = true; main = in_body; telemetry = working; decision = looping }

busy-Reach : Reach busy
busy-Reach =
    step
      (step
        (step
          (step (step (step begin (init_done refl)) (run_starts refl refl)) (spawn_telemetry refl))
          (spawn_decision refl))
        (main_enters refl refl))
      (telemetry_enters refl refl)

abbrev stopping : Threads
stopping = record { running = false; main = in_body; telemetry = working; decision = looping }

abbrev stopped : Threads
stopped = record { running = false; main = returned 0; telemetry = exited; decision = exited }

end_of_all : Steps stopping 7 stopped
end_of_all =
    more
      (more
        (more
          (more
            (more (more (more none (main_loops refl)) (main_leaves refl refl))
              (telemetry_loops refl))
            (decision_leaves refl refl))
          (telemetry_leaves refl refl))
        (join_telemetry refl refl))
      (join_decision refl refl)

after : {s t : Threads} {n : ℕ} → Reach s → Steps s n t → Reach t
after r none = r
after r (more rest st) = step (after r rest) st

ends_in_eight_example : (7 ≤ 8) × (shut_down stopped ≡ stopped)
ends_in_eight_example = ends_in_eight {s = stopping} (signal busy-Reach) refl (λ e. cc) end_of_all

no_deadlock_example : ((t : Threads) × Step busy t) ⊎ ((code : ℕ) × (busy.main ≡ returned code))
no_deadlock_example = no_deadlock {s = busy} busy-Reach

returned_alone_example :
    ((◌≡◌ {A = ℕ} 0 0)
      × (stopped.telemetry ≡ exited)
      × (stopped.decision ≡ exited)
      × (stopped.running ≡ false))
    ⊎ ((◌≢◌ {A = ℕ} 0 0) × (stopped.telemetry ≡ absent) × (stopped.decision ≡ absent))
returned_alone_example = returned_alone {s = stopped} 0 (after (signal busy-Reach) end_of_all) refl

completes_example :
    (m : ℕ) × (u : Threads) × (code : ℕ) × Steps stopping m u × (u.main ≡ returned code) × (m ≤ 8)
completes_example = completes {s = stopping} (signal busy-Reach) refl (λ e. cc)
