-- ===== src/Classifier/Heuristic.antt =====
-- What the heuristic of ai/classifier.cpp makes of a telemetry sample.
use ai_optimized_kernel_and.Prelude.{ℕ, ◌≤◌, ◌<◌, ◌≡◌, ◌≢◌, ◌⊎◌, some, arith}
use ai_optimized_kernel_and.Types.{Telemetry}
use ai_optimized_kernel_and.Types.TaskClass
use ai_optimized_kernel_and.Telemetry.{fork_event}
use ai_optimized_kernel_and.Classifier.{classify_heuristic}

-- The comparison with -10 is made on unsigned numbers: a sample of a scheduling class other than 0
-- and 5, with at least 40 percent of CPU, is REALTIME_AI exactly unless its nice value is one of -9
-- to -1. So a task of the default nice value 0, or of any lower priority, counts as real time.
realtime_iff_nice :
    (t : Telemetry)
    → t.sched_class ≢ 0
    → t.sched_class ≢ 5
    → 40 ≤ t.cpu_util_recent
    → t.nice_value < 0x100000000
    → ((classify_heuristic (some t) ≡ TaskClass.realtime_ai) × (t.nice_value ≤ 0xFFFFFFF6))
      ⊎ ((classify_heuristic (some t) ≢ TaskClass.realtime_ai) × (0xFFFFFFF7 ≤ t.nice_value))
unfolding classify_heuristic
realtime_iff_nice t a b cpu range = ground arith

-- Every process that the fork tracepoint reports is classified REALTIME_AI, whatever it is.
fork_is_realtime :
    (child : ℕ) (stale : Telemetry)
    → classify_heuristic (some (fork_event child stale)) ≡ TaskClass.realtime_ai
unfolding classify_heuristic
fork_is_realtime child stale = ground arith

-- More CPU time, with all else equal, never makes the class less urgent, and never leads to UNKNOWN.
classify_heuristic_mono :
    (t : Telemetry) (cpu : ℕ)
    → t.cpu_util_recent ≤ cpu
    → (classify_heuristic (some (record t { cpu_util_recent = cpu })) ≤ classify_heuristic (some t))
      × (classify_heuristic (some t) < TaskClass.unknown)
unfolding classify_heuristic
classify_heuristic_mono t cpu h = ground arith
