-- ===== src/Daemon/Handover.antt =====
-- The vector pending_decisions_ of daemon/aie_daemon.cpp between the two worker threads, which share it
-- without a lock. The telemetry worker appends to it (classify_pending_tasks); the decision worker tests
-- whether it is empty, hands over what it holds and empties it, in three steps (push_decisions). Each
-- append, test, call with its arguments, and clear is taken as one step: as std::vector promises nothing
-- to unsynchronised threads, a run of the program may do worse than these interleavings.
pub mod Interleaving
use ai_optimized_kernel_and.Prelude.{ℕ, ◌≡◌, List, [], ◌∷◌, ◌++◌}
use ai_optimized_kernel_and.Types.{Decision}

-- Where the decision worker is in push_decisions: before the test, between the test that found the vector
-- not empty and the call of write_decisions, or between the call and the clear.
pub data Phase : Type 0 where
  before holding after : Phase

-- The vector, and the decisions that write_decisions was given and that the classifier made so far.
pub record Shared : Type 0 where
  pub pending : List Decision
  pub phase : Phase
  pub given : List Decision
  pub made : List Decision

abbrev pub start : Shared
start = record { pending = []; phase = before; given = []; made = [] }

pub data Action : Type 0 where
  push_back : Decision → Action
  test_empty write_decisions clear : Action

-- The three steps of the decision worker, each in its phase; the first with what is pending.
unfoldable pub test_step : Phase → List Decision → Shared → Shared
test_step before (d ∷ ds) s = record s { phase = holding }
test_step p ds s = s

unfoldable pub write_step : Phase → Shared → Shared
write_step holding s = record s { phase = after; given = s.given ++ s.pending }
write_step p s = s

unfoldable pub clear_step : Phase → Shared → Shared
clear_step after s = record s { pending = []; phase = before }
clear_step p s = s

unfoldable pub step : Action → Shared → Shared
unfolding test_step write_step clear_step
step (push_back d) s = record s { pending = s.pending ++ d ∷ []; made = s.made ++ d ∷ [] }
step test_empty s = test_step s.phase s.pending s
step write_decisions s = write_step s.phase s
step clear s = clear_step s.phase s

unfoldable pub run : List Action → Shared → Shared
run [] s = s
run (x ∷ xs) s = run xs (step x s)
