-- ===== src/Daemon/Handover/Interleaving.antt =====
-- What an interleaving of the two workers of daemon/aie_daemon.cpp does to the decisions.
use ai_optimized_kernel_and.Prelude.{◌≡◌, ◌≢◌, refl, sym, subst, List, [], ◌∷◌, ◌++◌}
use ai_optimized_kernel_and.Types.{Decision}
use ai_optimized_kernel_and.Daemon.Handover.{
  Phase, before, holding, after, Shared, push_back, test_empty, write_decisions, clear, test_step,
  write_step, clear_step, step, run,
}

test_step-holding :
    (p : Phase) (ds : List Decision) (s : Shared)
    → p ≡ before
    → ds ≢ []
    → test_step p ds s ≡ record s { phase = holding }
unfolding test_step
test_step-holding before [] s e h = absurd (h refl)
test_step-holding before (d ∷ ds) s e h = refl
test_step-holding holding ds s e h = cc
test_step-holding after ds s e h = cc

-- With decisions pending, one that is appended between the call of write_decisions and the clear
-- that follows it is lost: afterwards the vector is empty, and the call was given only what was
-- pending before.
pub late_decision_is_lost :
    (s : Shared) (d : Decision)
    → s.phase ≡ before
    → s.pending ≢ []
    → let s' = run (test_empty ∷ write_decisions ∷ push_back d ∷ clear ∷ []) s in
      (s'.made ≡ s.made ++ d ∷ [])
      × (s'.given ≡ s.given ++ s.pending)
      × (s'.pending ≡ [])
      × (s'.phase ≡ before)
unfolding run step write_step clear_step
late_decision_is_lost s d b nonempty =
    subst
      (λ t.
        let s' = run (write_decisions ∷ push_back d ∷ clear ∷ []) t in
        (s'.made ≡ s.made ++ d ∷ [])
        × (s'.given ≡ s.given ++ s.pending)
        × (s'.pending ≡ [])
        × (s'.phase ≡ before))
      (sym (test_step-holding s.phase s.pending s b nonempty)) (refl, refl, refl, refl)
