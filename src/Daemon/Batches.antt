-- ===== src/Daemon/Batches.antt =====
-- classify_pending_tasks of daemon/aie_daemon.cpp.
use ai_optimized_kernel_and.Prelude.{
  ℕ, suc, ◌≡◌, refl, sym, ap, ◌∙◌, some, List, [], ◌∷◌, ◌++◌, append-nil, append_assoc, arith,
}
use ai_optimized_kernel_and.Types.{Telemetry, Decision}
use ai_optimized_kernel_and.Classifier
use ai_optimized_kernel_and.Classifier.{Timespec, decision_for, classify_heuristic}
use ai_optimized_kernel_and.Onnx.{Runtime}
use ai_optimized_kernel_and.Backends.{DeviceManager}
use ai_optimized_kernel_and.Daemon.{
  AieDaemon, heuristic, Progress, engine_classify, classify_one, classify_each,
  classify_pending_tasks,
}

-- The decision for each sample, in order, at the time of its round.
decide_all : (ℕ → Timespec × Timespec × Timespec) → ℕ → List Telemetry → List Decision
decide_all clock i [] = []
decide_all clock i (t ∷ ts) =
    decision_for (clock i).1 t (classify_heuristic (some t)) ∷ decide_all clock (suc i) ts

module _ (rt : Runtime) where
  classify_one-heuristic :
      (m : DeviceManager) (c : Timespec × Timespec × Timespec) (t : Telemetry) (p : Progress rt)
      → p.engine ≡ heuristic
      → ((classify_one rt m c t p).engine ≡ heuristic)
        × ((classify_one rt m c t p).decisions
            ≡ p.decisions ++ decision_for c.1 t (classify_heuristic (some t)) ∷ [])
  unfolding classify_one engine_classify Classifier.classify
  classify_one-heuristic m c t p h = ground (arith, h)

  classify_each-heuristic :
      (m : DeviceManager) (clock : ℕ → Timespec × Timespec × Timespec) (i : ℕ) (ts : List Telemetry)
      (p : Progress rt)
      → p.engine ≡ heuristic
      → ((classify_each rt m clock i ts p).engine ≡ heuristic)
        × ((classify_each rt m clock i ts p).decisions ≡ p.decisions ++ decide_all clock i ts)
  unfolding classify_each decide_all
  classify_each-heuristic m clock i [] p h = (h, sym (append-nil p.decisions))
  classify_each-heuristic m clock i (t ∷ ts) p h =
      let one = classify_one-heuristic m (clock i) t p h in
      let rest =
        classify_each-heuristic m clock (suc i) ts (classify_one rt m (clock i) t p) one.0 in
      (
        rest.0,
        rest.1
            ∙ ap (λ l. l ++ decide_all clock (suc i) ts) one.1
            ∙ append_assoc p.decisions _ (decide_all clock (suc i) ts),
      )

  -- With the heuristic classifier a batch turns every pending sample into one decision, in order, behind
  -- the decisions that are pending already, and leaves no sample pending.
  batch_decides :
      (clock : ℕ → Timespec × Timespec × Timespec) (s : AieDaemon rt)
      → s.classifier ≡ some heuristic
      → let s' = classify_pending_tasks rt clock s in
        (s'.pending_decisions ≡ s.pending_decisions ++ decide_all clock 0 s.pending_telemetry)
        × (s'.pending_telemetry ≡ [])
        × (s'.classifier ≡ some heuristic)
        × (s'.written ≡ s.written)
  unfolding classify_pending_tasks
  batch_decides clock s h =
      let start : Progress rt = record {
        engine = heuristic;
        decisions = s.pending_decisions;
        dispatches = s.dispatched;
      } in
      let all = classify_each-heuristic s.device_manager clock 0 s.pending_telemetry start refl in
      ground (arith, h, all)
