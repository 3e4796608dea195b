-- ===== src/Onnx/Loading.antt =====
-- The life of an ONNX classifier of ai/onnx_classifier.cpp: untried, loaded or failed; and what it
-- answers.
use ai_optimized_kernel_and.Prelude.{
  ℕ, ◌≡◌, ◌⊎◌, inl, inr, refl, subst, false, ◌&&◌, arith, Bool-cases, Option, some, List, [], ◌∷◌,
  Option-cases, if◌then◌else◌, not,
}
use ai_optimized_kernel_and.Types.{Telemetry, Decision}
use ai_optimized_kernel_and.Classifier
use ai_optimized_kernel_and.Classifier.{Timespec, decision_for, classify_heuristic}
use ai_optimized_kernel_and.Onnx.{
  Runtime, OnnxClassifier, create, ensure_loaded, argmax, features, infer, classify,
}

-- One call of classify: the two readings of the clock and the arguments.
pub record Call : Type 0 where
  pub now : Timespec
  pub later : Timespec
  pub telemetry : Telemetry
  pub decision : Decision

module _ (rt : Runtime) where
  open rt use {readable, session_starts}

  unfoldable pub after_calls : List Call → OnnxClassifier rt → OnnxClassifier rt
  after_calls [] c = c
  after_calls (x ∷ xs) c =
      after_calls xs (classify rt x.now x.later c (some x.telemetry) (some x.decision)).0

  -- The state that the first call settles.
  abbrev pub settled : List ℕ → OnnxClassifier rt
  settled path =
      let ok = readable path && session_starts path in
      record { model_path = path; loaded = ok; load_failed = not ok }

  settles :
      (path : List ℕ) (x : Call)
      → (classify rt x.now x.later (create rt path) (some x.telemetry) (some x.decision)).0
        ≡ settled path
  unfolding classify create ensure_loaded
  settles path x = ground arith

  stays :
      (path : List ℕ) (x : Call)
      → (classify rt x.now x.later (settled path) (some x.telemetry) (some x.decision)).0
        ≡ settled path
  unfolding classify ensure_loaded
  stays path x = ground arith

  settled-after : (path : List ℕ) (xs : List Call) → after_calls xs (settled path) ≡ settled path
  unfolding after_calls
  settled-after path [] = refl
  settled-after path (x ∷ xs) = rw (stays path x) (settled-after path xs)

  -- The first call of classify loads the model or gives it up for good: whatever calls follow, the
  -- classifier stays loaded exactly if the file could be read and the session started, and otherwise
  -- has failed.
  loads_once :
      (path : List ℕ) (x : Call) (xs : List Call)
      → after_calls (x ∷ xs) (create rt path) ≡ settled path
  unfolding after_calls
  loads_once path x xs = rw (settles path x) (settled-after path xs)

  -- A classifier whose model cannot be read or started answers every call just as the heuristic one
  -- does, from the first call on.
  fallback-agrees :
      (path : List ℕ) (x : Call) (xs : List Call)
      → readable path && session_starts path ≡ false
      → (classify rt x.now x.later (create rt path) (some x.telemetry) (some x.decision)).1
        ≡ Classifier.classify x.now (some x.telemetry) (some x.decision)
  unfolding classify create ensure_loaded
  fallback-agrees path x xs h = ground arith

  -- A decision for the sample's PID: for the class that the model names on the sample's features, or
  -- for the class of the heuristic.
  abbrev pub Answers : List ℕ → Call → Option Decision → Type 0
  Answers path x answer =
      ((now : Timespec) × (answer
          ≡ some (decision_for now x.telemetry (classify_heuristic (some x.telemetry)))))
      ⊎ ((prob : ℕ → rt.Float) × (rt.run path (features rt x.now x.telemetry) ≡ some prob)
          × (answer ≡ some (decision_for x.later x.telemetry (argmax rt prob))))

  infer-Answers :
      (c : OnnxClassifier rt) (x : Call)
      → Answers c.model_path x (infer rt x.now x.later c x.telemetry (some x.decision))
  unfolding infer Classifier.classify
  infer-Answers c x = elim (Option-cases (rt.run c.model_path (features rt x.now x.telemetry))) [
    | inl e ↦ inl (x.later, rw (infer, e))
    | inr (prob, e) ↦ inr (prob, e, rw (infer, e))
  ]

  model_path-ensure_loaded :
      (c : OnnxClassifier rt) → (ensure_loaded rt c).model_path ≡ c.model_path
  unfolding ensure_loaded
  model_path-ensure_loaded c = ground arith

  answer-Answers :
      (c : OnnxClassifier rt) (x : Call)
      → Answers c.model_path x (
          if not c.loaded
          then Classifier.classify x.now (some x.telemetry) (some x.decision)
          else infer rt x.now x.later c x.telemetry (some x.decision))
  unfolding Classifier.classify
  answer-Answers c x = elim (Bool-cases c.loaded) [
    | inl e ↦ simp e (infer-Answers c x)
    | inr e ↦ simp e (inl (x.now, refl))
  ]

  -- Whatever state the classifier is in, every call with a sample and memory for the decision yields a
  -- decision for the sample's PID, for the class that the model names on the sample's features, or for
  -- the class of the heuristic. There is no error.
  classify-Answers :
      (c : OnnxClassifier rt) (x : Call)
      → Answers c.model_path x (classify rt x.now x.later c (some x.telemetry) (some x.decision)).1
  unfolding classify
  classify-Answers c x =
      subst
        (λ path.
          Answers path x (classify rt x.now x.later c (some x.telemetry) (some x.decision)).1)
        (model_path-ensure_loaded c) (answer-Answers (ensure_loaded rt c) x)
