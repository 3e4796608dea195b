-- ===== src/Onnx.antt =====
-- ai/onnx_classifier.cpp: the classifier that asks an ONNX model, and falls back to the heuristic of
-- ai/classifier.cpp. ONNX Runtime and floating point are outside the repository: Runtime takes them.
pub mod Loading
pub mod Argmax
use ai_optimized_kernel_and.Prelude.{
  ℕ, zero, suc, ◌/◌, ◌%◌, ◌||◌, ◌&&◌, not, Bool, true, false, Option, none, some, List, [], ◌∷◌,
  if◌then◌else◌, u64_mod, add32, sub64,
}
use ai_optimized_kernel_and.Types.{Telemetry, Decision}
use ai_optimized_kernel_and.Classifier
use ai_optimized_kernel_and.Classifier.{Timespec, nanoseconds, decision_for}

pub record Runtime : Type 1 where
  pub Float : Type 0
  -- conversion of an unsigned integer, `*`, `<`
  pub to_float : ℕ → Float
  pub times : Float → Float → Float
  pub less : Float → Float → Bool
  -- whether the model file can be opened, and whether a session for it is created and described
  -- without an exception
  pub readable : List ℕ → Bool
  pub session_starts : List ℕ → Bool
  -- Session::Run on a feature vector: `none` for an exception, or the output by index
  pub run : List ℕ → List Float → Option (ℕ → Float)

module _ (rt : Runtime) where
  open rt use {Float, to_float, times, less, readable, session_starts, run}

  -- class OnnxClassifier, without the handles that only ONNX Runtime reads
  pub record OnnxClassifier : Type 0 where
    pub model_path : List ℕ
    pub loaded : Bool
    pub load_failed : Bool

  -- the constructor
  unfoldable pub create : List ℕ → OnnxClassifier
  create path = record { model_path = path; loaded = false; load_failed = false }

  -- init: the model is loaded only when it is first used.
  unfoldable pub init : OnnxClassifier → ℕ
  init c = 0

  -- load_model; the result is `loaded` of the new state.
  unfoldable pub load_model : OnnxClassifier → OnnxClassifier
  load_model c =
      if c.loaded || c.load_failed
      then c
      else if not (readable c.model_path)
      then record c { load_failed = true }
      else if session_starts c.model_path
      then record c { loaded = true }
      else record c { load_failed = true; loaded = false }

  -- `if (!loaded_ && !load_failed_) load_model();`
  unfoldable pub ensure_loaded : OnnxClassifier → OnnxClassifier
  unfolding load_model
  ensure_loaded c = if not c.loaded && not c.load_failed then load_model c else c

  -- `std::max_element` over the outputs from `i` on: the first of the greatest. `best` is the index
  -- of the greatest so far, `rest` the number of outputs still to see.
  unfoldable pub max_element : (ℕ → Float) → ℕ → ℕ → ℕ → ℕ
  max_element prob best i zero = best
  max_element prob best i (suc rest) =
      max_element prob (if less (prob best) (prob i) then i else best) (suc i) rest

  -- `std::distance(prob, std::max_element(prob, prob + 5))`
  unfoldable pub argmax : (ℕ → Float) → ℕ
  argmax prob = max_element prob 0 1 4

  -- The six features of a sample, at the time that clock_gettime tells.
  unfoldable pub features : Timespec → Telemetry → List Float
  features now t =
      to_float t.cpu_util_recent
      ∷ times (times (to_float t.memory_rss_mb) (to_float 1024)) (to_float 1024)
      ∷ to_float (add32 t.io_read_bytes t.io_write_bytes)
      ∷ to_float t.syscall_count
      ∷ to_float (sub64 (nanoseconds now) t.ts_enqueue / 1000000)
      ∷ to_float t.num_threads
      ∷ []

  -- The part of classify after loading. The clock is read for the features, and again for the
  -- decision.
  unfoldable pub infer :
      Timespec → Timespec → OnnxClassifier → Telemetry → Option Decision → Option Decision
  infer now later c t d = elim (run c.model_path (features now t)) [
    | none ↦ Classifier.classify later (some t) d
    | some prob ↦ some (decision_for later t (argmax prob))
  ]

  -- classify: the new state, and `none` for the error -1 or the decision that is written.
  unfoldable pub classify :
      Timespec
      → Timespec
      → OnnxClassifier
      → Option Telemetry
      → Option Decision
      → OnnxClassifier × Option Decision
  classify now later c none d = (c, none)
  classify now later c (some t) none = (c, none)
  classify now later c (some t) (some d) =
      let c' = ensure_loaded c in
      (
        c',
        if not c'.loaded
            then Classifier.classify now (some t) (some d)
            else infer now later c' t (some d),
      )
