-- ===== src/Daemon/Rounds.antt =====
-- The rounds of the two worker threads of daemon/aie_daemon.cpp, one after the other in any order.
use ai_optimized_kernel_and.Prelude.{
  ℕ, ◌<◌, ◌≡◌, ◌≢◌, ◌⊎◌, inl, inr, Option-cases, if◌then◌else◌, ◌∙◌, none, List, [], ◌∷◌, ◌++◌,
  append-nil, arith, length, Bool-cases, leb, ◌==◌,
}
use ai_optimized_kernel_and.Types.{Telemetry}
use ai_optimized_kernel_and.Classifier.{Timespec}
use ai_optimized_kernel_and.Onnx.{Runtime}
use ai_optimized_kernel_and.Ipc.Reader
use ai_optimized_kernel_and.Ipc.Reader.{TelemetryReader}
use ai_optimized_kernel_and.Ipc.Libbpf.{minus_one}
use ai_optimized_kernel_and.Ipc.Writer
use ai_optimized_kernel_and.Daemon.{
  AieDaemon, classify_pending_tasks, push_decisions, telemetry_round,
}

-- The readings of the clock during a batch.
abbrev pub Clock : Type 0
Clock = ℕ → Timespec × Timespec × Timespec

-- A round of a worker: of telemetry_worker, with what ring_buffer__poll returns, or of
-- decision_worker.
pub data Round : Type 0 where
  telemetry : Clock → ℕ → Round
  decisions : Round

module _ (rt : Runtime) where
  -- The daemon beside the local variable `sample` of telemetry_worker.
  unfoldable pub round : Round → Telemetry × AieDaemon rt → Telemetry × AieDaemon rt
  round (telemetry clock poll) (sample, s) = telemetry_round rt clock poll sample s
  round decisions (sample, s) = (sample, push_decisions rt s)

  unfoldable pub rounds : List Round → Telemetry × AieDaemon rt → Telemetry × AieDaemon rt
  rounds [] x = x
  rounds (r ∷ rs) x = rounds rs (round r x)

  -- The samples that wait are few, all are copies of the local variable, and nothing has reached the
  -- kernel.
  abbrev pub AllEqual : Telemetry → List Telemetry → Type 0
  AllEqual t [] = Unit {0}
  AllEqual t (u ∷ us) = (u ≡ t) × AllEqual t us

  pub record Idle (sample : Telemetry) (x : Telemetry × AieDaemon rt) : Type 0 where
    pub local : x.0 ≡ sample
    pub few : length x.1.pending_telemetry < 10
    pub copies : AllEqual sample x.1.pending_telemetry
    pub engine : x.1.classifier ≢ none
    pub unwritten : x.1.written ≡ []

  AllEqual-append :
      (t v : Telemetry) (us : List Telemetry) → v ≡ t → AllEqual t us → AllEqual t (us ++ v ∷ [])
  AllEqual-append t v [] q h = (q, tt)
  AllEqual-append t v (u ∷ us) q (e, h) = (e, AllEqual-append t v us q h)

  -- A record that has arrived, which makes the poll return a positive number, changes nothing: the
  -- daemon classifies on timeouts alone, and what it classifies then is its local variable.
  arrivals_are_dropped :
      (clock : Clock) (poll : ℕ) (sample : Telemetry) (s : AieDaemon rt)
      → poll ≢ 0
      → telemetry_round rt clock poll sample s ≡ (sample, s)
  unfolding telemetry_round Reader.read_sample
  arrivals_are_dropped clock poll sample s h = ground arith

  classify_pending_tasks-few :
      (clock : Clock) (s : AieDaemon rt)
      → s.classifier ≢ none
      → ((classify_pending_tasks rt clock s).pending_telemetry ≡ [])
        × ((classify_pending_tasks rt clock s).classifier ≢ none)
        × ((classify_pending_tasks rt clock s).written ≡ s.written)
  unfolding classify_pending_tasks
  classify_pending_tasks-few clock s h = elim (Option-cases s.classifier) [
    | inl e ↦ absurd (h e)
    | inr (a, e) ↦ ground (arith, e)
  ]

  push-written :
      (s : AieDaemon rt)
      → ((push_decisions rt s).written ≡ s.written)
        × ((push_decisions rt s).pending_decisions ≡ [])
        × ((push_decisions rt s).pending_telemetry ≡ s.pending_telemetry)
        × ((push_decisions rt s).classifier ≡ s.classifier)
  unfolding push_decisions Writer.write_decisions
  push-written s = ground (arith, append-nil s.written)

  -- A poll that times out adds a copy of the local variable, and the tenth empties the batch.
  timeout-Idle :
      (clock : Clock) (sample t : Telemetry) (s : AieDaemon rt)
      → Idle sample (t, s)
      → let s' = record s { pending_telemetry = s.pending_telemetry ++ t ∷ [] } in
        Idle sample (
          t,
          (if leb 10 (length s'.pending_telemetry) then classify_pending_tasks rt clock s' else s'),
        )
  timeout-Idle clock sample t s h =
      let s' = record s { pending_telemetry = s.pending_telemetry ++ t ∷ [] } in
      let c = classify_pending_tasks-few clock s' h.engine in
      elim (Bool-cases (leb 10 (length s'.pending_telemetry))) [
        | inl full ↦ rw full (record {
          local = h.local;
          few = rw c.0 (omega arith);
          copies = rw c.0 tt;
          engine = c.1;
          unwritten = c.2 ∙ h.unwritten;
        })
        | inr room ↦ rw room (record {
          local = h.local;
          few = ground arith;
          copies = AllEqual-append sample t s.pending_telemetry h.local h.copies;
          engine = h.engine;
          unwritten = h.unwritten;
        })
      ]

  read_cases :
      (r : TelemetryReader) (poll : ℕ) (t : Telemetry)
      → (Reader.read_sample r poll t ≡ (poll, t)) ⊎ (Reader.read_sample r poll t ≡ (minus_one, t))
  unfolding Reader.read_sample
  read_cases r poll t = ground arith

  telemetry_round-Idle :
      (clock : Clock) (poll : ℕ) (sample : Telemetry) (x : Telemetry × AieDaemon rt)
      → Idle sample x
      → Idle sample (telemetry_round rt clock poll x.0 x.1)
  unfolding telemetry_round
  telemetry_round-Idle clock poll sample (t, s) h = elim (Bool-cases (poll == 0)) [
    | inl z ↦ elim (read_cases s.telemetry_reader poll t) [
      | inl e ↦ rw (telemetry_round, e, z) (timeout-Idle clock sample t s h)
      | inr e ↦ rw (telemetry_round, e) h
    ]
    | inr nz ↦ rw (arrivals_are_dropped clock poll t s (ground arith)) h
  ]

  round-Idle :
      (r : Round) (sample : Telemetry) (x : Telemetry × AieDaemon rt)
      → Idle sample x
      → Idle sample (round r x)
  unfolding round
  round-Idle (telemetry clock poll) sample (t, s) h =
      telemetry_round-Idle clock poll sample (t, s) h
  round-Idle decisions sample (t, s) h =
      let p = push-written s in
      record {
        local = h.local;
        few = rw p.2 h.few;
        copies = rw p.2 h.copies;
        engine = rw p.3 h.engine;
        unwritten = p.0 ∙ h.unwritten;
      }

  classify_pending_tasks-written :
      (clock : Clock) (s : AieDaemon rt) → (classify_pending_tasks rt clock s).written ≡ s.written
  unfolding classify_pending_tasks
  classify_pending_tasks-written clock s = ground arith

  telemetry_round-written :
      (clock : Clock) (poll : ℕ) (t : Telemetry) (s : AieDaemon rt)
      → (telemetry_round rt clock poll t s).1.written ≡ s.written
  unfolding telemetry_round Reader.read_sample
  telemetry_round-written clock poll t s =
      let s' = record s { pending_telemetry = s.pending_telemetry ++ t ∷ [] } in
      ground (arith, classify_pending_tasks-written clock s')

  -- No round writes to the kernel.
  pub round-written :
      (r : Round) (x : Telemetry × AieDaemon rt) → (round r x).1.written ≡ x.1.written
  unfolding round
  round-written (telemetry clock poll) (t, s) = telemetry_round-written clock poll t s
  round-written decisions (t, s) = (push-written s).0

  -- However the rounds of the workers alternate and whatever the polls return, this stays so: fewer
  -- than ten samples wait, each is a copy of the worker's local variable, which keeps the value
  -- that it had at first, there is a classifier, and no decision has reached the kernel's map.
  pub rounds-Idle :
      (rs : List Round) (sample : Telemetry) (x : Telemetry × AieDaemon rt)
      → Idle sample x
      → Idle sample (rounds rs x)
  unfolding rounds
  rounds-Idle [] sample x h = h
  rounds-Idle (r ∷ rs) sample x h = rounds-Idle rs sample (round r x) (round-Idle r sample x h)
