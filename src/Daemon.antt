-- ===== src/Daemon.antt =====
-- daemon/aie_daemon.cpp: class AieDaemon and the rounds of its worker threads. Each method runs here
-- without interruption; logging is left out.
pub mod Startup
pub mod Batches
pub mod Rounds
pub mod Handover
pub mod Lifecycle
pub mod Reports
use ai_optimized_kernel_and.Prelude.{
  ℕ, suc, ◌+◌, ◌≡◌, Bool, true, false, ◌&&◌, ◌==◌, not, Option, none, some, List, [], ◌∷◌, ◌++◌,
  leb, length, if◌then◌else◌,
}
use ai_optimized_kernel_and.Types.{Telemetry, Decision, zero_decision}
use ai_optimized_kernel_and.Classifier
use ai_optimized_kernel_and.Classifier.{Timespec, nanoseconds}
use ai_optimized_kernel_and.Onnx
use ai_optimized_kernel_and.Onnx.{Runtime, OnnxClassifier}
use ai_optimized_kernel_and.Backends
use ai_optimized_kernel_and.Backends.{Backend, Host, DeviceManager}
use ai_optimized_kernel_and.Config
use ai_optimized_kernel_and.Config.Bytes.{bytes_eq}
use ai_optimized_kernel_and.Ipc.Libbpf.{Libbpf, is_negative, minus_one}
use ai_optimized_kernel_and.Ipc.Reader
use ai_optimized_kernel_and.Ipc.Reader.{TelemetryReader}
use ai_optimized_kernel_and.Ipc.Writer
use ai_optimized_kernel_and.Ipc.Writer.{DecisionWriter}
use ai_optimized_kernel_and.Ipc.Settings
use ai_optimized_kernel_and.Ipc.Settings.{SchedulerConfig}
use ai_optimized_kernel_and.Ipc.Monitor
use ai_optimized_kernel_and.Ipc.Monitor.{StatsMonitor}

-- -ETIMEDOUT, with the ETIMEDOUT of Linux
abbrev pub minus_etimedout : ℕ
minus_etimedout = 0xFFFFFF92

-- "classifier", "model_path", "heuristic" and "onnx"
abbrev pub classifier_key : List ℕ
classifier_key = 99 ∷ 108 ∷ 97 ∷ 115 ∷ 115 ∷ 105 ∷ 102 ∷ 105 ∷ 101 ∷ 114 ∷ []

abbrev pub model_path_key : List ℕ
model_path_key = 109 ∷ 111 ∷ 100 ∷ 101 ∷ 108 ∷ 95 ∷ 112 ∷ 97 ∷ 116 ∷ 104 ∷ []

abbrev pub heuristic_word : List ℕ
heuristic_word = 104 ∷ 101 ∷ 117 ∷ 114 ∷ 105 ∷ 115 ∷ 116 ∷ 105 ∷ 99 ∷ []

abbrev pub onnx_word : List ℕ
onnx_word = 111 ∷ 110 ∷ 110 ∷ 120 ∷ []

-- What the daemon finds around it: libbpf for the reader and for the writer, the text of
-- /etc/aie-os/aie.conf if it opens, and the devices.
pub record Surroundings : Type 0 where
  pub reader_bpf : Libbpf
  pub writer_bpf : Libbpf
  pub conf : Option (List ℕ)
  pub host : Host

module _ (rt : Runtime) where
  -- `classifier_`: the base class, or the ONNX classifier
  pub data Engine : Type 0 where
    heuristic : Engine
    onnx : OnnxClassifier rt → Engine

  -- the virtual call of classify, with the two readings of the clock that it may take
  unfoldable pub engine_classify :
      Engine → Timespec × Timespec → Telemetry → Decision → Engine × Option Decision
  engine_classify heuristic (now, later) t d =
      (heuristic, Classifier.classify now (some t) (some d))
  engine_classify (onnx c) (now, later) t d =
      let (c', r) = Onnx.classify rt now later c (some t) (some d) in (onnx c', r)

  -- class AieDaemon, without the threads. `dispatched` is what the backends have written to the system
  -- log, `written` what has reached the kernel's map.
  pub record AieDaemon : Type 0 where
    pub telemetry_reader : TelemetryReader
    pub decision_writer : DecisionWriter
    pub config : SchedulerConfig
    pub stats : StatsMonitor
    pub classifier : Option Engine
    pub device_manager : DeviceManager
    pub pending_telemetry : List Telemetry
    pub pending_decisions : List Decision
    pub running : Bool
    pub dispatched : List (Backend × ℕ)
    pub written : List Decision

  -- the constructor
  unfoldable pub create : Surroundings → AieDaemon
  create w = record {
    telemetry_reader = Reader.create;
    decision_writer = Writer.create w.writer_bpf;
    config = Settings.create;
    stats = Monitor.create;
    classifier = none;
    device_manager = Backends.fresh;
    pending_telemetry = [];
    pending_decisions = [];
    running = false;
    dispatched = [];
    written = [];
  }

  -- The classifier that a configuration asks for. A file that does not open leaves the map empty.
  unfoldable pub engine_of : Option (List ℕ) → Engine
  engine_of conf =
      let m : Config.Data = elim (Config.load conf []) [ none ↦ [] | some m ↦ m ] in
      if bytes_eq (Config.get classifier_key heuristic_word m) onnx_word
      then onnx (Onnx.create rt (Config.get model_path_key [] m))
      else heuristic

  -- `classifier_->init()`: both classifiers return 0.
  unfoldable pub engine_init : Engine → ℕ
  engine_init heuristic = Classifier.init
  engine_init (onnx c) = Onnx.init rt c

  -- init: each connection is made only if those before it were. A failure of the device manager is
  -- only logged.
  unfoldable pub init : Surroundings → AieDaemon → ℕ × AieDaemon
  init w s =
      let (code₁, reader) = Reader.connect w.reader_bpf s.telemetry_reader in
      let (code₂, writer) = Writer.connect s.decision_writer in
      let (code₃, config) = Settings.connect s.config in
      let (code₄, stats) = Monitor.connect s.stats in
      let engine = engine_of w.conf in
      let s₁ = record s { telemetry_reader = reader } in
      let s₂ = record s₁ { decision_writer = writer } in
      let s₃ = record s₂ { config = config } in
      let s₄ = record s₃ { stats = stats; classifier = some engine } in
      if not (code₁ == 0)
      then (minus_one, s₁)
      else if not (code₂ == 0)
      then (minus_one, s₂)
      else if not (code₃ == 0)
      then (minus_one, s₃)
      else if not (code₄ == 0)
      then (minus_one, record s₃ { stats = stats })
      else if not (engine_init engine == 0)
      then (minus_one, s₄)
      else (0, record s₄ { device_manager = Backends.init w.host s.device_manager; running = true })

  -- `if (backend) backend->dispatch(decision);`
  abbrev dispatch_to : Option Backend → Decision → List (Backend × ℕ)
  dispatch_to none d = []
  dispatch_to (some b) d = Backends.dispatch b d ∷ []

  -- The decision memory that classify is given: zeroes but for the PID and the time.
  abbrev pub blank_decision : Timespec → Telemetry → Decision
  blank_decision ts t = record zero_decision { pid = t.pid; ts_decision = nanoseconds ts }

  -- What the loop of classify_pending_tasks changes.
  pub record Progress : Type 0 where
    pub engine : Engine
    pub decisions : List Decision
    pub dispatches : List (Backend × ℕ)

  -- A round of the loop. `clock` has the readings of a round: that of the loop and two of classify.
  unfoldable pub classify_one :
      DeviceManager → Timespec × Timespec × Timespec → Telemetry → Progress → Progress
  classify_one m clock t p =
      let (e, r) = engine_classify p.engine (clock.1, clock.2) t (blank_decision clock.0 t) in
      elim r [
        | none ↦ record p { engine = e }
        | some d ↦ record {
          engine = e;
          decisions = p.decisions ++ d ∷ [];
          dispatches = p.dispatches ++ dispatch_to (Backends.select_backend m d.preferred_device) d;
        }
      ]

  -- The loop, with the readings of the clock by round.
  unfoldable pub classify_each :
      DeviceManager
      → (ℕ → Timespec × Timespec × Timespec)
      → ℕ
      → List Telemetry
      → Progress
      → Progress
  classify_each m clock i [] p = p
  classify_each m clock i (t ∷ ts) p =
      classify_each m clock (suc i) ts (classify_one m (clock i) t p)

  -- classify_pending_tasks; `classifier_` is not NULL once init has succeeded.
  unfoldable pub classify_pending_tasks :
      (ℕ → Timespec × Timespec × Timespec) → AieDaemon → AieDaemon
  classify_pending_tasks clock s = elim s.classifier [
    | none ↦ s
    | some e ↦
        let p =
          classify_each s.device_manager clock 0 s.pending_telemetry
            (record { engine = e; decisions = s.pending_decisions; dispatches = s.dispatched }) in
        record s {
          classifier = some p.engine;
          pending_decisions = p.decisions;
          dispatched = p.dispatches;
          pending_telemetry = [];
        }
  ]

  -- push_decisions
  unfoldable pub push_decisions : AieDaemon → AieDaemon
  push_decisions s = elim s.pending_decisions [
    | [] ↦ s
    | d ∷ ds ↦
        let (code, reached) = Writer.write_decisions s.decision_writer (d ∷ ds) in
        record s { pending_decisions = []; written = s.written ++ reached }
  ]

  -- A round of telemetry_worker: the argument `poll` is what ring_buffer__poll returns, `sample` the
  -- content of the worker's local variable.
  unfoldable pub telemetry_round :
      (ℕ → Timespec × Timespec × Timespec) → ℕ → Telemetry → AieDaemon → Telemetry × AieDaemon
  telemetry_round clock poll sample s =
      let (ret, sample') = Reader.read_sample s.telemetry_reader poll sample in
      let s' = record s { pending_telemetry = s.pending_telemetry ++ sample' ∷ [] } in
      (
        sample',
        if ret == 0
            then (if leb 10 (length s'.pending_telemetry)
                then classify_pending_tasks clock s'
                else s')
            else s,
      )

  -- shutdown
  unfoldable pub shutdown : AieDaemon → AieDaemon
  shutdown s = record s { running = false }
