-- ===== src/Tests/Userspace.antt =====
-- The daemon, its backends, configuration and connections on concrete inputs.
use ai_optimized_kernel_and.Prelude.{
  ℕ, ◌≡◌, ◌⊎◌, refl, true, false, none, some, List, [], ◌∷◌, arith,
}
use ai_optimized_kernel_and.Classifier.{Timespec}
use ai_optimized_kernel_and.Backends.{Host, fresh}
use ai_optimized_kernel_and.Config
use ai_optimized_kernel_and.Config.RoundTrip.{AllClean}
use ai_optimized_kernel_and.Ipc.Libbpf.{Libbpf, minus_one}
use ai_optimized_kernel_and.Daemon
use ai_optimized_kernel_and.Daemon.{
  AieDaemon, Surroundings, Engine, heuristic, onnx, engine_of, classify_pending_tasks,
  classifier_key, model_path_key, heuristic_word, onnx_word,
}
use ai_optimized_kernel_and.Daemon.Startup.{reader_works, init_starts}
use ai_optimized_kernel_and.Types.{empty_stats}
use ai_optimized_kernel_and.Daemon.Reports.{main_round, never_reports}
use ai_optimized_kernel_and.Daemon.Rounds.{Round, telemetry, decisions, rounds, Idle, rounds-Idle}
use ai_optimized_kernel_and.Daemon.Handover
use ai_optimized_kernel_and.Daemon.Handover.{
  push_back, test_empty, write_decisions, clear, Shared, before, run,
}
use ai_optimized_kernel_and.Daemon.Handover.Interleaving.{late_decision_is_lost}
use ai_optimized_kernel_and.Tests.Classifiers.{sample, noon, made, runtime, npu_wish}

-- A machine with a GPU and no NPU.
abbrev host : Host
host = record { exists = λ path. false; glob = λ pattern. some 1 }

-- classifier=onnx
abbrev bindings : Config.Data
bindings = (classifier_key, onnx_word) ∷ []

clean : AllClean bindings
unfolding Config.trim_start Config.trim_end Config.is_space
clean = (
  record {
    solid = refl;
    ends = refl;
    no_comment = ground arith;
    no_newline = ground arith;
    no_eq = ground arith;
  },
  record { starts = refl; ends = refl; no_comment = ground arith; no_newline = ground arith },
  tt,
)

-- Everything that libbpf is asked for succeeds.
abbrev working : Libbpf
working = record { opens = true; loads = true; finds_map = true; map_fd = 5; makes_ring = true }

abbrev around : Surroundings
around = record { reader_bpf = working; writer_bpf = working; conf = none; host = host }

init_starts_example :
    let (code, s) = Daemon.init runtime around (Daemon.create runtime around) in
    (reader_works working ≡ true)
      × (code ≡ 0)
      × (s.running ≡ true)
      × (s.classifier ≡ some (engine_of runtime none))
    ⊎ (reader_works working ≡ false)
      × (code ≡ minus_one)
      × (s.running ≡ false)
      × (s.classifier ≡ none)
init_starts_example = init_starts runtime around

-- The daemon once it has started, with no sample or one that waits.
abbrev pub started : AieDaemon runtime
started = record {
  telemetry_reader = record { ringbuf_ctx = true; ringbuf_fd = 5; obj = true };
  decision_writer = record { decision_map_fd = 1 };
  config = record { energy_mode_map_fd = minus_one; time_slices_map_fd = minus_one };
  stats = record { stats_map_fd = minus_one };
  classifier = some heuristic;
  device_manager = fresh;
  pending_telemetry = [];
  pending_decisions = [];
  running = true;
  dispatched = [];
  written = [];
}

abbrev waiting : AieDaemon runtime
waiting = record started { pending_telemetry = sample ∷ [] }

abbrev pub clock : ℕ → Timespec × Timespec × Timespec
clock i = (noon, noon, noon)

abbrev plan : List Round
plan = telemetry clock 0 ∷ telemetry clock 1 ∷ decisions ∷ telemetry clock 0 ∷ []

starts-Idle : Idle runtime sample (sample, started)
starts-Idle = record {
  local = refl;
  few = omega arith;
  copies = tt;
  engine = λ e. ground arith;
  unwritten = refl;
}

rounds-Idle_example : Idle runtime sample (rounds runtime plan (sample, started))
rounds-Idle_example = rounds-Idle runtime plan sample (sample, started) starts-Idle

-- One decision is pending.
abbrev pushed : Shared
pushed = record Handover.start { pending = made ∷ []; made = made ∷ [] }

late_decision_is_lost_example :
    let s' = run (test_empty ∷ write_decisions ∷ push_back npu_wish ∷ clear ∷ []) pushed in
    (s'.made ≡ made ∷ npu_wish ∷ [])
    × (s'.given ≡ made ∷ [])
    × (s'.pending ≡ [])
    × (s'.phase ≡ before)
late_decision_is_lost_example = late_decision_is_lost pushed npu_wish refl (λ e. ground (arith, e))

never_reports_example :
    main_round runtime
      (λ fd. some empty_stats)
      empty_stats
      (rounds runtime plan
        (sample, (Daemon.init runtime around (Daemon.create runtime around)).1)).1
    ≡ []
never_reports_example =
    never_reports runtime around plan sample (λ fd. some empty_stats) empty_stats
