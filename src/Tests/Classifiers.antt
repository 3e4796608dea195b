-- ===== src/Tests/Classifiers.antt =====
-- The two classifiers of ai/ on concrete inputs.
use ai_optimized_kernel_and.Prelude.{
  ℕ, zero, suc, ◌*◌, ◌≤◌, ◌<◌, ◌≡◌, ◌⊎◌, refl, true, false, some, [], ◌∷◌, arith, ltb,
}
use ai_optimized_kernel_and.Types.{Telemetry, Decision, zero_decision}
use ai_optimized_kernel_and.Types.Device
use ai_optimized_kernel_and.AiSched.Policy.{get_energy_mode, dsq_of_class}
use ai_optimized_kernel_and.AiSched.Hooks.{AiSched, enqueue}
use ai_optimized_kernel_and.AiSched.Enqueue.{Inserts}
use ai_optimized_kernel_and.Classifier.{
  Timespec, classify, classify_heuristic, decision_for, estimate_time_slice,
}
use ai_optimized_kernel_and.Classifier.Agreement.{decision_carried_out}
use ai_optimized_kernel_and.Onnx.{Runtime, argmax, max_element}
use ai_optimized_kernel_and.Onnx.Argmax.{IsOrder, argmax_lem}
use ai_optimized_kernel_and.Onnx.Loading.{Call}
use ai_optimized_kernel_and.Tests.Instances.{maps}
use ai_optimized_kernel_and.Tests.Scheduler.{kernel, trainer, here, start}

-- A sample of an ordinary process with one thread.
abbrev pub sample : Telemetry
sample = record {
  pid = 70;
  uid = 1000;
  ts_enqueue = 0;
  cpu_util_recent = 55;
  memory_rss_mb = 64;
  syscall_count = 9;
  io_read_bytes = 10;
  io_write_bytes = 11;
  num_threads = 1;
  nice_value = 0;
  sched_class = 1;
  comm = [];
}

abbrev pub noon : Timespec
noon = record { tv_sec = 43200; tv_nsec = 5 }

-- The decision that the classifier makes for the sample.
abbrev pub made : Decision
made = decision_for noon sample (classify_heuristic (some sample))

classified : classify noon (some sample) (some zero_decision) ≡ some made
unfolding classify
classified = refl

-- Another decision, for the NPU.
abbrev pub npu_wish : Decision
npu_wish = record made { preferred_device = Device.npu }

-- The kernel's state with that decision for the trainer, whose PID the sample has.
abbrev advised : AiSched maps kernel
advised = record start { sched_decisions = (70, made) ∷ [] }

decision_carried_out_example :
    let c = classify_heuristic (some sample) in
    Inserts maps kernel 0
      (record {
        dsq = dsq_of_class (get_energy_mode maps advised.energy_mode) c;
        entry = record { task = trainer; slice = estimate_time_slice c; vtime = 0 };
      })
      advised
      (enqueue maps kernel here trainer 0 advised)
decision_carried_out_example =
    decision_carried_out maps kernel here trainer 0 advised noon sample zero_decision made
      classified refl

-- Numbers stand for the floats; the outputs of the model are those of the path "m", 3 1 4 1 5.
abbrev outputs : ℕ → ℕ
outputs i = elim i [ zero ↦ 3 | suc j ↦ elim j [ zero ↦ 9 | suc k ↦ 4 ] ]

abbrev pub runtime : Runtime
runtime = record {
  Float = ℕ;
  to_float = λ n. n;
  times = λ a b. a * b;
  less = ltb;
  readable = λ path. true;
  session_starts = λ path. true;
  run = λ path xs. some outputs;
}

by_number : IsOrder runtime outputs
by_number = record {
  irreflexive = λ a h. ground arith;
  chains = λ a b c x y z h k. ground arith;
  asymmetric = λ a b x y h. ground arith;
}

argmax-outputs : argmax runtime outputs ≡ 1
unfolding argmax max_element
argmax-outputs = refl

argmax_lem_example :
    (argmax runtime outputs < 5)
    × (ltb (outputs (argmax runtime outputs)) 4 ≡ false)
    × ((argmax runtime outputs ≤ 4) ⊎ (ltb 4 (outputs (argmax runtime outputs)) ≡ true))
argmax_lem_example = argmax_lem runtime outputs by_number 4 (omega arith)

abbrev call : Call
call = record { now = noon; later = noon; telemetry = sample; decision = zero_decision }
