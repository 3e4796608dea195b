-- ===== src/Tests/Scheduler.antt =====
-- kernel/ai_sched.bpf.c on concrete maps, queues and tasks.
use Prim.Native.Nat.{compare, Ordering}
use ai_optimized_kernel_and.Prelude.{ℕ, ◌≡◌, refl, false, some, List, [], ◌∷◌, ltb}
use ai_optimized_kernel_and.Bpf.Scx.{Scx, Entry}
use ai_optimized_kernel_and.Types.{Decision, empty_stats, zero_decision}
use ai_optimized_kernel_and.Types.TaskClass
use ai_optimized_kernel_and.Types.Device
use ai_optimized_kernel_and.Types.Energy
use ai_optimized_kernel_and.AiSched.Dsq
use ai_optimized_kernel_and.AiSched.Task.{Task}
use ai_optimized_kernel_and.AiSched.Policy.{get_time_slice_ns, classify_task_fallback}
use ai_optimized_kernel_and.AiSched.Hooks.{AiSched, Context, dispatch, sample_of}
use ai_optimized_kernel_and.AiSched.Dispatch.{Served, dispatch_serves}
use ai_optimized_kernel_and.AiSched.Counting.{Event, enqueues, dispatches, writes}
use ai_optimized_kernel_and.Tests.Instances.{maps, scx}

-- The CPU may run the tasks whose slice is not 0.
abbrev pub kernel : Scx Task
kernel = scx Task (λ e. ltb 0 e.slice)

-- A training run: 8 threads and 100 MB.
abbrev pub trainer : Task
trainer = record {
  tgid = 70;
  flags = 0;
  signal = some 8;
  mm = some 25600;
  state = 1;
  prio = 120;
  static_prio = 120;
  policy = 0;
  util_avg = 800;
  comm = [];
}

abbrev pub here : Context
here = record { pid_tgid = 0x4600000046; uid_gid = 1000; ktime_ns = 5 }

abbrev npu_decision : Decision
npu_decision = record zero_decision {
  pid = 70;
  task_class = TaskClass.batch_ai;
  preferred_device = Device.npu;
  time_slice_us = 20000;
}

abbrev pub entry : ℕ → Entry Task
entry slice = record { task = trainer; slice = slice; vtime = 0 }

-- Balanced mode; a decision for PID 70; a task in the efficiency queue that the CPU may not run, and
-- two behind it in the fallback queue.
abbrev pub start : AiSched maps kernel
start = record {
  telemetry_ringbuf = (some (sample_of here trainer), []);
  sched_decisions = (70, npu_decision) ∷ [];
  energy_mode = Energy.balanced ∷ [];
  time_slices = 1 ∷ 2 ∷ 3 ∷ 4 ∷ 5 ∷ [];
  sched_stats = empty_stats ∷ [];
  dsqs = record {
    queues = λ d. elim (compare d 1) [
      | Ordering.lt ↦ []
      | Ordering.eq ↦ entry 0 ∷ []
      | Ordering.gt ↦ entry 7 ∷ entry 8 ∷ []
    ];
    created = λ d. false;
    ran = [];
    elsewhere = λ c. [];
  };
}

-- The same without decisions, saving power.
abbrev saving : AiSched maps kernel
saving = record start { sched_decisions = []; energy_mode = Energy.power_saver ∷ [] }

trainer_is_batch : classify_task_fallback trainer ≡ TaskClass.batch_ai
unfolding classify_task_fallback
trainer_is_batch = refl

kthread_is_background :
    classify_task_fallback (record trainer { flags = 0x00200000 }) ≡ TaskClass.background
unfolding classify_task_fallback
kthread_is_background = refl

realtime_first : classify_task_fallback (record trainer { state = 0; prio = 0xFFFFFFFF }) ≡ 0
unfolding classify_task_fallback
realtime_first = refl

-- Where the array is as the kernel creates it, each slice is 0 and not the default of the switch.
unconfigured_slice : get_time_slice_ns maps (0 ∷ 0 ∷ 0 ∷ 0 ∷ 0 ∷ []) TaskClass.batch_ai ≡ 0
unfolding get_time_slice_ns
unconfigured_slice = refl

dispatch_serves_example :
    Served kernel Dsq.gpu (entry 7) (entry 8 ∷ []) start.dsqs (dispatch maps kernel start).dsqs
dispatch_serves_example = dispatch_serves maps kernel start Dsq.gpu (entry 7) (entry 8 ∷ []) refl

abbrev pub history : List (Event maps kernel)
history =
    enqueues here trainer 0
    ∷ dispatches
    ∷ writes [] (3 ∷ []) []
    ∷ enqueues here trainer 0
    ∷ dispatches
    ∷ []
