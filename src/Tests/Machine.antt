-- ===== src/Tests/Machine.antt =====
-- Histories of the kernel programs with the daemon, and of the schedulers.
use ai_optimized_kernel_and.Prelude.{
  ◌≡◌, refl, some, List, [], ◌∷◌, arith, replicate, zero, suc, none, true, ◌++◌,
}
use ai_optimized_kernel_and.AiSched.Counting
use ai_optimized_kernel_and.AiSched.Task.{Task}
use ai_optimized_kernel_and.Bpf.Scx.{Scx}
use ai_optimized_kernel_and.AiSched.Dsq
use ai_optimized_kernel_and.AiSched.Abstract.{view, act_all, actions, run-act_all}
use ai_optimized_kernel_and.AiSched.Draining.{waiting, drains}
use ai_optimized_kernel_and.AiSched.Starvation.{Keeps, starves}
use ai_optimized_kernel_and.AiSched.Hooks.{AiSched, init}
use ai_optimized_kernel_and.Top
use ai_optimized_kernel_and.Top.{Screen}
use ai_optimized_kernel_and.Top.Dashboard.{moments, AllShow, main-AllShow}
use ai_optimized_kernel_and.Telemetry.Counters.{sys_enter, sched_fork}
use ai_optimized_kernel_and.Daemon.Rounds.{telemetry, decisions}
use ai_optimized_kernel_and.System.{Machine, Event, enqueues, dispatches, traces, rounds, run}
use ai_optimized_kernel_and.System.Independence.{without_daemon, daemon_changes_nothing}
use ai_optimized_kernel_and.Tests.Instances.{maps, scx}
use ai_optimized_kernel_and.Tests.Scheduler.{kernel, entry, trainer, here, start, history}
use ai_optimized_kernel_and.Tests.Classifiers.{runtime, sample}
use ai_optimized_kernel_and.Tests.Userspace.{started, clock}
use ai_optimized_kernel_and.Tests.Tracing

abbrev machine : Machine maps kernel runtime
machine = record { sched = start; tracer = Tracing.start; daemon = (sample, started) }

abbrev mixed : List (Event maps kernel runtime)
mixed =
    rounds (telemetry clock 0)
    ∷ enqueues here trainer 0
    ∷ rounds decisions
    ∷ traces (sys_enter Tracing.thread)
    ∷ dispatches
    ∷ rounds (telemetry clock 1)
    ∷ traces (sched_fork 5)
    ∷ []

daemon_changes_nothing_example :
    let m = run maps kernel runtime mixed machine in
    let n = run maps kernel runtime (without_daemon maps kernel runtime mixed) machine in
    (m.sched ≡ n.sched)
    × (m.tracer.task_accumulators ≡ n.tracer.task_accumulators)
    × (m.sched.sched_decisions ≡ start.sched_decisions)
daemon_changes_nothing_example = daemon_changes_nothing maps kernel runtime mixed machine

-- Two rounds of the monitor, started without arguments, with descriptors 5 and 6.
abbrev parts : List (List (Counting.Event maps kernel))
parts = history ∷ history ∷ []

main-AllShow_example :
    (screens : List Screen) × (Top.main
        (λ s. 0)
        []
        5
        6
        (moments maps kernel parts (init maps kernel start))
      ≡ some (screens, 5 ∷ 6 ∷ []))
    × AllShow maps kernel 2 0 (init maps kernel start) parts screens
unfolding Top.parse_args
main-AllShow_example =
    main-AllShow maps kernel (λ s. 0) [] 2 parts start 5 6 refl (omega arith) (omega arith)
      (ground arith) (ground arith)

-- A CPU that may run every task. One task waits in the queue eff, two in gpu.
abbrev willing : Scx Task
willing = scx Task (λ e. true)

abbrev loaded : AiSched maps willing
loaded = record {
  telemetry_ringbuf = (none, []);
  sched_decisions = [];
  energy_mode = [];
  time_slices = [];
  sched_stats = [];
  dsqs = record {
    queues = λ d. elim d [
      | zero ↦ []
      | suc zero ↦ entry 1 ∷ []
      | suc (suc zero) ↦ entry 2 ∷ entry 3 ∷ []
      | suc (suc (suc k)) ↦ []
    ];
    created = λ d. true;
    ran = [];
    elsewhere = λ c. [];
  };
}

drains_example :
    let t = Counting.run maps willing (replicate 3 Counting.dispatches) loaded in
    (willing.local t.dsqs ≡ willing.local loaded.dsqs ++ waiting maps willing loaded)
    × (waiting maps willing t ≡ [])
drains_example = drains maps willing (λ e. refl) 3 loaded refl

in_order : waiting maps willing loaded ≡ entry 1 ∷ entry 2 ∷ entry 3 ∷ []
in_order = refl

-- Two tasks for the performance cores, and a dispatch.
abbrev crowded : AiSched maps willing
crowded = record loaded {
  dsqs = record {
    queues = λ d. elim d [ zero ↦ entry 4 ∷ entry 5 ∷ [] | suc k ↦ entry 1 ∷ [] ];
    created = λ d. true;
    ran = [];
    elsewhere = λ c. [];
  };
}

starves_example :
    Keeps maps willing Dsq.gpu crowded
      (Counting.run maps willing (Counting.dispatches ∷ []) crowded)
starves_example =
    starves maps willing (Counting.dispatches ∷ []) crowded Dsq.gpu (λ e. omega arith)
      ((λ e. cc), tt)

run-act_all_example :
    view kernel (Counting.run maps kernel history start).dsqs
    ≡ act_all kernel.may_run (actions maps kernel history start) (view kernel start.dsqs)
run-act_all_example = run-act_all maps kernel history start
