-- ===== src/Tests/Cores.antt =====
-- kernel/ai_sched.bpf.c on two CPUs, with concrete maps, queues and tasks.
use mathlib.Core.List.{Perm}
use ai_optimized_kernel_and.Prelude.{
  ◌++◌, none, ◌⊎◌, inl, ◌<◌, take_first, map, ◌≤◌, ℕ, ◌≡◌, refl, ltb, List, [], ◌∷◌, arith, Once,
}
use ai_optimized_kernel_and.Bpf.Smp.{Smp}
use ai_optimized_kernel_and.Bpf.Scx.{Entry}
use ai_optimized_kernel_and.AiSched.Task.{Task}
use ai_optimized_kernel_and.AiSched.Hooks.{Choice, choose, init}
use ai_optimized_kernel_and.AiSched.Cores.{
  Cores, idle, advance_from, advance, enter, ask, Run, here, enters, asks, advances,
}
use ai_optimized_kernel_and.AiSched.Cores.Conservation.{cores_conserve}
use ai_optimized_kernel_and.AiSched.Cores.Moves.{entries, tasks_of_all}
use ai_optimized_kernel_and.AiSched.Cores.Counting.{HasCountedBut, cores_count}
use ai_optimized_kernel_and.AiSched.Policy.{select_dsq}
use ai_optimized_kernel_and.AiSched.Cores.Serving
use ai_optimized_kernel_and.AiSched.Cores.Serving.{
  Dispatching, goes, other_goes, other_asks, dispatch_serves_or_empty,
}
use ai_optimized_kernel_and.AiSched.Cores.Settling.{
  AllOnce, extend, turns, advance_all, cores_settle,
}
use ai_optimized_kernel_and.AiSched.Cores.Counters.{Route, counter, sent}
use ai_optimized_kernel_and.AiSched.Counting.{HasCounted}
use ai_optimized_kernel_and.Tests.Instances.{maps, smp}
use ai_optimized_kernel_and.Tests.Scheduler
use ai_optimized_kernel_and.Tests.Scheduler.{trainer, start}

-- Each CPU may run the tasks whose slice is not 0.
abbrev machine : Smp Task
machine = smp Task (λ c e. ltb 0 e.slice)

abbrev cpus : List ℕ
cpus = 0 ∷ 1 ∷ []

zero-Once : Once 0 cpus
zero-Once = ground arith

one-Once : Once 1 cpus
one-Once = ground arith

abbrev rest : Cores maps machine
rest = record { shared = init maps machine.scx start; pcs = λ c. idle }

-- CPU 1 dispatches between the first two steps of an enqueue on CPU 0.
abbrev later : Cores maps machine
later =
    let t = advance maps machine 0 (enter maps machine 0 Scheduler.here trainer 0 rest) in
    advance maps machine 0 (advance maps machine 1 (ask maps machine 1 t))

interleaved : Run maps machine cpus rest (trainer ∷ []) later
unfolding advance advance_from
interleaved =
    let r = enters 0 Scheduler.here trainer 0 here zero-Once refl in
    let q = asks 1 (advances 0 r zero-Once) one-Once refl in
    advances 0 (advances 1 q one-Once) zero-Once

cores_conserve_example :
    Perm (tasks_of_all maps machine cpus later) (trainer ∷ tasks_of_all maps machine cpus rest)
unfolding init
cores_conserve_example = cores_conserve maps machine cpus (λ c. tt) interleaved

cores_count_example : HasCountedBut maps machine cpus 1 (λ k. sent maps machine k interleaved) later
cores_count_example = cores_count maps machine cpus start (omega arith) (omega arith) interleaved

-- Two turns are not enough; six turns of each CPU are.
abbrev schedule : List ℕ
schedule = 0 ∷ 0 ∷ 1 ∷ 0 ∷ 1 ∷ 1 ∷ 1 ∷ 0 ∷ 0 ∷ 1 ∷ 0 ∷ 1 ∷ []

enough_turns : (c : ℕ) → Once c cpus → 6 ≤ turns c schedule
enough_turns c once = ground (arith, once)

scheduled : AllOnce cpus schedule
scheduled = ground arith

cores_settle_example :
    let t = advance_all maps machine schedule later in
    ((c : ℕ) → t.pcs c ≡ idle)
    × ((h : HasCounted maps machine.scx 1 t.shared) × ((k : Route)
          → counter k h.stats
            ≡ sent maps machine k (extend maps machine cpus schedule later scheduled interleaved)))
    × Perm
        (map (λ e. e.task) (entries maps machine cpus t))
        (trainer ∷ map (λ e. e.task) (entries maps machine cpus rest))
cores_settle_example =
    cores_settle maps machine cpus start later (trainer ∷ []) schedule (omega arith) (omega arith)
      interleaved scheduled enough_turns

-- CPU 1 dispatches and CPU 0 begins a dispatch meanwhile.
dispatch_serves_or_empty_example :
    let u = advance_all maps machine (1 ∷ 1 ∷ []) (ask maps machine 1 rest) in
    let t = advance_all maps machine (1 ∷ 1 ∷ 1 ∷ 0 ∷ 1 ∷ []) (ask maps machine 0 u) in
    (t.pcs 1 ≡ idle)
    × (((e : Entry Task) × (machine.local_of t.shared.dsqs 1
            ≡ machine.local_of rest.shared.dsqs 1 ++ e ∷ []))
        ⊎ ((d : ℕ)
            → d < 5
            → take_first (machine.may_run_on 1) (machine.scx.queue t.shared.dsqs d) ≡ none))
unfolding advance_all advance advance_from init
dispatch_serves_or_empty_example =
    dispatch_serves_or_empty maps machine 1 rest (λ x. inl refl)
      (goes (
        other_goes 0
          (goes (goes (goes (other_asks 0 (goes (goes Serving.here)) (omega arith) refl))))
          (omega arith)))
      (omega arith)

-- User space sets another mode after the choice of an enqueue on CPU 0, and once more after its routing.
abbrev chosen : Cores maps machine
chosen =
    advance maps machine 0
      (advance maps machine 0 (enter maps machine 0 Scheduler.here trainer 0 rest))

abbrev set_mode : ℕ → Cores maps machine → Cores maps machine
set_mode mode t = record t {
  shared = record t.shared {
    sched_decisions = t.shared.sched_decisions;
    energy_mode = mode ∷ [];
    time_slices = t.shared.time_slices;
  };
}

abbrev counted : Cores maps machine
counted =
    advance maps machine 0 (advance maps machine 0 (advance maps machine 0 (set_mode 3 chosen)))

abbrev about_to_insert : Cores maps machine
about_to_insert = set_mode 0 counted

abbrev choice : Choice
choice = choose maps start.sched_decisions start.time_slices trainer

abbrev queue : ℕ
queue = select_dsq maps (3 ∷ []) choice.task_class choice.preferred_device
