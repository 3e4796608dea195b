-- ===== src/Tests/Schedulers.antt =====
-- The schedulers of minimal-scheduler-main/minimal-scheduler-main on concrete queues.
use mathlib.Core.List.{Perm}
use ai_optimized_kernel_and.Minimal.Conservation
use ai_optimized_kernel_and.Minimal.Conservation.{none_is_lost}
use ai_optimized_kernel_and.Prelude.{
  ℕ, zero, suc, ◌<◌, ◌≡◌, inr, refl, true, List, [], ◌∷◌, ◌++◌, arith,
}
use ai_optimized_kernel_and.Bpf.Scx.{Scx, Entry}
use ai_optimized_kernel_and.Minimal.Task.{Task, shared_dsq_id}
use ai_optimized_kernel_and.Minimal.LotteryPrio
use ai_optimized_kernel_and.Minimal.Prio
use ai_optimized_kernel_and.Minimal.Prio.{vtime_of_weight}
use ai_optimized_kernel_and.Minimal.Vtime.{
  Sched, sched_running, is_smaller, sched_select_cpu, sched_enqueue, enqueue_vtime, sched_dispatch,
}
use ai_optimized_kernel_and.Minimal.Order.{tasks}
use ai_optimized_kernel_and.Minimal.Drawing.{lottery_prio_draws}
use ai_optimized_kernel_and.Minimal.VirtualTime.{
  Hook, enqueue as enqueue_hook, select_cpu, running, run_hook, run_hooks,
}
use ai_optimized_kernel_and.Minimal.Sorted.{NoneEarlier}
use ai_optimized_kernel_and.Minimal.Earliest.{IsEarly, early-lt, earliest_first}
use ai_optimized_kernel_and.Minimal.Heaviest
use ai_optimized_kernel_and.Minimal.Heaviest.{NoneHeavier, heaviest_first}
use ai_optimized_kernel_and.Tests.Instances.{Queues, scx}

-- A CPU that may run every task.
abbrev kernel : Scx Task
kernel = scx Task (λ e. true)

abbrev task : ℕ → ℕ → ℕ → Task
task pid weight dsq_vtime = record { pid = pid; weight = weight; slice = 0; dsq_vtime = dsq_vtime }

abbrev entry : ℕ → ℕ → ℕ → Entry Task
entry pid weight vtime = record { task = task pid weight vtime; slice = 2500000; vtime = vtime }

abbrev holding : List (Entry Task) → Queues Task
holding es = record {
  queues = λ d. elim d [ zero ↦ es | suc k ↦ [] ];
  created = λ d. true;
  ran = [];
  elsewhere = λ c. [];
}

abbrev empty : Queues Task
empty = holding []

-- Weights 1, 100 and 30
abbrev three : Queues Task
three = holding (entry 1 1 0 ∷ entry 2 100 0 ∷ entry 3 30 0 ∷ [])

moves :
    (i : ℕ)
    → i < 3
    → (kernel.dsq_move three shared_dsq_id i kernel.local_on_dsq kernel.enq_preempt).0 ≡ true
moves zero h = refl
moves (suc zero) h = refl
moves (suc (suc zero)) h = refl
moves (suc (suc (suc i))) h = absurd (omega arith)

-- 200 modulo 131 is 69, which the second task's tickets 2 to 101 contain.
lottery_prio_draws_example :
    kernel.local (LotteryPrio.sched_dispatch kernel 200 three) ≡ entry 2 100 0 ∷ []
lottery_prio_draws_example =
    lottery_prio_draws kernel 200 three (entry 1 1 0 ∷ []) (entry 2 100 0) (entry 3 30 0 ∷ []) refl
      (omega arith) (omega arith) (inr (omega arith)) (omega arith) refl refl

-- A task of weight 50 at the front
abbrev light : Queues Task
light = holding (entry 1 50 50 ∷ entry 2 20 80 ∷ [])

-- A slice of 20 ms; the local queue is number 1.
abbrev at_zero : Sched kernel 20000000 1
at_zero = record { vtime_now = 0; dsqs = holding (entry 1 100 7000000 ∷ []) }

abbrev history : List (Hook kernel 20000000 1)
history = running (task 2 100 9000000) ∷ []

queue_after :
    kernel.queue (run_hooks kernel 20000000 1 history at_zero).dsqs shared_dsq_id
    ≡ entry 1 100 7000000 ∷ []
unfolding run_hooks run_hook sched_running is_smaller
queue_after = refl

-- Weights 30, 90 and 60 arrive; 90 runs first.
abbrev arrivals : List Heaviest.Hook
arrivals =
    Heaviest.enqueue (task 1 30 0) 0
    ∷ Heaviest.enqueue (task 2 90 0) 0
    ∷ Heaviest.enqueue (task 3 60 0) 0
    ∷ []

abbrev keyed : ℕ → ℕ → ℕ → ℕ → Entry Task
keyed pid weight vtime slice = record { task = task pid weight 0; slice = slice; vtime = vtime }

heaviest_first_example :
    let t = Heaviest.run_hooks kernel arrivals empty in
    let rest = keyed 3 60 40 2500000 ∷ keyed 1 30 70 0 ∷ [] in
    (kernel.local (Prio.sched_dispatch kernel t) ≡ kernel.local t ++ keyed 2 90 10 5000000 ∷ [])
    × (kernel.queue (Prio.sched_dispatch kernel t) shared_dsq_id ≡ rest)
    × NoneHeavier (λ e. true) 90 rest
unfolding Heaviest.run_hooks Heaviest.run_hook Prio.sched_enqueue vtime_of_weight
heaviest_first_example =
    heaviest_first kernel arrivals empty (keyed 2 90 10 5000000)
      (keyed 3 60 40 2500000 ∷ keyed 1 30 70 0 ∷ []) (omega arith, (omega arith, (omega arith, tt)))
      refl refl

-- Virtual times 50 and 20 arrive, while a task runs and another one goes to an idle CPU.
abbrev timed : List (Hook kernel 20000000 1)
timed =
    enqueue_hook (task 1 100 50) 0
    ∷ running (task 7 100 900)
    ∷ select_cpu (task 8 100 3) (0, true)
    ∷ enqueue_hook (task 2 100 20) 0
    ∷ []

abbrev idle : Sched kernel 20000000 1
idle = record { vtime_now = 0; dsqs = empty }

abbrev timed_entry : ℕ → ℕ → Entry Task
timed_entry pid vtime = record { task = task pid 100 vtime; slice = 20000000; vtime = vtime }

earliest_first_example :
    let t = run_hooks kernel 20000000 1 timed idle in
    let t' = sched_dispatch kernel 20000000 1 t in
    (kernel.local t'.dsqs ≡ kernel.local t.dsqs ++ timed_entry 2 20 ∷ [])
    × (kernel.queue t'.dsqs shared_dsq_id ≡ timed_entry 1 50 ∷ [])
    × NoneEarlier IsEarly early-lt (λ e. true) 20 (timed_entry 1 50 ∷ [])
unfolding run_hooks run_hook sched_running is_smaller sched_select_cpu sched_enqueue enqueue_vtime
earliest_first_example =
    earliest_first kernel 20000000 1 timed idle (timed_entry 2 20) (timed_entry 1 50 ∷ [])
      (λ e. omega arith) (omega arith, (omega arith, tt)) refl refl

-- One task waits, and the CPU is idle for another.
abbrev mixed : List Conservation.Hook
mixed =
    Conservation.selects (task 6 1 0) (0, true)
    ∷ Conservation.enqueues (task 4 50 0) 0
    ∷ Conservation.dispatches 200
    ∷ []

none_is_lost_example :
    let s : Conservation.World kernel 20000000 = record { vtime_now = 0; dsqs = three } in
    Perm
      (Conservation.tasks kernel 20000000
        (Conservation.run kernel 20000000 Conservation.vtime mixed s))
      (task 4 50 0 ∷ task 6 1 0 ∷ Conservation.tasks kernel 20000000 s)
none_is_lost_example =
    none_is_lost kernel 20000000 Conservation.vtime mixed (record { vtime_now = 0; dsqs = three })
