-- ===== src/Tests/Tracers.antt =====
-- kernel/telemetry.bpf.c on two CPUs, with concrete maps and events.
use ai_optimized_kernel_and.Prelude.{ℕ, ◌≡◌, refl, arith, some, List, [], ◌∷◌, Once}
use ai_optimized_kernel_and.Bpf.Elements.{Elements}
use ai_optimized_kernel_and.Telemetry.{Accum, zero_accum}
use ai_optimized_kernel_and.Telemetry.Counters.{sys_enter, sched_fork}
use ai_optimized_kernel_and.Telemetry.Cores.{
  Cores, counts_call, idle, looking, after_lookup, advance_from, advance, advance_all, enter, Run,
  here, enters, advances,
}
use ai_optimized_kernel_and.Telemetry.Cores.Kept.{Kept}
use ai_optimized_kernel_and.Telemetry.Cores.Exactness.{no_call_is_lost}
use ai_optimized_kernel_and.Telemetry.Cores.Races.{first_call_is_lost}
use ai_optimized_kernel_and.Tests.Instances.{maps}
use ai_optimized_kernel_and.Tests.Elements
use ai_optimized_kernel_and.Tests.Tracing.{start, thread}

abbrev elements : Elements maps Accum
elements = Elements.elements Accum

abbrev cpus : List ℕ
cpus = 0 ∷ 1 ∷ []

-- PID 5 has a record.
abbrev known : Cores maps elements
known = record {
  shared = record start { task_accumulators = (5, zero_accum) ∷ [] };
  pcs = λ c. idle;
}

abbrev later : Cores maps elements
later =
    let t = advance maps elements 0 (enter maps elements 0 (sys_enter thread) known) in
    advance maps elements 0 (advance maps elements 1 (enter maps elements 1 (sched_fork 9) t))

interleaved : Run maps elements cpus known (sched_fork 9 ∷ sys_enter thread ∷ []) later
unfolding advance advance_from after_lookup
interleaved =
    let one : Once 0 cpus = ground arith in
    let two : Once 1 cpus = ground arith in
    let r = advances 0 (enters 0 (sys_enter thread) here one refl) one in
    advances 0 (advances 1 (enters 1 (sched_fork 9) r two refl) two) one

no_call_is_lost_example : Kept maps elements 5 (5, 1) cpus zero_accum 1 later
no_call_is_lost_example =
    no_call_is_lost maps elements 5 (5, 1) cpus zero_accum (λ c. refl) refl refl (omega arith, tt)
      (omega arith) interleaved

-- Two threads of PID 5, which has no record, make their first calls.
abbrev first_calls : Cores maps elements
first_calls = record { shared = start; pcs = λ c. looking counts_call 5 }

first_call_is_lost_example :
    let t = advance_all maps elements (0 ∷ 1 ∷ 0 ∷ 0 ∷ 0 ∷ 1 ∷ 1 ∷ 1 ∷ []) first_calls in
    (maps.hash_lookup t.shared.task_accumulators 5
      ≡ some (record zero_accum { total_syscalls = 1 }))
    × (t.pcs 0 ≡ idle)
    × (t.pcs 1 ≡ idle)
first_call_is_lost_example =
    first_call_is_lost maps elements 5 0 1 first_calls (omega arith) refl refl refl refl
