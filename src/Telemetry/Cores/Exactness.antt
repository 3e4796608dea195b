-- ===== src/Telemetry/Cores/Exactness.antt =====
-- The system calls that kernel/telemetry.bpf.c counts on several CPUs, for a PID that has a record.
use ai_optimized_kernel_and.Prelude.{
  ℕ, ◌+◌, ◌<◌, ◌≡◌, refl, arith, some, List, u64_mod, update-all, total-update, total-const,
}
use ai_optimized_kernel_and.Bpf.Maps.{Maps}
use ai_optimized_kernel_and.Bpf.Elements.{Elements}
use ai_optimized_kernel_and.Telemetry.{Accum}
use ai_optimized_kernel_and.Telemetry.Counters.{Event}
use ai_optimized_kernel_and.Telemetry.Cores.{
  Cores, idle, advance, begin, Run, here, enters, advances,
}
use ai_optimized_kernel_and.Telemetry.Cores.Kept.{
  calls, Spares, uncounted, IsSafe, Kept, begin-IsSafe, begin-uncounted, advance_from-Kept,
  advance_from-IsSafe,
}

module _ (bpf : Maps) (elements : Elements bpf Accum) (k : ℕ) (p : elements.Ptr) (cpus : List ℕ)
    (a : Accum) where
  open elements use {element, read}

  Run-Kept :
      {s t : Cores bpf elements} {es : List Event} (n : ℕ)
      → ((c : ℕ) → s.pcs c ≡ idle)
      → Kept bpf elements k p cpus a n s
      → Spares k es
      → n + calls k es < u64_mod
      → Run bpf elements cpus s es t
      → Kept bpf elements k p cpus a (n + calls k es) t
        × ((c : ℕ) → IsSafe bpf elements k p (t.pcs c))
  unfolding advance
  Run-Kept n quiet h spares lt here =
      let e : n + 0 ≡ n = omega arith in (rw e h, λ c. rw (quiet c) tt)
  Run-Kept n quiet h spares lt (enters {es = es} {t = t} c e r once i) =
      let (safe, rest) = begin-IsSafe bpf elements k p e es spares in
      let b = begin-uncounted bpf elements k p e es in
      let (g, all) = Run-Kept n quiet h rest (omega (arith, lt, b)) r in
      (
        record {
          count = g.count;
          present = g.present;
          value = g.value;
          counted = omega (
            arith,
            g.counted,
            b,
            total-update (uncounted bpf elements k p) cpus t.pcs c (begin bpf elements e) idle once
                i,
          );
        },
        update-all (IsSafe bpf elements k p) t.pcs c (begin bpf elements e) safe all,
      )
  Run-Kept n quiet h spares lt (advances {es = es} {t = t} c r once) =
      let (g, all) = Run-Kept n quiet h spares lt r in
      (
        advance_from-Kept bpf elements k p cpus a (n + calls k es) t c once g (t.pcs c) lt refl
            (all c),
        advance_from-IsSafe bpf elements k p cpus a (n + calls k es) t c once g (t.pcs c) (all c)
            all,
      )

  -- While a PID has a record and no event forks or ends it: however the handlers of its threads and of
  -- all other PIDs interleave, whatever records they insert and delete, the record stays where it was,
  -- and at each moment its count and the calls that a CPU has still to count are together what it was at
  -- the start, when no CPU was in a handler, and the system calls of the PID since, as long as these
  -- are less than 2 ^ 64; its other fields do not change.
  pub no_call_is_lost :
      {s t : Cores bpf elements} {es : List Event}
      → ((c : ℕ) → s.pcs c ≡ idle)
      → element s.shared.task_accumulators k ≡ some p
      → read s.shared.task_accumulators p ≡ some a
      → Spares k es
      → a.total_syscalls + calls k es < u64_mod
      → Run bpf elements cpus s es t
      → Kept bpf elements k p cpus a (a.total_syscalls + calls k es) t
  no_call_is_lost {s = s} quiet e v spares lt r =
      (Run-Kept a.total_syscalls quiet
        (record {
          count = a.total_syscalls;
          present = e;
          value = v;
          counted =
              omega (arith, total-const (uncounted bpf elements k p) s.pcs cpus idle refl quiet);
        })
        spares lt r).0
