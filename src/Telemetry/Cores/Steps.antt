-- ===== src/Telemetry/Cores/Steps.antt =====
-- A step of a CPU whose place is known.
use ai_optimized_kernel_and.Prelude.{ℕ, ◌≡◌, refl}
use ai_optimized_kernel_and.Bpf.Maps.{Maps}
use ai_optimized_kernel_and.Bpf.Elements.{Elements}
use ai_optimized_kernel_and.Telemetry.{Accum}
use ai_optimized_kernel_and.Telemetry.Cores.{Cores, Pc, idle, advance_from, advance}

module _ (bpf : Maps) (elements : Elements bpf Accum) where
  pub advance-at :
      (t : Cores bpf elements) (c : ℕ) (pc : Pc bpf elements)
      → t.pcs c ≡ pc
      → advance bpf elements c t ≡ advance_from bpf elements pc c t
  unfolding advance
  advance-at t c pc e = rw e refl

  pub idles : (t : Cores bpf elements) (c : ℕ) → t.pcs c ≡ idle → advance bpf elements c t ≡ t
  unfolding advance_from
  idles t c e = rw (advance-at t c idle e) refl
