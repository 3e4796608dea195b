-- ===== src/AiSched/Cores/Serving.antt =====
-- ai_sched_dispatch of kernel/ai_sched.bpf.c while other CPUs dispatch: no CPU goes without a task that
-- it may run.
use ai_optimized_kernel_and.Prelude.{
  suc, ◌+◌, sym, ℕ, ◌<◌, ◌≤◌, ◌≡◌, ◌≢◌, ◌⊎◌, inl, inr, refl, ap, arith, Bool-cases, none, List, [],
  ◌∷◌, ◌++◌, update_self, update_ne, update-all, take_first, if◌then◌else◌,
}
use ai_optimized_kernel_and.Bpf.Maps.{Maps}
use ai_optimized_kernel_and.Bpf.Scx.{Entry}
use ai_optimized_kernel_and.Bpf.Smp.{Smp}
use ai_optimized_kernel_and.AiSched.Task.{Task}
use ai_optimized_kernel_and.AiSched.Dispatch.{order}
use ai_optimized_kernel_and.AiSched.Cores.{Pc, idle, asking, Cores, advance_from, advance, ask}
use ai_optimized_kernel_and.AiSched.Cores.Settling.{
  left, left-idle, advance_from-left, advance_from-ne,
}
use ai_optimized_kernel_and.AiSched.Cores.Progress.{
  IsDispatching, Progress, seeks, found, finds_none, other-Progress, other_step, own_step,
}

module _ (bpf : Maps) (smp : Smp Task) (c : ℕ) where
  open smp use {scx, local_of, may_run_on, move_on}

  advance_from-IsDispatching :
      (t : Cores bpf smp) (x : ℕ) (pc : Pc)
      → IsDispatching pc
      → ((y : ℕ) → IsDispatching (t.pcs y))
      → (y : ℕ) → IsDispatching ((advance_from bpf smp pc x t).pcs y)
  unfolding advance_from
  advance_from-IsDispatching t x pc (inl e) all = rw e all
  advance_from-IsDispatching t x pc (inr ([], e)) all =
      rw e (update-all IsDispatching t.pcs x idle (inl refl) all)
  advance_from-IsDispatching t x pc (inr (d ∷ ds, e)) all =
      let moved = (move_on t.shared.dsqs x d).0 in
      let next : IsDispatching (if moved then idle else asking ds) = elim (Bool-cases moved) [
        | inl y ↦ rw y (inl refl)
        | inr n ↦ rw n (inr (ds, refl))
      ] in
      rw e (update-all IsDispatching t.pcs x (if moved then idle else asking ds) next all)

  -- The interleavings of a dispatch on this CPU with dispatches on others, which may begin at any time,
  -- with the number of turns that this CPU had.
  pub data Dispatching (s : Cores bpf smp) : ℕ → Cores bpf smp → Type 0 where
    here : Dispatching s 0 s
    goes :
        {n : ℕ} {t : Cores bpf smp}
        → Dispatching s n t
        → Dispatching s (suc n) (advance bpf smp c t)
    other_goes :
        {n : ℕ} {t : Cores bpf smp} (x : ℕ)
        → Dispatching s n t
        → x ≢ c
        → Dispatching s n (advance bpf smp x t)
    other_asks :
        {n : ℕ} {t : Cores bpf smp} (x : ℕ)
        → Dispatching s n t
        → x ≢ c
        → t.pcs x ≡ idle
        → Dispatching s n (ask bpf smp x t)

  module _ (s : Cores bpf smp) (all : (x : ℕ) → IsDispatching (s.pcs x)) where
    Dispatching-IsDispatching :
        {n : ℕ} {t : Cores bpf smp} → Dispatching s n t → (x : ℕ) → IsDispatching (t.pcs x)
    unfolding advance
    Dispatching-IsDispatching here = all
    Dispatching-IsDispatching (goes {t = t} r) =
        let h = Dispatching-IsDispatching r in advance_from-IsDispatching t c (t.pcs c) (h c) h
    Dispatching-IsDispatching (other_goes {t = t} x r ne) =
        let h = Dispatching-IsDispatching r in advance_from-IsDispatching t x (t.pcs x) (h x) h
    Dispatching-IsDispatching (other_asks {t = t} x r ne e) =
        update-all IsDispatching t.pcs x (asking order) (inr (order, refl))
          (Dispatching-IsDispatching r)

    Dispatching-left :
        {n : ℕ} {t : Cores bpf smp}
        → left (s.pcs c) ≤ 6
        → Dispatching s n t
        → (m : ℕ) → 6 ≤ n + m
        → left (t.pcs c) ≤ m
    unfolding advance
    Dispatching-left h here m enough = omega (arith, h, enough)
    Dispatching-left h (goes {t = t} r) m enough =
        advance_from-left bpf smp t c (t.pcs c) m refl
          (Dispatching-left h r (suc m) (omega (arith, enough)))
    Dispatching-left h (other_goes {t = t} x r ne) m enough =
        rw (advance_from-ne bpf smp t x c (t.pcs x) (λ e. ne (sym e)))
          (Dispatching-left h r m enough)
    Dispatching-left h (other_asks {t = t} x r ne e) m enough =
        rw (update_ne t.pcs x c (asking order) (λ e. ne (sym e))) (Dispatching-left h r m enough)

    Dispatching-Progress :
        {n : ℕ} {t : Cores bpf smp} (old : List (Entry Task))
        → Progress bpf smp c old s
        → Dispatching s n t
        → Progress bpf smp c old t
    unfolding advance
    Dispatching-Progress old g here = g
    Dispatching-Progress old g (goes {t = t} r) =
        own_step bpf smp c old t (Dispatching-Progress old g r)
    Dispatching-Progress old g (other_goes {t = t} x r ne) =
        other_step bpf smp c old t x (t.pcs x) (λ e. ne (sym e)) (Dispatching-IsDispatching r x)
          (Dispatching-Progress old g r)
    Dispatching-Progress old g (other_asks {t = t} x r ne e) =
        other-Progress bpf smp c old t (ask bpf smp x t)
          (update_ne t.pcs x c (asking order) (λ e. ne (sym e))) refl (λ ds a. a)
          (Dispatching-Progress old g r)

  outcome :
      (old : List (Entry Task)) (t : Cores bpf smp)
      → t.pcs c ≡ idle
      → Progress bpf smp c old t
      → ((e : Entry Task) × (local_of t.shared.dsqs c ≡ old ++ e ∷ []))
        ⊎ ((d : ℕ) → d < 5 → take_first (may_run_on c) (scx.queue t.shared.dsqs d) ≡ none)
  outcome old t i (seeks ds at a o) = absurd (omega (arith, ap left (rw at at i)))
  outcome old t i (found e at o) = inl (e, o)
  outcome old t i (finds_none at a o) = inr (λ d lt. a d lt tt)

  -- While no CPU enqueues, a dispatch on a CPU, interleaved in any way with dispatches on the others, has
  -- ended after six turns of the CPU; then it has moved one task to the CPU's local queue, or none of the
  -- five queues has a task that the CPU may run.
  pub dispatch_serves_or_empty :
      (t : Cores bpf smp) {t' : Cores bpf smp} {n : ℕ}
      → ((x : ℕ) → IsDispatching (t.pcs x))
      → Dispatching (ask bpf smp c t) n t'
      → 6 ≤ n
      → (t'.pcs c ≡ idle)
        × (((e : Entry Task) × (local_of t'.shared.dsqs c ≡ local_of t.shared.dsqs c ++ e ∷ []))
            ⊎ ((d : ℕ) → d < 5 → take_first (may_run_on c) (scx.queue t'.shared.dsqs d) ≡ none))
  dispatch_serves_or_empty t {t' = t'} all r enough =
      let s = ask bpf smp c t in
      let at : s.pcs c ≡ asking order = update_self t.pcs c (asking order) in
      let all' = update-all IsDispatching t.pcs c (asking order) (inr (order, refl)) all in
      let ended : t'.pcs c ≡ idle =
        left-idle (t'.pcs c)
          (Dispatching-left s all' (rw at (omega arith)) r 0 (omega (arith, enough))) in
      let old = local_of t.shared.dsqs c in
      let start : Progress bpf smp c old s =
        seeks order at (λ d lt absent. absurd (ground (arith, lt, absent))) refl in
      (ended, outcome old t' ended (Dispatching-Progress s all' old start r))
