-- ===== src/AiSched/Cores/Progress.antt =====
-- How far ai_sched_dispatch of kernel/ai_sched.bpf.c is on one CPU while others dispatch.
use ai_optimized_kernel_and.Prelude.{
  false, ℕ, ◌<◌, ◌≡◌, ◌≢◌, ◌⊎◌, inl, inr, refl, ◌∙◌, arith, Bool, Bool-cases, none, some,
  Option-cases, List, [], ◌∷◌, ◌++◌, update_self, Absent, take_first,
}
use native.Mathlib.Decide.{ℕ_discrete}
use ai_optimized_kernel_and.Bpf.Maps.{Maps}
use ai_optimized_kernel_and.Bpf.Scx.{Entry}
use ai_optimized_kernel_and.Bpf.Smp.{Smp}
use ai_optimized_kernel_and.AiSched.Task.{Task}
use ai_optimized_kernel_and.AiSched.Cores.{Pc, idle, asking, Cores, advance_from, advance}
use ai_optimized_kernel_and.AiSched.Cores.Settling.{advance_from-ne}

take_first-none :
    (p : Entry Task → Bool) (x : Entry Task) (xs : List (Entry Task))
    → take_first p (x ∷ xs) ≡ none
    → (p x ≡ false) × (take_first p xs ≡ none)
take_first-none p x xs h = elim (Option-cases (take_first p xs)) [
  | inl n ↦ (ground (arith, h, n, Bool-cases (p x)), n)
  | inr (y, n) ↦ ground (arith, h, n, Bool-cases (p x))
]

-- Where no task of a list fits one CPU, none fits it after another CPU has taken one.
take_first-rest :
    (p q : Entry Task → Bool) (es rest : List (Entry Task)) (e : Entry Task)
    → take_first p es ≡ none
    → take_first q es ≡ some (e, rest)
    → take_first p rest ≡ none
take_first-rest p q [] rest e h k = cc
take_first-rest p q (x ∷ xs) rest e h k =
    let (unfit, none_left) = take_first-none p x xs h in
    elim (Bool-cases (q x)) [
      | inl yes_q ↦ let same : xs ≡ rest = ground (arith, k, yes_q) in rw (← same) none_left
      | inr no_q ↦ elim (Option-cases (take_first q xs)) [
        | inl n ↦ ground (arith, k, no_q, n)
        | inr ((y, ys), n) ↦
            let same : x ∷ ys ≡ rest = ground (arith, k, no_q, n) in
            rw (← same) (ground (arith, unfit, take_first-rest p q xs ys y none_left n))
      ]
    ]

-- The CPU is not enqueueing.
abbrev pub IsDispatching : Pc → Type 0
IsDispatching pc = (pc ≡ idle) ⊎ ((ds : List ℕ) × (pc ≡ asking ds))

module _ (bpf : Maps) (smp : Smp Task) (c : ℕ) where
  open smp use {scx, local_of, may_run_on, move_on}

  -- Of the five queues, those that the CPU need not ask any more have no task that it may run.
  abbrev pub Asked : List ℕ → scx.State → Type 0
  Asked ds s = (d : ℕ) → d < 5 → Absent d ds → take_first (may_run_on c) (scx.queue s d) ≡ none

  -- How far the dispatch of the CPU is, if its local queue was `old`.
  pub data Progress (old : List (Entry Task)) (t : Cores bpf smp) : Type 0 where
    seeks :
        (ds : List ℕ)
        → t.pcs c ≡ asking ds
        → Asked ds t.shared.dsqs
        → local_of t.shared.dsqs c ≡ old
        → Progress old t
    found :
        (e : Entry Task)
        → t.pcs c ≡ idle
        → local_of t.shared.dsqs c ≡ old ++ e ∷ []
        → Progress old t
    finds_none :
        t.pcs c ≡ idle → Asked [] t.shared.dsqs → local_of t.shared.dsqs c ≡ old → Progress old t

  pub other-Progress :
      (old : List (Entry Task)) (t t' : Cores bpf smp)
      → t'.pcs c ≡ t.pcs c
      → local_of t'.shared.dsqs c ≡ local_of t.shared.dsqs c
      → ((ds : List ℕ) → Asked ds t.shared.dsqs → Asked ds t'.shared.dsqs)
      → Progress old t
      → Progress old t'
  other-Progress old t t' e l f (seeks ds at a o) = seeks ds (e ∙ at) (f ds a) (l ∙ o)
  other-Progress old t t' e l f (found x at o) = found x (e ∙ at) (l ∙ o)
  other-Progress old t t' e l f (finds_none at a o) = finds_none (e ∙ at) (f [] a) (l ∙ o)

  move-Asked : (s : scx.State) (x d : ℕ) (ds : List ℕ) → Asked ds s → Asked ds (move_on s x d).1
  move-Asked s x d ds a d' lt absent = elim (ℕ_discrete d' d) [
    | yes e ↦ rw e (elim (Option-cases (take_first (may_run_on x) (scx.queue s d))) [
      | inl n ↦ rw (smp.move_on_none s x d n) (rw e at (a d' lt absent))
      | inr ((y, rest), n) ↦ rw (smp.move_on_some s x d y rest n).1 (
          take_first-rest (may_run_on c) (may_run_on x) (scx.queue s d) rest y
            (rw e at (a d' lt absent)) n)
    ])
    | no ne ↦ rw (smp.move_on_ne s x d d' ne) (a d' lt absent)
  ]

  -- A step of another CPU that dispatches, and a step of this one.
  pub other_step :
      (old : List (Entry Task)) (t : Cores bpf smp) (x : ℕ) (pc : Pc)
      → c ≢ x
      → IsDispatching pc
      → Progress old t
      → Progress old (advance_from bpf smp pc x t)
  unfolding advance_from
  other_step old t x pc ne (inl e) g = rw e g
  other_step old t x pc ne (inr ([], e)) g = rw e (
      other-Progress old t (advance_from bpf smp (asking []) x t)
        (advance_from-ne bpf smp t x c (asking []) ne) refl (λ ds a. a) g)
  other_step old t x pc ne (inr (q ∷ qs, e)) g = rw e (
      other-Progress old t (advance_from bpf smp (asking (q ∷ qs)) x t)
        (advance_from-ne bpf smp t x c (asking (q ∷ qs)) ne)
        (smp.move_on_local_ne t.shared.dsqs x q c ne) (λ ds a. move-Asked t.shared.dsqs x q ds a) g)

  Asked-none :
      (s : scx.State) (d : ℕ) (ds : List ℕ)
      → Asked (d ∷ ds) s
      → take_first (may_run_on c) (scx.queue s d) ≡ none
      → Asked ds s
  Asked-none s d ds a n d' lt absent = elim (ℕ_discrete d d') [
    | yes e ↦ rw (← e) n
    | no ne ↦ a d' lt (ne, absent)
  ]

  pub own_step :
      (old : List (Entry Task)) (t : Cores bpf smp)
      → Progress old t
      → Progress old (advance bpf smp c t)
  unfolding advance advance_from
  own_step old t (found x at o) = rw (advance, at) (found x at o)
  own_step old t (finds_none at a o) = rw (advance, at) (finds_none at a o)
  own_step old t (seeks [] at a o) = rw (advance, at) (finds_none (update_self t.pcs c idle) a o)
  own_step old t (seeks (d ∷ ds) at a o) =
      let s = t.shared.dsqs in
      elim (Option-cases (take_first (may_run_on c) (scx.queue s d))) [
        | inl n ↦
            rw (advance, at, advance_from, smp.move_on_none s c d n)
              (seeks ds (update_self t.pcs c (asking ds)) (Asked-none s d ds a n) o)
        | inr ((e, rest), n) ↦
            let (moved, _, ran) = smp.move_on_some s c d e rest n in
            rw (advance, at, advance_from, moved)
              (found e (update_self t.pcs c idle) (rw (ran, o) refl))
      ]
