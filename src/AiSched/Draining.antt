-- ===== src/AiSched/Draining.antt =====
-- Which tasks kernel/ai_sched.bpf.c runs in the end, and in which order.
use ai_optimized_kernel_and.Prelude.{
  ℕ, zero, suc, ◌≡◌, ◌≢◌, ◌⊎◌, inl, inr, refl, sym, ◌∙◌, true, none, some, Option-cases, List, [],
  ◌∷◌, ◌++◌, append_assoc, append-nil, arith, length, replicate, take_first, Absent, gather,
  gather-Absent,
}
use ai_optimized_kernel_and.Bpf.Maps.{Maps}
use ai_optimized_kernel_and.Bpf.Scx.{Scx, Entry}
use ai_optimized_kernel_and.AiSched.Task.{Task}
use ai_optimized_kernel_and.AiSched.Hooks.{AiSched, dispatch}
use ai_optimized_kernel_and.AiSched.Dispatch.{Served, order, serve, dispatch_serves}
use ai_optimized_kernel_and.AiSched.Counting.{dispatches, run, step}

abbrev Distinct : List ℕ → Type 0
Distinct [] = Unit {0}
Distinct (x ∷ xs) = Absent x xs × Distinct xs

order-Distinct : Distinct order
order-Distinct = ground arith

module _ (scx : Scx Task) where
  open scx use {State, queue, local, may_run}

  -- A queue that is left out is not served.
  serve-Absent :
      (ds : List ℕ) (x : ℕ) (s : State) (d : ℕ) (e : Entry Task) (es : List (Entry Task))
      → Absent x ds
      → serve scx ds s ≡ some (d, e, es)
      → d ≢ x
  serve-Absent [] x s d e es a h = λ q. cc
  serve-Absent (y ∷ ys) x s d e es (ne, a) h =
      elim (Option-cases (take_first may_run (queue s y))) [
        | inl n ↦ serve-Absent ys x s d e es a (ground (arith, h, n))
        | inr ((z, zs), n) ↦ let q : y ≡ d = ground (arith, h, n) in λ p. ne (q ∙ p)
      ]

  module _ (runs : (e : Entry Task) → may_run e ≡ true) where
    take_first-head :
        (es : List (Entry Task))
        → ((es ≡ []) × (take_first may_run es ≡ none))
          ⊎ ((e : Entry Task) × (rest : List (Entry Task)) × (es ≡ e ∷ rest)
              × (take_first may_run es ≡ some (e, rest)))
    take_first-head [] = inl (refl, refl)
    take_first-head (e ∷ es) = inr (e, es, refl, rw (take_first, runs e) refl)

    serve-none : (ds : List ℕ) (s : State) → serve scx ds s ≡ none → gather ds (queue s) ≡ []
    serve-none [] s h = refl
    serve-none (d ∷ ds) s h = elim (take_first-head (queue s d)) [
      | inl (e, n) ↦ rw (e, serve-none ds s (ground (arith, h, n))) refl
      | inr (e, rest, q, n) ↦ ground (arith, h, n)
    ]

    -- What is served is the first of all that waits.
    serve-gather :
        (ds : List ℕ) (s s' : State) (d : ℕ) (e : Entry Task) (es : List (Entry Task))
        → Distinct ds
        → serve scx ds s ≡ some (d, e, es)
        → Served scx d e es s s'
        → gather ds (queue s) ≡ e ∷ gather ds (queue s')
    serve-gather [] s s' d e es u h v = cc
    serve-gather (x ∷ xs) s s' d e es (a, u) h v = elim (take_first-head (queue s x)) [
      | inl (q, n) ↦
          let k : serve scx xs s ≡ some (d, e, es) = ground (arith, h, n) in
          let ne = serve-Absent xs x s d e es a k in
          let q' = v.others x (λ p. ne (sym p)) in rw (q', q) (serve-gather xs s s' d e es u k v)
      | inr (y, ys, q, n) ↦
          let (p, p₁, p₂) : (x ≡ d) × (y ≡ e) × (ys ≡ es) = ground (arith, h, n) in
          let g : gather xs (queue s') ≡ gather xs (queue s) =
            gather-Absent (queue s) (queue s') d v.others xs (rw p at a) in
          let l : queue s' x ≡ es = rw p v.left in rw (q, l, g, p₁, p₂) refl
    ]

module _ (bpf : Maps) (scx : Scx Task) where
  -- All that waits in the five queues, in the order in which the queues are served.
  abbrev pub waiting : AiSched bpf scx → List (Entry Task)
  waiting s = gather order (scx.queue s.dsqs)

  -- A CPU that may run every task and goes on asking runs all that waits, if nothing more arrives: after
  -- as many dispatches as there are tasks, it has run each of them once, the whole queue perf first, then
  -- eff, gpu, npu and fallback, each in its order, and all five queues are empty.
  pub drains :
      (runs : (e : Entry Task) → scx.may_run e ≡ true) (n : ℕ) (s : AiSched bpf scx)
      → length (waiting s) ≡ n
      → let t = run bpf scx (replicate n dispatches) s in
        (scx.local t.dsqs ≡ scx.local s.dsqs ++ waiting s) × (waiting t ≡ [])
  unfolding run step
  drains runs zero s h = elim (Option-cases (serve scx order s.dsqs)) [
    | inl e ↦
        let z = serve-none scx runs order s.dsqs e in
        (rw z (sym (append-nil (scx.local s.dsqs))), z)
    | inr ((d, e, es), k) ↦
        let g =
          serve-gather scx runs order s.dsqs (dispatch bpf scx s).dsqs d e es order-Distinct k
            (dispatch_serves bpf scx s d e es k) in
        let z : suc (length (waiting (dispatch bpf scx s))) ≡ 0 = rw g at h in absurd (omega arith)
  ]
  drains runs (suc n) s h = elim (Option-cases (serve scx order s.dsqs)) [
    | inl e ↦
        let z : 0 ≡ suc n = rw (serve-none scx runs order s.dsqs e) at h in absurd (omega arith)
    | inr ((d, e, es), k) ↦
        let v = dispatch_serves bpf scx s d e es k in
        let s' = dispatch bpf scx s in
        let g = serve-gather scx runs order s.dsqs s'.dsqs d e es order-Distinct k v in
        let m : suc (length (waiting s')) ≡ suc n = rw g at h in
        let (ran, empty) = drains runs n s' (omega arith) in
        (ran ∙ rw (v.ran, g) (append_assoc (scx.local s.dsqs) (e ∷ []) (waiting s')), empty)
  ]
