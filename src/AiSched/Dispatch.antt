-- ===== src/AiSched/Dispatch.antt =====
-- ai_sched_dispatch of kernel/ai_sched.bpf.c: the queues are served in a fixed order.
use ai_optimized_kernel_and.Prelude.{
  ℕ, ◌≡◌, refl, ◌≢◌, inl, inr, Option, some, none, arith, List, [], ◌∷◌, ◌++◌, ◌∙◌, ap, take_first,
  Option-cases,
}
use ai_optimized_kernel_and.Bpf.Maps.{Maps}
use ai_optimized_kernel_and.Bpf.Scx.{Scx, Entry}
use ai_optimized_kernel_and.AiSched.Dsq
use ai_optimized_kernel_and.AiSched.Task.{Task}
use ai_optimized_kernel_and.AiSched.Hooks.{AiSched, try_dsq, dispatch}

-- The order in which the queues are asked.
abbrev pub order : List ℕ
order = Dsq.perf ∷ Dsq.eff ∷ Dsq.gpu ∷ Dsq.npu ∷ Dsq.fallback ∷ []

module _ (scx : Scx Task) where
  -- The task to run next: the first that the CPU may run, in the first queue that has one.
  abbrev pub serve : List ℕ → scx.State → Option (ℕ × Entry Task × List (Entry Task))
  serve [] s = none
  serve (d ∷ ds) s =
      let rest = serve ds s in
      elim (take_first scx.may_run (scx.queue s d)) [ none ↦ rest | some (e, es) ↦ some (d, e, es) ]

  -- The hook's chain of attempts, over any list of queues.
  abbrev pub try_all : List ℕ → scx.State → scx.State
  try_all [] s = s
  try_all (d ∷ ds) s = try_dsq scx d (try_all ds) s

  -- The entry has moved from its queue to the end of the local queue, and no other queue has changed.
  pub record Served (d : ℕ) (e : Entry Task) (es : List (Entry Task)) (s s' : scx.State)
      : Type 0 where
    pub ran : scx.local s' ≡ scx.local s ++ e ∷ []
    pub left : scx.queue s' d ≡ es
    pub others : (d' : ℕ) → d' ≢ d → scx.queue s' d' ≡ scx.queue s d'

  try_all-none : (ds : List ℕ) (s : scx.State) → serve ds s ≡ none → try_all ds s ≡ s
  unfolding try_dsq
  try_all-none [] s h = refl
  try_all-none (d ∷ ds) s h = elim (Option-cases (take_first scx.may_run (scx.queue s d))) [
    | inl e ↦ rw (scx.move_none s d e) (try_all-none ds s (ground (arith, e)))
    | inr (x, e) ↦ ground (arith, e)
  ]

  try_dsq-some :
      (d : ℕ) (rest : scx.State → scx.State) (s : scx.State) (e : Entry Task)
      (es : List (Entry Task))
      → take_first scx.may_run (scx.queue s d) ≡ some (e, es)
      → Served d e es s (try_dsq scx d rest s)
  unfolding try_dsq
  try_dsq-some d rest s e es h =
      let m = scx.move_some s d e es h in
      rw (try_dsq, m.0) (record { ran = m.2; left = m.1; others = λ d' ne. scx.move_ne s d d' ne })

  try_all-some :
      (ds : List ℕ) (s : scx.State) (d : ℕ) (e : Entry Task) (es : List (Entry Task))
      → serve ds s ≡ some (d, e, es)
      → Served d e es s (try_all ds s)
  unfolding try_dsq
  try_all-some [] s d e es h = cc
  try_all-some (d ∷ ds) s d' e es h = elim (Option-cases (take_first scx.may_run (scx.queue s d))) [
    | inl n ↦ rw (scx.move_none s d n) (try_all-some ds s d' e es (ground (arith, n)))
    | inr ((x, xs), n) ↦
        let q : (d ≡ d') × (x ≡ e) × (xs ≡ es) = ground (arith, n) in
        rw (← q.0, ← q.1, ← q.2) (try_dsq-some d (try_all ds) s x xs n)
  ]

module _ (bpf : Maps) (scx : Scx Task) where
  -- The hook changes nothing but the queues, and those as one attempt after the other, in order.
  dispatch_lem :
      (s : AiSched bpf scx) → dispatch bpf scx s ≡ record s { dsqs = try_all scx order s.dsqs }
  unfolding dispatch try_dsq
  dispatch_lem s = refl

  -- If some queue has a task that the CPU may run, a dispatch moves exactly one task to the end of
  -- the CPU's local queue: the first such task of the first such queue, in the order perf, eff, gpu,
  -- npu, fallback. All other queues stay as they are, so a queue waits while an earlier one has work.
  pub dispatch_serves :
      (s : AiSched bpf scx) (d : ℕ) (e : Entry Task) (es : List (Entry Task))
      → serve scx order s.dsqs ≡ some (d, e, es)
      → Served scx d e es s.dsqs (dispatch bpf scx s).dsqs
  dispatch_serves s d e es h = rw dispatch_lem (try_all-some scx order s.dsqs d e es h)

  -- If no queue has a task that the CPU may run, a dispatch changes nothing.
  pub dispatch_idle : (s : AiSched bpf scx) → serve scx order s.dsqs ≡ none → dispatch bpf scx s ≡ s
  dispatch_idle s h =
      dispatch_lem s ∙ ap (λ t. record s { dsqs = t }) (try_all-none scx order s.dsqs h)
