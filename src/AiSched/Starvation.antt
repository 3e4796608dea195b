-- ===== src/AiSched/Starvation.antt =====
-- Which tasks kernel/ai_sched.bpf.c need never run.
use ai_optimized_kernel_and.Prelude.{
  insert_at, Bool, true, false, ap, refl, ℕ, ◌≡◌, ◌≢◌, inl, inr, sym, ◌∙◌, none, some, Option-cases,
  List, [], ◌∷◌, ◌++◌, append_assoc, append-nil, arith, take_first,
}
use native.Mathlib.Decide.{ℕ_discrete}
use ai_optimized_kernel_and.Bpf.Maps.{Maps}
use ai_optimized_kernel_and.Bpf.Scx.{Scx, Entry}
use ai_optimized_kernel_and.AiSched.Dsq
use ai_optimized_kernel_and.AiSched.Task.{Task}
use ai_optimized_kernel_and.AiSched.Hooks.{AiSched, Context, choose, enqueue, dispatch}
use ai_optimized_kernel_and.AiSched.Enqueue.{target_of, enqueue-Inserts}
use ai_optimized_kernel_and.AiSched.Dispatch.{order, serve, dispatch_serves}
use ai_optimized_kernel_and.AiSched.Counting.{Event, enqueues, dispatches, writes, run, step}

module _ (bpf : Maps) (scx : Scx Task) where
  -- At each dispatch of the history the queue perf has a task that the CPU may run.
  abbrev pub IsBusy : List (Event bpf scx) → AiSched bpf scx → Type 0
  IsBusy [] s = Unit {0}
  IsBusy (enqueues cx p flags ∷ es) s = IsBusy es (enqueue bpf scx cx p flags s)
  IsBusy (dispatches ∷ es) s =
      (take_first scx.may_run (scx.queue s.dsqs Dsq.perf) ≢ none) × IsBusy es (dispatch bpf scx s)
  IsBusy (writes decisions mode slices ∷ es) s =
      IsBusy es (record s { sched_decisions = decisions; energy_mode = mode; time_slices = slices })

  -- The queue still has all that it had, in one piece.
  abbrev pub Keeps : ℕ → AiSched bpf scx → AiSched bpf scx → Type 0
  Keeps d s t =
      (ahead : List (Entry Task)) × (behind : List (Entry Task)) × (scx.queue t.dsqs d
        ≡ ahead ++ scx.queue s.dsqs d ++ behind)

  Keeps-trans : (d : ℕ) (s t u : AiSched bpf scx) → Keeps d s t → Keeps d t u → Keeps d s u
  Keeps-trans d s t u (a, b, h) (a', b', k) = (
    a' ++ a,
    b ++ b',
    k
        ∙ rw h (
            let q = scx.queue s.dsqs d in
            rw
              (
                append_assoc a' (a ++ q ++ b) b',
                append_assoc (a ++ q) b b',
                append_assoc a q (b ++ b'),
                append_assoc (a' ++ a) q (b ++ b'),
                append_assoc a' a (q ++ (b ++ b')),
              )
              refl),
  )

  dispatch-Keeps :
      (d : ℕ) (s : AiSched bpf scx)
      → d ≢ Dsq.perf
      → take_first scx.may_run (scx.queue s.dsqs Dsq.perf) ≢ none
      → Keeps d s (dispatch bpf scx s)
  dispatch-Keeps d s ne busy =
      elim (Option-cases (take_first scx.may_run (scx.queue s.dsqs Dsq.perf))) [
        | inl n ↦ absurd (busy n)
        | inr ((e, es), n) ↦
            let k : serve scx order s.dsqs ≡ some (Dsq.perf, e, es) = ground (arith, n) in
            ([], [], (dispatch_serves bpf scx s Dsq.perf e es k).others d ne ∙ sym (append-nil _))
      ]

  inserted-Keeps :
      (d : ℕ) (s t : AiSched bpf scx) (e : Entry Task) (head : Bool)
      → scx.queue t.dsqs d ≡ insert_at head e (scx.queue s.dsqs d)
      → Keeps d s t
  inserted-Keeps d s t e true h = (e ∷ [], [], h ∙ ap (λ l. e ∷ l) (sym (append-nil _)))
  inserted-Keeps d s t e false h = ([], e ∷ [], h)

  enqueue-Keeps :
      (d : ℕ) (cx : Context) (p : Task) (flags : ℕ) (s : AiSched bpf scx)
      → Keeps d s (enqueue bpf scx cx p flags s)
  enqueue-Keeps d cx p flags s =
      let ch = choose bpf s.sched_decisions s.time_slices p in
      let t = target_of bpf scx ch p s.energy_mode in
      let a = enqueue-Inserts bpf scx cx p flags s in
      elim (ℕ_discrete d t.dsq) [
        | yes e ↦
            inserted-Keeps d s (enqueue bpf scx cx p flags s) t.entry (scx.at_head flags)
              (rw e a.inserted)
        | no ne ↦ ([], [], a.others d ne ∙ sym (append-nil _))
      ]

  -- The order of the queues is strict: while the queue perf has a task that the CPU may run at each
  -- dispatch, no task that waits in another queue is run, whatever else happens. Each other queue still
  -- has all its tasks, in their order and with no other between them: new ones come before or behind.
  pub starves :
      (es : List (Event bpf scx)) (s : AiSched bpf scx) (d : ℕ)
      → d ≢ Dsq.perf
      → IsBusy es s
      → Keeps d s (run bpf scx es s)
  unfolding run step
  starves [] s d ne b = ([], [], sym (append-nil _))
  starves (enqueues cx p flags ∷ es) s d ne b =
      let s' = enqueue bpf scx cx p flags s in
      Keeps-trans d s s' (run bpf scx es s') (enqueue-Keeps d cx p flags s) (starves es s' d ne b)
  starves (dispatches ∷ es) s d ne (h, b) =
      let s' = dispatch bpf scx s in
      Keeps-trans d s s' (run bpf scx es s') (dispatch-Keeps d s ne h) (starves es s' d ne b)
  starves (writes m n o ∷ es) s d ne b =
      starves es (record s { sched_decisions = m; energy_mode = n; time_slices = o }) d ne b
