-- ===== src/AiSched/Abstract.antt =====
-- kernel/ai_sched.bpf.c as five queues that are served in strict order.
use mathlib.Core.Path.{ap₂}
use ai_optimized_kernel_and.Prelude.{
  insert_at, ℕ, ◌≡◌, ◌≢◌, inl, inr, refl, ap, ◌∙◌, Bool, Bool-cases, ◌==◌, Option, none, some,
  Option-cases, List, [], ◌∷◌, ◌++◌, arith, take_first, update,
}
use ai_optimized_kernel_and.Bpf.Maps.{Maps}
use ai_optimized_kernel_and.Bpf.Scx.{Scx, Entry}
use ai_optimized_kernel_and.AiSched.Task.{Task}
use ai_optimized_kernel_and.AiSched.Hooks.{AiSched, Context, choose, enqueue, dispatch}
use ai_optimized_kernel_and.AiSched.Routing.{select_dsq-lt}
use ai_optimized_kernel_and.AiSched.Enqueue.{target_of, enqueue-Inserts}
use ai_optimized_kernel_and.AiSched.Dispatch.{order, serve, dispatch_serves, dispatch_idle}
use ai_optimized_kernel_and.AiSched.Counting.{Event, enqueues, dispatches, writes, run, step}

-- The abstract state: the queues, and what has run on the CPU.
pub record Queues : Type 0 where
  pub queues : ℕ → List (Entry Task)
  pub ran : List (Entry Task)

-- The abstract operations: an entry arrives at the head of a queue or at its end, or the CPU asks for work.
pub data Action : Type 0 where
  arrive : Bool → ℕ → Entry Task → Action
  ask : Action

module _ (may_run : Entry Task → Bool) where
  -- The first entry that the CPU may run, of the first queue that has one, with its queue.
  abbrev pub first : List ℕ → (ℕ → List (Entry Task)) → Option (ℕ × Entry Task × List (Entry Task))
  first [] f = none
  first (d ∷ ds) f =
      let rest = first ds f in
      elim (take_first may_run (f d)) [ none ↦ rest | some (e, es) ↦ some (d, e, es) ]

  unfoldable pub act : Action → Queues → Queues
  act (arrive head d e) a = record a { queues = update a.queues d (insert_at head e (a.queues d)) }
  act ask a = elim (first order a.queues) [
    | none ↦ a
    | some (d, e, es) ↦ record { queues = update a.queues d es; ran = a.ran ++ e ∷ [] }
  ]

  unfoldable pub act_all : List Action → Queues → Queues
  act_all [] a = a
  act_all (x ∷ xs) a = act_all xs (act x a)

update-ext :
    (d : ℕ) (es : List (Entry Task)) (f g : ℕ → List (Entry Task))
    → g d ≡ es
    → ((k : ℕ) → k ≢ d → g k ≡ f k)
    → g ≡ update f d es
update-ext d es f g h others = λ i k. same k i
  where
    same : (k : ℕ) → g k ≡ update f d es k
    same k = elim (Bool-cases (k == d)) [
      | inl e ↦ let p : k ≡ d = ground (arith, e) in rw e (ap g p ∙ h)
      | inr ne ↦ let p : k ≢ d = ground (arith, ne) in rw ne (others k p)
    ]

view-eq :
    {f g : ℕ → List (Entry Task)} {l r : List (Entry Task)}
    → f ≡ g
    → l ≡ r
    → ◌≡◌ {A = Queues} (record { queues = f; ran = l }) (record { queues = g; ran = r })
view-eq p q = ap₂ (λ f l. record { queues = f; ran = l }) p q

module _ (scx : Scx Task) where
  open scx use {State, queue, local, may_run}

  -- What the abstract state shows of the queues of sched_ext.
  abbrev pub view : State → Queues
  view s = record { queues = queue s; ran = local s }

  first-serve : (ds : List ℕ) (s : State) → first may_run ds (queue s) ≡ serve scx ds s
  first-serve [] s = refl
  first-serve (d ∷ ds) s = elim (Option-cases (take_first may_run (queue s d))) [
    | inl n ↦ rw (first, serve, n) (first-serve ds s)
    | inr ((e, es), n) ↦ rw (first, serve, n) refl
  ]

module _ (bpf : Maps) (scx : Scx Task) where
  -- What a history means for the queues: the queue of each arrival is that of the choice that the maps
  -- give at that moment.
  abbrev pub actions : List (Event bpf scx) → AiSched bpf scx → List Action
  actions [] s = []
  actions (enqueues cx p flags ∷ es) s =
      let t = target_of bpf scx (choose bpf s.sched_decisions s.time_slices p) p s.energy_mode in
      arrive (scx.at_head flags) t.dsq t.entry ∷ actions es (enqueue bpf scx cx p flags s)
  actions (dispatches ∷ es) s = ask ∷ actions es (dispatch bpf scx s)
  actions (writes m n o ∷ es) s =
      actions es (record s { sched_decisions = m; energy_mode = n; time_slices = o })

  enqueue-arrive :
      (cx : Context) (p : Task) (flags : ℕ) (s : AiSched bpf scx)
      → let t = target_of bpf scx (choose bpf s.sched_decisions s.time_slices p) p s.energy_mode in
        view scx (enqueue bpf scx cx p flags s).dsqs
        ≡ act scx.may_run (arrive (scx.at_head flags) t.dsq t.entry) (view scx s.dsqs)
  unfolding act
  enqueue-arrive cx p flags s =
      let ch = choose bpf s.sched_decisions s.time_slices p in
      let t = target_of bpf scx ch p s.energy_mode in
      let lt = select_dsq-lt bpf s.energy_mode ch.task_class ch.preferred_device in
      let a = enqueue-Inserts bpf scx cx p flags s in
      let l : scx.local (enqueue bpf scx cx p flags s).dsqs ≡ scx.local s.dsqs =
        unfold enqueue in scx.insert_local _ _ _ flags (omega arith) in
      view-eq (update-ext t.dsq _ (scx.queue s.dsqs) _ a.inserted a.others) l

  dispatch-ask :
      (s : AiSched bpf scx)
      → view scx (dispatch bpf scx s).dsqs ≡ act scx.may_run ask (view scx s.dsqs)
  unfolding act
  dispatch-ask s = elim (Option-cases (serve scx order s.dsqs)) [
    | inl n ↦ rw (dispatch_idle bpf scx s n, act, first-serve scx order s.dsqs, n) refl
    | inr ((d, e, es), k) ↦
        let v = dispatch_serves bpf scx s d e es k in
        rw (act, first-serve scx order s.dsqs, k)
          (view-eq (update-ext d es (scx.queue s.dsqs) _ v.left v.others) v.ran)
  ]

  -- The scheduler is five queues with strict priority: after any history of hooks and writes of user
  -- space, the queues and the local queue are what the abstract queues are after the corresponding
  -- arrivals and requests, where an arrival puts one entry at the head of one queue, if its flags ask
  -- for that, and else at the end, and a request takes the first entry that the CPU may run of the first
  -- queue that has one.
  pub run-act_all :
      (es : List (Event bpf scx)) (s : AiSched bpf scx)
      → view scx (run bpf scx es s).dsqs ≡ act_all scx.may_run (actions es s) (view scx s.dsqs)
  unfolding run step act_all
  run-act_all [] s = refl
  run-act_all (enqueues cx p flags ∷ es) s =
      run-act_all es (enqueue bpf scx cx p flags s)
      ∙ ap (act_all scx.may_run (actions es (enqueue bpf scx cx p flags s)))
          (enqueue-arrive cx p flags s)
  run-act_all (dispatches ∷ es) s =
      run-act_all es (dispatch bpf scx s)
      ∙ ap (act_all scx.may_run (actions es (dispatch bpf scx s))) (dispatch-ask s)
  run-act_all (writes m n o ∷ es) s =
      run-act_all es (record s { sched_decisions = m; energy_mode = n; time_slices = o })
