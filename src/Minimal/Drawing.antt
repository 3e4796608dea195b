-- ===== src/Minimal/Drawing.antt =====
-- Which task the draw of lottery.bpf.c and lottery_prio.bpf.c picks.
use ai_optimized_kernel_and.Prelude.{
  ℕ, zero, suc, ◌+◌, ◌-◌, ◌%◌, ◌^◌, ◌≤◌, ◌<◌, ◌≡◌, ◌⊎◌, inl, inr, refl, ap, ◌∙◌, true, false, List,
  [], ◌∷◌, ◌++◌, some, arith, length, get_elem?, sub32, add32, nonpos32,
}
use native.Mathlib.Nat.{add_assoc}
use Prim.Native.Nat.add
use ai_optimized_kernel_and.Bpf.Scx.{Scx, Entry}
use ai_optimized_kernel_and.Minimal.Task.{Task, shared_dsq_id}
use ai_optimized_kernel_and.Minimal.Draw.{draw}
use ai_optimized_kernel_and.Minimal.Lottery
use ai_optimized_kernel_and.Minimal.LotteryPrio
use ai_optimized_kernel_and.Minimal.LotteryPrio.{sum_weights}

-- A positive number less what it exceeds stays positive; less what reaches it, it does not.
stays_positive : (random c : ℕ) → random < 2 ^ 31 → c < random → nonpos32 (sub32 random c) ≡ false
stays_positive random c h lt = ground arith

turns_nonpos : (random c : ℕ) → random ≤ c → c < 2 ^ 31 → nonpos32 (sub32 random c) ≡ true
turns_nonpos random c le h = ground arith

abbrev pub total : (Entry Task → ℕ) → List (Entry Task) → ℕ
total cost [] = 0
total cost (e ∷ es) = cost e + total cost es

module _ (scx : Scx Task) (cost : Entry Task → ℕ) where
  draw_here :
      (e : Entry Task) (es : List (Entry Task)) (i random : ℕ) (s : scx.State)
      → random ≤ cost e
      → cost e < 2 ^ 31
      → scx.may_run e ≡ true
      → (scx.dsq_move s shared_dsq_id i scx.local_on_dsq scx.enq_preempt).0 ≡ true
      → draw scx cost (e ∷ es) i random s
        ≡ (scx.dsq_move s shared_dsq_id i scx.local_on_dsq scx.enq_preempt).1
  unfolding draw
  draw_here e es i random s le c may ok = ground (arith, turns_nonpos random (cost e) le c, may, ok)

  draw_past :
      (x : Entry Task) (xs : List (Entry Task)) (i random : ℕ) (s : scx.State)
      → random < 2 ^ 31
      → cost x < random
      → draw scx cost (x ∷ xs) i random s ≡ draw scx cost xs (suc i) (random - cost x) s
  unfolding draw
  draw_past x xs i random s h lt =
      let e : sub32 random (cost x) ≡ random - cost x = omega arith in
      ground (arith, stays_positive random (cost x) h lt, e)

  -- Tasks whose costs stay below the number drawn are passed over; the first that reaches it wins.
  draw-picks :
      (xs : List (Entry Task)) (e : Entry Task) (ys : List (Entry Task)) (i j random : ℕ)
      (s : scx.State)
      → i + length xs ≡ j
      → random < 2 ^ 31
      → cost e < 2 ^ 31
      → (xs ≡ []) ⊎ (total cost xs < random)
      → random ≤ total cost xs + cost e
      → scx.may_run e ≡ true
      → (scx.dsq_move s shared_dsq_id j scx.local_on_dsq scx.enq_preempt).0 ≡ true
      → draw scx cost (xs ++ e ∷ ys) i random s
        ≡ (scx.dsq_move s shared_dsq_id j scx.local_on_dsq scx.enq_preempt).1
  draw-picks [] e ys i j random s n h c below above may ok =
      let z : i ≡ j = omega arith in rw z (draw_here e ys j random s (omega arith) c may ok)
  draw-picks (x ∷ xs) e ys i j random s n h c (inl empty) above may ok = cc
  draw-picks (x ∷ xs) e ys i j random s n h c (inr below) above may ok =
      draw_past x (xs ++ e ∷ ys) i random s h (omega arith)
      ∙ draw-picks xs e ys (suc i) j (random - cost x) s (omega arith) (omega arith) c
          (inr (omega arith)) (omega arith) may ok

-- The element at a position in range, with what stands before and after it.
split_at :
    {A : Type 0} (q : List A) (i : ℕ)
    → i < length q
    → (xs : List A) × (e : A) × (ys : List A) × (q ≡ xs ++ e ∷ ys) × (length xs ≡ i)
split_at [] i h = elim h [ ]
split_at (x ∷ q) zero h = ([], x, q, refl, refl)
split_at (x ∷ q) (suc i) h =
    let (xs, e, ys, p, n) = split_at q i (omega arith) in
    (x ∷ xs, e, ys, ap (λ l. x ∷ l) p, ap suc n)

get_elem?-middle :
    {A : Type 0} (xs : List A) (e : A) (ys : List A) → get_elem? (xs ++ e ∷ ys) (length xs) ≡ some e
get_elem?-middle [] e ys = refl
get_elem?-middle (x ∷ xs) e ys = get_elem?-middle xs e ys

abbrev pub weights : Entry Task → ℕ
weights e = e.task.weight

total-append :
    (xs ys : List (Entry Task)) → total weights (xs ++ ys) ≡ total weights xs + total weights ys
total-append [] ys = omega arith
total-append (x ∷ xs) ys = omega (arith, total-append xs ys)

module _ (scx : Scx Task) where
  open scx use {State, queue, local, may_run, dsq_move}

  total_one : (es : List (Entry Task)) → total (λ e. 1) es ≡ length es
  total_one [] = refl
  total_one (e ∷ es) = omega (arith, total_one es)

  below_lot :
      (xs : List (Entry Task)) (r : ℕ) → length xs ≡ r - 1 → (xs ≡ []) ⊎ (total (λ e. 1) xs < r)
  below_lot [] r h = inl refl
  below_lot (x ∷ xs) r h = inr (omega (arith, total_one xs))

  lottery_at :
      (prandom : ℕ) (s : State) (n i : ℕ) (xs : List (Entry Task)) (e : Entry Task)
      (ys : List (Entry Task))
      → queue s shared_dsq_id ≡ xs ++ e ∷ ys
      → length xs ≡ i
      → i ≡ prandom % n - 1
      → length (queue s shared_dsq_id) ≡ n
      → 0 < n
      → n < 2 ^ 31
      → may_run e ≡ true
      → (dsq_move s shared_dsq_id i scx.local_on_dsq scx.enq_preempt).0 ≡ true
      → Lottery.sched_dispatch scx prandom s
        ≡ (dsq_move s shared_dsq_id i scx.local_on_dsq scx.enq_preempt).1
  unfolding Lottery.sched_dispatch
  lottery_at prandom s n i xs e ys q k at len pos small may ok =
      rw (q, scx.nr_queued_lem, len)
        (draw-picks scx (λ e. 1) xs e ys 0 i (prandom % n) s (omega arith) (omega arith)
          (omega arith) (below_lot xs (prandom % n) (omega arith)) (omega (arith, total_one xs)) may
          ok)

  -- Where every task may run and can be moved, the lottery over n tasks, with 0 < n < 2 ^ 31, moves
  -- the task at position r - 1, where r is the random number modulo n, and that at 0 where r is 0;
  -- with more than one task in the queue this is never the last one.
  lottery_draws :
      (prandom : ℕ) (s : State) (n : ℕ)
      → length (queue s shared_dsq_id) ≡ n
      → 0 < n
      → n < 2 ^ 31
      → ((e : Entry Task) → may_run e ≡ true)
      → ((i : ℕ) → i < n → (dsq_move s shared_dsq_id i scx.local_on_dsq scx.enq_preempt).0 ≡ true)
      → let i = prandom % n - 1 in
        (Lottery.sched_dispatch scx prandom s
          ≡ (dsq_move s shared_dsq_id i scx.local_on_dsq scx.enq_preempt).1)
        × ((n ≡ 1) ⊎ (suc i < n))
  unfolding Lottery.sched_dispatch
  lottery_draws prandom s n len pos small may ok =
      let i = prandom % n - 1 in
      let (xs, e, ys, q, k) = split_at (queue s shared_dsq_id) i (omega (arith, len)) in
      (
        lottery_at prandom s n i xs e ys q k refl len pos small (may e) (ok i (omega arith)),
        omega arith,
      )

  sum_weights-total :
      (sum : ℕ) (es : List (Entry Task))
      → sum + total weights es < 2 ^ 32
      → sum_weights sum es ≡ sum + total weights es
  unfolding sum_weights
  sum_weights-total sum [] h = omega arith
  sum_weights-total sum (e ∷ es) h =
      let k : add32 sum e.task.weight ≡ sum + e.task.weight = omega arith in
      rw k (
        sum_weights-total (sum + e.task.weight) es (omega arith)
        ∙ add_assoc sum e.task.weight (total weights es))

  -- The weighted lottery moves to the head of the CPU's local queue the task with which the weights, summed from the front of the queue,
  -- first reach the random number modulo their total, if the CPU may run it and it can be moved,
  -- and if the total is positive and below 2 ^ 31. So the first task has one ticket more than its
  -- weight, the number 0.
  pub lottery_prio_draws :
      (prandom : ℕ) (s : State) (xs : List (Entry Task)) (e : Entry Task) (ys : List (Entry Task))
      → queue s shared_dsq_id ≡ xs ++ e ∷ ys
      → total weights (xs ++ e ∷ ys) < 2 ^ 31
      → 0 < total weights (xs ++ e ∷ ys)
      → (xs ≡ []) ⊎ (total weights xs < prandom % total weights (xs ++ e ∷ ys))
      → prandom % total weights (xs ++ e ∷ ys) ≤ total weights xs + e.task.weight
      → may_run e ≡ true
      → (dsq_move s shared_dsq_id (length xs) scx.local_on_dsq scx.enq_preempt).0 ≡ true
      → local (LotteryPrio.sched_dispatch scx prandom s) ≡ e ∷ local s
  unfolding LotteryPrio.sched_dispatch
  lottery_prio_draws prandom s xs e ys q small pos below above may ok =
      let t = total weights (xs ++ e ∷ ys) in
      let summed : sum_weights 0 (xs ++ e ∷ ys) ≡ t =
        sum_weights-total 0 (xs ++ e ∷ ys) (omega arith) ∙ add.zero t in
      rw (q, summed)
        (ap local (
            draw-picks scx weights xs e ys 0 (length xs) (prandom % t) s (omega arith) (omega arith)
              (omega (arith, total-append xs (e ∷ ys))) below above may ok)
          ∙ (rw scx.preempt_at_head at (
              scx.move_done s shared_dsq_id (length xs) scx.enq_preempt e
                (rw q (get_elem?-middle xs e ys)) ok)).0)
