-- ===== src/Minimal/Sorted.antt =====
-- Queues that are kept in the order of their virtual times, all within half the range of an u64.
use ai_optimized_kernel_and.Prelude.{
  ℕ, ◌≤◌, ◌<◌, ◌≡◌, ◌⊎◌, inl, inr, ◌^◌, Bool, false, Bool-cases, Option-cases, some, List, [], ◌∷◌,
  arith, before64, insert_before, insert_before-first, insert_before-past, take_first,
}
use ai_optimized_kernel_and.Bpf.Scx.{Scx, Entry}
use ai_optimized_kernel_and.Minimal.Task.{Task}

abbrev pub by_vtime : Entry Task → Entry Task → Bool
by_vtime x y = before64 x.vtime y.vtime

-- The entries are of a kind whose virtual times are below 2 ^ 63.
module _ (IsKeyed : Entry Task → Type 0)
    (key-lt : (e : Entry Task) → IsKeyed e → e.vtime < 2 ^ 63) where
  abbrev NoneBefore : ℕ → List (Entry Task) → Type 0
  NoneBefore v [] = Unit {0}
  NoneBefore v (e ∷ es) = (v ≤ e.vtime) × NoneBefore v es

  abbrev pub IsSorted : List (Entry Task) → Type 0
  IsSorted [] = Unit {0}
  IsSorted (e ∷ es) = IsKeyed e × NoneBefore e.vtime es × IsSorted es

  NoneBefore-mono : (v w : ℕ) (es : List (Entry Task)) → w ≤ v → NoneBefore v es → NoneBefore w es
  NoneBefore-mono v w [] h k = tt
  NoneBefore-mono v w (e ∷ es) h (a, k) = (omega arith, NoneBefore-mono v w es h k)

  insert-NoneBefore :
      (v : ℕ) (a : Entry Task) (es : List (Entry Task))
      → v ≤ a.vtime
      → NoneBefore v es
      → NoneBefore v (insert_before by_vtime a es)
  insert-NoneBefore v a [] h k = (h, tt)
  insert-NoneBefore v a (e ∷ es) h (b, k) = ground (arith, insert-NoneBefore v a es h k)

  pub insert-IsSorted :
      (a : Entry Task) (es : List (Entry Task))
      → IsKeyed a
      → IsSorted es
      → IsSorted (insert_before by_vtime a es)
  insert-IsSorted a [] h k = (h, tt, tt)
  insert-IsSorted a (e ∷ es) h (le, above, k) =
      let lt_a = key-lt a h in
      let lt_e = key-lt e le in
      elim (Bool-cases (by_vtime a e)) [
        | inl first ↦
            let q : a.vtime ≤ e.vtime = ground (arith, first, lt_a, lt_e) in
            rw (insert_before-first by_vtime a e es first)
              (h, (q, NoneBefore-mono e.vtime a.vtime es q above), (le, above, k))
        | inr past ↦
            let q : e.vtime ≤ a.vtime = ground (arith, past, lt_a, lt_e) in
            rw (insert_before-past by_vtime a e es past)
              (le, insert-NoneBefore e.vtime a es q above, insert-IsSorted a es h k)
      ]

  module _ (may_run : Entry Task → Bool) where
    -- Each entry is one that the CPU may not run, or is not before that virtual time.
    abbrev pub NoneEarlier : ℕ → List (Entry Task) → Type 0
    NoneEarlier v [] = Unit {0}
    NoneEarlier v (e ∷ es) = ((may_run e ≡ false) ⊎ (IsKeyed e × (v ≤ e.vtime))) × NoneEarlier v es

    IsSorted-NoneEarlier :
        (v : ℕ) (es : List (Entry Task)) → IsSorted es → NoneBefore v es → NoneEarlier v es
    IsSorted-NoneEarlier v [] k h = tt
    IsSorted-NoneEarlier v (e ∷ es) (l, above, k) (a, h) =
        (inr (l, a), IsSorted-NoneEarlier v es k h)

    take_first-NoneBefore :
        (v : ℕ) (es : List (Entry Task)) (e : Entry Task) (rest : List (Entry Task))
        → take_first may_run es ≡ some (e, rest)
        → NoneBefore v es
        → (v ≤ e.vtime) × NoneBefore v rest
    take_first-NoneBefore v [] e rest h k = cc
    take_first-NoneBefore v (x ∷ xs) e rest h (a, k) = elim (Bool-cases (may_run x)) [
      | inl now ↦
          let (p, q) : (x ≡ e) × (xs ≡ rest) = ground (arith, h, now) in rw (← p, ← q) (a, k)
      | inr not_now ↦ elim (Option-cases (take_first may_run xs)) [
        | inl n ↦ ground (arith, h, not_now, n)
        | inr ((y, ys), n) ↦
            let (p, q) : (y ≡ e) × (x ∷ ys ≡ rest) = ground (arith, h, not_now, n) in
            let (b, c) = take_first-NoneBefore v xs y ys n k in rw (← p, ← q) (b, (a, c))
      ]
    ]

    -- What is taken is of the kind, and nothing that may run and is left comes before it.
    pub take_first-IsSorted :
        (es : List (Entry Task)) (e : Entry Task) (rest : List (Entry Task))
        → take_first may_run es ≡ some (e, rest)
        → IsSorted es
        → IsKeyed e × IsSorted rest × NoneEarlier e.vtime rest
    take_first-IsSorted [] e rest h k = cc
    take_first-IsSorted (x ∷ xs) e rest h (l, above, k) = elim (Bool-cases (may_run x)) [
      | inl now ↦
          let (p, q) : (x ≡ e) × (xs ≡ rest) = ground (arith, h, now) in
          rw (← p, ← q) (l, k, IsSorted-NoneEarlier x.vtime xs k above)
      | inr not_now ↦ elim (Option-cases (take_first may_run xs)) [
        | inl n ↦ ground (arith, h, not_now, n)
        | inr ((y, ys), n) ↦
            let (p, q) : (y ≡ e) × (x ∷ ys ≡ rest) = ground (arith, h, not_now, n) in
            let (keyed, sorted, none_earlier) = take_first-IsSorted xs y ys n k in
            let (b, c) = take_first-NoneBefore x.vtime xs y ys n above in
            rw (← p, ← q) (keyed, (l, c, sorted), (inl not_now, none_earlier))
      ]
    ]

  -- A move to the local queue keeps the order.
  pub move-IsSorted :
      (scx : Scx Task) (s : scx.State) (d : ℕ)
      → IsSorted (scx.queue s d)
      → IsSorted (scx.queue (scx.dsq_move_to_local s d).1 d)
  move-IsSorted scx s d k = elim (Option-cases (take_first scx.may_run (scx.queue s d))) [
    | inl n ↦ rw (scx.move_none s d n) k
    | inr ((e, rest), n) ↦
        rw ((scx.move_some s d e rest n).1)
          (take_first-IsSorted scx.may_run (scx.queue s d) e rest n k).1
  ]
