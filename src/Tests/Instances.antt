-- ===== src/Tests/Instances.antt =====
-- Maps, ring buffers and dispatch queues as plain data: the assumptions of Bpf can be met.
use ai_optimized_kernel_and.Prelude.{
  drop, insert_at, ◌/◌, ◌%◌, ◌||◌, ◌^◌, ◌+◌, leb, ℕ, zero, suc, ◌<◌, ◌≡◌, refl, ◌≢◌, ◌⊎◌, inl, Bool,
  true, false, Option, none, some, List, [], ◌∷◌, ◌++◌, arith, ◌==◌, if◌then◌else◌, length,
  get_elem?, set, take_first, ap, insert_before, before64, remove_at, get_elem?-set_self,
  length-set,
}
use ai_optimized_kernel_and.Bpf.Maps.{Maps}
use ai_optimized_kernel_and.Bpf.Scx.{Scx, Entry}
use ai_optimized_kernel_and.Bpf.Smp.{Smp}

pub get_elem?-present {ℓ} :
    {A : Type ℓ} (xs : List A) (i : ℕ) → i < length xs → (v : A) × (get_elem? xs i ≡ some v)
get_elem?-present [] i h = elim h [ ]
get_elem?-present (x ∷ xs) zero h = (x, refl)
get_elem?-present (x ∷ xs) (suc i) h = get_elem?-present xs i (omega arith)

pub set-set : {V : Type 0} (xs : List V) (i : ℕ) (v w : V) → set (set xs i v) i w ≡ set xs i w
set-set [] i v w = refl
set-set (x ∷ xs) zero v w = refl
set-set (x ∷ xs) (suc i) v w = ap (λ ys. x ∷ ys) (set-set xs i v w)

module _ {V : Type 0} where
  abbrev find : List (ℕ × V) → ℕ → Option V
  find [] k = none
  find ((j, v) ∷ m) k = if j == k then some v else find m k

  abbrev remove : List (ℕ × V) → ℕ → List (ℕ × V)
  remove [] k = []
  remove ((j, v) ∷ m) k = let rest = remove m k in if j == k then rest else (j, v) ∷ rest

  pub find-remove_self : (m : List (ℕ × V)) (k : ℕ) → find (remove m k) k ≡ none
  find-remove_self [] k = refl
  find-remove_self ((j, v) ∷ m) k = ground (arith, find-remove_self m k)

  pub find-remove_ne : (m : List (ℕ × V)) (k j : ℕ) → j ≢ k → find (remove m k) j ≡ find m j
  find-remove_ne [] k j h = refl
  find-remove_ne ((i, v) ∷ m) k j h = ground (arith, find-remove_ne m k j h)

  pub find-insert_self :
      (m : List (ℕ × V)) (k : ℕ) (v : V)
      → (find ((k, v) ∷ m) k ≡ some v) ⊎ ((find m k ≡ none) × ((k, v) ∷ m ≡ m))
  find-insert_self m k v = inl (ground arith)

  pub find-insert_ne : (m : List (ℕ × V)) (k j : ℕ) (v : V) → j ≢ k → find ((k, v) ∷ m) j ≡ find m j
  find-insert_ne m k j v h = ground arith

  -- A ring with the memory that its next reservation hands out, if it has room.
  abbrev reserve : Option V × List V → Option (V × (Option V × List V))
  reserve (none, l) = none
  reserve (some v, l) = some (v, (none, l))

  pub reserve-samples :
      (r : Option V × List V) (v : V) (r' : Option V × List V)
      → reserve r ≡ some (v, r')
      → r'.1 ≡ r.1
  reserve-samples (none, l) v r' h = cc
  reserve-samples (some w, l) v r' h = ground arith

abbrev pub maps : Maps
maps = record {
  Array = List;
  max_entries = λ m. length m;
  array_lookup = λ m i. get_elem? m i;
  array_update = λ m i v. set m i v;
  array_present = λ m i h. get_elem?-present m i h;
  array_update_self = λ m i v h. get_elem?-set_self m i v h;
  array_update_size = λ m i v. length-set m i v;
  array_update_again = λ m i v w. set-set m i v w;
  Hash = λ V. List (ℕ × V);
  hash_lookup = λ m k. find m k;
  hash_update = λ m k v. (k, v) ∷ m;
  hash_delete = λ m k. remove m k;
  hash_update_self = λ m k v. find-insert_self m k v;
  hash_update_ne = λ m k j v h. find-insert_ne m k j v h;
  hash_delete_self = λ m k. find-remove_self m k;
  hash_delete_ne = λ m k j h. find-remove_ne m k j h;
  Ring = λ V. Option V × List V;
  samples = λ r. r.1;
  ringbuf_reserve = λ r. reserve r;
  ringbuf_submit = λ r v. (r.0, r.1 ++ v ∷ []);
  reserve_samples = λ r v r' h. reserve-samples r v r' h;
  submit_samples = λ r v. refl;
  ringbuf_consume = λ r n. (r.0, drop n r.1);
  consume_samples = λ r n. refl;
}

module _ (Task : Type 0) where
  pub record Queues : Type 0 where
    pub queues : ℕ → List (Entry Task)
    pub created : ℕ → Bool
    pub ran : List (Entry Task)
    pub elsewhere : ℕ → List (Entry Task)

  abbrev at : Queues → ℕ → List (Entry Task)
  at s c = if c == 0 then s.ran else s.elsewhere c

  -- SCX_ENQ_HEAD is 2 ^ 4 and SCX_ENQ_PREEMPT 2 ^ 32.
  abbrev is_head : ℕ → Bool
  is_head flags = flags / 2 ^ 4 % 2 == 1 || flags / 2 ^ 32 % 2 == 1

  abbrev put : Queues → Entry Task → ℕ → ℕ → Queues
  put s e d flags =
      if leb (2 ^ 63) d then record s { ran = insert_at (is_head flags) e s.ran } else record s {
        queues = λ j. if j == d then insert_at (is_head flags) e (s.queues d) else s.queues j;
      }

  abbrev move_to : Queues → ℕ → Option (Entry Task × List (Entry Task)) → Bool × Queues
  move_to s d none = (false, s)
  move_to s d (some (e, es)) =
      (true, record s { queues = λ j. if j == d then es else s.queues j; ran = s.ran ++ e ∷ [] })

  pub move_to-ne :
      (s : Queues) (d d' : ℕ) (o : Option (Entry Task × List (Entry Task)))
      → d' ≢ d
      → (move_to s d o).1.queues d' ≡ s.queues d'
  move_to-ne s d d' none h = refl
  move_to-ne s d d' (some (e, es)) h = ground arith

  pub move_to-some :
      (s : Queues) (d : ℕ) (e : Entry Task) (rest : List (Entry Task))
      (o : Option (Entry Task × List (Entry Task)))
      → o ≡ some (e, rest)
      → ((move_to s d o).0 ≡ true)
        × ((move_to s d o).1.queues d ≡ rest)
        × ((move_to s d o).1.ran ≡ s.ran ++ e ∷ [])
  move_to-some s d e rest none h = cc
  move_to-some s d e rest (some (x, xs)) h = ground arith

  pub put_self :
      (s : Queues) (e : Entry Task) (d flags : ℕ)
      → d < 2 ^ 63
      → (put s e d flags).queues d ≡ insert_at (is_head flags) e (s.queues d)
  put_self s e d flags h = ground (arith, h)

  pub put_local :
      (s : Queues) (e : Entry Task) (d flags : ℕ) → d < 2 ^ 63 → (put s e d flags).ran ≡ s.ran
  put_local s e d flags h = ground (arith, h)

  pub put_elsewhere :
      (s : Queues) (e : Entry Task) (d flags c : ℕ) → d < 2 ^ 63 → at (put s e d flags) c ≡ at s c
  put_elsewhere s e d flags c h = ground (arith, h)

  pub put-ne :
      (s : Queues) (e : Entry Task) (d flags d' : ℕ)
      → d' ≢ d
      → (put s e d flags).queues d' ≡ s.queues d'
  put-ne s e d flags d' h = ground arith

  abbrev put_vtime : Queues → Entry Task → ℕ → ℕ → Queues
  put_vtime s e d flags = record s {
    queues = λ j.
        if j == d
        then insert_before (λ x y. before64 x.vtime y.vtime) e (s.queues d)
        else s.queues j;
  }

  pub put_vtime_self :
      (s : Queues) (e : Entry Task) (d flags : ℕ)
      → (put_vtime s e d flags).queues d
        ≡ insert_before (λ x y. before64 x.vtime y.vtime) e (s.queues d)
  put_vtime_self s e d flags = ground arith

  pub put_vtime-ne :
      (s : Queues) (e : Entry Task) (d flags d' : ℕ)
      → d' ≢ d
      → (put_vtime s e d flags).queues d' ≡ s.queues d'
  put_vtime-ne s e d flags d' h = ground arith

  abbrev move_one : Queues → ℕ → ℕ → ℕ → Bool × Queues
  move_one s d i flags = elim (get_elem? (s.queues d) i) [
    | none ↦ (false, s)
    | some e ↦ (
      true,
      record s {
        queues = λ j. if j == d then remove_at i (s.queues d) else s.queues j;
        ran = insert_at (is_head flags) e s.ran;
      },
    )
  ]

  pub move_one-failed :
      (s : Queues) (d i flags : ℕ) → (move_one s d i flags).0 ≡ false → (move_one s d i flags).1 ≡ s
  move_one-failed s d i flags h = ground arith

  pub move_one-done :
      (s : Queues) (d i flags : ℕ) (e : Entry Task)
      → get_elem? (s.queues d) i ≡ some e
      → (move_one s d i flags).0 ≡ true
      → ((move_one s d i flags).1.ran ≡ insert_at (is_head flags) e s.ran)
        × ((move_one s d i flags).1.queues d ≡ remove_at i (s.queues d))
  move_one-done s d i flags e h k = ground arith

  abbrev create : Queues → ℕ → Queues
  create s d = record s { created = λ j. if j == d then true else s.created j }

  pub create_self_lem : (s : Queues) (d : ℕ) → (create s d).created d ≡ true
  create_self_lem s d = ground arith

  pub create-keeps : (s : Queues) (d e : ℕ) → s.created e ≡ true → (create s d).created e ≡ true
  create-keeps s d e h = ground arith

  -- The parameter says which tasks the CPU may run.
  abbrev pub scx : (Entry Task → Bool) → Scx Task
  scx may = record {
    State = Queues;
    queue = λ s. s.queues;
    is_created = λ s. s.created;
    local = λ s. s.ran;
    may_run = may;
    at_head = is_head;
    enq_preempt = 2 ^ 32;
    local_dsq = 2 ^ 63 + 2;
    local_on_dsq = 2 ^ 63 + 2 ^ 62;
    plain_at_end = refl;
    preempt_at_head = refl;
    create_dsq = create;
    dsq_insert = put;
    dsq_insert_vtime = put_vtime;
    nr_queued = λ s d. length (s.queues d);
    dsq_move = λ s d i target flags. move_one s d i flags;
    dsq_move_to_local = λ s d. move_to s d (take_first may (s.queues d));
    create_self = create_self_lem;
    create_keeps = create-keeps;
    insert_self = put_self;
    insert_ne = put-ne;
    insert_local = λ s e d flags h. put_local s e d flags h;
    builtin_local_dsq = omega arith;
    insert_to_local = λ s e flags. refl;
    insert_vtime_self = put_vtime_self;
    insert_vtime_ne = put_vtime-ne;
    insert_vtime_local = λ s e d flags h. refl;
    nr_queued_lem = λ s d. refl;
    move_failed = λ s d i target flags h. move_one-failed s d i flags h;
    move_done = move_one-done;
    move_none = λ s d h. ap (move_to s d) h;
    move_some = λ s d e rest h. move_to-some s d e rest _ h;
    move_ne = λ s d d' h. move_to-ne s d d' _ h;
  }

  -- A move to the local queue of a CPU: this one is CPU 0.
  abbrev move_at : Queues → ℕ → ℕ → Option (Entry Task × List (Entry Task)) → Bool × Queues
  move_at s c d o = elim o [
    | none ↦ (false, s)
    | some (e, es) ↦ if c == 0 then move_to s d (some (e, es)) else (
      true,
      record s {
        queues = λ j. if j == d then es else s.queues j;
        elsewhere = λ k. if k == c then s.elsewhere c ++ e ∷ [] else s.elsewhere k;
      },
    )
  ]

  pub move_at-some :
      (s : Queues) (c d : ℕ) (e : Entry Task) (rest : List (Entry Task))
      (o : Option (Entry Task × List (Entry Task)))
      → o ≡ some (e, rest)
      → ((move_at s c d o).0 ≡ true)
        × ((move_at s c d o).1.queues d ≡ rest)
        × (at (move_at s c d o).1 c ≡ at s c ++ e ∷ [])
  move_at-some s c d e rest none h = cc
  move_at-some s c d e rest (some (x, xs)) h = ground arith

  pub move_at-ne :
      (s : Queues) (c d d' : ℕ) (o : Option (Entry Task × List (Entry Task)))
      → d' ≢ d
      → (move_at s c d o).1.queues d' ≡ s.queues d'
  move_at-ne s c d d' none h = refl
  move_at-ne s c d d' (some (e, es)) h = ground arith

  pub move_at-elsewhere :
      (s : Queues) (c d c' : ℕ) (o : Option (Entry Task × List (Entry Task)))
      → c' ≢ c
      → at (move_at s c d o).1 c' ≡ at s c'
  move_at-elsewhere s c d c' none h = refl
  move_at-elsewhere s c d c' (some (e, es)) h = ground arith

  pub move_at_here :
      (s : Queues) (d : ℕ) (o : Option (Entry Task × List (Entry Task)))
      → move_at s 0 d o ≡ move_to s d o
  move_at_here s d none = refl
  move_at_here s d (some (e, es)) = refl

  -- The parameter says which tasks each CPU may run.
  abbrev pub smp : (ℕ → Entry Task → Bool) → Smp Task
  smp may = record {
    scx = scx (may 0);
    here = 0;
    local_of = at;
    may_run_on = may;
    move_on = λ s c d. move_at s c d (take_first (may c) (s.queues d));
    here_move = λ s d. move_at_here s d _;
    insert_local_of = λ s e d flags c h. put_elsewhere s e d flags c h;
    move_on_none = λ s c d h. ap (move_at s c d) h;
    move_on_some = λ s c d e rest h. move_at-some s c d e rest _ h;
    move_on_ne = λ s c d d' h. move_at-ne s c d d' _ h;
    move_on_local_ne = λ s c d c' h. move_at-elsewhere s c d c' _ h;
  }
