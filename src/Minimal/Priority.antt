-- ===== src/Minimal/Priority.antt =====
-- The order in which prio.bpf.c serves tasks of different weight.
use ai_optimized_kernel_and.Prelude.{
  ℕ, ◌≤◌, ◌<◌, ◌≡◌, refl, ap, ◌∙◌, Bool, List, [], ◌∷◌, arith, length, before64, insert_before,
  insert_before-first, insert_before-past, ◌^◌, ◌++◌,
}
use ai_optimized_kernel_and.Bpf.Scx.{Scx, Entry}
use ai_optimized_kernel_and.Minimal.Task.{Task, shared_dsq_id, share_slice}
use ai_optimized_kernel_and.Minimal.Prio.{vtime_of_weight, sched_enqueue}

-- Virtual times of weights up to 100 are at most 100.
abbrev pub AllLight : List (Entry Task) → Type 0
AllLight [] = Unit {0}
AllLight (e ∷ es) = (e.vtime ≤ 100) × AllLight es

abbrev pub by_vtime : Entry Task → Entry Task → Bool
by_vtime x y = before64 x.vtime y.vtime

-- Behind all light entries stands what 100 - weight wraps for.
insert-heavy :
    (e : Entry Task) (es : List (Entry Task))
    → 100 < e.vtime
    → e.vtime < 2 ^ 63
    → AllLight es
    → insert_before by_vtime e es ≡ es ++ e ∷ []
insert-heavy e [] h k all = refl
insert-heavy e (x ∷ xs) h k (light, all) =
    insert_before-past by_vtime e x xs (ground arith) ∙ ap (λ l. x ∷ l) (insert-heavy e xs h k all)

module _ (scx : Scx Task) where
  open scx use {State, queue}

  -- The entry that sched_enqueue makes of a task.
  abbrev pub entry_of : Task → State → Entry Task
  entry_of p s = record {
    task = p;
    slice = share_slice (length (queue s shared_dsq_id));
    vtime = vtime_of_weight p.weight;
  }

  pub enqueue-queue :
      (p : Task) (flags : ℕ) (s : State)
      → queue (sched_enqueue scx p flags s) shared_dsq_id
        ≡ insert_before by_vtime (entry_of p s) (queue s shared_dsq_id)
  unfolding sched_enqueue
  enqueue-queue p flags s =
      scx.insert_vtime_self s _ shared_dsq_id flags
      ∙ ap
          (λ n.
            insert_before by_vtime
              (record { task = p; slice = share_slice n; vtime = vtime_of_weight p.weight })
              (queue s shared_dsq_id))
          (scx.nr_queued_lem s shared_dsq_id)

  -- A task of weight up to 100, the default, goes to the front of the queue if the task there has
  -- the virtual time of a lighter weight.
  heavier_overtakes :
      (p : Task) (flags w : ℕ) (s : State) (e : Entry Task) (es : List (Entry Task))
      → queue s shared_dsq_id ≡ e ∷ es
      → e.vtime ≡ vtime_of_weight w
      → w < p.weight
      → p.weight ≤ 100
      → queue (sched_enqueue scx p flags s) shared_dsq_id ≡ entry_of p s ∷ e ∷ es
  unfolding vtime_of_weight
  heavier_overtakes p flags w s e es q v h le =
      enqueue-queue p flags s
      ∙ ap (insert_before by_vtime (entry_of p s)) q
      ∙ insert_before-first by_vtime (entry_of p s) e es (ground arith)

  -- The virtual time of a weight above 100, and below 2 ^ 31, wraps: the task goes to the end of a
  -- queue in which every virtual time is at most 100, as those of lighter tasks are.
  heavy_goes_last :
      (p : Task) (flags : ℕ) (s : State)
      → AllLight (queue s shared_dsq_id)
      → 100 < p.weight
      → p.weight < 2 ^ 31
      → queue (sched_enqueue scx p flags s) shared_dsq_id
        ≡ queue s shared_dsq_id ++ entry_of p s ∷ []
  unfolding vtime_of_weight
  heavy_goes_last p flags s light lt small =
      enqueue-queue p flags s
      ∙ insert-heavy (entry_of p s) (queue s shared_dsq_id) (omega arith) (omega arith) light
