-- ===== src/Bpf/Scx.antt =====
-- The dispatch queues (DSQs) of sched_ext, as the scx_bpf_* functions show them to one CPU.
use ai_optimized_kernel_and.Prelude.{
  ℕ, ◌<◌, ◌^◌, ◌≡◌, ◌≢◌, Bool, true, false, none, some, List, [], ◌∷◌, ◌++◌, take_first, length,
  ◌≤◌, insert_at, get_elem?, remove_at, insert_before, before64,
}

-- A task in a queue, with the time slice, and the virtual time if any, that it was inserted with.
pub record Entry (Task : Type 0) : Type 0 where
  pub task : Task
  pub slice : ℕ
  pub vtime : ℕ

pub record Scx (Task : Type 0) : Type 1 where
  pub State : Type 0
  -- What is observed of a state: the queues, in the order of their tasks, whether a queue was created, and the
  -- tasks that were moved to the CPU's local queue.
  pub queue : State → ℕ → List (Entry Task)
  pub is_created : State → ℕ → Bool
  pub local : State → List (Entry Task)
  -- Whether the CPU may run the task.
  pub may_run : Entry Task → Bool
  -- Whether the flags ask for the head of a queue (SCX_ENQ_HEAD, SCX_ENQ_PREEMPT), and SCX_ENQ_PREEMPT.
  pub at_head : ℕ → Bool
  pub enq_preempt : ℕ
  -- SCX_DSQ_LOCAL, which is not one of the scheduler's own queues, and SCX_DSQ_LOCAL_ON | cpu
  pub local_dsq : ℕ
  pub local_on_dsq : ℕ
  pub create_dsq : State → ℕ → State
  pub dsq_insert : State → Entry Task → ℕ → ℕ → State
  -- scx_bpf_dsq_insert_vtime
  pub dsq_insert_vtime : State → Entry Task → ℕ → ℕ → State
  -- scx_bpf_dsq_nr_queued
  pub nr_queued : State → ℕ → ℕ
  -- scx_bpf_dsq_move to a queue, with flags, of the task that an iteration over the queue has
  -- reached, named by its position
  pub dsq_move : State → ℕ → ℕ → ℕ → ℕ → Bool × State
  pub dsq_move_to_local : State → ℕ → Bool × State
  pub create_self : (s : State) (d : ℕ) → is_created (create_dsq s d) d ≡ true
  pub create_keeps :
      (s : State) (d e : ℕ) → is_created s e ≡ true → is_created (create_dsq s d) e ≡ true
  pub plain_at_end : at_head 0 ≡ false
  pub preempt_at_head : at_head enq_preempt ≡ true
  -- In a queue of the scheduler's own (the identifiers below 2 ^ 63) the new task goes to the head or to
  -- the end, as the flags say, and no other queue changes.
  pub insert_self :
      (s : State) (e : Entry Task) (d flags : ℕ)
      → d < 2 ^ 63
      → queue (dsq_insert s e d flags) d ≡ insert_at (at_head flags) e (queue s d)
  pub insert_ne :
      (s : State) (e : Entry Task) (d flags d' : ℕ)
      → d' ≢ d
      → queue (dsq_insert s e d flags) d' ≡ queue s d'
  -- An insertion in a queue of the scheduler's own runs nothing.
  pub insert_local :
      (s : State) (e : Entry Task) (d flags : ℕ)
      → d < 2 ^ 63
      → local (dsq_insert s e d flags) ≡ local s
  -- An insertion in the local queue, where the task is to run on this CPU.
  pub builtin_local_dsq : 2 ^ 63 ≤ local_dsq
  pub insert_to_local :
      (s : State) (e : Entry Task) (flags : ℕ)
      → local (dsq_insert s e local_dsq flags) ≡ insert_at (at_head flags) e (local s)
  -- A queue that is filled by virtual time is kept in its order, the oldest first among equals.
  pub insert_vtime_self :
      (s : State) (e : Entry Task) (d flags : ℕ)
      → queue (dsq_insert_vtime s e d flags) d
        ≡ insert_before (λ x y. before64 x.vtime y.vtime) e (queue s d)
  pub insert_vtime_ne :
      (s : State) (e : Entry Task) (d flags d' : ℕ)
      → d' ≢ d
      → queue (dsq_insert_vtime s e d flags) d' ≡ queue s d'
  pub insert_vtime_local :
      (s : State) (e : Entry Task) (d flags : ℕ)
      → d < 2 ^ 63
      → local (dsq_insert_vtime s e d flags) ≡ local s
  pub nr_queued_lem : (s : State) (d : ℕ) → nr_queued s d ≡ length (queue s d)
  -- A move that fails changes nothing.
  pub move_failed :
      (s : State) (d i target flags : ℕ)
      → (dsq_move s d i target flags).0 ≡ false
      → (dsq_move s d i target flags).1 ≡ s
  pub move_done :
      (s : State) (d i flags : ℕ) (e : Entry Task)
      → get_elem? (queue s d) i ≡ some e
      → (dsq_move s d i local_on_dsq flags).0 ≡ true
      → (local (dsq_move s d i local_on_dsq flags).1 ≡ insert_at (at_head flags) e (local s))
        × (queue (dsq_move s d i local_on_dsq flags).1 d ≡ remove_at i (queue s d))
  -- The first task that the CPU may run is moved; without one nothing happens.
  pub move_none :
      (s : State) (d : ℕ)
      → take_first may_run (queue s d) ≡ none
      → dsq_move_to_local s d ≡ (false, s)
  pub move_some :
      (s : State) (d : ℕ) (e : Entry Task) (rest : List (Entry Task))
      → take_first may_run (queue s d) ≡ some (e, rest)
      → ((dsq_move_to_local s d).0 ≡ true)
        × (queue (dsq_move_to_local s d).1 d ≡ rest)
        × (local (dsq_move_to_local s d).1 ≡ local s ++ e ∷ [])
  pub move_ne : (s : State) (d d' : ℕ) → d' ≢ d → queue (dsq_move_to_local s d).1 d' ≡ queue s d'
