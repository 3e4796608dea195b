-- ===== src/Bpf/Smp.antt =====
-- The dispatch queues of sched_ext, as several CPUs use them at once: each operation is atomic.
use ai_optimized_kernel_and.Prelude.{
  ℕ, ◌<◌, ◌^◌, ◌≡◌, ◌≢◌, Bool, true, false, none, some, List, [], ◌∷◌, ◌++◌, take_first,
}
use ai_optimized_kernel_and.Bpf.Scx.{Scx, Entry}

pub record Smp (Task : Type 0) : Type 1 where
  -- The queues as one of the CPUs observes them, and which CPU that is.
  pub scx : Scx Task
  pub here : ℕ
  -- What was moved to the local queue of a CPU, and what the CPU may run.
  pub local_of : scx.State → ℕ → List (Entry Task)
  pub may_run_on : ℕ → Entry Task → Bool
  -- scx_bpf_dsq_move_to_local on a CPU
  pub move_on : scx.State → ℕ → ℕ → Bool × scx.State
  pub here_move : (s : scx.State) (d : ℕ) → move_on s here d ≡ scx.dsq_move_to_local s d
  -- An insertion in a queue of the scheduler's own runs nothing, on no CPU.
  pub insert_local_of :
      (s : scx.State) (e : Entry Task) (d flags c : ℕ)
      → d < 2 ^ 63
      → local_of (scx.dsq_insert s e d flags) c ≡ local_of s c
  pub move_on_none :
      (s : scx.State) (c d : ℕ)
      → take_first (may_run_on c) (scx.queue s d) ≡ none
      → move_on s c d ≡ (false, s)
  pub move_on_some :
      (s : scx.State) (c d : ℕ) (e : Entry Task) (rest : List (Entry Task))
      → take_first (may_run_on c) (scx.queue s d) ≡ some (e, rest)
      → ((move_on s c d).0 ≡ true)
        × (scx.queue (move_on s c d).1 d ≡ rest)
        × (local_of (move_on s c d).1 c ≡ local_of s c ++ e ∷ [])
  -- No other queue and no other CPU sees anything of a move.
  pub move_on_ne :
      (s : scx.State) (c d d' : ℕ) → d' ≢ d → scx.queue (move_on s c d).1 d' ≡ scx.queue s d'
  pub move_on_local_ne :
      (s : scx.State) (c d c' : ℕ) → c' ≢ c → local_of (move_on s c d).1 c' ≡ local_of s c'
