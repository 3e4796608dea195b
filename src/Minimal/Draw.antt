-- ===== src/Minimal/Draw.antt =====
-- The loop by which lottery.bpf.c and lottery_prio.bpf.c look for the winner.
use ai_optimized_kernel_and.Prelude.{ℕ, suc, true, false, ◌&&◌, List, [], ◌∷◌, sub32, nonpos32}
use ai_optimized_kernel_and.Bpf.Scx.{Scx, Entry}
use ai_optimized_kernel_and.Minimal.Task.{Task, shared_dsq_id}

module _ (scx : Scx Task) (cost : Entry Task → ℕ) where
  open scx use {State, may_run, dsq_move}

  -- `random` is an s32, as its pattern; `i` is the position that the iteration has reached. A task
  -- that is drawn but cannot be moved is passed over.
  unfoldable pub draw : List (Entry Task) → ℕ → ℕ → State → State
  draw [] i random s = s
  draw (e ∷ es) i random s =
      let random' = sub32 random (cost e) in
      let moved = dsq_move s shared_dsq_id i scx.local_on_dsq scx.enq_preempt in
      elim (nonpos32 random' && may_run e) [
        | true ↦ elim moved.0 [ true ↦ moved.1 | false ↦ draw es (suc i) random' moved.1 ]
        | false ↦ draw es (suc i) random' s
      ]
