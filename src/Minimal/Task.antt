-- ===== src/Minimal/Task.antt =====
-- The fields of `p->scx` that the small schedulers read and write, and the queue that they share.
use ai_optimized_kernel_and.Prelude.{ℕ, ◌/◌}

pub record Task : Type 0 where
  pub pid : ℕ
  pub weight : ℕ
  pub slice : ℕ
  pub dsq_vtime : ℕ

abbrev pub shared_dsq_id : ℕ
shared_dsq_id = 0

-- `5000000u / nr_queued`. A division by zero yields 0 in a BPF program, as `/` does here.
abbrev pub share_slice : ℕ → ℕ
share_slice nr_queued = 5000000 / nr_queued
