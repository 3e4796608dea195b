-- ===== src/AiSched/Task.antt =====
-- What kernel/ai_sched.bpf.c reads of a `struct task_struct`. A pointer field that may be NULL is an
-- Option; `prio`, `static_prio` and `nr_threads`, of type int, are 32-bit patterns.
use ai_optimized_kernel_and.Prelude.{ℕ, ◌/◌, ◌%◌, ◌^◌, none, some, Option, List, u32_mod, mul64}

pub record Task : Type 0 where
  pub tgid : ℕ
  pub flags : ℕ
  -- p->signal, and its nr_threads
  pub signal : Option ℕ
  -- p->mm, and its total_vm, in pages
  pub mm : Option ℕ
  pub state : ℕ
  pub prio : ℕ
  pub static_prio : ℕ
  pub policy : ℕ
  -- p->se.avg.util_avg
  pub util_avg : ℕ
  pub comm : List ℕ

-- `(__u32)((vm * 4096) >> 20)` on an unsigned long
abbrev pub pages_to_mb : ℕ → ℕ
pages_to_mb vm = mul64 vm 4096 / 2 ^ 20 % u32_mod

-- 0 for a task with no mm
abbrev pub memory_mb_of : Option ℕ → ℕ
memory_mb_of none = 0
memory_mb_of (some vm) = pages_to_mb vm

-- 1 for a task with no signal structure
abbrev pub num_threads_of : Option ℕ → ℕ
num_threads_of none = 1
num_threads_of (some n) = n % u32_mod
