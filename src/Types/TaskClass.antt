-- ===== src/Types/TaskClass.antt =====
-- enum ai_task_class
use ai_optimized_kernel_and.Prelude.{ℕ}

abbrev pub realtime_ai : ℕ
realtime_ai = 0

abbrev pub interactive_ai : ℕ
interactive_ai = 1

abbrev pub batch_ai : ℕ
batch_ai = 2

abbrev pub background : ℕ
background = 3

abbrev pub unknown : ℕ
unknown = 4
