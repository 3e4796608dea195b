-- ===== src/Types/Energy.antt =====
-- enum ai_energy_mode
use ai_optimized_kernel_and.Prelude.{ℕ}

abbrev pub performance : ℕ
performance = 0

abbrev pub balanced : ℕ
balanced = 1

abbrev pub efficient : ℕ
efficient = 2

abbrev pub power_saver : ℕ
power_saver = 3
