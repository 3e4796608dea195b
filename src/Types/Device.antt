-- ===== src/Types/Device.antt =====
-- enum ai_compute_device
use ai_optimized_kernel_and.Prelude.{ℕ}

abbrev pub perf_core : ℕ
perf_core = 0

abbrev pub eff_core : ℕ
eff_core = 1

abbrev pub gpu : ℕ
gpu = 2

abbrev pub npu : ℕ
npu = 3

abbrev pub auto : ℕ
auto = 4
