-- ===== src/AiSched/Dsq.antt =====
-- kernel/ai_sched.bpf.c: dispatch queue ids, DSQ_PERF to DSQ_FALLBACK.
use ai_optimized_kernel_and.Prelude.{ℕ}

abbrev pub perf : ℕ
perf = 0

abbrev pub eff : ℕ
eff = 1

abbrev pub gpu : ℕ
gpu = 2

abbrev pub npu : ℕ
npu = 3

abbrev pub fallback : ℕ
fallback = 4
