-- ===== src/AiSched/Routing.antt =====
-- What the policy functions of kernel/ai_sched.bpf.c decide: class, time slice, queue.
use ai_optimized_kernel_and.Prelude.{ℕ, ◌%◌, ◌<◌, ◌≤◌, ◌≡◌, ◌↔◌, ◌≢◌, ◌⊎◌, Option, some, arith}
use ai_optimized_kernel_and.Bpf.Maps.{Maps}
use ai_optimized_kernel_and.Types.TaskClass
use ai_optimized_kernel_and.Types.Device
use ai_optimized_kernel_and.Types.Energy
use ai_optimized_kernel_and.AiSched.Dsq
use ai_optimized_kernel_and.AiSched.Task.{Task, memory_mb_of}
use ai_optimized_kernel_and.AiSched.Policy.{
  get_time_slice_ns, classify_task_fallback, dsq_of_decision, select_dsq,
}

dsq_of_decision-lt : (energy c device : ℕ) → dsq_of_decision energy c device < 5
unfolding dsq_of_decision
dsq_of_decision-lt energy c device = ground arith

pub select_dsq-lt : (bpf : Maps) (m : bpf.Array ℕ) (c device : ℕ) → select_dsq bpf m c device < 5
unfolding select_dsq
select_dsq-lt bpf m c device = dsq_of_decision-lt _ c device

-- The GPU queue is chosen exactly when the decision names the GPU, and the NPU queue exactly when it
-- names the NPU: no class and no energy mode leads to an accelerator.
accelerator_iff :
    (bpf : Maps) (m : bpf.Array ℕ) (c device : ℕ)
    → ((select_dsq bpf m c device ≡ Dsq.gpu) ↔ (device ≡ Device.gpu))
      × ((select_dsq bpf m c device ≡ Dsq.npu) ↔ (device ≡ Device.npu))
unfolding select_dsq dsq_of_decision
accelerator_iff bpf m c device = ground arith

-- Saving energy moves batch work alone: between two energy modes the queue of a task without a
-- device preference differs only if its class is BATCH_AI and one of the two modes saves energy.
energy_moves_batch :
    (e e' c : ℕ)
    → dsq_of_decision e c Device.auto ≢ dsq_of_decision e' c Device.auto
    → (c ≡ TaskClass.batch_ai)
      × (((e ≡ Energy.efficient) ⊎ (e ≡ Energy.power_saver))
          ⊎ ((e' ≡ Energy.efficient) ⊎ (e' ≡ Energy.power_saver)))
unfolding dsq_of_decision
energy_moves_batch e e' c h = ground arith

-- With an array map of five entries the lookup of get_time_slice_ns never fails, so the slice is
-- always the configured entry and the default slices of its switch are never returned.
time_slice_is_configured :
    (bpf : Maps) (m : bpf.Array ℕ) (c : ℕ)
    → bpf.max_entries m ≡ 5
    → bpf.array_lookup m (c % 5) ≡ some (get_time_slice_ns bpf m c)
unfolding get_time_slice_ns
time_slice_is_configured bpf m c h =
    let (v, e) = bpf.array_present m (c % 5) (omega arith) in ground (arith, e)

pub slice_of_class :
    (bpf : Maps) (m : bpf.Array ℕ) (c slice : ℕ)
    → c < 5
    → bpf.array_lookup m c ≡ some slice
    → get_time_slice_ns bpf m c ≡ slice
unfolding get_time_slice_ns
slice_of_class bpf m c slice h e = let k : c % 5 ≡ c = omega arith in rw (get_time_slice_ns, k, e)

pub classify_task_fallback-lt : (p : Task) → classify_task_fallback p < 5
unfolding classify_task_fallback
classify_task_fallback-lt p = ground arith

-- More memory never moves a task to a later class of the enumeration.
classify_mono :
    (p : Task) (mm : Option ℕ)
    → memory_mb_of p.mm ≤ memory_mb_of mm
    → classify_task_fallback (record p { mm = mm }) ≤ classify_task_fallback p
unfolding classify_task_fallback
classify_mono p mm h = ground arith
