-- ===== src/AiSched/Policy.antt =====
-- kernel/ai_sched.bpf.c, the helper functions that decide class, time slice and queue.
use ai_optimized_kernel_and.Prelude.{
  ℕ, ◌%◌, ◌&&◌, ◌||◌, not, none, some, ◌==◌, ltb, slt32, if◌then◌else◌, bit_and,
}
use ai_optimized_kernel_and.Bpf.Maps.{Maps}
use ai_optimized_kernel_and.Types.TaskClass
use ai_optimized_kernel_and.Types.Device
use ai_optimized_kernel_and.Types.Energy
use ai_optimized_kernel_and.AiSched.Dsq
use ai_optimized_kernel_and.AiSched.Task.{Task, memory_mb_of, num_threads_of}

-- The switch of get_time_slice_ns.
unfoldable pub default_slice_ns : ℕ → ℕ
default_slice_ns c =
    if c == TaskClass.realtime_ai
    then 1000000
    else if c == TaskClass.interactive_ai
    then 2000000
    else if c == TaskClass.batch_ai
    then 10000000
    else if c == TaskClass.background
    then 20000000
    else 5000000

module _ (bpf : Maps) where
  open bpf use {Array, array_lookup}

  -- get_energy_mode
  unfoldable pub get_energy_mode : Array ℕ → ℕ
  get_energy_mode m = elim (array_lookup m 0) [ none ↦ Energy.balanced | some mode ↦ mode ]

  -- get_time_slice_ns
  unfoldable pub get_time_slice_ns : Array ℕ → ℕ → ℕ
  get_time_slice_ns m c = elim (array_lookup m (c % 5)) [
    | none ↦ default_slice_ns c
    | some slice ↦ slice
  ]

-- classify_task_fallback
unfoldable pub classify_task_fallback : Task → ℕ
classify_task_fallback p =
    let num_threads = num_threads_of p.signal in
    let memory_mb = memory_mb_of p.mm in
    if not (bit_and p.flags 0x00200002 == 0)
    then TaskClass.background
    else if p.state == 0 && slt32 p.prio 100
    then TaskClass.realtime_ai
    else if ltb 4 num_threads && ltb 50 memory_mb
    then TaskClass.batch_ai
    else if ltb 200 memory_mb
    then TaskClass.interactive_ai
    else if slt32 130 p.prio
    then TaskClass.background
    else TaskClass.unknown

-- The second switch of select_dsq: the choice by class and energy mode.
unfoldable pub dsq_of_class : ℕ → ℕ → ℕ
dsq_of_class energy c =
    if c == TaskClass.realtime_ai
    then Dsq.perf
    else if c == TaskClass.interactive_ai
    then Dsq.perf
    else if c == TaskClass.batch_ai
    then (if energy == Energy.efficient || energy == Energy.power_saver then Dsq.eff else Dsq.perf)
    else if c == TaskClass.background
    then Dsq.eff
    else Dsq.fallback

-- select_dsq, with the energy mode that get_energy_mode returned
unfoldable pub dsq_of_decision : ℕ → ℕ → ℕ → ℕ
unfolding dsq_of_class
dsq_of_decision energy c device =
    if device == Device.auto
    then dsq_of_class energy c
    else if device == Device.perf_core
    then Dsq.perf
    else if device == Device.eff_core
    then Dsq.eff
    else if device == Device.gpu
    then Dsq.gpu
    else if device == Device.npu
    then Dsq.npu
    else dsq_of_class energy c

-- select_dsq
unfoldable pub select_dsq : (bpf : Maps) → bpf.Array ℕ → ℕ → ℕ → ℕ
select_dsq bpf m c device = dsq_of_decision (get_energy_mode bpf m) c device
