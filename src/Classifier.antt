-- ===== src/Classifier.antt =====
-- ai/classifier.cpp: the heuristic classifier of the daemon. A NULL argument is `none`.
pub mod Heuristic
pub mod Agreement
use ai_optimized_kernel_and.Prelude.{
  ℕ, ◌/◌, ◌%◌, ◌||◌, ◌&&◌, Option, none, some, ◌==◌, leb, if◌then◌else◌, u32_mod, add64, mul64,
}
use ai_optimized_kernel_and.Types.{Telemetry, Decision, zero_decision}
use ai_optimized_kernel_and.Types.TaskClass
use ai_optimized_kernel_and.Types.Device

-- Classifier::init
unfoldable pub init : ℕ
init = 0

-- What clock_gettime(CLOCK_MONOTONIC) fills in.
pub record Timespec : Type 0 where
  pub tv_sec : ℕ
  pub tv_nsec : ℕ

-- `(__u64)ts.tv_sec * 1000000000ULL + ts.tv_nsec`
abbrev pub nanoseconds : Timespec → ℕ
nanoseconds ts = add64 (mul64 ts.tv_sec 1000000000) ts.tv_nsec

-- -10 as the unsigned nice_value is compared with it
abbrev pub minus_ten : ℕ
minus_ten = 0xFFFFFFF6

-- classify_heuristic
unfoldable pub classify_heuristic : Option Telemetry → ℕ
classify_heuristic none = TaskClass.background
classify_heuristic (some t) =
    if t.sched_class == 5 || t.sched_class == 0
    then TaskClass.background
    else if leb t.nice_value minus_ten && leb 40 t.cpu_util_recent
    then TaskClass.realtime_ai
    else if leb 100 t.memory_rss_mb || leb 2 t.num_threads
    then TaskClass.batch_ai
    else if leb 20 t.cpu_util_recent
    then TaskClass.interactive_ai
    else TaskClass.background

-- select_device, which does not read the telemetry
unfoldable pub select_device : ℕ → ℕ
select_device c =
    if c == TaskClass.realtime_ai
    then Device.perf_core
    else if c == TaskClass.interactive_ai
    then Device.auto
    else if c == TaskClass.batch_ai
    then Device.auto
    else if c == TaskClass.background
    then Device.eff_core
    else Device.auto

-- estimate_time_slice, in nanoseconds; it does not read the telemetry
unfoldable pub estimate_time_slice : ℕ → ℕ
estimate_time_slice c =
    if c == TaskClass.realtime_ai
    then 1000000
    else if c == TaskClass.interactive_ai
    then 2000000
    else if c == TaskClass.batch_ai
    then 20000000
    else if c == TaskClass.background
    then 50000000
    else 5000000

-- The fields of a decision for a class, which both classifiers fill in alike.
unfoldable pub decision_for : Timespec → Telemetry → ℕ → Decision
decision_for now t c = record zero_decision {
  pid = t.pid;
  ts_decision = nanoseconds now;
  task_class = c;
  preferred_device = select_device c;
  time_slice_us = estimate_time_slice c / 1000 % u32_mod;
  cpu_affinity_mask = 0;
  priority_boost = 0;
}

-- classify: `none` for the error -1, or the decision that is written. The second argument is the
-- decision's memory.
unfoldable pub classify : Timespec → Option Telemetry → Option Decision → Option Decision
classify now none d = none
classify now (some t) none = none
classify now (some t) (some d) = some (decision_for now t (classify_heuristic (some t)))
