-- ===== src/AiSched/Cores/Counters.antt =====
-- The counters of the statistics of kernel/ai_sched.bpf.c, and what the CPUs have still to add to them.
use ai_optimized_kernel_and.Prelude.{
  ℕ, ◌+◌, ◌<◌, ◌≤◌, ◌≡◌, arith, refl, List, suc, u64_mod, ◌==◌, ltb, if◌then◌else◌,
}
use ai_optimized_kernel_and.Bpf.Maps.{Maps}
use ai_optimized_kernel_and.Bpf.Smp.{Smp}
use ai_optimized_kernel_and.Types.{Stats}
use ai_optimized_kernel_and.Types.TaskClass
use ai_optimized_kernel_and.AiSched.Dsq
use ai_optimized_kernel_and.AiSched.Task.{Task}
use ai_optimized_kernel_and.AiSched.Policy.{select_dsq}
use ai_optimized_kernel_and.AiSched.Cores.{
  Pc, choosing, emitting, routing, counting, crediting, count_enqueued, count_routed, Cores, Run,
  here, enters, asks, advances, writes,
}

-- The three routes that are counted.
pub data Route : Type 0 where
  cpu npu eff : Route

abbrev pub counter : Route → Stats → ℕ
counter cpu s = s.tasks_ai_routed_cpu
counter npu s = s.tasks_ai_routed_npu
counter eff s = s.tasks_bg_routed_eff

-- Whether a task of the class `c` in the queue `d` is on the route: an AI task in the performance queue,
-- any task in the NPU's, any task in the efficiency queue.
abbrev pub on_route : Route → ℕ → ℕ → ℕ
on_route cpu c d = if d == Dsq.perf then (if ltb c TaskClass.background then 1 else 0) else 0
on_route npu c d = if d == Dsq.npu then 1 else 0
on_route eff c d = if d == Dsq.eff then 1 else 0

-- Whether the CPU has a task on the route that it has not credited to it yet.
abbrev pub owed : Route → Pc → ℕ
owed k (counting p flags ch d) = on_route k ch.task_class d
owed k (crediting p flags ch d) = on_route k ch.task_class d
owed k _ = 0

-- How many tasks select_dsq sends on the route in the step of a CPU that is there, and in a run.
module _ (bpf : Maps) (smp : Smp Task) where
  abbrev pub sent_from : Route → Cores bpf smp → Pc → ℕ
  sent_from k t (routing p flags ch) =
      on_route k ch.task_class
        (select_dsq bpf t.shared.energy_mode ch.task_class ch.preferred_device)
  sent_from k t _ = 0

  abbrev pub sent :
      {cpus : List ℕ} {s t : Cores bpf smp} {ts : List Task} → Route → Run bpf smp cpus s ts t → ℕ
  sent k here = 0
  sent k (enters c cx p flags r once e) = sent k r
  sent k (asks c r once e) = sent k r
  sent k (advances {t = t} c r once) = sent_from k t (t.pcs c) + sent k r
  sent k (writes d m slices r) = sent k r

-- Whether the CPU has a task that it has not counted yet, and one that it has not credited to a route yet.
abbrev pub uncounted : Pc → ℕ
uncounted (choosing cx p flags) = 1
uncounted (emitting cx p flags ch) = 1
uncounted (routing p flags ch) = 1
uncounted (counting p flags ch d) = 1
uncounted _ = 0

abbrev pub uncredited : Pc → ℕ
uncredited (crediting p flags ch d) = 1
uncredited _ = 0

-- What has been counted when `n` tasks have been taken up, and `a` of them are not counted yet and `b`
-- not credited yet.
pub record CountedBut (n a b : ℕ) (s : Stats) : Type 0 where
  pub enqueued : s.tasks_enqueued + a ≡ n
  pub routed :
      s.tasks_ai_routed_cpu + s.tasks_ai_routed_npu + s.tasks_bg_routed_eff + b ≤ s.tasks_enqueued
  pub dispatched : s.tasks_dispatched ≡ 0
  pub latency : s.avg_enqueue_latency_us ≡ 0
  pub energy : s.total_energy_estimate_mj ≡ 0

pub count_enqueued-CountedBut :
    (n a b : ℕ) (s : Stats)
    → n < u64_mod
    → CountedBut n (suc a) b s
    → CountedBut n a (suc b) (count_enqueued s)
unfolding count_enqueued
count_enqueued-CountedBut n a b s lt h = ground arith

pub count_routed-CountedBut :
    (c dsq n a b : ℕ) (s : Stats)
    → n < u64_mod
    → CountedBut n a (suc b) s
    → CountedBut n a b (count_routed c dsq s)
unfolding count_routed
count_routed-CountedBut c dsq n a b s lt h = ground arith

pub counter-count_enqueued : (k : Route) (s : Stats) → counter k (count_enqueued s) ≡ counter k s
unfolding count_enqueued
counter-count_enqueued cpu s = refl
counter-count_enqueued npu s = refl
counter-count_enqueued eff s = refl

pub counter-count_routed :
    (k : Route) (c d n a b : ℕ) (s : Stats)
    → n < u64_mod
    → CountedBut n a (suc b) s
    → counter k (count_routed c d s) ≡ counter k s + on_route k c d
unfolding count_routed
counter-count_routed cpu c d n a b s lt h = ground arith
counter-count_routed npu c d n a b s lt h = ground arith
counter-count_routed eff c d n a b s lt h = ground arith
