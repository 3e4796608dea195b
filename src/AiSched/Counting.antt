-- ===== src/AiSched/Counting.antt =====
-- The statistics of kernel/ai_sched.bpf.c over a whole history of the scheduler.
use ai_optimized_kernel_and.Prelude.{
  ℕ, ◌+◌, ◌<◌, ◌≤◌, ◌≡◌, some, arith, List, [], ◌∷◌, suc, u64_mod,
}
use ai_optimized_kernel_and.Bpf.Maps.{Maps}
use ai_optimized_kernel_and.Bpf.Scx.{Scx}
use ai_optimized_kernel_and.Types.{Decision, Stats, empty_stats}
use ai_optimized_kernel_and.AiSched.Task.{Task}
use ai_optimized_kernel_and.AiSched.Policy.{select_dsq}
use ai_optimized_kernel_and.AiSched.Hooks.{
  AiSched, Context, choose, count_task, update_stats, init, enqueue, dispatch,
}

-- What has been counted after `n` enqueues.
pub record Counted (n : ℕ) (s : Stats) : Type 0 where
  pub enqueued : s.tasks_enqueued ≡ n
  pub routed :
      s.tasks_ai_routed_cpu + s.tasks_ai_routed_npu + s.tasks_bg_routed_eff ≤ s.tasks_enqueued
  pub dispatched : s.tasks_dispatched ≡ 0
  pub latency : s.avg_enqueue_latency_us ≡ 0
  pub energy : s.total_energy_estimate_mj ≡ 0

count_task-Counted :
    (c dsq n : ℕ) (s : Stats) → suc n < u64_mod → Counted n s → Counted (suc n) (count_task c dsq s)
unfolding count_task
count_task-Counted c dsq n s h k = ground arith

module _ (bpf : Maps) (scx : Scx Task) where
  -- A step of a history: a hook runs, or user space writes the maps that it may write.
  pub data Event : Type 0 where
    enqueues : Context → Task → ℕ → Event
    dispatches : Event
    writes : bpf.Hash Decision → bpf.Array ℕ → bpf.Array ℕ → Event

  unfoldable pub step : Event → AiSched bpf scx → AiSched bpf scx
  step (enqueues cx p flags) s = enqueue bpf scx cx p flags s
  step dispatches s = dispatch bpf scx s
  step (writes decisions mode slices) s = record s {
    sched_decisions = decisions;
    energy_mode = mode;
    time_slices = slices;
  }

  unfoldable pub run : List Event → AiSched bpf scx → AiSched bpf scx
  run [] s = s
  run (e ∷ es) s = run es (step e s)

  abbrev pub enqueue_count : List Event → ℕ
  enqueue_count [] = 0
  enqueue_count (enqueues cx p flags ∷ es) = suc (enqueue_count es)
  enqueue_count (dispatches ∷ es) = enqueue_count es
  enqueue_count (writes d m t ∷ es) = enqueue_count es

  -- The statistics entry exists and has counted `n` enqueues.
  pub record HasCounted (n : ℕ) (s : AiSched bpf scx) : Type 0 where
    pub size : 0 < bpf.max_entries s.sched_stats
    pub stats : Stats
    pub entry : bpf.array_lookup s.sched_stats 0 ≡ some stats
    pub counted : Counted n stats

  enqueue-HasCounted :
      (n : ℕ) (s : AiSched bpf scx)
      → HasCounted n s
      → (cx : Context) (p : Task) (flags : ℕ) → suc n < u64_mod
      → HasCounted (suc n) (enqueue bpf scx cx p flags s)
  unfolding enqueue update_stats
  enqueue-HasCounted n s h cx p flags lt =
      let ch = choose bpf s.sched_decisions s.time_slices p in
      let target = select_dsq bpf s.energy_mode ch.task_class ch.preferred_device in
      let e : update_stats bpf s.sched_stats ch.task_class target
          ≡ bpf.array_update s.sched_stats 0 (count_task ch.task_class target h.stats) =
        rw (update_stats, h.entry) in
      record {
        size =
            rw (e, bpf.array_update_size s.sched_stats 0 (count_task ch.task_class target h.stats))
              h.size;
        stats = count_task ch.task_class target h.stats;
        entry = rw e (bpf.array_update_self _ _ _ h.size);
        counted = count_task-Counted _ _ n h.stats lt h.counted;
      }

  dispatch-HasCounted :
      (n : ℕ) (s : AiSched bpf scx) → HasCounted n s → HasCounted n (dispatch bpf scx s)
  unfolding dispatch
  dispatch-HasCounted n s h = record {
    size = h.size;
    stats = h.stats;
    entry = h.entry;
    counted = h.counted;
  }

  pub run-HasCounted :
      (es : List Event) (n : ℕ) (s : AiSched bpf scx)
      → n + enqueue_count es < u64_mod
      → HasCounted n s
      → HasCounted (n + enqueue_count es) (run es s)
  unfolding run step
  run-HasCounted [] n s lt h = let e : n + 0 ≡ n = omega arith in rw e h
  run-HasCounted (enqueues cx p flags ∷ es) n s lt h =
      let e : n + suc (enqueue_count es) ≡ suc n + enqueue_count es = omega arith in
      rw e (
        run-HasCounted es (suc n) (enqueue bpf scx cx p flags s) (omega arith)
          (enqueue-HasCounted n s h cx p flags (omega arith)))
  run-HasCounted (dispatches ∷ es) n s lt h =
      run-HasCounted es n (dispatch bpf scx s) lt (dispatch-HasCounted n s h)
  run-HasCounted (writes d m t ∷ es) n s lt h =
      run-HasCounted es n (record s { sched_decisions = d; energy_mode = m; time_slices = t }) lt
        (record { size = h.size; stats = h.stats; entry = h.entry; counted = h.counted })

  pub init-HasCounted :
      (s : AiSched bpf scx) → 0 < bpf.max_entries s.sched_stats → HasCounted 0 (init bpf scx s)
  unfolding init
  init-HasCounted s h = record {
    size = rw bpf.array_update_size h;
    stats = empty_stats;
    entry = bpf.array_update_self _ _ _ h;
    counted = omega arith;
  }

  -- Where the statistics map has an entry: after ai_sched_init and any history of hooks and writes
  -- of user space, with fewer than 2 ^ 64 enqueues, the statistics count each enqueue once, the
  -- tasks counted as routed to the performance cores, the NPU and the efficiency cores are together
  -- at most the enqueued ones, and the counters of dispatched tasks, latency and energy are still
  -- 0, however many dispatches there were.
  pub stats_lem :
      (es : List Event) (s : AiSched bpf scx)
      → 0 < bpf.max_entries s.sched_stats
      → enqueue_count es < u64_mod
      → HasCounted (enqueue_count es) (run es (init bpf scx s))
  stats_lem es s h lt =
      let e : 0 + enqueue_count es ≡ enqueue_count es = omega arith in
      rw e at (run-HasCounted es 0 (init bpf scx s) (omega arith) (init-HasCounted s h))
