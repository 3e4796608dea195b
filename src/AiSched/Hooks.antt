-- ===== src/AiSched/Hooks.antt =====
-- kernel/ai_sched.bpf.c: the maps of the scheduler as one state, and the hooks that change it. Each
-- hook returns 0 always, so only the state is returned here.
use ai_optimized_kernel_and.Prelude.{
  ℕ, ◌/◌, ◌%◌, ◌^◌, ◌&&◌, none, some, ◌==◌, ltb, if◌then◌else◌, add64, sub32, mul64, u32_mod,
}
use ai_optimized_kernel_and.Bpf.Maps.{Maps}
use ai_optimized_kernel_and.Bpf.Scx.{Scx}
use ai_optimized_kernel_and.Types.{Telemetry, Decision, Stats, empty_stats}
use ai_optimized_kernel_and.Types.TaskClass
use ai_optimized_kernel_and.Types.Device
use ai_optimized_kernel_and.Types.Energy
use ai_optimized_kernel_and.AiSched.Dsq
use ai_optimized_kernel_and.AiSched.Task.{Task, memory_mb_of, num_threads_of}
use ai_optimized_kernel_and.AiSched.Policy.{get_time_slice_ns, classify_task_fallback, select_dsq}

-- What a hook reads of its surroundings: bpf_get_current_pid_tgid, bpf_get_current_uid_gid and
-- bpf_ktime_get_ns.
pub record Context : Type 0 where
  pub pid_tgid : ℕ
  pub uid_gid : ℕ
  pub ktime_ns : ℕ

-- What ai_sched_enqueue settles before it acts.
pub record Choice : Type 0 where
  pub task_class : ℕ
  pub preferred_device : ℕ
  pub time_slice_ns : ℕ

-- The two branches of update_stats on a present entry.
unfoldable pub count_task : ℕ → ℕ → Stats → Stats
count_task c dsq s =
    let t = record s { tasks_enqueued = add64 s.tasks_enqueued 1 } in
    if dsq == Dsq.perf && ltb c TaskClass.background
    then record t { tasks_ai_routed_cpu = add64 s.tasks_ai_routed_cpu 1 }
    else if dsq == Dsq.npu
    then record t { tasks_ai_routed_npu = add64 s.tasks_ai_routed_npu 1 }
    else if dsq == Dsq.eff
    then record t { tasks_bg_routed_eff = add64 s.tasks_bg_routed_eff 1 }
    else t

-- The fields that emit_telemetry writes; it writes all.
unfoldable pub sample_of : Context → Task → Telemetry
sample_of cx p = record {
  pid = cx.pid_tgid / 2 ^ 32;
  uid = cx.uid_gid % u32_mod;
  ts_enqueue = cx.ktime_ns;
  cpu_util_recent = p.util_avg / 4 % u32_mod;
  memory_rss_mb = memory_mb_of p.mm;
  syscall_count = 0;
  io_read_bytes = 0;
  io_write_bytes = 0;
  num_threads = num_threads_of p.signal;
  nice_value = sub32 p.static_prio 120;
  sched_class = p.policy;
  comm = p.comm;
}

module _ (bpf : Maps) where
  open bpf use {
    Array, array_lookup, array_update, Hash, hash_lookup, Ring, ringbuf_reserve, ringbuf_submit,
  }

  -- update_stats
  unfoldable pub update_stats : Array Stats → ℕ → ℕ → Array Stats
  update_stats m c dsq = elim (array_lookup m 0) [
    | none ↦ m
    | some s ↦ array_update m 0 (count_task c dsq s)
  ]

  -- emit_telemetry: a full ring buffer drops the sample.
  unfoldable pub emit_telemetry : Context → Task → Ring Telemetry → Ring Telemetry
  emit_telemetry cx p r = elim (ringbuf_reserve r) [
    | none ↦ r
    | some (stale, r') ↦ ringbuf_submit r' (sample_of cx p)
  ]

  -- The first step of ai_sched_enqueue: the daemon's decision, or the heuristic.
  unfoldable pub choose : Hash Decision → Array ℕ → Task → Choice
  choose decisions slices p = elim (hash_lookup decisions p.tgid) [
    | some d ↦ record {
      task_class = d.task_class;
      preferred_device = d.preferred_device;
      time_slice_ns = mul64 d.time_slice_us 1000;
    }
    | none ↦ record {
      task_class = classify_task_fallback p;
      preferred_device = Device.auto;
      time_slice_ns = get_time_slice_ns bpf slices (classify_task_fallback p);
    }
  ]

module _ (scx : Scx Task) where
  open scx use {State, dsq_move_to_local}

  -- `if (scx_bpf_dsq_move_to_local(dsq)) return 0;`, then the rest
  unfoldable pub try_dsq : ℕ → (State → State) → State → State
  try_dsq d rest s = let (moved, s') = dsq_move_to_local s d in if moved then s' else rest s'

module _ (bpf : Maps) (scx : Scx Task) where
  open bpf use {Array, array_update, Hash, Ring}
  open scx use {State, create_dsq, dsq_insert}

  pub record AiSched : Type 0 where
    pub telemetry_ringbuf : Ring Telemetry
    pub sched_decisions : Hash Decision
    pub energy_mode : Array ℕ
    pub time_slices : Array ℕ
    pub sched_stats : Array Stats
    pub dsqs : State

  -- ai_sched_init
  unfoldable pub init : AiSched → AiSched
  init s = record s {
    dsqs =
        let a = create_dsq s.dsqs Dsq.perf in
        let b = create_dsq a Dsq.eff in
        let c = create_dsq b Dsq.gpu in let d = create_dsq c Dsq.npu in create_dsq d Dsq.fallback;
    energy_mode = array_update s.energy_mode 0 Energy.balanced;
    sched_stats = array_update s.sched_stats 0 empty_stats;
  }

  -- ai_sched_enqueue
  unfoldable pub enqueue : Context → Task → ℕ → AiSched → AiSched
  enqueue cx p enq_flags s =
      let ch = choose bpf s.sched_decisions s.time_slices p in
      let target = select_dsq bpf s.energy_mode ch.task_class ch.preferred_device in
      record s {
        telemetry_ringbuf = emit_telemetry bpf cx p s.telemetry_ringbuf;
        sched_stats = update_stats bpf s.sched_stats ch.task_class target;
        dsqs =
            dsq_insert s.dsqs (record { task = p; slice = ch.time_slice_ns; vtime = 0 }) target
              enq_flags;
      }

  -- ai_sched_dispatch
  unfoldable pub dispatch : AiSched → AiSched
  unfolding try_dsq
  dispatch s = record s {
    dsqs =
        try_dsq scx Dsq.perf
          (try_dsq scx Dsq.eff
            (try_dsq scx Dsq.gpu (try_dsq scx Dsq.npu (try_dsq scx Dsq.fallback (λ t. t)))))
          s.dsqs;
  }
