-- ===== src/AiSched/Cores.antt =====
-- kernel/ai_sched.bpf.c on several CPUs at once: each CPU runs its own hook, and the hooks interleave at
-- every access to a map or to a queue; the choice of class and time slice is one step.
pub mod Alone
pub mod Conservation
pub mod Counters
pub mod Counting
pub mod Moves
pub mod Progress
pub mod Provenance
pub mod Serving
pub mod Settling
use ai_optimized_kernel_and.Prelude.{
  ℕ, ◌≡◌, ◌&&◌, none, some, List, [], ◌∷◌, ◌==◌, ltb, if◌then◌else◌, add64, update, Once,
}
use ai_optimized_kernel_and.Bpf.Maps.{Maps}
use ai_optimized_kernel_and.Bpf.Scx.{Entry}
use ai_optimized_kernel_and.Bpf.Smp.{Smp}
use ai_optimized_kernel_and.Types.{Decision, Stats}
use ai_optimized_kernel_and.Types.TaskClass
use ai_optimized_kernel_and.AiSched.Dsq
use ai_optimized_kernel_and.AiSched.Task.{Task}
use ai_optimized_kernel_and.AiSched.Policy.{select_dsq}
use ai_optimized_kernel_and.AiSched.Hooks.{AiSched, Context, Choice, choose, emit_telemetry}
use ai_optimized_kernel_and.AiSched.Dispatch.{order}

-- Where a CPU is: in no hook; in ai_sched_enqueue, with the values of its local variables, before the
-- choice, the telemetry, select_dsq, the first and the second addition of update_stats, and the
-- insertion; or in ai_sched_dispatch, with the queues that it has not tried yet.
pub data Pc : Type 0 where
  idle : Pc
  choosing : Context → Task → ℕ → Pc
  emitting : Context → Task → ℕ → Choice → Pc
  routing : Task → ℕ → Choice → Pc
  counting : Task → ℕ → Choice → ℕ → Pc
  crediting : Task → ℕ → Choice → ℕ → Pc
  inserting : Task → ℕ → Choice → ℕ → Pc
  asking : List ℕ → Pc

-- The two atomic additions of update_stats.
unfoldable pub count_enqueued : Stats → Stats
count_enqueued s = record s { tasks_enqueued = add64 s.tasks_enqueued 1 }

unfoldable pub count_routed : ℕ → ℕ → Stats → Stats
count_routed c dsq s =
    if dsq == Dsq.perf && ltb c TaskClass.background
    then record s { tasks_ai_routed_cpu = add64 s.tasks_ai_routed_cpu 1 }
    else if dsq == Dsq.npu
    then record s { tasks_ai_routed_npu = add64 s.tasks_ai_routed_npu 1 }
    else if dsq == Dsq.eff
    then record s { tasks_bg_routed_eff = add64 s.tasks_bg_routed_eff 1 }
    else s

-- A change through the pointer to the entry of sched_stats, if there is one.
unfoldable pub change_stats : (bpf : Maps) → (Stats → Stats) → bpf.Array Stats → bpf.Array Stats
change_stats bpf f m = elim (bpf.array_lookup m 0) [
  | none ↦ m
  | some s ↦ bpf.array_update m 0 (f s)
]

module _ (bpf : Maps) (smp : Smp Task) where
  -- The maps and queues, which all CPUs share, and where each CPU is.
  pub record Cores : Type 0 where
    pub shared : AiSched bpf smp.scx
    pub pcs : ℕ → Pc

  -- The next step of a CPU that is there.
  unfoldable pub advance_from : Pc → ℕ → Cores → Cores
  unfolding count_enqueued count_routed change_stats
  advance_from idle c t = t
  advance_from (choosing cx p flags) c t =
      let s = t.shared in
      let ch = choose bpf s.sched_decisions s.time_slices p in
      record t { pcs = update t.pcs c (emitting cx p flags ch) }
  advance_from (emitting cx p flags ch) c t =
      let s = t.shared in
      record {
        shared = record s { telemetry_ringbuf = emit_telemetry bpf cx p s.telemetry_ringbuf };
        pcs = update t.pcs c (routing p flags ch);
      }
  advance_from (routing p flags ch) c t =
      let d = select_dsq bpf t.shared.energy_mode ch.task_class ch.preferred_device in
      record t { pcs = update t.pcs c (counting p flags ch d) }
  advance_from (counting p flags ch d) c t =
      let s = t.shared in
      record {
        shared = record s { sched_stats = change_stats bpf count_enqueued s.sched_stats };
        pcs = update t.pcs c (crediting p flags ch d);
      }
  advance_from (crediting p flags ch d) c t =
      let s = t.shared in
      record {
        shared = record s {
          sched_stats = change_stats bpf (count_routed ch.task_class d) s.sched_stats;
        };
        pcs = update t.pcs c (inserting p flags ch d);
      }
  advance_from (inserting p flags ch d) c t =
      let s = t.shared in
      let e : Entry Task = record { task = p; slice = ch.time_slice_ns; vtime = 0 } in
      record {
        shared = record s { dsqs = smp.scx.dsq_insert s.dsqs e d flags };
        pcs = update t.pcs c idle;
      }
  advance_from (asking []) c t = record t { pcs = update t.pcs c idle }
  advance_from (asking (d ∷ ds)) c t =
      let s = t.shared in
      let (moved, q) = smp.move_on s.dsqs c d in
      record {
        shared = record s { dsqs = q };
        pcs = update t.pcs c (if moved then idle else asking ds);
      }

  unfoldable pub advance : ℕ → Cores → Cores
  unfolding advance_from
  advance c t = advance_from (t.pcs c) c t

  -- The kernel calls a hook on a CPU.
  abbrev pub enter : ℕ → Context → Task → ℕ → Cores → Cores
  enter c cx p flags t = record t { pcs = update t.pcs c (choosing cx p flags) }

  abbrev pub ask : ℕ → Cores → Cores
  ask c t = record t { pcs = update t.pcs c (asking order) }

  -- The interleavings of some CPUs with each other and with writes of user space, with the tasks that
  -- were enqueued, the last first.
  pub data Run (cpus : List ℕ) (s : Cores) : List Task → Cores → Type 0 where
    here : Run cpus s [] s
    enters :
        {ts : List Task} {t : Cores} (c : ℕ) (cx : Context) (p : Task) (flags : ℕ)
        → Run cpus s ts t
        → Once c cpus
        → t.pcs c ≡ idle
        → Run cpus s (p ∷ ts) (enter c cx p flags t)
    asks :
        {ts : List Task} {t : Cores} (c : ℕ)
        → Run cpus s ts t
        → Once c cpus
        → t.pcs c ≡ idle
        → Run cpus s ts (ask c t)
    advances :
        {ts : List Task} {t : Cores} (c : ℕ)
        → Run cpus s ts t
        → Once c cpus
        → Run cpus s ts (advance c t)
    writes :
        {ts : List Task} {t : Cores} (decisions : bpf.Hash Decision) (mode slices : bpf.Array ℕ)
        → Run cpus s ts t
        → Run cpus s ts (record t {
          shared = record t.shared {
            sched_decisions = decisions;
            energy_mode = mode;
            time_slices = slices;
          };
        })
