-- ===== src/System.antt =====
-- The programs together: kernel/ai_sched.bpf.c, kernel/telemetry.bpf.c and daemon/aie_daemon.cpp, whose
-- steps alternate in any order. They meet in the map of decisions, which the daemon is to fill, and in
-- the ring buffer of the tracer (telemetry.bpf.o), which the daemon empties.
pub mod Independence
use ai_optimized_kernel_and.Prelude.{ℕ, List, [], ◌∷◌, length, drop, ◌&&◌, not, if◌then◌else◌}
use ai_optimized_kernel_and.Bpf.Maps.{Maps}
use ai_optimized_kernel_and.Bpf.Scx.{Scx}
use ai_optimized_kernel_and.Types.{Telemetry, Decision}
use ai_optimized_kernel_and.AiSched.Task.{Task}
use ai_optimized_kernel_and.AiSched.Hooks.{AiSched, Context, enqueue, dispatch}
use ai_optimized_kernel_and.Telemetry.{State}
use ai_optimized_kernel_and.Telemetry.Counters
use ai_optimized_kernel_and.Telemetry.Counters.{handle}
use ai_optimized_kernel_and.Ipc.Libbpf.{is_negative}
use ai_optimized_kernel_and.Onnx.{Runtime}
use ai_optimized_kernel_and.Daemon.{AieDaemon}
use ai_optimized_kernel_and.Daemon.Rounds.{Round, telemetry, decisions, round}

module _ (bpf : Maps) (scx : Scx Task) (rt : Runtime) where
  -- The maps of both kernel programs, and the daemon with the local variable of its telemetry worker.
  pub record Machine : Type 0 where
    pub sched : AiSched bpf scx
    pub tracer : State bpf
    pub daemon : Telemetry × AieDaemon rt

  -- A hook of the scheduler, a tracepoint, or a round of one of the daemon's workers.
  pub data Event : Type 0 where
    enqueues : Context → Task → ℕ → Event
    dispatches : Event
    traces : Counters.Event → Event
    rounds : Round → Event

  -- Decisions that reach the map of the scheduler.
  unfoldable pub deliver : List Decision → AiSched bpf scx → AiSched bpf scx
  deliver [] s = s
  deliver (d ∷ ds) s =
      deliver ds (record s { sched_decisions = bpf.hash_update s.sched_decisions d.pid d })

  -- read_sample in a round of the telemetry worker: where the reader is connected, ring_buffer__poll
  -- consumes as many records as it returns, or none where it fails.
  unfoldable pub polled : Round → AieDaemon rt → bpf.Ring Telemetry → bpf.Ring Telemetry
  polled (telemetry clock poll) d r =
      if d.telemetry_reader.ringbuf_ctx && not (is_negative poll)
      then bpf.ringbuf_consume r poll
      else r
  polled decisions d r = r

  unfoldable pub step : Event → Machine → Machine
  unfolding deliver polled
  step (enqueues cx p flags) m = record m { sched = enqueue bpf scx cx p flags m.sched }
  step dispatches m = record m { sched = dispatch bpf scx m.sched }
  step (traces e) m = record m { tracer = handle bpf e m.tracer }
  step (rounds r) m =
      let d = round rt r m.daemon in
      record m {
        daemon = d;
        tracer = record m.tracer {
          telemetry_ringbuf = polled r m.daemon.1 m.tracer.telemetry_ringbuf;
        };
        sched = deliver (drop (length m.daemon.1.written) d.1.written) m.sched;
      }

  unfoldable pub run : List Event → Machine → Machine
  run [] m = m
  run (e ∷ es) m = run es (step e m)
