-- ===== src/Lib.antt =====
-- AIE-OS: a scheduler in the kernel, written with sched_ext, that routes tasks by what AI work they do;
-- a tracer in the kernel; a daemon in user space that classifies tasks and advises the scheduler; seven small
-- schedulers for comparison; and tools beside them.
--
-- The parts and their files
--
-- - Types: kernel/include/ai_sched.h, the codes and structures that kernel and daemon share.
-- - AiSched: kernel/ai_sched.bpf.c. Policy has get_energy_mode, get_time_slice_ns,
--   classify_task_fallback and select_dsq; Hooks has the maps as the record AiSched and the hooks
--   ai_sched_init, ai_sched_enqueue and ai_sched_dispatch as init, enqueue and dispatch, with
--   update_stats and emit_telemetry. Routing, Enqueue and Dispatch are about these, Counting, Conservation,
--   Draining and Starvation about whole histories of them; Abstract has the queues that the
--   scheduler refines. Cores has several CPUs that run the hooks at once, each at its own program
--   counter (Pc), one access to a shared map or queue a step; Cores.Conservation, Cores.Counting (with
--   the counters of routes in Cores.Counters), Cores.Settling, Cores.Serving and Cores.Provenance are
--   about all interleavings, Cores.Alone relates the steps to the hooks. Cores.Moves and Cores.Progress
--   have the steps of these proofs.
-- - Telemetry: kernel/telemetry.bpf.c, the handlers of four tracepoints on the map of accumulators;
--   Counters is about any sequence of them. Cores has them on several CPUs, in the manner of
--   AiSched.Cores; Cores.Kept and Cores.Exactness are about all interleavings, Cores.Races about one that
--   loses a call, Cores.Alone relates the steps to the handlers, by means of Cores.Agreement
--   and Cores.Steps.
-- - Minimal: minimal-scheduler-main/minimal-scheduler-main, one module for each *.bpf.c. Draw is the
--   loop of the two lotteries. Order, Drawing, Priority and VirtualTime are about them,
--   Conservation about histories of any of the seven, Heaviest and Earliest about whole histories of the
--   two with sorted queues, by means of Sorted.
-- - Classifier: ai/classifier.cpp. Heuristic is about the classes, Agreement about what the kernel
--   makes of a decision.
-- - Onnx: ai/onnx_classifier.cpp. Loading is about the life of a classifier, Argmax about its class.
-- - Backends: ai/backends, the device manager with its three backends.
-- - Config: common/config.cpp, on lists of byte codes. RoundTrip is about files as they are printed,
--   Layout about files with spaces and comments.
-- - Ipc: daemon/ipc/ipc_interface.cpp, a module for each of its classes: Reader (TelemetryReader),
--   Writer (DecisionWriter), Settings (SchedulerConfig) and Monitor (StatsMonitor).
-- - Daemon: daemon/aie_daemon.cpp, class AieDaemon. Startup, Batches and Rounds are about its methods;
--   Handover is about the decisions that its two threads share; Lifecycle has init, run, the two
--   workers and the signal handler as threads, each step of their control flow a step of the model;
--   Reports is about what the main loop prints.
-- - Top: tools/cli/aie_top.cpp, the monitor; Dashboard is about what it shows of the scheduler.
-- - Workload: tools/workloads/matrix_compute.cpp, rounds of matrix products. Product is about matmul,
--   whose iterations OpenMP runs in any order, Demo about the whole program.
-- - System: the scheduler, the tracer and the daemon together, their steps in any order. A poll of the
--   daemon takes records from the tracer's ring buffer.
-- - Prelude has what all of these share, Tests the instances and concrete runs.
--
-- How they interact
--
-- The scheduler emits a sample for each enqueue; the tracer emits one for each fork. The daemon is to
-- read samples from a ring buffer, to classify them ten at a time with one of the two classifiers, to
-- hand each decision to a backend, and to write the decisions to a map. The scheduler looks the task's
-- decision up there, and falls back to a heuristic of its own. Agreement, Rounds and System
-- are about this path.
--
-- How the code is modelled
--
-- Numbers are natural numbers. An operation on a w-bit integer that can wrap is written with its
-- remainder (add64, sub32 and others of Prelude.Words); a signed integer is its bit pattern. State is
-- passed explicitly. A pointer that may be NULL is an Option.
--
-- Code outside the repository is a parameter. Bpf.Maps has the BPF maps and ring buffers, with the laws
-- that their documentation gives: an index in range of an array map is always present; an insertion in a
-- hash map succeeds or changes nothing; a ring buffer hands out memory of unknown content or none.
-- Bpf.Scx has the dispatch queues of sched_ext as one CPU observes them, where at_head says of the flags
-- of an insertion whether it is at the head of the queue (SCX_ENQ_HEAD, SCX_ENQ_PREEMPT) or at its end;
-- Bpf.Smp has what several CPUs do with the queues, each operation atomic. Bpf.Elements has the elements of a hash map, to which a CPU may hold a
-- pointer when another replaces or deletes them. Onnx.Runtime has ONNX Runtime
-- and floating point, Workload.Floats the floating point of the matrices, Ipc.Libbpf the answers of
-- libbpf, Backends.Host the device files. The C library's atoi and rand are parameters of the programs.
-- Tests.Instances shows that the laws of Maps, Scx and Smp can hold together, Tests.Elements those of
-- Elements.
--
-- Loops are structural recursions, over a list or down from the number of rounds that are left; there is
-- no fuel. A loop that runs until a signal comes is a list of its rounds, or a family of steps.
--
-- What is not modelled
--
-- In AiSched.Cores the choice of class and time slice, which reads two maps that no hook writes, is
-- one step. Elsewhere each hook and each method runs without interruption: races between CPUs within
-- the small schedulers are outside the model, and so are those between the threads of the daemon,
-- but for the handover of decisions and for the flag that ends the threads. The handover takes each
-- append, each test, the call with its arguments and each clear as atomic; in C++ the vector is not
-- synchronised, so these interleavings are some of what can happen and not all. The log lines, the
-- frames drawn around the rows of the monitor, its table of classes, which never changes, and
-- the two Python scripts of tools/workloads, which call libraries for inference, are left out.
-- Negative sizes and the overflow of `int` in matrix_compute are, too: C++ leaves the overflow
-- undefined. The files under kernel/scx and onnxruntime-linux-x64-1.17.1 are copies of other
-- projects. The scripts of packaging and tools are not programs of the kernel or the daemon.
pub mod Prelude
pub mod Bpf
pub mod Types
pub mod AiSched
pub mod Minimal
pub mod Classifier
pub mod Onnx
pub mod Config
pub mod Backends
pub mod Ipc
pub mod Daemon
pub mod Top
pub mod Workload
pub mod System
pub mod Tests
pub mod Telemetry
