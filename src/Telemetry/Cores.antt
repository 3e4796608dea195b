-- ===== src/Telemetry/Cores.antt =====
-- kernel/telemetry.bpf.c on several CPUs at once: the handlers interleave at every access to a map or to
-- the ring buffer.
pub mod Agreement
pub mod Alone
pub mod Exactness
pub mod Kept
pub mod Races
pub mod Steps
use ai_optimized_kernel_and.Prelude.{ℕ, ◌≡◌, Option, none, some, List, [], ◌∷◌, update, Once}
use ai_optimized_kernel_and.Bpf.Maps.{Maps}
use ai_optimized_kernel_and.Bpf.Elements.{Elements}
use ai_optimized_kernel_and.Types.{Telemetry}
use ai_optimized_kernel_and.Telemetry.{
  Accum, zero_accum, count_syscall, fork_event, current_pid, State,
}
use ai_optimized_kernel_and.Telemetry.Counters.{
  Event, sys_enter, block_rq_issue, sched_fork, sched_exit,
}

-- The two handlers that find or create a record.
pub data Handler : Type 0 where
  counts_call only_finds : Handler

module _ (bpf : Maps) (elements : Elements bpf Accum) where
  open elements use {Ptr, element, change}

  -- Where a CPU is: in no handler; in handle_sys_enter or handle_block_rq_issue, before the first lookup,
  -- the insertion, the second lookup or the addition; in handle_sched_fork, before the initialization, the
  -- reservation or the submission; or in handle_sched_exit.
  pub data Pc : Type 0 where
    idle : Pc
    looking : Handler → ℕ → Pc
    inserting : Handler → ℕ → Pc
    looking_again : Handler → ℕ → Pc
    adding : ℕ → Ptr → Pc
    initializing : ℕ → Pc
    reserving : ℕ → Pc
    submitting : ℕ → Telemetry → Pc
    removing : ℕ → Pc

  -- The ring buffer and the accumulators, which all CPUs share, and where each CPU is.
  pub record Cores : Type 0 where
    pub shared : State bpf
    pub pcs : ℕ → Pc

  -- `if (!accum)`: where a handler goes on after a lookup.
  unfoldable pub after_lookup : Handler → ℕ → Option Ptr → Pc → Pc
  after_lookup h pid none missing = missing
  after_lookup counts_call pid (some p) missing = adding pid p
  after_lookup only_finds pid (some p) missing = idle

  -- The next step of a CPU that is there.
  unfoldable pub advance_from : Pc → ℕ → Cores → Cores
  advance_from idle c t = t
  advance_from (looking h pid) c t =
      let found = element t.shared.task_accumulators pid in
      record t { pcs = update t.pcs c (after_lookup h pid found (inserting h pid)) }
  advance_from (inserting h pid) c t =
      let m = bpf.hash_update t.shared.task_accumulators pid zero_accum in
      record {
        shared = record t.shared { task_accumulators = m };
        pcs = update t.pcs c (looking_again h pid);
      }
  advance_from (looking_again h pid) c t =
      let found = element t.shared.task_accumulators pid in
      record t { pcs = update t.pcs c (after_lookup h pid found idle) }
  advance_from (adding pid p) c t =
      let m = change t.shared.task_accumulators p count_syscall in
      record { shared = record t.shared { task_accumulators = m }; pcs = update t.pcs c idle }
  advance_from (initializing child) c t =
      let m = bpf.hash_update t.shared.task_accumulators child zero_accum in
      record {
        shared = record t.shared { task_accumulators = m };
        pcs = update t.pcs c (reserving child);
      }
  advance_from (reserving child) c t = elim (bpf.ringbuf_reserve t.shared.telemetry_ringbuf) [
    | none ↦ record t { pcs = update t.pcs c idle }
    | some (stale, r) ↦ record {
      shared = record t.shared { telemetry_ringbuf = r };
      pcs = update t.pcs c (submitting child stale);
    }
  ]
  advance_from (submitting child stale) c t =
      let r = bpf.ringbuf_submit t.shared.telemetry_ringbuf (fork_event child stale) in
      record { shared = record t.shared { telemetry_ringbuf = r }; pcs = update t.pcs c idle }
  advance_from (removing pid) c t =
      let m = bpf.hash_delete t.shared.task_accumulators pid in
      record { shared = record t.shared { task_accumulators = m }; pcs = update t.pcs c idle }

  unfoldable pub advance : ℕ → Cores → Cores
  unfolding advance_from after_lookup
  advance c t = advance_from (t.pcs c) c t

  -- The steps of the CPUs in the order of their turns.
  unfoldable pub advance_all : List ℕ → Cores → Cores
  advance_all [] t = t
  advance_all (c ∷ cs) t = advance_all cs (advance c t)

  -- Where the handler of an event begins.
  abbrev pub begin : Event → Pc
  begin (sys_enter pid_tgid) = looking counts_call (current_pid pid_tgid)
  begin (block_rq_issue pid_tgid) = looking only_finds (current_pid pid_tgid)
  begin (sched_fork child) = initializing child
  begin (sched_exit pid) = removing pid

  -- The kernel reaches a tracepoint on a CPU.
  abbrev pub enter : ℕ → Event → Cores → Cores
  enter c e t = record t { pcs = update t.pcs c (begin e) }

  -- The interleavings of some CPUs, with the tracepoints that were reached, the last first.
  pub data Run (cpus : List ℕ) (s : Cores) : List Event → Cores → Type 0 where
    here : Run cpus s [] s
    enters :
        {es : List Event} {t : Cores} (c : ℕ) (e : Event)
        → Run cpus s es t
        → Once c cpus
        → t.pcs c ≡ idle
        → Run cpus s (e ∷ es) (enter c e t)
    advances :
        {es : List Event} {t : Cores} (c : ℕ)
        → Run cpus s es t
        → Once c cpus
        → Run cpus s es (advance c t)
