-- ===== src/Telemetry/Counters.antt =====
-- What the counters of kernel/telemetry.bpf.c hold after any sequence of tracepoints.
use ai_optimized_kernel_and.Prelude.{
  ℕ, suc, ◌%◌, ◌≡◌, refl, inl, inr, ◌∙◌, Option, none, some, List, [], ◌∷◌, ◌++◌, arith, ◌==◌,
  if◌then◌else◌, Option-cases, Bool-cases, u64_mod, ==_iff, ap,
}
use ai_optimized_kernel_and.Bpf.Maps.{Maps}
use ai_optimized_kernel_and.Types.{Telemetry}
use ai_optimized_kernel_and.Telemetry.{
  Accum, zero_accum, count_syscall, fork_event, current_pid, State, find_or_create,
  handle_sys_enter, handle_block_rq_issue, handle_sched_fork, handle_sched_exit,
}

-- The tracepoints, with the number that the handler reads.
pub data Event : Type 0 where
  sys_enter : ℕ → Event
  block_rq_issue : ℕ → Event
  sched_fork : ℕ → Event
  sched_exit : ℕ → Event

-- The history of one PID: no record, or a record with so many system calls counted.
unfoldable pub expect : ℕ → Event → Option ℕ → Option ℕ
expect pid (sys_enter t) o =
    if current_pid t == pid then some (suc (elim o [ none ↦ 0 | some n ↦ n ])) else o
expect pid (block_rq_issue t) o =
    if current_pid t == pid then some (elim o [ none ↦ 0 | some n ↦ n ]) else o
expect pid (sched_fork child) o = if child == pid then some 0 else o
expect pid (sched_exit p) o = if p == pid then none else o

unfoldable pub expect_all : ℕ → List Event → Option ℕ → Option ℕ
expect_all pid [] o = o
expect_all pid (e ∷ es) o = expect_all pid es (expect pid e o)

-- A record whose only nonzero counter is that of the system calls, which wraps.
abbrev pub counted : ℕ → Accum
counted n = record zero_accum { total_syscalls = n % u64_mod }

abbrev pub recorded : Option ℕ → Option Accum
recorded none = none
recorded (some n) = some (counted n)

-- The record that a handler finds or creates.
abbrev or_zero : Option Accum → Accum
or_zero none = zero_accum
or_zero (some a) = a

module _ (bpf : Maps) where
  open bpf use {Hash, hash_lookup, hash_update}

  unfoldable pub handle : Event → State bpf → State bpf
  handle (sys_enter t) s = handle_sys_enter bpf t s
  handle (block_rq_issue t) s = handle_block_rq_issue bpf t s
  handle (sched_fork child) s = handle_sched_fork bpf child s
  handle (sched_exit p) s = handle_sched_exit bpf p s

  unfoldable pub handle_all : List Event → State bpf → State bpf
  handle_all [] s = s
  handle_all (e ∷ es) s = handle_all es (handle e s)

  -- The insertion of a zero record at a key succeeds: the key is present, or the map is not full.
  abbrev pub Fits : Hash Accum → ℕ → Type 0
  Fits m k = hash_lookup (hash_update m k zero_accum) k ≡ some zero_accum

  -- The record that the event's handler may insert fits.
  abbrev pub EventFits : Event → State bpf → Type 0
  EventFits (sys_enter t) s = Fits s.task_accumulators (current_pid t)
  EventFits (block_rq_issue t) s = Fits s.task_accumulators (current_pid t)
  EventFits (sched_fork child) s = Fits s.task_accumulators child
  EventFits (sched_exit p) s = Unit {0}

  -- No insertion of a sequence of events meets a full map.
  abbrev pub AllFit : List Event → State bpf → Type 0
  AllFit [] s = Unit {0}
  AllFit (e ∷ es) s = EventFits e s × AllFit es (handle e s)

  lookup-update :
      (m : Hash Accum) (k j : ℕ) (a : Accum)
      → hash_lookup (hash_update m k a) k ≡ some a
      → hash_lookup (hash_update m k a) j ≡ (if k == j then some a else hash_lookup m j)
  lookup-update m k j a fits = elim (Bool-cases (k == j)) [
    | inl e ↦ let q : k ≡ j = ground arith in rw (e, ← q) fits
    | inr e ↦ rw e (bpf.hash_update_ne m k j a (ground arith))
  ]

  lookup-delete :
      (m : Hash Accum) (k j : ℕ)
      → hash_lookup (bpf.hash_delete m k) j ≡ (if k == j then none else hash_lookup m j)
  lookup-delete m k j = elim (Bool-cases (k == j)) [
    | inl e ↦ let q : k ≡ j = ground arith in rw (e, ← q) (bpf.hash_delete_self m k)
    | inr e ↦ rw e (bpf.hash_delete_ne m k j (ground arith))
  ]

  -- A key that is present can be given any value.
  pub update_present :
      (m : Hash Accum) (k : ℕ) (a b : Accum)
      → hash_lookup m k ≡ some b
      → hash_lookup (hash_update m k a) k ≡ some a
  update_present m k a b h = elim (bpf.hash_update_self m k a) [
    | inl e ↦ e
    | inr (e, _) ↦ ground (arith, e, h)
  ]

  found :
      (m : Hash Accum) (k : ℕ)
      → Fits m k
      → (find_or_create bpf m k).0 ≡ some (or_zero (hash_lookup m k))
  unfolding find_or_create
  found m k fits = elim (Option-cases (hash_lookup m k)) [
    | inl e ↦ rw (find_or_create, e) fits
    | inr (a, e) ↦ rw (find_or_create, e)
  ]

  lookup-find_or_create :
      (m : Hash Accum) (k j : ℕ)
      → Fits m k
      → hash_lookup (find_or_create bpf m k).1 j
        ≡ (if k == j then some (or_zero (hash_lookup m k)) else hash_lookup m j)
  unfolding find_or_create
  lookup-find_or_create m k j fits = elim (Option-cases (hash_lookup m k)) [
    | inl e ↦ rw (find_or_create, e) (lookup-update m k j zero_accum fits)
    | inr (a, e) ↦ rw (find_or_create, e) (ground (arith, e, ==_iff k j))
  ]

  found_present :
      (m : Hash Accum) (k : ℕ)
      → Fits m k
      → hash_lookup (find_or_create bpf m k).1 k ≡ some (or_zero (hash_lookup m k))
  found_present m k fits = ground (arith, lookup-find_or_create m k k fits)

  lookup-sys_enter :
      (t j : ℕ) (s : State bpf)
      → Fits s.task_accumulators (current_pid t)
      → let m = s.task_accumulators in
        hash_lookup (handle_sys_enter bpf t s).task_accumulators j ≡ (
          if current_pid t == j
          then some (count_syscall (or_zero (hash_lookup m (current_pid t))))
          else hash_lookup m j)
  unfolding handle_sys_enter
  lookup-sys_enter t j s fits =
      let m = s.task_accumulators in
      let k = current_pid t in
      let a = or_zero (hash_lookup m k) in
      let m' = (find_or_create bpf m k).1 in
      ground (
        arith,
        found m k fits,
        lookup-update m' k j (count_syscall a) (update_present m' k _ a (found_present m k fits)),
        lookup-find_or_create m k j fits,
      )

  fork-recorded :
      (pid child : ℕ) (s : State bpf) (o : Option ℕ)
      → Fits s.task_accumulators child
      → hash_lookup s.task_accumulators pid ≡ recorded o
      → hash_lookup (handle_sched_fork bpf child s).task_accumulators pid
        ≡ recorded (expect pid (sched_fork child) o)
  unfolding expect handle_sched_fork
  fork-recorded pid child s o fits h =
      let q = lookup-update s.task_accumulators child pid zero_accum fits in
      elim (Option-cases (bpf.ringbuf_reserve s.telemetry_ringbuf)) [
        | inl e ↦ rw (handle_sched_fork, e, q) (ground (arith, h))
        | inr (a, e) ↦ rw (handle_sched_fork, e, q) (ground (arith, h))
      ]

  handle-recorded :
      (pid : ℕ) (e : Event) (s : State bpf) (o : Option ℕ)
      → EventFits e s
      → hash_lookup s.task_accumulators pid ≡ recorded o
      → hash_lookup (handle e s).task_accumulators pid ≡ recorded (expect pid e o)
  unfolding handle expect handle_block_rq_issue handle_sched_exit
  handle-recorded pid (sys_enter t) s none fits h =
      rw (lookup-sys_enter t pid s fits) (ground (arith, h))
  handle-recorded pid (sys_enter t) s (some n) fits h =
      rw (lookup-sys_enter t pid s fits) (ground (arith, h))
  handle-recorded pid (block_rq_issue t) s none fits h =
      rw (lookup-find_or_create _ (current_pid t) pid fits) (ground (arith, h))
  handle-recorded pid (block_rq_issue t) s (some n) fits h =
      rw (lookup-find_or_create _ (current_pid t) pid fits) (ground (arith, h))
  handle-recorded pid (sched_fork child) s o fits h = fork-recorded pid child s o fits h
  handle-recorded pid (sched_exit p) s o fits h = rw lookup-delete (ground (arith, h))

  -- As long as no insertion meets a full map, the record of a PID follows its history, `expect`,
  -- from the start on: a system call and a block request create it, a fork sets it to zero, an exit
  -- removes it, no event of another PID changes it; it counts the system calls, modulo 2 ^ 64, and
  -- every other field of it is 0, whatever was read or written.
  pub handle_all-recorded :
      (pid : ℕ) (es : List Event) (s : State bpf) (o : Option ℕ)
      → AllFit es s
      → hash_lookup s.task_accumulators pid ≡ recorded o
      → hash_lookup (handle_all es s).task_accumulators pid ≡ recorded (expect_all pid es o)
  unfolding handle_all expect_all
  handle_all-recorded pid [] s o fit h = h
  handle_all-recorded pid (e ∷ es) s o fit h =
      handle_all-recorded pid es (handle e s) (expect pid e o) fit.1
        (handle-recorded pid e s o fit.0 h)

  -- A full map makes handle_sys_enter lose the call: nothing changes.
  sys_enter_full :
      (t : ℕ) (s : State bpf)
      → hash_lookup (hash_update s.task_accumulators (current_pid t) zero_accum) (current_pid t)
        ≡ none
      → handle_sys_enter bpf t s ≡ s
  unfolding handle_sys_enter find_or_create
  sys_enter_full t s full =
      elim (bpf.hash_update_self s.task_accumulators (current_pid t) zero_accum) [
        | inl e ↦ ground (arith, e, full)
        | inr (e, same) ↦ ground (arith, e, full, same)
      ]

  -- A fork whose event finds room in the ring buffer reports the child under fixed metrics, and
  -- leaves user, time stamp, bytes and command name as the reserved memory happened to hold them.
  fork_reports :
      (child : ℕ) (s : State bpf) (stale : Telemetry) (r : bpf.Ring Telemetry)
      → bpf.ringbuf_reserve s.telemetry_ringbuf ≡ some (stale, r)
      → (e : Telemetry) × (bpf.samples (handle_sched_fork bpf child s).telemetry_ringbuf
          ≡ bpf.samples s.telemetry_ringbuf ++ e ∷ [])
        × (e.pid ≡ child)
        × (e.cpu_util_recent ≡ 60)
        × (e.uid ≡ stale.uid)
        × (e.ts_enqueue ≡ stale.ts_enqueue)
        × (e.io_read_bytes ≡ stale.io_read_bytes)
        × (e.io_write_bytes ≡ stale.io_write_bytes)
        × (e.comm ≡ stale.comm)
  unfolding handle_sched_fork
  fork_reports child s stale r h = (
    fork_event child stale,
    rw (handle_sched_fork, h)
        (bpf.submit_samples r (fork_event child stale)
          ∙ ap (λ l. l ++ fork_event child stale ∷ []) (bpf.reserve_samples _ stale r h)),
    refl,
    refl,
    refl,
    refl,
    refl,
    refl,
    refl,
  )
