-- ===== src/Telemetry/Cores/Kept.antt =====
-- What a step of kernel/telemetry.bpf.c on one of several CPUs does to the record of a PID.
use ai_optimized_kernel_and.Prelude.{
  ℕ, ◌+◌, ◌<◌, ◌≡◌, ◌≢◌, ◌⊎◌, inl, inr, refl, sym, arith, Option, none, some, Option-cases, List,
  [], ◌∷◌, suc, ◌==◌, if◌then◌else◌, u64_mod, update, update-all, Once, total, total-update,
}
use native.Mathlib.Decide.{ℕ_discrete}
use ai_optimized_kernel_and.Bpf.Maps.{Maps}
use ai_optimized_kernel_and.Bpf.Elements.{Elements}
use ai_optimized_kernel_and.Telemetry.{Accum, zero_accum, count_syscall, current_pid}
use ai_optimized_kernel_and.Telemetry.Counters.{
  Event, sys_enter, block_rq_issue, sched_fork, sched_exit,
}
use ai_optimized_kernel_and.Telemetry.Cores.{
  Cores, Handler, counts_call, only_finds, Pc, idle, looking, inserting, looking_again, adding,
  initializing, reserving, submitting, removing, after_lookup, advance_from, begin,
}

-- The system calls of a PID.
abbrev pub calls : ℕ → List Event → ℕ
calls k [] = 0
calls k (sys_enter t ∷ es) = let n = calls k es in if current_pid t == k then suc n else n
calls k (e ∷ es) = calls k es

-- No event forks or ends the PID.
abbrev pub Spares : ℕ → List Event → Type 0
Spares k [] = Unit {0}
Spares k (sched_fork child ∷ es) = (child ≢ k) × Spares k es
Spares k (sched_exit pid ∷ es) = (pid ≢ k) × Spares k es
Spares k (e ∷ es) = Spares k es

module _ (bpf : Maps) (elements : Elements bpf Accum) (k : ℕ) (p : elements.Ptr) where
  open elements use {Ptr, element, read, change}

  -- The CPU has a call of the PID still to count.
  abbrev pub uncounted : Pc bpf elements → ℕ
  uncounted (looking counts_call pid) = if pid == k then 1 else 0
  uncounted (adding pid q) = if pid == k then 1 else 0
  uncounted _ = 0

  -- The CPU is not about to replace or remove the record of the PID, and it has a pointer to it if it is
  -- about to count a call of it.
  abbrev pub IsSafe : Pc bpf elements → Type 0
  IsSafe (inserting h pid) = pid ≢ k
  IsSafe (looking_again h pid) = pid ≢ k
  IsSafe (adding pid q) = ((pid ≡ k) × (q ≡ p)) ⊎ ((pid ≢ k) × (q ≢ p))
  IsSafe (initializing child) = child ≢ k
  IsSafe (removing pid) = pid ≢ k
  IsSafe _ = Unit {0}

  -- Where a lookup leads: of the PID, which has its record, and of another.
  after_own :
      (f : Handler) (missing : Pc bpf elements)
      → let pc = after_lookup bpf elements f k (some p) missing in
        (uncounted pc ≡ uncounted (looking f k)) × IsSafe pc
  unfolding after_lookup
  after_own counts_call missing = (refl, inl (refl, refl))
  after_own only_finds missing = (refl, tt)

  after_other :
      (f : Handler) (pid : ℕ) (missing : Pc bpf elements) (o : Option Ptr)
      → pid ≢ k
      → ((q : Ptr) → o ≡ some q → q ≢ p)
      → uncounted missing ≡ 0
      → IsSafe missing
      → let pc = after_lookup bpf elements f pid o missing in (uncounted pc ≡ 0) × IsSafe pc
  unfolding after_lookup
  after_other f pid missing none ne h z safe = (z, safe)
  after_other counts_call pid missing (some q) ne h z safe = (ground arith, inr (ne, h q refl))
  after_other only_finds pid missing (some q) ne h z safe = (refl, tt)

  looking_other : (f : Handler) (pid : ℕ) → pid ≢ k → uncounted (looking f pid) ≡ 0
  looking_other counts_call pid ne = ground arith
  looking_other only_finds pid ne = refl

  pub begin-IsSafe :
      (e : Event) (es : List Event)
      → Spares k (e ∷ es)
      → IsSafe (begin bpf elements e) × Spares k es
  begin-IsSafe (sys_enter pid_tgid) es spares = (tt, spares)
  begin-IsSafe (block_rq_issue pid_tgid) es spares = (tt, spares)
  begin-IsSafe (sched_fork child) es spares = spares
  begin-IsSafe (sched_exit pid) es spares = spares

  pub begin-uncounted :
      (e : Event) (es : List Event)
      → uncounted (begin bpf elements e) + calls k es ≡ calls k (e ∷ es)
  begin-uncounted (sys_enter pid_tgid) es = ground arith
  begin-uncounted (block_rq_issue pid_tgid) es = omega arith
  begin-uncounted (sched_fork child) es = omega arith
  begin-uncounted (sched_exit pid) es = omega arith

  module _ (cpus : List ℕ) (a : Accum) where
    -- The record of the PID is where it was, and nothing but its count has changed, which is `n` but for
    -- the calls on their way.
    pub record Kept (n : ℕ) (t : Cores bpf elements) : Type 0 where
      pub count : ℕ
      pub present : element t.shared.task_accumulators k ≡ some p
      pub value : read t.shared.task_accumulators p ≡ some (record a { total_syscalls = count })
      pub counted : count + total cpus (λ c. uncounted (t.pcs c)) ≡ n

    -- What a step on a CPU does to the record, if it counts no call of the PID.
    module _ (n : ℕ) (t : Cores bpf elements) (c : ℕ) (once : Once c cpus) (h : Kept n t) where
      goes_on :
          (t' : Cores bpf elements) (pc old : Pc bpf elements)
          → t.pcs c ≡ old
          → t'.pcs ≡ update t.pcs c pc
          → uncounted pc ≡ uncounted old
          → element t'.shared.task_accumulators k ≡ element t.shared.task_accumulators k
          → read t'.shared.task_accumulators p ≡ read t.shared.task_accumulators p
          → Kept n t'
      goes_on t' pc old e q u m v = record {
        count = h.count;
        present = rw m h.present;
        value = rw v h.value;
        counted =
            rw q (omega (arith, h.counted, u, total-update uncounted cpus t.pcs c pc old once e));
      }

      counts :
          (q : Ptr)
          → n < u64_mod
          → t.pcs c ≡ adding k q
          → q ≡ p
          → Kept n (advance_from bpf elements (adding k q) c t)
      unfolding advance_from
      counts q lt e same =
          let m = t.shared.task_accumulators in
          let one : uncounted (adding k q) ≡ 1 = ground arith in
          let u = total-update uncounted cpus t.pcs c idle (adding k q) once e in
          let fits : suc h.count < u64_mod = omega (arith, lt, h.counted, u, one) in
          record {
            count = suc h.count;
            present = rw (elements.change_element m q count_syscall k) h.present;
            value =
                rw same (rw (elements.change_read_self m p count_syscall _ h.value) (ground arith));
            counted = omega (arith, h.counted, u, one);
          }

      found_other :
          (pid : ℕ) (q : Ptr) → pid ≢ k → element t.shared.task_accumulators pid ≡ some q → q ≢ p
      found_other pid q ne e x =
          ne (elements.element_inj t.shared.task_accumulators pid k p (rw x at e) h.present)

      look :
          (f : Handler) (pid : ℕ)
          → let pc =
              after_lookup bpf elements f pid
                (element t.shared.task_accumulators pid)
                (inserting f pid) in
            (uncounted pc ≡ uncounted (looking f pid)) × IsSafe pc
      look f pid = elim (ℕ_discrete pid k) [
        | yes e ↦ rw (e, h.present) (after_own f (inserting f k))
        | no ne ↦ rw (looking_other f pid ne) (
            after_other f pid (inserting f pid) (element t.shared.task_accumulators pid) ne
              (λ q. found_other pid q ne) refl ne)
      ]

      look_again :
          (f : Handler) (pid : ℕ)
          → pid ≢ k
          → let pc =
              after_lookup bpf elements f pid (element t.shared.task_accumulators pid) idle in
            (uncounted pc ≡ 0) × IsSafe pc
      look_again f pid ne =
          after_other f pid idle (element t.shared.task_accumulators pid) ne
            (λ q. found_other pid q ne) refl tt

      -- A step on a CPU that is not about to harm the record keeps it.
      pub advance_from-Kept :
          (pc : Pc bpf elements)
          → n < u64_mod
          → t.pcs c ≡ pc
          → IsSafe pc
          → Kept n (advance_from bpf elements pc c t)
      unfolding advance_from
      advance_from-Kept idle lt e safe = h
      advance_from-Kept (looking f pid) lt e safe =
          goes_on (advance_from bpf elements (looking f pid) c t)
            (after_lookup bpf elements f pid (element t.shared.task_accumulators pid)
              (inserting f pid))
            (looking f pid) e refl (look f pid).0 refl refl
      advance_from-Kept (inserting f pid) lt e safe =
          let ne : k ≢ pid = λ x. safe (sym x) in
          let m = t.shared.task_accumulators in
          goes_on (advance_from bpf elements (inserting f pid) c t) (looking_again f pid)
            (inserting f pid) e refl refl (elements.update_element_ne m pid k zero_accum ne)
            (elements.update_read_ne m pid k zero_accum p ne h.present)
      advance_from-Kept (looking_again f pid) lt e safe =
          goes_on (advance_from bpf elements (looking_again f pid) c t)
            (after_lookup bpf elements f pid (element t.shared.task_accumulators pid) idle)
            (looking_again f pid) e refl (look_again f pid safe).0 refl refl
      advance_from-Kept (adding pid q) lt e (inl (a, b)) = counts q lt (rw a at e) b
      advance_from-Kept (adding pid q) lt e (inr (a, b)) =
          let m = t.shared.task_accumulators in
          goes_on (advance_from bpf elements (adding pid q) c t) idle (adding pid q) e refl
            (ground arith) (elements.change_element m q count_syscall k)
            (elements.change_read_ne m q p count_syscall (λ x. b (sym x)))
      advance_from-Kept (initializing child) lt e safe =
          let ne : k ≢ child = λ x. safe (sym x) in
          let m = t.shared.task_accumulators in
          goes_on (advance_from bpf elements (initializing child) c t) (reserving child)
            (initializing child) e refl refl (elements.update_element_ne m child k zero_accum ne)
            (elements.update_read_ne m child k zero_accum p ne h.present)
      advance_from-Kept (reserving child) lt e safe =
          elim (Option-cases (bpf.ringbuf_reserve t.shared.telemetry_ringbuf)) [
            | inl r ↦
                goes_on (advance_from bpf elements (reserving child) c t) idle (reserving child) e
                  (rw (advance_from, r) refl) refl (rw (advance_from, r) refl)
                  (rw (advance_from, r) refl)
            | inr ((stale, ring), r) ↦
                goes_on (advance_from bpf elements (reserving child) c t) (submitting child stale)
                  (reserving child) e (rw (advance_from, r) refl) refl (rw (advance_from, r) refl)
                  (rw (advance_from, r) refl)
          ]
      advance_from-Kept (submitting child stale) lt e safe =
          goes_on (advance_from bpf elements (submitting child stale) c t) idle
            (submitting child stale) e refl refl refl refl
      advance_from-Kept (removing pid) lt e safe =
          let ne : k ≢ pid = λ x. safe (sym x) in
          let m = t.shared.task_accumulators in
          goes_on (advance_from bpf elements (removing pid) c t) idle (removing pid) e refl refl
            (elements.delete_element_ne m pid k ne) (elements.delete_read_ne m pid k p ne h.present)

      pub advance_from-IsSafe :
          (pc : Pc bpf elements)
          → IsSafe pc
          → ((c' : ℕ) → IsSafe (t.pcs c'))
          → (c' : ℕ) → IsSafe ((advance_from bpf elements pc c t).pcs c')
      unfolding advance_from
      advance_from-IsSafe idle safe all = all
      advance_from-IsSafe (looking f pid) safe all = update-all IsSafe t.pcs c _ (look f pid).1 all
      advance_from-IsSafe (inserting f pid) safe all =
          update-all IsSafe t.pcs c (looking_again f pid) safe all
      advance_from-IsSafe (looking_again f pid) safe all =
          update-all IsSafe t.pcs c _ (look_again f pid safe).1 all
      advance_from-IsSafe (adding pid q) safe all = update-all IsSafe t.pcs c idle tt all
      advance_from-IsSafe (initializing child) safe all =
          update-all IsSafe t.pcs c (reserving child) tt all
      advance_from-IsSafe (reserving child) safe all =
          elim (Option-cases (bpf.ringbuf_reserve t.shared.telemetry_ringbuf)) [
            | inl r ↦ rw (advance_from, r) (update-all IsSafe t.pcs c idle tt all)
            | inr ((stale, ring), r) ↦
                rw (advance_from, r) (update-all IsSafe t.pcs c (submitting child stale) tt all)
          ]
      advance_from-IsSafe (submitting child stale) safe all = update-all IsSafe t.pcs c idle tt all
      advance_from-IsSafe (removing pid) safe all = update-all IsSafe t.pcs c idle tt all
