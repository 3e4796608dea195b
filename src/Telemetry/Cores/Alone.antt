-- ===== src/Telemetry/Cores/Alone.antt =====
-- A CPU on which no other CPU intervenes runs the handlers of kernel/telemetry.bpf.c as Telemetry has
-- them.
use ai_optimized_kernel_and.Prelude.{
  ℕ, ◌≡◌, inl, inr, refl, Option, none, some, Option-cases, [], ◌∷◌, update, update_self,
}
use ai_optimized_kernel_and.Bpf.Maps.{Maps}
use ai_optimized_kernel_and.Bpf.Elements.{Elements}
use ai_optimized_kernel_and.Telemetry.{
  Accum, count_syscall, current_pid, State, find_or_create, handle_sys_enter, handle_block_rq_issue,
}
use ai_optimized_kernel_and.Telemetry.Counters.{
  Event, sys_enter, block_rq_issue, sched_fork, sched_exit, handle,
}
use ai_optimized_kernel_and.Telemetry.Cores.{
  Cores, Handler, counts_call, only_finds, Pc, idle, looking, inserting, looking_again, adding,
  after_lookup, advance_from, advance, advance_all, enter,
}
use ai_optimized_kernel_and.Telemetry.Cores.Steps.{advance-at, idles}
use ai_optimized_kernel_and.Telemetry.Cores.Agreement.{
  lookup-none, lookup-some, lookup-change, Agrees, fork-Agrees, exit-Agrees,
}

module _ (bpf : Maps) (elements : Elements bpf Accum) where
  open elements use {Ptr, element, read, change}

  -- What a handler does with the record that it found or created.
  abbrev count_found : Handler → ℕ → Option Accum → State bpf → State bpf
  count_found f k none s = s
  count_found counts_call k (some a) s = record s {
    task_accumulators = bpf.hash_update s.task_accumulators k (count_syscall a);
  }
  count_found only_finds k (some a) s = s

  abbrev finds : Handler → ℕ → State bpf → State bpf
  finds f k s =
      let (found, m) = find_or_create bpf s.task_accumulators k in
      count_found f k found (record s { task_accumulators = m })

  sys_enter-finds :
      (pid_tgid : ℕ) (s : State bpf)
      → handle_sys_enter bpf pid_tgid s ≡ finds counts_call (current_pid pid_tgid) s
  unfolding handle_sys_enter
  sys_enter-finds pid_tgid s =
      elim (Option-cases (find_or_create bpf s.task_accumulators (current_pid pid_tgid)).0) [
        | inl n ↦ rw (handle_sys_enter, n) refl
        | inr (a, n) ↦ rw (handle_sys_enter, n) refl
      ]

  block_rq_issue-finds :
      (pid_tgid : ℕ) (s : State bpf)
      → handle_block_rq_issue bpf pid_tgid s ≡ finds only_finds (current_pid pid_tgid) s
  unfolding handle_block_rq_issue
  block_rq_issue-finds pid_tgid s =
      elim (Option-cases (find_or_create bpf s.task_accumulators (current_pid pid_tgid)).0) [
        | inl n ↦ rw (handle_block_rq_issue, n) refl
        | inr (a, n) ↦ rw (handle_block_rq_issue, n) refl
      ]

  -- A lookup that finds the record leads to the same place, the first or the second time.
  after_found :
      (f : Handler) (k : ℕ) (q : Ptr) (missing missing' : Pc bpf elements)
      → after_lookup bpf elements f k (some q) missing
        ≡ after_lookup bpf elements f k (some q) missing'
  unfolding after_lookup
  after_found counts_call k q missing missing' = refl
  after_found only_finds k q missing missing' = refl

  module _ (c k : ℕ) where
    -- The step after a lookup, which may be none.
    settles :
        (f : Handler) (t : Cores bpf elements) (o : Option Ptr)
        → element t.shared.task_accumulators k ≡ o
        → t.pcs c ≡ after_lookup bpf elements f k o idle
        → Agrees bpf elements c
            (advance bpf elements c t)
            (count_found f k (bpf.hash_lookup t.shared.task_accumulators k) t.shared)
    unfolding advance_from after_lookup
    settles f t none e at =
        rw (idles bpf elements t c at, lookup-none bpf elements t.shared.task_accumulators k e)
          (record { ended = at; ring = refl; lookups = λ j. refl })
    settles counts_call t (some q) e at =
        let m = t.shared.task_accumulators in
        let (a, l, v) = lookup-some bpf elements m k q e in
        rw (advance-at bpf elements t c (adding k q) at, l)
          (record {
            ended = update_self t.pcs c idle;
            ring = refl;
            lookups = lookup-change bpf elements m k q a count_syscall e v;
          })
    settles only_finds t (some q) e at =
        let (a, l, v) = lookup-some bpf elements t.shared.task_accumulators k q e in
        rw (idles bpf elements t c at, l) (record { ended = at; ring = refl; lookups = λ j. refl })

    finds-Agrees :
        (f : Handler) (t : Cores bpf elements)
        → let t0 : Cores bpf elements = record t { pcs = update t.pcs c (looking f k) } in
          Agrees bpf elements c
            (advance_all bpf elements (c ∷ c ∷ c ∷ c ∷ []) t0)
            (finds f k t.shared)
    unfolding advance_all advance_from after_lookup find_or_create
    finds-Agrees f t =
        let t0 : Cores bpf elements = record t { pcs = update t.pcs c (looking f k) } in
        let t1 = advance_from bpf elements (looking f k) c t0 in
        let e0 = advance-at bpf elements t0 c (looking f k) (update_self t.pcs c (looking f k)) in
        let m = t.shared.task_accumulators in
        elim (Option-cases (element m k)) [
          | inl n ↦
              let t2 = advance_from bpf elements (inserting f k) c t1 in
              let t3 = advance_from bpf elements (looking_again f k) c t2 in
              let e1 = advance-at bpf elements t1 c (inserting f k) (rw (update_self, n) refl) in
              let e2 =
                advance-at bpf elements t2 c (looking_again f k)
                  (update_self t1.pcs c (looking_again f k)) in
              let g =
                settles f t3 (element t3.shared.task_accumulators k) refl
                  (update_self t2.pcs c _) in
              rw (e0, e1, e2, find_or_create, lookup-none bpf elements m k n) g
          | inr (q, n) ↦
              let (a, l, v) = lookup-some bpf elements m k q n in
              let g =
                settles f t1 (some q) n
                  (rw (update_self, n) (after_found f k q (inserting f k) idle)) in
              rw
                (
                  e0,
                  idles bpf elements (advance bpf elements c t1) c g.ended,
                  idles bpf elements (advance bpf elements c t1) c g.ended,
                  find_or_create,
                  l,
                )
                (rw l at g)
        ]

  -- On a CPU that no other CPU interrupts, the steps of a handler, at most four, leave the ring buffer and
  -- the lookup of each PID as the handler as a whole does, whether or not the record was there and the map
  -- or the ring buffer had room; then the CPU is in no handler.
  handlers_alone :
      (c : ℕ) (e : Event) (t : Cores bpf elements)
      → Agrees bpf elements c
          (advance_all bpf elements (c ∷ c ∷ c ∷ c ∷ []) (enter bpf elements c e t))
          (handle bpf e t.shared)
  unfolding handle
  handlers_alone c (sys_enter pid_tgid) t =
      rw (sys_enter-finds pid_tgid t.shared) (finds-Agrees c (current_pid pid_tgid) counts_call t)
  handlers_alone c (block_rq_issue pid_tgid) t =
      rw (block_rq_issue-finds pid_tgid t.shared)
        (finds-Agrees c (current_pid pid_tgid) only_finds t)
  handlers_alone c (sched_fork child) t = fork-Agrees bpf elements c child t
  handlers_alone c (sched_exit pid) t = exit-Agrees bpf elements c pid t
