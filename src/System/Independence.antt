-- ===== src/System/Independence.antt =====
-- What the daemon does to the scheduler.
use ai_optimized_kernel_and.Prelude.{
  ℕ, ◌≡◌, refl, ap, sym, ◌∙◌, inl, inr, none, some, Option-cases, List, [], ◌∷◌, length, drop,
  drop-length,
}
use ai_optimized_kernel_and.Bpf.Maps.{Maps}
use ai_optimized_kernel_and.Bpf.Scx.{Scx}
use ai_optimized_kernel_and.Types.{Telemetry}
use ai_optimized_kernel_and.AiSched.Task.{Task}
use ai_optimized_kernel_and.AiSched.Hooks.{AiSched, enqueue, dispatch}
use ai_optimized_kernel_and.Telemetry.{
  State, Accum, zero_accum, find_or_create, current_pid, count_syscall, handle_sys_enter,
  handle_block_rq_issue, handle_sched_fork, handle_sched_exit,
}
use ai_optimized_kernel_and.Telemetry.Counters
use ai_optimized_kernel_and.Telemetry.Counters.{handle}
use ai_optimized_kernel_and.Onnx.{Runtime}
use ai_optimized_kernel_and.Daemon.{AieDaemon}
use ai_optimized_kernel_and.Daemon.Rounds.{Round, round, round-written}
use ai_optimized_kernel_and.System.{
  Machine, Event, enqueues, dispatches, traces, rounds, deliver, step, run,
}

module _ (bpf : Maps) (scx : Scx Task) (rt : Runtime) where
  abbrev E : Type 0
  E = Event bpf scx rt

  -- The events without the rounds of the daemon.
  abbrev pub without_daemon : List E → List E
  without_daemon [] = []
  without_daemon (enqueues cx p flags ∷ es) = enqueues cx p flags ∷ without_daemon es
  without_daemon (dispatches ∷ es) = dispatches ∷ without_daemon es
  without_daemon (traces e ∷ es) = traces e ∷ without_daemon es
  without_daemon (rounds r ∷ es) = without_daemon es

  nothing_new :
      (r : Round) (x : Telemetry × AieDaemon rt)
      → drop (length x.1.written) (round rt r x).1.written ≡ []
  nothing_new r x = rw (round-written rt r x) (drop-length x.1.written)

  step_round-sched :
      (r : Round) (m : Machine bpf scx rt) → (step bpf scx rt (rounds r) m).sched ≡ m.sched
  unfolding step deliver
  step_round-sched r m = rw (nothing_new r m.daemon)

  abbrev entered : ℕ → bpf.Hash Accum → bpf.Hash Accum
  entered t m =
      let (found, m') = find_or_create bpf m (current_pid t) in
      elim found [ none ↦ m' | some a ↦ bpf.hash_update m' (current_pid t) (count_syscall a) ]

  enter-accumulators :
      (t : ℕ) (x : State bpf)
      → (handle_sys_enter bpf t x).task_accumulators ≡ entered t x.task_accumulators
  unfolding handle_sys_enter
  enter-accumulators t x =
      elim (Option-cases (find_or_create bpf x.task_accumulators (current_pid t)).0) [
        | inl missing ↦ rw (handle_sys_enter, entered, missing) refl
        | inr (a, e) ↦ rw (handle_sys_enter, entered, e) refl
      ]

  fork-accumulators :
      (child : ℕ) (x : State bpf)
      → (handle_sched_fork bpf child x).task_accumulators
        ≡ bpf.hash_update x.task_accumulators child zero_accum
  unfolding handle_sched_fork
  fork-accumulators child x = elim (Option-cases (bpf.ringbuf_reserve x.telemetry_ringbuf)) [
    | inl full ↦ rw (handle_sched_fork, full) refl
    | inr (room, e) ↦ rw (handle_sched_fork, e) refl
  ]

  -- The counters of the tracer do not depend on its ring buffer.
  handle-accumulators :
      (e : Counters.Event) (x y : State bpf)
      → x.task_accumulators ≡ y.task_accumulators
      → (handle bpf e x).task_accumulators ≡ (handle bpf e y).task_accumulators
  unfolding handle handle_sys_enter handle_block_rq_issue handle_sched_fork handle_sched_exit
  handle-accumulators (Counters.sys_enter t) x y h =
      enter-accumulators t x ∙ ap (entered t) h ∙ sym (enter-accumulators t y)
  handle-accumulators (Counters.block_rq_issue t) x y h =
      ap (λ m. (handle_block_rq_issue bpf t (record x { task_accumulators = m })).task_accumulators)
        h
  handle-accumulators (Counters.sched_fork child) x y h =
      fork-accumulators child x
      ∙ ap (λ m. bpf.hash_update m child zero_accum) h
      ∙ sym (fork-accumulators child y)
  handle-accumulators (Counters.sched_exit p) x y h = ap (λ m. bpf.hash_delete m p) h

  -- Machines with the same scheduler and counters stay so, whatever their daemons do.
  run-sched :
      (es : List E) (m n : Machine bpf scx rt)
      → m.sched ≡ n.sched
      → m.tracer.task_accumulators ≡ n.tracer.task_accumulators
      → ((run bpf scx rt es m).sched ≡ (run bpf scx rt (without_daemon es) n).sched)
        × ((run bpf scx rt es m).tracer.task_accumulators
            ≡ (run bpf scx rt (without_daemon es) n).tracer.task_accumulators)
  unfolding run step
  run-sched [] m n h k = (h, k)
  run-sched (enqueues cx p flags ∷ es) m n h k =
      run-sched es _ _ (ap (enqueue bpf scx cx p flags) h) k
  run-sched (dispatches ∷ es) m n h k = run-sched es _ _ (ap (dispatch bpf scx) h) k
  run-sched (traces e ∷ es) m n h k = run-sched es _ _ h (handle-accumulators e m.tracer n.tracer k)
  run-sched (rounds r ∷ es) m n h k =
      run-sched es (step bpf scx rt (rounds r) m) n (step_round-sched r m ∙ h) k

  run-decisions :
      (es : List E) (m : Machine bpf scx rt)
      → (run bpf scx rt es m).sched.sched_decisions ≡ m.sched.sched_decisions
  unfolding run step enqueue dispatch
  run-decisions [] m = refl
  run-decisions (enqueues cx p flags ∷ es) m = run-decisions es _
  run-decisions (dispatches ∷ es) m = run-decisions es _
  run-decisions (traces e ∷ es) m = run-decisions es _
  run-decisions (rounds r ∷ es) m =
      run-decisions es (step bpf scx rt (rounds r) m)
      ∙ ap (λ (s : AiSched bpf scx). s.sched_decisions) (step_round-sched r m)

  -- Whatever hooks, tracepoints and rounds of the daemon's workers alternate, the scheduler (its maps,
  -- statistics, queues and its own ring buffer) and the tracer's counters of all PIDs end up just as they
  -- do without those rounds, and the map of decisions stays as it was at first. Of the tracer's ring
  -- buffer, from which the daemon's poll takes records, nothing is said.
  pub daemon_changes_nothing :
      (es : List E) (m : Machine bpf scx rt)
      → ((run bpf scx rt es m).sched ≡ (run bpf scx rt (without_daemon es) m).sched)
        × ((run bpf scx rt es m).tracer.task_accumulators
            ≡ (run bpf scx rt (without_daemon es) m).tracer.task_accumulators)
        × ((run bpf scx rt es m).sched.sched_decisions ≡ m.sched.sched_decisions)
  daemon_changes_nothing es m =
      let (s, t) = run-sched es m m refl refl in (s, t, run-decisions es m)
