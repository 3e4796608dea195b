-- ===== src/AiSched/Cores/Counting.antt =====
-- The statistics of kernel/ai_sched.bpf.c when it runs on several CPUs.
use ai_optimized_kernel_and.Prelude.{
  ℕ, ◌+◌, ◌<◌, ◌≡◌, some, refl, arith, List, [], ◌∷◌, suc, length, u64_mod, update, Once, total,
  total-update, total-const, Bool-cases, inl, inr, if◌then◌else◌,
}
use ai_optimized_kernel_and.Bpf.Maps.{Maps}
use ai_optimized_kernel_and.Bpf.Smp.{Smp}
use ai_optimized_kernel_and.Types.{Stats}
use ai_optimized_kernel_and.AiSched.Task.{Task}
use ai_optimized_kernel_and.AiSched.Policy.{select_dsq}
use ai_optimized_kernel_and.AiSched.Hooks.{AiSched, choose, init}
use ai_optimized_kernel_and.AiSched.Dispatch.{order}
use ai_optimized_kernel_and.AiSched.Counting.{HasCounted, init-HasCounted}
use ai_optimized_kernel_and.AiSched.Cores.{
  Pc, idle, choosing, emitting, routing, counting, crediting, inserting, asking, count_enqueued,
  count_routed, change_stats, Cores, advance_from, advance, enter, ask, Run, here, enters, asks,
  advances, writes,
}
use ai_optimized_kernel_and.AiSched.Cores.Counters.{
  uncounted, uncredited, CountedBut, count_enqueued-CountedBut, count_routed-CountedBut, Route, cpu,
  npu, eff, counter, owed, sent_from, sent, counter-count_enqueued, counter-count_routed,
}

module _ (bpf : Maps) (smp : Smp Task) (cpus : List ℕ) where
  -- The statistics have an entry, and it is that of `n` tasks taken up, but for the tasks on their way.
  -- On each route, `w` of them were sent.
  pub record HasCountedBut (n : ℕ) (w : Route → ℕ) (t : Cores bpf smp) : Type 0 where
    pub size : 0 < bpf.max_entries t.shared.sched_stats
    pub stats : Stats
    pub entry : bpf.array_lookup t.shared.sched_stats 0 ≡ some stats
    pub counted :
        CountedBut n
          (total cpus (λ c. uncounted (t.pcs c)))
          (total cpus (λ c. uncredited (t.pcs c)))
          stats
    pub credited : (k : Route) → counter k stats + total cpus (λ c. owed k (t.pcs c)) ≡ w k

  -- A step that leaves the statistics: only what is on its way may change.
  keep-HasCountedBut :
      (n : ℕ) (w w' : Route → ℕ) (t t' : Cores bpf smp)
      → t'.shared.sched_stats ≡ t.shared.sched_stats
      → total cpus (λ c. uncounted (t'.pcs c)) ≡ total cpus (λ c. uncounted (t.pcs c))
      → total cpus (λ c. uncredited (t'.pcs c)) ≡ total cpus (λ c. uncredited (t.pcs c))
      → ((k : Route)
          → total cpus (λ c. owed k (t'.pcs c)) + w k ≡ total cpus (λ c. owed k (t.pcs c)) + w' k)
      → HasCountedBut n w t
      → HasCountedBut n w' t'
  keep-HasCountedBut n w w' t t' e a b o h = record {
    size = rw e h.size;
    stats = h.stats;
    entry = rw e h.entry;
    counted = rw (a, b) h.counted;
    credited = λ k. omega (arith, h.credited k, o k);
  }

  goes_on :
      (n : ℕ) (w w' : Route → ℕ) (t t' : Cores bpf smp) (c : ℕ) (pc old : Pc)
      → Once c cpus
      → t.pcs c ≡ old
      → t'.pcs ≡ update t.pcs c pc
      → t'.shared.sched_stats ≡ t.shared.sched_stats
      → uncounted pc ≡ uncounted old
      → uncredited pc ≡ uncredited old
      → ((k : Route) → owed k pc + w k ≡ owed k old + w' k)
      → HasCountedBut n w t
      → HasCountedBut n w' t'
  goes_on n w w' t t' c pc old once e p s a b o h =
      keep-HasCountedBut n w w' t t' s
        (rw p (omega (arith, total-update uncounted cpus t.pcs c pc old once e, a)))
        (rw p (omega (arith, total-update uncredited cpus t.pcs c pc old once e, b)))
        (λ k. rw p (omega (arith, total-update (owed k) cpus t.pcs c pc old once e, o k))) h

  -- A step that changes the entry.
  changes :
      (n : ℕ) (w w' : Route → ℕ) (t t' : Cores bpf smp) (f : Stats → Stats)
      → t'.shared.sched_stats ≡ change_stats bpf f t.shared.sched_stats
      → (h : HasCountedBut n w t)
      → CountedBut n
          (total cpus (λ c. uncounted (t'.pcs c)))
          (total cpus (λ c. uncredited (t'.pcs c)))
          (f h.stats)
      → ((k : Route) → counter k (f h.stats) + total cpus (λ c. owed k (t'.pcs c)) ≡ w' k)
      → HasCountedBut n w' t'
  unfolding change_stats
  changes n w w' t t' f e h k o =
      let m = t.shared.sched_stats in
      let q : t'.shared.sched_stats ≡ bpf.array_update m 0 (f h.stats) =
        rw (e, change_stats, h.entry) refl in
      record {
        size = rw (q, bpf.array_update_size m 0 (f h.stats)) h.size;
        stats = f h.stats;
        entry = rw q (bpf.array_update_self m 0 (f h.stats) h.size);
        counted = k;
        credited = o;
      }

  module _ (n : ℕ) (w : Route → ℕ) (lt : n < u64_mod) (t : Cores bpf smp) (h : HasCountedBut n w t)
      (c : ℕ) (once : Once c cpus) where
    advance_from-HasCountedBut :
        (pc : Pc)
        → t.pcs c ≡ pc
        → HasCountedBut n (λ k. sent_from bpf smp k t pc + w k) (advance_from bpf smp pc c t)
    unfolding advance_from
    advance_from-HasCountedBut idle e =
        keep-HasCountedBut n w _ t t refl refl refl (λ k. omega arith) h
    advance_from-HasCountedBut (choosing cx p flags) e =
        let ch = choose bpf t.shared.sched_decisions t.shared.time_slices p in
        goes_on n w _ t (advance_from bpf smp (choosing cx p flags) c t) c (emitting cx p flags ch)
          (choosing cx p flags) once e refl refl refl refl (λ k. omega arith) h
    advance_from-HasCountedBut (emitting cx p flags ch) e =
        goes_on n w _ t (advance_from bpf smp (emitting cx p flags ch) c t) c (routing p flags ch)
          (emitting cx p flags ch) once e refl refl refl refl (λ k. omega arith) h
    advance_from-HasCountedBut (routing p flags ch) e =
        let d = select_dsq bpf t.shared.energy_mode ch.task_class ch.preferred_device in
        goes_on n w _ t (advance_from bpf smp (routing p flags ch) c t) c (counting p flags ch d)
          (routing p flags ch) once e refl refl refl refl (λ k. omega arith) h
    advance_from-HasCountedBut (counting p flags ch d) e =
        let pc = crediting p flags ch d in
        let old = counting p flags ch d in
        let a : total cpus (λ c'. uncounted (t.pcs c'))
            ≡ suc (total cpus (λ c'. uncounted (update t.pcs c pc c'))) =
          omega (arith, total-update uncounted cpus t.pcs c pc old once e) in
        let b : total cpus (λ c'. uncredited (update t.pcs c pc c'))
            ≡ suc (total cpus (λ c'. uncredited (t.pcs c'))) =
          omega (arith, total-update uncredited cpus t.pcs c pc old once e) in
        changes n w _ t (advance_from bpf smp old c t) count_enqueued refl h
          (rw b (count_enqueued-CountedBut n _ _ h.stats lt (rw a at h.counted)))
          (λ k. omega (
            arith,
            h.credited k,
            total-update (owed k) cpus t.pcs c pc old once e,
            counter-count_enqueued k h.stats,
          ))
    advance_from-HasCountedBut (crediting p flags ch d) e =
        let pc = inserting p flags ch d in
        let old = crediting p flags ch d in
        let a : total cpus (λ c'. uncounted (update t.pcs c pc c'))
            ≡ total cpus (λ c'. uncounted (t.pcs c')) =
          omega (arith, total-update uncounted cpus t.pcs c pc old once e) in
        let b : total cpus (λ c'. uncredited (t.pcs c'))
            ≡ suc (total cpus (λ c'. uncredited (update t.pcs c pc c'))) =
          omega (arith, total-update uncredited cpus t.pcs c pc old once e) in
        changes n w _ t (advance_from bpf smp old c t) (count_routed ch.task_class d) refl h
          (rw a (count_routed-CountedBut ch.task_class d n _ _ h.stats lt (rw b at h.counted)))
          (λ k. omega (
            arith,
            h.credited k,
            total-update (owed k) cpus t.pcs c pc old once e,
            counter-count_routed k ch.task_class d n _ _ h.stats lt (rw b at h.counted),
          ))
    advance_from-HasCountedBut (inserting p flags ch d) e =
        goes_on n w _ t (advance_from bpf smp (inserting p flags ch d) c t) c idle
          (inserting p flags ch d) once e refl refl refl refl (λ k. omega arith) h
    advance_from-HasCountedBut (asking []) e =
        goes_on n w _ t (advance_from bpf smp (asking []) c t) c idle (asking []) once e refl refl
          refl refl (λ k. omega arith) h
    advance_from-HasCountedBut (asking (d ∷ ds)) e =
        let moved = (smp.move_on t.shared.dsqs c d).0 in
        let pc : Pc = if moved then idle else asking ds in
        let z : (uncounted pc ≡ 0) × (uncredited pc ≡ 0) × ((k : Route) → owed k pc ≡ 0) =
          elim (Bool-cases moved) [
            | inl y ↦ rw y (refl, refl, λ k. refl)
            | inr n ↦ rw n (refl, refl, λ k. refl)
          ] in
        goes_on n w _ t (advance_from bpf smp (asking (d ∷ ds)) c t) c pc (asking (d ∷ ds)) once e
          refl refl z.0 z.1 (λ k. omega (arith, z.2 k)) h

  enter-HasCountedBut :
      (n : ℕ) (w : Route → ℕ) (t t' : Cores bpf smp) (c : ℕ) (pc : Pc)
      → Once c cpus
      → t.pcs c ≡ idle
      → t'.pcs ≡ update t.pcs c pc
      → t'.shared.sched_stats ≡ t.shared.sched_stats
      → uncounted pc ≡ 1
      → uncredited pc ≡ 0
      → ((k : Route) → owed k pc ≡ 0)
      → HasCountedBut n w t
      → HasCountedBut (suc n) w t'
  enter-HasCountedBut n w t t' c pc once e p s u v o h =
      let a : total cpus (λ c'. uncounted (t'.pcs c'))
          ≡ suc (total cpus (λ c'. uncounted (t.pcs c'))) =
        rw p (omega (arith, total-update uncounted cpus t.pcs c pc idle once e, u)) in
      let b : total cpus (λ c'. uncredited (t'.pcs c')) ≡ total cpus (λ c'. uncredited (t.pcs c')) =
        rw p (omega (arith, total-update uncredited cpus t.pcs c pc idle once e, v)) in
      let k = h.counted in
      record {
        size = rw s h.size;
        stats = h.stats;
        entry = rw s h.entry;
        counted =
            rw (a, b)
              (record {
                enqueued = omega (arith, k.enqueued);
                routed = k.routed;
                dispatched = k.dispatched;
                latency = k.latency;
                energy = k.energy;
              });
        credited = λ k.
            rw p
              (omega (arith, h.credited k, total-update (owed k) cpus t.pcs c pc idle once e, o k));
      }

  run-HasCountedBut :
      {s t : Cores bpf smp} {ts : List Task}
      → length ts < u64_mod
      → HasCountedBut 0 (λ k. 0) s
      → (r : Run bpf smp cpus s ts t) → HasCountedBut (length ts) (λ k. sent bpf smp k r) t
  unfolding advance
  run-HasCountedBut lt h here = h
  run-HasCountedBut lt h (enters {ts = ts} {t = t} c cx p flags r once e) =
      enter-HasCountedBut (length ts) (λ k. sent bpf smp k r) t (enter bpf smp c cx p flags t) c
        (choosing cx p flags) once e refl refl refl refl (λ k. refl)
        (run-HasCountedBut (omega arith) h r)
  run-HasCountedBut lt h (asks {ts = ts} {t = t} c r once e) =
      goes_on (length ts) (λ k. sent bpf smp k r) (λ k. sent bpf smp k r) t (ask bpf smp c t) c
        (asking order) idle once e refl refl refl refl (λ k. refl) (run-HasCountedBut lt h r)
  run-HasCountedBut lt h (advances {ts = ts} {t = t} c r once) =
      advance_from-HasCountedBut (length ts) (λ k. sent bpf smp k r) lt t (run-HasCountedBut lt h r)
        c once (t.pcs c) refl
  run-HasCountedBut lt h (writes {ts = ts} {t = t} d m slices r) =
      let k = run-HasCountedBut lt h r in
      record {
        size = k.size;
        stats = k.stats;
        entry = k.entry;
        counted = k.counted;
        credited = k.credited;
      }

  none_credited : (n : ℕ) (s : Stats) → CountedBut n 0 0 s → n ≡ 0 → (k : Route) → counter k s ≡ 0
  none_credited n s h z cpu = omega (arith, h.enqueued, h.routed, z)
  none_credited n s h z npu = omega (arith, h.enqueued, h.routed, z)
  none_credited n s h z eff = omega (arith, h.enqueued, h.routed, z)

  -- Where the statistics map has an entry, ai_sched_init has run and every CPU is in no hook: in every
  -- interleaving of the CPUs with each other and with user space, with fewer than 2 ^ 64 tasks taken up,
  -- and at each of its moments, tasks_enqueued and the tasks that a CPU has in its hands and has still to
  -- count are together the tasks taken up; the counter of each route (AI tasks in the performance queue,
  -- tasks in the NPU's queue, tasks in the efficiency queue) and the tasks that a CPU has still to credit
  -- to it are together the tasks that select_dsq sent on that route; the three counters and the tasks
  -- counted and not yet past the second addition are together at most tasks_enqueued; and the counters of
  -- dispatched tasks, latency and energy are 0.
  pub cores_count :
      (s : AiSched bpf smp.scx) {t : Cores bpf smp} {ts : List Task}
      → 0 < bpf.max_entries s.sched_stats
      → length ts < u64_mod
      → (r : Run bpf smp cpus (record { shared = init bpf smp.scx s; pcs = λ c. idle }) ts t)
      → HasCountedBut (length ts) (λ k. sent bpf smp k r) t
  cores_count s size lt r =
      let h : HasCounted bpf smp.scx 0 (init bpf smp.scx s) = init-HasCounted bpf smp.scx s size in
      let k = h.counted in
      let k' : CountedBut 0 0 0 h.stats = record {
        enqueued = omega (arith, k.enqueued);
        routed = omega (arith, k.routed);
        dispatched = k.dispatched;
        latency = k.latency;
        energy = k.energy;
      } in
      let none_on_the_way = total-const uncounted (λ c. idle) cpus idle refl (λ c. refl) in
      run-HasCountedBut lt
        (record {
          size = h.size;
          stats = h.stats;
          entry = h.entry;
          counted = rw none_on_the_way k';
          credited = λ j. omega (
            arith,
            none_credited 0 h.stats k' refl j,
            total-const (owed j) (λ c. idle) cpus idle refl (λ c. refl),
          );
        })
        r
