-- ===== src/AiSched/Cores/Alone.antt =====
-- A CPU on which no other CPU intervenes runs the hooks as AiSched.Hooks has them.
use ai_optimized_kernel_and.Prelude.{
  ℕ, ◌<◌, ◌≡◌, refl, ap, inl, inr, Bool-cases, List, [], ◌∷◌, zero, suc, length, update_self,
  if◌then◌else◌,
}
use ai_optimized_kernel_and.Bpf.Maps.{Maps}
use ai_optimized_kernel_and.Bpf.Smp.{Smp}
use ai_optimized_kernel_and.Types.{Stats}
use ai_optimized_kernel_and.AiSched.Task.{Task}
use ai_optimized_kernel_and.AiSched.Policy.{select_dsq}
use ai_optimized_kernel_and.AiSched.Hooks.{
  Context, choose, count_task, update_stats, enqueue, try_dsq, dispatch,
}
use ai_optimized_kernel_and.AiSched.Dispatch.{order, try_all}
use ai_optimized_kernel_and.AiSched.Cores.{
  Pc, idle, choosing, emitting, routing, counting, crediting, inserting, asking, count_enqueued,
  count_routed, change_stats, Cores, advance_from, advance, enter, ask,
}

-- The two additions one after the other are the counting of the task.
count_routed-count_enqueued :
    (c dsq : ℕ) (s : Stats) → count_routed c dsq (count_enqueued s) ≡ count_task c dsq s
unfolding count_routed count_enqueued count_task
count_routed-count_enqueued c dsq s = refl

module _ (bpf : Maps) (smp : Smp Task) where
  change_stats-update_stats :
      (m : bpf.Array Stats) (c dsq : ℕ)
      → 0 < bpf.max_entries m
      → change_stats bpf (count_routed c dsq) (change_stats bpf count_enqueued m)
        ≡ update_stats bpf m c dsq
  unfolding change_stats update_stats
  change_stats-update_stats m c dsq size =
      let (s, e) = bpf.array_present m 0 size in
      let a : change_stats bpf count_enqueued m ≡ bpf.array_update m 0 (count_enqueued s) =
        rw (change_stats, e) refl in
      let b : change_stats bpf (count_routed c dsq) (bpf.array_update m 0 (count_enqueued s))
          ≡ bpf.array_update (bpf.array_update m 0 (count_enqueued s)) 0
              (count_routed c dsq (count_enqueued s)) =
        rw (change_stats, bpf.array_update_self m 0 (count_enqueued s) size) refl in
      rw
        (
          a,
          b,
          bpf.array_update_again m 0 (count_enqueued s) (count_routed c dsq (count_enqueued s)),
          count_routed-count_enqueued c dsq s,
          update_stats,
          e,
        )
        refl

  -- The first `n` steps of a CPU on its own.
  unfoldable pub alone : ℕ → ℕ → Cores bpf smp → Cores bpf smp
  alone zero c t = t
  alone (suc n) c t = alone n c (advance bpf smp c t)

  advance-at :
      (t : Cores bpf smp) (c : ℕ) (pc : Pc)
      → t.pcs c ≡ pc
      → advance bpf smp c t ≡ advance_from bpf smp pc c t
  unfolding advance
  advance-at t c pc e = rw e refl

  -- The six steps of an enqueue on a CPU are the hook.
  enqueue-alone :
      (c : ℕ) (cx : Context) (p : Task) (flags : ℕ) (t : Cores bpf smp)
      → 0 < bpf.max_entries t.shared.sched_stats
      → let t' = alone 6 c (enter bpf smp c cx p flags t) in
        (t'.shared ≡ enqueue bpf smp.scx cx p flags t.shared) × (t'.pcs c ≡ idle)
  unfolding alone advance_from enqueue
  enqueue-alone c cx p flags t size =
      let ch = choose bpf t.shared.sched_decisions t.shared.time_slices p in
      let d = select_dsq bpf t.shared.energy_mode ch.task_class ch.preferred_device in
      let t0 = enter bpf smp c cx p flags t in
      let t1 = advance_from bpf smp (choosing cx p flags) c t0 in
      let t2 = advance_from bpf smp (emitting cx p flags ch) c t1 in
      let t3 = advance_from bpf smp (routing p flags ch) c t2 in
      let t4 = advance_from bpf smp (counting p flags ch d) c t3 in
      let t5 = advance_from bpf smp (crediting p flags ch d) c t4 in
      rw
        (
          advance-at t0 c (choosing cx p flags) (update_self t.pcs c (choosing cx p flags)),
          advance-at t1 c (emitting cx p flags ch) (update_self t0.pcs c (emitting cx p flags ch)),
          advance-at t2 c (routing p flags ch) (update_self t1.pcs c (routing p flags ch)),
          advance-at t3 c (counting p flags ch d) (update_self t2.pcs c (counting p flags ch d)),
          advance-at t4 c (crediting p flags ch d) (update_self t3.pcs c (crediting p flags ch d)),
          advance-at t5 c (inserting p flags ch d) (update_self t4.pcs c (inserting p flags ch d)),
          change_stats-update_stats t.shared.sched_stats ch.task_class d size,
        )
        (refl, update_self t5.pcs c idle)

  alone-idle : (n c : ℕ) (t : Cores bpf smp) → t.pcs c ≡ idle → alone n c t ≡ t
  unfolding alone advance_from
  alone-idle zero c t e = refl
  alone-idle (suc n) c t e = rw (advance-at t c idle e) (alone-idle n c t e)

  try_dsq-move_on :
      (d : ℕ) (rest : smp.scx.State → smp.scx.State) (s : smp.scx.State)
      → let (moved, q) = smp.move_on s smp.here d in
        try_dsq smp.scx d rest s ≡ (if moved then q else rest q)
  unfolding try_dsq
  try_dsq-move_on d rest s = rw smp.here_move refl

  -- The steps of a dispatch on the CPU that the queues are observed from.
  asking-alone :
      (ds : List ℕ) (t : Cores bpf smp)
      → t.pcs smp.here ≡ asking ds
      → let t' = alone (suc (length ds)) smp.here t in
        (t'.shared ≡ record t.shared { dsqs = try_all smp.scx ds t.shared.dsqs })
        × (t'.pcs smp.here ≡ idle)
  unfolding alone advance_from
  asking-alone [] t e =
      rw (advance-at t smp.here (asking []) e) (refl, update_self t.pcs smp.here idle)
  asking-alone (d ∷ ds) t e =
      let c = smp.here in
      let t1 = advance_from bpf smp (asking (d ∷ ds)) c t in
      let (moved, q) = smp.move_on t.shared.dsqs c d in
      let at : alone (suc (suc (length ds))) c t ≡ alone (suc (length ds)) c t1 =
        ap (λ u. alone (suc (length ds)) c u) (advance-at t c (asking (d ∷ ds)) e) in
      let m = try_dsq-move_on d (try_all smp.scx ds) t.shared.dsqs in
      elim (Bool-cases moved) [
        | inl y ↦
            let i : t1.pcs c ≡ idle =
              rw (update_self t.pcs c (if moved then idle else asking ds), y) refl in
            let k : q ≡ try_dsq smp.scx d (try_all smp.scx ds) t.shared.dsqs = rw (m, y) refl in
            rw (at, alone-idle (suc (length ds)) c t1 i) (rw k refl, i)
        | inr n ↦
            let i : t1.pcs c ≡ asking ds =
              rw (update_self t.pcs c (if moved then idle else asking ds), n) refl in
            let k : try_all smp.scx ds q ≡ try_dsq smp.scx d (try_all smp.scx ds) t.shared.dsqs =
              rw (m, n) refl in
            let (a, b) = asking-alone ds t1 i in rw at (rw (a, k) refl, b)
      ]

  -- On a CPU that no other CPU and no write of user space interrupts, the six steps of ai_sched_enqueue
  -- change the maps and queues as the hook as a whole does, where the statistics map has an entry, and
  -- so do the steps of ai_sched_dispatch, on the CPU that the queues are observed from; after them the
  -- CPU is in no hook.
  hooks_alone :
      (c : ℕ) (cx : Context) (p : Task) (flags : ℕ) (t : Cores bpf smp)
      → 0 < bpf.max_entries t.shared.sched_stats
      → let t' = alone 6 c (enter bpf smp c cx p flags t) in
        let t'' = alone 6 smp.here (ask bpf smp smp.here t) in
        (t'.shared ≡ enqueue bpf smp.scx cx p flags t.shared)
        × (t'.pcs c ≡ idle)
        × (t''.shared ≡ dispatch bpf smp.scx t.shared)
        × (t''.pcs smp.here ≡ idle)
  unfolding dispatch
  hooks_alone c cx p flags t size =
      let (a, b) = enqueue-alone c cx p flags t size in
      let (x, y) =
        asking-alone order (ask bpf smp smp.here t) (update_self t.pcs smp.here (asking order)) in
      (a, b, x, y)
