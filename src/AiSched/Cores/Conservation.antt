-- ===== src/AiSched/Cores/Conservation.antt =====
-- No task is lost or duplicated when kernel/ai_sched.bpf.c runs on several CPUs.
use mathlib.Core.List.{Perm, perm_middle}
use mathlib.Core.List.Perm
use ai_optimized_kernel_and.Prelude.{
  ℕ, ◌<◌, ◌≡◌, inl, inr, refl, Bool-cases, List, [], ◌∷◌, ◌++◌, map, arith, Once, update,
  update-all, gather, gather-ext, if◌then◌else◌,
}
use ai_optimized_kernel_and.Bpf.Maps.{Maps}
use ai_optimized_kernel_and.Bpf.Scx.{Entry}
use ai_optimized_kernel_and.Bpf.Smp.{Smp}
use ai_optimized_kernel_and.AiSched.Task.{Task}
use ai_optimized_kernel_and.AiSched.Policy.{select_dsq}
use ai_optimized_kernel_and.AiSched.Hooks.{choose}
use ai_optimized_kernel_and.AiSched.Routing.{select_dsq-lt}
use ai_optimized_kernel_and.AiSched.Dispatch.{order}
use ai_optimized_kernel_and.AiSched.Conservation.{Below}
use ai_optimized_kernel_and.AiSched.Cores.{
  Pc, idle, choosing, emitting, routing, counting, crediting, inserting, asking, Cores,
  advance_from, advance, ask, Run, here, enters, asks, advances, writes,
}
use ai_optimized_kernel_and.AiSched.Cores.Moves.{
  carried, carried-update, quiet, move-Perm, insert-Perm, take-Perm, put-Perm, in_flight, entries,
  tasks_of_all,
}

-- The queues that a CPU has still to do with are the five.
abbrev pub IsPlaced : Pc → Type 0
IsPlaced (counting p flags ch d) = d < 5
IsPlaced (crediting p flags ch d) = d < 5
IsPlaced (inserting p flags ch d) = d < 5
IsPlaced (asking ds) = Below ds
IsPlaced _ = Unit {0}

module _ (bpf : Maps) (smp : Smp Task) (cpus : List ℕ) where
  open smp use {scx, local_of, move_on}

  module _ (t : Cores bpf smp) (placed : (c : ℕ) → IsPlaced (t.pcs c)) (c : ℕ)
      (once : Once c cpus) where
    advance_from-Perm :
        (pc : Pc)
        → t.pcs c ≡ pc
        → Perm
            (tasks_of_all bpf smp cpus (advance_from bpf smp pc c t))
            (tasks_of_all bpf smp cpus t)
    unfolding advance_from
    advance_from-Perm idle e = Perm.refl (tasks_of_all bpf smp cpus t)
    advance_from-Perm (choosing cx p flags) e =
        let ch = choose bpf t.shared.sched_decisions t.shared.time_slices p in
        quiet bpf smp cpus t (advance_from bpf smp (choosing cx p flags) c t) c
          (emitting cx p flags ch) (rw e refl) refl refl
    advance_from-Perm (emitting cx p flags ch) e =
        quiet bpf smp cpus t (advance_from bpf smp (emitting cx p flags ch) c t) c
          (routing p flags ch) (rw e refl) refl refl
    advance_from-Perm (routing p flags ch) e =
        let d = select_dsq bpf t.shared.energy_mode ch.task_class ch.preferred_device in
        quiet bpf smp cpus t (advance_from bpf smp (routing p flags ch) c t) c
          (counting p flags ch d) (rw e refl) refl refl
    advance_from-Perm (counting p flags ch d) e =
        quiet bpf smp cpus t (advance_from bpf smp (counting p flags ch d) c t) c
          (crediting p flags ch d) (rw e refl) refl refl
    advance_from-Perm (crediting p flags ch d) e =
        quiet bpf smp cpus t (advance_from bpf smp (crediting p flags ch d) c t) c
          (inserting p flags ch d) (rw e refl) refl refl
    advance_from-Perm (inserting p flags ch d) e =
        let lt : d < 5 = rw e at (placed c) in
        let x : Entry Task = record { task = p; slice = ch.time_slice_ns; vtime = 0 } in
        let a =
          Perm.map (λ (y : Entry Task). y.task)
            (insert-Perm bpf smp cpus t.shared.dsqs x d flags lt) in
        let b = put-Perm bpf smp cpus t.pcs c p idle once (rw e refl) refl in
        let f = gather cpus (λ c'. carried (update t.pcs c idle c')) in
        Perm.trans (Perm.append_left f a) (
          Perm.trans (perm_middle f (map (λ y. y.task) (entries bpf smp cpus t)))
            (Perm.symm (Perm.append_right (map (λ y. y.task) (entries bpf smp cpus t)) b)))
    advance_from-Perm (asking []) e =
        quiet bpf smp cpus t (advance_from bpf smp (asking []) c t) c idle (rw e refl) refl refl
    advance_from-Perm (asking (d ∷ ds)) e =
        let (lt, _) : (d < 5) × Below ds = rw e at (placed c) in
        let moved = (move_on t.shared.dsqs c d).0 in
        let pc : Pc = if moved then idle else asking ds in
        let h : carried pc ≡ carried (t.pcs c) =
          rw e (elim (Bool-cases moved) [ inl y ↦ rw y refl | inr n ↦ rw n refl ]) in
        let g : gather cpus (λ c'. carried (update t.pcs c pc c')) ≡ in_flight bpf smp cpus t =
          gather-ext (λ c'. carried (t.pcs c')) (λ c'. carried (update t.pcs c pc c')) cpus
            (carried-update t.pcs c pc h) in
        rw g (
          Perm.append_left (in_flight bpf smp cpus t) (
            Perm.map (λ (y : Entry Task). y.task)
              (move-Perm bpf smp cpus t.shared.dsqs c d once lt)))

  advance_from-IsPlaced :
      (t : Cores bpf smp)
      → ((c : ℕ) → IsPlaced (t.pcs c))
      → (c : ℕ) (pc : Pc) → t.pcs c ≡ pc
      → (c' : ℕ) → IsPlaced ((advance_from bpf smp pc c t).pcs c')
  unfolding advance_from
  advance_from-IsPlaced t placed c idle e = placed
  advance_from-IsPlaced t placed c (choosing cx p flags) e =
      let ch = choose bpf t.shared.sched_decisions t.shared.time_slices p in
      update-all IsPlaced t.pcs c (emitting cx p flags ch) tt placed
  advance_from-IsPlaced t placed c (emitting cx p flags ch) e =
      update-all IsPlaced t.pcs c (routing p flags ch) tt placed
  advance_from-IsPlaced t placed c (routing p flags ch) e =
      let d = select_dsq bpf t.shared.energy_mode ch.task_class ch.preferred_device in
      update-all IsPlaced t.pcs c (counting p flags ch d)
        (select_dsq-lt bpf t.shared.energy_mode ch.task_class ch.preferred_device) placed
  advance_from-IsPlaced t placed c (counting p flags ch d) e =
      update-all IsPlaced t.pcs c (crediting p flags ch d) (rw e at (placed c)) placed
  advance_from-IsPlaced t placed c (crediting p flags ch d) e =
      update-all IsPlaced t.pcs c (inserting p flags ch d) (rw e at (placed c)) placed
  advance_from-IsPlaced t placed c (inserting p flags ch d) e =
      update-all IsPlaced t.pcs c idle tt placed
  advance_from-IsPlaced t placed c (asking []) e = update-all IsPlaced t.pcs c idle tt placed
  advance_from-IsPlaced t placed c (asking (d ∷ ds)) e =
      let (_, below) : (d < 5) × Below ds = rw e at (placed c) in
      let moved = (move_on t.shared.dsqs c d).0 in
      update-all IsPlaced t.pcs c (if moved then idle else asking ds)
        (elim (Bool-cases moved) [ inl y ↦ rw y tt | inr n ↦ rw n below ]) placed

  Run-IsPlaced :
      {s t : Cores bpf smp} {ts : List Task}
      → ((c : ℕ) → IsPlaced (s.pcs c))
      → Run bpf smp cpus s ts t
      → (c : ℕ) → IsPlaced (t.pcs c)
  unfolding advance
  Run-IsPlaced placed here = placed
  Run-IsPlaced placed (enters {t = t} c cx p flags r once e) =
      update-all IsPlaced t.pcs c (choosing cx p flags) tt (Run-IsPlaced placed r)
  Run-IsPlaced placed (asks {t = t} c r once e) =
      update-all IsPlaced t.pcs c (asking order) (ground arith) (Run-IsPlaced placed r)
  Run-IsPlaced placed (advances {t = t} c r once) =
      advance_from-IsPlaced t (Run-IsPlaced placed r) c (t.pcs c) refl
  Run-IsPlaced placed (writes d m slices r) = Run-IsPlaced placed r

  -- However the CPUs interleave their enqueues and dispatches, and whatever user space writes meanwhile,
  -- the tasks that some CPU has in its hands, those moved to the local queue of a CPU, and those that wait
  -- in the five queues are together, up to their order, those of the start and the enqueued ones: no task
  -- is lost, and none is duplicated. At the start, the queues that a CPU has still to do with
  -- are among the five.
  pub cores_conserve :
      {s t : Cores bpf smp} {ts : List Task}
      → ((c : ℕ) → IsPlaced (s.pcs c))
      → Run bpf smp cpus s ts t
      → Perm (tasks_of_all bpf smp cpus t) (ts ++ tasks_of_all bpf smp cpus s)
  unfolding advance
  cores_conserve {s = s} placed here = Perm.refl (tasks_of_all bpf smp cpus s)
  cores_conserve placed (enters {t = t} c cx p flags r once e) =
      let k = map (λ (y : Entry Task). y.task) (entries bpf smp cpus t) in
      Perm.trans
        (Perm.append_right k
          (take-Perm bpf smp cpus t.pcs c p (choosing cx p flags) once (rw e refl) refl))
        (Perm.cons p (cores_conserve placed r))
  cores_conserve placed (asks {t = t} c r once e) =
      Perm.trans (quiet bpf smp cpus t (ask bpf smp c t) c (asking order) (rw e refl) refl refl)
        (cores_conserve placed r)
  cores_conserve placed (advances {t = t} c r once) =
      Perm.trans (advance_from-Perm t (Run-IsPlaced placed r) c once (t.pcs c) refl)
        (cores_conserve placed r)
  cores_conserve placed (writes d m slices r) = cores_conserve placed r
