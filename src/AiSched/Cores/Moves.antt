-- ===== src/AiSched/Cores/Moves.antt =====
-- The tasks that the CPUs hold when kernel/ai_sched.bpf.c runs on several, and what moves them.
use mathlib.Core.List.{Perm, perm_middle}
use mathlib.Core.List.Perm
use ai_optimized_kernel_and.Prelude.{
  insert_at-Perm, ℕ, ◌<◌, ◌≡◌, inl, inr, refl, sym, ap, Option-cases, List, [], ◌∷◌, ◌++◌, map,
  append-nil, arith, take_first, take_first-Perm, Once, update, update_self, update_ne, gather,
  gather-ext, gather-Perm,
}
use native.Mathlib.Decide.{ℕ_discrete}
use ai_optimized_kernel_and.Bpf.Maps.{Maps}
use ai_optimized_kernel_and.Bpf.Scx.{Entry}
use ai_optimized_kernel_and.Bpf.Smp.{Smp}
use ai_optimized_kernel_and.AiSched.Task.{Task}
use ai_optimized_kernel_and.AiSched.Dispatch.{order}
use ai_optimized_kernel_and.AiSched.Conservation.{order-Once}
use ai_optimized_kernel_and.AiSched.Cores.{
  Pc, idle, choosing, emitting, routing, counting, crediting, inserting, asking, Cores,
}

-- The task that a CPU has in its hands.
abbrev pub carried : Pc → List Task
carried idle = []
carried (choosing cx p flags) = p ∷ []
carried (emitting cx p flags ch) = p ∷ []
carried (routing p flags ch) = p ∷ []
carried (counting p flags ch d) = p ∷ []
carried (crediting p flags ch d) = p ∷ []
carried (inserting p flags ch d) = p ∷ []
carried (asking ds) = []

pub carried-update :
    (pcs : ℕ → Pc) (c : ℕ) (pc : Pc)
    → carried pc ≡ carried (pcs c)
    → (c' : ℕ) → carried (update pcs c pc c') ≡ carried (pcs c')
carried-update pcs c pc h c' = elim (ℕ_discrete c' c) [
  | yes e ↦ rw (e, update_self pcs c pc) h
  | no ne ↦ rw (update_ne pcs c c' pc ne) refl
]

module _ (bpf : Maps) (smp : Smp Task) (cpus : List ℕ) where
  open smp use {scx, local_of, move_on}

  -- What the CPUs have in their hands, what was moved to their local queues, and what waits.
  abbrev pub in_flight : Cores bpf smp → List Task
  in_flight t = gather cpus (λ c. carried (t.pcs c))

  abbrev pub entries : Cores bpf smp → List (Entry Task)
  entries t = gather cpus (local_of t.shared.dsqs) ++ gather order (scx.queue t.shared.dsqs)

  abbrev pub tasks_of_all : Cores bpf smp → List Task
  tasks_of_all t = in_flight t ++ map (λ e. e.task) (entries t)

  -- A step that changes neither the queues nor what the CPU has in its hands.
  pub quiet :
      (s t : Cores bpf smp) (c : ℕ) (pc : Pc)
      → carried pc ≡ carried (s.pcs c)
      → t.pcs ≡ update s.pcs c pc
      → t.shared.dsqs ≡ s.shared.dsqs
      → Perm (tasks_of_all t) (tasks_of_all s)
  quiet s t c pc h e q =
      let g : in_flight t ≡ in_flight s = rw e (
        gather-ext (λ c'. carried (s.pcs c')) (λ c'. carried (update s.pcs c pc c')) cpus
          (carried-update s.pcs c pc h)) in
      rw (g, q) (Perm.refl (tasks_of_all s))

  pub move-Perm :
      (s : scx.State) (c d : ℕ)
      → Once c cpus
      → d < 5
      → let s' = (move_on s c d).1 in
        Perm
          (gather cpus (local_of s') ++ gather order (scx.queue s'))
          (gather cpus (local_of s) ++ gather order (scx.queue s))
  move-Perm s c d once lt = elim (Option-cases (take_first (smp.may_run_on c) (scx.queue s d))) [
    | inl n ↦ rw (smp.move_on_none s c d n) (Perm.refl _)
    | inr ((e, rest), n) ↦
        let s' = (move_on s c d).1 in
        let (_, left, ran) = smp.move_on_some s c d e rest n in
        let p : Perm (scx.queue s d) (e ∷ scx.queue s' d) =
          rw left (take_first-Perm (smp.may_run_on c) (scx.queue s d) e rest n) in
        let q : Perm (gather order (scx.queue s)) (e ∷ gather order (scx.queue s')) =
          gather-Perm (scx.queue s') (scx.queue s) d (λ d' ne. sym (smp.move_on_ne s c d d' ne))
            order e (order-Once d lt) p in
        let l : Perm (local_of s' c) (e ∷ local_of s c) =
          rw ran (rw append-nil at (perm_middle {a = e} (local_of s c) [])) in
        let m : Perm (gather cpus (local_of s')) (e ∷ gather cpus (local_of s)) =
          gather-Perm (local_of s) (local_of s') c (λ c' ne. smp.move_on_local_ne s c d c' ne) cpus
            e once l in
        Perm.trans (Perm.append_right (gather order (scx.queue s')) m) (
          Perm.trans
            (Perm.symm (perm_middle (gather cpus (local_of s)) (gather order (scx.queue s'))))
            (Perm.append_left (gather cpus (local_of s)) (Perm.symm q)))
  ]

  pub insert-Perm :
      (s : scx.State) (e : Entry Task) (d flags : ℕ)
      → d < 5
      → let s' = scx.dsq_insert s e d flags in
        Perm
          (gather cpus (local_of s') ++ gather order (scx.queue s'))
          (e ∷ gather cpus (local_of s) ++ gather order (scx.queue s))
  insert-Perm s e d flags lt =
      let s' = scx.dsq_insert s e d flags in
      let l : gather cpus (local_of s') ≡ gather cpus (local_of s) =
        gather-ext (local_of s) (local_of s') cpus
          (λ c. smp.insert_local_of s e d flags c (omega arith)) in
      let p : Perm (scx.queue s' d) (e ∷ scx.queue s d) =
        rw (scx.insert_self s e d flags (omega arith))
          (insert_at-Perm (scx.at_head flags) e (scx.queue s d)) in
      let q : Perm (gather order (scx.queue s')) (e ∷ gather order (scx.queue s)) =
        gather-Perm (scx.queue s) (scx.queue s') d (λ d' ne. scx.insert_ne s e d flags d' ne) order
          e (order-Once d lt) p in
      rw l (
        Perm.trans (Perm.append_left (gather cpus (local_of s)) q)
          (perm_middle (gather cpus (local_of s)) (gather order (scx.queue s))))

  -- A CPU that takes a task in its hands, or puts one down.
  pub take-Perm :
      (pcs : ℕ → Pc) (c : ℕ) (p : Task) (pc : Pc)
      → Once c cpus
      → carried (pcs c) ≡ []
      → carried pc ≡ p ∷ []
      → Perm
          (gather cpus (λ c'. carried (update pcs c pc c')))
          (p ∷ gather cpus (λ c'. carried (pcs c')))
  take-Perm pcs c p pc once h k =
      gather-Perm (λ c'. carried (pcs c')) (λ c'. carried (update pcs c pc c')) c
        (λ c' ne. ap carried (update_ne pcs c c' pc ne)) cpus p once
        (rw (update_self pcs c pc, h, k) (Perm.refl (p ∷ [])))

  pub put-Perm :
      (pcs : ℕ → Pc) (c : ℕ) (p : Task) (pc : Pc)
      → Once c cpus
      → carried (pcs c) ≡ p ∷ []
      → carried pc ≡ []
      → Perm
          (gather cpus (λ c'. carried (pcs c')))
          (p ∷ gather cpus (λ c'. carried (update pcs c pc c')))
  put-Perm pcs c p pc once h k =
      gather-Perm (λ c'. carried (update pcs c pc c')) (λ c'. carried (pcs c')) c
        (λ c' ne. ap carried (sym (update_ne pcs c c' pc ne))) cpus p once
        (rw (update_self pcs c pc, h, k) (Perm.refl (p ∷ [])))
