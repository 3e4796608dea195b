-- ===== src/AiSched/Cores/Settling.antt =====
-- How the hooks of kernel/ai_sched.bpf.c end on several CPUs, and what they leave.
use mathlib.Core.List.{Perm}
use ai_optimized_kernel_and.Prelude.{
  ℕ, ◌<◌, ◌≤◌, ◌≡◌, ◌≢◌, ◌⊎◌, inl, inr, refl, arith, Bool-cases, List, [], ◌∷◌, ◌++◌, suc, length,
  map, ◌==◌, if◌then◌else◌, u64_mod, update, update_self, update_ne, total-const, Once, gather,
}
use native.Mathlib.Decide.{ℕ_discrete}
use ai_optimized_kernel_and.Bpf.Maps.{Maps}
use ai_optimized_kernel_and.Bpf.Smp.{Smp}
use ai_optimized_kernel_and.AiSched.Task.{Task}
use ai_optimized_kernel_and.AiSched.Hooks.{AiSched, init}
use ai_optimized_kernel_and.AiSched.Dispatch.{order}
use ai_optimized_kernel_and.AiSched.Counting.{HasCounted}
use ai_optimized_kernel_and.AiSched.Cores.{
  Pc, idle, choosing, emitting, routing, counting, crediting, inserting, asking, Cores,
  advance_from, advance, Run, here, enters, asks, advances, writes,
}
use ai_optimized_kernel_and.AiSched.Cores.Conservation.{cores_conserve}
use ai_optimized_kernel_and.AiSched.Cores.Moves.{carried, entries}
use ai_optimized_kernel_and.AiSched.Cores.Counters.{
  uncounted, uncredited, Route, counter, owed, sent,
}
use ai_optimized_kernel_and.AiSched.Cores.Counting.{cores_count}

-- How many steps a CPU has to the end of its hook, at most.
abbrev pub left : Pc → ℕ
left idle = 0
left (choosing cx p flags) = 6
left (emitting cx p flags ch) = 5
left (routing p flags ch) = 4
left (counting p flags ch d) = 3
left (crediting p flags ch d) = 2
left (inserting p flags ch d) = 1
left (asking ds) = suc (length ds)

pub left-idle : (pc : Pc) → left pc ≤ 0 → pc ≡ idle
left-idle idle h = refl
left-idle (choosing cx p flags) h = absurd (omega (arith, h))
left-idle (emitting cx p flags ch) h = absurd (omega (arith, h))
left-idle (routing p flags ch) h = absurd (omega (arith, h))
left-idle (counting p flags ch d) h = absurd (omega (arith, h))
left-idle (crediting p flags ch d) h = absurd (omega (arith, h))
left-idle (inserting p flags ch d) h = absurd (omega (arith, h))
left-idle (asking ds) h = absurd (omega (arith, h))

gather-idle :
    (pcs : ℕ → Pc) (cs : List ℕ) → ((c : ℕ) → pcs c ≡ idle) → gather cs (λ c. carried (pcs c)) ≡ []
gather-idle pcs [] e = refl
gather-idle pcs (c ∷ cs) e = rw (e c, gather-idle pcs cs e) refl

-- How often a CPU has its turn.
abbrev pub turns : ℕ → List ℕ → ℕ
turns c [] = 0
turns c (x ∷ xs) = let n = turns c xs in if x == c then suc n else n

abbrev pub AllOnce : List ℕ → List ℕ → Type 0
AllOnce cpus [] = Unit {0}
AllOnce cpus (c ∷ cs) = Once c cpus × AllOnce cpus cs

module _ (bpf : Maps) (smp : Smp Task) where
  -- The steps of the CPUs in the order of their turns.
  unfoldable pub advance_all : List ℕ → Cores bpf smp → Cores bpf smp
  advance_all [] t = t
  advance_all (c ∷ cs) t = advance_all cs (advance bpf smp c t)

  pub advance_from-left :
      (t : Cores bpf smp) (c : ℕ) (pc : Pc) (k : ℕ)
      → t.pcs c ≡ pc
      → left pc ≤ suc k
      → left ((advance_from bpf smp pc c t).pcs c) ≤ k
  unfolding advance_from
  advance_from-left t c idle k e h = rw e (omega arith)
  advance_from-left t c (choosing cx p flags) k e h = rw update_self (omega arith)
  advance_from-left t c (emitting cx p flags ch) k e h = rw update_self (omega arith)
  advance_from-left t c (routing p flags ch) k e h = rw update_self (omega arith)
  advance_from-left t c (counting p flags ch d) k e h = rw update_self (omega arith)
  advance_from-left t c (crediting p flags ch d) k e h = rw update_self (omega arith)
  advance_from-left t c (inserting p flags ch d) k e h = rw update_self (omega arith)
  advance_from-left t c (asking []) k e h = rw update_self (omega arith)
  advance_from-left t c (asking (d ∷ ds)) k e h =
      let moved = (smp.move_on t.shared.dsqs c d).0 in
      rw (update_self t.pcs c (if moved then idle else asking ds))
        (elim (Bool-cases moved) [ inl y ↦ rw y (omega arith) | inr n ↦ rw n (omega arith) ])

  pub advance_from-ne :
      (t : Cores bpf smp) (c c' : ℕ) (pc : Pc)
      → c' ≢ c
      → (advance_from bpf smp pc c t).pcs c' ≡ t.pcs c'
  unfolding advance_from
  advance_from-ne t c c' idle ne = refl
  advance_from-ne t c c' (choosing cx p flags) ne = update_ne t.pcs c c' _ ne
  advance_from-ne t c c' (emitting cx p flags ch) ne = update_ne t.pcs c c' _ ne
  advance_from-ne t c c' (routing p flags ch) ne = update_ne t.pcs c c' _ ne
  advance_from-ne t c c' (counting p flags ch d) ne = update_ne t.pcs c c' _ ne
  advance_from-ne t c c' (crediting p flags ch d) ne = update_ne t.pcs c c' _ ne
  advance_from-ne t c c' (inserting p flags ch d) ne = update_ne t.pcs c c' _ ne
  advance_from-ne t c c' (asking []) ne = update_ne t.pcs c c' _ ne
  advance_from-ne t c c' (asking (d ∷ ds)) ne = update_ne t.pcs c c' _ ne

  advance-left :
      (t : Cores bpf smp) (x c k : ℕ)
      → left (t.pcs c) ≤ (if x == c then suc k else k)
      → left ((advance bpf smp x t).pcs c) ≤ k
  unfolding advance
  advance-left t x c k h = elim (ℕ_discrete c x) [
    | yes e ↦ rw e (advance_from-left t x (t.pcs x) k refl (ground (arith, rw e at h)))
    | no ne ↦ rw (advance_from-ne t x c (t.pcs x) ne) (ground (arith, h))
  ]

  advance_all-idle :
      (cs : List ℕ) (t : Cores bpf smp) (c : ℕ)
      → left (t.pcs c) ≤ turns c cs
      → (advance_all cs t).pcs c ≡ idle
  unfolding advance_all
  advance_all-idle [] t c h = left-idle (t.pcs c) h
  advance_all-idle (x ∷ cs) t c h =
      advance_all-idle cs (advance bpf smp x t) c (advance-left t x c (turns c cs) h)

  module _ (cpus : List ℕ) where
    -- A CPU is in no hook, or it is one of those that run, with six steps at most to go.
    abbrev Standing : Cores bpf smp → ℕ → Type 0
    Standing t c = (t.pcs c ≡ idle) ⊎ (Once c cpus × (left (t.pcs c) ≤ 6))

    advance-Standing :
        (t : Cores bpf smp) (x : ℕ)
        → Once x cpus
        → ((c : ℕ) → Standing t c)
        → (c : ℕ) → Standing (advance bpf smp x t) c
    unfolding advance
    advance-Standing t x once all c = elim (ℕ_discrete c x) [
      | yes e ↦ rw e (elim (all x) [
        | inl i ↦ inl (left-idle _ (advance_from-left t x (t.pcs x) 0 refl (rw i (omega arith))))
        | inr (_, h) ↦ inr (once, advance_from-left t x (t.pcs x) 6 refl (omega (arith, h)))
      ])
      | no ne ↦ rw (advance_from-ne t x c (t.pcs x) ne) (all c)
    ]

    start-Standing :
        (pcs : ℕ → Pc) (x : ℕ) (pc : Pc) (c : ℕ)
        → Once x cpus
        → left pc ≤ 6
        → (pcs c ≡ idle) ⊎ (Once c cpus × (left (pcs c) ≤ 6))
        → (update pcs x pc c ≡ idle) ⊎ (Once c cpus × (left (update pcs x pc c) ≤ 6))
    start-Standing pcs x pc c once h old = elim (ℕ_discrete c x) [
      | yes e ↦ rw (e, update_self pcs x pc) (inr (once, h))
      | no ne ↦ rw (update_ne pcs x c pc ne) old
    ]

    Run-Standing :
        {s t : Cores bpf smp} {ts : List Task}
        → ((c : ℕ) → s.pcs c ≡ idle)
        → Run bpf smp cpus s ts t
        → (c : ℕ) → Standing t c
    Run-Standing none here c = inl (none c)
    Run-Standing none (enters {t = t} x cx p flags r once e) c =
        start-Standing t.pcs x (choosing cx p flags) c once (omega arith) (Run-Standing none r c)
    Run-Standing none (asks {t = t} x r once e) c =
        start-Standing t.pcs x (asking order) c once (omega arith) (Run-Standing none r c)
    Run-Standing none (advances {t = t} x r once) c =
        advance-Standing t x once (Run-Standing none r) c
    Run-Standing none (writes d m slices r) c = Run-Standing none r c

    -- The run goes on with these turns.
    unfoldable pub extend :
        {s : Cores bpf smp} {ts : List Task} (cs : List ℕ) (t : Cores bpf smp)
        → AllOnce cpus cs
        → Run bpf smp cpus s ts t
        → Run bpf smp cpus s ts (advance_all cs t)
    unfolding advance_all
    extend [] t once r = r
    extend (c ∷ cs) t (once, rest) r = extend cs (advance bpf smp c t) rest (advances c r once)

    -- Where the statistics map has an entry, ai_sched_init has run and every CPU is in no hook: whatever
    -- the CPUs and user space do then, in any interleaving with fewer than 2 ^ 64 enqueues, as soon as
    -- each CPU has had six more turns, in any order, every hook has ended; tasks_enqueued is the number of
    -- enqueues, and the counter of each route is the number of tasks that select_dsq sent on it; the
    -- counters of dispatched tasks, latency and energy are 0; and the tasks of the local queues and of
    -- the five queues are, up to their order, those of the start and the enqueued ones.
    pub cores_settle :
        (s : AiSched bpf smp.scx) (t : Cores bpf smp) (ts : List Task) (cs : List ℕ)
        → 0 < bpf.max_entries s.sched_stats
        → length ts < u64_mod
        → (r : Run bpf smp cpus (record { shared = init bpf smp.scx s; pcs = λ c. idle }) ts t)
        → (once : AllOnce cpus cs) → ((c : ℕ) → Once c cpus → 6 ≤ turns c cs)
        → let t' = advance_all cs t in
          let s' : Cores bpf smp = record { shared = init bpf smp.scx s; pcs = λ c. idle } in
          ((c : ℕ) → t'.pcs c ≡ idle)
          × ((h : HasCounted bpf smp.scx (length ts) t'.shared) × ((k : Route)
                → counter k h.stats ≡ sent bpf smp k (extend cs t once r)))
          × Perm
              (map (λ e. e.task) (entries bpf smp cpus t'))
              (ts ++ map (λ e. e.task) (entries bpf smp cpus s'))
    cores_settle s t ts cs size lt r once enough =
        let t' = advance_all cs t in
        let r' = extend cs t once r in
        let ended : (c : ℕ) → t'.pcs c ≡ idle = λ c.
          advance_all-idle cs t c (elim (Run-Standing (λ c'. refl) r c) [
            | inl i ↦ rw i (omega arith)
            | inr (o, h) ↦ omega (arith, h, enough c o)
          ]) in
        let h = cores_count bpf smp cpus s size lt r' in
        let k = h.counted in
        let a = total-const uncounted t'.pcs cpus idle refl ended in
        let b = total-const uncredited t'.pcs cpus idle refl ended in
        let p = cores_conserve bpf smp cpus (λ c. tt) r' in
        (
          ended,
          (
            record {
              size = h.size;
              stats = h.stats;
              entry = h.entry;
              counted = record {
                enqueued = omega (arith, k.enqueued, a);
                routed = omega (arith, k.routed, b);
                dispatched = k.dispatched;
                latency = k.latency;
                energy = k.energy;
              };
            },
            λ j. omega (arith, h.credited j, total-const (owed j) t'.pcs cpus idle refl ended),
          ),
          rw (gather-idle t'.pcs cpus ended, gather-idle (λ c. idle) cpus (λ c. refl)) at p,
        )
