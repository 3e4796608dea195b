-- ===== src/AiSched/Cores/Provenance.antt =====
-- Where the class, the time slice and the queue of an enqueue of kernel/ai_sched.bpf.c come from, when user
-- space and other CPUs run meanwhile.
use ai_optimized_kernel_and.Prelude.{◌≢◌, ◌⊎◌, ℕ, ◌≡◌, List}
use ai_optimized_kernel_and.Bpf.Maps.{Maps}
use ai_optimized_kernel_and.Bpf.Smp.{Smp}
use ai_optimized_kernel_and.AiSched.Task.{Task}
use ai_optimized_kernel_and.AiSched.Policy.{select_dsq}
use ai_optimized_kernel_and.AiSched.Hooks.{Context, Choice, choose}
use ai_optimized_kernel_and.AiSched.Cores.{
  Pc, choosing, emitting, routing, counting, crediting, inserting, Cores, advance, enter, ask, Run,
  here, enters, asks, advances, writes,
}

module _ (bpf : Maps) (smp : Smp Task) (cpus : List ℕ) where
  -- The CPU is about to choose for this call, and the choice is the one that the maps then give.
  abbrev pub Chosen : ℕ → Task → ℕ → Choice → Cores bpf smp → Type 0
  Chosen c p flags ch u =
      (cx : Context) × (u.pcs c ≡ choosing cx p flags)
      × (ch ≡ choose bpf u.shared.sched_decisions u.shared.time_slices p)

  -- The CPU is about to route this choice, and the queue is the one that select_dsq then gives.
  abbrev pub Routed : ℕ → Task → ℕ → Choice → ℕ → Cores bpf smp → Type 0
  Routed c p flags ch d u =
      (u.pcs c ≡ routing p flags ch)
      × (d ≡ select_dsq bpf u.shared.energy_mode ch.task_class ch.preferred_device)

  module _ (s : Cores bpf smp) where
    -- A state of the run, since the CPU began its last hook.
    abbrev pub InCall :
        {ts : List Task} {t : Cores bpf smp}
        → ℕ
        → (Cores bpf smp → Type 0)
        → Run bpf smp cpus s ts t
        → Type 0
    InCall c P here = P s
    InCall c P (enters {t = t} x cx p flags r once e) =
        P (enter bpf smp x cx p flags t) ⊎ ((c ≢ x) × InCall c P r)
    InCall c P (asks {t = t} x r once e) = P (ask bpf smp x t) ⊎ ((c ≢ x) × InCall c P r)
    InCall c P (advances {t = t} x r once) = P (advance bpf smp x t) ⊎ InCall c P r
    InCall c P (writes {t = t} d m slices r) =
        P (record t {
          shared = record t.shared { sched_decisions = d; energy_mode = m; time_slices = slices };
        })
        ⊎ InCall c P r

    -- What a CPU has settled in its hook, it has settled at some moment of it.
    abbrev IsJustified :
        {ts : List Task} {t : Cores bpf smp} → ℕ → Run bpf smp cpus s ts t → Pc → Type 0
    IsJustified c r (emitting cx p flags ch) = InCall c (Chosen c p flags ch) r
    IsJustified c r (routing p flags ch) = InCall c (Chosen c p flags ch) r
    IsJustified c r (counting p flags ch d) =
        InCall c (Chosen c p flags ch) r × InCall c (Routed c p flags ch d) r
    IsJustified c r (crediting p flags ch d) =
        InCall c (Chosen c p flags ch) r × InCall c (Routed c p flags ch d) r
    IsJustified c r (inserting p flags ch d) =
        InCall c (Chosen c p flags ch) r × InCall c (Routed c p flags ch d) r
    IsJustified c r _ = Unit {0}
