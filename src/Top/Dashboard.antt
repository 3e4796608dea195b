-- ===== src/Top/Dashboard.antt =====
-- What tools/cli/aie_top.cpp shows of the statistics that kernel/ai_sched.bpf.c keeps.
use ai_optimized_kernel_and.Prelude.{
  ℕ, ◌+◌, ◌<◌, ◌≡◌, refl, true, false, some, List, [], ◌∷◌, u64_mod, arith,
}
use ai_optimized_kernel_and.Bpf.Maps.{Maps}
use ai_optimized_kernel_and.Bpf.Scx.{Scx}
use ai_optimized_kernel_and.Types.{Stats}
use ai_optimized_kernel_and.AiSched.Task.{Task}
use ai_optimized_kernel_and.AiSched.Hooks.{AiSched, init}
use ai_optimized_kernel_and.AiSched.Counting.{
  Event, run, enqueue_count, HasCounted, run-HasCounted, init-HasCounted,
}
use ai_optimized_kernel_and.Ipc.Libbpf.{is_negative}
use ai_optimized_kernel_and.Top.{
  Screen, Moment, energy_mode_str, display_stats, refresh, read_stats, read_mode, watch, parse_args,
  main,
}

module _ (bpf : Maps) (scx : Scx Task) where
  -- What the screen shows of the scheduler after `n` enqueues: every row with its label, the routes with
  -- the kernel's counters, and 0 for all that the scheduler never counts; and the mode of the kernel's map.
  pub record Shows (n seconds : ℕ) (t : AiSched bpf scx) (screen : Screen) : Type 0 where
    pub live : screen.live ≡ true
    pub stats : Stats
    pub entry : bpf.array_lookup t.sched_stats 0 ≡ some stats
    pub rows :
        screen.rows
        ≡ ("Total Tasks Enqueued:", n)
          ∷ ("Total Tasks Dispatched:", 0)
          ∷ ("AI Tasks → Perf Cores:", stats.tasks_ai_routed_cpu)
          ∷ ("AI Tasks → NPU:", stats.tasks_ai_routed_npu)
          ∷ ("Background → Eff Cores:", stats.tasks_bg_routed_eff)
          ∷ ("Avg Enqueue Latency:", 0)
          ∷ ("Estimated Energy (~):", 0)
          ∷ []
    pub energy :
        (mode : ℕ)
        → bpf.array_lookup t.energy_mode 0 ≡ some mode
        → screen.energy ≡ energy_mode_str mode
    pub interval : screen.seconds ≡ seconds

  -- A round while the scheduler is in a state.
  abbrev pub moment : AiSched bpf scx → Moment
  moment t = record {
    lookup_stats = λ fd. bpf.array_lookup t.sched_stats 0;
    lookup_mode = λ fd. bpf.array_lookup t.energy_mode 0;
  }

  refresh-Shows :
      (n seconds : ℕ) (t : AiSched bpf scx) (stats_fd energy_fd : ℕ)
      → HasCounted bpf scx n t
      → is_negative stats_fd ≡ false
      → is_negative energy_fd ≡ false
      → let m = moment t in
        Shows n seconds t (refresh seconds stats_fd energy_fd m.lookup_stats m.lookup_mode)
  unfolding refresh read_stats read_mode display_stats
  refresh-Shows n seconds t stats_fd energy_fd h pinned pinned' =
      let c = h.counted in
      record {
        live = rw (pinned, h.entry) refl;
        stats = h.stats;
        entry = h.entry;
        rows = rw (pinned, h.entry, c.enqueued, c.dispatched, c.latency, c.energy) refl;
        energy = λ mode e. rw (pinned', e) refl;
        interval = refl;
      }

  -- The rounds of the monitor, each after a part of the scheduler's history.
  abbrev pub moments : List (List (Event bpf scx)) → AiSched bpf scx → List Moment
  moments [] s = []
  moments (es ∷ parts) s = moment (run bpf scx es s) ∷ moments parts (run bpf scx es s)

  abbrev pub total : List (List (Event bpf scx)) → ℕ
  total [] = 0
  total (es ∷ parts) = enqueue_count bpf scx es + total parts

  -- Each screen shows the scheduler as it is then, after so many enqueues.
  abbrev pub AllShow : ℕ → ℕ → AiSched bpf scx → List (List (Event bpf scx)) → List Screen → Type 0
  AllShow seconds n s [] [] = Unit {0}
  AllShow seconds n s [] (x ∷ xs) = ⊥
  AllShow seconds n s (es ∷ parts) [] = ⊥
  AllShow seconds n s (es ∷ parts) (x ∷ xs) =
      Shows (n + enqueue_count bpf scx es) seconds (run bpf scx es s) x
      × AllShow seconds (n + enqueue_count bpf scx es) (run bpf scx es s) parts xs

  watch-AllShow :
      (parts : List (List (Event bpf scx))) (seconds n : ℕ) (s : AiSched bpf scx)
      (stats_fd energy_fd : ℕ)
      → n + total parts < u64_mod
      → HasCounted bpf scx n s
      → is_negative stats_fd ≡ false
      → is_negative energy_fd ≡ false
      → AllShow seconds n s parts (watch seconds stats_fd energy_fd (moments parts s))
  unfolding watch
  watch-AllShow [] seconds n s stats_fd energy_fd few h pinned pinned' = tt
  watch-AllShow (es ∷ parts) seconds n s stats_fd energy_fd few h pinned pinned' =
      let k = run-HasCounted bpf scx es n s (omega arith) h in
      let m = n + enqueue_count bpf scx es in
      (
        refresh-Shows m seconds (run bpf scx es s) stats_fd energy_fd k pinned pinned',
        watch-AllShow parts seconds m (run bpf scx es s) stats_fd energy_fd (omega arith) k pinned
            pinned',
      )

  -- Where the statistics map has an entry and both maps are pinned, the monitor, unless it was asked for
  -- its help text, displays in each of its rounds, however the scheduler's history goes on between them:
  -- that it is live; the seven rows of display_stats, with the number of all enqueues since
  -- ai_sched_init, which are fewer than 2 ^ 64, the kernel's present counters of the three routes, and 0
  -- for the dispatched tasks, the latency and the energy, however many dispatches there were; the name of
  -- the kernel's present energy mode, if the map has one; and the seconds of its arguments. At its end it
  -- closes the two descriptors.
  pub main-AllShow :
      (atoi : List ℕ → ℕ) (args : List (List ℕ)) (seconds : ℕ) (parts : List (List (Event bpf scx)))
      (s : AiSched bpf scx) (stats_fd energy_fd : ℕ)
      → parse_args atoi 2 args ≡ some seconds
      → 0 < bpf.max_entries s.sched_stats
      → total parts < u64_mod
      → is_negative stats_fd ≡ false
      → is_negative energy_fd ≡ false
      → (screens : List Screen) × (main atoi args stats_fd energy_fd
            (moments parts (init bpf scx s))
          ≡ some (screens, stats_fd ∷ energy_fd ∷ []))
        × AllShow seconds 0 (init bpf scx s) parts screens
  unfolding main
  main-AllShow atoi args seconds parts s stats_fd energy_fd e room few pinned pinned' = (
    watch seconds stats_fd energy_fd (moments parts (init bpf scx s)),
    rw (main, e, pinned, pinned') refl,
    watch-AllShow parts seconds 0 (init bpf scx s) stats_fd energy_fd (omega arith)
        (init-HasCounted bpf scx s room) pinned pinned',
  )
