-- ===== src/Daemon/Reports.antt =====
-- What the main loop of daemon/aie_daemon.cpp prints of the scheduler's statistics.
use Prim.Native.String.{String}
use ai_optimized_kernel_and.Prelude.{
  ℕ, ◌≡◌, refl, ◌∙◌, inl, inr, Option, some, Option-cases, List, [], ◌∷◌, ◌++◌, arith, ◌==◌,
  if◌then◌else◌,
}
use ai_optimized_kernel_and.Types.{Telemetry, Stats}
use ai_optimized_kernel_and.Onnx.{Runtime}
use ai_optimized_kernel_and.Ipc.Libbpf.{minus_one}
use ai_optimized_kernel_and.Ipc.Reader
use ai_optimized_kernel_and.Ipc.Monitor
use ai_optimized_kernel_and.Daemon.{
  AieDaemon, Surroundings, create, init, classify_pending_tasks, push_decisions, telemetry_round,
}
use ai_optimized_kernel_and.Daemon.Rounds.{Clock, Round, telemetry, decisions, round, rounds}

module _ (rt : Runtime) where
  -- The body of the loop of run: the rows that it prints. The first two parameters are what
  -- bpf_map_lookup_elem finds for a descriptor, and the memory of the local variable.
  unfoldable pub main_round : (ℕ → Option Stats) → Stats → AieDaemon rt → List (String × ℕ)
  unfolding Monitor.print_stats
  main_round lookup memory s =
      let (code, stats) = Monitor.read_stats s.stats lookup (some memory) in
      if code == 0 then Monitor.print_stats stats else []

  init-stats : (w : Surroundings) → (init rt w (create rt w)).1.stats.stats_map_fd ≡ minus_one
  unfolding init create Monitor.connect
  init-stats w = ground arith

  classify_pending_tasks-stats :
      (clock : Clock) (s : AieDaemon rt) → (classify_pending_tasks rt clock s).stats ≡ s.stats
  unfolding classify_pending_tasks
  classify_pending_tasks-stats clock s = elim (Option-cases s.classifier) [
    | inl e ↦ ground (arith, e)
    | inr (a, e) ↦ ground (arith, e)
  ]

  round-stats : (r : Round) (x : Telemetry × AieDaemon rt) → (round rt r x).1.stats ≡ x.1.stats
  unfolding round telemetry_round push_decisions
  round-stats (telemetry clock poll) (t, s) =
      let t' = (Reader.read_sample s.telemetry_reader poll t).1 in
      let s' = record s { pending_telemetry = s.pending_telemetry ++ t' ∷ [] } in
      ground (arith, classify_pending_tasks-stats clock s')
  round-stats decisions (t, s) = ground arith

  rounds-stats :
      (rs : List Round) (x : Telemetry × AieDaemon rt) → (rounds rt rs x).1.stats ≡ x.1.stats
  unfolding rounds
  rounds-stats [] x = refl
  rounds-stats (r ∷ rs) x = rounds-stats rs (round rt r x) ∙ round-stats r x

  -- The daemon never prints the statistics: after init in any surroundings and any rounds of its
  -- workers, a round of its main loop prints no row, whatever the kernel's map holds.
  pub never_reports :
      (w : Surroundings) (rs : List Round) (sample : Telemetry) (lookup : ℕ → Option Stats)
      (memory : Stats)
      → main_round lookup memory (rounds rt rs (sample, (init rt w (create rt w)).1)).1 ≡ []
  unfolding main_round Monitor.read_stats
  never_reports w rs sample lookup memory =
      let e = rounds-stats rs (sample, (init rt w (create rt w)).1) in
      rw (main_round, e, init-stats w) refl
