-- ===== src/Top.antt =====
-- tools/cli/aie_top.cpp: the monitor, which shows two pinned maps of the scheduler over and over. The
-- frames drawn around the rows are left out, and so are the parts of a screen that never change.
pub mod Dashboard
use Prim.Native.String.{String}
use ai_optimized_kernel_and.Prelude.{
  ℕ, Bool, true, false, Option, none, some, List, [], ◌∷◌, ◌==◌, if◌then◌else◌,
}
use ai_optimized_kernel_and.Types.{Stats, empty_stats}
use ai_optimized_kernel_and.Types.Energy
use ai_optimized_kernel_and.Config.Bytes.{bytes_eq}
use ai_optimized_kernel_and.Ipc.Libbpf.{is_negative}

unfoldable pub energy_mode_str : ℕ → String
energy_mode_str mode =
    if mode == Energy.performance
    then "PERFORMANCE"
    else if mode == Energy.balanced
    then "BALANCED"
    else if mode == Energy.efficient
    then "EFFICIENT"
    else if mode == Energy.power_saver
    then "POWER_SAVER"
    else "UNKNOWN"

-- The rows of display_stats.
unfoldable pub display_stats : Stats → List (String × ℕ)
display_stats s =
    ("Total Tasks Enqueued:", s.tasks_enqueued)
    ∷ ("Total Tasks Dispatched:", s.tasks_dispatched)
    ∷ ("AI Tasks → Perf Cores:", s.tasks_ai_routed_cpu)
    ∷ ("AI Tasks → NPU:", s.tasks_ai_routed_npu)
    ∷ ("Background → Eff Cores:", s.tasks_bg_routed_eff)
    ∷ ("Avg Enqueue Latency:", s.avg_enqueue_latency_us)
    ∷ ("Estimated Energy (~):", s.total_energy_estimate_mj)
    ∷ []

-- What a round of main's loop displays: whether the statistics are live, their rows, the energy mode, and
-- the seconds between rounds.
pub record Screen : Type 0 where
  pub live : Bool
  pub rows : List (String × ℕ)
  pub energy : String
  pub seconds : ℕ

-- The statistics that a round shows, and whether they are live: `lookup` is what bpf_map_lookup_elem
-- finds under key 0 for a descriptor.
unfoldable pub read_stats : ℕ → (ℕ → Option Stats) → Stats × Bool
read_stats fd lookup =
    if is_negative fd
    then (empty_stats, false)
    else elim (lookup fd) [ none ↦ (empty_stats, false) | some s ↦ (s, true) ]

unfoldable pub read_mode : ℕ → (ℕ → Option ℕ) → ℕ
read_mode fd lookup = if is_negative fd then 1 else elim (lookup fd) [ none ↦ 1 | some mode ↦ mode ]

-- A round of main's loop, for the descriptors of the two pinned maps.
unfoldable pub refresh : ℕ → ℕ → ℕ → (ℕ → Option Stats) → (ℕ → Option ℕ) → Screen
unfolding read_stats read_mode display_stats energy_mode_str
refresh seconds stats_fd energy_fd lookup_stats lookup_mode =
    let (stats, live) = read_stats stats_fd lookup_stats in
    let energy_mode = read_mode energy_fd lookup_mode in
    record {
      live = live;
      rows = display_stats stats;
      energy = energy_mode_str energy_mode;
      seconds = seconds;
    }

-- What a round reads of the kernel: what bpf_map_lookup_elem finds for a descriptor of each map.
pub record Moment : Type 0 where
  pub lookup_stats : ℕ → Option Stats
  pub lookup_mode : ℕ → Option ℕ

-- The loop of main: the rounds that it makes until a signal comes.
unfoldable pub watch : ℕ → ℕ → ℕ → List Moment → List Screen
watch seconds stats_fd energy_fd [] = []
watch seconds stats_fd energy_fd (m ∷ ms) =
    refresh seconds stats_fd energy_fd m.lookup_stats m.lookup_mode
    ∷ watch seconds stats_fd energy_fd ms

-- `if (fd >= 0) close(fd)`: the descriptors that are closed
abbrev pub close_open : ℕ → List ℕ → List ℕ
close_open fd rest = if is_negative fd then rest else fd ∷ rest

-- "-n" and "-h"
abbrev pub minus_n : List ℕ
minus_n = 45 ∷ 110 ∷ []

abbrev pub minus_h : List ℕ
minus_h = 45 ∷ 104 ∷ []

-- The loop of main over its arguments: the seconds between rounds, or `none` for the help text. The
-- first parameter is the C library's atoi.
unfoldable pub parse_args : (List ℕ → ℕ) → ℕ → List (List ℕ) → Option ℕ
parse_args atoi seconds [] = some seconds
parse_args atoi seconds (a ∷ []) = if bytes_eq a minus_h then none else some seconds
parse_args atoi seconds (a ∷ b ∷ rest) =
    let taken = parse_args atoi (atoi b) rest in
    let kept = parse_args atoi seconds (b ∷ rest) in
    if bytes_eq a minus_n then taken else if bytes_eq a minus_h then none else kept

-- main, with the descriptors that bpf_obj_get returns: `none` where it prints the help text, or the
-- screens and the descriptors that it closes at the end. Its return code is 0.
unfoldable pub main :
    (List ℕ → ℕ) → List (List ℕ) → ℕ → ℕ → List Moment → Option (List Screen × List ℕ)
unfolding parse_args watch
main atoi args stats_fd energy_fd moments = elim (parse_args atoi 2 args) [
  | none ↦ none
  | some seconds ↦
      some (watch seconds stats_fd energy_fd moments, close_open stats_fd (close_open energy_fd []))
]
