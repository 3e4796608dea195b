-- ===== src/Ipc/Settings.antt =====
-- daemon/ipc/ipc_interface.cpp: class SchedulerConfig.
use ai_optimized_kernel_and.Prelude.{ℕ, if◌then◌else◌}
use ai_optimized_kernel_and.Types.Energy
use ai_optimized_kernel_and.Ipc.Libbpf.{minus_one, is_negative}

pub record SchedulerConfig : Type 0 where
  pub energy_mode_map_fd : ℕ
  pub time_slices_map_fd : ℕ

-- the constructor
abbrev pub create : SchedulerConfig
create = record { energy_mode_map_fd = minus_one; time_slices_map_fd = minus_one }

unfoldable pub connect : SchedulerConfig → ℕ × SchedulerConfig
connect c = (0, c)

-- What these two compute from their arguments is not used.
unfoldable pub set_energy_mode : SchedulerConfig → ℕ → ℕ
set_energy_mode c mode = if is_negative c.energy_mode_map_fd then minus_one else 0

unfoldable pub set_time_slice : SchedulerConfig → ℕ → ℕ → ℕ
set_time_slice c task_class time_slice_us =
    if is_negative c.time_slices_map_fd then minus_one else 0

unfoldable pub get_energy_mode : SchedulerConfig → ℕ
get_energy_mode c = Energy.balanced

unfoldable pub get_time_slice : SchedulerConfig → ℕ → ℕ
get_time_slice c task_class = 5000000
