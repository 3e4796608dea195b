-- ===== src/Ipc/Libbpf.antt =====
-- What daemon/ipc/ipc_interface.cpp takes from libbpf and from the C library.
use ai_optimized_kernel_and.Prelude.{ℕ, ◌^◌, Bool, leb}

abbrev pub minus_one : ℕ
minus_one = 0xFFFFFFFF

-- `fd < 0`
abbrev pub is_negative : ℕ → Bool
is_negative fd = leb (2 ^ 31) fd

-- How libbpf answers the calls that open a BPF object: bpf_object__open_file, bpf_object__load,
-- bpf_object__find_map_by_name, bpf_map__fd and ring_buffer__new.
pub record Libbpf : Type 0 where
  pub opens : Bool
  pub loads : Bool
  pub finds_map : Bool
  pub map_fd : ℕ
  pub makes_ring : Bool
