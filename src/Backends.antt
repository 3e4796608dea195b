-- ===== src/Backends.antt =====
-- ai/backends: the device manager and the CPU, GPU and NPU backends that it chooses from.
pub mod Selection
use Prim.Native.String.{String}
use ai_optimized_kernel_and.Prelude.{
  ℕ, ◌||◌, ◌&&◌, Bool, true, false, Option, none, some, ◌==◌, ltb, if◌then◌else◌,
}
use ai_optimized_kernel_and.Types.{Decision}
use ai_optimized_kernel_and.Types.Device

-- The classes CpuBackend, GpuBackend and NpuBackend.
pub data Backend : Type 0 where
  cpu gpu npu : Backend

-- What access(path, F_OK) and glob(pattern, ..) find on the machine: whether a path exists, and how
-- many paths match, `none` if glob fails.
pub record Host : Type 0 where
  pub exists : String → Bool
  pub glob : String → Option ℕ

-- class DeviceManager; a unique_ptr that is NULL is `none`.
pub record DeviceManager : Type 0 where
  pub cpu_backend : Option Backend
  pub gpu_backend : Option Backend
  pub npu_backend : Option Backend
  pub gpu_available : Bool
  pub npu_available : Bool

-- the constructor
abbrev pub fresh : DeviceManager
fresh = record {
  cpu_backend = none;
  gpu_backend = none;
  npu_backend = none;
  gpu_available = false;
  npu_available = false;
}

unfoldable pub detect_gpu : Host → Bool
detect_gpu h = if h.exists "/dev/dri" then true else h.exists "/dev/nvidia0"

unfoldable pub detect_npu : Host → Bool
detect_npu h =
    if h.exists "/dev/amdxdna"
    then true
    else elim (h.glob "/dev/npu*") [ none ↦ false | some n ↦ ltb 0 n ]

-- init, which returns 0 always
unfoldable pub init : Host → DeviceManager → DeviceManager
init h m = record {
  gpu_available = detect_gpu h;
  npu_available = detect_npu h;
  cpu_backend = some cpu;
  gpu_backend = if detect_gpu h then some gpu else m.gpu_backend;
  npu_backend = if detect_npu h then some npu else m.npu_backend;
}

abbrev is_some : Option Backend → Bool
is_some none = false
is_some (some b) = true

-- select_backend: the case of the NPU falls through to that of the GPU, and this to the CPU.
unfoldable pub select_gpu : DeviceManager → Option Backend
select_gpu m = if m.gpu_available && is_some m.gpu_backend then m.gpu_backend else m.cpu_backend

unfoldable pub select_backend : DeviceManager → ℕ → Option Backend
unfolding select_gpu
select_backend m device =
    if device == Device.npu
    then (if m.npu_available && is_some m.npu_backend then m.npu_backend else select_gpu m)
    else if device == Device.gpu
    then select_gpu m
    else m.cpu_backend

-- the name methods
unfoldable pub name : Backend → String
name cpu = "CPU"
name gpu = "GPU"
name npu = "NPU"

unfoldable pub backend_name : DeviceManager → ℕ → String
backend_name m device = elim (select_backend m device) [ none ↦ "unknown" | some b ↦ name b ]

-- The dispatch methods write one line to the system log: the backend and the PID.
unfoldable pub dispatch : Backend → Decision → Backend × ℕ
dispatch b d = (b, d.pid)
