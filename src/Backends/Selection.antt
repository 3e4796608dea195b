-- ===== src/Backends/Selection.antt =====
-- Which backend a decision gets, on a machine with or without accelerators.
use ai_optimized_kernel_and.Prelude.{ℕ, ◌≡◌, Bool, true, some, arith, ◌==◌, if◌then◌else◌, ◌&&◌}
use ai_optimized_kernel_and.Types.{Telemetry, Decision}
use ai_optimized_kernel_and.Types.Device
use ai_optimized_kernel_and.Classifier.{Timespec, classify, decision_for, select_device}
use ai_optimized_kernel_and.Backends.{
  Backend, cpu, gpu, npu, Host, DeviceManager, init, detect_gpu, detect_npu, select_backend,
}

-- Whether the machine has the device of a backend.
abbrev pub has_device : Host → Backend → Bool
has_device h cpu = true
has_device h gpu = detect_gpu h
has_device h npu = detect_npu h

-- The wish of a device code, with the ones to fall back to after it.
abbrev pub best_of : Host → ℕ → Backend
best_of h device =
    if device == Device.npu && has_device h npu
    then npu
    else if (device == Device.npu) && has_device h gpu
    then gpu
    else if (device == Device.gpu) && has_device h gpu
    then gpu
    else cpu

-- After init there is a backend for every device code: the one that was asked for where the machine has
-- it, the GPU in place of a missing NPU, and the CPU in place of all else; it never is one whose device
-- the machine lacks.
select_backend-init :
    (h : Host) (m : DeviceManager) (device : ℕ)
    → (select_backend (init h m) device ≡ some (best_of h device))
      × (has_device h (best_of h device) ≡ true)
unfolding select_backend init
select_backend-init h m device = ground arith

-- The heuristic classifier keeps every task on the CPU backend, whatever accelerators there are.
heuristic_stays_on_cpu :
    (h : Host) (m : DeviceManager) (now : Timespec) (t : Telemetry) (old d : Decision)
    → classify now (some t) (some old) ≡ some d
    → select_backend (init h m) d.preferred_device ≡ some cpu
unfolding classify decision_for select_device select_backend init
heuristic_stays_on_cpu h m now t old d e = ground arith
