-- ===== src/Ipc/Reader.antt =====
-- daemon/ipc/ipc_interface.cpp: class TelemetryReader.
use ai_optimized_kernel_and.Prelude.{ℕ, Bool, true, false, not, if◌then◌else◌}
use ai_optimized_kernel_and.Types.{Telemetry}
use ai_optimized_kernel_and.Ipc.Libbpf.{Libbpf, minus_one}

pub record TelemetryReader : Type 0 where
  pub ringbuf_ctx : Bool
  pub ringbuf_fd : ℕ
  pub obj : Bool

-- the constructor
abbrev pub create : TelemetryReader
create = record { ringbuf_ctx = false; ringbuf_fd = minus_one; obj = false }

-- connect: the return code, and the reader as the last successful step left it
unfoldable pub connect : Libbpf → TelemetryReader → ℕ × TelemetryReader
connect b r =
    if not b.opens
    then (minus_one, record r { obj = false })
    else if not b.loads
    then (minus_one, record r { obj = true })
    else if not b.finds_map
    then (minus_one, record r { obj = true })
    else if not b.makes_ring
    then (minus_one, record r { obj = true; ringbuf_fd = b.map_fd; ringbuf_ctx = false })
    else (0, record r { obj = true; ringbuf_fd = b.map_fd; ringbuf_ctx = true })

-- read_sample: the return code, and the caller's sample, which is not written. The second argument is
-- what ring_buffer__poll returns; the samples that it consumed went to the callback that prints them.
unfoldable pub read_sample : TelemetryReader → ℕ → Telemetry → ℕ × Telemetry
read_sample r poll sample = if not r.ringbuf_ctx then (minus_one, sample) else (poll, sample)

-- disconnect
unfoldable pub disconnect : TelemetryReader → TelemetryReader
disconnect r = record { ringbuf_ctx = false; obj = false; ringbuf_fd = minus_one }
