-- ===== src/Ipc/Stubs.antt =====
-- What the connections of daemon/ipc/ipc_interface.cpp do and do not do once the daemon has connected.
use ai_optimized_kernel_and.Prelude.{
  ℕ, ◌≡◌, ◌⊎◌, true, false, ◌&&◌, Option, none, some, arith, [], ◌∷◌,
}
use ai_optimized_kernel_and.Types.{Telemetry, Stats}
use ai_optimized_kernel_and.Ipc.Libbpf.{Libbpf, minus_one}
use ai_optimized_kernel_and.Ipc.Reader
use ai_optimized_kernel_and.Ipc.Writer
use ai_optimized_kernel_and.Ipc.Settings
use ai_optimized_kernel_and.Ipc.Monitor

-- The reader connects exactly if libbpf opens and loads the object, finds the ring buffer's map and
-- makes a ring buffer of it; after a failure, and after a disconnect, every read fails.
reader_connects :
    (b : Libbpf) (poll : ℕ) (sample : Telemetry)
    → let (code, r) = Reader.connect b Reader.create in
      (((b.opens && b.loads && b.finds_map && b.makes_ring) ≡ true)
          × (code ≡ 0)
          × (Reader.read_sample r poll sample ≡ (poll, sample))
        ⊎ ((b.opens && b.loads && b.finds_map && b.makes_ring) ≡ false)
          × (code ≡ minus_one)
          × (Reader.read_sample r poll sample ≡ (minus_one, sample)))
      × (Reader.read_sample (Reader.disconnect r) poll sample ≡ (minus_one, sample))
unfolding Reader.connect Reader.read_sample Reader.disconnect
reader_connects b poll sample = ground arith

-- The descriptor of the scheduler's map that the constructor opened is lost when the writer connects:
-- a later disconnect closes descriptor 1, the standard output, and nothing else.
disconnect_closes_stdout :
    (b : Libbpf) → (Writer.disconnect (Writer.connect (Writer.create b)).1).1 ≡ 1 ∷ []
unfolding Writer.disconnect Writer.connect Writer.create
disconnect_closes_stdout b = ground arith

-- After connecting, no energy mode and no time slice can be set and no statistics can be read: each of
-- these calls returns -1, whatever its arguments and whatever is in the kernel's maps.
settings_never_reach :
    (mode c us : ℕ) (lookup : ℕ → Option Stats) (old : Option Stats)
    → let s = (Settings.connect Settings.create).1 in
      let m = (Monitor.connect Monitor.create).1 in
      (Settings.set_energy_mode s mode ≡ minus_one)
      × (Settings.set_time_slice s c us ≡ minus_one)
      × (Monitor.read_stats m lookup old ≡ (minus_one, old))
unfolding Settings.connect Settings.set_energy_mode Settings.set_time_slice Monitor.connect
    Monitor.read_stats
settings_never_reach mode c us lookup none = ground arith
settings_never_reach mode c us lookup (some old) = ground arith
