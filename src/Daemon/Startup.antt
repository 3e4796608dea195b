-- ===== src/Daemon/Startup.antt =====
-- The start of the daemon: which connections it needs, and which classifier it chooses.
use ai_optimized_kernel_and.Prelude.{
  ◌≡◌, ◌⊎◌, refl, Bool, true, false, ◌&&◌, none, some, [], arith, if◌then◌else◌,
}
use ai_optimized_kernel_and.Onnx
use ai_optimized_kernel_and.Onnx.{Runtime}
use ai_optimized_kernel_and.Config
use ai_optimized_kernel_and.Config.Bytes.{bytes_eq}
use ai_optimized_kernel_and.Config.RoundTrip.{print, assign_all, AllClean, load-print}
use ai_optimized_kernel_and.Ipc.Libbpf.{Libbpf, minus_one}
use ai_optimized_kernel_and.Ipc.Reader
use ai_optimized_kernel_and.Ipc.Writer
use ai_optimized_kernel_and.Ipc.Settings
use ai_optimized_kernel_and.Ipc.Monitor
use ai_optimized_kernel_and.Classifier
use ai_optimized_kernel_and.Daemon.{
  Surroundings, Engine, heuristic, onnx, create, init, engine_of, engine_init, classifier_key,
  model_path_key, heuristic_word, onnx_word,
}

-- Whether libbpf gives the reader all that it asks for.
abbrev pub reader_works : Libbpf → Bool
reader_works b = b.opens && b.loads && b.finds_map && b.makes_ring

module _ (rt : Runtime) where
  engine_init-zero : (e : Engine rt) → engine_init rt e ≡ 0
  unfolding engine_init Classifier.init Onnx.init
  engine_init-zero heuristic = refl
  engine_init-zero (onnx c) = refl

  -- The daemon starts exactly if its telemetry reader connects: then it runs, with the classifier
  -- that its configuration names; otherwise init returns -1 and it does not run and has no
  -- classifier. Nothing that the scheduler's own object, the configuration or the devices do stops it.
  pub init_starts :
      (w : Surroundings)
      → let (code, s) = init rt w (create rt w) in
        (reader_works w.reader_bpf ≡ true)
          × (code ≡ 0)
          × (s.running ≡ true)
          × (s.classifier ≡ some (engine_of rt w.conf))
        ⊎ (reader_works w.reader_bpf ≡ false)
          × (code ≡ minus_one)
          × (s.running ≡ false)
          × (s.classifier ≡ none)
  unfolding init create Reader.connect Writer.connect Settings.connect Monitor.connect
  init_starts w = ground (arith, engine_init-zero (engine_of rt w.conf))

  no_file : engine_of rt none ≡ heuristic
  unfolding engine_of Config.load Config.get Config.find bytes_eq
  no_file = refl

  -- A configuration file that was written from clean bindings makes the daemon use the ONNX classifier
  -- exactly if the last value of `classifier` is "onnx", with the last value of `model_path`, and
  -- the heuristic one otherwise, as without a file.
  engine_of-print :
      (bs : Config.Data)
      → AllClean bs
      → let m = assign_all bs [] in
        (engine_of rt (some (print bs)) ≡ (
          if bytes_eq (Config.get classifier_key heuristic_word m) onnx_word
          then onnx (Onnx.create rt (Config.get model_path_key [] m))
          else heuristic))
        × (engine_of rt none ≡ heuristic)
  unfolding engine_of
  engine_of-print bs h = (rw (engine_of, load-print bs [] h), no_file)
