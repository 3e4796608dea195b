-- ===== src/Classifier/Agreement.antt =====
-- The daemon's decisions as kernel/ai_sched.bpf.c carries them out.
use ai_optimized_kernel_and.Prelude.{ℕ, ◌*◌, ◌≡◌, ◌≢◌, some, arith, ◌<◌, ◌^◌}
use ai_optimized_kernel_and.Bpf.Maps.{Maps}
use ai_optimized_kernel_and.Bpf.Scx.{Scx}
use ai_optimized_kernel_and.Types.{Telemetry, Decision}
use ai_optimized_kernel_and.AiSched.Dsq
use ai_optimized_kernel_and.AiSched.Task.{Task}
use ai_optimized_kernel_and.AiSched.Policy.{get_energy_mode, dsq_of_class, dsq_of_decision}
use ai_optimized_kernel_and.AiSched.Hooks.{AiSched, Context, enqueue}
use ai_optimized_kernel_and.AiSched.Enqueue.{Inserts, enqueue_decided}
use ai_optimized_kernel_and.Classifier.{
  Timespec, classify, classify_heuristic, select_device, estimate_time_slice, decision_for,
}

-- The device that the daemon asks for never differs from the kernel's own choice for the class.
select_device-agrees :
    (energy c : ℕ) → dsq_of_decision energy c (select_device c) ≡ dsq_of_class energy c
unfolding dsq_of_decision dsq_of_class select_device
select_device-agrees energy c = ground arith

-- Microseconds lose nothing: every estimate is a whole number of them.
slice_round_trip :
    (now : Timespec) (t : Telemetry) (c : ℕ)
    → (decision_for now t c).time_slice_us * 1000 ≡ estimate_time_slice c
unfolding decision_for estimate_time_slice
slice_round_trip now t c = ground arith

slice-lt : (now : Timespec) (t : Telemetry) (c : ℕ) → (decision_for now t c).time_slice_us < 2 ^ 32
unfolding decision_for
slice-lt now t c = omega arith

enqueue_decided_for :
    (bpf : Maps) (scx : Scx Task) (cx : Context) (p : Task) (flags : ℕ) (s : AiSched bpf scx)
    (now : Timespec) (t : Telemetry) (c : ℕ)
    → bpf.hash_lookup s.sched_decisions p.tgid ≡ some (decision_for now t c)
    → Inserts bpf scx flags
        (record {
          dsq = dsq_of_class (get_energy_mode bpf s.energy_mode) c;
          entry = record { task = p; slice = estimate_time_slice c; vtime = 0 };
        })
        s
        (enqueue bpf scx cx p flags s)
unfolding decision_for
enqueue_decided_for bpf scx cx p flags s now t c look = rw (slice_round_trip now t c) at (
    rw select_device-agrees at
      (enqueue_decided bpf scx cx p flags s (decision_for now t c) look (slice-lt now t c)))

-- Once a decision of the classifier stands in the kernel's map, an enqueue of the task puts it
-- into the queue that the kernel chooses for that class, with exactly the estimated time slice: at the
-- head if the flags ask for it, and else at the end.
pub decision_carried_out :
    (bpf : Maps) (scx : Scx Task) (cx : Context) (p : Task) (flags : ℕ) (s : AiSched bpf scx)
    (now : Timespec) (t : Telemetry) (old d : Decision)
    → classify now (some t) (some old) ≡ some d
    → bpf.hash_lookup s.sched_decisions p.tgid ≡ some d
    → let c = classify_heuristic (some t) in
      Inserts bpf scx flags
        (record {
          dsq = dsq_of_class (get_energy_mode bpf s.energy_mode) c;
          entry = record { task = p; slice = estimate_time_slice c; vtime = 0 };
        })
        s
        (enqueue bpf scx cx p flags s)
unfolding classify
decision_carried_out bpf scx cx p flags s now t old d e look =
    let c = classify_heuristic (some t) in
    let made : d ≡ decision_for now t c = ground arith in
    enqueue_decided_for bpf scx cx p flags s now t c (rw made at look)

-- No decision of the classifier sends a task to the GPU or the NPU, in whatever energy mode.
no_accelerator :
    (now : Timespec) (t : Telemetry) (old d : Decision) (energy : ℕ)
    → classify now (some t) (some old) ≡ some d
    → (dsq_of_decision energy d.task_class d.preferred_device ≢ Dsq.gpu)
      × (dsq_of_decision energy d.task_class d.preferred_device ≢ Dsq.npu)
unfolding classify decision_for select_device dsq_of_decision
no_accelerator now t old d energy e = ground arith
