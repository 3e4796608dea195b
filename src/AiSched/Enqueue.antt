-- ===== src/AiSched/Enqueue.antt =====
-- ai_sched_init and ai_sched_enqueue of kernel/ai_sched.bpf.c: where a task goes and what is kept.
use ai_optimized_kernel_and.Prelude.{
  insert_at, ℕ, zero, suc, ◌*◌, ap, ◌∙◌, ◌^◌, ◌<◌, ◌≡◌, refl, ◌≢◌, ◌⊎◌, inl, inr, some, none, arith,
  [], ◌∷◌, ◌++◌, true, Option-cases,
}
use ai_optimized_kernel_and.Bpf.Maps.{Maps}
use ai_optimized_kernel_and.Bpf.Scx.{Scx, Entry}
use ai_optimized_kernel_and.Types.{Telemetry, Decision}
use ai_optimized_kernel_and.Types.Device
use ai_optimized_kernel_and.AiSched.Task.{Task}
use ai_optimized_kernel_and.AiSched.Policy.{get_energy_mode, select_dsq, dsq_of_decision}
use ai_optimized_kernel_and.AiSched.Hooks.{
  AiSched, Context, Choice, choose, emit_telemetry, sample_of, init, enqueue,
}
use ai_optimized_kernel_and.AiSched.Routing.{select_dsq-lt}

-- The queue and the entry that an enqueue of the task leads to.
pub record Target : Type 0 where
  pub dsq : ℕ
  pub entry : Entry Task

below_five : (P : ℕ → Type 0) → P 0 → P 1 → P 2 → P 3 → P 4 → (d : ℕ) → d < 5 → P d
below_five P p q r s t zero h = p
below_five P p q r s t (suc zero) h = q
below_five P p q r s t (suc (suc zero)) h = r
below_five P p q r s t (suc (suc (suc zero))) h = s
below_five P p q r s t (suc (suc (suc (suc zero)))) h = t
below_five P p q r s t (suc (suc (suc (suc (suc n))))) h = absurd (omega arith)

emit_telemetry_cases :
    (bpf : Maps) (cx : Context) (p : Task) (r : bpf.Ring Telemetry)
    → ((bpf.ringbuf_reserve r ≡ none) × (bpf.samples (emit_telemetry bpf cx p r) ≡ bpf.samples r))
      ⊎ ((bpf.ringbuf_reserve r ≢ none)
          × (bpf.samples (emit_telemetry bpf cx p r) ≡ bpf.samples r ++ sample_of cx p ∷ []))
unfolding emit_telemetry
emit_telemetry_cases bpf cx p r = elim (Option-cases (bpf.ringbuf_reserve r)) [
  | inl e ↦ inl (e, rw (emit_telemetry, e))
  | inr ((stale, r'), e) ↦ inr (
    (λ h. ground (arith, e, h)),
    rw (emit_telemetry, e)
        (bpf.submit_samples r' (sample_of cx p)
          ∙ ap (λ l. l ++ sample_of cx p ∷ []) (bpf.reserve_samples r stale r' e)),
  )
]

module _ (bpf : Maps) (scx : Scx Task) where
  -- The queue and the entry that a choice leads to.
  abbrev pub target_of : Choice → Task → bpf.Array ℕ → Target
  target_of ch p m = record {
    dsq = select_dsq bpf m ch.task_class ch.preferred_device;
    entry = record { task = p; slice = ch.time_slice_ns; vtime = 0 };
  }

  -- What an enqueue at the target leaves: the task is the first of one queue where the flags ask for the
  -- head, and else the last, and no other queue, no decision and no setting has changed.
  pub record Inserts (flags : ℕ) (t : Target) (s s' : AiSched bpf scx) : Type 0 where
    pub inserted :
        scx.queue s'.dsqs t.dsq ≡ insert_at (scx.at_head flags) t.entry (scx.queue s.dsqs t.dsq)
    pub others : (d : ℕ) → d ≢ t.dsq → scx.queue s'.dsqs d ≡ scx.queue s.dsqs d
    pub decisions : s'.sched_decisions ≡ s.sched_decisions
    pub energy : s'.energy_mode ≡ s.energy_mode
    pub slices : s'.time_slices ≡ s.time_slices

  pub enqueue-Inserts :
      (cx : Context) (p : Task) (flags : ℕ) (s : AiSched bpf scx)
      → Inserts flags
          (target_of (choose bpf s.sched_decisions s.time_slices p) p s.energy_mode)
          s
          (enqueue bpf scx cx p flags s)
  unfolding enqueue
  enqueue-Inserts cx p flags s = record {
    inserted =
        let ch = choose bpf s.sched_decisions s.time_slices p in
        let lt = select_dsq-lt bpf s.energy_mode ch.task_class ch.preferred_device in
        scx.insert_self _ _ _ flags (omega arith);
    others = λ d h. scx.insert_ne _ _ _ flags d h;
    decisions = refl;
    energy = refl;
    slices = refl;
  }

  choose_decided :
      (h : bpf.Hash Decision) (m : bpf.Array ℕ) (p : Task) (d : Decision)
      → bpf.hash_lookup h p.tgid ≡ some d
      → d.time_slice_us < 2 ^ 32
      → choose bpf h m p ≡ record {
        task_class = d.task_class;
        preferred_device = d.preferred_device;
        time_slice_ns = d.time_slice_us * 1000;
      }
  unfolding choose
  choose_decided h m p d e lt = ground (arith, e)

  pub enqueue_decided :
      (cx : Context) (p : Task) (flags : ℕ) (s : AiSched bpf scx) (d : Decision)
      → bpf.hash_lookup s.sched_decisions p.tgid ≡ some d
      → d.time_slice_us < 2 ^ 32
      → Inserts flags
          (record {
            dsq =
                dsq_of_decision (get_energy_mode bpf s.energy_mode) d.task_class d.preferred_device;
            entry = record { task = p; slice = d.time_slice_us * 1000; vtime = 0 };
          })
          s
          (enqueue bpf scx cx p flags s)
  unfolding select_dsq
  enqueue_decided cx p flags s d e lt =
      rw (choose_decided _ s.time_slices p d e lt) at (enqueue-Inserts cx p flags s)

  -- Whatever class and device it is given, select_dsq names a queue that ai_sched_init has created.
  init_creates_target :
      (s : AiSched bpf scx) (m : bpf.Array ℕ) (c device : ℕ)
      → scx.is_created (init bpf scx s).dsqs (select_dsq bpf m c device) ≡ true
  unfolding init
  init_creates_target s m c device =
      below_five (λ d. scx.is_created (init bpf scx s).dsqs d ≡ true)
        (keeps (keeps (keeps (keeps new)))) (keeps (keeps (keeps new))) (keeps (keeps new))
        (keeps new) new (select_dsq bpf m c device) (select_dsq-lt bpf m c device)
    where
      new : {t : scx.State} {d : ℕ} → scx.is_created (scx.create_dsq t d) d ≡ true
      new {t} {d} = scx.create_self t d

      keeps :
          {t : scx.State} {d e : ℕ}
          → scx.is_created t e ≡ true
          → scx.is_created (scx.create_dsq t d) e ≡ true
      keeps {t} {d} {e} h = scx.create_keeps t d e h

  -- Where the ring buffer has room, the consumer gets one more sample for the enqueue, the fields of
  -- the task as they are; where it is full, none.
  pub enqueue_emits :
      (cx : Context) (p : Task) (flags : ℕ) (s : AiSched bpf scx)
      → let r = s.telemetry_ringbuf in
        let r' = (enqueue bpf scx cx p flags s).telemetry_ringbuf in
        ((bpf.ringbuf_reserve r ≡ none) × (bpf.samples r' ≡ bpf.samples r))
        ⊎ ((bpf.ringbuf_reserve r ≢ none) × (bpf.samples r' ≡ bpf.samples r ++ sample_of cx p ∷ []))
  unfolding enqueue
  enqueue_emits cx p flags s = emit_telemetry_cases bpf cx p s.telemetry_ringbuf
