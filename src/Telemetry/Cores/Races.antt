-- ===== src/Telemetry/Cores/Races.antt =====
-- The system call that kernel/telemetry.bpf.c loses when two CPUs insert the record of a PID.
use ai_optimized_kernel_and.Prelude.{
  ℕ, ◌≡◌, ◌≢◌, inl, inr, refl, sym, ◌∙◌, arith, none, some, Option-cases, [], ◌∷◌, update,
  update_self, update_ne,
}
use ai_optimized_kernel_and.Bpf.Maps.{Maps}
use ai_optimized_kernel_and.Bpf.Elements.{Elements}
use ai_optimized_kernel_and.Telemetry.{Accum, zero_accum, count_syscall}
use ai_optimized_kernel_and.Telemetry.Counters.{Fits, update_present}
use ai_optimized_kernel_and.Telemetry.Cores.{
  Cores, counts_call, Pc, idle, looking, inserting, looking_again, adding, after_lookup,
  advance_from, advance, advance_all,
}
use ai_optimized_kernel_and.Telemetry.Cores.Steps.{advance-at}

module _ (bpf : Maps) (elements : Elements bpf Accum) where
  open elements use {Ptr, element, read, change}

  -- A record that can be inserted can be looked up, and the element holds it.
  Fits-element :
      (m : bpf.Hash Accum) (k : ℕ) (a : Accum)
      → bpf.hash_lookup m k ≡ some a
      → (q : Ptr) × (element m k ≡ some q) × (read m q ≡ some a)
  Fits-element m k a fits = elim (Option-cases (element m k)) [
    | inl n ↦ ground (arith, n, fits, elements.lookup_element m k)
    | inr (q, e) ↦ (q, e, (sym (rw e at (elements.lookup_element m k))) ∙ fits)
  ]

  change-lookup :
      (m : bpf.Hash Accum) (k : ℕ) (q : Ptr) (a : Accum)
      → element m k ≡ some q
      → read m q ≡ some a
      → bpf.hash_lookup (change m q count_syscall) k ≡ some (count_syscall a)
  change-lookup m k q a e v =
      rw
        (
          elements.lookup_element (change m q count_syscall) k,
          elements.change_element m q count_syscall k,
          e,
        )
        (elements.change_read_self m q count_syscall a v)

  -- A CPU that is about to insert a record for a system call and has three turns.
  inserts :
      (k c : ℕ) (t : Cores bpf elements)
      → t.pcs c ≡ inserting counts_call k
      → Fits bpf t.shared.task_accumulators k
      → let t' = advance_all bpf elements (c ∷ c ∷ c ∷ []) t in
        (bpf.hash_lookup t'.shared.task_accumulators k ≡ some (count_syscall zero_accum))
        × (t'.pcs c ≡ idle)
        × ((d : ℕ) → d ≢ c → t'.pcs d ≡ t.pcs d)
  unfolding advance_all advance_from after_lookup
  inserts k c t e fits =
      let m = bpf.hash_update t.shared.task_accumulators k zero_accum in
      let t1 = advance_from bpf elements (inserting counts_call k) c t in
      let t2 = advance_from bpf elements (looking_again counts_call k) c t1 in
      let (q, here, v) = Fits-element m k zero_accum fits in
      let at2 : t2.pcs c ≡ adding k q = rw (update_self, here) refl in
      let t3 = advance_from bpf elements (adding k q) c t2 in
      let others : (d : ℕ) → d ≢ c → t3.pcs d ≡ t.pcs d = λ d ne.
        update_ne t2.pcs c d idle ne
        ∙ update_ne t1.pcs c d (after_lookup bpf elements counts_call k (element m k) idle) ne
        ∙ update_ne t.pcs c d (looking_again counts_call k) ne in
      rw
        (
          advance-at bpf elements t c (inserting counts_call k) e,
          advance-at bpf elements t1 c (looking_again counts_call k)
              (update_self t.pcs c (looking_again counts_call k)),
          advance-at bpf elements t2 c (adding k q) at2,
        )
        (change-lookup m k q zero_accum here v, update_self t2.pcs c idle, others)

  looks :
      (k c : ℕ) (t : Cores bpf elements)
      → t.pcs c ≡ looking counts_call k
      → element t.shared.task_accumulators k ≡ none
      → advance bpf elements c t ≡ record t { pcs = update t.pcs c (inserting counts_call k) }
  unfolding advance_from after_lookup
  looks k c t e missing =
      rw (advance-at bpf elements t c (looking counts_call k) e, advance_from, missing) refl

  -- Two threads of a process without a record make its first system calls on two CPUs. If both look for
  -- the record before one of them inserts it, and the second inserts after the first has counted its call,
  -- then, where the map has room, both handlers end and the record has counted one call: the insertion
  -- replaces the record of the first by zero.
  pub first_call_is_lost :
      (k c d : ℕ) (t : Cores bpf elements)
      → d ≢ c
      → t.pcs c ≡ looking counts_call k
      → t.pcs d ≡ looking counts_call k
      → element t.shared.task_accumulators k ≡ none
      → Fits bpf t.shared.task_accumulators k
      → let t' = advance_all bpf elements (c ∷ d ∷ c ∷ c ∷ c ∷ d ∷ d ∷ d ∷ []) t in
        (bpf.hash_lookup t'.shared.task_accumulators k
          ≡ some (record zero_accum { total_syscalls = 1 }))
        × (t'.pcs c ≡ idle)
        × (t'.pcs d ≡ idle)
  unfolding advance_all
  first_call_is_lost k c d t ne at_c at_d missing fits =
      let i : Pc bpf elements = inserting counts_call k in
      let t1 : Cores bpf elements = record t { pcs = update t.pcs c i } in
      let t2 : Cores bpf elements = record t1 { pcs = update t1.pcs d i } in
      let t3 = advance_all bpf elements (c ∷ c ∷ c ∷ []) t2 in
      let t4 = advance_all bpf elements (d ∷ d ∷ d ∷ []) t3 in
      let c_inserts : t2.pcs c ≡ i =
        update_ne t1.pcs d c i (λ e. ne (sym e)) ∙ update_self t.pcs c i in
      let (found, c_idle, others) = inserts k c t2 c_inserts fits in
      let d_inserts : t3.pcs d ≡ i = others d ne ∙ update_self t1.pcs d i in
      let again =
        update_present bpf t3.shared.task_accumulators k zero_accum (count_syscall zero_accum)
          found in
      let (lost, d_idle, still) = inserts k d t3 d_inserts again in
      rw (looks k c t at_c missing, looks k d t1 (update_ne t.pcs c d i ne ∙ at_d) missing)
        (lost, still c (λ e. ne (sym e)) ∙ c_idle, d_idle)
