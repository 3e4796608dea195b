-- ===== src/Telemetry/Cores/Agreement.antt =====
-- What a CPU leaves to the lookups that has ended a handler of kernel/telemetry.bpf.c, in particular one of
-- handle_sched_fork and handle_sched_exit.
use ai_optimized_kernel_and.Prelude.{
  ℕ, ◌≡◌, inl, inr, refl, none, some, Option-cases, [], ◌∷◌, update_self,
}
use native.Mathlib.Decide.{ℕ_discrete}
use ai_optimized_kernel_and.Bpf.Maps.{Maps}
use ai_optimized_kernel_and.Bpf.Elements.{Elements}
use ai_optimized_kernel_and.Telemetry.{Accum, State, handle_sched_fork, handle_sched_exit}
use ai_optimized_kernel_and.Telemetry.Counters.{sched_fork, sched_exit, update_present}
use ai_optimized_kernel_and.Telemetry.Cores.{
  Cores, idle, initializing, reserving, submitting, removing, advance_from, advance_all, enter,
}
use ai_optimized_kernel_and.Telemetry.Cores.Steps.{advance-at, idles}

module _ (bpf : Maps) (elements : Elements bpf Accum) where
  open elements use {Ptr, element, read, change}

  pub lookup-none : (m : bpf.Hash Accum) (k : ℕ) → element m k ≡ none → bpf.hash_lookup m k ≡ none
  lookup-none m k e = rw (elements.lookup_element m k, e) refl

  pub lookup-some :
      (m : bpf.Hash Accum) (k : ℕ) (q : Ptr)
      → element m k ≡ some q
      → (a : Accum) × (bpf.hash_lookup m k ≡ some a) × (read m q ≡ some a)
  lookup-some m k q e =
      let (a, v) = elements.element_read m k q e in (a, rw (elements.lookup_element m k, e) v, v)

  -- To the lookups, a change through a pointer is an update of the key.
  pub lookup-change :
      (m : bpf.Hash Accum) (k : ℕ) (q : Ptr) (a : Accum) (f : Accum → Accum)
      → element m k ≡ some q
      → read m q ≡ some a
      → (j : ℕ) → bpf.hash_lookup (change m q f) j ≡ bpf.hash_lookup (bpf.hash_update m k (f a)) j
  lookup-change m k q a f e v j = elim (ℕ_discrete j k) [
    | yes same ↦
        let present = update_present bpf m k (f a) a (rw (elements.lookup_element m k, e) v) in
        rw
          (
            same,
            present,
            elements.lookup_element (change m q f) k,
            elements.change_element m q f k,
            e,
          )
          (elements.change_read_self m q f a v)
    | no ne ↦
        rw
          (
            bpf.hash_update_ne m k j (f a) ne,
            elements.lookup_element (change m q f) j,
            elements.change_element m q f j,
            elements.lookup_element m j,
          )
          (elim (Option-cases (element m j)) [
            | inl n ↦ rw n refl
            | inr (r, n) ↦ rw n (
                elements.change_read_ne m q r f
                  (λ x. ne (elements.element_inj m j k q (rw x at n) e)))
          ])
  ]

  -- The CPU has ended its handler, and the lookups and the ring buffer are as the handler leaves them.
  pub record Agrees (c : ℕ) (t : Cores bpf elements) (s : State bpf) : Type 0 where
    pub ended : t.pcs c ≡ idle
    pub ring : t.shared.telemetry_ringbuf ≡ s.telemetry_ringbuf
    pub lookups :
        (j : ℕ)
        → bpf.hash_lookup t.shared.task_accumulators j ≡ bpf.hash_lookup s.task_accumulators j

  pub fork-Agrees :
      (c child : ℕ) (t : Cores bpf elements)
      → Agrees c
          (advance_all bpf elements
            (c ∷ c ∷ c ∷ c ∷ [])
            (enter bpf elements c (sched_fork child) t))
          (handle_sched_fork bpf child t.shared)
  unfolding advance_all advance_from handle_sched_fork
  fork-Agrees c child t =
      let t0 = enter bpf elements c (sched_fork child) t in
      let t1 = advance_from bpf elements (initializing child) c t0 in
      let t2 = advance_from bpf elements (reserving child) c t1 in
      let e0 =
        advance-at bpf elements t0 c (initializing child)
          (update_self t.pcs c (initializing child)) in
      let e1 =
        advance-at bpf elements t1 c (reserving child) (update_self t0.pcs c (reserving child)) in
      elim (Option-cases (bpf.ringbuf_reserve t.shared.telemetry_ringbuf)) [
        | inl n ↦
            let i : t2.pcs c ≡ idle = rw (advance_from, n) (update_self t1.pcs c idle) in
            rw (e0, e1, idles bpf elements t2 c i, idles bpf elements t2 c i)
              (record {
                ended = i;
                ring = rw (advance_from, handle_sched_fork, n) refl;
                lookups = λ j. rw (advance_from, handle_sched_fork, n) refl;
              })
        | inr ((stale, r), n) ↦
            let t3 = advance_from bpf elements (submitting child stale) c t2 in
            let at : t2.pcs c ≡ submitting child stale =
              rw (advance_from, n) (update_self t1.pcs c (submitting child stale)) in
            let i : t3.pcs c ≡ idle = update_self t2.pcs c idle in
            rw
              (
                e0,
                e1,
                advance-at bpf elements t2 c (submitting child stale) at,
                idles bpf elements t3 c i,
              )
              (record {
                ended = i;
                ring = rw (advance_from, handle_sched_fork, n) refl;
                lookups = λ j. rw (advance_from, handle_sched_fork, n) refl;
              })
      ]

  pub exit-Agrees :
      (c pid : ℕ) (t : Cores bpf elements)
      → Agrees c
          (advance_all bpf elements (c ∷ c ∷ c ∷ c ∷ []) (enter bpf elements c (sched_exit pid) t))
          (handle_sched_exit bpf pid t.shared)
  unfolding advance_all advance_from handle_sched_exit
  exit-Agrees c pid t =
      let t0 = enter bpf elements c (sched_exit pid) t in
      let t1 = advance_from bpf elements (removing pid) c t0 in
      let i : t1.pcs c ≡ idle = update_self t0.pcs c idle in
      rw
        (
          advance-at bpf elements t0 c (removing pid) (update_self t.pcs c (removing pid)),
          idles bpf elements t1 c i,
          idles bpf elements t1 c i,
          idles bpf elements t1 c i,
        )
        (record { ended = i; ring = refl; lookups = λ j. refl })
