-- ===== src/Bpf/Maps.antt =====
-- BPF array maps, hash maps and ring buffers, as the helper functions show them.
use ai_optimized_kernel_and.Prelude.{
  ℕ, ◌<◌, ◌≡◌, ◌≢◌, ◌⊎◌, Option, none, some, List, [], ◌∷◌, ◌++◌, drop,
}

-- A lookup yields a pointer into the map, so a write through it is an update of a present key.
-- An update that fails (a full hash map, an index out of range) leaves the map as it was.
pub record Maps : Type 1 where
  -- BPF_MAP_TYPE_ARRAY
  pub Array : Type 0 → Type 0
  pub max_entries : {V : Type 0} → Array V → ℕ
  pub array_lookup : {V : Type 0} → Array V → ℕ → Option V
  pub array_update : {V : Type 0} → Array V → ℕ → V → Array V
  -- Every index in range has a value.
  pub array_present :
      {V : Type 0} (m : Array V) (i : ℕ) → i < max_entries m → (v : V) × (array_lookup m i ≡ some v)
  pub array_update_self :
      {V : Type 0} (m : Array V) (i : ℕ) (v : V)
      → i < max_entries m
      → array_lookup (array_update m i v) i ≡ some v
  pub array_update_size :
      {V : Type 0} (m : Array V) (i : ℕ) (v : V) → max_entries (array_update m i v) ≡ max_entries m
  -- Of two writes at an index the last counts.
  pub array_update_again :
      {V : Type 0} (m : Array V) (i : ℕ) (v w : V)
      → array_update (array_update m i v) i w ≡ array_update m i w
  -- BPF_MAP_TYPE_HASH
  pub Hash : Type 0 → Type 0
  pub hash_lookup : {V : Type 0} → Hash V → ℕ → Option V
  pub hash_update : {V : Type 0} → Hash V → ℕ → V → Hash V
  pub hash_delete : {V : Type 0} → Hash V → ℕ → Hash V
  -- Only the insertion of a new key can fail.
  pub hash_update_self :
      {V : Type 0} (m : Hash V) (k : ℕ) (v : V)
      → (hash_lookup (hash_update m k v) k ≡ some v)
        ⊎ ((hash_lookup m k ≡ none) × (hash_update m k v ≡ m))
  pub hash_update_ne :
      {V : Type 0} (m : Hash V) (k j : ℕ) (v : V)
      → j ≢ k
      → hash_lookup (hash_update m k v) j ≡ hash_lookup m j
  pub hash_delete_self : {V : Type 0} (m : Hash V) (k : ℕ) → hash_lookup (hash_delete m k) k ≡ none
  pub hash_delete_ne :
      {V : Type 0} (m : Hash V) (k j : ℕ)
      → j ≢ k
      → hash_lookup (hash_delete m k) j ≡ hash_lookup m j
  -- BPF_MAP_TYPE_RINGBUF. A reservation hands out memory with whatever it held before.
  -- What is submitted waits until user space consumes it.
  pub Ring : Type 0 → Type 0
  pub samples : {V : Type 0} → Ring V → List V
  pub ringbuf_consume : {V : Type 0} → Ring V → ℕ → Ring V
  pub ringbuf_reserve : {V : Type 0} → Ring V → Option (V × Ring V)
  pub ringbuf_submit : {V : Type 0} → Ring V → V → Ring V
  pub reserve_samples :
      {V : Type 0} (r : Ring V) (v : V) (r' : Ring V)
      → ringbuf_reserve r ≡ some (v, r')
      → samples r' ≡ samples r
  pub submit_samples :
      {V : Type 0} (r : Ring V) (v : V) → samples (ringbuf_submit r v) ≡ samples r ++ v ∷ []
  pub consume_samples :
      {V : Type 0} (r : Ring V) (n : ℕ) → samples (ringbuf_consume r n) ≡ drop n (samples r)
