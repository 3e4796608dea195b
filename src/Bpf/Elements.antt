-- ===== src/Bpf/Elements.antt =====
-- The elements of a BPF hash map: a lookup yields a pointer to one, through which a program on another
-- CPU may write after the element has been replaced or deleted.
use ai_optimized_kernel_and.Prelude.{ℕ, ◌≡◌, ◌≢◌, Option, none, some}
use ai_optimized_kernel_and.Bpf.Maps.{Maps}

pub record Elements (bpf : Maps) (V : Type 0) : Type 1 where
  pub Ptr : Type 0
  -- bpf_map_lookup_elem, and what the memory holds that it points to
  pub element : bpf.Hash V → ℕ → Option Ptr
  pub read : bpf.Hash V → Ptr → Option V
  -- An atomic change of the memory.
  pub change : bpf.Hash V → Ptr → (V → V) → bpf.Hash V
  pub lookup_element :
      (m : bpf.Hash V) (k : ℕ)
      → bpf.hash_lookup m k ≡ elim (element m k) [ none ↦ none | some p ↦ read m p ]
  pub element_read :
      (m : bpf.Hash V) (k : ℕ) (p : Ptr) → element m k ≡ some p → (v : V) × (read m p ≡ some v)
  -- No two keys share an element.
  pub element_inj :
      (m : bpf.Hash V) (j k : ℕ) (p : Ptr) → element m j ≡ some p → element m k ≡ some p → j ≡ k
  -- An update or a deletion of a key leaves the elements of the others and their values.
  pub update_element_ne :
      (m : bpf.Hash V) (k j : ℕ) (v : V) → j ≢ k → element (bpf.hash_update m k v) j ≡ element m j
  pub update_read_ne :
      (m : bpf.Hash V) (k j : ℕ) (v : V) (p : Ptr)
      → j ≢ k
      → element m j ≡ some p
      → read (bpf.hash_update m k v) p ≡ read m p
  pub delete_element_ne :
      (m : bpf.Hash V) (k j : ℕ) → j ≢ k → element (bpf.hash_delete m k) j ≡ element m j
  pub delete_read_ne :
      (m : bpf.Hash V) (k j : ℕ) (p : Ptr)
      → j ≢ k
      → element m j ≡ some p
      → read (bpf.hash_delete m k) p ≡ read m p
  pub change_element :
      (m : bpf.Hash V) (p : Ptr) (f : V → V) (k : ℕ) → element (change m p f) k ≡ element m k
  pub change_read_self :
      (m : bpf.Hash V) (p : Ptr) (f : V → V) (v : V)
      → read m p ≡ some v
      → read (change m p f) p ≡ some (f v)
  pub change_read_ne :
      (m : bpf.Hash V) (p q : Ptr) (f : V → V) → q ≢ p → read (change m p f) q ≡ read m q
