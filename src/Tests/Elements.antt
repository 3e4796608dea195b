-- ===== src/Tests/Elements.antt =====
-- The elements of a hash map as plain data: the assumptions of Bpf.Elements can be met. An element is
-- named by its key and by how many insertions of the key there were before it.
use ai_optimized_kernel_and.Prelude.{
  ℕ, zero, suc, ◌≡◌, ◌≢◌, refl, sym, ap, Option, none, some, List, [], ◌∷◌, arith, ◌∙◌, ◌==◌,
  if◌then◌else◌, ◌&&◌,
}
use native.Mathlib.Decide.{ℕ_discrete}
use ai_optimized_kernel_and.Bpf.Elements.{Elements}
use ai_optimized_kernel_and.Tests.Instances.{maps}

module _ (V : Type 0) where
  abbrev Map : Type 0
  Map = List (ℕ × V)

  abbrev Pointer : Type 0
  Pointer = ℕ × ℕ

  abbrev insertions : Map → ℕ → ℕ
  insertions [] k = 0
  insertions ((j, v) ∷ m) k = let n = insertions m k in if j == k then suc n else n

  abbrev element_at : ℕ → ℕ → Option Pointer
  element_at k zero = none
  element_at k (suc n) = some (k, suc n)

  abbrev read_at : Map → Pointer → Option V
  read_at [] p = none
  read_at ((j, v) ∷ m) p =
      let rest = read_at m p in if j == p.0 && p.1 == suc (insertions m j) then some v else rest

  abbrev change_at : Map → Pointer → (V → V) → Map
  change_at [] p f = []
  change_at ((j, v) ∷ m) p f =
      let rest = change_at m p f in
      if j == p.0 && p.1 == suc (insertions m j) then (j, f v) ∷ rest else (j, v) ∷ rest

  -- What the map holds at a key whose last insertion is that one.
  abbrev value_at : Map → ℕ → ℕ → Option V
  value_at m k zero = none
  value_at m k (suc n) = read_at m (k, suc n)

  value_at-element_at :
      (m : Map) (k n : ℕ)
      → elim (element_at k n) [ none ↦ none | some p ↦ read_at m p ] ≡ value_at m k n
  value_at-element_at m k zero = refl
  value_at-element_at m k (suc n) = refl

  value_at-insertions : (m : Map) (k : ℕ) → maps.hash_lookup m k ≡ value_at m k (insertions m k)
  value_at-insertions [] k = refl
  value_at-insertions ((j, v) ∷ m) k = elim (ℕ_discrete j k) [
    | yes e ↦ ground (arith, e)
    | no ne ↦ ground (arith, ne, value_at-insertions m k)
  ]

  pub lookup-element_at :
      (m : Map) (k : ℕ)
      → maps.hash_lookup m k
        ≡ elim (element_at k (insertions m k)) [ none ↦ none | some p ↦ read_at m p ]
  lookup-element_at m k = value_at-insertions m k ∙ sym (value_at-element_at m k (insertions m k))

  pub insertions-change_at :
      (m : Map) (p : Pointer) (f : V → V) (k : ℕ) → insertions (change_at m p f) k ≡ insertions m k
  insertions-change_at [] p f k = refl
  insertions-change_at ((j, v) ∷ m) p f k = ground (arith, insertions-change_at m p f k)

  pub read_at-change_at_self :
      (m : Map) (p : Pointer) (f : V → V) (v : V)
      → read_at m p ≡ some v
      → read_at (change_at m p f) p ≡ some (f v)
  read_at-change_at_self [] p f v h = cc
  read_at-change_at_self ((j, w) ∷ m) p f v h =
      ground (arith, h, insertions-change_at m p f j, read_at-change_at_self m p f v)

  pub read_at-change_at-ne :
      (m : Map) (p q : Pointer) (f : V → V) → q ≢ p → read_at (change_at m p f) q ≡ read_at m q
  read_at-change_at-ne [] p q f ne = refl
  read_at-change_at-ne ((j, v) ∷ m) p q f ne =
      ground (arith, ne, insertions-change_at m p f j, read_at-change_at-ne m p q f ne)

  pub insertions-remove :
      (m : Map) (k j : ℕ) → j ≢ k → insertions (maps.hash_delete m k) j ≡ insertions m j
  insertions-remove [] k j ne = refl
  insertions-remove ((i, v) ∷ m) k j ne = ground (arith, ne, insertions-remove m k j ne)

  pub read_at-remove :
      (m : Map) (k j g : ℕ) → j ≢ k → read_at (maps.hash_delete m k) (j, g) ≡ read_at m (j, g)
  read_at-remove [] k j g ne = refl
  read_at-remove ((i, v) ∷ m) k j g ne =
      ground (arith, ne, insertions-remove m k j ne, read_at-remove m k j g ne)

  element_at-cases :
      (k n : ℕ) (p : Pointer) → element_at k n ≡ some p → (g : ℕ) × (n ≡ suc g) × ((k, suc g) ≡ p)
  element_at-cases k zero p h = cc
  element_at-cases k (suc n) p h = (n, refl, ground (arith, h))

  value_at-present :
      (m : Map) (k g : ℕ) → insertions m k ≡ suc g → (v : V) × (read_at m (k, suc g) ≡ some v)
  value_at-present [] k g h = absurd (omega (arith, h))
  value_at-present ((j, v) ∷ m) k g h = elim (ℕ_discrete j k) [
    | yes e ↦ (v, ground (arith, e, h))
    | no ne ↦
        let (w, r) = value_at-present m k g (ground (arith, ne, h)) in (w, ground (arith, ne, h, r))
  ]

  pub read-element_at :
      (m : Map) (k : ℕ) (p : Pointer)
      → element_at k (insertions m k) ≡ some p
      → (v : V) × (read_at m p ≡ some v)
  read-element_at m k p h =
      let (g, e, q) = element_at-cases k (insertions m k) p h in rw (← q) (value_at-present m k g e)

  pub element_at-inj :
      (m : Map) (j k : ℕ) (p : Pointer)
      → element_at j (insertions m j) ≡ some p
      → element_at k (insertions m k) ≡ some p
      → j ≡ k
  element_at-inj m j k p h i =
      let (g, e, q) = element_at-cases j (insertions m j) p h in
      let (g', e', q') = element_at-cases k (insertions m k) p i in ap (λ x. x.0) (q ∙ sym q')

  pub insertions-update :
      (m : Map) (k j : ℕ) (v : V) → j ≢ k → insertions ((k, v) ∷ m) j ≡ insertions m j
  insertions-update m k j v ne = ground (arith, ne)

  pub read_at-update :
      (m : Map) (k j : ℕ) (v : V) (p : Pointer)
      → j ≢ k
      → element_at j (insertions m j) ≡ some p
      → read_at ((k, v) ∷ m) p ≡ read_at m p
  read_at-update m k j v p ne h =
      let (g, e, q) = element_at-cases j (insertions m j) p h in
      let r : read_at ((k, v) ∷ m) (j, suc g) ≡ read_at m (j, suc g) = ground (arith, ne) in
      rw (← q) r

  pub read_at-delete :
      (m : Map) (k j : ℕ) (p : Pointer)
      → j ≢ k
      → element_at j (insertions m j) ≡ some p
      → read_at (maps.hash_delete m k) p ≡ read_at m p
  read_at-delete m k j p ne h =
      let (g, e, q) = element_at-cases j (insertions m j) p h in
      rw (← q) (read_at-remove m k j (suc g) ne)

  abbrev pub elements : Elements maps V
  elements = record {
    Ptr = Pointer;
    element = λ m k. element_at k (insertions m k);
    read = read_at;
    change = change_at;
    lookup_element = lookup-element_at;
    element_read = read-element_at;
    element_inj = element_at-inj;
    update_element_ne = λ m k j v ne. ap (element_at j) (insertions-update m k j v ne);
    update_read_ne = λ m k j v p ne h. read_at-update m k j v p ne h;
    delete_element_ne = λ m k j ne. ap (element_at j) (insertions-remove m k j ne);
    delete_read_ne = λ m k j p ne h. read_at-delete m k j p ne h;
    change_element = λ m p f k. ap (element_at k) (insertions-change_at m p f k);
    change_read_self = read_at-change_at_self;
    change_read_ne = read_at-change_at-ne;
  }
