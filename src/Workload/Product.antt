-- ===== src/Workload/Product.antt =====
-- What matmul of tools/workloads/matrix_compute.cpp computes, in whatever order its iterations run.
use ai_optimized_kernel_and.Prelude.{
  ℕ, zero, suc, ◌+◌, ◌*◌, ◌/◌, ◌%◌, ◌<◌, ◌≡◌, inl, inr, refl, sym, ◌∙◌, some, List, [], ◌∷◌, arith,
  length, get_elem?, length-replicate, length-set, get_elem?-set_self, get_elem?-set_ne, ext,
}
use mathlib.Core.Path.{ap₂}
use native.Mathlib.Decide.{ℕ_discrete}
use ai_optimized_kernel_and.Workload.{
  Floats, Matrix, create, read, put, dot, compute_cell, compute_cells, matmul_in, matmul, rows_from,
}
use ai_optimized_kernel_and.Workload.Cells.{
  Within, Visits, IsOrder, index-lt, index-inj, index-cell, rows_from-IsOrder,
}

module _ (fl : Floats) where
  open fl use {Float, zerof, plus, times}

  -- The sum of the first `n` terms, from the left.
  unfoldable pub sum : ℕ → (ℕ → Float) → Float
  sum zero term = zerof
  sum (suc n) term = plus (sum n term) (term n)

  -- The entry of a product, as it is defined.
  abbrev pub entry : Matrix fl → Matrix fl → ℕ → ℕ → Float
  entry a b i j = sum a.cols (λ k. times (read fl a (i * a.cols + k)) (read fl b (k * b.cols + j)))

  -- The storage holds as many cells as the shape says.
  pub record IsMatrix (m : Matrix fl) : Type 0 where
    pub sized : length m.cells ≡ m.rows * m.cols

  dot-sum :
      (a b : Matrix fl) (i j k rest n : ℕ)
      → k + rest ≡ n
      → dot fl a b i j k rest
          (sum k (λ l. times (read fl a (i * a.cols + l)) (read fl b (l * b.cols + j))))
        ≡ sum n (λ l. times (read fl a (i * a.cols + l)) (read fl b (l * b.cols + j)))
  unfolding dot sum
  dot-sum a b i j k zero n e = let z : k ≡ n = omega arith in rw z
  dot-sum a b i j k (suc rest) n e = dot-sum a b i j (suc k) rest n (omega arith)

  dot-entry : (a b : Matrix fl) (i j : ℕ) → dot fl a b i j 0 a.cols zerof ≡ entry a b i j
  unfolding sum
  dot-entry a b i j = dot-sum a b i j 0 a.cols a.cols (omega arith)

  module _ (r c : ℕ) where
    -- The matrix under computation has its shape.
    record Shaped (m : Matrix fl) : Type 0 where
      height : m.rows ≡ r
      width : m.cols ≡ c
      sized : length m.cells ≡ r * c

  module _ (a b : Matrix fl) (r c : ℕ) where
    -- The entry is in its place.
    abbrev IsDone : ℕ → ℕ → Matrix fl → Type 0
    IsDone i j m = get_elem? m.cells (i * c + j) ≡ some (entry a b i j)

    compute_cell-Shaped :
        (i j : ℕ) (m : Matrix fl) → Shaped r c m → Shaped r c (compute_cell fl a b (i, j) m)
    unfolding compute_cell put
    compute_cell-Shaped i j m h = record {
      height = h.height;
      width = h.width;
      sized = length-set m.cells _ _ ∙ h.sized;
    }

    compute_cell-IsDone :
        (i j : ℕ) (m : Matrix fl)
        → i < r
        → j < c
        → Shaped r c m
        → IsDone i j (compute_cell fl a b (i, j) m)
    unfolding compute_cell put
    compute_cell-IsDone i j m hi hj h =
        rw (h.width, dot-entry a b i j)
          (get_elem?-set_self m.cells (i * c + j) (entry a b i j)
            (rw h.sized (index-lt r c i j hi hj)))

    -- Another iteration leaves an entry that is in its place.
    compute_cell-keeps :
        (x y i j : ℕ) (m : Matrix fl)
        → x < r
        → y < c
        → j < c
        → Shaped r c m
        → IsDone i j m
        → IsDone i j (compute_cell fl a b (x, y) m)
    compute_cell-keeps x y i j m hx hy hj h d = elim (ℕ_discrete (x * c + y) (i * c + j)) [
      | yes e ↦
          let (p, q) = index-inj c x y i j hy hj e in
          rw (← p, ← q) (compute_cell-IsDone x y m hx hy h)
      | no ne ↦ unfold compute_cell put in rw h.width (get_elem?-set_ne m.cells _ _ _ ne ∙ d)
    ]

    compute_cells-Shaped :
        (xs : List (ℕ × ℕ)) (m : Matrix fl) → Shaped r c m → Shaped r c (compute_cells fl a b xs m)
    unfolding compute_cells
    compute_cells-Shaped [] m h = h
    compute_cells-Shaped ((i, j) ∷ xs) m h =
        compute_cells-Shaped xs (compute_cell fl a b (i, j) m) (compute_cell-Shaped i j m h)

    compute_cells-keeps :
        (xs : List (ℕ × ℕ)) (i j : ℕ) (m : Matrix fl)
        → Within r c xs
        → j < c
        → Shaped r c m
        → IsDone i j m
        → IsDone i j (compute_cells fl a b xs m)
    unfolding compute_cells
    compute_cells-keeps [] i j m w hj h d = d
    compute_cells-keeps ((x, y) ∷ xs) i j m (hx, hy, w) hj h d =
        compute_cells-keeps xs i j (compute_cell fl a b (x, y) m) w hj (compute_cell-Shaped x y m h)
          (compute_cell-keeps x y i j m hx hy hj h d)

    compute_cells-IsDone :
        (xs : List (ℕ × ℕ)) (i j : ℕ) (m : Matrix fl)
        → Within r c xs
        → Visits i j xs
        → Shaped r c m
        → IsDone i j (compute_cells fl a b xs m)
    unfolding compute_cells
    compute_cells-IsDone [] i j m w v h = absurd v
    compute_cells-IsDone ((x, y) ∷ xs) i j m (hx, hy, w) (inl (p, q)) h =
        rw (← p, ← q)
          (compute_cells-keeps xs x y (compute_cell fl a b (x, y) m) w hy
            (compute_cell-Shaped x y m h) (compute_cell-IsDone x y m hx hy h))
    compute_cells-IsDone ((x, y) ∷ xs) i j m (hx, hy, w) (inr v) h =
        compute_cells-IsDone xs i j (compute_cell fl a b (x, y) m) w v (compute_cell-Shaped x y m h)

  create-Shaped : (r c : ℕ) → Shaped r c (create fl r c)
  unfolding create
  create-Shaped r c = record { height = refl; width = refl; sized = length-replicate (r * c) zerof }

  -- Matrices of one shape with the same entries are equal.
  Shaped-eq :
      (a b m n : Matrix fl) (r c : ℕ)
      → Shaped r c m
      → Shaped r c n
      → ((i j : ℕ) → i < r → j < c → IsDone a b r c i j m × IsDone a b r c i j n)
      → m ≡ n
  Shaped-eq a b m n r c hm hn done =
      let same = λ (p : ℕ) (h : p < length m.cells).
        let (hi, hj, e) = index-cell r c p (omega (arith, hm.sized)) in
        let (x, y) = done (p / c) (p % c) hi hj in
        let q : get_elem? m.cells p ≡ get_elem? n.cells p = rw e at (x ∙ sym y) in q in
      let cells : m.cells ≡ n.cells = ext m.cells n.cells (hm.sized ∙ sym hn.sized) same in
      cc (hm.height, hn.height, hm.width, hn.width, cells)

  module _ (a b : Matrix fl) (xs : List (ℕ × ℕ)) (order : IsOrder a.rows b.cols xs) where
    abbrev product : Matrix fl
    product = compute_cells fl a b xs (create fl a.rows b.cols)

    product-Shaped : Shaped a.rows b.cols product
    product-Shaped = compute_cells-Shaped a b a.rows b.cols xs _ (create-Shaped a.rows b.cols)

    product-IsDone : (i j : ℕ) → i < a.rows → j < b.cols → IsDone a b a.rows b.cols i j product
    product-IsDone i j hi hj =
        compute_cells-IsDone a b a.rows b.cols xs i j _ order.within (order.visits i j hi hj)
          (create-Shaped a.rows b.cols)

  -- The product of one thread, with its shape and its entries.
  pub matmul-IsMatrix :
      (a b : Matrix fl)
      → a.cols ≡ b.rows
      → (m : Matrix fl) × (matmul fl a b ≡ some m)
        × IsMatrix m
        × (m.rows ≡ a.rows)
        × (m.cols ≡ b.cols)
        × ((i j : ℕ)
            → i < a.rows
            → j < b.cols
            → get_elem? m.cells (i * b.cols + j) ≡ some (entry a b i j))
  unfolding matmul_in matmul
  matmul-IsMatrix a b fit =
      let one = rows_from-IsOrder a.rows b.cols in
      let m = product a b (rows_from 0 a.rows b.cols) one in
      let s = product-Shaped a b (rows_from 0 a.rows b.cols) one in
      (
        m,
        ground (arith, fit),
        record { sized = s.sized ∙ ap₂ ◌*◌ (sym s.height) (sym s.width) },
        s.height,
        s.width,
        λ i j hi hj. product-IsDone a b (rows_from 0 a.rows b.cols) one i j hi hj,
      )

  -- The iterations of the parallel loops may run in any order that has each of them: the product, or
  -- the exception, is that of one thread.
  pub matmul_in-eq-matmul :
      (a b : Matrix fl) (xs : List (ℕ × ℕ))
      → IsOrder a.rows b.cols xs
      → matmul_in fl xs a b ≡ matmul fl a b
  unfolding matmul_in matmul
  matmul_in-eq-matmul a b xs order =
      let one = rows_from-IsOrder a.rows b.cols in
      let e : product a b xs order ≡ product a b (rows_from 0 a.rows b.cols) one =
        Shaped-eq a b _ _ a.rows b.cols (product-Shaped a b xs order)
          (product-Shaped a b (rows_from 0 a.rows b.cols) one)
          (λ i j hi hj.
            (product-IsDone a b xs order i j hi hj, product-IsDone a b _ one i j hi hj)) in
      rw e

  -- Matrices that fit have a product. It has the rows of the first and the columns of the second, its
  -- storage holds as many cells as that, and the cell of row `i` and column `j` holds the sum of
  -- products that defines the entry.
  pub matmul_lem :
      (a b : Matrix fl) (i j : ℕ)
      → a.cols ≡ b.rows
      → i < a.rows
      → j < b.cols
      → (m : Matrix fl) × (matmul fl a b ≡ some m)
        × IsMatrix m
        × (m.rows ≡ a.rows)
        × (m.cols ≡ b.cols)
        × (get_elem? m.cells (i * m.cols + j) ≡ some (entry a b i j))
  matmul_lem a b i j fit hi hj =
      let (m, e, sized, rows, cols, entries) = matmul-IsMatrix a b fit in
      (m, e, sized, rows, cols, rw cols (entries i j hi hj))
