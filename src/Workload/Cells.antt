-- ===== src/Workload/Cells.antt =====
-- Positions in the storage of a matrix, and orders of its cells.
use ai_optimized_kernel_and.Prelude.{
  ℕ, zero, suc, ◌+◌, ◌*◌, ◌/◌, ◌%◌, ◌<◌, ◌≤◌, ◌≡◌, ◌⊎◌, inl, inr, refl, sym, ap, ◌∙◌, List, [], ◌∷◌,
  ◌++◌, arith,
}
use native.Mathlib.Nat.{mul-add-div_right}
use native.Mathlib.Decide.{dec_lt}
use ai_optimized_kernel_and.Workload.{row_from, rows_from}

-- Every cell of the order lies in a matrix of that shape.
abbrev pub Within : ℕ → ℕ → List (ℕ × ℕ) → Type 0
Within r c [] = Unit {0}
Within r c ((i, j) ∷ xs) = (i < r) × (j < c) × Within r c xs

abbrev pub Visits : ℕ → ℕ → List (ℕ × ℕ) → Type 0
Visits i j [] = ⊥
Visits i j ((a, b) ∷ xs) = ((a ≡ i) × (b ≡ j)) ⊎ Visits i j xs

-- An order of the cells of a matrix: all of them, and no others.
pub record IsOrder (r c : ℕ) (xs : List (ℕ × ℕ)) : Type 0 where
  pub within : Within r c xs
  pub visits : (i j : ℕ) → i < r → j < c → Visits i j xs

pub index-lt : (r c i j : ℕ) → i < r → j < c → i * c + j < r * c
index-lt r c i j h k = grind arith

div-row : (c a b : ℕ) → b < c → (a * c + b) / c ≡ a
div-row c a b h =
    let z : b / c ≡ 0 = grind arith in mul-add-div_right (omega arith) a b ∙ omega (arith, z)

-- A position belongs to one cell.
pub index-inj : (c a b i j : ℕ) → b < c → j < c → a * c + b ≡ i * c + j → (a ≡ i) × (b ≡ j)
index-inj c a b i j hb hj e =
    let row : a ≡ i = sym (div-row c a b hb) ∙ ap (λ n. n / c) e ∙ div-row c i j hj in
    (row, let same : a * c ≡ i * c = ap (λ n. n * c) row in omega arith)

pub index-cell : (r c p : ℕ) → p < r * c → (p / c < r) × (p % c < c) × (p / c * c + p % c ≡ p)
index-cell r c p h = (grind arith, grind arith, grind arith)

Within-append :
    (r c : ℕ) (xs ys : List (ℕ × ℕ)) → Within r c xs → Within r c ys → Within r c (xs ++ ys)
Within-append r c [] ys h k = k
Within-append r c ((i, j) ∷ xs) ys (hi, hj, h) k = (hi, hj, Within-append r c xs ys h k)

Visits-left : (i j : ℕ) (xs ys : List (ℕ × ℕ)) → Visits i j xs → Visits i j (xs ++ ys)
Visits-left i j [] ys h = absurd h
Visits-left i j ((a, b) ∷ xs) ys (inl h) = inl h
Visits-left i j ((a, b) ∷ xs) ys (inr h) = inr (Visits-left i j xs ys h)

Visits-right : (i j : ℕ) (xs ys : List (ℕ × ℕ)) → Visits i j ys → Visits i j (xs ++ ys)
Visits-right i j [] ys h = h
Visits-right i j ((a, b) ∷ xs) ys h = inr (Visits-right i j xs ys h)

row_from-Within : (r c i j n : ℕ) → i < r → j + n ≤ c → Within r c (row_from i j n)
unfolding row_from
row_from-Within r c i j zero h k = tt
row_from-Within r c i j (suc n) h k =
    (h, omega arith, row_from-Within r c i (suc j) n h (omega arith))

row_from-Visits : (i j j' n : ℕ) → j ≤ j' → j' < j + n → Visits i j' (row_from i j n)
unfolding row_from
row_from-Visits i j j' zero h k = absurd (omega arith)
row_from-Visits i j j' (suc n) h k = elim (dec_lt j j') [
  | yes p ↦ inr (row_from-Visits i (suc j) j' n (omega arith) (omega arith))
  | no p ↦ inl (refl, omega arith)
]

rows_from-Within : (r c i n : ℕ) → i + n ≤ r → Within r c (rows_from i n c)
unfolding rows_from
rows_from-Within r c i zero h = tt
rows_from-Within r c i (suc n) h =
    Within-append r c (row_from i 0 c) _ (row_from-Within r c i 0 c (omega arith) (omega arith))
      (rows_from-Within r c (suc i) n (omega arith))

rows_from-Visits : (c i n i' j : ℕ) → i ≤ i' → i' < i + n → j < c → Visits i' j (rows_from i n c)
unfolding rows_from
rows_from-Visits c i zero i' j h k l = absurd (omega arith)
rows_from-Visits c i (suc n) i' j h k l = elim (dec_lt i i') [
  | yes p ↦
      Visits-right i' j (row_from i 0 c) _
        (rows_from-Visits c (suc i) n i' j (omega arith) (omega arith) l)
  | no p ↦
      let e : i ≡ i' = omega arith in
      rw e (
        Visits-left i' j (row_from i' 0 c) _ (row_from-Visits i' 0 j c (omega arith) (omega arith)))
]

-- The order of one thread, row by row.
pub rows_from-IsOrder : (r c : ℕ) → IsOrder r c (rows_from 0 r c)
rows_from-IsOrder r c = record {
  within = rows_from-Within r c 0 r (omega arith);
  visits = λ i j h k. rows_from-Visits c 0 r i j (omega arith) (omega arith) k;
}
