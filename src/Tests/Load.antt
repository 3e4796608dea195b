-- ===== src/Tests/Load.antt =====
-- tools/workloads/matrix_compute.cpp on small matrices, with the natural numbers for the floats.
use ai_optimized_kernel_and.Prelude.{
  ℕ, zero, suc, ◌+◌, ◌*◌, ◌/◌, ◌<◌, ◌≡◌, refl, inl, inr, some, List, [], ◌∷◌, arith, ltb, length,
  get_elem?,
}
use ai_optimized_kernel_and.Config.Bytes.{bytes_eq}
use ai_optimized_kernel_and.Workload.{
  Floats, Matrix, create, put, dot, compute_cell, compute_cells, randomize, matmul_in, matmul, relu,
  parse_args, size_flag, rounds_flag,
}
use ai_optimized_kernel_and.Workload.Cells.{Visits, IsOrder}
use ai_optimized_kernel_and.Workload.Product.{IsMatrix, entry, matmul_in-eq-matmul, matmul_lem}

abbrev numbers : Floats
numbers = record {
  Float = ℕ;
  zerof = 0;
  big = 1000000000;
  minus_big = 0;
  plus = λ a b. a + b;
  times = λ a b. a * b;
  over = λ a b. a / b;
  less = λ a b. ltb a b;
  of_nat = λ n. n;
}

-- 1 2 3 / 4 5 6 and 1 0 / 0 1 / 1 1
abbrev wide : Matrix numbers
wide = record { cells = 1 ∷ 2 ∷ 3 ∷ 4 ∷ 5 ∷ 6 ∷ []; rows = 2; cols = 3 }

abbrev high : Matrix numbers
high = record { cells = 1 ∷ 0 ∷ 0 ∷ 1 ∷ 1 ∷ 1 ∷ []; rows = 3; cols = 2 }

-- The cells backwards, one of them twice.
abbrev backwards : List (ℕ × ℕ)
backwards = (1, 1) ∷ (1, 0) ∷ (0, 1) ∷ (1, 1) ∷ (0, 0) ∷ []

backwards-IsOrder : IsOrder 2 2 backwards
backwards-IsOrder = record { within = ground arith; visits = visits }
  where
    visits : (i j : ℕ) → i < 2 → j < 2 → Visits i j backwards
    visits zero zero h k = inr (inr (inr (inr (inl (refl, refl)))))
    visits zero (suc zero) h k = inr (inr (inl (refl, refl)))
    visits (suc zero) zero h k = inr (inl (refl, refl))
    visits (suc zero) (suc zero) h k = inl (refl, refl)
    visits (suc (suc i)) j h k = absurd (omega arith)
    visits i (suc (suc j)) h k = absurd (omega arith)

wide_by_high :
    matmul numbers wide high ≡ some (record { cells = 4 ∷ 5 ∷ 10 ∷ 11 ∷ []; rows = 2; cols = 2 })
unfolding matmul create matmul_in compute_cells compute_cell put dot
wide_by_high = refl

matmul_in-eq-matmul_example : matmul_in numbers backwards wide high ≡ matmul numbers wide high
matmul_in-eq-matmul_example = matmul_in-eq-matmul numbers wide high backwards backwards-IsOrder

matmul_lem_example :
    (m : Matrix numbers) × (matmul numbers wide high ≡ some m)
    × IsMatrix numbers m
    × (m.rows ≡ 2)
    × (m.cols ≡ 2)
    × (get_elem? m.cells (1 * m.cols + 0) ≡ some (entry numbers wide high 1 0))
matmul_lem_example = matmul_lem numbers wide high 1 0 refl (omega arith) (omega arith)

-- The random numbers 0, 1, 2, ...: 0 1 / 2 3 by 4 5 / 6 7 is 6 7 / 26 31, and that by the first again
-- 14 27 / 62 119.
abbrev first_product : Matrix numbers
first_product = record { cells = 6 ∷ 7 ∷ 26 ∷ 31 ∷ []; rows = 2; cols = 2 }

abbrev second_product : Matrix numbers
second_product = record { cells = 14 ∷ 27 ∷ 62 ∷ 119 ∷ []; rows = 2; cols = 2 }

first_round :
    matmul numbers
      (randomize numbers (λ n. n) 0 (create numbers 2 2))
      (randomize numbers (λ n. n) 4 (create numbers 2 2))
    ≡ some first_product
unfolding matmul create randomize matmul_in compute_cells compute_cell put dot
first_round = refl

second_round :
    matmul numbers (relu numbers first_product) (randomize numbers (λ n. n) 0 (create numbers 2 2))
    ≡ some second_product
unfolding matmul create randomize relu matmul_in compute_cells compute_cell put dot
second_round = refl

flags_read :
    parse_args (λ s. length s) (256, 5) (rounds_flag ∷ (49 ∷ []) ∷ size_flag ∷ (49 ∷ 48 ∷ []) ∷ [])
    ≡ (2, 1)
unfolding parse_args bytes_eq
flags_read = refl

-- A flag without a value is ignored.
flag_alone : parse_args (λ s. length s) (256, 5) (size_flag ∷ []) ≡ (256, 5)
unfolding parse_args
flag_alone = refl
