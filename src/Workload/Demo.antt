-- ===== src/Workload/Demo.antt =====
-- The whole demonstration of tools/workloads/matrix_compute.cpp.
use ai_optimized_kernel_and.Prelude.{
  ℕ, zero, suc, ◌+◌, ◌*◌, ◌<◌, ◌≡◌, refl, sym, ap, ◌∙◌, some, List, [], ◌∷◌, arith, length, map,
  length-replicate, false, if◌then◌else◌,
}
use ai_optimized_kernel_and.Workload.{
  Floats, Matrix, Summary, create, fill, randomize, matmul, relu, print_summary, demo_round,
  run_demo, main, parse_args,
}
use ai_optimized_kernel_and.Workload.Cells.{index-lt}
use ai_optimized_kernel_and.Workload.Product.{IsMatrix, matmul-IsMatrix}

length-map : {A B : Type 0} (f : A → B) (xs : List A) → length (map f xs) ≡ length xs
length-map f [] = refl
length-map f (x ∷ xs) = ap suc (length-map f xs)

module _ (fl : Floats) where
  open fl use {Float, zerof, less}

  length-fill :
      (rand : ℕ → Float) (n : ℕ) (vs : List Float) → length (fill fl rand n vs) ≡ length vs
  unfolding fill
  length-fill rand n [] = refl
  length-fill rand n (v ∷ vs) = ap suc (length-fill rand (suc n) vs)

  create-IsMatrix : (r c : ℕ) → IsMatrix fl (create fl r c)
  unfolding create
  create-IsMatrix r c = record { sized = length-replicate (r * c) zerof }

  randomize-IsMatrix :
      (rand : ℕ → Float) (n : ℕ) (m : Matrix fl)
      → IsMatrix fl m
      → IsMatrix fl (randomize fl rand n m)
  unfolding randomize
  randomize-IsMatrix rand n m h = record { sized = length-fill rand n m.cells ∙ h.sized }

  -- The activation keeps the shape of a matrix.
  relu-IsMatrix : (m : Matrix fl) → IsMatrix fl m → IsMatrix fl (relu fl m)
  unfolding relu
  relu-IsMatrix m h = record { sized = length-map _ m.cells ∙ h.sized }

  abbrev pub NoneBelow : List Float → Type 0
  NoneBelow [] = Unit {0}
  NoneBelow (v ∷ vs) = (less v zerof ≡ false) × NoneBelow vs

  clipped :
      less zerof zerof ≡ false
      → (vs : List Float) → NoneBelow (map (λ v. if less v zerof then zerof else v) vs)
  clipped z [] = tt
  clipped z (v ∷ vs) = (ground (arith, z), clipped z vs)

  fixed : (vs : List Float) → NoneBelow vs → map (λ v. if less v zerof then zerof else v) vs ≡ vs
  fixed [] h = refl
  fixed (v ∷ vs) (h, hs) = rw (h, fixed vs hs)

  -- If zero is not below itself, the activation leaves no value below zero, and a second application
  -- changes nothing.
  relu-relu :
      (m : Matrix fl)
      → less zerof zerof ≡ false
      → NoneBelow (relu fl m).cells × (relu fl (relu fl m) ≡ relu fl m)
  unfolding relu
  relu-relu m z = let h = clipped z m.cells in (h, ap (λ l. record m { cells = l }) (fixed _ h))

  record IsSquare (n : ℕ) (m : Matrix fl) : Type 0 where
    height : m.rows ≡ n
    width : m.cols ≡ n
    sized : IsMatrix fl m

  access_in_range :
      (n i j : ℕ) (m : Matrix fl) → IsSquare n m → i < n → j < n → i * m.cols + j < length m.cells
  access_in_range n i j m h hi hj =
      rw h.sized.sized
        (index-lt m.rows m.cols i j (omega (arith, h.height)) (omega (arith, h.width)))

  random-IsSquare :
      (rand : ℕ → Float) (drawn size : ℕ)
      → IsSquare size (randomize fl rand drawn (create fl size size))
  unfolding randomize create
  random-IsSquare rand drawn size = record {
    height = refl;
    width = refl;
    sized = randomize-IsMatrix rand drawn _ (create-IsMatrix size size);
  }

  relu-IsSquare : (n : ℕ) (m : Matrix fl) → IsSquare n m → IsSquare n (relu fl m)
  unfolding relu
  relu-IsSquare n m h = record {
    height = h.height;
    width = h.width;
    sized = relu-IsMatrix m h.sized;
  }

  matmul-IsSquare :
      (n : ℕ) (a b c : Matrix fl)
      → IsSquare n a
      → IsSquare n b
      → matmul fl a b ≡ some c
      → IsSquare n c
  matmul-IsSquare n a b c ha hb e =
      let (c', e', sized, rows, cols, _) = matmul-IsMatrix fl a b (ha.width ∙ sym hb.height) in
      let same : c' ≡ c = cc (e', e) in
      let square : IsSquare n c' = record {
        height = rows ∙ ha.height;
        width = cols ∙ hb.width;
        sized = sized;
      } in
      rw same at square

  -- In a round for matrices of any size, no access of the two products is out of range: neither to the
  -- random matrices, nor to the activated product, nor to the cells of the results.
  demo_reads :
      (rand : ℕ → Float) (size drawn i j k : ℕ) (c d : Matrix fl)
      → let a = randomize fl rand drawn (create fl size size) in
        let b = randomize fl rand (drawn + size * size) (create fl size size) in
        i < size
        → j < size
        → k < size
        → matmul fl a b ≡ some c
        → matmul fl (relu fl c) a ≡ some d
        → (i * a.cols + k < length a.cells)
          × (k * b.cols + j < length b.cells)
          × (i * (relu fl c).cols + k < length (relu fl c).cells)
          × (k * a.cols + j < length a.cells)
          × (i * c.cols + j < length c.cells)
          × (i * d.cols + j < length d.cells)
  demo_reads rand size drawn i j k c d hi hj hk ec ed =
      let ha = random-IsSquare rand drawn size in
      let hb = random-IsSquare rand (drawn + size * size) size in
      let hc = matmul-IsSquare size _ _ c ha hb ec in
      let hr = relu-IsSquare size c hc in
      let hd = matmul-IsSquare size _ _ d hr ha ed in
      (
        access_in_range size i k _ ha hi hk,
        access_in_range size k j _ hb hk hj,
        access_in_range size i k _ hr hi hk,
        access_in_range size k j _ ha hk hj,
        access_in_range size i j _ hc hi hj,
        access_in_range size i j _ hd hi hj,
      )

  -- Squares of one size have a product.
  multiplies :
      (n : ℕ) (a b : Matrix fl)
      → IsSquare n a
      → IsSquare n b
      → (c : Matrix fl) × (matmul fl a b ≡ some c) × IsSquare n c
  multiplies n a b ha hb =
      let p = matmul-IsMatrix fl a b (ha.width ∙ sym hb.height) in
      (p.0, p.1, matmul-IsSquare n a b p.0 ha hb p.1)

  demo_round_lem :
      (rand : ℕ → Float) (size drawn : ℕ)
      → (s : Summary fl) × (demo_round fl rand size drawn ≡ some s) × (s.shape ≡ (size, size))
  unfolding demo_round print_summary
  demo_round_lem rand size drawn =
      let ha = random-IsSquare rand drawn size in
      let (c, e, hc) = multiplies size _ _ ha (random-IsSquare rand (drawn + size * size) size) in
      let (d, f, hd) = multiplies size _ _ (relu-IsSquare size c hc) ha in
      (print_summary fl d, rw (demo_round, e, f), cc (hd.height, hd.width))

  abbrev pub AllSquare : ℕ → List (Summary fl) → Type 0
  AllSquare size [] = Unit {0}
  AllSquare size (s ∷ ss) = (s.shape ≡ (size, size)) × AllSquare size ss

  -- The demonstration raises no exception: for any size and random numbers it prints one summary for
  -- each round, of a square matrix of that size.
  run_demo_lem :
      (rand : ℕ → Float) (size drawn rounds : ℕ)
      → (ss : List (Summary fl)) × (run_demo fl rand size drawn rounds ≡ some ss)
        × (length ss ≡ rounds)
        × AllSquare size ss
  unfolding run_demo
  run_demo_lem rand size drawn zero = ([], refl, refl, tt)
  run_demo_lem rand size drawn (suc rounds) =
      let (s, e, shape) = demo_round_lem rand size drawn in
      let (ss, es, n, shapes) = run_demo_lem rand size (drawn + 2 * (size * size)) rounds in
      (s ∷ ss, rw (run_demo, e, es), omega arith, (shape, shapes))

  -- Whatever its arguments, the program returns 0.
  main-zero :
      (atoi : List ℕ → ℕ) (rand : ℕ → Float) (args : List (List ℕ)) → main fl atoi rand args ≡ 0
  unfolding main
  main-zero atoi rand args =
      let (size, rounds) = parse_args atoi (256, 5) args in
      let (ss, e, _, _) = run_demo_lem rand size 0 rounds in rw (main, e)
