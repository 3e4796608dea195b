-- ===== src/Workload.antt =====
-- tools/workloads/matrix_compute.cpp: the demonstration load, rounds of matrix products. Floating point
-- is outside the repository: Floats takes it. Sizes and counts are not negative here, and what an `int`
-- overflows on is left out; the messages but for the summaries are, too.
pub mod Cells
pub mod Product
pub mod Demo
use ai_optimized_kernel_and.Prelude.{
  ℕ, zero, suc, ◌+◌, ◌*◌, Bool, Option, none, some, List, [], ◌∷◌, ◌++◌, map, ◌==◌, if◌then◌else◌,
  length, get_elem?, set, replicate,
}
use ai_optimized_kernel_and.Config.Bytes.{bytes_eq}

pub record Floats : Type 1 where
  pub Float : Type 0
  -- 0.0f, 1e9 and -1e9; `+`, `*`, `/`, `<`; conversion of an unsigned integer
  pub zerof : Float
  pub big : Float
  pub minus_big : Float
  pub plus : Float → Float → Float
  pub times : Float → Float → Float
  pub over : Float → Float → Float
  pub less : Float → Float → Bool
  pub of_nat : ℕ → Float

-- `"--size"` and `"--rounds"`
abbrev pub size_flag : List ℕ
size_flag = 45 ∷ 45 ∷ 115 ∷ 105 ∷ 122 ∷ 101 ∷ []

abbrev pub rounds_flag : List ℕ
rounds_flag = 45 ∷ 45 ∷ 114 ∷ 111 ∷ 117 ∷ 110 ∷ 100 ∷ 115 ∷ []

-- The loop of main over its arguments, with the size and the rounds so far. The first parameter is the C
-- library's atoi.
unfoldable pub parse_args : (List ℕ → ℕ) → ℕ × ℕ → List (List ℕ) → ℕ × ℕ
parse_args atoi now [] = now
parse_args atoi now (a ∷ []) = now
parse_args atoi now (a ∷ b ∷ rest) =
    let sized = parse_args atoi (atoi b, now.1) rest in
    let counted = parse_args atoi (now.0, atoi b) rest in
    let kept = parse_args atoi now (b ∷ rest) in
    if bytes_eq a size_flag then sized else if bytes_eq a rounds_flag then counted else kept

-- The iterations of the two loops of matmul that run in parallel, row by row.
unfoldable pub row_from : ℕ → ℕ → ℕ → List (ℕ × ℕ)
row_from i j zero = []
row_from i j (suc rest) = (i, j) ∷ row_from i (suc j) rest

unfoldable pub rows_from : ℕ → ℕ → ℕ → List (ℕ × ℕ)
unfolding row_from
rows_from i zero cols = []
rows_from i (suc rest) cols = row_from i 0 cols ++ rows_from (suc i) rest cols

module _ (fl : Floats) where
  open fl use {Float, zerof, big, minus_big, plus, times, over, less, of_nat}

  -- class Matrix
  pub record Matrix : Type 0 where
    pub cells : List Float
    pub rows : ℕ
    pub cols : ℕ

  -- the constructor: `resize` fills with 0
  unfoldable pub create : ℕ → ℕ → Matrix
  create r c = record { cells = replicate (r * c) zerof; rows = r; cols = c }

  -- `data[p]`; no read is out of range, as Product shows.
  abbrev pub read : Matrix → ℕ → Float
  read m p = elim (get_elem? m.cells p) [ none ↦ zerof | some v ↦ v ]

  -- `C.at(i, j) = v`
  unfoldable pub put : ℕ × ℕ → Float → Matrix → Matrix
  put (i, j) v m = record m { cells = set m.cells (i * m.cols + j) v }

  -- randomize: `rand` has the values of `(float)rand() / RAND_MAX`, the number says how many were drawn.
  unfoldable pub fill : (ℕ → Float) → ℕ → List Float → List Float
  fill rand n [] = []
  fill rand n (v ∷ vs) = rand n ∷ fill rand (suc n) vs

  unfoldable pub randomize : (ℕ → Float) → ℕ → Matrix → Matrix
  unfolding fill
  randomize rand n m = record m { cells = fill rand n m.cells }

  -- The innermost loop of matmul, from `k` on.
  unfoldable pub dot : Matrix → Matrix → ℕ → ℕ → ℕ → ℕ → Float → Float
  dot a b i j k zero sum = sum
  dot a b i j k (suc rest) sum =
      dot a b i j (suc k) rest
        (plus sum (times (read a (i * a.cols + k)) (read b (k * b.cols + j))))

  -- One iteration of the parallel loops.
  unfoldable pub compute_cell : Matrix → Matrix → ℕ × ℕ → Matrix → Matrix
  compute_cell a b (i, j) c = put (i, j) (dot a b i j 0 a.cols zerof) c

  unfoldable pub compute_cells : Matrix → Matrix → List (ℕ × ℕ) → Matrix → Matrix
  compute_cells a b [] c = c
  compute_cells a b (x ∷ xs) c = compute_cells a b xs (compute_cell a b x c)

  -- matmul, with the order in which its iterations happen to run: `none` for the exception
  unfoldable pub matmul_in : List (ℕ × ℕ) → Matrix → Matrix → Option Matrix
  matmul_in order a b =
      if a.cols == b.rows then some (compute_cells a b order (create a.rows b.cols)) else none

  -- matmul on one thread
  unfoldable pub matmul : Matrix → Matrix → Option Matrix
  unfolding rows_from
  matmul a b = matmul_in (rows_from 0 a.rows b.cols) a b

  -- relu
  unfoldable pub relu : Matrix → Matrix
  relu m = record m { cells = map (λ v. if less v zerof then zerof else v) m.cells }

  -- What print_summary prints.
  pub record Summary : Type 0 where
    pub shape : ℕ × ℕ
    pub mean : Float
    pub least : Float
    pub greatest : Float

  -- The loop of print_summary, with `sum`, `min_val` and `max_val`.
  unfoldable pub scan : List Float → Float → Float → Float → Float × Float × Float
  scan [] sum least greatest = (sum, least, greatest)
  scan (v ∷ vs) sum least greatest =
      scan vs (plus sum v) (if less v least then v else least)
        (if less greatest v then v else greatest)

  unfoldable pub print_summary : Matrix → Summary
  unfolding scan
  print_summary m =
      let (sum, least, greatest) = scan m.cells zerof big minus_big in
      record {
        shape = (m.rows, m.cols);
        mean = over sum (of_nat (length m.cells));
        least = least;
        greatest = greatest;
      }

  -- A round of run_demo, after so many random numbers.
  unfoldable pub demo_round : (ℕ → Float) → ℕ → ℕ → Option Summary
  unfolding create randomize matmul relu print_summary
  demo_round rand size drawn =
      let a = randomize rand drawn (create size size) in
      let b = randomize rand (drawn + size * size) (create size size) in
      elim (matmul a b) [
        | none ↦ none
        | some c ↦ elim (matmul (relu c) a) [ none ↦ none | some d ↦ some (print_summary d) ]
      ]

  -- The loop of run_demo: the summaries, or `none` for an exception
  unfoldable pub run_demo : (ℕ → Float) → ℕ → ℕ → ℕ → Option (List Summary)
  unfolding demo_round
  run_demo rand size drawn zero = some []
  run_demo rand size drawn (suc rounds) =
      let rest = run_demo rand size (drawn + 2 * (size * size)) rounds in
      elim (demo_round rand size drawn) [
        | none ↦ none
        | some s ↦ elim rest [ none ↦ none | some ss ↦ some (s ∷ ss) ]
      ]

  -- The return code of main.
  unfoldable pub main : (List ℕ → ℕ) → (ℕ → Float) → List (List ℕ) → ℕ
  unfolding parse_args run_demo
  main atoi rand args =
      let (size, rounds) = parse_args atoi (256, 5) args in
      elim (run_demo rand size 0 rounds) [ none ↦ 1 | some ss ↦ 0 ]
