-- ===== src/Config/Bytes.antt =====
-- Comparison of byte strings.
use ai_optimized_kernel_and.Prelude.{
  ℕ, ◌≡◌, ◌↔◌, Bool, true, false, List, [], ◌∷◌, ◌&&◌, ◌==◌, arith,
}

abbrev pub is_nil : List ℕ → Bool
is_nil [] = true
is_nil (c ∷ cs) = false

unfoldable pub bytes_eq : List ℕ → List ℕ → Bool
bytes_eq [] [] = true
bytes_eq [] (d ∷ ds) = false
bytes_eq (c ∷ cs) [] = false
bytes_eq (c ∷ cs) (d ∷ ds) = c == d && bytes_eq cs ds

pub bytes_eq_iff : (a b : List ℕ) → (bytes_eq a b ≡ true) ↔ (a ≡ b)
unfolding bytes_eq
bytes_eq_iff [] [] = ground arith
bytes_eq_iff [] (d ∷ ds) = ground arith
bytes_eq_iff (c ∷ cs) [] = ground arith
bytes_eq_iff (c ∷ cs) (d ∷ ds) = ground (arith, bytes_eq_iff cs ds)
