-- ===== src/Prelude/Rearranged.antt =====
-- Operations on lists that take elements out or put them in, and permutations.
use Prim.Native.Nat.{ℕ, zero, suc}
use mathlib.Core.Logic.{inl, inr}
use mathlib.Core.Path.{◌≡◌}
use mathlib.Core.Bool.{Bool, true, false}
use mathlib.Core.List.{List, [], ◌∷◌, Perm, perm_middle, append-nil}
use mathlib.Core.List.Perm
use mathlib.Core.Option.{some}
use native.Mathlib.Omega.{arith}
use ai_optimized_kernel_and.Prelude.Tests.{Bool-cases, Option-cases}
use ai_optimized_kernel_and.Prelude.Lists.{
  take_first, insert_at, insert_before, insert_before-first, insert_before-past, get_elem?,
  remove_at,
}

pub take_first-Perm :
    {A : Type 0} (p : A → Bool) (es : List A) (e : A) (rest : List A)
    → take_first p es ≡ some (e, rest)
    → Perm es (e ∷ rest)
take_first-Perm p [] e rest h = cc
take_first-Perm p (x ∷ xs) e rest h = elim (Bool-cases (p x)) [
  | inl now ↦
      let (a, b) : (x ≡ e) × (xs ≡ rest) = ground (arith, h, now) in
      rw (← a, ← b) (Perm.refl (x ∷ xs))
  | inr not_now ↦ elim (Option-cases (take_first p xs)) [
    | inl n ↦ ground (arith, h, not_now, n)
    | inr ((y, ys), n) ↦
        let (a, b) : (y ≡ e) × (x ∷ ys ≡ rest) = ground (arith, h, not_now, n) in
        rw (← a, ← b) (Perm.trans (Perm.cons x (take_first-Perm p xs y ys n)) (Perm.swap y x ys))
  ]
]

pub insert_before-Perm :
    {A : Type 0} (lt : A → A → Bool) (a : A) (xs : List A) → Perm (insert_before lt a xs) (a ∷ xs)
insert_before-Perm lt a [] = Perm.refl (a ∷ [])
insert_before-Perm lt a (x ∷ xs) = elim (Bool-cases (lt a x)) [
  | inl first ↦ rw (insert_before-first lt a x xs first) (Perm.refl (a ∷ x ∷ xs))
  | inr past ↦
      rw (insert_before-past lt a x xs past)
        (Perm.trans (Perm.cons x (insert_before-Perm lt a xs)) (Perm.swap a x xs))
]

pub insert_at-Perm :
    {A : Type 0} (head : Bool) (a : A) (xs : List A) → Perm (insert_at head a xs) (a ∷ xs)
insert_at-Perm true a xs = Perm.refl (a ∷ xs)
insert_at-Perm false a xs = rw append-nil at (perm_middle {a = a} xs [])

pub remove_at-Perm :
    {A : Type 0} (xs : List A) (i : ℕ) (e : A)
    → get_elem? xs i ≡ some e
    → Perm xs (e ∷ remove_at i xs)
remove_at-Perm [] i e h = cc
remove_at-Perm (x ∷ xs) zero e h = let q : x ≡ e = ground (arith, h) in rw q (Perm.refl (e ∷ xs))
remove_at-Perm (x ∷ xs) (suc i) e h =
    Perm.trans (Perm.cons x (remove_at-Perm xs i e h)) (Perm.swap e x (remove_at i xs))
