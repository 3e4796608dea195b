-- ===== src/Prelude/Lists.antt =====
-- Lists measured by native numbers, and taking out the first element that passes a test.
use Prim.Native.Nat.{ℕ, zero, suc, ◌+◌, ◌≤◌, ◌<◌}
use mathlib.Core.Logic.{◌≢◌}
use mathlib.Core.Path.{◌≡◌, refl}
use mathlib.Core.Bool.{Bool, true, false}
use mathlib.Core.List.{List, [], ◌∷◌, ◌++◌}
use mathlib.Core.Option.{Option, none, some}
use native.Mathlib.Omega.{arith}

module _ {ℓ} {A : Type ℓ} where
  abbrev pub length : List A → ℕ
  length [] = 0
  length (x ∷ xs) = suc (length xs)

  abbrev pub get_elem? : List A → ℕ → Option A
  get_elem? [] i = none
  get_elem? (x ∷ xs) zero = some x
  get_elem? (x ∷ xs) (suc i) = get_elem? xs i

  -- A write out of bounds changes nothing.
  abbrev pub set : List A → ℕ → A → List A
  set [] i v = []
  set (x ∷ xs) zero v = v ∷ xs
  set (x ∷ xs) (suc i) v = x ∷ set xs i v

  pub length-append : (xs ys : List A) → length (xs ++ ys) ≡ length xs + length ys
  length-append [] ys = omega arith
  length-append (x ∷ xs) ys = omega (arith, length-append xs ys)

  -- The first element that passes the test, and the list without it.
  abbrev pub take_first : (A → Bool) → List A → Option (A × List A)
  take_first p [] = none
  take_first p (x ∷ xs) =
      let rest = take_first p xs in
      elim (p x) [
        | true ↦ some (x, xs)
        | false ↦ elim rest [ none ↦ none | some (y, ys) ↦ some (y, x ∷ ys) ]
      ]

  -- Insertion before the first element that the new one precedes.
  abbrev pub insert_before : (A → A → Bool) → A → List A → List A
  insert_before lt a [] = a ∷ []
  insert_before lt a (x ∷ xs) =
      let rest = insert_before lt a xs in elim (lt a x) [ true ↦ a ∷ x ∷ xs | false ↦ x ∷ rest ]

  -- The list without the element at a position; out of range it stays as it is.
  abbrev pub remove_at : ℕ → List A → List A
  remove_at i [] = []
  remove_at zero (x ∷ xs) = xs
  remove_at (suc i) (x ∷ xs) = x ∷ remove_at i xs

  -- Insertion at the head, or at the end.
  abbrev pub insert_at : Bool → A → List A → List A
  insert_at true a xs = a ∷ xs
  insert_at false a xs = xs ++ a ∷ []

  pub insert_before-first :
      (lt : A → A → Bool) (a x : A) (xs : List A)
      → lt a x ≡ true
      → insert_before lt a (x ∷ xs) ≡ a ∷ x ∷ xs
  insert_before-first lt a x xs h = ground (arith, h)

  pub insert_before-past :
      (lt : A → A → Bool) (a x : A) (xs : List A)
      → lt a x ≡ false
      → insert_before lt a (x ∷ xs) ≡ x ∷ insert_before lt a xs
  insert_before-past lt a x xs h = ground (arith, h)

module _ {ℓ} {A : Type ℓ} where
  abbrev pub drop : ℕ → List A → List A
  drop zero xs = xs
  drop (suc n) [] = []
  drop (suc n) (x ∷ xs) = drop n xs

  pub drop-length : (xs : List A) → drop (length xs) xs ≡ []
  drop-length [] = refl
  drop-length (x ∷ xs) = drop-length xs

  pub drop-append : (n : ℕ) (xs ys : List A) → n ≤ length xs → drop n (xs ++ ys) ≡ drop n xs ++ ys
  drop-append zero xs ys h = refl
  drop-append (suc n) [] ys h = absurd (omega arith)
  drop-append (suc n) (x ∷ xs) ys h = drop-append n xs ys (omega arith)

module _ {ℓ} {A : Type ℓ} where
  abbrev pub replicate : ℕ → A → List A
  replicate zero a = []
  replicate (suc n) a = a ∷ replicate n a

  pub length-replicate : (n : ℕ) (a : A) → length (replicate n a) ≡ n
  length-replicate zero a = refl
  length-replicate (suc n) a = omega (arith, length-replicate n a)

  pub length-set : (xs : List A) (i : ℕ) (v : A) → length (set xs i v) ≡ length xs
  length-set [] i v = refl
  length-set (x ∷ xs) zero v = refl
  length-set (x ∷ xs) (suc i) v = omega (arith, length-set xs i v)

  pub get_elem?-set_self :
      (xs : List A) (i : ℕ) (v : A) → i < length xs → get_elem? (set xs i v) i ≡ some v
  get_elem?-set_self [] i v h = elim h [ ]
  get_elem?-set_self (x ∷ xs) zero v h = refl
  get_elem?-set_self (x ∷ xs) (suc i) v h = get_elem?-set_self xs i v (omega arith)

  pub get_elem?-set_ne :
      (xs : List A) (i j : ℕ) (v : A) → i ≢ j → get_elem? (set xs i v) j ≡ get_elem? xs j
  get_elem?-set_ne [] i j v h = refl
  get_elem?-set_ne (x ∷ xs) zero zero v h = absurd (h refl)
  get_elem?-set_ne (x ∷ xs) zero (suc j) v h = refl
  get_elem?-set_ne (x ∷ xs) (suc i) zero v h = refl
  get_elem?-set_ne (x ∷ xs) (suc i) (suc j) v h = get_elem?-set_ne xs i j v (λ e. h (omega arith))

  -- Lists of one length that agree at every position in range are equal.
  pub ext :
      (xs ys : List A)
      → length xs ≡ length ys
      → ((i : ℕ) → i < length xs → get_elem? xs i ≡ get_elem? ys i)
      → xs ≡ ys
  ext [] [] e h = refl
  ext [] (y ∷ ys) e h = absurd (omega arith)
  ext (x ∷ xs) [] e h = absurd (omega arith)
  ext (x ∷ xs) (y ∷ ys) e h =
      let first : some x ≡ some y = h 0 (omega arith) in
      let rest = ext xs ys (omega arith) (λ i k. h (suc i) (omega arith)) in cc
