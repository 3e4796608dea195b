-- ===== src/Prelude/Families.antt =====
-- Families of lists, such as the queues by their number or what each CPU holds.
use Prim.Native.Nat.{ℕ, ◌+◌}
use mathlib.Core.Path.{◌≡◌, refl, ap}
use mathlib.Core.Logic.{◌≢◌, ◌⊎◌, inl, inr}
use mathlib.Core.List.{List, [], ◌∷◌, ◌++◌, Perm, perm_middle}
use mathlib.Core.List.Perm
use native.Mathlib.Omega.{arith}
use native.Mathlib.Decide.{ℕ_discrete}
use ai_optimized_kernel_and.Prelude.Tests.{◌==◌, if◌then◌else◌}

abbrev pub Absent : ℕ → List ℕ → Type 0
Absent d [] = Unit {0}
Absent d (x ∷ xs) = (x ≢ d) × Absent d xs

abbrev pub Once : ℕ → List ℕ → Type 0
Once d [] = ⊥
Once d (x ∷ xs) = ((x ≡ d) × Absent d xs) ⊎ ((x ≢ d) × Once d xs)

-- The family with another value at one index.
abbrev pub update {ℓ} : {A : Type ℓ} → (ℕ → A) → ℕ → A → ℕ → A
update f i a j = if j == i then a else f j

pub update_self {ℓ} : {A : Type ℓ} (f : ℕ → A) (i : ℕ) (a : A) → update f i a i ≡ a
update_self f i a = ground arith

pub update_ne {ℓ} : {A : Type ℓ} (f : ℕ → A) (i j : ℕ) (a : A) → j ≢ i → update f i a j ≡ f j
update_ne f i j a h = ground arith

pub update-all :
    {A : Type 0} (P : A → Type 0) (f : ℕ → A) (i : ℕ) (a : A)
    → P a
    → ((j : ℕ) → P (f j))
    → (j : ℕ) → P (update f i a j)
update-all P f i a h all j = elim (ℕ_discrete j i) [
  | yes e ↦ rw (e, update_self f i a) h
  | no ne ↦ rw (update_ne f i j a ne) (all j)
]

module _ {A : Type 0} where
  -- All that the lists at some indices hold.
  abbrev pub gather : List ℕ → (ℕ → List A) → List A
  gather [] f = []
  gather (d ∷ ds) f = f d ++ gather ds f

  module _ (f g : ℕ → List A) (d : ℕ) (others : (d' : ℕ) → d' ≢ d → g d' ≡ f d') where
    pub gather-Absent : (ds : List ℕ) → Absent d ds → gather ds g ≡ gather ds f
    gather-Absent [] h = refl
    gather-Absent (x ∷ xs) (ne, h) = rw (others x ne, gather-Absent xs h)

    pub gather-Perm :
        (ds : List ℕ) (e : A)
        → Once d ds
        → Perm (g d) (e ∷ f d)
        → Perm (gather ds g) (e ∷ gather ds f)
    gather-Perm [] e h p = absurd h
    gather-Perm (x ∷ xs) e (inl (q, h)) p =
        rw (q, gather-Absent xs h) (Perm.append_right (gather xs f) p)
    gather-Perm (x ∷ xs) e (inr (ne, h)) p = rw (others x ne) (
        Perm.trans (Perm.append_left (f x) (gather-Perm xs e h p))
          (perm_middle (f x) (gather xs f)))

  pub gather-ext :
      (f g : ℕ → List A) (ds : List ℕ) → ((d : ℕ) → g d ≡ f d) → gather ds g ≡ gather ds f
  gather-ext f g [] h = refl
  gather-ext f g (x ∷ xs) h = rw (h x, gather-ext f g xs h)

-- The sum of a family of numbers at some indices.
abbrev pub total : List ℕ → (ℕ → ℕ) → ℕ
total [] f = 0
total (d ∷ ds) f = f d + total ds f

module _ (f g : ℕ → ℕ) (d : ℕ) (others : (d' : ℕ) → d' ≢ d → g d' ≡ f d') where
  total-Absent : (ds : List ℕ) → Absent d ds → total ds g ≡ total ds f
  total-Absent [] h = refl
  total-Absent (x ∷ xs) (ne, h) = rw (others x ne, total-Absent xs h)

  -- A change at one index changes the sum by as much.
  total_step : (ds : List ℕ) → Once d ds → total ds g + f d ≡ total ds f + g d
  total_step [] h = absurd h
  total_step (x ∷ xs) (inl (q, h)) = rw (q, total-Absent xs h) (omega arith)
  total_step (x ∷ xs) (inr (ne, h)) = rw (others x ne) (omega (arith, total_step xs h))

-- So does a change of what the numbers are computed from.
pub total-update :
    {A : Type 0} (w : A → ℕ) (is : List ℕ) (f : ℕ → A) (i : ℕ) (a old : A)
    → Once i is
    → f i ≡ old
    → total is (λ j. w (update f i a j)) + w old ≡ total is (λ j. w (f j)) + w a
total-update w is f i a old once e =
    rw (update_self f i a, e) at
      (total_step (λ j. w (f j)) (λ j. w (update f i a j)) i (λ j ne. ap w (update_ne f i j a ne))
        is once)

-- Where all is a thing that counts nothing, the sum is 0.
pub total-const :
    {A : Type 0} (w : A → ℕ) (f : ℕ → A) (is : List ℕ) (a : A)
    → w a ≡ 0
    → ((i : ℕ) → f i ≡ a)
    → total is (λ i. w (f i)) ≡ 0
total-const w f [] a z e = refl
total-const w f (i ∷ is) a z e = rw (e i, z, total-const w f is a z e) refl
