-- ===== src/Onnx/Argmax.antt =====
-- The class that the ONNX classifier reads off the outputs of a model.
use ai_optimized_kernel_and.Prelude.{
  ℕ, zero, suc, ◌+◌, ◌≤◌, ◌<◌, ◌≡◌, ◌==◌, ◌⊎◌, inl, inr, true, false, arith, Bool-cases,
}
use native.Mathlib.Decide.{dec_lt}
use ai_optimized_kernel_and.Onnx.{Runtime, max_element, argmax}

-- `<` on the five outputs: a strict order in which "not less" chains. It is one where none of the five is
-- a NaN; of other floats nothing is asked.
pub record IsOrder (rt : Runtime) (prob : ℕ → rt.Float) : Type 0 where
  pub irreflexive : (a : ℕ) → a < 5 → rt.less (prob a) (prob a) ≡ false
  pub chains :
      (a b c : ℕ)
      → a < 5
      → b < 5
      → c < 5
      → rt.less (prob a) (prob b) ≡ false
      → rt.less (prob b) (prob c) ≡ false
      → rt.less (prob a) (prob c) ≡ false
  pub asymmetric :
      (a b : ℕ)
      → a < 5
      → b < 5
      → rt.less (prob a) (prob b) ≡ true
      → rt.less (prob b) (prob a) ≡ false

module _ (rt : Runtime) (prob : ℕ → rt.Float) (order : IsOrder rt prob) where
  -- Of the outputs before `i`, none is greater than the one at `best`, and those before `best` are
  -- less.
  record Leads (best i : ℕ) : Type 0 where
    greatest : (j : ℕ) → j < i → rt.less (prob best) (prob j) ≡ false
    first : (j : ℕ) → j < best → rt.less (prob j) (prob best) ≡ true

  Leads-next :
      (best i : ℕ)
      → rt.less (prob best) (prob i) ≡ false
      → best < i
      → Leads best i
      → Leads best (suc i)
  Leads-next best i not_more h l = record {
    greatest = λ j k. elim (Bool-cases (j == i)) [
      | inl e ↦ let q : j ≡ i = ground arith in rw q not_more
      | inr e ↦ l.greatest j (ground arith)
    ];
    first = l.first;
  }

  Leads-new :
      (best i : ℕ)
      → best < i
      → i < 5
      → rt.less (prob best) (prob i) ≡ true
      → Leads best i
      → Leads i (suc i)
  Leads-new best i before in_range more l = record {
    greatest = λ j k. elim (Bool-cases (j == i)) [
      | inl e ↦ let q : j ≡ i = ground arith in rw q (order.irreflexive i in_range)
      | inr e ↦
          order.chains i best j in_range (omega arith) (omega arith)
            (order.asymmetric best i (omega arith) in_range more) (l.greatest j (ground arith))
    ];
    first = λ j k. elim (Bool-cases (rt.less (prob j) (prob i))) [
      | inl e ↦ e
      | inr e ↦
          let no_more =
            order.chains best j i (omega arith) (omega arith) in_range (l.greatest j k) e in
          ground (arith, no_more, more)
    ];
  }

  max_element-Leads :
      (best i n rest : ℕ)
      → n ≤ 5
      → i + rest ≡ n
      → best < i
      → Leads best i
      → (max_element rt prob best i rest < n) × Leads (max_element rt prob best i rest) n
  unfolding max_element
  max_element-Leads best i n zero five e h l = let q : i ≡ n = omega arith in rw (← q) (h, l)
  max_element-Leads best i n (suc rest) five e h l =
      elim (Bool-cases (rt.less (prob best) (prob i))) [
        | inl more ↦
            rw (max_element, more)
              (max_element-Leads i (suc i) n rest five (omega arith) (omega arith)
                (Leads-new best i h (omega arith) more l))
        | inr not_more ↦
            rw (max_element, not_more)
              (max_element-Leads best (suc i) n rest five (omega arith) (omega arith)
                (Leads-next best i not_more h l))
      ]

  -- If `<` is an order on the five outputs, the class is one of the five; no output is greater than that of
  -- the class, and every output before it is less.
  pub argmax_lem :
      (j : ℕ)
      → j < 5
      → (argmax rt prob < 5)
        × (rt.less (prob (argmax rt prob)) (prob j) ≡ false)
        × ((argmax rt prob ≤ j) ⊎ (rt.less (prob j) (prob (argmax rt prob)) ≡ true))
  unfolding argmax
  argmax_lem j h =
      let (lt, l) = max_element-Leads 0 1 5 4 (omega arith) (omega arith) (omega arith) start in
      (
        lt,
        l.greatest j h,
        elim (dec_lt j (argmax rt prob)) [
          | yes before ↦ inr (l.first j before)
          | no after ↦ inl (omega arith)
        ],
      )
    where
      start : Leads 0 1
      start = record {
        greatest = λ j h. let z : j ≡ 0 = omega arith in rw z (order.irreflexive 0 (omega arith));
        first = λ j h. elim h [ ];
      }
