-- ===== src/Simulation/Fractions/Order.antt =====
-- The laws of the fractions of src/butterbot/simulation/economy.py: what the operations do to
-- numerators and denominators, and the order.
use native.Mathlib.Nat.{mul-le-mul_right, le_of_mul-le-mul_right}
use butterbot.Base.{
  ℕ, ◌+◌, ◌*◌, ◌≤◌, ℤ, pos, pos_part, neg_part, ◌≡◌, inl, inr, refl, Bool-cases, arith,
}
use butterbot.Simulation.Fractions.{
  Fraction, den, of_int, ◌+ℚ◌, ◌-ℚ◌, negate, ◌*ℚ◌, ◌/ℕ◌, Same, ◌≤ℚ◌, ltb_ℚ, min_ℚ,
}

pub den_pos : (x : Fraction) → 1 ≤ den x
unfolding den
den_pos x = omega arith

pub den-of_int : (n : ℤ) → den (of_int n) ≡ 1
unfolding den of_int
den-of_int n = refl

pub credit-of_int : (n : ℤ) → (of_int n).credit ≡ pos_part n
unfolding of_int
credit-of_int n = refl

pub debit-of_int : (n : ℤ) → (of_int n).debit ≡ neg_part n
unfolding of_int
debit-of_int n = refl

pub den-+ℚ : (x y : Fraction) → den (x +ℚ y) ≡ den x * den y
unfolding den ◌+ℚ◌
den-+ℚ x y = omega arith

pub credit-+ℚ : (x y : Fraction) → (x +ℚ y).credit ≡ x.credit * den y + y.credit * den x
unfolding ◌+ℚ◌
credit-+ℚ x y = refl

pub debit-+ℚ : (x y : Fraction) → (x +ℚ y).debit ≡ x.debit * den y + y.debit * den x
unfolding ◌+ℚ◌
debit-+ℚ x y = refl

pub den-negate : (x : Fraction) → den (negate x) ≡ den x
unfolding den negate
den-negate x = refl

pub credit-negate : (x : Fraction) → (negate x).credit ≡ x.debit
unfolding negate
credit-negate x = refl

pub debit-negate : (x : Fraction) → (negate x).debit ≡ x.credit
unfolding negate
debit-negate x = refl

pub den-*ℚ : (x y : Fraction) → den (x *ℚ y) ≡ den x * den y
unfolding den ◌*ℚ◌
den-*ℚ x y = omega arith

pub credit-*ℚ : (x y : Fraction) → (x *ℚ y).credit ≡ x.credit * y.credit + x.debit * y.debit
unfolding ◌*ℚ◌
credit-*ℚ x y = refl

pub debit-*ℚ : (x y : Fraction) → (x *ℚ y).debit ≡ x.credit * y.debit + x.debit * y.credit
unfolding ◌*ℚ◌
debit-*ℚ x y = refl

pub den-/ℕ : (x : Fraction) (n : ℕ) → 1 ≤ n → den (x /ℕ n) ≡ den x * n
unfolding den ◌/ℕ◌
den-/ℕ x n h = grind arith

pub credit-/ℕ : (x : Fraction) (n : ℕ) → (x /ℕ n).credit ≡ x.credit
unfolding ◌/ℕ◌
credit-/ℕ x n = refl

pub debit-/ℕ : (x : Fraction) (n : ℕ) → (x /ℕ n).debit ≡ x.debit
unfolding ◌/ℕ◌
debit-/ℕ x n = refl

pub ruleset fraction_laws = (
  arith, den-of_int, credit-of_int, debit-of_int, den-+ℚ, credit-+ℚ, debit-+ℚ, den-negate,
  credit-negate, debit-negate, den-*ℚ, credit-*ℚ, debit-*ℚ, den-/ℕ, credit-/ℕ, debit-/ℕ,
)

pub ≤ℚ_trans : (x y z : Fraction) → x ≤ℚ y → y ≤ℚ z → x ≤ℚ z
≤ℚ_trans x y z h k =
    le_of_mul-le-mul_right {k = den y}
      (omega (arith, mul-le-mul_right (den z) h, mul-le-mul_right (den x) k)) (den_pos y)

pub min_ℚ-≤_left : (x y : Fraction) → min_ℚ x y ≤ℚ x
unfolding min_ℚ
min_ℚ-≤_left x y = elim (Bool-cases (ltb_ℚ y x)) [
  | inl e ↦ rw e (ground arith)
  | inr e ↦ rw e (omega arith)
]

pub min_ℚ-≤_right : (x y : Fraction) → min_ℚ x y ≤ℚ y
unfolding min_ℚ
min_ℚ-≤_right x y = elim (Bool-cases (ltb_ℚ y x)) [
  | inl e ↦ rw e (omega arith)
  | inr e ↦ rw e (ground arith)
]

-- What is taken of what is left leaves the whole in order.
pub ≤ℚ_of-rest : (whole part taken : Fraction) → taken ≤ℚ whole -ℚ part → part +ℚ taken ≤ℚ whole
≤ℚ_of-rest whole part taken h =
    simp fraction_laws (omega (arith, den_pos part, simp fraction_laws at h))

pub Same-rest : (whole part : Fraction) → Same (part +ℚ (whole -ℚ part)) whole
Same-rest whole part = simp fraction_laws (omega arith)

pub Same-demand :
    (spent asked taken wanted : Fraction)
    → Same (spent +ℚ taken +ℚ (asked -ℚ spent +ℚ wanted -ℚ taken)) (asked +ℚ wanted)
Same-demand spent asked taken wanted = simp fraction_laws (omega arith)

pub rest-≤ℚ : (whole part : Fraction) → part ≤ℚ whole → of_int (pos 0) ≤ℚ whole -ℚ part
rest-≤ℚ whole part h = simp fraction_laws (omega arith)
