-- ===== src/Simulation/Fractions/Sign.antt =====
-- Fractions of src/butterbot/simulation/economy.py that are not negative.
use mathlib.Core.Path.{subst}
use native.Mathlib.Nat.{mul-le-mul_left, mul-le-mul_right}
use butterbot.Base.{
  ℕ, suc, zero, ◌+◌, ◌-◌, ◌*◌, ◌≤◌, ℤ, pos, negsuc, ◌≡◌, refl, true, false, ◌≤ℤ◌, arith, ltb, ◌==◌,
  Bool, ◌||◌, if◌then◌else◌,
}
use butterbot.Result.{Result, ok}
use butterbot.Simulation.Fractions.{
  Fraction, den, of_int, fraction_of, ◌+ℚ◌, ◌*ℚ◌, ◌/ℕ◌, divide, leb_ℚ, min_ℚ,
}
use butterbot.Simulation.Fractions.Order.{fraction_laws}

abbrev pub IsNonNegative : Fraction → Type 0
IsNonNegative x = x.debit ≤ x.credit

pub of_int-IsNonNegative : (n : ℤ) → pos 0 ≤ℤ n → IsNonNegative (of_int n)
unfolding of_int
of_int-IsNonNegative n h = omega arith

pub +ℚ-IsNonNegative : (x y : Fraction) → IsNonNegative x → IsNonNegative y → IsNonNegative (x +ℚ y)
+ℚ-IsNonNegative x y h k =
    simp fraction_laws (omega (arith, mul-le-mul_right (den y) h, mul-le-mul_right (den x) k))

cross-≤_sum : (a e b d : ℕ) → b ≤ d → (a + e) * b + a * d ≤ (a + e) * d + a * b
cross-≤_sum a e b d h = omega (arith, mul-le-mul_left e h)

cross-≤ : (a c b d : ℕ) → a ≤ c → b ≤ d → c * b + a * d ≤ c * d + a * b
cross-≤ a c b d h k =
    subst (λ x. x * b + a * d ≤ x * d + a * b) (omega arith) (cross-≤_sum a (c - a) b d k)

pub *ℚ-IsNonNegative : (x y : Fraction) → IsNonNegative x → IsNonNegative y → IsNonNegative (x *ℚ y)
*ℚ-IsNonNegative x y h k = simp fraction_laws (cross-≤ _ _ _ _ h k)

pub /ℕ-IsNonNegative : (x : Fraction) (n : ℕ) → IsNonNegative x → IsNonNegative (x /ℕ n)
/ℕ-IsNonNegative x n h = simp fraction_laws h

pub min_ℚ-IsNonNegative :
    (x y : Fraction) → IsNonNegative x → IsNonNegative y → IsNonNegative (min_ℚ x y)
unfolding min_ℚ
min_ℚ-IsNonNegative x y h k = ground arith

pub leb_ℚ-zero : (x : Fraction) → IsNonNegative x → leb_ℚ (of_int (pos 0)) x ≡ true
unfolding of_int den
leb_ℚ-zero x h = ground arith

one-ok :
    (b c : Bool) (p q : Fraction) (r : Result Fraction)
    → (b || c) ≡ true
    → (x : Fraction) × ((if b then ok p else if c then ok q else r) ≡ ok x)
one-ok true c p q r h = (p, refl)
one-ok false true p q r h = (q, refl)
one-ok false false p q r h = ground arith

-- Only a zero has no reciprocal.
pub divide-ok :
    (x y : Fraction) → (y.credit == y.debit) ≡ false → (q : Fraction) × (divide x y ≡ ok q)
unfolding divide
divide-ok x y h = one-ok (ltb y.debit y.credit) (ltb y.credit y.debit) _ _ _ (ground arith)

pub fraction_of-ok : (n d : ℤ) → pos 1 ≤ℤ d → (q : Fraction) × (fraction_of n d ≡ ok q)
unfolding fraction_of
fraction_of-ok n (pos zero) h = ground arith
fraction_of-ok n (pos (suc d)) h = (_, refl)
fraction_of-ok n (negsuc d) h = ground arith

pub fraction_of-IsNonNegative :
    (n d : ℤ) {q : Fraction} → pos 0 ≤ℤ n → pos 1 ≤ℤ d → fraction_of n d ≡ ok q → IsNonNegative q
unfolding fraction_of
fraction_of-IsNonNegative n (pos zero) {q} p h e = ground arith
fraction_of-IsNonNegative n (pos (suc d)) {q} p h e = ground arith
fraction_of-IsNonNegative n (negsuc d) {q} p h e = ground arith
