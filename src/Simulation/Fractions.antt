-- ===== src/Simulation/Fractions.antt =====
-- Python's `Fraction` as src/butterbot/simulation/economy.py uses it. A fraction is not kept in
-- lowest terms: `Same` is Python's `==`, and the order multiplies across.
pub mod Order
pub mod Sign
use butterbot.Base.{
  ℕ, zero, suc, ◌+◌, ◌-◌, ◌*◌, ◌/◌, ◌≤◌, ℤ, pos, negsuc, pos_part, neg_part, sub_ℕ, Bool, ltb, leb,
  ◌≡◌, if◌then◌else◌,
}
use butterbot.Result.{Result, ok, err, zero_division}

-- (credit - debit) / (den_less + 1)
pub record Fraction : Type 0 where
  pub credit : ℕ
  pub debit : ℕ
  pub den_less : ℕ

unfoldable pub den : Fraction → ℕ
den x = suc x.den_less

unfoldable pub of_int : ℤ → Fraction
of_int n = record { credit = pos_part n; debit = neg_part n; den_less = 0 }

-- `Fraction(n, d)`
unfoldable pub fraction_of : ℤ → ℤ → Result Fraction
fraction_of n (pos zero) = err zero_division
fraction_of n (pos (suc d)) = ok record { credit = pos_part n; debit = neg_part n; den_less = d }
fraction_of n (negsuc d) = ok record { credit = neg_part n; debit = pos_part n; den_less = d }

infixl 65 ◌+ℚ◌ ◌-ℚ◌
infixl 70 ◌*ℚ◌ ◌/ℕ◌
unfoldable pub ◌+ℚ◌ : Fraction → Fraction → Fraction
x +ℚ y = record {
  credit = x.credit * den y + y.credit * den x;
  debit = x.debit * den y + y.debit * den x;
  den_less = den x * den y - 1;
}

unfoldable pub negate : Fraction → Fraction
negate x = record x { credit = x.debit; debit = x.credit }

abbrev pub ◌-ℚ◌ : Fraction → Fraction → Fraction
x -ℚ y = x +ℚ negate y

unfoldable pub ◌*ℚ◌ : Fraction → Fraction → Fraction
x *ℚ y = record {
  credit = x.credit * y.credit + x.debit * y.debit;
  debit = x.credit * y.debit + x.debit * y.credit;
  den_less = den x * den y - 1;
}

-- `x / n` for a positive `n`
unfoldable pub ◌/ℕ◌ : Fraction → ℕ → Fraction
x /ℕ n = record x { den_less = den x * n - 1 }

-- `x / y`
unfoldable pub divide : Fraction → Fraction → Result Fraction
divide x y =
    if ltb y.debit y.credit
    then ok (x *ℚ record { credit = den y; debit = 0; den_less = y.credit - y.debit - 1 })
    else if ltb y.credit y.debit
    then ok (x *ℚ record { credit = 0; debit = den y; den_less = y.debit - y.credit - 1 })
    else err zero_division

abbrev pub Same : Fraction → Fraction → Type 0
Same x y = x.credit * den y + y.debit * den x ≡ y.credit * den x + x.debit * den y

infix 50 ◌≤ℚ◌
abbrev pub ◌≤ℚ◌ : Fraction → Fraction → Type 0
x ≤ℚ y = x.credit * den y + y.debit * den x ≤ y.credit * den x + x.debit * den y

abbrev pub leb_ℚ : Fraction → Fraction → Bool
leb_ℚ x y = leb (x.credit * den y + y.debit * den x) (y.credit * den x + x.debit * den y)

abbrev pub ltb_ℚ : Fraction → Fraction → Bool
ltb_ℚ x y = ltb (x.credit * den y + y.debit * den x) (y.credit * den x + x.debit * den y)

-- `min(x, y)`
unfoldable pub min_ℚ : Fraction → Fraction → Fraction
min_ℚ x y = if ltb_ℚ y x then y else x

-- `int(x)`: rounds towards zero.
unfoldable pub truncate : Fraction → ℤ
truncate x =
    if leb x.debit x.credit
    then pos ((x.credit - x.debit) / den x)
    else sub_ℕ 0 ((x.debit - x.credit) / den x)
