-- ===== src/Exact/Bounds.antt =====
-- What the checked integer operations accept, and that a sum never wraps.
use butterbot.Base.{ℤ, ◌+ℤ◌, ◌≤ℤ◌, ◌≡◌, arith}
use butterbot.Exact.{int64_min, int64_max, require_int64, checked_add_int64}
use butterbot.Result.{ok}

abbrev pub IsInt64 : ℤ → Type 0
IsInt64 value = (int64_min ≤ℤ value) × (value ≤ℤ int64_max)

pub require_int64-ok :
    (minimum value : ℤ) {result : ℤ}
    → require_int64 minimum value ≡ ok result
    → (result ≡ value) × (minimum ≤ℤ value) × (value ≤ℤ int64_max)
unfolding require_int64
require_int64-ok minimum value h = ground arith

pub require_int64_accepts :
    (minimum value : ℤ)
    → minimum ≤ℤ value
    → value ≤ℤ int64_max
    → require_int64 minimum value ≡ ok value
unfolding require_int64
require_int64_accepts minimum value low high = ground arith

-- A checked sum that returns is the exact sum of its arguments and lies in the 64-bit range.
pub checked_add_int64-ok :
    (left right : ℤ) {result : ℤ}
    → checked_add_int64 left right ≡ ok result
    → (result ≡ left +ℤ right) × IsInt64 result
unfolding checked_add_int64
checked_add_int64-ok left right h = ground arith
