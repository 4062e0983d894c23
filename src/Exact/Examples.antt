-- ===== src/Exact/Examples.antt =====
-- Runs of the checked integer operations.
use butterbot.Base.{pos, negsuc, ◌+ℤ◌, ◌≡◌, refl}
use butterbot.Exact.{int64_max, checked_add_int64, require_int64}
use butterbot.Result.{ok, err, out_of_range}

add_in_range : checked_add_int64 (pos 40) (negsuc 1) ≡ ok (pos 38)
unfolding checked_add_int64 ◌+ℤ◌
add_in_range = refl

add_overflows : checked_add_int64 int64_max (pos 1) ≡ err out_of_range
unfolding checked_add_int64 ◌+ℤ◌
add_overflows = refl

zero_is_no_identity : require_int64 (pos 1) (pos 0) ≡ err out_of_range
unfolding require_int64
zero_is_no_identity = refl
