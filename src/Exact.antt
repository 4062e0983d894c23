-- ===== src/Exact.antt =====
-- src/butterbot/application/exact_integer.py: integers that must fit a signed 64-bit word.
pub mod Bounds
mod Examples
use butterbot.Base.{ℤ, pos, negsuc, ◌+ℤ◌, leb_ℤ, ◌&&◌, if◌then◌else◌}
use butterbot.Result.{Result, ok, err, Error, out_of_range, ◌>>=◌, ◌>>◌}

abbrev pub int64_min : ℤ
int64_min = negsuc 9223372036854775807

abbrev pub int64_max : ℤ
int64_max = pos 9223372036854775807

-- `require_int64` with both bounds given.
abbrev pub require_between : ℤ → ℤ → ℤ → Result ℤ
require_between minimum maximum value =
    if leb_ℤ minimum value && leb_ℤ value maximum then ok value else err out_of_range

-- `require_int64(value, name, minimum=minimum)`
unfoldable pub require_int64 : ℤ → ℤ → Result ℤ
require_int64 minimum value = require_between minimum int64_max value

unfoldable pub checked_add_int64 : ℤ → ℤ → Result ℤ
unfolding require_int64
checked_add_int64 left right = do
  require_int64 int64_min left
  require_int64 int64_min right
  require_int64 int64_min (left +ℤ right)
