-- ===== src/Base/Text.antt =====
-- Python's string concatenation and `str.removeprefix`.
use Prim.Native.String.{String, ◌++◌, len, slice}
use text.Mathlib.Text.{starts_with}
use butterbot.Base.Tests.{if◌then◌else◌}

abbrev pub concat : String → String → String
concat s t = s ++ t

abbrev pub remove_prefix : String → String → String
remove_prefix s prefix = if starts_with s prefix then slice s (len prefix) (len s) else s
