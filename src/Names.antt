-- ===== src/Names.antt =====
-- Stable lowercase names and permanent references: src/butterbot/application/identity.py,
-- src/butterbot/application/economy/audit_identity.py, and the patterns of
-- src/butterbot/application/operations/{idempotency,outcome_codec}.py. A text is walked as the list of
-- its code points.
use Prim.Native.Char.{code}
use butterbot.Base.{
  ℕ, suc, Bool, true, false, not, ◌&&◌, ◌||◌, String, Option, none, some, List, [], ◌∷◌, leb, ltb,
  ◌==◌, all, length, is_some, if◌then◌else◌,
}
use butterbot.Result.{Result, ok, err, value_error, ◌>>◌}

abbrev pub codes : String → List ℕ
codes String.[] = []
codes (String.◌∷◌ c s) = code c ∷ codes s

-- [a-z] and [a-z0-9_]
abbrev pub is_lower : ℕ → Bool
is_lower c = leb b'a' c && leb c b'z'

abbrev pub is_word : ℕ → Bool
is_word c = is_lower c || ((leb b'0' c && leb c b'9') || c == b'_')

-- The dots of a text that matches [a-z][a-z0-9_]*(\.[a-z][a-z0-9_]*)*: at the start of a segment, and
-- inside one.
unfoldable mutual
  pub segment : List ℕ → ℕ → Option ℕ
  segment [] dots = none
  segment (c ∷ cs) dots = if is_lower c then inside cs dots else none

  pub inside : List ℕ → ℕ → Option ℕ
  inside [] dots = some dots
  inside (c ∷ cs) dots =
      if c == b'.' then segment cs (suc dots) else if is_word c then inside cs dots else none

-- `_STABLE_NAME.fullmatch` and `_NAMESPACED_NAME.fullmatch`
unfoldable pub is_stable_name : List ℕ → Bool
is_stable_name cs = is_some (segment cs 0)

unfoldable pub is_namespaced_name : List ℕ → Bool
is_namespaced_name cs = elim (segment cs 0) [ none ↦ false | some dots ↦ ltb 0 dots ]

-- `_require_name`
abbrev pub require_name : String → ℕ → Bool → Result String
require_name value maximum namespaced =
    let text = codes value in
    let matches : Bool = if namespaced then is_namespaced_name text else is_stable_name text in
    if ltb maximum (length text) || not matches then err value_error else ok value

unfoldable pub is_permanent_reference : String → ℕ → Bool
is_permanent_reference value maximum =
    let text = codes value in
    (leb 1 (length text) && leb (length text) maximum) && all (λ c. leb b'!' c && leb c b'~') text

abbrev pub require_permanent_reference : String → ℕ → Result String
require_permanent_reference value maximum =
    if is_permanent_reference value maximum then ok value else err value_error

pub record LedgerAuditIdentity : Type 0 where
  pub transaction_kind : String
  pub actor_kind : String
  pub actor_reference : String
  pub reason_code : String
  pub domain_reference : Option String
  pub content_version : Option String

abbrev optional_reference : Option String → ℕ → Result String
optional_reference none maximum = ok ""
optional_reference (some value) maximum = require_permanent_reference value maximum

-- `LedgerAuditIdentity.__post_init__`
pub audit_identity : LedgerAuditIdentity → Result LedgerAuditIdentity
audit_identity identity = do
  require_name identity.transaction_kind 64 false
  require_name identity.actor_kind 32 false
  require_permanent_reference identity.actor_reference 255
  require_name identity.reason_code 100 true
  optional_reference identity.domain_reference 255
  optional_reference identity.content_version 100
  ok identity

pub validate_system_account_key : String → Result String
validate_system_account_key system_key = require_name system_key 100 true
