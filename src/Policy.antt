-- ===== src/Policy.antt =====
-- SafetyPolicy, Status and the grouping of statuses by outcome: src/butterbot/application/safety/service.py.
use butterbot.Base.{ℤ, pos, String, Bool, ◌&&◌, List, [], ◌∷◌, any, str_eq, leb_ℤ, if◌then◌else◌}
use butterbot.Exact.{require_int64}
use butterbot.Result.{Result, ok, err, value_error, ◌>>◌}

pub data Status : Type 0 where
  applied pending approved denied unavailable expired already_finished self_approval limit : Status
  frozen unconfigured unverified_scope executed already_executed corrected already_corrected :
      Status
  insufficient_funds approval_required : Status

unfoldable pub status_text : Status → String
status_text Status.applied = "applied"
status_text Status.pending = "pending"
status_text Status.approved = "approved"
status_text Status.denied = "denied"
status_text Status.unavailable = "unavailable"
status_text Status.expired = "expired"
status_text Status.already_finished = "already_finished"
status_text Status.self_approval = "self_approval"
status_text Status.limit = "limit"
status_text Status.frozen = "frozen"
status_text Status.unconfigured = "unconfigured"
status_text Status.unverified_scope = "unverified_scope"
status_text Status.executed = "executed"
status_text Status.already_executed = "already_executed"
status_text Status.corrected = "corrected"
status_text Status.already_corrected = "already_corrected"
status_text Status.insufficient_funds = "insufficient_funds"
status_text Status.approval_required = "approval_required"

-- `_STATUSES`
abbrev pub known_statuses : List String
known_statuses =
    "applied" ∷ "pending" ∷ "approved" ∷ "denied" ∷ "unavailable" ∷ "expired" ∷ "already_finished"
    ∷ "self_approval" ∷ "limit" ∷ "frozen" ∷ "unconfigured" ∷ "unverified_scope" ∷ "executed"
    ∷ "already_executed" ∷ "corrected" ∷ "already_corrected" ∷ "insufficient_funds"
    ∷ "approval_required" ∷ []

-- The statuses that are stored as a success.
abbrev pub success_statuses : List String
success_statuses =
    "applied" ∷ "pending" ∷ "approved" ∷ "executed" ∷ "already_executed" ∷ "corrected"
    ∷ "already_corrected" ∷ []

abbrev pub is_success_status : String → Bool
is_success_status status = any (str_eq status) success_statuses

pub record SafetyPolicy : Type 0 where
  pub approval_threshold : ℤ
  pub per_operation_ceiling : ℤ
  pub rolling_24h_ceiling : ℤ

-- `SafetyPolicy.__post_init__`
unfoldable pub safety_policy : SafetyPolicy → Result SafetyPolicy
safety_policy p = do
  require_int64 (pos 0) p.approval_threshold
  require_int64 (pos 1) p.per_operation_ceiling
  require_int64 (pos 1) p.rolling_24h_ceiling
  if leb_ℤ p.approval_threshold p.per_operation_ceiling
        && leb_ℤ p.per_operation_ceiling p.rolling_24h_ceiling
      then ok p
      else err value_error
