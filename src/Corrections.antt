-- ===== src/Corrections.antt =====
-- `correct_grant` of src/butterbot/application/economy/corrections.py.
pub mod Repository
pub mod Balanced
pub mod Limits
use butterbot.Base.{
  ℕ, ℤ, pos, ◌+ℤ◌, ◌-ℤ◌, String, Option, none, some, Bool, true, false, not, ◌&&◌, ltb_ℤ, min_ℤ,
  is_some, if◌then◌else◌,
}
use Repository.{find, original_amount, amount_since, debit}
use butterbot.Daily.{day_ms, is_active}
use butterbot.Exact.{checked_add_int64}
use butterbot.Models.{Correction, corrections_bypass_freeze}
use butterbot.Players.{WalletRecord, get_by_discord_user_id, get_wallet}
use butterbot.Policy.{SafetyPolicy, Status}
use butterbot.Restrictions.{is_frozen, has_capability}
use butterbot.Result.{runtime_error}
use butterbot.Session.{Environment}
use butterbot.Tx.{Tx, pure, lift, or_raise, if_none, ◌>>=◌, ◌>>◌}

-- The arguments of a correction.
pub record CorrectionRequest : Type 0 where
  pub actor_id : ℕ
  pub target_id : ℕ
  pub original_transaction_id : ℕ
  pub transaction_id : ℕ
  pub amount : ℤ
  pub reason : String
  pub bypass_freeze : Bool
  pub interaction_id : ℕ
  pub now : ℤ

abbrev pub correction_row : CorrectionRequest → WalletRecord → Bool → Correction
correction_row r w frozen = record {
  transaction_id = r.transaction_id;
  original_transaction_id = r.original_transaction_id;
  account_id = w.id;
  target_id = r.target_id;
  actor_id = r.actor_id;
  amount = r.amount;
  before_amount = w.amount;
  after_amount = w.amount -ℤ r.amount;
  executed_at_ms = r.now;
  reason = r.reason;
  freeze_bypassed = frozen && r.bypass_freeze;
}

-- What follows the limits: the freeze, the funds and the debit.
unfoldable pub debit_unless_frozen : Environment → CorrectionRequest → WalletRecord → Tx Status
debit_unless_frozen env r w = do
  frozen ← is_frozen r.target_id
  may_bypass ← has_capability r.actor_id corrections_bypass_freeze
  if r.bypass_freeze && not may_bypass
      then pure Status.denied
      else if frozen && not r.bypass_freeze
      then pure Status.frozen
      else if ltb_ℤ w.amount r.amount
      then pure Status.insufficient_funds
      else do
        lift (checked_add_int64 w.version (pos 1))
        debit env (correction_row r w frozen) w r.interaction_id
        pure Status.corrected

unfoldable pub correct_within_policy :
    Environment → CorrectionRequest → WalletRecord → ℤ → SafetyPolicy → Tx Status
correct_within_policy env r w original policy =
    if ltb_ℤ (min_ℤ (min_ℤ original policy.approval_threshold) policy.per_operation_ceiling)
      r.amount
    then pure Status.limit
    else do
      spent ← amount_since r.actor_id (r.now -ℤ pos day_ms)
      if ltb_ℤ policy.rolling_24h_ceiling (spent +ℤ r.amount)
          then pure Status.limit
          else debit_unless_frozen env r w

-- `correct_grant`
unfoldable pub correct_grant : Environment → CorrectionRequest → Option SafetyPolicy → Tx Status
correct_grant env r policy = do
  player ← get_by_discord_user_id r.target_id
  if_none player (pure Status.unavailable) λ p.
      if not (is_active p.lifecycle_state) then pure Status.unavailable else do
        found ← get_wallet p.id
        w ← or_raise found runtime_error
        prior ← find r.original_transaction_id w.id
        if is_some prior then pure Status.already_corrected else do
          original ← original_amount r.original_transaction_id w.id
          if_none original (pure Status.unavailable)
              λ n. if_none policy (pure Status.unconfigured) (correct_within_policy env r w n)
