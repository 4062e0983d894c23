-- ===== src/Corrections/Limits.antt =====
-- What a correction that is applied has passed: the original grant, the ceilings, the freeze, the funds.
use butterbot.Base.{any, ℤ, pos, ◌+ℤ◌, ◌-ℤ◌, ◌≤ℤ◌, true, some, none, ◌≡◌}
use butterbot.Corrections.{CorrectionRequest}
use butterbot.Corrections.Repository.{find, original_amount, corrected_since}
use butterbot.Daily.{day_ms, is_active}
use butterbot.Models.{PlayerModel, corrections_bypass_freeze}
use butterbot.Players.{WalletRecord, get_by_discord_user_id, get_wallet}
use butterbot.Policy.{SafetyPolicy, Status}
use butterbot.Restrictions.{holds, frozen_by}
use butterbot.Result.{ok}
use butterbot.Session.{Session, Environment}

module _ (r : CorrectionRequest) (s : Session) where
  -- The wallet holds the amount, and a freeze is lifted only for an actor who may bypass it.
  abbrev pub IsDebitable : WalletRecord → Type 0
  IsDebitable w =
      (r.amount ≤ℤ w.amount)
      × (frozen_by r.target_id s.restrictions ≡ true → r.bypass_freeze ≡ true)
      × (r.bypass_freeze ≡ true
          → any (holds r.actor_id corrections_bypass_freeze) s.capabilities ≡ true)

  -- The amount is at most the original grant, the approval threshold and the ceiling of one operation,
  -- and with the actor's corrections of the last day at most the rolling ceiling.
  abbrev pub IsWithinLimits : ℤ → SafetyPolicy → Type 0
  IsWithinLimits original policy =
      (r.amount ≤ℤ original)
      × (r.amount ≤ℤ policy.approval_threshold)
      × (r.amount ≤ℤ policy.per_operation_ceiling)
      × (corrected_since r.actor_id (r.now -ℤ pos day_ms) s.corrections +ℤ r.amount
          ≤ℤ policy.rolling_24h_ceiling)

module _ (env : Environment) (r : CorrectionRequest) (s : Session) where
  module _ (policy : SafetyPolicy) where
    -- The target's wallet and the original grant that the correction is measured by.
    abbrev pub IsSafeCorrection : Type 0
    IsSafeCorrection =
        (p : PlayerModel) × (w : WalletRecord) × (original : ℤ) × (get_by_discord_user_id
            r.target_id s
          ≡ ok (some p, s))
        × (is_active p.lifecycle_state ≡ true)
        × (get_wallet p.id s ≡ ok (some w, s))
        × (original_amount r.original_transaction_id w.id s ≡ ok (some original, s))
        × (find r.original_transaction_id w.id s ≡ ok (none, s))
        × IsWithinLimits r s original policy
        × IsDebitable r s w

    abbrev Safe : Status → Session → Type 0
    Safe status t = status ≡ Status.corrected → IsSafeCorrection
