-- ===== src/Safety/Money.antt =====
-- Grants and corrections: `execute_grant` and `correct_grant` of SafetyService. The clock is read at
-- the request (`arrival_ms`) and again inside the transaction (`clock_ms`).
use butterbot.Base.{ℕ, ℤ, pos, String, concat, none, some, Bool, true, false, ◌&&◌, if◌then◌else◌}
use butterbot.Corrections.{CorrectionRequest, correct_grant as correct_grant_rules}
use butterbot.Exact.{require_int64}
use butterbot.Grants.{execute_grant as execute_grant_rules}
use butterbot.Json.{object, field, no_field, int, text, bool}
use butterbot.Models.{grants_propose, corrections_execute}
use butterbot.Policy.{Status, status_text}
use butterbot.Restrictions.{is_frozen}
use butterbot.Result.{value_error}
use butterbot.Safety.{SafetyService, audit_action, is_reason, mutate}
use butterbot.Tx.{Tx, pure, lift, guard, new_id, ◌>>=◌, ◌>>◌}

-- `apply` of `execute_grant`
unfoldable pub apply_grant : SafetyService → ℕ → ℕ → ℕ → ℤ → Tx Status
apply_grant service actor_id proposal_id interaction_id clock_ms = do
  now ← lift (require_int64 (pos 0) clock_ms)
  transaction_id ← new_id
  status ←
      execute_grant_rules service.env actor_id proposal_id interaction_id transaction_id now
        service.policy
  audit_action actor_id (concat "grant." (status_text status)) "execute sealed grant proposal" now
      none (some proposal_id)
  pure status

unfoldable pub execute_grant : SafetyService → ℕ → ℕ → ℕ → ℤ → ℤ → Tx String
execute_grant service actor_id proposal_id interaction_id arrival_ms clock_ms = do
  arrival ← lift (require_int64 (pos 0) arrival_ms)
  mutate service
      (record {
        actor_id = actor_id;
        interaction_id = interaction_id;
        namespace = "safety.execute_grant";
        capability = grants_propose;
        semantic = object (field "proposal" (text (service.env.str_uuid proposal_id)) no_field);
        now = arrival;
      })
      (apply_grant service actor_id proposal_id interaction_id clock_ms)

abbrev pub is_corrected : Status → Bool
is_corrected Status.corrected = true
is_corrected _ = false

-- `apply` of `correct_grant`; the clock's reading and the new id complete the request `r`.
unfoldable pub apply_correction : SafetyService → CorrectionRequest → ℤ → Tx Status
apply_correction service r clock_ms = do
  now ← lift (require_int64 (pos 0) clock_ms)
  transaction_id ← new_id
  status ←
      correct_grant_rules service.env (record r { now = now; transaction_id = transaction_id })
        service.policy
  frozen ← is_frozen r.target_id
  if is_corrected status && (r.bypass_freeze && frozen)
      then audit_action r.actor_id "correction.freeze_bypass" r.reason now (some r.target_id) none
      else pure tt
  audit_action r.actor_id (concat "correction." (status_text status)) r.reason now
      (some r.target_id) none
  pure status

unfoldable pub correct_grant : SafetyService → CorrectionRequest → ℤ → ℤ → Tx String
correct_grant service r arrival_ms clock_ms = do
  lift (require_int64 (pos 1) (pos r.target_id))
  lift (require_int64 (pos 1) r.amount)
  guard (is_reason service.env r.reason) value_error
  arrival ← lift (require_int64 (pos 0) arrival_ms)
  mutate service
      (record {
        actor_id = r.actor_id;
        interaction_id = r.interaction_id;
        namespace = "safety.correct_grant";
        capability = corrections_execute;
        semantic = object (
            field "amount" (int r.amount) (
              field "bypass_freeze" (bool r.bypass_freeze) (
                field "original" (text (service.env.str_uuid r.original_transaction_id)) (
                  field "reason" (text r.reason)
                    (field "target" (int (pos r.target_id)) no_field)))));
        now = arrival;
      })
      (apply_correction service r clock_ms)
