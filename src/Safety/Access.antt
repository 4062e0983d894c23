-- ===== src/Safety/Access.antt =====
-- Capabilities, bootstrap and inspection: `bootstrap`, `change_capability`, `inspect` and
-- `view_proposal` of SafetyService.
use butterbot.Base.{
  ℕ, ℤ, pos, String, concat, Option, none, some, Bool, true, false, not, ◌&&◌, List, [], ◌∷◌, leb,
  length, contains, if◌then◌else◌,
}
use butterbot.Daily.{is_active}
use butterbot.Exact.{require_int64}
use butterbot.Grants.Repository.{executed}
use butterbot.Json.{object, field, no_field, int, text, bool}
use butterbot.Models.{
  Capability, capabilities_manage, players_inspect, restrictions_manage, proposals_approve,
  grants_propose, corrections_execute, corrections_bypass_freeze,
}
use butterbot.Players.{WalletRecord, get_by_discord_user_id, get_wallet}
use butterbot.Policy.{Status}
use butterbot.Proposals.{Proposal, get_proposal, is_grant, bootstrap as bootstrap_rows}
use butterbot.Restrictions.{has_capability, set_capability, is_frozen}
use butterbot.Result.{runtime_error, value_error}
use butterbot.Safety.{SafetyService, audit_action, is_reason, mutate}
use butterbot.Tx.{Tx, pure, lift, guard, if_none, ◌>>=◌, ◌>>◌}

abbrev pub capability_name : Capability → String
capability_name capabilities_manage = "capabilities.manage"
capability_name players_inspect = "players.inspect"
capability_name restrictions_manage = "restrictions.manage"
capability_name proposals_approve = "proposals.approve"
capability_name grants_propose = "grants.propose"
capability_name corrections_execute = "corrections.execute"
capability_name corrections_bypass_freeze = "corrections.bypass_freeze"

-- `len(set(xs)) == len(xs)`
abbrev pub are_distinct : List ℕ → Bool
are_distinct [] = true
are_distinct (n ∷ ns) = not (contains n ns) && are_distinct ns

unfoldable pub check_operators : List ℕ → Tx (Unit {0})
check_operators [] = pure tt
check_operators (actor_id ∷ rest) =
    lift (require_int64 (pos 1) (pos actor_id)) >> check_operators rest

unfoldable pub audit_operators : ℤ → List ℕ → Tx (Unit {0})
audit_operators now [] = pure tt
audit_operators now (actor_id ∷ rest) =
    audit_action actor_id "bootstrap" "explicit operator bootstrap" now (some actor_id) none
    >> audit_operators now rest

unfoldable pub bootstrap : SafetyService → List ℕ → ℤ → Tx Bool
bootstrap service operator_ids clock_ms = do
  guard ((leb 1 (length operator_ids) && leb (length operator_ids) 10) && are_distinct operator_ids)
      value_error
  check_operators operator_ids
  now ← lift (require_int64 (pos 0) clock_ms)
  guard service.runtime_safe runtime_error
  first ← bootstrap_rows operator_ids now
  if not first then pure false else do audit_operators now operator_ids; pure true

-- `apply` of `change_capability`
unfoldable pub apply_capability : ℕ → ℕ → Capability → Bool → String → ℤ → Tx Status
apply_capability actor_id target_id capability enabled reason now = do
  set_capability target_id capability enabled
  audit_action actor_id
      (concat (if enabled then "capability.grant." else "capability.revoke.")
        (capability_name capability))
      reason now (some target_id) none
  pure Status.applied

unfoldable pub change_capability :
    SafetyService → ℕ → ℕ → Capability → Bool → String → ℕ → ℤ → Tx String
change_capability service actor_id target_id capability enabled reason interaction_id clock_ms = do
  lift (require_int64 (pos 1) (pos target_id))
  guard (is_reason service.env reason) value_error
  now ← lift (require_int64 (pos 0) clock_ms)
  mutate service
      (record {
        actor_id = actor_id;
        interaction_id = interaction_id;
        namespace = "safety.capability";
        capability = capabilities_manage;
        semantic = object (
            field "capability" (text (capability_name capability)) (
              field "enabled" (bool enabled)
                (field "reason" (text reason) (field "target" (int (pos target_id)) no_field))));
        now = now;
      })
      (apply_capability actor_id target_id capability enabled reason now)

pub record InspectionResult : Type 0 where
  pub status : String
  pub amount : Option ℤ
  pub frozen : Bool

abbrev pub wallet_result : Bool → Option WalletRecord → InspectionResult
wallet_result frozen none = record { status = "unavailable"; amount = none; frozen = frozen }
wallet_result frozen (some w) = record {
  status = "available";
  amount = some w.amount;
  frozen = frozen;
}

abbrev pub inspection : String → Bool → InspectionResult
inspection status frozen = record { status = status; amount = none; frozen = frozen }

unfoldable pub inspect : SafetyService → ℕ → ℕ → String → ℤ → Tx InspectionResult
inspect service actor_id target_id reason clock_ms = do
  lift (require_int64 (pos 1) (pos actor_id))
  lift (require_int64 (pos 1) (pos target_id))
  guard (is_reason service.env reason) value_error
  now ← lift (require_int64 (pos 0) clock_ms)
  if not service.runtime_safe then pure (inspection "unavailable" false) else do
    authorized ← has_capability actor_id players_inspect
    if not authorized
        then audit_action actor_id "inspect.denied" reason now (some target_id) none
          >> pure (inspection "denied" false)
        else do
          player ← get_by_discord_user_id target_id
          frozen ← is_frozen target_id
          audit_action actor_id "inspect" reason now (some target_id) none
          if_none player (pure (inspection "unjoined" frozen)) λ p.
              if not (is_active p.lifecycle_state)
              then pure (inspection "inactive" frozen)
              else do found ← get_wallet p.id; pure (wallet_result frozen found)

pub record ProposalView : Type 0 where
  pub status : String
  pub proposal : Option Proposal
  pub grant_executed : Bool

unfoldable pub view_proposal : SafetyService → ℕ → ℕ → ℤ → Tx ProposalView
view_proposal service actor_id proposal_id clock_ms = do
  lift (require_int64 (pos 1) (pos actor_id))
  now ← lift (require_int64 (pos 0) clock_ms)
  let blank : String → ProposalView =
      λ status. record { status = status; proposal = none; grant_executed = false }
  if not service.runtime_safe then pure (blank "unavailable") else do
    authorized ← has_capability actor_id proposals_approve
    if not authorized
        then audit_action actor_id "proposal.inspect.denied" "missing durable capability" now none
            (some proposal_id)
          >> pure (blank "denied")
        else do
          proposal ← get_proposal proposal_id
          audit_action actor_id "proposal.inspect" "approval review" now none (some proposal_id)
          done ← executed proposal_id
          if_none proposal (pure (blank "unavailable")) λ p. pure (record {
            status = "available";
            proposal = some p;
            grant_executed = is_grant p.operation && done;
          })
