-- ===== src/Safety.antt =====
-- SafetyService of src/butterbot/application/safety/service.py: the audit, and `_mutate`, through which
-- every administrative change passes. The operations are the children Access, Proposing and Money.
pub mod Access
pub mod Proposing
pub mod Money
pub mod Balanced
pub mod Approval
pub mod Authority
use butterbot.Base.{
  ℕ, ℤ, pos, String, concat, remove_prefix, Option, none, some, Bool, true, false, not, ◌&&◌, ◌||◌,
  List, [], ◌∷◌, ◌==◌, str_eq, any, leb, length, if◌then◌else◌,
}
use butterbot.Daily.{is_rejection, field_count, payload_fields}
use butterbot.Exact.{require_int64}
use butterbot.Idempotency.{execute}
use butterbot.Json.{Json, empty_object}
use butterbot.Models.{Capability, StableOutcome, success, typed_rejection, AccessAuditModel}
use butterbot.Names.{codes}
use butterbot.Policy.{SafetyPolicy, Status, status_text, known_statuses, is_success_status}
use butterbot.Proposals.{audit, receipt}
use butterbot.Requests.{TransportRequest, Registry, request_fingerprint}
use butterbot.Restrictions.{has_capability}
use butterbot.Result.{runtime_error, fingerprint_conflict, value_error}
use butterbot.Session.{Session, Environment, alert}
use butterbot.Tx.{Tx, pure, lift, guard, if_none, new_id, defer_until_commit, ◌>>=◌, ◌>>◌}

-- What the service is built with, and the verdicts of its two guards at the call: `runtime_safe` is
-- true where no runtime guard is set, `grants_allowed` false where no eligibility is set.
pub record SafetyService : Type 0 where
  pub env : Environment
  pub periods : Registry
  pub policy : Option SafetyPolicy
  pub runtime_safe : Bool
  pub grants_allowed : Bool

-- `_audit`: a row, and an alert that waits for the commit.
unfoldable pub audit_action : ℕ → String → String → ℤ → Option ℕ → Option ℕ → Tx (Unit {0})
audit_action actor_id action reason now target proposal = do
  audit_id ← new_id
  audit (record {
    id = audit_id;
    actor_id = actor_id;
    action = action;
    target_id = target;
    proposal_id = proposal;
    reason = reason;
    created_at_ms = now;
  })
  defer_until_commit (alert action audit_id)

-- `_reason`
abbrev pub is_reason : Environment → String → Bool
is_reason env reason =
    let text = codes reason in
    (leb 1 (length text) && leb (length text) 256)
    && (str_eq reason (env.strip reason) && env.is_printable reason)

-- The arguments of `_mutate` but for the body.
pub record Mutation : Type 0 where
  pub actor_id : ℕ
  pub interaction_id : ℕ
  pub namespace : String
  pub capability : Capability
  pub semantic : Json
  pub now : ℤ

abbrev pub mutation_request : Environment → Mutation → TransportRequest
mutation_request env m = record {
  namespace = m.namespace;
  transport_key = env.str_int (pos m.interaction_id);
  actor_kind = "discord_user";
  actor_reference = env.str_int (pos m.actor_id);
  semantic_input = m.semantic;
}

abbrev pub receipt_id : Environment → Mutation → ℕ
receipt_id env m = env.uuid5 (
    concat "butterbot:safety:receipt:"
      (concat m.namespace (concat ":" (env.str_int (pos m.interaction_id)))))

-- `status in {"applied", ...}`: stored as a success or as a rejection.
abbrev pub status_outcome : String → StableOutcome
status_outcome status = record {
  kind = if is_success_status status then success else typed_rejection;
  code = concat "safety." status;
  payload = empty_object;
}

-- The body runs, and leaves a permanent receipt.
unfoldable pub run_with_receipt : Environment → Mutation → String → Tx Status → Tx String
run_with_receipt env m fingerprint body = do
  status ← body
  audit (record {
    id = receipt_id env m;
    actor_id = m.actor_id;
    action = concat "receipt." (status_text status);
    target_id = none;
    proposal_id = none;
    reason = fingerprint;
    created_at_ms = m.now;
  })
  pure (status_text status)

-- A receipt answers for the same actor and request only.
unfoldable pub read_receipt : Mutation → String → AccessAuditModel → Tx String
read_receipt m fingerprint row = do
  guard (row.actor_id == m.actor_id && str_eq row.reason fingerprint) fingerprint_conflict
  pure (remove_prefix row.action "receipt.")

-- `apply` of `_mutate`
unfoldable pub apply_once : Environment → Mutation → Tx Status → Tx StableOutcome
apply_once env m body = do
  fingerprint ← lift (request_fingerprint env (mutation_request env m))
  found ← receipt (receipt_id env m)
  status ← if_none found (run_with_receipt env m fingerprint body) (read_receipt m fingerprint)
  pure (status_outcome status)

unfoldable pub decode_status : StableOutcome → Tx String
decode_status outcome =
    let status = remove_prefix outcome.code "safety." in
    do
      guard
          (str_eq outcome.code (concat "safety." status)
            && (any (str_eq status) known_statuses
                && ((is_rejection outcome.kind || is_success_status status)
                    && ((not (is_rejection outcome.kind) || not (is_success_status status))
                        && field_count (payload_fields outcome.payload) == 0))))
          runtime_error
      pure status

-- `namespace in {"safety.execute_grant", "safety.correct_grant"}`
abbrev pub moves_money : String → Bool
moves_money namespace =
    str_eq namespace "safety.execute_grant" || str_eq namespace "safety.correct_grant"

-- The request of an actor who holds the capability.
unfoldable pub mutate_authorized : SafetyService → Mutation → Tx Status → Tx String
mutate_authorized service m body = do
  execution ←
      execute service.env service.periods (mutation_request service.env m) m.now
        (apply_once service.env m body)
  decode_status execution.outcome

-- `_mutate`: authority is checked before a replay.
unfoldable pub mutate : SafetyService → Mutation → Tx Status → Tx String
mutate service m body = do
  lift (require_int64 (pos 1) (pos m.actor_id))
  lift (require_int64 (pos 1) (pos m.interaction_id))
  if not service.runtime_safe
      then pure "unavailable"
      else if moves_money m.namespace && not service.grants_allowed
      then pure "unavailable"
      else do
        authorized ← has_capability m.actor_id m.capability
        if authorized then mutate_authorized service m body else do
          audit_action m.actor_id "denied" "missing durable capability" m.now none none
          pure "denied"
