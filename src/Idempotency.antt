-- ===== src/Idempotency.antt =====
-- TransportIdempotencyCoordinator of src/butterbot/application/operations/idempotency.py. Telemetry
-- that is sent at once has no effect on the session; what waits for the commit is a callback.
pub mod Frame
pub mod Replay
pub mod Refusal
use butterbot.Base.{ℕ, ℤ, pos, String, Option, none, some, Bool, true, false, str_eq, if◌then◌else◌}
use butterbot.Exact.{require_int64}
use butterbot.Models.{StableOutcome, OutcomeKind, success, typed_rejection}
use butterbot.Requests.{TransportRequest, Registry, retain_until_ms, request_fingerprint}
use butterbot.Result.{fingerprint_conflict, runtime_error}
use butterbot.Session.{Environment, telemetry}
use butterbot.Transport.{TransportClaim, claim, complete, canonicalize_stable_outcome}
use butterbot.Tx.{Tx, pure, raise, lift, guard, or_raise, new_id, defer_until_commit, ◌>>=◌, ◌>>◌}

pub record IdempotencyExecution : Type 0 where
  pub outcome : StableOutcome
  pub replayed : Bool
  pub request_id : ℕ

abbrev outcome_label : OutcomeKind → String
outcome_label success = "applied"
outcome_label typed_rejection = "typed_rejection"

-- The key is known: the stored outcome is the answer, if the request is the same.
unfoldable pub replay : TransportClaim → String → Tx IdempotencyExecution
replay c fingerprint = do
  guard (str_eq c.request_fingerprint fingerprint) fingerprint_conflict
  outcome ← or_raise c.outcome runtime_error
  pure (record { outcome = outcome; replayed = true; request_id = c.request_id })

-- The key is new: the operation runs, and its outcome is stored with the request.
unfoldable pub run_operation :
    Registry → TransportClaim → String → ℤ → Tx StableOutcome → Tx IdempotencyExecution
run_operation periods c namespace completed_at_ms operation = do
  result ← operation
  outcome ← lift (canonicalize_stable_outcome result)
  until ← lift (retain_until_ms periods namespace completed_at_ms)
  complete c.request_id outcome completed_at_ms until
  defer_until_commit (telemetry namespace (outcome_label outcome.kind))
  pure (record { outcome = outcome; replayed = false; request_id = c.request_id })

-- `TransportIdempotencyCoordinator.execute`
unfoldable pub execute :
    Environment → Registry → TransportRequest → ℤ → Tx StableOutcome → Tx IdempotencyExecution
unfolding replay run_operation
execute env periods request completed_at_ms operation = do
  lift (require_int64 (pos 0) completed_at_ms)
  fingerprint ← lift (request_fingerprint env request)
  request_id ← new_id
  c ←
      claim request_id request.namespace request.transport_key request.actor_kind
        request.actor_reference fingerprint
  if c.is_new
      then run_operation periods c request.namespace completed_at_ms operation
      else replay c fingerprint
