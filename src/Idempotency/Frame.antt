-- ===== src/Idempotency/Frame.antt =====
-- The coordinator touches the requests, the pending ids, the callbacks and the id supply; a predicate
-- of the rest of the session survives it if it survives the operation.
use butterbot.Base.{ℕ, ℤ, String, List, Option, none, some}
use butterbot.Idempotency.{run_operation, execute}
use butterbot.Models.{StableOutcome, TransportRequestModel}
use butterbot.Requests.{TransportRequest, Registry}
use butterbot.Session.{Session, Environment, Callback}
use butterbot.Transport.{
  TransportClaim, insert_request, stored_claim, insert_or_read, claim, complete,
}
use butterbot.Tx.{Tx, defer_until_commit}
use butterbot.Tx.Rules.{Preserves, preserves_rules}

pub record IsOutside (P : Session → Type 0) : Type 0 where
  pub requests_free :
      (s : Session) (rows : List TransportRequestModel)
      → P s
      → P (record s { db = record s.db { requests = rows } })
  pub pending_free : (s : Session) (ids : List ℕ) → P s → P (record s { pending_request_ids = ids })
  pub callbacks_free :
      (s : Session) (callbacks : List Callback) → P s → P (record s { after_commit = callbacks })
  pub ids_free : (s : Session) (n : ℕ) → P s → P (record s { next_id = n })

module _ (P : Session → Type 0) (outside : IsOutside P) where
  open outside use {requests_free, pending_free, callbacks_free, ids_free}

  insert_request-Preserves : (row : TransportRequestModel) → Preserves P (insert_request row)
  unfolding insert_request
  insert_request-Preserves row = search (preserves_rules, requests_free, pending_free) depth 10

  stored_claim-Preserves : (row : TransportRequestModel) → Preserves P (stored_claim row)
  unfolding stored_claim
  stored_claim-Preserves row = search preserves_rules

  insert_or_read-Preserves :
      (found : Option TransportRequestModel) (row : TransportRequestModel)
      → Preserves P (insert_or_read found row)
  unfolding insert_or_read
  insert_or_read-Preserves none row = insert_request-Preserves row
  insert_or_read-Preserves (some model) row = stored_claim-Preserves model

  pub claim-Preserves :
      (id : ℕ) (namespace key kind reference fingerprint : String)
      → Preserves P (claim id namespace key kind reference fingerprint)
  unfolding claim
  claim-Preserves id namespace key kind reference fingerprint =
      search (preserves_rules, insert_or_read-Preserves)

  pub complete-Preserves :
      (id : ℕ) (outcome : StableOutcome) (completed_at_ms until : ℤ)
      → Preserves P (complete id outcome completed_at_ms until)
  unfolding complete
  complete-Preserves id outcome completed_at_ms until =
      search (preserves_rules, requests_free, pending_free) depth 14

  pub defer-Preserves : (callback : Callback) → Preserves P (defer_until_commit callback)
  unfolding defer_until_commit
  defer-Preserves callback = search (preserves_rules, callbacks_free)

  run_operation-Preserves :
      (periods : Registry) (c : TransportClaim) (namespace : String) (completed_at_ms : ℤ)
      (operation : Tx StableOutcome)
      → Preserves P operation
      → Preserves P (run_operation periods c namespace completed_at_ms operation)
  unfolding run_operation
  run_operation-Preserves periods c namespace completed_at_ms operation keeps =
      search (preserves_rules, complete-Preserves, defer-Preserves) depth 12

  pub execute-Preserves :
      (env : Environment) (periods : Registry) (request : TransportRequest) (completed_at_ms : ℤ)
      (operation : Tx StableOutcome)
      → Preserves P operation
      → Preserves P (execute env periods request completed_at_ms operation)
  unfolding execute
  execute-Preserves env periods request completed_at_ms operation keeps =
      search (preserves_rules, ids_free, claim-Preserves, run_operation-Preserves) depth 12
