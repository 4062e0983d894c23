-- ===== src/Transport.antt =====
-- Transport requests: SqlAlchemyTransportIdempotencyRepository of
-- src/butterbot/infrastructure/persistence/repositories.py, and the outcome checks of
-- src/butterbot/application/operations/outcome_codec.py. A stored payload is kept as the JSON value
-- that its canonical text stands for.
pub mod Cleanup
use butterbot.Base.{
  ℕ, ℤ, pos, String, Option, none, some, Bool, true, false, not, ◌&&◌, ◌||◌, List, [], ◌∷◌, map,
  ◌==◌, ltb, leb_ℤ, ltb_ℤ, eqb_ℤ, pos_part, any, find?, select, count_if, contains, length, take,
  if◌then◌else◌,
}
use butterbot.Exact.{require_int64}
use butterbot.Json.{Json, object}
use butterbot.Ledger.{is_request}
use butterbot.Models.{TransportRequestModel, StableOutcome, Completion}
use butterbot.Names.{codes, is_stable_name}
use butterbot.Result.{
  Result, ok, err, integrity_error, runtime_error, value_error, invalid_outcome, incomplete_request,
  corrupt_outcome,
}
use butterbot.Tx.{Tx, pure, gets, lift, guard, modify, modify_db, ◌>>=◌, ◌>>◌}

abbrev pub is_object : Json → Bool
is_object (object fields) = true
is_object _ = false

abbrev pub is_stable_outcome : StableOutcome → Bool
is_stable_outcome outcome =
    let code = codes outcome.code in
    (not (ltb 100 (length code)) && is_stable_name code) && is_object outcome.payload

-- The payload of a modelled outcome is JSON already, so its canonical copy is itself.
unfoldable pub canonicalize_stable_outcome : StableOutcome → Result StableOutcome
canonicalize_stable_outcome outcome =
    if is_stable_outcome outcome then ok outcome else err invalid_outcome

pub record TransportClaim : Type 0 where
  pub request_id : ℕ
  pub is_new : Bool
  pub request_fingerprint : String
  pub outcome : Option StableOutcome

-- `_stored_outcome`
unfoldable pub stored_outcome : Option Completion → Result StableOutcome
stored_outcome none = err incomplete_request
stored_outcome (some completion) =
    if is_stable_outcome completion.outcome then ok completion.outcome else err corrupt_outcome

unfoldable pub insert_request : TransportRequestModel → Tx TransportClaim
insert_request row = do
  requests ← gets (λ s. s.requests)
  guard (not (any (λ (r : TransportRequestModel). r.id == row.id) requests)) integrity_error
  modify_db (λ d. record d { requests = row ∷ d.requests })
  modify (λ s. record s { pending_request_ids = row.id ∷ s.pending_request_ids })
  pure (record {
    request_id = row.id;
    is_new = true;
    request_fingerprint = row.request_fingerprint;
    outcome = none;
  })

unfoldable pub stored_claim : TransportRequestModel → Tx TransportClaim
unfolding stored_outcome
stored_claim model = do
  outcome ← lift (stored_outcome model.completion)
  pure (record {
    request_id = model.id;
    is_new = false;
    request_fingerprint = model.request_fingerprint;
    outcome = some outcome;
  })

-- INSERT ... ON CONFLICT (namespace, transport_key) DO NOTHING, then the read of what is there.
unfoldable pub insert_or_read :
    Option TransportRequestModel → TransportRequestModel → Tx TransportClaim
unfolding insert_request stored_claim
insert_or_read none row = insert_request row
insert_or_read (some model) row = stored_claim model

unfoldable pub claim : ℕ → String → String → String → String → String → Tx TransportClaim
unfolding insert_or_read
claim request_id namespace transport_key actor_kind actor_reference fingerprint = do
  requests ← gets (λ s. s.requests)
  insert_or_read (find? (is_request namespace transport_key) requests) (record {
    id = request_id;
    namespace = namespace;
    transport_key = transport_key;
    actor_kind = actor_kind;
    actor_reference = actor_reference;
    request_fingerprint = fingerprint;
    completion = none;
  })

abbrev pub is_open : ℕ → TransportRequestModel → Bool
is_open id row = row.id == id && elim row.completion [ none ↦ true | some _ ↦ false ]

abbrev pub complete_row : ℕ → Completion → TransportRequestModel → TransportRequestModel
complete_row id completion row =
    if is_open id row then record row { completion = some completion } else row

unfoldable pub complete : ℕ → StableOutcome → ℤ → ℤ → Tx (Unit {0})
complete request_id outcome completed_at_ms retain_until_ms = do
  lift (require_int64 (pos 0) completed_at_ms)
  lift (require_int64 (pos 0) retain_until_ms)
  guard (ltb_ℤ completed_at_ms retain_until_ms) value_error
  canonical ← lift (canonicalize_stable_outcome outcome)
  requests ← gets (λ s. s.requests)
  let completion : Completion = record {
    outcome = canonical;
    completed_at_ms = completed_at_ms;
    retain_until_ms = retain_until_ms;
  }
  modify_db (λ d. record d { requests = map (complete_row request_id completion) d.requests })
  guard (count_if (is_open request_id) requests == 1) runtime_error
  modify (λ s. record s {
    pending_request_ids = select (λ id. not (id == request_id)) s.pending_request_ids;
  })

-- `retain_until_ms <= now_ms`, which NULL does not pass.
abbrev pub is_expired : ℤ → TransportRequestModel → Bool
is_expired now_ms row = elim row.completion [
  | none ↦ false
  | some c ↦ leb_ℤ c.retain_until_ms now_ms
]

abbrev retain_until : TransportRequestModel → ℤ
retain_until row = elim row.completion [ none ↦ pos 0 | some c ↦ c.retain_until_ms ]

-- ORDER BY retain_until_ms, id
abbrev pub expires_before : TransportRequestModel → TransportRequestModel → Bool
expires_before a b =
    ltb_ℤ (retain_until a) (retain_until b)
    || (eqb_ℤ (retain_until a) (retain_until b) && ltb a.id b.id)

pub insert_by_expiry :
    TransportRequestModel → List TransportRequestModel → List TransportRequestModel
insert_by_expiry row [] = row ∷ []
insert_by_expiry row (r ∷ rs) =
    if expires_before r row then r ∷ insert_by_expiry row rs else row ∷ r ∷ rs

pub sort_by_expiry : List TransportRequestModel → List TransportRequestModel
unfolding insert_by_expiry
sort_by_expiry [] = []
sort_by_expiry (r ∷ rs) = insert_by_expiry r (sort_by_expiry rs)

abbrev pub expired_ids : ℤ → ℕ → List TransportRequestModel → List ℕ
expired_ids now_ms limit requests =
    map (λ (r : TransportRequestModel). r.id)
      (take limit (sort_by_expiry (select (is_expired now_ms) requests)))

unfoldable pub delete_expired : ℤ → ℤ → Tx ℕ
unfolding sort_by_expiry
delete_expired now_ms limit = do
  lift (require_int64 (pos 0) now_ms)
  lift (require_int64 (pos 1) limit)
  requests ← gets (λ s. s.requests)
  let doomed = expired_ids now_ms (pos_part limit) requests
  modify_db (λ d. record d {
    requests = select (λ (r : TransportRequestModel). not (contains r.id doomed)) d.requests;
  })
  pure (count_if (λ (r : TransportRequestModel). contains r.id doomed) requests)

unfoldable pub assert_no_pending_requests : Tx (Unit {0})
assert_no_pending_requests = do
  pending ← gets (λ s. s.pending_request_ids)
  guard (elim pending [ [] ↦ true | _ ↦ false ]) incomplete_request
