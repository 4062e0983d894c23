-- ===== src/Idempotency/Refusal.antt =====
-- The errors of TransportIdempotencyCoordinator.execute for a key that is already stored:
-- src/butterbot/application/operations/idempotency.py.
use butterbot.Base.{
  ℤ, pos, String, true, false, not, Option, none, some, find?, ◌≡◌, refl, ap, ◌∙◌, str_eq,
  Option-cases, Bool-cases, inl, inr, if◌then◌else◌,
}
use butterbot.Exact.{require_int64}
use butterbot.Idempotency.{replay, execute}
use butterbot.Ledger.{is_request}
use butterbot.Models.{StableOutcome, TransportRequestModel, Completion}
use butterbot.Requests.{TransportRequest, Registry, request_fingerprint}
use butterbot.Result.{Error, ok, err, incomplete_request, corrupt_outcome, fingerprint_conflict}
use butterbot.Session.{Session, Environment}
use butterbot.Transport.{claim, insert_or_read, stored_claim, stored_outcome, is_stable_outcome}
use butterbot.Tx.{Tx, new_id, pure, ◌>>=◌, lift, guard, or_raise, gets}

-- Why a stored request is no answer to one with this fingerprint, if it is none.
abbrev pub refusal : TransportRequestModel → String → Option Error
refusal row fingerprint = elim row.completion [
  | none ↦ some incomplete_request
  | some c ↦
      if not (is_stable_outcome c.outcome)
      then some corrupt_outcome
      else if not (str_eq row.request_fingerprint fingerprint)
      then some fingerprint_conflict
      else none
]

some_inj {ℓ} : {A : Type ℓ} {a b : A} → some a ≡ some b → a ≡ b
some_inj h = cc

absurd_answer {ℓ} : {A : Type ℓ} {a : A} → Option.none ≡ some a → ⊥
absurd_answer h = cc

module _ (env : Environment) (periods : Registry) (request : TransportRequest) where
  module _ (fingerprint : String) (row : TransportRequestModel) (now n : ℤ)
      (operation : Tx StableOutcome) (s : Session)
      (fp : request_fingerprint env request ≡ ok fingerprint)
      (in_range : require_int64 (pos 0) now ≡ ok n)
      (found : find? (is_request request.namespace request.transport_key) s.requests
        ≡ some row) where
    refuses_incomplete :
        row.completion ≡ none → execute env periods request now operation s ≡ err incomplete_request
    unfolding execute claim insert_or_read stored_claim stored_outcome replay ◌>>=◌ lift new_id pure
        gets guard or_raise
    refuses_incomplete e = rw (in_range, fp, found, e) refl

    refuses_corrupt :
        (c : Completion)
        → row.completion ≡ some c
        → is_stable_outcome c.outcome ≡ false
        → execute env periods request now operation s ≡ err corrupt_outcome
    unfolding execute claim insert_or_read stored_claim stored_outcome replay ◌>>=◌ lift new_id pure
        gets guard or_raise
    refuses_corrupt c e k = rw (in_range, fp, found, e, k) refl

    refuses_other :
        (c : Completion)
        → row.completion ≡ some c
        → is_stable_outcome c.outcome ≡ true
        → str_eq row.request_fingerprint fingerprint ≡ false
        → execute env periods request now operation s ≡ err fingerprint_conflict
    unfolding execute claim insert_or_read stored_claim stored_outcome replay ◌>>=◌ lift new_id pure
        gets guard or_raise
    refuses_other c e k d = rw (in_range, fp, found, e, k, d) refl

    -- A key that is stored without an outcome, with a corrupt one, or for another request is answered
    -- by the error that says so, and the operation does not run.
    pub execute_refuses :
        {e : Error}
        → refusal row fingerprint ≡ some e
        → execute env periods request now operation s ≡ err e
    execute_refuses {e} h = elim (Option-cases row.completion) [
      | inl unfinished ↦ refuses_incomplete unfinished ∙ ap err (some_inj (rw unfinished at h))
      | inr kept ↦ elim (Bool-cases (is_stable_outcome kept.0.outcome)) [
        | inr corrupt ↦
            refuses_corrupt kept.0 kept.1 corrupt
            ∙ ap err (some_inj (rw corrupt at (rw kept.1 at h)))
        | inl stable ↦ elim (Bool-cases (str_eq row.request_fingerprint fingerprint)) [
          | inl same ↦ absurd (absurd_answer (rw same at (rw stable at (rw kept.1 at h))))
          | inr other ↦
              refuses_other kept.0 kept.1 stable other
              ∙ ap err (some_inj (rw other at (rw stable at (rw kept.1 at h))))
        ]
      ]
    ]
