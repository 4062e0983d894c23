-- ===== src/Idempotency/Replay.antt =====
-- A request that has been answered is answered again by what was stored, and nothing runs twice.
use butterbot.Base.{
  ℕ, suc, ℤ, pos, String, true, false, Option, none, some, List, ◌∷◌, map, find?, ◌≡◌, refl, sym,
  str_eq, arith, eq_iff, ◌∙◌, ◌⊎◌, inl, inr,
}
use mathlib.Core.Path.{subst}
use butterbot.Exact.{require_int64}
use butterbot.Idempotency.{IdempotencyExecution, replay, run_operation, execute}
use butterbot.Ledger.{is_request}
use butterbot.Models.{StableOutcome, TransportRequestModel, Completion}
use butterbot.Requests.{TransportRequest, Registry, request_fingerprint}
use butterbot.Result.{Result, ok}
use butterbot.Session.{Session, Environment}
use butterbot.Transport.{
  TransportClaim, insert_request, stored_claim, stored_outcome, insert_or_read, claim, complete,
  complete_row, is_open, is_stable_outcome, canonicalize_stable_outcome,
}
use butterbot.Tx.{Tx, new_id, defer_until_commit, pure, ◌>>=◌, lift, guard, or_raise, gets}
use butterbot.Tx.Rules.{Post, Post-map, Post-ok, Preserves, >>=-Post, Preserves-new_id}
use butterbot.Tx.Steps.{
  frame_step, lift_step, gets_step, guard_step, modify_step, modify_end, pure_end, or_raise_step,
}

same_text : (t : String) → str_eq t t ≡ true
same_text t = (eq_iff t t).1 refl

-- The requests hold the completed request that `e` answered.
record Stored (request : TransportRequest) (fingerprint : String) (e : IdempotencyExecution)
    (requests : List TransportRequestModel) : Type 0 where
  row : TransportRequestModel
  completion : Completion
  found : find? (is_request request.namespace request.transport_key) requests ≡ some row
  completed : row.completion ≡ some completion
  same_id : row.id ≡ e.request_id
  same_fingerprint : row.request_fingerprint ≡ fingerprint
  same_outcome : completion.outcome ≡ e.outcome
  stable : is_stable_outcome completion.outcome ≡ true

ok_inj {ℓ} : {A : Type ℓ} {a b : A} → Result.ok a ≡ ok b → a ≡ b
ok_inj h = cc

some_inj {ℓ} : {A : Type ℓ} {a b : A} → some a ≡ some b → a ≡ b
some_inj h = cc

stored_outcome-ok :
    (o : Option Completion) {outcome : StableOutcome}
    → stored_outcome o ≡ ok outcome
    → (c : Completion) × (o ≡ some c) × (c.outcome ≡ outcome) × (is_stable_outcome c.outcome ≡ true)
unfolding stored_outcome
stored_outcome-ok none {outcome} e = cc
stored_outcome-ok (some c) {outcome} e =
    let both : (c.outcome ≡ outcome) × (is_stable_outcome c.outcome ≡ true) = ground arith in
    (c, refl, both.0, both.1)

canonicalize-ok :
    (outcome : StableOutcome) {canonical : StableOutcome}
    → canonicalize_stable_outcome outcome ≡ ok canonical
    → (canonical ≡ outcome) × (is_stable_outcome outcome ≡ true)
unfolding canonicalize_stable_outcome
canonicalize-ok outcome e = ground arith

module _ (env : Environment) (periods : Registry) (request : TransportRequest) where
  replays :
      (fingerprint : String) (e : IdempotencyExecution) (now n : ℤ) (operation : Tx StableOutcome)
      (s : Session)
      → request_fingerprint env request ≡ ok fingerprint
      → require_int64 (pos 0) now ≡ ok n
      → Stored request fingerprint e s.requests
      → execute env periods request now operation s
        ≡ ok (record e { replayed = true }, record s { next_id = suc s.next_id })
  unfolding execute claim insert_or_read stored_claim stored_outcome replay ◌>>=◌ lift new_id pure
      gets guard or_raise
  replays fingerprint e now n operation s fp in_range h =
      rw
        (
          in_range,
          fp,
          h.found,
          h.completed,
          h.stable,
          h.same_fingerprint,
          h.same_outcome,
          h.same_id,
          same_text fingerprint,
        )
        refl

  -- A claim is new, and its open row stands first; or it is the claim of a completed row.
  abbrev Claimed : String → TransportClaim → Session → Type 0
  Claimed fingerprint c s =
      ((c.is_new ≡ true)
        × (row : TransportRequestModel) × (rows : List TransportRequestModel) × (s.requests
            ≡ row ∷ rows)
        × (is_request request.namespace request.transport_key row ≡ true)
        × (is_open c.request_id row ≡ true)
        × (row.id ≡ c.request_id)
        × (row.request_fingerprint ≡ fingerprint))
      ⊎ ((c.is_new ≡ false)
          × (outcome : StableOutcome) × (c.outcome ≡ some outcome)
          × ((c.request_fingerprint ≡ fingerprint)
              → Stored request fingerprint
                  (record { outcome = outcome; replayed = true; request_id = c.request_id })
                  s.requests))

  abbrev new_row : ℕ → String → TransportRequestModel
  new_row id fingerprint = record {
    id = id;
    namespace = request.namespace;
    transport_key = request.transport_key;
    actor_kind = request.actor_kind;
    actor_reference = request.actor_reference;
    request_fingerprint = fingerprint;
    completion = none;
  }

  is_its_request :
      (id : ℕ) (fingerprint : String)
      → is_request request.namespace request.transport_key (new_row id fingerprint) ≡ true
  is_its_request id fingerprint =
      rw (same_text request.namespace, same_text request.transport_key) refl

  is_its_open : (id : ℕ) (fingerprint : String) → is_open id (new_row id fingerprint) ≡ true
  is_its_open id fingerprint = ground arith

  insert_or_read-Claimed :
      (found : Option TransportRequestModel) (id : ℕ) (fingerprint : String) (s : Session)
      → find? (is_request request.namespace request.transport_key) s.requests ≡ found
      → Post (Claimed fingerprint) (insert_or_read found (new_row id fingerprint) s)
  unfolding insert_or_read insert_request
  insert_or_read-Claimed none id fingerprint s e = gets_step _ _ _ s (
      guard_step _ _ _ _ s λ _. modify_step _ _ _ s (
        modify_step _ _ _ _ (
          pure_end _ _ _ (
            inl (
              refl,
              new_row id fingerprint,
              s.requests,
              refl,
              is_its_request id fingerprint,
              is_its_open id fingerprint,
              refl,
              refl,
            )))))
  insert_or_read-Claimed (some row) id fingerprint s e = lift_step _ _ _ s λ outcome is_outcome.
      let (completion, completed, same, stable) = stored_outcome-ok row.completion is_outcome in
      pure_end _ _ s (
        inr (
          refl,
          outcome,
          refl,
          λ same_fingerprint. record {
            row = row;
            completion = completion;
            found = e;
            completed = completed;
            same_id = refl;
            same_fingerprint = same_fingerprint;
            same_outcome = same;
            stable = stable;
          },
        ))

  claim-Claimed :
      (id : ℕ) (fingerprint : String) (s : Session)
      → Post (Claimed fingerprint) (
          claim id request.namespace request.transport_key request.actor_kind
            request.actor_reference fingerprint s)
  unfolding claim
  claim-Claimed id fingerprint s =
      gets_step _ _ _ s (insert_or_read-Claimed _ id fingerprint s refl)

  -- What `complete` writes.
  complete-writes :
      (id : ℕ) (outcome : StableOutcome) (now until : ℤ) (s : Session)
      → Post
          (λ (u : Unit {0}) t.
            (completion : Completion) × (completion.outcome ≡ outcome)
            × (is_stable_outcome outcome ≡ true)
            × (t.requests ≡ map (complete_row id completion) s.requests))
          (complete id outcome now until s)
  unfolding complete
  complete-writes id outcome now until s = lift_step _ _ _ s λ _ _. lift_step _ _ _ s λ _ _.
      guard_step _ _ _ _ s λ _. lift_step _ _ _ s λ canonical is_canonical. gets_step _ _ _ s (
        modify_step _ _ _ s (
          guard_step _ _ _ _ _ λ _. modify_end _ _ _ (
            _,
            (canonicalize-ok outcome is_canonical).0,
            (canonicalize-ok outcome is_canonical).1,
            refl,
          )))

  run_operation-Stored :
      (c : TransportClaim) (fingerprint : String) (now : ℤ) (operation : Tx StableOutcome)
      (row : TransportRequestModel) (rows : List TransportRequestModel) (s : Session)
      → Preserves (λ t. t.requests ≡ row ∷ rows) operation
      → s.requests ≡ row ∷ rows
      → is_request request.namespace request.transport_key row ≡ true
      → is_open c.request_id row ≡ true
      → row.id ≡ c.request_id
      → row.request_fingerprint ≡ fingerprint
      → Post
          (λ e t. Stored request fingerprint e t.requests)
          (run_operation periods c request.namespace now operation s)
  unfolding run_operation defer_until_commit
  run_operation-Stored c fingerprint now operation row rows s keeps first fits opened same_id
        same_fingerprint =
      frame_step _ _ (λ t. t.requests ≡ row ∷ rows) _ s keeps first
        λ result s1 first1. lift_step _ _ _ s1 λ outcome is_outcome. lift_step _ _ _ s1 λ until _.
          >>=-Post
            (λ _ t.
              Stored request fingerprint
                (record { outcome = outcome; replayed = false; request_id = c.request_id })
                t.requests)
            _ _ _ s1
            (Post-map (λ _ _. _)
              (λ _ t.
                Stored request fingerprint
                  (record { outcome = outcome; replayed = false; request_id = c.request_id })
                  t.requests)
              _ (complete-writes c.request_id outcome now until s1)
              λ _ t (completion, same, stable, written). record {
                row = record row { completion = some completion };
                completion = completion;
                found = rw (written, first1, opened, fits) refl;
                completed = refl;
                same_id = same_id;
                same_fingerprint = same_fingerprint;
                same_outcome = same;
                stable = rw same stable;
              })
            λ _ t h. modify_step _ _ _ t (pure_end _ _ _ h)

  replay-Stored :
      (c : TransportClaim) (outcome : StableOutcome) (fingerprint : String) (s : Session)
      → c.outcome ≡ some outcome
      → ((c.request_fingerprint ≡ fingerprint)
          → Stored request fingerprint
              (record { outcome = outcome; replayed = true; request_id = c.request_id })
              s.requests)
      → Post (λ e t. Stored request fingerprint e t.requests) (replay c fingerprint s)
  unfolding replay
  replay-Stored c outcome fingerprint s known held = guard_step _ _ _ _ s λ same.
      or_raise_step _ _ _ _ s λ read is_read.
        let agree : outcome ≡ read = some_inj (sym known ∙ is_read) in
        pure_end _ _ s (
          subst
            (λ o.
              Stored request fingerprint
                (record { outcome = o; replayed = true; request_id = c.request_id }) s.requests)
            agree (held ((eq_iff _ _).0 same)))

  execute-Stored :
      (now : ℤ) (operation : Tx StableOutcome) (s : Session)
      → ((rows : List TransportRequestModel) → Preserves (λ t. t.requests ≡ rows) operation)
      → Post
          (λ e t.
            (fingerprint : String) × (request_fingerprint env request ≡ ok fingerprint)
            × Stored request fingerprint e t.requests)
          (execute env periods request now operation s)
  unfolding execute
  execute-Stored now operation s keeps = lift_step _ _ _ s λ _ _.
      lift_step _ _ _ s λ fingerprint is_fingerprint.
        frame_step _ _ (λ _. Unit {0}) _ s (Preserves-new_id λ _ k. k) tt
          λ id s1 _.
            >>=-Post (Claimed fingerprint) _ _ _ s1 (claim-Claimed id fingerprint s1)
              λ c s2 claimed. elim claimed [
                | inl (is_new, row, rows, first, fits, opened, same_id, same_fingerprint) ↦
                    rw is_new (
                      Post-map (λ e t. Stored request fingerprint e t.requests) _ _
                        (run_operation-Stored c fingerprint now operation row rows s2
                          (keeps (row ∷ rows)) first fits opened same_id same_fingerprint)
                        λ e t h. (fingerprint, is_fingerprint, h))
                | inr (is_old, outcome, known, held) ↦ rw is_old (
                    Post-map (λ e t. Stored request fingerprint e t.requests) _ _
                      (replay-Stored c outcome fingerprint s2 known held)
                      λ e t h. (fingerprint, is_fingerprint, h))
              ]

  -- A request that was answered is answered the same again, whatever operation comes with it: the stored
  -- outcome is returned under the same request id, the operation does not run, and nothing but the
  -- supply of ids changes. Its conditions: the first operation leaves the request table alone, and the
  -- second time is an integer of 64 bits that is not negative.
  pub execute_twice :
      (now later n : ℤ) (operation other : Tx StableOutcome) (s t : Session)
      (e : IdempotencyExecution)
      → ((rows : List TransportRequestModel) → Preserves (λ t. t.requests ≡ rows) operation)
      → execute env periods request now operation s ≡ ok (e, t)
      → require_int64 (pos 0) later ≡ ok n
      → execute env periods request later other t
        ≡ ok (record e { replayed = true }, record t { next_id = suc t.next_id })
  execute_twice now later n operation other s t e keeps first in_range =
      let (fingerprint, is_fingerprint, stored) =
        Post-ok _ _ (execute-Stored now operation s keeps) first in
      replays fingerprint e later n other t is_fingerprint in_range stored
