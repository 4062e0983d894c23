-- ===== src/Transport/Cleanup.antt =====
-- TransportIdempotencyMaintenance of src/butterbot/application/operations/idempotency.py, with
-- `storage_stats` of the repository, src/butterbot/infrastructure/persistence/repositories.py.
use butterbot.Base.{
  arith, ℕ, suc, zero, ℤ, pos, Bool, true, false, not, ◌&&◌, ◌||◌, Option, none, some, List, [],
  ◌∷◌, ◌++◌, map, any, select, take, find?, contains, count_if, pos_part, ltb_ℤ, ◌≡◌, refl, ◌==◌,
  if◌then◌else◌, ap, ◌∙◌, ==_iff,
}
use butterbot.Exact.{require_int64}
use butterbot.Models.{TransportRequestModel}
use butterbot.Result.{ok, value_error}
use butterbot.Session.{Session, Database, telemetry}
use butterbot.Transport.{is_expired, insert_by_expiry, sort_by_expiry, expired_ids, delete_expired}
use butterbot.Tx.{Tx, pure, gets, lift, guard, modify, defer_until_commit, ◌>>=◌, ◌>>◌}

pub record TransportStorageStats : Type 0 where
  pub live_count : ℕ
  pub expired_count : ℕ
  pub oldest_retain_until_ms : Option ℤ

-- `retain_until_ms > now_ms`, which NULL does not pass.
abbrev pub is_live : ℤ → TransportRequestModel → Bool
is_live now_ms row = elim row.completion [ none ↦ false | some c ↦ ltb_ℤ now_ms c.retain_until_ms ]

abbrev older : ℤ → Option ℤ → Option ℤ
older a none = some a
older a (some b) = if ltb_ℤ b a then some b else some a

-- `min(retain_until_ms)` of the rows that have one.
unfoldable pub oldest : List TransportRequestModel → Option ℤ
oldest [] = none
oldest (row ∷ rows) = elim row.completion [
  | none ↦ oldest rows
  | some c ↦ older c.retain_until_ms (oldest rows)
]

unfoldable pub storage_stats : ℤ → Tx TransportStorageStats
storage_stats now_ms = do
  lift (require_int64 (pos 0) now_ms)
  requests ← gets (λ s. s.requests)
  pure record {
    live_count = count_if (is_live now_ms) requests;
    expired_count = count_if (is_expired now_ms) requests;
    oldest_retain_until_ms = oldest requests;
  }

-- The telemetry of a failure changes no table; that of a success waits for the commit.
unfoldable pub cleanup : ℤ → ℤ → Tx ℕ
cleanup now_ms limit = do
  lift (require_int64 (pos 0) now_ms)
  lift (require_int64 (pos 1) limit)
  guard (not (ltb_ℤ limit (pos 1))) value_error
  storage_stats now_ms
  deleted ← delete_expired now_ms limit
  storage_stats now_ms
  defer_until_commit (telemetry "operations.transport_idempotency_storage" "completed")
  pure deleted

any-take {ℓ} :
    {A : Type ℓ} (p : A → Bool) (n : ℕ) (xs : List A) → any p xs ≡ false → any p (take n xs) ≡ false
any-take p zero xs h = refl
any-take p (suc n) [] h = refl
any-take p (suc n) (x ∷ xs) h = ground (arith, any-take p n xs)

any-select {ℓ} :
    {A : Type ℓ} (p keep : A → Bool) (xs : List A)
    → any (λ x. p x && keep x) xs ≡ false
    → any p (select keep xs) ≡ false
any-select p keep [] h = refl
any-select p keep (x ∷ xs) h = ground (arith, any-select p keep xs)

any-map {ℓ κ} :
    {A : Type ℓ} {B : Type κ} (p : B → Bool) (f : A → B) (xs : List A)
    → any p (map f xs) ≡ any (λ x. p (f x)) xs
any-map p f [] = refl
any-map p f (x ∷ xs) = ap (λ b. p (f x) || b) (any-map p f xs)

find?-select {ℓ} :
    {A : Type ℓ} (p keep : A → Bool) (agree : (x : A) → p x ≡ true → keep x ≡ true) (xs : List A)
    → find? p (select keep xs) ≡ find? p xs
find?-select p keep agree [] = refl
find?-select p keep agree (x ∷ xs) = ground (arith, agree x, find?-select p keep agree xs)

any-insert_by_expiry :
    (p : TransportRequestModel → Bool) (r : TransportRequestModel) (rs : List TransportRequestModel)
    → any p (insert_by_expiry r rs) ≡ (p r || any p rs)
unfolding insert_by_expiry
any-insert_by_expiry p r [] = refl
any-insert_by_expiry p r (x ∷ xs) = ground (arith, any-insert_by_expiry p r xs)

any-sort_by_expiry :
    (p : TransportRequestModel → Bool) (rs : List TransportRequestModel)
    → any p (sort_by_expiry rs) ≡ any p rs
unfolding sort_by_expiry
any-sort_by_expiry p [] = refl
any-sort_by_expiry p (r ∷ rs) =
    any-insert_by_expiry p r (sort_by_expiry rs) ∙ ap (λ b. p r || b) (any-sort_by_expiry p rs)

abbrev pub has_id : ℕ → TransportRequestModel → Bool
has_id id row = row.id == id

-- A request that has expired has the id.
abbrev pub has_expired : ℤ → ℕ → List TransportRequestModel → Bool
has_expired now_ms id = any (λ row. has_id id row && is_expired now_ms row)

contains-expired_ids :
    (now_ms : ℤ) (limit id : ℕ) (requests : List TransportRequestModel)
    → has_expired now_ms id requests ≡ false
    → contains id (expired_ids now_ms limit requests) ≡ false
contains-expired_ids now_ms limit id requests h =
    let expired = select (is_expired now_ms) requests in
    any-map (λ j. j == id) (λ (r : TransportRequestModel). r.id)
      (take limit (sort_by_expiry expired))
    ∙ any-take (has_id id) limit (sort_by_expiry expired) (
        any-sort_by_expiry (has_id id) expired
        ∙ any-select (has_id id) (is_expired now_ms) requests h)

-- What a cleanup leaves: the tables but for requests, of which some are dropped and none that `id`
-- names.
pub record IsSpared (id deleted : ℕ) (before after : Database) : Type 0 where
  pub dropped : TransportRequestModel → Bool
  pub others : after ≡ record before { requests = select (λ r. not (dropped r)) before.requests }
  pub counted : deleted ≡ count_if dropped before.requests
  pub spared : find? (has_id id) after.requests ≡ find? (has_id id) before.requests

other_id :
    (id : ℕ) (doomed : List ℕ)
    → contains id doomed ≡ false
    → (row : TransportRequestModel) → has_id id row ≡ true
    → not (contains row.id doomed) ≡ true
other_id id doomed h row e =
    let same = (==_iff row.id id).0 e in ap (λ j. not (contains j doomed)) same ∙ ap not h

-- The session after a cleanup.
abbrev cleaned_up : ℤ → ℤ → Session → Session
cleaned_up now_ms limit s = record s {
  db = record s.db {
    requests =
        select
          (λ (r : TransportRequestModel).
            not (contains r.id (expired_ids now_ms (pos_part limit) s.requests)))
          s.requests;
  };
  after_commit =
      s.after_commit ++ telemetry "operations.transport_idempotency_storage" "completed" ∷ [];
}

-- A cleanup at a time and with a limit that are in range, the limit positive, returns how many
-- requests it has dropped, and changes no other table; a request whose id no expired one has is found
-- as before.
pub cleanup-IsSpared :
    (now_ms limit n m : ℤ) (id : ℕ) (s : Session)
    → require_int64 (pos 0) now_ms ≡ ok n
    → require_int64 (pos 1) limit ≡ ok m
    → ltb_ℤ limit (pos 1) ≡ false
    → has_expired now_ms id s.requests ≡ false
    → (deleted : ℕ) × (t : Session) × (cleanup now_ms limit s ≡ ok (deleted, t))
      × IsSpared id deleted s.db t.db
unfolding cleanup storage_stats delete_expired defer_until_commit lift guard gets pure modify ◌>>=◌
cleanup-IsSpared now_ms limit n m id s in_range in_limit positive live =
    let doomed = expired_ids now_ms (pos_part limit) s.requests in
    (
      count_if (λ (r : TransportRequestModel). contains r.id doomed) s.requests,
      cleaned_up now_ms limit s,
      rw (in_range, in_limit, positive) refl,
      record {
        dropped = λ r. contains r.id doomed;
        others = refl;
        counted = refl;
        spared =
            find?-select (has_id id) (λ r. not (contains r.id doomed))
              (other_id id doomed (contains-expired_ids now_ms (pos_part limit) id s.requests live))
              s.requests;
      },
    )
