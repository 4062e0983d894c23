-- ===== src/Join/Repeat.antt =====
-- A `/join` that comes in twice: the body leaves the requests alone, so the second gets the first's answer.
use butterbot.Base.{
  ℕ, suc, ℤ, pos, Bool, true, false, Option, none, some, List, ◌≡◌, refl, ◌∙◌, ap, sym, ◌==◌,
}
use mathlib.Core.Path.{subst}
use butterbot.Daily.{field_count, payload_fields}
use butterbot.Exact.{require_int64}
use butterbot.Exact.Bounds.{require_int64-ok}
use butterbot.Idempotency.Replay.{execute_twice}
use butterbot.Join.{apply, join_result, join, join_request, join_status, JoinStatus, JoinResult}
use butterbot.Ledger.{track, insert_account, insert_balance}
use butterbot.Models.{
  PlayerModel, TransportRequestModel, StableOutcome, AccountModel, AccountBalanceModel,
}
use butterbot.Players.{
  WalletRecord, insert_player, insert_new_player, keep_or_insert, create_if_absent, insert_wallet,
  complete_or_insert, keep_wallet, new_player_wallet, create_wallet_if_absent,
}
use butterbot.Reads.{reads}
use butterbot.Requests.{Registry}
use butterbot.Result.{Result, Error, ok, err, invalid_join_outcome}
use butterbot.Session.{Session, Environment, AggregateCompletenessTracker}
use butterbot.Tx.{Tx, pure, lift, guard, or_raise, ◌>>=◌, ◌>>◌}
use butterbot.Tx.Rules.{Preserves, preserves_rules, >>=-ok, lift-ok, ok->>=}

module _ (rows : List TransportRequestModel) where
  abbrev KeepsRows : Session → Type 0
  KeepsRows s = s.requests ≡ rows

  track-KeepsRows :
      (f : AggregateCompletenessTracker → AggregateCompletenessTracker)
      → Preserves KeepsRows (track f)
  track-KeepsRows f = search preserves_rules

  insert_account-KeepsRows : (row : AccountModel) → Preserves KeepsRows (insert_account row)
  unfolding insert_account
  insert_account-KeepsRows row = search preserves_rules

  insert_balance-KeepsRows : (row : AccountBalanceModel) → Preserves KeepsRows (insert_balance row)
  unfolding insert_balance
  insert_balance-KeepsRows row = search preserves_rules

  insert_player-KeepsRows : (row : PlayerModel) → Preserves KeepsRows (insert_player row)
  unfolding insert_player
  insert_player-KeepsRows row = search preserves_rules

  insert_new_player-KeepsRows :
      (player_id user : ℕ) (now : ℤ) → Preserves KeepsRows (insert_new_player player_id user now)
  unfolding insert_new_player
  insert_new_player-KeepsRows player_id user now =
      search (preserves_rules, insert_player-KeepsRows, track-KeepsRows) depth 14

  keep_or_insert-KeepsRows :
      (found : Option PlayerModel) (player_id user : ℕ) (now : ℤ)
      → Preserves KeepsRows (keep_or_insert found player_id user now)
  unfolding keep_or_insert
  keep_or_insert-KeepsRows none player_id user now = insert_new_player-KeepsRows player_id user now
  keep_or_insert-KeepsRows (some p) player_id user now = search preserves_rules

  create_if_absent-KeepsRows :
      (player_id user : ℕ) (now : ℤ) → Preserves KeepsRows (create_if_absent player_id user now)
  unfolding create_if_absent
  create_if_absent-KeepsRows player_id user now =
      search (preserves_rules, reads, keep_or_insert-KeepsRows) depth 12

  insert_wallet-KeepsRows :
      (account_id player_id : ℕ) (now : ℤ)
      → Preserves KeepsRows (insert_wallet account_id player_id now)
  unfolding insert_wallet
  insert_wallet-KeepsRows account_id player_id now =
      search
        (
          preserves_rules, reads, insert_account-KeepsRows, insert_balance-KeepsRows,
          track-KeepsRows,
        )
        depth 24

  complete_or_insert-KeepsRows :
      (found : Option WalletRecord) (account_id player_id : ℕ) (now : ℤ)
      → Preserves KeepsRows (complete_or_insert found account_id player_id now)
  unfolding complete_or_insert
  complete_or_insert-KeepsRows none account_id player_id now =
      insert_wallet-KeepsRows account_id player_id now
  complete_or_insert-KeepsRows (some w) account_id player_id now =
      search (preserves_rules, track-KeepsRows)

  keep_wallet-KeepsRows : (player_id : ℕ) → Preserves KeepsRows (keep_wallet player_id)
  unfolding keep_wallet
  keep_wallet-KeepsRows player_id = search (preserves_rules, reads)

  new_player_wallet-KeepsRows :
      (account_id player_id : ℕ) (now : ℤ)
      → Preserves KeepsRows (new_player_wallet account_id player_id now)
  unfolding new_player_wallet
  new_player_wallet-KeepsRows account_id player_id now =
      search (preserves_rules, reads, complete_or_insert-KeepsRows)

  create_wallet-KeepsRows :
      (account_id player_id : ℕ) (now : ℤ) (was_created : Bool)
      → Preserves KeepsRows (create_wallet_if_absent account_id player_id now was_created)
  unfolding create_wallet_if_absent
  create_wallet-KeepsRows account_id player_id now was_created =
      search (preserves_rules, keep_wallet-KeepsRows, new_player_wallet-KeepsRows) depth 14

  apply-KeepsRows :
      (allowed : Bool) (user : ℕ) (now : ℤ) → Preserves KeepsRows (apply allowed user now)
  unfolding apply
  apply-KeepsRows allowed user now =
      search (preserves_rules, reads, create_if_absent-KeepsRows, create_wallet-KeepsRows) depth 24

ok_inj {ℓ} : {A : Type ℓ} {a b : A} → Result.ok a ≡ ok b → a ≡ b
ok_inj h = cc

no_answer {ℓ} : {A : Type ℓ} {e : Error} {a : A} → ◌≡◌ {A = Result A} (err e) (ok a) → ⊥
no_answer h = cc

lift_runs : {A : Type 0} (r : Result A) (s : Session) {a : A} → r ≡ ok a → lift r s ≡ ok (a, s)
unfolding lift
lift_runs r s h = rw h refl

abbrev answer : Option JoinStatus → Bool → Bool → Tx JoinResult
answer found is_empty replayed = do
  status ← or_raise found invalid_join_outcome
  guard is_empty invalid_join_outcome
  pure (record { status = status; replayed = replayed })

answer_again :
    (found : Option JoinStatus) (is_empty replayed : Bool) (s t u : Session) {r : JoinResult}
    → answer found is_empty replayed s ≡ ok (r, t)
    → (t ≡ s) × (answer found is_empty true u ≡ ok (record r { replayed = true }, u))
unfolding ◌>>=◌ or_raise guard pure
answer_again none is_empty replayed s t u {r} h = absurd (no_answer h)
answer_again (some status) false replayed s t u {r} h = absurd (no_answer h)
answer_again (some status) true replayed s t u {r} h =
    let same = ok_inj h in
    (
      sym (ap (λ p. p.1) same),
      ap (λ (p : JoinResult × Session). ok (record p.0 { replayed = true }, u)) same,
    )

-- The answer is read from the stored outcome alone.
join_result-again :
    (outcome : StableOutcome) (replayed : Bool) (s t u : Session) {r : JoinResult}
    → join_result outcome replayed s ≡ ok (r, t)
    → (t ≡ s) × (join_result outcome true u ≡ ok (record r { replayed = true }, u))
unfolding join_result
join_result-again outcome replayed s t u {r} h =
    answer_again (join_status outcome.kind outcome.code)
      (field_count (payload_fields outcome.payload) == 0) replayed s t u h

module _ (env : Environment) (periods : Registry) (user interaction_id : ℕ) where
  -- A join that was answered is answered the same again, as a replay, whatever the clock and the
  -- eligibility say by then; nothing but the supply of ids changes.
  pub join_twice :
      (allowed allowed_later : Bool) (clock_ms later n : ℤ) (s t : Session) (r : JoinResult)
      → join env periods allowed clock_ms user interaction_id s ≡ ok (r, t)
      → require_int64 (pos 0) later ≡ ok n
      → join env periods allowed_later later user interaction_id t
        ≡ ok (record r { replayed = true }, record t { next_id = suc t.next_id })
  unfolding join
  join_twice allowed allowed_later clock_ms later n s t r h in_range =
      let (_, s1, first, h1) = >>=-ok _ _ s h in
      let (_, s2, second, h2) = >>=-ok _ _ s1 h1 in
      let (now, s3, third, h3) = >>=-ok _ _ s2 h2 in
      let (e, s4, runs, answers) = >>=-ok _ _ s3 h3 in
      let (same, again) =
        join_result-again e.outcome e.replayed s4 t (record s4 { next_id = suc s4.next_id })
          answers in
      let exact : n ≡ later = (require_int64-ok (pos 0) later in_range).0 in
      let in_range_too : require_int64 (pos 0) n ≡ ok n =
        ap (require_int64 (pos 0)) exact ∙ in_range in
      subst
        (λ x.
          join env periods allowed_later later user interaction_id x
          ≡ ok (record r { replayed = true }, record x { next_id = suc x.next_id }))
        (sym same)
        (ok->>= _ _ s4 (lift_runs _ s4 (lift-ok _ s first).0)
          ∙ ok->>= _ _ s4 (lift_runs _ s4 (lift-ok _ s1 second).0)
          ∙ ok->>= _ _ s4 (lift_runs _ s4 in_range)
          ∙ ok->>= _ _ s4 (
              execute_twice env periods (join_request env user interaction_id) now n n _
                (apply allowed_later user n) s3 s4 e (λ rows. apply-KeepsRows rows allowed user now)
                runs in_range_too)
          ∙ again)
