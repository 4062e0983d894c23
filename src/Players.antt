-- ===== src/Players.antt =====
-- Players and wallets: SqlAlchemyPlayerRepository, SqlAlchemyAccountRepository and
-- AggregateCompletenessTracker of src/butterbot/infrastructure/persistence/repositories.py.
pub mod Balanced
use butterbot.Base.{
  ℕ, ℤ, pos, Option, none, some, Bool, true, false, not, ◌||◌, List, ◌∷◌, ◌==◌, any, all, find?,
  contains, if◌then◌else◌,
}
use butterbot.Exact.{require_int64}
use butterbot.Result.{integrity_error, runtime_error, persistence_invariant}
use butterbot.Models.{PlayerModel, AccountModel, wallet, active}
use butterbot.Tx.{Tx, pure, gets, lift, guard, or_raise, modify_db, ◌>>=◌, ◌>>◌}
use butterbot.Ledger.{insert_account, insert_balance, owned_by, balance_of, track}

pub record WalletRecord : Type 0 where
  pub id : ℕ
  pub player_id : ℕ
  pub amount : ℤ
  pub version : ℤ

-- The ids of `made` that are not in `finished`: a set difference.
abbrev pub is_covered : List ℕ → List ℕ → Bool
is_covered made finished = all (λ id. contains id finished) made

unfoldable pub assert_complete : Tx (Unit {0})
assert_complete = do
  tracker ← gets (λ s. s.tracker)
  guard (is_covered tracker.created_accounts tracker.projected_accounts) persistence_invariant
  guard (is_covered tracker.created_players tracker.completed_players) persistence_invariant

abbrev pub is_user : ℕ → PlayerModel → Bool
is_user user row = row.discord_user_id == user

unfoldable pub get_by_discord_user_id : ℕ → Tx (Option PlayerModel)
get_by_discord_user_id user = do
  lift (require_int64 (pos 0) (pos user))
  gets (λ s. find? (is_user user) s.players)

unfoldable pub insert_player : PlayerModel → Tx (Unit {0})
insert_player row = do
  players ← gets (λ s. s.players)
  guard (not (any (λ (p : PlayerModel). p.id == row.id || is_user row.discord_user_id p) players))
      integrity_error
  modify_db (λ d. record d { players = row ∷ d.players })

unfoldable pub insert_new_player : ℕ → ℕ → ℤ → Tx (PlayerModel × Bool)
unfolding insert_player
insert_new_player player_id user created_at_ms = do
  insert_player (record {
    id = player_id;
    discord_user_id = user;
    created_at_ms = created_at_ms;
    lifecycle_state = active;
  })
  players ← gets (λ s. s.players)
  model ← or_raise (find? (is_user user) players) runtime_error
  track (λ g. record g { created_players = model.id ∷ g.created_players })
  pure (model, true)

unfoldable pub keep_or_insert : Option PlayerModel → ℕ → ℕ → ℤ → Tx (PlayerModel × Bool)
unfolding insert_new_player
keep_or_insert (some existing) player_id user created_at_ms = pure (existing, false)
keep_or_insert none player_id user created_at_ms = insert_new_player player_id user created_at_ms

unfoldable pub create_if_absent : ℕ → ℕ → ℤ → Tx (PlayerModel × Bool)
unfolding keep_or_insert
create_if_absent player_id user created_at_ms = do
  lift (require_int64 (pos 0) (pos user))
  lift (require_int64 (pos 0) created_at_ms)
  existing ← get_by_discord_user_id user
  keep_or_insert existing player_id user created_at_ms

unfoldable pub wallet_record : Option AccountModel → Tx (Option WalletRecord)
wallet_record none = pure none
wallet_record (some account) = do
  balances ← gets (λ s. s.balances)
  balance ← or_raise (balance_of account.id balances) persistence_invariant
  player ← or_raise account.player_id persistence_invariant
  pure (
      some (record {
        id = account.id;
        player_id = player;
        amount = balance.amount;
        version = balance.version;
      }))

unfoldable pub get_wallet : ℕ → Tx (Option WalletRecord)
unfolding wallet_record
get_wallet player_id = do
  accounts ← gets (λ s. s.accounts)
  wallet_record (find? (owned_by player_id wallet) accounts)

unfoldable pub insert_wallet : ℕ → ℕ → ℤ → Tx (WalletRecord × Bool)
insert_wallet account_id player_id created_at_ms = do
  insert_account (record {
    id = account_id;
    player_id = some player_id;
    account_kind = wallet;
    currency_key = "coin";
    system_key = none;
    created_at_ms = created_at_ms;
  })
  accounts ← gets (λ s. s.accounts)
  account ← or_raise (find? (owned_by player_id wallet) accounts) runtime_error
  track (λ g. record g { created_accounts = account.id ∷ g.created_accounts })
  insert_balance
      (record { account_id = account.id; account_kind = wallet; amount = pos 0; version = pos 0 })
  track (λ g. record g { projected_accounts = account.id ∷ g.projected_accounts })
  found ← get_wallet player_id
  made ← or_raise found persistence_invariant
  track (λ g. record g { completed_players = player_id ∷ g.completed_players })
  pure (made, true)

unfoldable pub complete_or_insert : Option WalletRecord → ℕ → ℕ → ℤ → Tx (WalletRecord × Bool)
unfolding insert_wallet
complete_or_insert (some existing) account_id player_id created_at_ms = do
  track (λ g. record g { completed_players = player_id ∷ g.completed_players })
  pure (existing, false)
complete_or_insert none account_id player_id created_at_ms =
    insert_wallet account_id player_id created_at_ms

unfoldable pub keep_wallet : ℕ → Tx (WalletRecord × Bool)
keep_wallet player_id = do
  found ← get_wallet player_id
  kept ← or_raise found persistence_invariant
  pure (kept, false)

unfoldable pub new_player_wallet : ℕ → ℕ → ℤ → Tx (WalletRecord × Bool)
unfolding complete_or_insert
new_player_wallet account_id player_id created_at_ms = do
  existing ← get_wallet player_id
  complete_or_insert existing account_id player_id created_at_ms

abbrev same_bool : Bool → Bool → Bool
same_bool true b = b
same_bool false b = not b

unfoldable pub create_wallet_if_absent : ℕ → ℕ → ℤ → Bool → Tx (WalletRecord × Bool)
unfolding keep_wallet new_player_wallet
create_wallet_if_absent account_id player_id created_at_ms player_was_created = do
  lift (require_int64 (pos 0) created_at_ms)
  tracker ← gets (λ s. s.tracker)
  guard (same_bool player_was_created (contains player_id tracker.created_players))
      persistence_invariant
  if player_was_created
      then new_player_wallet account_id player_id created_at_ms
      else keep_wallet player_id
