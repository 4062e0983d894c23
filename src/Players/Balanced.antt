-- ===== src/Players/Balanced.antt =====
-- A new player's wallet starts with nothing, so joining moves no coin.
use butterbot.Base.{ℕ, ℤ, Bool, Option, none, some}
use butterbot.Ledger.{track}
use butterbot.Ledger.Effects.{insert_account-Has, insert_balance-Has}
use butterbot.Ledger.Measure.{Has, Measure}
use butterbot.Models.{PlayerModel}
use butterbot.Players.{
  WalletRecord, insert_player, insert_new_player, keep_or_insert, create_if_absent, insert_wallet,
  complete_or_insert, keep_wallet, new_player_wallet, create_wallet_if_absent,
}
use butterbot.Reads.{reads}
use butterbot.Session.{AggregateCompletenessTracker}
use butterbot.Tx.Rules.{Preserves, preserves_rules}

module _ (v : Measure → ℤ) where
  track-Has :
      (f : AggregateCompletenessTracker → AggregateCompletenessTracker)
      → Preserves (Has v) (track f)
  track-Has f = search preserves_rules

  insert_player-Has : (row : PlayerModel) → Preserves (Has v) (insert_player row)
  unfolding insert_player
  insert_player-Has row = search preserves_rules

  insert_new_player-Has :
      (player_id user : ℕ) (now : ℤ) → Preserves (Has v) (insert_new_player player_id user now)
  unfolding insert_new_player
  insert_new_player-Has player_id user now =
      search (preserves_rules, insert_player-Has, track-Has) depth 14

  keep_or_insert-Has :
      (found : Option PlayerModel) (player_id user : ℕ) (now : ℤ)
      → Preserves (Has v) (keep_or_insert found player_id user now)
  unfolding keep_or_insert
  keep_or_insert-Has none player_id user now = insert_new_player-Has player_id user now
  keep_or_insert-Has (some p) player_id user now = search preserves_rules

  pub create_if_absent-Has :
      (player_id user : ℕ) (now : ℤ) → Preserves (Has v) (create_if_absent player_id user now)
  unfolding create_if_absent
  create_if_absent-Has player_id user now =
      search (preserves_rules, reads, keep_or_insert-Has) depth 12

  insert_wallet-Has :
      (account_id player_id : ℕ) (now : ℤ)
      → Preserves (Has v) (insert_wallet account_id player_id now)
  unfolding insert_wallet
  insert_wallet-Has account_id player_id now =
      search (preserves_rules, reads, insert_account-Has v, insert_balance-Has v, track-Has) depth
        24

  complete_or_insert-Has :
      (found : Option WalletRecord) (account_id player_id : ℕ) (now : ℤ)
      → Preserves (Has v) (complete_or_insert found account_id player_id now)
  unfolding complete_or_insert
  complete_or_insert-Has none account_id player_id now = insert_wallet-Has account_id player_id now
  complete_or_insert-Has (some w) account_id player_id now = search (preserves_rules, track-Has)

  keep_wallet-Has : (player_id : ℕ) → Preserves (Has v) (keep_wallet player_id)
  unfolding keep_wallet
  keep_wallet-Has player_id = search (preserves_rules, reads)

  new_player_wallet-Has :
      (account_id player_id : ℕ) (now : ℤ)
      → Preserves (Has v) (new_player_wallet account_id player_id now)
  unfolding new_player_wallet
  new_player_wallet-Has account_id player_id now =
      search (preserves_rules, reads, complete_or_insert-Has)

  pub create_wallet_if_absent-Has :
      (account_id player_id : ℕ) (now : ℤ) (was_created : Bool)
      → Preserves (Has v) (create_wallet_if_absent account_id player_id now was_created)
  unfolding create_wallet_if_absent
  create_wallet_if_absent-Has account_id player_id now was_created =
      search (preserves_rules, keep_wallet-Has, new_player_wallet-Has) depth 14
