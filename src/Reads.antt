-- ===== src/Reads.antt =====
-- The reads of the repositories keep every predicate of the session.
use butterbot.Base.{ℕ, ℤ, String, Option, none, some}
use butterbot.Ledger.{transport_request}
use butterbot.Models.{AccountModel, Capability}
use butterbot.Players.{get_by_discord_user_id, get_wallet, wallet_record}
use butterbot.Restrictions.{is_frozen, has_capability}
use butterbot.Session.{Session}
use butterbot.Tx.Rules.{Preserves, preserves_rules, Preserves-pure}
use butterbot.Daily.Repository.{find, request}

module _ {μ} {P : Session → Type μ} where
  wallet_record-Preserves : (account : Option AccountModel) → Preserves P (wallet_record account)
  unfolding wallet_record
  wallet_record-Preserves none = Preserves-pure none
  wallet_record-Preserves (some account) = search preserves_rules depth 8

  pub get_wallet-Preserves : (player_id : ℕ) → Preserves P (get_wallet player_id)
  unfolding get_wallet
  get_wallet-Preserves player_id = search (preserves_rules, wallet_record-Preserves)

  pub get_by_discord_user_id-Preserves : (user : ℕ) → Preserves P (get_by_discord_user_id user)
  unfolding get_by_discord_user_id
  get_by_discord_user_id-Preserves user = search preserves_rules

  pub is_frozen-Preserves : (user : ℕ) → Preserves P (is_frozen user)
  unfolding is_frozen
  is_frozen-Preserves user = search preserves_rules

  pub has_capability-Preserves :
      (actor_id : ℕ) (capability : Capability) → Preserves P (has_capability actor_id capability)
  unfolding has_capability
  has_capability-Preserves actor_id capability = search preserves_rules

  pub transport_request-Preserves :
      (namespace key : String) → Preserves P (transport_request namespace key)
  unfolding transport_request
  transport_request-Preserves namespace key = search preserves_rules

  pub find-Preserves : (player_id : ℕ) (period : ℤ) → Preserves P (find player_id period)
  unfolding find
  find-Preserves player_id period = search preserves_rules

  pub request-Preserves : (interaction_id : ℕ) → Preserves P (request interaction_id)
  unfolding request
  request-Preserves interaction_id = search preserves_rules

pub ruleset reads = (
  get_wallet-Preserves, get_by_discord_user_id-Preserves, is_frozen-Preserves,
  has_capability-Preserves, transport_request-Preserves, find-Preserves, request-Preserves,
)
