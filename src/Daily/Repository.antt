-- ===== src/Daily/Repository.antt =====
-- SqlAlchemyDailyRepository of src/butterbot/infrastructure/persistence/daily.py.
use butterbot.Base.{
  ℕ, ℤ, pos, negsuc, concat, Option, none, some, Bool, not, ◌&&◌, ◌||◌, ◌∷◌, ◌==◌, eqb_ℤ, any,
  find?,
}
use butterbot.Exact.{checked_add_int64}
use butterbot.Ledger.{
  system_account, transport_request, insert_transaction, project, insert_posting,
}
use butterbot.Models.{DailyClaim, issuance}
use butterbot.Players.{WalletRecord}
use butterbot.Result.{integrity_error}
use butterbot.Session.{Environment}
use butterbot.Tx.{Tx, gets, lift, guard, modify_db, ◌>>=◌, ◌>>◌}

-- `SqlAlchemyDailyRepository.find` and `.request`
abbrev pub claimed_by : ℕ → ℤ → DailyClaim → Bool
claimed_by player_id period row = row.player_id == player_id && eqb_ℤ row.claim_period period

unfoldable pub find : ℕ → ℤ → Tx (Option DailyClaim)
find player_id period = gets (λ s. find? (claimed_by player_id period) s.daily_claims)

abbrev pub made_by : ℕ → DailyClaim → Bool
made_by interaction_id row = row.interaction_id == interaction_id

unfoldable pub request : ℕ → Tx (Option DailyClaim)
request interaction_id = gets (λ s. find? (made_by interaction_id) s.daily_claims)

-- The unique columns of `economy_daily_claims`.
abbrev pub claim_conflict : DailyClaim → DailyClaim → Bool
claim_conflict new old =
    old.transaction_id == new.transaction_id
    || (claimed_by new.player_id new.claim_period old || made_by new.interaction_id old)

unfoldable pub insert_claim : DailyClaim → Tx (Unit {0})
insert_claim row = do
  claims ← gets (λ s. s.daily_claims)
  guard (not (any (claim_conflict row) claims)) integrity_error
  modify_db (λ d. record d { daily_claims = row ∷ d.daily_claims })

-- `SqlAlchemyDailyRepository.issue`: 15 coins from the issuance account to the wallet.
unfoldable pub issue : Environment → DailyClaim → WalletRecord → Tx (Unit {0})
issue env c w = do
  (account, balance) ← system_account issuance "issuance.daily" c.executed_at_ms
  after ← lift (checked_add_int64 balance.amount (negsuc 14))
  version ← lift (checked_add_int64 balance.version (pos 1))
  request ← transport_request "economy.daily" (env.str_int (pos c.interaction_id))
  insert_transaction (record {
    id = c.transaction_id;
    transaction_kind = "daily.claim";
    committed_at_ms = c.executed_at_ms;
    actor_kind = "discord_user";
    actor_reference = env.str_int (pos c.actor_id);
    reason_code = "issuance.daily";
    correlation_id = c.transaction_id;
    transport_request_id = some request.id;
    domain_reference =
        some (concat (env.hex c.player_id) (concat ":" (env.str_int c.claim_period)));
    discord_interaction_id = some c.interaction_id;
    content_version = none;
  })
  wallet_version ← lift (checked_add_int64 w.version (pos 1))
  project w.id w.amount w.version c.after_amount wallet_version
  project account.id balance.amount balance.version after version
  insert_posting c.transaction_id w.id (pos 15)
  insert_posting c.transaction_id account.id (negsuc 14)
  insert_claim c
