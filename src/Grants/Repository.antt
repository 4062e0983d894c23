-- ===== src/Grants/Repository.antt =====
-- SqlAlchemyGrantRepository of src/butterbot/infrastructure/persistence/grants.py.
use butterbot.Base.{
  ℕ, ℤ, pos, ◌-ℤ◌, none, some, Bool, not, ◌&&◌, ◌||◌, List, [], ◌∷◌, ◌==◌, ltb_ℤ, any, sum_by,
  if◌then◌else◌,
}
use butterbot.Exact.{require_int64, checked_add_int64}
use butterbot.Ledger.{
  system_account, transport_request, insert_transaction, project, insert_posting,
}
use butterbot.Models.{GrantExecutionModel, GrantTargetModel, issuance}
use butterbot.Players.{WalletRecord}
use butterbot.Result.{integrity_error}
use butterbot.Session.{Environment}
use butterbot.Tx.{Tx, pure, gets, lift, guard, modify_db, ◌>>=◌, ◌>>◌}

pub record GrantCredit : Type 0 where
  pub target_id : ℕ
  pub wallet : WalletRecord
  pub after : ℤ

abbrev pub is_execution_of : ℕ → GrantExecutionModel → Bool
is_execution_of proposal_id row = row.proposal_id == proposal_id

unfoldable pub executed : ℕ → Tx Bool
executed proposal_id = gets (λ s. any (is_execution_of proposal_id) s.grant_executions)

-- The amounts that the actor executed after that time, rows from the future included.
abbrev pub spent_since : ℕ → ℤ → List GrantExecutionModel → ℤ
spent_since actor_id since_ms = sum_by (λ (g : GrantExecutionModel).
    if g.actor_id == actor_id && ltb_ℤ since_ms g.executed_at_ms then g.total else pos 0)

unfoldable pub amount_since : ℕ → ℤ → Tx ℤ
amount_since actor_id since_ms = gets (λ s. spent_since actor_id since_ms s.grant_executions)

abbrev pub same_target : GrantTargetModel → GrantTargetModel → Bool
same_target new old =
    old.proposal_id == new.proposal_id
    && (old.account_id == new.account_id || old.target_id == new.target_id)

unfoldable pub insert_grant_target : GrantTargetModel → Tx (Unit {0})
insert_grant_target row = do
  rows ← gets (λ s. s.grant_targets)
  guard (not (any (same_target row) rows)) integrity_error
  modify_db (λ d. record d { grant_targets = row ∷ d.grant_targets })

-- The unique columns of `admin_grant_executions`.
abbrev pub execution_conflict : GrantExecutionModel → GrantExecutionModel → Bool
execution_conflict new old =
    is_execution_of new.proposal_id old || old.transaction_id == new.transaction_id

unfoldable pub insert_execution : GrantExecutionModel → Tx (Unit {0})
insert_execution row = do
  rows ← gets (λ s. s.grant_executions)
  guard (not (any (execution_conflict row) rows)) integrity_error
  modify_db (λ d. record d { grant_executions = row ∷ d.grant_executions })

abbrev pub credited : GrantCredit → ℤ
credited c = c.after -ℤ c.wallet.amount

unfoldable pub credit_one : ℕ → ℕ → GrantCredit → Tx (Unit {0})
credit_one proposal_id transaction_id c = do
  next_version ← lift (checked_add_int64 c.wallet.version (pos 1))
  project c.wallet.id c.wallet.amount c.wallet.version c.after next_version
  insert_posting transaction_id c.wallet.id (credited c)
  insert_grant_target (record {
    proposal_id = proposal_id;
    account_id = c.wallet.id;
    target_id = c.target_id;
    before_amount = c.wallet.amount;
    after_amount = c.after;
  })

unfoldable pub credit_all : ℕ → ℕ → List GrantCredit → Tx (Unit {0})
credit_all proposal_id transaction_id [] = pure tt
credit_all proposal_id transaction_id (c ∷ cs) =
    credit_one proposal_id transaction_id c >> credit_all proposal_id transaction_id cs

-- `SqlAlchemyGrantRepository.issue`
unfoldable pub issue : Environment → ℕ → ℕ → ℕ → ℕ → ℤ → List GrantCredit → Tx (Unit {0})
issue env proposal_id transaction_id actor_id interaction_id now_ms credits = do
  total ← lift (require_int64 (pos 1) (sum_by credited credits))
  (account, balance) ← system_account issuance "issuance.admin" now_ms
  after ← lift (checked_add_int64 balance.amount (pos 0 -ℤ total))
  next_version ← lift (checked_add_int64 balance.version (pos 1))
  request ← transport_request "safety.execute_grant" (env.str_int (pos interaction_id))
  insert_transaction (record {
    id = transaction_id;
    transaction_kind = "admin.grant";
    committed_at_ms = now_ms;
    actor_kind = "discord_user";
    actor_reference = env.str_int (pos actor_id);
    reason_code = "issuance.admin";
    correlation_id = transaction_id;
    transport_request_id = some request.id;
    domain_reference = some (env.str_uuid proposal_id);
    discord_interaction_id = some interaction_id;
    content_version = none;
  })
  project account.id balance.amount balance.version after next_version
  insert_posting transaction_id account.id (pos 0 -ℤ total)
  credit_all proposal_id transaction_id credits
  insert_execution (record {
    proposal_id = proposal_id;
    transaction_id = transaction_id;
    actor_id = actor_id;
    executed_at_ms = now_ms;
    total = total;
  })
