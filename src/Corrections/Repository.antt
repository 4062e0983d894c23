-- ===== src/Corrections/Repository.antt =====
-- SqlAlchemyCorrectionRepository of src/butterbot/infrastructure/persistence/corrections.py.
use butterbot.Base.{
  ℕ, ℤ, pos, ◌-ℤ◌, concat, Option, none, some, Bool, not, ◌&&◌, ◌||◌, ◌∷◌, ◌==◌, List, [], ltb_ℤ,
  any, find?, sum_by, if◌then◌else◌,
}
use butterbot.Exact.{checked_add_int64}
use butterbot.Ledger.{
  system_account, transport_request, insert_transaction, project, insert_posting,
}
use butterbot.Models.{Correction, GrantExecutionModel, GrantTargetModel, retirement}
use butterbot.Players.{WalletRecord}
use butterbot.Result.{integrity_error}
use butterbot.Session.{Environment}
use butterbot.Tx.{Tx, gets, lift, guard, modify_db, ◌>>=◌, ◌>>◌}

-- The join of executions and their targets: the first that fits the transaction and the account.
abbrev pub target_amount : ℕ → ℕ → List GrantTargetModel → Option ℤ
target_amount proposal_id account_id [] = none
target_amount proposal_id account_id (t ∷ ts) =
    if t.proposal_id == proposal_id && t.account_id == account_id
    then some (t.after_amount -ℤ t.before_amount)
    else target_amount proposal_id account_id ts

abbrev pub first_amount : ℕ → ℕ → List GrantTargetModel → List GrantExecutionModel → Option ℤ
first_amount transaction_id account_id targets [] = none
first_amount transaction_id account_id targets (g ∷ gs) =
    let rest = first_amount transaction_id account_id targets gs in
    if g.transaction_id == transaction_id
    then elim (target_amount g.proposal_id account_id targets) [ some n ↦ some n | none ↦ rest ]
    else rest

unfoldable pub original_amount : ℕ → ℕ → Tx (Option ℤ)
original_amount transaction_id account_id =
    gets (λ s. first_amount transaction_id account_id s.grant_targets s.grant_executions)

abbrev pub corrects : ℕ → ℕ → Correction → Bool
corrects original account_id row =
    row.original_transaction_id == original && row.account_id == account_id

unfoldable pub find : ℕ → ℕ → Tx (Option Correction)
find original account_id = gets (λ s. find? (corrects original account_id) s.corrections)

abbrev pub corrected_since : ℕ → ℤ → List Correction → ℤ
corrected_since actor_id since_ms = sum_by (λ (c : Correction).
    if c.actor_id == actor_id && ltb_ℤ since_ms c.executed_at_ms then c.amount else pos 0)

unfoldable pub amount_since : ℕ → ℤ → Tx ℤ
amount_since actor_id since_ms = gets (λ s. corrected_since actor_id since_ms s.corrections)

-- The unique columns of `economy_corrections`.
abbrev pub correction_conflict : Correction → Correction → Bool
correction_conflict new old =
    old.transaction_id == new.transaction_id
    || corrects new.original_transaction_id new.account_id old

unfoldable pub insert_correction : Correction → Tx (Unit {0})
insert_correction row = do
  rows ← gets (λ s. s.corrections)
  guard (not (any (correction_conflict row) rows)) integrity_error
  modify_db (λ d. record d { corrections = row ∷ d.corrections })

-- `SqlAlchemyCorrectionRepository.debit`: coins from the wallet to the retirement account.
unfoldable pub debit : Environment → Correction → WalletRecord → ℕ → Tx (Unit {0})
debit env c w interaction_id = do
  (account, balance) ← system_account retirement "retirement.correction" c.executed_at_ms
  after ← lift (checked_add_int64 balance.amount c.amount)
  version ← lift (checked_add_int64 balance.version (pos 1))
  request ← transport_request "safety.correct_grant" (env.str_int (pos interaction_id))
  insert_transaction (record {
    id = c.transaction_id;
    transaction_kind = "admin.correction";
    committed_at_ms = c.executed_at_ms;
    actor_kind = "discord_user";
    actor_reference = env.str_int (pos c.actor_id);
    reason_code = "retirement.correction";
    correlation_id = c.transaction_id;
    transport_request_id = some request.id;
    domain_reference = some (
        concat (env.str_uuid c.original_transaction_id)
          (concat ":" (env.str_int (pos c.target_id))));
    discord_interaction_id = some interaction_id;
    content_version = none;
  })
  wallet_version ← lift (checked_add_int64 w.version (pos 1))
  project w.id w.amount w.version c.after_amount wallet_version
  project account.id balance.amount balance.version after version
  insert_posting c.transaction_id w.id (pos 0 -ℤ c.amount)
  insert_posting c.transaction_id account.id c.amount
  insert_correction c
