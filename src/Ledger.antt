-- ===== src/Ledger.antt =====
-- The writes that every money movement shares: system accounts, compare-and-set balance projections,
-- ledger transactions and postings. They are SqlAlchemyGrantRepository.project and the common parts
-- of `issue` and `debit` in src/butterbot/infrastructure/persistence/{grants,daily,corrections}.py.
-- A flushed insert fails on a primary key or unique column that is taken, and on the CHECK of an
-- amount; the row order of a table is not observable, so a new row stands first.
pub mod Measure
pub mod Effects
pub mod Moves
use butterbot.Base.{
  ℕ, ℤ, pos, String, Option, none, some, Bool, true, false, not, ◌&&◌, ◌||◌, List, ◌∷◌, map, ◌==◌,
  str_eq, eqb_ℤ, any, all, find?, count_if, is_some, if◌then◌else◌,
}
use butterbot.Result.{integrity_error, runtime_error}
use butterbot.Models.{
  AccountKind, wallet, issuance, retirement, AccountModel, AccountBalanceModel, balance_check,
  LedgerTransactionModel, LedgerPostingModel, TransportRequestModel,
}
use butterbot.Session.{Session, AggregateCompletenessTracker}
use butterbot.Tx.{Tx, pure, gets, guard, or_raise, modify, modify_db, new_id, ◌>>=◌, ◌>>◌}

abbrev pub same_kind : AccountKind → AccountKind → Bool
same_kind wallet wallet = true
same_kind issuance issuance = true
same_kind retirement retirement = true
same_kind _ _ = false

-- `AccountModel.system_key == key`
abbrev pub has_system_key : String → AccountModel → Bool
has_system_key key row = elim row.system_key [ none ↦ false | some k ↦ str_eq k key ]

-- `AccountModel.player_id == player_id, AccountModel.account_kind == kind`
abbrev pub owned_by : ℕ → AccountKind → AccountModel → Bool
owned_by player kind row = elim row.player_id [
  | none ↦ false
  | some p ↦ p == player && same_kind row.account_kind kind
]

-- The unique columns of `economy_accounts`.
abbrev pub account_conflict : AccountModel → AccountModel → Bool
account_conflict new old =
    old.id == new.id
    || elim new.player_id [ none ↦ false | some p ↦ owned_by p new.account_kind old ]
    || elim new.system_key [ none ↦ false | some k ↦ has_system_key k old ]

unfoldable pub insert_account : AccountModel → Tx (Unit {0})
insert_account row = do
  accounts ← gets (λ s. s.accounts)
  guard (not (any (account_conflict row) accounts)) integrity_error
  modify_db (λ d. record d { accounts = row ∷ d.accounts })

unfoldable pub insert_balance : AccountBalanceModel → Tx (Unit {0})
insert_balance row = do
  balances ← gets (λ s. s.balances)
  guard
      (not (any (λ (b : AccountBalanceModel). b.account_id == row.account_id) balances)
        && balance_check row)
      integrity_error
  modify_db (λ d. record d { balances = row ∷ d.balances })

-- `aggregates.created_accounts.add(id)` and `aggregates.projected_accounts.add(id)`
abbrev pub track : (AggregateCompletenessTracker → AggregateCompletenessTracker) → Tx (Unit {0})
track f = modify (λ s. record s { tracker = f s.tracker })

abbrev pub balance_of : ℕ → List AccountBalanceModel → Option AccountBalanceModel
balance_of id = find? (λ b. b.account_id == id)

unfoldable pub insert_system_account : AccountKind → String → ℤ → Tx AccountModel
insert_system_account kind key created_at_ms = do
  id ← new_id
  let account : AccountModel = record {
    id = id;
    player_id = none;
    account_kind = kind;
    currency_key = "coin";
    system_key = some key;
    created_at_ms = created_at_ms;
  }
  insert_account account
  track (λ g. record g { created_accounts = id ∷ g.created_accounts })
  insert_balance (record { account_id = id; account_kind = kind; amount = pos 0; version = pos 0 })
  track (λ g. record g { projected_accounts = id ∷ g.projected_accounts })
  pure account

unfoldable pub find_or_insert : Option AccountModel → AccountKind → String → ℤ → Tx AccountModel
find_or_insert (some account) kind key now = pure account
find_or_insert none kind key now = insert_system_account kind key now

-- The issuance or retirement account of a money movement, made at its first use, and its balance.
unfoldable pub system_account : AccountKind → String → ℤ → Tx (AccountModel × AccountBalanceModel)
unfolding find_or_insert
system_account kind key now = do
  accounts ← gets (λ s. s.accounts)
  account ← find_or_insert (find? (has_system_key key) accounts) kind key now
  guard
      (same_kind account.account_kind kind
        && str_eq account.currency_key "coin"
        && not (is_some account.player_id))
      runtime_error
  balances ← gets (λ s. s.balances)
  balance ← or_raise (balance_of account.id balances) runtime_error
  guard (same_kind balance.account_kind kind) runtime_error
  pure (account, balance)

-- The rows that the compare-and-set UPDATE selects, and what it writes.
abbrev pub selects : ℕ → ℤ → ℤ → AccountBalanceModel → Bool
selects id before version row =
    row.account_id == id && (eqb_ℤ row.amount before && eqb_ℤ row.version version)

abbrev pub project_row : ℕ → ℤ → ℤ → ℤ → ℤ → AccountBalanceModel → AccountBalanceModel
project_row id before version after next_version row =
    if selects id before version row
    then record row { amount = after; version = next_version }
    else row

-- A row that the UPDATE leaves alone is not checked again.
abbrev pub project_check : ℕ → ℤ → ℤ → ℤ → ℤ → AccountBalanceModel → Bool
project_check id before version after next_version row =
    not (selects id before version row)
    || balance_check (project_row id before version after next_version row)

unfoldable pub project : ℕ → ℤ → ℤ → ℤ → ℤ → Tx (Unit {0})
project id before version after next_version = do
  balances ← gets (λ s. s.balances)
  guard (all (project_check id before version after next_version) balances) integrity_error
  modify_db (λ d. record d {
    balances = map (project_row id before version after next_version) d.balances;
  })
  guard (count_if (selects id before version) balances == 1) runtime_error

-- `select(TransportRequestModel.id)` by namespace and key.
abbrev pub is_request : String → String → TransportRequestModel → Bool
is_request namespace key row = str_eq row.namespace namespace && str_eq row.transport_key key

unfoldable pub transport_request : String → String → Tx TransportRequestModel
transport_request namespace key = do
  requests ← gets (λ s. s.requests)
  or_raise (find? (is_request namespace key) requests) runtime_error

unfoldable pub insert_transaction : LedgerTransactionModel → Tx (Unit {0})
insert_transaction row = do
  transactions ← gets (λ s. s.transactions)
  guard
      (not (
        any
          (λ (t : LedgerTransactionModel). t.id == row.id || t.correlation_id == row.correlation_id)
          transactions))
      integrity_error
  modify_db (λ d. record d { transactions = row ∷ d.transactions })

unfoldable pub insert_posting : ℕ → ℕ → ℤ → Tx (Unit {0})
insert_posting transaction_id account_id amount = do
  postings ← gets (λ s. s.postings)
  guard
      (not (
          any
            (λ (p : LedgerPostingModel).
              p.transaction_id == transaction_id && p.account_id == account_id)
            postings)
        && not (eqb_ℤ amount (pos 0)))
      integrity_error
  modify_db (λ d. record d {
    postings =
        record { transaction_id = transaction_id; account_id = account_id; amount = amount }
        ∷ d.postings;
  })
