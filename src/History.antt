-- ===== src/History.antt =====
-- The self-only queries: BalanceService of src/butterbot/application/economy/balance.py, HistoryCursor
-- and HistoryPage of src/butterbot/application/economy/history.py, and SqlAlchemyHistoryRepository of
-- src/butterbot/infrastructure/persistence/history.py.
pub mod Paging
pub mod Shown
use butterbot.Base.{
  ℕ, ℤ, pos, String, Option, none, some, Bool, true, false, not, ◌&&◌, ◌||◌, List, [], ◌∷◌, ◌==◌,
  ltb, ltb_ℤ, eqb_ℤ, str_eq, length, map, find?, select, take, if◌then◌else◌,
}
use butterbot.Daily.{is_active}
use butterbot.Exact.{require_int64}
use butterbot.Models.{
  LedgerTransactionModel, LedgerPostingModel, GrantExecutionModel, GrantTargetModel, Correction,
  DailyClaim,
}
use butterbot.Players.{get_by_discord_user_id, get_wallet}
use butterbot.Session.{Session, Database}
use butterbot.Tx.{Tx, pure, gets, lift, if_none, ◌>>=◌, ◌>>◌}

pub record BalanceResult : Type 0 where
  pub status : String
  pub amount : Option ℤ

unfoldable pub balance : ℕ → Tx BalanceResult
balance user = do
  lift (require_int64 (pos 1) (pos user))
  let answer : String → Tx BalanceResult =
      λ status. pure (record { status = status; amount = none })
  player ← get_by_discord_user_id user
  if_none player (answer "unjoined") λ p.
      if not (is_active p.lifecycle_state) then answer "inactive" else do
        found ← get_wallet p.id
        if_none found (answer "unavailable") λ w. do
          amount ← lift (require_int64 (pos 0) w.amount)
          pure (record { status = "available"; amount = some amount })

pub record HistoryCursor : Type 0 where
  pub committed_at_ms : ℤ
  pub transaction_id : ℕ

pub record HistoryEntry : Type 0 where
  pub transaction_id : ℕ
  pub committed_at_ms : ℤ
  pub kind : String
  pub amount : ℤ
  pub resulting_balance : Option ℤ

pub record HistoryPage : Type 0 where
  pub status : String
  pub entries : List HistoryEntry
  pub next_cursor : Option HistoryCursor

-- The fixed public labels.
abbrev pub label : String → String
label kind =
    if str_eq kind "admin.grant"
    then "Grant"
    else if str_eq kind "admin.correction"
    then "Grant correction"
    else if str_eq kind "daily.claim"
    then "Daily reward"
    else "Wallet adjustment"

abbrev pub grant_after : ℕ → ℕ → Database → Option ℤ
grant_after transaction account d =
    elim (find? (λ (g : GrantExecutionModel). g.transaction_id == transaction) d.grant_executions) [
      | none ↦ none
      | some g ↦
          elim (find?
            (λ (t : GrantTargetModel). t.proposal_id == g.proposal_id && t.account_id == account)
            d.grant_targets) [ none ↦ none | some t ↦ some t.after_amount ]
    ]

abbrev pub correction_after : ℕ → ℕ → Database → Option ℤ
correction_after transaction account d =
    elim (find? (λ (c : Correction). c.transaction_id == transaction && c.account_id == account)
      d.corrections) [ none ↦ none | some c ↦ some c.after_amount ]

abbrev pub daily_after : ℕ → Database → Option ℤ
daily_after transaction d =
    elim (find? (λ (c : DailyClaim). c.transaction_id == transaction) d.daily_claims) [
      | none ↦ none
      | some c ↦ some c.after_amount
    ]

abbrev pub first_some : Option ℤ → Option ℤ → Option ℤ
first_some (some a) other = some a
first_some none other = other

-- The posting to the account, if the transaction has one, joined with what is known of it.
abbrev pub entry_of : ℕ → Database → LedgerTransactionModel → LedgerPostingModel → HistoryEntry
entry_of account d t p = record {
  transaction_id = t.id;
  committed_at_ms = t.committed_at_ms;
  kind = label t.transaction_kind;
  amount = p.amount;
  resulting_balance =
      first_some (daily_after t.id d)
        (first_some (correction_after t.id account d) (grant_after t.id account d));
}

unfoldable pub entries_of : ℕ → Database → List LedgerTransactionModel → List HistoryEntry
entries_of account d [] = []
entries_of account d (t ∷ ts) =
    let rest = entries_of account d ts in
    elim (find? (λ (p : LedgerPostingModel). p.transaction_id == t.id && p.account_id == account)
      d.postings) [ none ↦ rest | some p ↦ entry_of account d t p ∷ rest ]

-- ORDER BY committed_at_ms DESC, id DESC: the first stands later in time.
abbrev pub newer : HistoryEntry → HistoryEntry → Bool
newer a b =
    ltb_ℤ b.committed_at_ms a.committed_at_ms
    || (eqb_ℤ b.committed_at_ms a.committed_at_ms && ltb b.transaction_id a.transaction_id)

unfoldable pub insert_newest : HistoryEntry → List HistoryEntry → List HistoryEntry
insert_newest e [] = e ∷ []
insert_newest e (x ∷ xs) = if newer x e then x ∷ insert_newest e xs else e ∷ x ∷ xs

unfoldable pub sort_newest : List HistoryEntry → List HistoryEntry
sort_newest [] = []
sort_newest (e ∷ es) = insert_newest e (sort_newest es)

-- The keyset condition of a cursor.
abbrev pub before_cursor : Option HistoryCursor → HistoryEntry → Bool
before_cursor none e = true
before_cursor (some c) e =
    ltb_ℤ e.committed_at_ms c.committed_at_ms
    || (eqb_ℤ e.committed_at_ms c.committed_at_ms && ltb e.transaction_id c.transaction_id)

-- `SqlAlchemyHistoryRepository.page`
unfoldable pub page : ℕ → Option HistoryCursor → ℕ → Database → List HistoryEntry
page account cursor limit d =
    take limit (select (before_cursor cursor) (sort_newest (entries_of account d d.transactions)))

abbrev pub cursor_at : HistoryEntry → HistoryCursor
cursor_at e = record { committed_at_ms = e.committed_at_ms; transaction_id = e.transaction_id }

-- `visible[-1]`
abbrev pub last_of : List HistoryEntry → Option HistoryEntry
last_of [] = none
last_of (e ∷ []) = some e
last_of (e ∷ x ∷ xs) = last_of (x ∷ xs)

-- Six entries are asked for, five are shown, and the sixth says that there are more.
abbrev pub next_of : List HistoryEntry → Option HistoryCursor
next_of entries =
    if ltb 5 (length entries)
    then elim (last_of (take 5 entries)) [ none ↦ none | some e ↦ some (cursor_at e) ]
    else none

abbrev pub visible_page : List HistoryEntry → HistoryPage
visible_page entries = record {
  status = "available";
  entries = take 5 entries;
  next_cursor = next_of entries;
}

unfoldable pub validate_cursor : Option HistoryCursor → Tx (Unit {0})
validate_cursor none = pure tt
validate_cursor (some c) = lift (require_int64 (pos 0) c.committed_at_ms) >> pure tt

unfoldable pub history : ℕ → Option HistoryCursor → Tx HistoryPage
history user cursor = do
  lift (require_int64 (pos 1) (pos user))
  validate_cursor cursor
  let answer : String → Tx HistoryPage =
      λ status. pure (record { status = status; entries = []; next_cursor = none })
  player ← get_by_discord_user_id user
  if_none player (answer "unjoined") λ p.
      if not (is_active p.lifecycle_state) then answer "inactive" else do
        found ← get_wallet p.id
        if_none found (answer "unavailable")
            λ w. do entries ← gets (λ s. page w.id cursor 6 s.db); pure (visible_page entries)
