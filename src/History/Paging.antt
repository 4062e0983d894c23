-- ===== src/History/Paging.antt =====
-- What a page of history shows, `page` of
-- src/butterbot/infrastructure/persistence/history.py: the latest entries of the account before the
-- cursor, latest first.
use butterbot.Base.{
  ℕ, zero, suc, ℤ, ◌≤◌, Bool, true, false, ◌&&◌, ◌||◌, not, Option, none, some, List, [], ◌∷◌,
  length, take, all, any, select, leb, ltb, ltb_ℤ, eqb_ℤ, ◌==◌, ◌≡◌, refl, arith, &&-true,
  Bool-cases, inl, inr,
}
use butterbot.History.{
  HistoryCursor, HistoryEntry, newer, insert_newest, sort_newest, before_cursor,
}
use butterbot.Models.{LedgerTransactionModel, LedgerPostingModel}
use butterbot.Session.{Database}

-- At one time the id decides.
abbrev pub is_no_later : ℤ → ℕ → ℤ → ℕ → Bool
is_no_later time id other_time other_id =
    ltb_ℤ time other_time || (eqb_ℤ time other_time && leb id other_id)

abbrev pub is_earlier : ℤ → ℕ → ℤ → ℕ → Bool
is_earlier time id other_time other_id =
    ltb_ℤ time other_time || (eqb_ℤ time other_time && ltb id other_id)

abbrev pub follows : HistoryEntry → HistoryEntry → Bool
follows e x = is_no_later x.committed_at_ms x.transaction_id e.committed_at_ms e.transaction_id

-- Each entry stands before none that is later.
abbrev pub is_newest_first : List HistoryEntry → Bool
is_newest_first [] = true
is_newest_first (e ∷ es) = all (follows e) es && is_newest_first es

-- No cursor stands after all.
abbrev pub is_within : Option HistoryCursor → ℤ → ℕ → Bool
is_within none time id = true
is_within (some c) time id = is_earlier time id c.committed_at_ms c.transaction_id

-- A posting of the transaction to the account.
abbrev pub is_posting : ℕ → ℕ → LedgerPostingModel → Bool
is_posting account transaction p = p.transaction_id == transaction && p.account_id == account

abbrev pub is_amount_of : ℕ → HistoryEntry → ℕ → LedgerPostingModel → Bool
is_amount_of account e transaction p = is_posting account transaction p && eqb_ℤ p.amount e.amount

abbrev pub is_shown_by : ℕ → Database → HistoryEntry → LedgerTransactionModel → Bool
is_shown_by account d e t =
    t.id == e.transaction_id
    && eqb_ℤ t.committed_at_ms e.committed_at_ms
    && any (is_amount_of account e t.id) d.postings

-- The entry shows a stored transaction with a posting to the account, at its time, and the amount.
abbrev pub is_stored : ℕ → Database → HistoryEntry → Bool
is_stored account d e = any (is_shown_by account d e) d.transactions

abbrev pub is_entry_for : LedgerTransactionModel → HistoryEntry → Bool
is_entry_for t e = e.transaction_id == t.id

-- A transaction with a posting to the account, before the cursor, is shown, or the page is full of
-- entries that are not earlier.
abbrev pub leaves_out_none :
    ℕ → Option HistoryCursor → ℕ → Database → List HistoryEntry → LedgerTransactionModel → Bool
leaves_out_none account cursor limit d shown t =
    not (any (is_posting account t.id) d.postings && is_within cursor t.committed_at_ms t.id)
    || any (is_entry_for t) shown
    || (length shown == limit
        && all
            (λ (e : HistoryEntry).
              is_no_later t.committed_at_ms t.id e.committed_at_ms e.transaction_id)
            shown)

follows_trans :
    (a b c : HistoryEntry) → follows a b ≡ true → follows b c ≡ true → follows a c ≡ true
follows_trans a b c h k = ground arith

newer-follows : (a b : HistoryEntry) → newer a b ≡ true → follows a b ≡ true
newer-follows a b h = ground arith

not-newer-follows : (a b : HistoryEntry) → newer b a ≡ false → follows a b ≡ true
not-newer-follows a b h = ground arith

pub before-is_within :
    (cursor : Option HistoryCursor) (e : HistoryEntry)
    → before_cursor cursor e ≡ is_within cursor e.committed_at_ms e.transaction_id
before-is_within none e = refl
before-is_within (some c) e = refl

pub both_true : (a b : Bool) → a ≡ true → b ≡ true → (a && b) ≡ true
both_true a b h k = ground arith

all_follow :
    (a b : HistoryEntry) (es : List HistoryEntry)
    → follows a b ≡ true
    → all (follows b) es ≡ true
    → all (follows a) es ≡ true
all_follow a b [] h k = refl
all_follow a b (e ∷ es) h k =
    let (first, rest) = &&-true (follows b e) _ k in
    both_true _ _ (follows_trans a b e h first) (all_follow a b es h rest)

module _ (test : HistoryEntry → Bool) where
  pub all-insert_newest :
      (e : HistoryEntry) (es : List HistoryEntry)
      → test e ≡ true
      → all test es ≡ true
      → all test (insert_newest e es) ≡ true
  unfolding insert_newest
  all-insert_newest e [] h k = ground arith
  all-insert_newest e (x ∷ xs) h k = ground (arith, all-insert_newest e xs)

  pub all-select :
      (p : HistoryEntry → Bool) (es : List HistoryEntry)
      → all test es ≡ true
      → all test (select p es) ≡ true
  all-select p [] h = refl
  all-select p (e ∷ es) h = ground (arith, all-select p es)

  pub all-take : (n : ℕ) (es : List HistoryEntry) → all test es ≡ true → all test (take n es) ≡ true
  all-take zero es h = refl
  all-take (suc n) [] h = refl
  all-take (suc n) (e ∷ es) h = ground (arith, all-take n es)

  pub all-select_self : (es : List HistoryEntry) → all test (select test es) ≡ true
  all-select_self [] = refl
  all-select_self (e ∷ es) = ground (arith, all-select_self es)

insert_newest_sorted :
    (e : HistoryEntry) (es : List HistoryEntry)
    → is_newest_first es ≡ true
    → is_newest_first (insert_newest e es) ≡ true
unfolding insert_newest
insert_newest_sorted e [] h = refl
insert_newest_sorted e (x ∷ xs) h =
    let (first, rest) = &&-true (all (follows x) xs) _ h in
    elim (Bool-cases (newer x e)) [
      | inl later ↦ rw later (
          both_true _ _ (all-insert_newest (follows x) e xs (newer-follows x e later) first)
            (insert_newest_sorted e xs rest))
      | inr older ↦ rw older (
          both_true _ _
            (both_true _ _ (not-newer-follows e x older)
              (all_follow e x xs (not-newer-follows e x older) first))
            h)
    ]

pub sort_newest_sorted : (es : List HistoryEntry) → is_newest_first (sort_newest es) ≡ true
unfolding sort_newest
sort_newest_sorted [] = refl
sort_newest_sorted (e ∷ es) = insert_newest_sorted e (sort_newest es) (sort_newest_sorted es)

pub select_sorted :
    (p : HistoryEntry → Bool) (es : List HistoryEntry)
    → is_newest_first es ≡ true
    → is_newest_first (select p es) ≡ true
select_sorted p [] h = refl
select_sorted p (e ∷ es) h = ground (arith, select_sorted p es, all-select (follows e) p es)

pub take_sorted :
    (n : ℕ) (es : List HistoryEntry)
    → is_newest_first es ≡ true
    → is_newest_first (take n es) ≡ true
take_sorted zero es h = refl
take_sorted (suc n) [] h = refl
take_sorted (suc n) (e ∷ es) h = ground (arith, take_sorted n es, all-take (follows e) n es)

pub take_short : (n : ℕ) (es : List HistoryEntry) → length (take n es) ≤ n
take_short zero es = ground arith
take_short (suc n) [] = ground arith
take_short (suc n) (e ∷ es) = ground (arith, take_short n es)
