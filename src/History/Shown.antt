-- ===== src/History/Shown.antt =====
-- That a page of history, `page` of src/butterbot/infrastructure/persistence/history.py, shows what is
-- stored and leaves out nothing before what it shows.
use butterbot.Base.{
  ℕ, zero, suc, ◌≤◌, Bool, true, ◌&&◌, ◌||◌, not, Option, none, some, List, [], ◌∷◌, length, take,
  all, any, find?, select, ◌==◌, ◌≡◌, ◌⊎◌, refl, ap, sym, ◌∙◌, arith, &&-true, Bool-cases, inl, inr,
  ==_iff, eqb_ℤ, eqb_ℤ_iff,
}
use mathlib.Core.Path.{subst}
use mathlib.Core.List.{Memᴰ}
use mathlib.Core.List.Memᴰ
use butterbot.History.{
  HistoryCursor, HistoryEntry, entry_of, entries_of, newer, insert_newest, sort_newest,
  before_cursor, page,
}
use butterbot.History.Paging.{
  follows, is_newest_first, is_within, is_posting, is_amount_of, is_shown_by, is_stored,
  is_entry_for, leaves_out_none, both_true, before-is_within, all-insert_newest, all-select,
  all-take, all-select_self, sort_newest_sorted, select_sorted, take_sorted, take_short,
}
use butterbot.Models.{LedgerTransactionModel, LedgerPostingModel}
use butterbot.Session.{Database}

module _ {ℓ} {A : Type ℓ} where
  any-listed : (p : A → Bool) (x : A) (xs : List A) → Memᴰ x xs → p x ≡ true → any p xs ≡ true
  any-listed p x [] k h = absurd (Memᴰ.not-nil k)
  any-listed p x (y ∷ ys) k h = elim (Memᴰ.cases_cons k) [
    | inl e ↦ rw (ap p (sym e) ∙ h) refl
    | inr later ↦ rw (any-listed p x ys later h) ground arith
  ]

  all-listed : (p : A → Bool) (xs : List A) → ((x : A) → Memᴰ x xs → p x ≡ true) → all p xs ≡ true
  all-listed p [] each = refl
  all-listed p (x ∷ xs) each =
      both_true _ _ (each x (Memᴰ.head refl)) (all-listed p xs (λ y k. each y (Memᴰ.tail k)))

  listed-all : (p : A → Bool) (xs : List A) (x : A) → all p xs ≡ true → Memᴰ x xs → p x ≡ true
  listed-all p [] x h k = absurd (Memᴰ.not-nil k)
  listed-all p (y ∷ ys) x h k =
      let (first, rest) = &&-true (p y) _ h in
      elim (Memᴰ.cases_cons k) [ inl e ↦ ap p e ∙ first | inr later ↦ listed-all p ys x rest later ]

  listed-select :
      (p : A → Bool) (x : A) (xs : List A) → Memᴰ x xs → p x ≡ true → Memᴰ x (select p xs)
  listed-select p x [] k h = absurd (Memᴰ.not-nil k)
  listed-select p x (y ∷ ys) k h = elim (Memᴰ.cases_cons k) [
    | inl e ↦ rw (ap p (sym e) ∙ h) (Memᴰ.head e)
    | inr later ↦ elim (Bool-cases (p y)) [
      | inl passes ↦ rw passes (Memᴰ.tail (listed-select p x ys later h))
      | inr fails ↦ rw fails (listed-select p x ys later h)
    ]
  ]

  some_path : (x y : A) → some x ≡ some y → x ≡ y
  some_path x y e = ap (λ o. elim o [ none ↦ x | some z ↦ z ]) e

  -- What `find?` finds of what is there.
  found :
      (p : A → Bool) (xs : List A)
      → any p xs ≡ true
      → (x : A) × (find? p xs ≡ some x) × Memᴰ x xs × (p x ≡ true)
  found p [] h = absurd (ground arith)
  found p (x ∷ xs) h = elim (Bool-cases (p x)) [
    | inl passes ↦ (x, rw passes refl, Memᴰ.head refl, passes)
    | inr fails ↦
        let (y, same, k, holds) = found p xs (rw fails at h) in
        (y, rw fails same, Memᴰ.tail k, holds)
  ]

  found-holds :
      (p : A → Bool) (xs : List A) (x : A) → find? p xs ≡ some x → Memᴰ x xs × (p x ≡ true)
  found-holds p [] x h = absurd (ground arith)
  found-holds p (y ∷ ys) x h = elim (Bool-cases (p y)) [
    | inl passes ↦
        let same = some_path y x (rw passes at h) in
        (Memᴰ.head (sym same), ap p (sym same) ∙ passes)
    | inr fails ↦ let rest = found-holds p ys x (rw fails at h) in (Memᴰ.tail rest.0, rest.1)
  ]

third : (a b c : Bool) → b ≡ true → (not a || b || c) ≡ true
third a b c h = ground arith

fourth : (a b c : Bool) → c ≡ true → (not a || b || c) ≡ true
fourth a b c h = ground arith

listed-insert_newest :
    (x e : HistoryEntry) (es : List HistoryEntry)
    → (x ≡ e) ⊎ Memᴰ x es
    → Memᴰ x (insert_newest e es)
unfolding insert_newest
listed-insert_newest x e [] (inl same) = Memᴰ.head same
listed-insert_newest x e [] (inr k) = absurd (Memᴰ.not-nil k)
listed-insert_newest x e (y ∷ ys) k = elim (Bool-cases (newer y e)) [
  | inl later ↦ rw later (elim k [
    | inl same ↦ Memᴰ.tail (listed-insert_newest x e ys (inl same))
    | inr j ↦ elim (Memᴰ.cases_cons j) [
      | inl same ↦ Memᴰ.head same
      | inr i ↦ Memᴰ.tail (listed-insert_newest x e ys (inr i))
    ]
  ])
  | inr older ↦ rw older (elim k [ inl same ↦ Memᴰ.head same | inr j ↦ Memᴰ.tail j ])
]

listed-sort_newest :
    (x : HistoryEntry) (es : List HistoryEntry) → Memᴰ x es → Memᴰ x (sort_newest es)
unfolding sort_newest
listed-sort_newest x [] k = k
listed-sort_newest x (e ∷ es) k =
    listed-insert_newest x e (sort_newest es)
      (elim (Memᴰ.cases_cons k) [ inl same ↦ inl same | inr j ↦ inr (listed-sort_newest x es j) ])

all-sort_newest :
    (p : HistoryEntry → Bool) (es : List HistoryEntry)
    → all p es ≡ true
    → all p (sort_newest es) ≡ true
unfolding sort_newest
all-sort_newest p [] h = refl
all-sort_newest p (e ∷ es) h =
    let (first, rest) = &&-true (p e) _ h in
    all-insert_newest p e (sort_newest es) first (all-sort_newest p es rest)

-- The entry is among the first `n`, or these are `n` that it follows.
listed-take :
    (n : ℕ) (es : List HistoryEntry) (x : HistoryEntry)
    → is_newest_first es ≡ true
    → Memᴰ x es
    → Memᴰ x (take n es) ⊎ ((length (take n es) ≡ n) × (all (λ e. follows e x) (take n es) ≡ true))
listed-take zero es x h k = inr (refl, refl)
listed-take (suc n) [] x h k = absurd (Memᴰ.not-nil k)
listed-take (suc n) (e ∷ es) x h k =
    let (first, rest) = &&-true (all (follows e) es) _ h in
    elim (Memᴰ.cases_cons k) [
      | inl same ↦ inl (Memᴰ.head same)
      | inr later ↦ elim (listed-take n es x rest later) [
        | inl shown ↦ inl (Memᴰ.tail shown)
        | inr full ↦
            inr (ap suc full.0, both_true _ _ (listed-all (follows e) es x first later) full.1)
      ]
    ]

module _ (account : ℕ) (d : Database) where
  stored-entry :
      (t : LedgerTransactionModel) (p : LedgerPostingModel)
      → Memᴰ t d.transactions
      → Memᴰ p d.postings
      → is_posting account t.id p ≡ true
      → is_stored account d (entry_of account d t p) ≡ true
  stored-entry t p in_book posted to_account =
      let e = entry_of account d t p in
      any-listed (is_shown_by account d e) t d.transactions in_book (
        both_true (t.id == t.id && eqb_ℤ t.committed_at_ms t.committed_at_ms) _
          (both_true (t.id == t.id) _ ((==_iff t.id t.id).1 refl)
            ((eqb_ℤ_iff t.committed_at_ms t.committed_at_ms).1 refl))
          (any-listed (is_amount_of account e t.id) p d.postings posted (
            both_true (is_posting account t.id p) _ to_account
              ((eqb_ℤ_iff p.amount p.amount).1 refl))))

  -- The entries with that of one more transaction, if there is one.
  abbrev with_entry :
      LedgerTransactionModel → Option LedgerPostingModel → List HistoryEntry → List HistoryEntry
  with_entry t o rest = elim o [ none ↦ rest | some p ↦ entry_of account d t p ∷ rest ]

  with_entry-stored :
      (t : LedgerTransactionModel) (o : Option LedgerPostingModel) (rest : List HistoryEntry)
      → find? (is_posting account t.id) d.postings ≡ o
      → Memᴰ t d.transactions
      → all (is_stored account d) rest ≡ true
      → all (is_stored account d) (with_entry t o rest) ≡ true
  with_entry-stored t none rest e k h = h
  with_entry-stored t (some p) rest e k h =
      let (listed, holds) = found-holds (is_posting account t.id) d.postings p e in
      both_true (is_stored account d (entry_of account d t p)) _ (stored-entry t p k listed holds) h

  entries-stored :
      (ts : List LedgerTransactionModel)
      → ((t : LedgerTransactionModel) → Memᴰ t ts → Memᴰ t d.transactions)
      → all (is_stored account d) (entries_of account d ts) ≡ true
  unfolding entries_of
  entries-stored [] among = refl
  entries-stored (t ∷ ts) among =
      with_entry-stored t _ (entries_of account d ts) refl (among t (Memᴰ.head refl))
        (entries-stored ts (λ u k. among u (Memᴰ.tail k)))

  listed-with_entry :
      (u : LedgerTransactionModel) (o : Option LedgerPostingModel) (x : HistoryEntry)
      (rest : List HistoryEntry)
      → Memᴰ x rest
      → Memᴰ x (with_entry u o rest)
  listed-with_entry u none x rest k = k
  listed-with_entry u (some q) x rest k = Memᴰ.tail k

  listed-entries_of :
      (ts : List LedgerTransactionModel) (t : LedgerTransactionModel) (p : LedgerPostingModel)
      → find? (is_posting account t.id) d.postings ≡ some p
      → Memᴰ t ts
      → Memᴰ (entry_of account d t p) (entries_of account d ts)
  unfolding entries_of
  listed-entries_of [] t p e k = absurd (Memᴰ.not-nil k)
  listed-entries_of (u ∷ us) t p e k =
      let rest = entries_of account d us in
      let x = entry_of account d t p in
      elim (Memᴰ.cases_cons k) [
        | inl same ↦
            subst (λ v. Memᴰ x (with_entry v (find? (is_posting account v.id) d.postings) rest))
              same (subst (λ o. Memᴰ x (with_entry t o rest)) (sym e) (Memᴰ.head refl))
        | inr later ↦ listed-with_entry u _ x rest (listed-entries_of us t p e later)
      ]

  covered :
      (cursor : Option HistoryCursor) (limit : ℕ) (t : LedgerTransactionModel)
      → Memᴰ t d.transactions
      → leaves_out_none account cursor limit d (page account cursor limit d) t ≡ true
  unfolding page
  covered cursor limit t in_book =
      elim (Bool-cases
        (any (is_posting account t.id) d.postings && is_within cursor t.committed_at_ms t.id)) [
          | inr outside ↦ rw outside refl
          | inl inside ↦
              let (posted, within) = &&-true (any (is_posting account t.id) d.postings) _ inside in
              let (p, same, listed, holds) = found (is_posting account t.id) d.postings posted in
              let x = entry_of account d t p in
              let sorted = sort_newest (entries_of account d d.transactions) in
              let chosen = select (before_cursor cursor) sorted in
              let k =
                listed-select (before_cursor cursor) x sorted
                  (listed-sort_newest x _ (listed-entries_of d.transactions t p same in_book))
                  (before-is_within cursor x ∙ within) in
              elim (listed-take limit chosen x
                (select_sorted (before_cursor cursor) sorted (sort_newest_sorted _)) k) [
                  | inl shown ↦
                      third
                        (any (is_posting account t.id) d.postings
                          && is_within cursor t.committed_at_ms t.id)
                        (any (is_entry_for t) (take limit chosen)) _
                        (any-listed (is_entry_for t) x _ shown ((==_iff t.id t.id).1 refl))
                  | inr full ↦
                      fourth
                        (any (is_posting account t.id) d.postings
                          && is_within cursor t.committed_at_ms t.id)
                        (any (is_entry_for t) (take limit chosen)) _
                        (both_true _ _ ((==_iff (length (take limit chosen)) limit).1 full.0)
                          full.1)
                ]
        ]

-- A page is at most as long as asked and stands latest first, by time and then by id. Every entry is
-- before the cursor and shows the time and the amount of a stored transaction with a posting to the
-- account. And every stored transaction before the cursor with a posting to the account is shown, or
-- the page is full of entries that are not earlier.
pub page_lem :
    (account : ℕ) (cursor : Option HistoryCursor) (limit : ℕ) (d : Database)
    → (length (page account cursor limit d) ≤ limit)
      × (is_newest_first (page account cursor limit d) ≡ true)
      × (all
            (λ (e : HistoryEntry). is_within cursor e.committed_at_ms e.transaction_id)
            (page account cursor limit d)
          ≡ true)
      × (all (is_stored account d) (page account cursor limit d) ≡ true)
      × (all (leaves_out_none account cursor limit d (page account cursor limit d)) d.transactions
          ≡ true)
unfolding page
page_lem account cursor limit d =
    let sorted = sort_newest (entries_of account d d.transactions) in
    let chosen = select (before_cursor cursor) sorted in
    let within = λ (e : HistoryEntry). is_within cursor e.committed_at_ms e.transaction_id in
    (
      take_short limit _,
      take_sorted limit _ (select_sorted (before_cursor cursor) sorted (sort_newest_sorted _)),
      all-take within limit chosen (
          all-listed within chosen λ e k.
            sym (before-is_within cursor e)
            ∙ listed-all (before_cursor cursor) chosen e
                (all-select_self (before_cursor cursor) sorted) k),
      all-take (is_stored account d) limit _ (
          all-select (is_stored account d) (before_cursor cursor) sorted (
            all-sort_newest (is_stored account d) _
              (entries-stored account d d.transactions (λ t k. k)))),
      all-listed _ d.transactions (covered account d cursor limit),
    )
