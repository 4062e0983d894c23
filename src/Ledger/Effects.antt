-- ===== src/Ledger/Effects.antt =====
-- What each shared write does to the measures of the books, and the frame rule for writes elsewhere.
use butterbot.Base.{
  ℕ, ℤ, pos, ◌+ℤ◌, ◌-ℤ◌, ◌≡◌, refl, List, [], ◌∷◌, map, ◌==◌, count_if, true, false, int_laws,
  arith, if◌then◌else◌, String, Bool-cases, inl, inr, ==_iff, Option, some, none, Bool, not, any,
  all, eqb_ℤ, eqb_ℤ_iff, &&-true, ◌&&◌, ◌||◌,
}
use butterbot.Models.{
  AccountBalanceModel, AccountModel, AccountKind, LedgerTransactionModel, balance_check,
}
use butterbot.Session.{Session}
use butterbot.Tx.Rules.{Post, Preserves, preserves_rules, Preserves-pure}
use butterbot.Tx.Steps.{gets_step, guard_step, modify_step, guard_end, modify_end}
use butterbot.Ledger.{
  selects, project_row, project_check, project, insert_posting, insert_account, insert_balance,
  insert_transaction, insert_system_account, find_or_insert, system_account, transport_request,
}
use butterbot.Ledger.Measure.{
  at_key, held, posted_to, posted_by, supply, Measure, drift, net, coins, measure, Has, Measures,
}

at_key_replace :
    (k a : ℕ) (before after x : ℤ)
    → at_key k a after +ℤ x ≡ at_key k a before +ℤ x +ℤ at_key k a (after -ℤ before)
at_key_replace k a before after x = elim (Bool-cases (k == a)) [
  | inl same ↦ rw same (omega int_laws)
  | inr other ↦ rw other (omega int_laws)
]

module _ (id : ℕ) (before version after next_version : ℤ) where
  project_none :
      (bs : List AccountBalanceModel)
      → count_if (selects id before version) bs ≡ 0
      → map (project_row id before version after next_version) bs ≡ bs
  project_none [] e = refl
  project_none (b ∷ bs) e = elim (Bool-cases (selects id before version b)) [
    | inl hit ↦ absurd (ground arith)
    | inr miss ↦ rw (miss, project_none bs (ground arith))
  ]

  selected_amount :
      (b : AccountBalanceModel)
      → selects id before version b ≡ true
      → (b.account_id ≡ id) × (b.amount ≡ before)
  selected_amount b h =
      let parts = &&-true (b.account_id == id) _ h in
      (
        (==_iff b.account_id id).0 parts.0,
        (eqb_ℤ_iff b.amount before).0 (&&-true (eqb_ℤ b.amount before) _ parts.1).0,
      )

  -- The row that is replaced held `before`.
  held-project :
      (a : ℕ) (bs : List AccountBalanceModel)
      → count_if (selects id before version) bs ≡ 1
      → held a (map (project_row id before version after next_version) bs)
        ≡ held a bs +ℤ at_key id a (after -ℤ before)
  unfolding held
  held-project a [] e = absurd (omega arith)
  held-project a (b ∷ bs) e = elim (Bool-cases (selects id before version b)) [
    | inl hit ↦
        let (same, held_before) = selected_amount b hit in
        rw (hit, project_none bs (ground arith), same, held_before)
          (at_key_replace id a before after _)
    | inr miss ↦ rw (miss, held-project a bs (ground arith)) (omega int_laws)
  ]

  supply-project :
      (bs : List AccountBalanceModel)
      → count_if (selects id before version) bs ≡ 1
      → supply (map (project_row id before version after next_version) bs)
        ≡ supply bs +ℤ (after -ℤ before)
  unfolding supply
  supply-project [] e = absurd (omega arith)
  supply-project (b ∷ bs) e = elim (Bool-cases (selects id before version b)) [
    | inl hit ↦ rw (hit, project_none bs (ground arith), (selected_amount b hit).1) (omega int_laws)
    | inr miss ↦ rw (miss, supply-project bs (ground arith)) (omega int_laws)
  ]

-- What a projection and a posting add to the measures.
abbrev pub projected : (Measure → ℤ) → ℕ → ℤ → ℤ → Measure → ℤ
projected v id before after (drift a) = v (drift a) +ℤ at_key id a (after -ℤ before)
projected v id before after (net t) = v (net t)
projected v id before after coins = v coins +ℤ (after -ℤ before)

abbrev pub posted : (Measure → ℤ) → ℕ → ℕ → ℤ → Measure → ℤ
posted v transaction account amount (drift a) = v (drift a) -ℤ at_key account a amount
posted v transaction account amount (net t) = v (net t) +ℤ at_key transaction t amount
posted v transaction account amount coins = v coins

pub &&-intro : (a b : Bool) → a ≡ true → b ≡ true → (a && b) ≡ true
&&-intro a b h k = ground arith

check_covers :
    (hit : Bool) (b written : AccountBalanceModel)
    → (not hit || balance_check (if hit then written else b)) ≡ true
    → balance_check b ≡ true
    → balance_check (if hit then written else b) ≡ true
check_covers true b written check old = check
check_covers false b written check old = old

module _ (id : ℕ) (before version after next_version : ℤ) where
  -- The CHECK of the row that is written is the guard's; the others keep theirs.
  row_funded :
      (b : AccountBalanceModel)
      → project_check id before version after next_version b ≡ true
      → balance_check b ≡ true
      → balance_check (project_row id before version after next_version b) ≡ true
  row_funded b check old = check_covers (selects id before version b) b _ check old

  project_funded :
      (bs : List AccountBalanceModel)
      → all (project_check id before version after next_version) bs ≡ true
      → all balance_check bs ≡ true
      → all balance_check (map (project_row id before version after next_version) bs) ≡ true
  project_funded [] checks h = refl
  project_funded (b ∷ bs) checks h =
      let (check, rest_checks) =
        &&-true (project_check id before version after next_version b) _ checks in
      let (old, rest_old) = &&-true (balance_check b) _ h in
      &&-intro _ _ (row_funded b check old) (project_funded bs rest_checks rest_old)

project-Measures :
    (v : Measure → ℤ) (id : ℕ) (before version after next_version : ℤ) (s : Session)
    → Measures v s
    → (count_if (selects id before version) s.balances == 1) ≡ true
    → (m : Measure)
    → measure m (map (project_row id before version after next_version) s.balances) s.postings
      ≡ projected v id before after m
unfolding measure
project-Measures v id before version after next_version s h one (drift a) =
    rw
      (
        held-project id before version after next_version a s.balances ((==_iff _ 1).0 one),
        ← h (drift a),
        measure,
      )
      (omega int_laws)
project-Measures v id before version after next_version s h one (net t) = h (net t)
project-Measures v id before version after next_version s h one coins =
    rw
      (
        supply-project id before version after next_version s.balances ((==_iff _ 1).0 one),
        ← h coins,
        measure,
      )
      refl

insert_posting-Measures :
    (v : Measure → ℤ) (transaction account : ℕ) (amount : ℤ) (s : Session)
    → Measures v s
    → (m : Measure)
    → measure m s.balances (
        record { transaction_id = transaction; account_id = account; amount = amount } ∷ s.postings)
      ≡ posted v transaction account amount m
unfolding measure posted_to posted_by
insert_posting-Measures v transaction account amount s h (drift a) =
    rw (← h (drift a), measure, posted_to) (omega int_laws)
insert_posting-Measures v transaction account amount s h (net t) =
    rw (← h (net t), measure, posted_by) (omega int_laws)
insert_posting-Measures v transaction account amount s h coins = h coins

pub project-Has :
    (v : Measure → ℤ) (id : ℕ) (before version after next_version : ℤ) (s : Session)
    → Has v s
    → Post
        (λ (u : Unit {0}). Has (projected v id before after))
        (project id before version after next_version s)
unfolding project
project-Has v id before version after next_version s h = gets_step _ _ _ s (
    guard_step _ _ _ _ s λ checks. modify_step _ _ _ s (
      guard_end _ _ _ _ λ one. (
        project-Measures v id before version after next_version s h.0 one,
        (project_funded id before version after next_version s.balances checks h.1.0, h.1.1),
      )))

pub insert_posting-Has :
    (v : Measure → ℤ) (transaction account : ℕ) (amount : ℤ) (s : Session)
    → Has v s
    → Post
        (λ (u : Unit {0}). Has (posted v transaction account amount))
        (insert_posting transaction account amount s)
unfolding insert_posting
insert_posting-Has v transaction account amount s h = gets_step _ _ _ s (
    guard_step _ _ _ _ s
      λ _. modify_end _ _ s (insert_posting-Measures v transaction account amount s h.0, h.1))

zero_amount : (k a : ℕ) (x : ℤ) → at_key k a (pos 0) +ℤ x ≡ x
zero_amount k a x = elim (Bool-cases (k == a)) [
  | inl same ↦ rw same (omega int_laws)
  | inr other ↦ rw other (omega int_laws)
]

insert_balance-Measures :
    (v : Measure → ℤ) (id : ℕ) (kind : AccountKind) (s : Session)
    → Measures v s
    → (m : Measure)
    → measure m
        (record { account_id = id; account_kind = kind; amount = pos 0; version = pos 0 }
          ∷ s.balances)
        s.postings
      ≡ v m
unfolding measure held supply
insert_balance-Measures v id kind s h (drift a) = rw (← h (drift a), measure, zero_amount id a) refl
insert_balance-Measures v id kind s h (net t) = h (net t)
insert_balance-Measures v id kind s h coins = rw (← h coins, measure, supply) (omega int_laws)

module _ (v : Measure → ℤ) where
  -- A new account starts with nothing.
  pub insert_balance-Has :
      (id : ℕ) (kind : AccountKind)
      → Preserves (Has v) (
          insert_balance
            (record { account_id = id; account_kind = kind; amount = pos 0; version = pos 0 }))
  unfolding insert_balance
  insert_balance-Has id kind = record {
    at = λ s h. gets_step _ _ _ s (
        guard_step _ _ _ _ s λ fresh. modify_end _ _ s (
          insert_balance-Measures v id kind s h.0,
          (
            &&-intro _ _
                ((&&-true (not (any (λ (b : AccountBalanceModel). b.account_id == id) s.balances)) _
                  fresh).1)
                h.1.0,
            h.1.1,
          ),
        ));
  }

  pub insert_account-Has : (row : AccountModel) → Preserves (Has v) (insert_account row)
  unfolding insert_account
  insert_account-Has row = search preserves_rules

  pub insert_transaction-Has :
      (row : LedgerTransactionModel) → Preserves (Has v) (insert_transaction row)
  unfolding insert_transaction
  insert_transaction-Has row = search preserves_rules

  pub transport_request-Has :
      (namespace key : String) → Preserves (Has v) (transport_request namespace key)
  unfolding transport_request
  transport_request-Has namespace key = search preserves_rules

  insert_system_account-Has :
      (kind : AccountKind) (key : String) (now : ℤ)
      → Preserves (Has v) (insert_system_account kind key now)
  unfolding insert_system_account
  insert_system_account-Has kind key now =
      search (preserves_rules, insert_account-Has, insert_balance-Has) depth 12

  find_or_insert-Has :
      (found : Option AccountModel) (kind : AccountKind) (key : String) (now : ℤ)
      → Preserves (Has v) (find_or_insert found kind key now)
  unfolding find_or_insert
  find_or_insert-Has (some account) kind key now = Preserves-pure account
  find_or_insert-Has none kind key now = insert_system_account-Has kind key now

  -- Making a system account moves no coin.
  pub system_account-Has :
      (kind : AccountKind) (key : String) (now : ℤ)
      → Preserves (Has v) (system_account kind key now)
  unfolding system_account
  system_account-Has kind key now = search (preserves_rules, find_or_insert-Has) depth 12
