-- ===== src/Readiness/Complete.antt =====
-- What readiness, src/butterbot/infrastructure/persistence/readiness.py, means for the tables.
use butterbot.Base.{
  ℕ, String, Bool, true, false, not, ◌||◌, none, List, [], ◌∷◌, ◌≡◌, refl, arith, is_some, is_empty,
  str_eq, eq_iff, if◌then◌else◌, ◌==◌, ==_iff, Bool-cases, Option-cases, inl, inr,
}
use butterbot.Checked.{Checked, refused, passed, AllPassed, ◌then◌, passed-then}
use butterbot.Readiness.{
  RevisionContract, SchemaObject, DatabaseAnswers, one_of, verify_revision, check_pragmas,
  the_revision, check_aggregates, check_schema_readiness,
}
use butterbot.Sentinel.{Aggregates, is_in, has_wallet, has_account}
use butterbot.Sentinel.Exactly.{IsExact}

not-false : (b : Bool) → not b ≡ false → b ≡ true
not-false true e = refl
not-false false e = ground arith

three-hold :
    (a b c : Bool) → (not a || (not b || not c)) ≡ false → (a ≡ true) × (b ≡ true) × (c ≡ true)
three-hold a b c e = ground arith

pub record HasPragmas (answers : DatabaseAnswers) : Type 0 where
  pub foreign_keys : answers.foreign_keys ≡ 1
  pub journal : answers.journal_mode ≡ "wal"
  pub synchronous : answers.synchronous ≡ 2
  pub busy_timeout : answers.busy_timeout_ms ≡ 1000

pragmas-hold :
    (answers : DatabaseAnswers) → AllPassed (λ _. HasPragmas answers) (check_pragmas answers)
unfolding check_pragmas
pragmas-hold answers =
    elim (Bool-cases (
      not (answers.foreign_keys == 1)
      || (not (str_eq answers.journal_mode "wal") || not (answers.synchronous == 2)))) [
        | inl e ↦ rw e tt
        | inr e ↦ rw e (elim (Bool-cases (not (answers.busy_timeout_ms == 1000))) [
          | inl k ↦ rw k tt
          | inr k ↦
              let held =
                three-hold (answers.foreign_keys == 1) (str_eq answers.journal_mode "wal")
                  (answers.synchronous == 2) e in
              rw k record {
                foreign_keys = (==_iff answers.foreign_keys 1).0 held.0;
                journal = (eq_iff answers.journal_mode "wal").0 held.1;
                synchronous = (==_iff answers.synchronous 2).0 held.2;
                busy_timeout = (==_iff answers.busy_timeout_ms 1000).0 (not-false _ k);
              }
        ])
      ]

unknown-refused {ℓ} :
    (P : Unit {0} → Type ℓ) (a b c : Bool)
    → AllPassed P (
        if a
        then refused "schema_behind"
        else if b
        then refused "schema_ahead"
        else if c
        then refused "schema_incompatible"
        else refused "schema_unknown")
unknown-refused P true b c = tt
unknown-refused P false true c = tt
unknown-refused P false false true = tt
unknown-refused P false false false = tt

revision-expected :
    (observed : String) (contract : RevisionContract)
    → AllPassed (λ _. observed ≡ contract.expected) (verify_revision observed contract)
unfolding verify_revision
revision-expected observed contract = elim (Bool-cases (str_eq observed contract.expected)) [
  | inl e ↦ rw e ((eq_iff observed contract.expected).0 e)
  | inr e ↦ rw e (
      unknown-refused (λ _. observed ≡ contract.expected) (one_of observed contract.known_behind)
        (one_of observed contract.known_ahead) (one_of observed contract.known_incompatible))
]

violation-refused {ℓ} :
    (P : Unit {0} → Type ℓ) (b : Bool)
    → AllPassed P
        (if b then refused "missing_balance_projection" else refused "missing_player_wallet")
violation-refused P true = tt
violation-refused P false = tt

aggregates-hold :
    (answers : DatabaseAnswers)
    → AllPassed
        (λ _. (answers.incomplete_request ≡ false) × (answers.violation_kind ≡ none))
        (check_aggregates answers)
unfolding check_aggregates
aggregates-hold answers = elim (Bool-cases answers.incomplete_request) [
  | inl e ↦ rw e tt
  | inr e ↦ elim (Option-cases answers.violation_kind) [
    | inl n ↦ rw e (rw n (refl, refl))
    | inr f ↦ rw e (rw f.1 (violation-refused (λ _. _) (str_eq f.0 "account_without_balance")))
  ]
]

-- The tables are complete: every player has a wallet and every account a balance.
pub record IsComplete (t : Aggregates) : Type 0 where
  pub wallets : (p : ℕ) → is_in p t.players ≡ true → has_wallet p t.accounts ≡ true
  pub balances : (id : ℕ) → has_account id t.accounts ≡ true → is_in id t.balances ≡ true

-- A violation is read exactly where one is written down.
abbrev pub ReadsViolations : DatabaseAnswers → Aggregates → Type 0
ReadsViolations answers t =
    is_some answers.violation_kind
    ≡ (not (is_empty t.without_wallet) || not (is_empty t.without_balance))

is_in-empty : (x : ℕ) (xs : List ℕ) → is_empty xs ≡ true → is_in x xs ≡ false
is_in-empty x [] e = refl
is_in-empty x (y ∷ ys) e = ground arith

exact-IsComplete :
    (t : Aggregates)
    → IsExact t
    → is_empty t.without_wallet ≡ true
    → is_empty t.without_balance ≡ true
    → IsComplete t
exact-IsComplete t x w b = record {
  wallets = λ p h. ground (arith, x.wallets p, is_in-empty p t.without_wallet w);
  balances = λ id h. ground (arith, x.balances id, is_in-empty id t.without_balance b);
}

both-empty :
    (answers : DatabaseAnswers) (t : Aggregates)
    → ReadsViolations answers t
    → answers.violation_kind ≡ none
    → (is_empty t.without_wallet ≡ true) × (is_empty t.without_balance ≡ true)
both-empty answers t reads none_found = ground arith

-- What a ready database is known to satisfy.
pub record IsReady (contract : RevisionContract) (answers : DatabaseAnswers) (t : Aggregates)
    (revision : String) : Type 0 where
  pub pragmas : HasPragmas answers
  pub at_expected : revision ≡ contract.expected
  pub no_request : answers.incomplete_request ≡ false
  pub complete : IsComplete t

anything {ℓ} : {A : Type ℓ} (c : Checked A) → AllPassed (λ _. Unit {0}) c
anything (refused category) = tt
anything (passed a) = tt

last-checks :
    (contract : RevisionContract) (answers : DatabaseAnswers) (t : Aggregates) (observed : String)
    → IsExact t
    → ReadsViolations answers t
    → HasPragmas answers
    → observed ≡ contract.expected
    → AllPassed (IsReady contract answers t) (check_aggregates answers then λ _. passed observed)
last-checks contract answers t observed x reads pragmas at_expected =
    passed-then (λ _. (answers.incomplete_request ≡ false) × (answers.violation_kind ≡ none))
      (IsReady contract answers t) (check_aggregates answers) (λ _. passed observed)
      (aggregates-hold answers)
      λ _ held.
        let empty = both-empty answers t reads held.1 in
        record {
          pragmas = pragmas;
          at_expected = at_expected;
          no_request = held.0;
          complete = exact-IsComplete t x empty.0 empty.1;
        }

pub readiness-all :
    (hash : String → String) (released : List SchemaObject) (contract : RevisionContract)
    (answers : DatabaseAnswers) (t : Aggregates)
    → IsExact t
    → ReadsViolations answers t
    → AllPassed (IsReady contract answers t) (check_schema_readiness hash released contract answers)
unfolding check_schema_readiness
readiness-all hash released contract answers t x reads =
    passed-then (λ _. HasPragmas answers) (IsReady contract answers t) _ _ (pragmas-hold answers)
      λ _ pragmas.
        passed-then (λ _. Unit) (IsReady contract answers t) (the_revision answers) _
          (anything (the_revision answers))
          λ observed _.
            passed-then (λ _. observed ≡ contract.expected) (IsReady contract answers t) _ _
              (revision-expected observed contract)
              λ _ at_expected.
                passed-then (λ _. Unit) (IsReady contract answers t) _ _ (anything _)
                  λ _ _. last-checks contract answers t observed x reads pragmas at_expected
