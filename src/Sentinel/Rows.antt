-- ===== src/Sentinel/Rows.antt =====
-- Rows found after rows were inserted and deleted, for the tables of
-- src/butterbot/infrastructure/persistence/schema_contract.py.
use mathlib.Core.Path.{subst}
use butterbot.Base.{
  ℕ, Bool, true, false, not, ◌&&◌, ◌||◌, Option, none, some, List, [], ◌∷◌, find?, ◌≡◌, refl, arith,
  ◌==◌, Bool-cases, inl, inr, ==_iff,
}
use butterbot.Sentinel.{
  Account, is_in, insert, remove, owned_by, has_wallet, has_account, without_account,
}

pub is_in-insert : (y x : ℕ) (xs : List ℕ) → is_in y (insert x xs) ≡ ((x == y) || is_in y xs)
is_in-insert y x xs = elim (Bool-cases (is_in x xs)) [
  | inl e ↦ rw e (ground arith)
  | inr e ↦ rw e refl
]

pub is_in-remove : (y x : ℕ) (xs : List ℕ) → is_in y (remove x xs) ≡ (not (x == y) && is_in y xs)
is_in-remove y x [] = ground arith
is_in-remove y x (z ∷ zs) = ground (arith, is_in-remove y x zs)

-- No two accounts have the same id or the same owner.
abbrev pub owner_free : Option ℕ → List Account → Bool
owner_free none rest = true
owner_free (some p) rest = not (has_wallet p rest)

abbrev pub unique_accounts : List Account → Bool
unique_accounts [] = true
unique_accounts (a ∷ rest) =
    (not (has_account a.id rest) && owner_free a.owner rest) && unique_accounts rest

without-absent :
    (id : ℕ) (rest : List Account) → has_account id rest ≡ false → without_account id rest ≡ rest
unfolding has_account without_account
without-absent id [] e = refl
without-absent id (a ∷ rest) e = ground (arith, without-absent id rest)

pub has_account-without :
    (v id : ℕ) (rest : List Account)
    → has_account v (without_account id rest) ≡ (not (id == v) && has_account v rest)
unfolding has_account without_account
has_account-without v id [] = ground arith
has_account-without v id (a ∷ rest) = ground (arith, has_account-without v id rest)

pub found-owns :
    (id q : ℕ) (rest : List Account) {a : Account}
    → find? (λ x. x.id == id) rest ≡ some a
    → owned_by q a.owner ≡ true
    → has_wallet q rest ≡ true
unfolding has_wallet
found-owns id q [] {a} e o = ground arith
found-owns id q (x ∷ xs) {a} e o = elim (Bool-cases (x.id == id)) [
  | inl k ↦ ground arith
  | inr k ↦ ground (arith, found-owns id q xs {a = a})
]

found-head :
    (id : ℕ) (x : Account) (xs : List Account) {a : Account}
    → (x.id == id) ≡ true
    → find? (λ y. y.id == id) (x ∷ xs) ≡ some a
    → x ≡ a
found-head id x xs {a} k e = ground arith

found-tail :
    (id : ℕ) (x : Account) (xs : List Account) {a : Account}
    → (x.id == id) ≡ false
    → find? (λ y. y.id == id) (x ∷ xs) ≡ some a
    → find? (λ y. y.id == id) xs ≡ some a
found-tail id x xs {a} k e = ground arith

empty_unique : (id : ℕ) → unique_accounts (without_account id []) ≡ true
unfolding without_account
empty_unique id = refl

without-skip :
    (id : ℕ) (x : Account) (xs : List Account)
    → (x.id == id) ≡ true
    → without_account id (x ∷ xs) ≡ without_account id xs
unfolding without_account
without-skip id x xs k = rw k refl

without-keep :
    (id : ℕ) (x : Account) (xs : List Account)
    → (x.id == id) ≡ false
    → without_account id (x ∷ xs) ≡ x ∷ without_account id xs
unfolding without_account
without-keep id x xs k = rw k refl

owner_free-has_wallet :
    (q : ℕ) (o : Option ℕ) (rest : List Account)
    → owner_free o rest ≡ true
    → owned_by q o ≡ true
    → has_wallet q rest ≡ false
owner_free-has_wallet q none rest u h = ground arith
owner_free-has_wallet q (some p) rest u h = ground arith

-- What the head says of a list of accounts without repetition.
unique-tail :
    (x : Account) (xs : List Account)
    → unique_accounts (x ∷ xs) ≡ true
    → (has_account x.id xs ≡ false) × (owner_free x.owner xs ≡ true) × (unique_accounts xs ≡ true)
unique-tail x xs u = ground arith

drop_own : (o w : Bool) → (o ≡ true → w ≡ false) → w ≡ ((o || w) && not o)
drop_own o w h = ground arith

keep_other : (o w a : Bool) → (o ≡ true → a ≡ false) → (o || (w && not a)) ≡ ((o || w) && not a)
keep_other o w a h = ground arith

not_both : (b : Bool) → (b ≡ true → b ≡ false) → b ≡ false
not_both b h = ground arith

-- Deleting an account takes the wallet of its owner and of nobody else.
pub has_wallet-without :
    (q id : ℕ) (rest : List Account) {a : Account}
    → unique_accounts rest ≡ true
    → find? (λ x. x.id == id) rest ≡ some a
    → has_wallet q (without_account id rest) ≡ (has_wallet q rest && not (owned_by q a.owner))
unfolding has_wallet
has_wallet-without q id [] {a} u e = ground arith
has_wallet-without q id (x ∷ xs) {a} u e =
    let tail = unique-tail x xs u in
    elim (Bool-cases (x.id == id)) [
      | inl k ↦ rw (without-skip id x xs k) (
          rw (without-absent id xs (rw ((==_iff x.id id).0 k) at tail.0)) (
            subst (λ y. has_wallet q xs ≡ (has_wallet q (x ∷ xs) && not (owned_by q y.owner)))
              (found-head id x xs k e)
              (drop_own (owned_by q x.owner) (has_wallet q xs)
                (owner_free-has_wallet q x.owner xs tail.1))))
      | inr k ↦ rw (without-keep id x xs k) (
          rw (has_wallet-without q id xs tail.2 (found-tail id x xs k e)) (
            keep_other (owned_by q x.owner) (has_wallet q xs) (owned_by q a.owner) λ o.
              not_both (owned_by q a.owner) λ h. ground (
                arith,
                found-owns id q xs (found-tail id x xs k e) h,
                owner_free-has_wallet q x.owner xs tail.1 o,
              )))
    ]

has_wallet-without_none :
    (q id : ℕ) (rest : List Account)
    → has_wallet q rest ≡ false
    → has_wallet q (without_account id rest) ≡ false
unfolding has_wallet without_account
has_wallet-without_none q id [] h = refl
has_wallet-without_none q id (x ∷ xs) h = elim (Bool-cases (x.id == id)) [
  | inl k ↦ rw k (has_wallet-without_none q id xs (ground arith))
  | inr k ↦ rw k (ground (arith, has_wallet-without_none q id xs))
]

owner_free-without :
    (id : ℕ) (o : Option ℕ) (rest : List Account)
    → owner_free o rest ≡ true
    → owner_free o (without_account id rest) ≡ true
owner_free-without id none rest h = refl
owner_free-without id (some p) rest h = ground (arith, has_wallet-without_none p id rest)

pub unique-without :
    (id : ℕ) (rest : List Account)
    → unique_accounts rest ≡ true
    → unique_accounts (without_account id rest) ≡ true
unique-without id [] u = empty_unique id
unique-without id (x ∷ xs) u =
    let tail = unique-tail x xs u in
    elim (Bool-cases (x.id == id)) [
      | inl k ↦ rw (without-skip id x xs k) (unique-without id xs tail.2)
      | inr k ↦ rw (without-keep id x xs k) (
          ground (
            arith,
            unique-without id xs tail.2,
            owner_free-without id x.owner xs tail.1,
            has_account-without x.id id xs,
            tail.0,
          ))
    ]
