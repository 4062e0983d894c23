-- ===== src/Sentinel/Changes.antt =====
-- The triggers of src/butterbot/infrastructure/persistence/schema_contract.py write down exactly
-- the incomplete aggregates, whatever the changes.
use butterbot.Base.{
  ℕ, Bool, true, false, not, ◌&&◌, ◌||◌, Option, none, some, List, [], ◌∷◌, find?, ◌≡◌, refl, arith,
  ◌==◌, Bool-cases, Option-cases, inl, inr, ==_iff, sym, ◌∙◌,
}
use butterbot.Result.{Result, ok, err, AllOk}
use butterbot.Sentinel.{
  Account, Aggregates, Change, is_in, insert, remove, owned_by, has_wallet, has_account,
  without_account, insert_account, delete_account, delete_wallet_violation,
  delete_balance_violation, change, change_all, no_aggregates, may_own, wallet_given, wallet_taken,
}
use butterbot.Sentinel.Rows.{
  is_in-insert, is_in-remove, has_account-without, has_wallet-without, unique-without, found-owns,
}
use butterbot.Sentinel.Exactly.{
  IsExact, insert_player-IsExact, delete_player-IsExact, insert_balance-IsExact,
  delete_balance-IsExact,
}

both_left : (a b : Bool) → (a && b) ≡ true → a ≡ true
both_left a b h = ground arith

neither : (a b : Bool) → (a || not b) ≡ false → b ≡ true
neither a b h = ground arith

account-kept :
    (v : ℕ) (a : Account) (t : Aggregates)
    → has_account v t.accounts ≡ true
    → has_account v (a ∷ t.accounts) ≡ true
unfolding has_account
account-kept v a t h = ground arith

balance-inserted :
    (id v : ℕ) (t : Aggregates) (a : Account)
    → IsExact t
    → has_account id t.accounts ≡ false
    → a.id ≡ id
    → is_in v (insert id t.without_balance)
      ≡ (has_account v (a ∷ t.accounts) && not (is_in v t.balances))
unfolding has_account
balance-inserted id v t a x new e =
    rw (is_in-insert v id t.without_balance) (rw e (ground (arith, x.balances v, x.backed id)))

inserted-IsExact :
    (id : ℕ) (owner : Option ℕ) (t : Aggregates)
    → IsExact t
    → has_account id t.accounts ≡ false
    → may_own t owner ≡ true
    → IsExact record t {
      accounts = record { id = id; owner = owner } ∷ t.accounts;
      without_balance = insert id t.without_balance;
      without_wallet = wallet_given owner t.without_wallet;
    }
unfolding has_wallet
inserted-IsExact id none t x new may = record {
  wallets = x.wallets;
  balances = λ v. balance-inserted id v t _ x new refl;
  owned = x.owned;
  backed = λ v h. account-kept v _ t (x.backed v h);
  unique = ground (arith, x.unique);
}
inserted-IsExact id (some p) t x new may = record {
  wallets = λ q. rw (is_in-remove q p t.without_wallet) (ground (arith, x.wallets q));
  balances = λ v. balance-inserted id v t _ x new refl;
  owned = λ q h. ground (arith, x.owned q);
  backed = λ v h. account-kept v _ t (x.backed v h);
  unique = ground (arith, x.unique);
}

insert_account-IsExact :
    (a : Account) (t : Aggregates) → IsExact t → AllOk IsExact (insert_account a t)
unfolding insert_account
insert_account-IsExact a t x =
    elim (Bool-cases (has_account a.id t.accounts || not (may_own t a.owner))) [
      | inl e ↦ rw e tt
      | inr e ↦ rw e (inserted-IsExact a.id a.owner t x (ground arith) (neither _ _ e))
    ]

owner-taken :
    (owner : Option ℕ) (q : ℕ) (t : Aggregates)
    → IsExact t
    → ((p : ℕ) → owned_by p owner ≡ true → is_in p t.players ≡ true)
    → is_in q (wallet_taken t.players owner t.without_wallet)
      ≡ (is_in q t.players && not (has_wallet q t.accounts && not (owned_by q owner)))
owner-taken none q t x player = ground (arith, x.wallets q)
owner-taken (some p) q t x player =
    rw (player p ((==_iff p p).1 refl))
      (rw (is_in-insert q p t.without_wallet) (ground (arith, x.wallets q, player q)))

deleted-IsExact :
    (id : ℕ) (a : Account) (t : Aggregates)
    → IsExact t
    → is_in id t.balances ≡ false
    → find? (λ y. y.id == id) t.accounts ≡ some a
    → IsExact record t {
      accounts = without_account id t.accounts;
      without_balance = remove id t.without_balance;
      without_wallet = wallet_taken t.players a.owner t.without_wallet;
    }
deleted-IsExact id a t x unused found = record {
  wallets = λ q.
      rw (has_wallet-without q id t.accounts x.unique found)
        (owner-taken a.owner q t x λ p o. x.owned p (found-owns id p t.accounts found o));
  balances = λ v.
      rw (is_in-remove v id t.without_balance)
        (rw (has_account-without v id t.accounts) (ground (arith, x.balances v)));
  owned = λ q h.
      x.owned q (both_left _ _ (rw (has_wallet-without q id t.accounts x.unique found) at h));
  backed = λ v h. rw (has_account-without v id t.accounts) (ground (arith, x.backed v));
  unique = unique-without id t.accounts x.unique;
}

delete_account-IsExact : (id : ℕ) (t : Aggregates) → IsExact t → AllOk IsExact (delete_account id t)
unfolding delete_account
delete_account-IsExact id t x = elim (Bool-cases (is_in id t.balances)) [
  | inl e ↦ rw e tt
  | inr e ↦ rw e (elim (Option-cases (find? (λ y. y.id == id) t.accounts)) [
    | inl n ↦ rw n x
    | inr f ↦ rw f.1 (deleted-IsExact id f.0 t x e f.1)
  ])
]

delete_wallet_violation-IsExact :
    (p : ℕ) (t : Aggregates) → IsExact t → AllOk IsExact (delete_wallet_violation p t)
unfolding delete_wallet_violation
delete_wallet_violation-IsExact p t x = elim (Bool-cases (is_in p t.without_wallet)) [
  | inl e ↦ rw e (rw (sym (x.wallets p) ∙ e) tt)
  | inr e ↦ rw e record {
    wallets = λ q. rw (is_in-remove q p t.without_wallet) (ground (arith, x.wallets q));
    balances = x.balances;
    owned = x.owned;
    backed = x.backed;
    unique = x.unique;
  }
]

delete_balance_violation-IsExact :
    (id : ℕ) (t : Aggregates) → IsExact t → AllOk IsExact (delete_balance_violation id t)
unfolding delete_balance_violation
delete_balance_violation-IsExact id t x = elim (Bool-cases (is_in id t.without_balance)) [
  | inl e ↦ rw e (rw (sym (x.balances id) ∙ e) tt)
  | inr e ↦ rw e record {
    wallets = x.wallets;
    balances = λ v. rw (is_in-remove v id t.without_balance) (ground (arith, x.balances v));
    owned = x.owned;
    backed = x.backed;
    unique = x.unique;
  }
]

change-IsExact : (c : Change) (t : Aggregates) → IsExact t → AllOk IsExact (change c t)
unfolding change
change-IsExact (Change.inserts_player p) t x = insert_player-IsExact p t x
change-IsExact (Change.deletes_player p) t x = delete_player-IsExact p t x
change-IsExact (Change.inserts_account a) t x = insert_account-IsExact a t x
change-IsExact (Change.deletes_account id) t x = delete_account-IsExact id t x
change-IsExact (Change.inserts_balance id) t x = insert_balance-IsExact id t x
change-IsExact (Change.deletes_balance id) t x = delete_balance-IsExact id t x
change-IsExact (Change.deletes_wallet_violation p) t x = delete_wallet_violation-IsExact p t x
change-IsExact (Change.deletes_balance_violation id) t x = delete_balance_violation-IsExact id t x

kept_or_changed :
    (t : Aggregates) (r : Result Aggregates)
    → IsExact t
    → AllOk IsExact r
    → IsExact (elim r [ err _ ↦ t | ok m ↦ m ])
kept_or_changed t (err e) x y = x
kept_or_changed t (ok m) x y = y

pub empty-IsExact : IsExact no_aggregates
unfolding has_wallet has_account
empty-IsExact = record {
  wallets = λ p. refl;
  balances = λ id. refl;
  owned = λ p h. h;
  backed = λ id h. h;
  unique = refl;
}

-- Every sequence of insertions and deletions from exact tables leaves the triggers' table with the
-- players without a wallet and the accounts without a balance, no more and no less.
pub change_all-IsExact : (cs : List Change) (t : Aggregates) → IsExact t → IsExact (change_all cs t)
unfolding change_all
change_all-IsExact [] t x = x
change_all-IsExact (c ∷ cs) t x =
    change_all-IsExact cs _ (kept_or_changed t (change c t) x (change-IsExact c t x))
