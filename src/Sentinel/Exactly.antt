-- ===== src/Sentinel/Exactly.antt =====
-- The triggers of src/butterbot/infrastructure/persistence/schema_contract.py write down exactly
-- the incomplete aggregates.
use butterbot.Base.{ℕ, Bool, true, not, ◌&&◌, ◌||◌, ◌≡◌, arith, Bool-cases, inl, inr}
use butterbot.Result.{AllOk}
use butterbot.Sentinel.{
  Aggregates, is_in, has_wallet, has_account, insert_player, delete_player, insert_balance,
  delete_balance,
}
use butterbot.Sentinel.Rows.{is_in-insert, is_in-remove, unique_accounts}

-- Written down are the players without a wallet and the accounts without a balance, no more and no
-- less; beside it, the constraints of the three tables.
pub record IsExact (t : Aggregates) : Type 0 where
  pub wallets :
      (p : ℕ) → is_in p t.without_wallet ≡ (is_in p t.players && not (has_wallet p t.accounts))
  pub balances :
      (id : ℕ)
      → is_in id t.without_balance ≡ (has_account id t.accounts && not (is_in id t.balances))
  pub owned : (p : ℕ) → has_wallet p t.accounts ≡ true → is_in p t.players ≡ true
  pub backed : (id : ℕ) → is_in id t.balances ≡ true → has_account id t.accounts ≡ true
  pub unique : unique_accounts t.accounts ≡ true

both_right : (a b : Bool) → (a && b) ≡ true → b ≡ true
both_right a b h = ground arith

pub insert_player-IsExact : (p : ℕ) (t : Aggregates) → IsExact t → AllOk IsExact (insert_player p t)
unfolding insert_player
insert_player-IsExact p t x = elim (Bool-cases (is_in p t.players)) [
  | inl e ↦ rw e tt
  | inr e ↦ rw e record {
    wallets = λ q. rw (is_in-insert q p t.without_wallet) (ground (arith, x.wallets q, x.owned p));
    balances = x.balances;
    owned = λ q h. ground (arith, x.owned q);
    backed = x.backed;
    unique = x.unique;
  }
]

pub delete_player-IsExact : (p : ℕ) (t : Aggregates) → IsExact t → AllOk IsExact (delete_player p t)
unfolding delete_player
delete_player-IsExact p t x = elim (Bool-cases (is_in p t.players)) [
  | inr n ↦ rw n x
  | inl y ↦ rw y (elim (Bool-cases (has_wallet p t.accounts)) [
    | inl e ↦ rw e tt
    | inr e ↦ rw e record {
      wallets = λ q.
          rw (is_in-remove q p t.without_wallet)
            (rw (is_in-remove q p t.players) (ground (arith, x.wallets q)));
      balances = x.balances;
      owned = λ q h. rw (is_in-remove q p t.players) (ground (arith, x.owned q));
      backed = x.backed;
      unique = x.unique;
    }
  ])
]

pub insert_balance-IsExact :
    (id : ℕ) (t : Aggregates) → IsExact t → AllOk IsExact (insert_balance id t)
unfolding insert_balance
insert_balance-IsExact id t x =
    elim (Bool-cases (is_in id t.balances || not (has_account id t.accounts))) [
      | inl e ↦ rw e tt
      | inr e ↦ rw e record {
        wallets = x.wallets;
        balances = λ v. rw (is_in-remove v id t.without_balance) (ground (arith, x.balances v));
        owned = x.owned;
        backed = λ v h. ground (arith, x.backed v);
        unique = x.unique;
      }
    ]

pub delete_balance-IsExact :
    (id : ℕ) (t : Aggregates) → IsExact t → AllOk IsExact (delete_balance id t)
unfolding delete_balance
delete_balance-IsExact id t x = elim (Bool-cases (is_in id t.balances)) [
  | inr n ↦ rw n x
  | inl y ↦ rw y (
      rw (x.backed id y) record {
        wallets = x.wallets;
        balances = λ v.
            rw (is_in-insert v id t.without_balance)
              (rw (is_in-remove v id t.balances) (ground (arith, x.balances v, x.backed id y)));
        owned = x.owned;
        backed = λ v h. x.backed v (both_right _ _ (rw (is_in-remove v id t.balances) at h));
        unique = x.unique;
      })
]
