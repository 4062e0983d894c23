-- ===== src/Sentinel.antt =====
-- The triggers of src/butterbot/infrastructure/persistence/schema_contract.py: which players lack a
-- wallet and which accounts lack a balance is written down as rows come and go.
pub mod Rows
pub mod Exactly
pub mod Changes
use butterbot.Base.{
  ℕ, Bool, true, false, not, ◌&&◌, ◌||◌, Option, none, some, List, [], ◌∷◌, any, select, find?,
  if◌then◌else◌, ◌==◌,
}
use butterbot.Result.{Result, ok, err, integrity_error}

-- A row of economy_accounts: the wallet of its owner, or a system account, which has none.
pub record Account : Type 0 where
  pub id : ℕ
  pub owner : Option ℕ

-- The three tables, and operations_integrity_violations by its two kinds.
pub record Aggregates : Type 0 where
  pub players : List ℕ
  pub accounts : List Account
  pub balances : List ℕ
  pub without_wallet : List ℕ
  pub without_balance : List ℕ

abbrev pub is_in : ℕ → List ℕ → Bool
is_in x xs = any (λ y. y == x) xs

-- `INSERT OR IGNORE`
abbrev pub insert : ℕ → List ℕ → List ℕ
insert x xs = if is_in x xs then xs else x ∷ xs

abbrev pub remove : ℕ → List ℕ → List ℕ
remove x xs = select (λ y. not (y == x)) xs

abbrev pub owned_by : ℕ → Option ℕ → Bool
owned_by p none = false
owned_by p (some q) = q == p

unfoldable pub has_wallet : ℕ → List Account → Bool
has_wallet p accounts = any (λ a. owned_by p a.owner) accounts

unfoldable pub has_account : ℕ → List Account → Bool
has_account id accounts = any (λ a. a.id == id) accounts

unfoldable pub insert_player : ℕ → Aggregates → Result Aggregates
insert_player p t =
    if is_in p t.players
    then err integrity_error
    else ok (record t { players = p ∷ t.players; without_wallet = insert p t.without_wallet })

unfoldable pub delete_player : ℕ → Aggregates → Result Aggregates
delete_player p t =
    if not (is_in p t.players)
    then ok t
    else if has_wallet p t.accounts
    then err integrity_error
    else ok (record t { players = remove p t.players; without_wallet = remove p t.without_wallet })

-- The foreign key to players, and one wallet for a player.
abbrev pub may_own : Aggregates → Option ℕ → Bool
may_own t none = true
may_own t (some p) = is_in p t.players && not (has_wallet p t.accounts)

abbrev pub wallet_given : Option ℕ → List ℕ → List ℕ
wallet_given none xs = xs
wallet_given (some p) xs = remove p xs

unfoldable pub insert_account : Account → Aggregates → Result Aggregates
insert_account a t =
    if has_account a.id t.accounts || not (may_own t a.owner)
    then err integrity_error
    else ok (record t {
      accounts = a ∷ t.accounts;
      without_balance = insert a.id t.without_balance;
      without_wallet = wallet_given a.owner t.without_wallet;
    })

abbrev pub wallet_taken : List ℕ → Option ℕ → List ℕ → List ℕ
wallet_taken players none xs = xs
wallet_taken players (some p) xs = if is_in p players then insert p xs else xs

unfoldable pub without_account : ℕ → List Account → List Account
without_account id accounts = select (λ a. not (a.id == id)) accounts

unfoldable pub delete_account : ℕ → Aggregates → Result Aggregates
delete_account id t =
    if is_in id t.balances then err integrity_error else elim (find? (λ a. a.id == id) t.accounts) [
      | none ↦ ok t
      | some a ↦ ok (record t {
        accounts = without_account id t.accounts;
        without_balance = remove id t.without_balance;
        without_wallet = wallet_taken t.players a.owner t.without_wallet;
      })
    ]

unfoldable pub insert_balance : ℕ → Aggregates → Result Aggregates
insert_balance id t =
    if is_in id t.balances || not (has_account id t.accounts)
    then err integrity_error
    else ok (record t { balances = id ∷ t.balances; without_balance = remove id t.without_balance })

unfoldable pub delete_balance : ℕ → Aggregates → Result Aggregates
delete_balance id t =
    if not (is_in id t.balances)
    then ok t
    else ok (record t {
      balances = remove id t.balances;
      without_balance =
          if has_account id t.accounts then insert id t.without_balance else t.without_balance;
    })

-- Deleting a violation by hand: refused while the aggregate is incomplete.
unfoldable pub delete_wallet_violation : ℕ → Aggregates → Result Aggregates
delete_wallet_violation p t =
    if is_in p t.without_wallet && (is_in p t.players && not (has_wallet p t.accounts))
    then err integrity_error
    else ok (record t { without_wallet = remove p t.without_wallet })

unfoldable pub delete_balance_violation : ℕ → Aggregates → Result Aggregates
delete_balance_violation id t =
    if is_in id t.without_balance && (has_account id t.accounts && not (is_in id t.balances))
    then err integrity_error
    else ok (record t { without_balance = remove id t.without_balance })

pub data Change : Type 0 where
  inserts_player deletes_player deletes_account inserts_balance deletes_balance : ℕ → Change
  deletes_wallet_violation deletes_balance_violation : ℕ → Change
  inserts_account : Account → Change

unfoldable pub change : Change → Aggregates → Result Aggregates
change (inserts_player p) t = insert_player p t
change (deletes_player p) t = delete_player p t
change (inserts_account a) t = insert_account a t
change (deletes_account id) t = delete_account id t
change (inserts_balance id) t = insert_balance id t
change (deletes_balance id) t = delete_balance id t
change (deletes_wallet_violation p) t = delete_wallet_violation p t
change (deletes_balance_violation id) t = delete_balance_violation id t

abbrev pub no_aggregates : Aggregates
no_aggregates = record {
  players = [];
  accounts = [];
  balances = [];
  without_wallet = [];
  without_balance = [];
}

-- A statement that fails changes nothing.
unfoldable pub change_all : List Change → Aggregates → Aggregates
change_all [] t = t
change_all (c ∷ cs) t = change_all cs (elim (change c t) [ err _ ↦ t | ok m ↦ m ])
