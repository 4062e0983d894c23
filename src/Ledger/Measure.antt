-- ===== src/Ledger/Measure.antt =====
-- What double entry asks of the tables: each balance is the sum of its postings, the postings of each
-- transaction cancel, and the balances of all accounts together cancel.
use butterbot.Base.{
  ℕ, ℤ, pos, ◌-ℤ◌, ◌≡◌, List, sum_by, ◌==◌, all, any, not, Bool, [], ◌∷◌, ◌&&◌, true, if◌then◌else◌,
}
use butterbot.Corrections.Repository.{correction_conflict}
use butterbot.Daily.Repository.{claim_conflict}
use butterbot.Grants.Repository.{execution_conflict}
use butterbot.Models.{AccountBalanceModel, LedgerPostingModel, balance_check}
use butterbot.Session.{Session}

-- `v` where the keys agree, and nothing elsewhere.
abbrev pub at_key : ℕ → ℕ → ℤ → ℤ
at_key k j v = if k == j then v else pos 0

unfoldable pub held : ℕ → List AccountBalanceModel → ℤ
held account = sum_by (λ b. at_key b.account_id account b.amount)

unfoldable pub posted_to : ℕ → List LedgerPostingModel → ℤ
posted_to account = sum_by (λ p. at_key p.account_id account p.amount)

unfoldable pub posted_by : ℕ → List LedgerPostingModel → ℤ
posted_by transaction = sum_by (λ p. at_key p.transaction_id transaction p.amount)

unfoldable pub supply : List AccountBalanceModel → ℤ
supply = sum_by (λ b. b.amount)

pub data Measure : Type 0 where
  -- an account's balance against its postings
  drift : ℕ → Measure
  -- the postings of a transaction
  net : ℕ → Measure
  -- all balances together
  coins : Measure

unfoldable pub measure : Measure → List AccountBalanceModel → List LedgerPostingModel → ℤ
measure (drift account) balances postings = held account balances -ℤ posted_to account postings
measure (net transaction) balances postings = posted_by transaction postings
measure coins balances postings = supply balances

-- The books measure `v`.
abbrev pub Measures : (Measure → ℤ) → Session → Type 0
Measures v s = (m : Measure) → measure m s.balances s.postings ≡ v m

-- Every balance meets the CHECKs of its table; a wallet's amount is not negative.
abbrev pub IsFunded : Session → Type 0
IsFunded s = all balance_check s.balances ≡ true

-- No two entries are in conflict.
abbrev pub are_apart : {A : Type 0} → (A → A → Bool) → List A → Bool
are_apart conflict [] = true
are_apart conflict (x ∷ xs) = not (any (conflict x) xs) && are_apart conflict xs

-- One claim for each player and day, one execution for each proposal, one correction for each grant
-- to an account.
abbrev pub IsPaidOnce : Session → Type 0
IsPaidOnce s =
    (are_apart claim_conflict s.daily_claims ≡ true)
    × (are_apart execution_conflict s.grant_executions ≡ true)
    × (are_apart correction_conflict s.corrections ≡ true)

abbrev pub IsKept : Session → Type 0
IsKept s = IsFunded s × IsPaidOnce s

-- The books measure `v`, no wallet is overdrawn, and nothing is paid twice.
abbrev pub Has : (Measure → ℤ) → Session → Type 0
Has v s = Measures v s × IsKept s

abbrev pub zero_measure : Measure → ℤ
zero_measure m = pos 0

-- Double entry holds of the tables, and no wallet is overdrawn, and nothing is paid twice.
abbrev pub IsBalanced : Session → Type 0
IsBalanced s = Has zero_measure s
