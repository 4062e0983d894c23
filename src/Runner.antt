-- ===== src/Runner.antt =====
-- ApplicationTransactionRunner of src/butterbot/application/transactions.py. Times are whole
-- milliseconds since the call; what the clock shows and how an attempt ends come from outside.
pub mod Bounds
use butterbot.Base.{
  ℕ, zero, suc, ◌+◌, ◌-◌, ℤ, pos, Option, none, some, Bool, true, false, ◌&&◌, ◌||◌, List, [], ◌∷◌,
  leb, ltb, length, if◌then◌else◌,
}
use butterbot.Result.{Error, Result, ok, err, retry_exhausted, index_error}

pub record RetryPolicy : Type 0 where
  pub max_retries : ℕ
  pub total_budget_ms : ℕ
  pub backoff_ms : List ℕ
  pub deadline_guard_ms : ℕ

abbrev pub default_retry_policy : RetryPolicy
default_retry_policy = record {
  max_retries = 2;
  total_budget_ms = 3000;
  backoff_ms = 25 ∷ 75 ∷ [];
  deadline_guard_ms = 200;
}

pub data Ending {ℓ} (A : Type ℓ) : Type ℓ where
  returned : A → Ending A
  raised_retryable : Error → Ending A
  raised_other : Error → Ending A

-- One round: the clock before the attempt, how the attempt ends, and the clock after it.
pub record Round {ℓ} (A : Type ℓ) : Type ℓ where
  pub elapsed_before_ms : ℕ
  pub ending : Ending A
  pub elapsed_ms : ℕ

-- What the runner does: attempts with their budgets, and sleeps.
pub data Action : Type 0 where
  attempt : ℕ → ℕ → Action
  sleep : ℕ → Action

abbrev pub min_ℕ : ℕ → ℕ → ℕ
min_ℕ a b = if leb a b then a else b

abbrev pub max_ℕ : ℕ → ℕ → ℕ
max_ℕ a b = if leb a b then b else a

-- `backoff_ms[min(attempts - 1, len(backoff_ms) - 1)]`: the last entry serves for all later ones. None:
-- the IndexError of an empty tuple.
abbrev pub backoff : List ℕ → ℕ → Option ℕ
backoff [] n = none
backoff (b ∷ []) n = some b
backoff (b ∷ c ∷ bs) zero = some b
backoff (b ∷ c ∷ bs) (suc n) = backoff (c ∷ bs) n

abbrev pub wait_of : RetryPolicy → ℕ → ℕ → ℕ
wait_of policy backoff_ms elapsed_ms =
    min_ℕ backoff_ms (policy.total_budget_ms - policy.deadline_guard_ms - elapsed_ms)

abbrev pub budget_of : RetryPolicy → ℕ → ℕ
budget_of policy elapsed_before_ms =
    max_ℕ 1 (policy.total_budget_ms - elapsed_before_ms - policy.deadline_guard_ms)

-- Whether a retryable failure is the last.
abbrev pub gives_up : RetryPolicy → ℕ → ℕ → Bool
gives_up policy attempts elapsed_ms =
    ltb policy.max_retries attempts || leb policy.total_budget_ms elapsed_ms

module _ {ℓ} {A : Type ℓ} (policy : RetryPolicy) where
  -- `run` after `attempts` attempts. None: the fuel is spent.
  unfoldable pub run : ℕ → (ℕ → Round A) → ℕ → Option (Result A × List Action)
  run zero rounds attempts = none
  run (suc fuel) rounds attempts =
      let round = rounds attempts in
      let later = run fuel rounds (suc attempts) in
      let this = attempt (suc attempts) (budget_of policy round.elapsed_before_ms) in
      if leb policy.total_budget_ms (round.elapsed_before_ms + policy.deadline_guard_ms)
      then some (err retry_exhausted, [])
      else elim round.ending [
        | returned a ↦ some (ok a, this ∷ [])
        | raised_other e ↦ some (err e, this ∷ [])
        | raised_retryable e ↦
            if gives_up policy (suc attempts) round.elapsed_ms
            then some (err retry_exhausted, this ∷ [])
            else elim (backoff policy.backoff_ms attempts) [
              | none ↦ some (err index_error, this ∷ [])
              | some backoff_ms ↦ elim later [
                | none ↦ none
                | some (result, actions) ↦
                    some
                      (result, this ∷ sleep (wait_of policy backoff_ms round.elapsed_ms) ∷ actions)
              ]
            ]
      ]
