-- ===== src/Runner/Bounds.antt =====
-- The runner of src/butterbot/application/transactions.py always ends, after at most one attempt more
-- than the retries, and every attempt and sleep stays within what is left of the budget.
use butterbot.Base.{
  ℕ, zero, suc, ◌+◌, ◌-◌, ◌≤◌, ◌<◌, Option, none, some, true, false, List, [], ◌∷◌, leb, ltb, ◌≡◌,
  ◌⊎◌, inl, inr, refl, arith, if_cases, Bool-cases, if◌then◌else◌,
}
use mathlib.Core.List.{Memᴰ}
use butterbot.Result.{Error, Result, ok, err, retry_exhausted, index_error}
use butterbot.Runner.{
  RetryPolicy, Round, Ending, returned, raised_retryable, raised_other, Action, attempt, sleep,
  backoff, min_ℕ, wait_of, budget_of, gives_up, run,
}

abbrev pub attempts_in : List Action → ℕ
attempts_in [] = 0
attempts_in (attempt n b ∷ actions) = suc (attempts_in actions)
attempts_in (sleep w ∷ actions) = attempts_in actions

-- The attempt after `n` others begins in time, and its budget is what is then left, less the guard.
pub record IsInTime {ℓ} {A : Type ℓ} (policy : RetryPolicy) (round : Round A) (budget : ℕ)
    : Type 0 where
  pub positive : 1 ≤ budget
  pub exact : budget + round.elapsed_before_ms + policy.deadline_guard_ms ≡ policy.total_budget_ms

-- A sleep is one of the listed backoffs, or, where not so much is left of the budget less the
-- guard, as much as is left: nothing, if that is gone.
pub record IsRested {ℓ} {A : Type ℓ} (policy : RetryPolicy) (round : Round A) (wait : ℕ)
    : Type 0 where
  pub backoff_ms : ℕ
  pub listed : Memᴰ backoff_ms policy.backoff_ms
  pub no_longer : wait ≤ backoff_ms
  pub as_long :
      (wait ≡ backoff_ms)
      ⊎ (policy.total_budget_ms ≤ wait + round.elapsed_ms + policy.deadline_guard_ms)
  pub in_budget :
      (wait ≡ 0) ⊎ (wait + round.elapsed_ms + policy.deadline_guard_ms ≤ policy.total_budget_ms)

module _ {ℓ} {A : Type ℓ} (policy : RetryPolicy) (rounds : ℕ → Round A) where
  -- What a call may do and how it may end, after `n` attempts.
  pub data IsTimely : ℕ → Result A → List Action → Type ℓ where
    out_of_time :
        {n : ℕ}
        → policy.total_budget_ms ≤ (rounds n).elapsed_before_ms + policy.deadline_guard_ms
        → IsTimely n (err retry_exhausted) []
    returns :
        {n b : ℕ} (a : A)
        → IsInTime policy (rounds n) b
        → (rounds n).ending ≡ returned a
        → IsTimely n (ok a) (attempt (suc n) b ∷ [])
    fails :
        {n b : ℕ} (e : Error)
        → IsInTime policy (rounds n) b
        → (rounds n).ending ≡ raised_other e
        → IsTimely n (err e) (attempt (suc n) b ∷ [])
    exhausts :
        {n b : ℕ} (e : Error)
        → IsInTime policy (rounds n) b
        → (rounds n).ending ≡ raised_retryable e
        → (policy.max_retries ≤ n) ⊎ (policy.total_budget_ms ≤ (rounds n).elapsed_ms)
        → IsTimely n (err retry_exhausted) (attempt (suc n) b ∷ [])
    has_no_backoff :
        {n b : ℕ} (e : Error)
        → IsInTime policy (rounds n) b
        → (rounds n).ending ≡ raised_retryable e
        → policy.backoff_ms ≡ []
        → IsTimely n (err index_error) (attempt (suc n) b ∷ [])
    retries :
        {n b w : ℕ} {result : Result A} {actions : List Action} (e : Error)
        → IsInTime policy (rounds n) b
        → (rounds n).ending ≡ raised_retryable e
        → n < policy.max_retries
        → (rounds n).elapsed_ms < policy.total_budget_ms
        → IsRested policy (rounds n) w
        → IsTimely (suc n) result actions
        → IsTimely n result (attempt (suc n) b ∷ sleep w ∷ actions)

  -- The outcome, with at most `fuel` attempts after the first `n`.
  abbrev pub IsBounded : ℕ → ℕ → Option (Result A × List Action) → Type ℓ
  IsBounded fuel n outcome =
      (result : Result A) × (actions : List Action) × (outcome ≡ some (result, actions))
      × (attempts_in actions ≤ fuel)
      × IsTimely n result actions

whole_or_left :
    (b total guard elapsed : ℕ)
    → (min_ℕ b (total - guard - elapsed) ≡ b)
      ⊎ (total ≤ min_ℕ b (total - guard - elapsed) + elapsed + guard)
whole_or_left b total guard elapsed = elim (Bool-cases (leb b (total - guard - elapsed))) [
  | inl fits ↦ inl (rw fits refl)
  | inr longer ↦ inr (rw longer (omega arith))
]

none_or_left :
    (b total guard elapsed : ℕ)
    → (min_ℕ b (total - guard - elapsed) ≡ 0)
      ⊎ (min_ℕ b (total - guard - elapsed) + elapsed + guard ≤ total)
none_or_left b total guard elapsed = elim (Bool-cases (leb total (guard + elapsed))) [
  | inl gone ↦ inl (ground arith)
  | inr left ↦ inr (ground arith)
]

no_backoff : (bs : List ℕ) (n : ℕ) → backoff bs n ≡ none → bs ≡ []
no_backoff [] n e = refl
no_backoff (b ∷ []) n e = absurd (ground arith)
no_backoff (b ∷ c ∷ bs) zero e = absurd (ground arith)
no_backoff (b ∷ c ∷ bs) (suc n) e = absurd (ground (arith, no_backoff (c ∷ bs) n e))

backoff-listed : (bs : List ℕ) (n b : ℕ) → backoff bs n ≡ some b → Memᴰ b bs
backoff-listed [] n b e = absurd (ground arith)
backoff-listed (c ∷ []) n b e = Memᴰ.head (ground arith)
backoff-listed (c ∷ d ∷ bs) zero b e = Memᴰ.head (ground arith)
backoff-listed (c ∷ d ∷ bs) (suc n) b e = Memᴰ.tail (backoff-listed (d ∷ bs) n b e)

module _ {ℓ} {A : Type ℓ} (policy : RetryPolicy) (rounds : ℕ → Round A) where
  budget-IsInTime :
      (n : ℕ)
      → leb policy.total_budget_ms ((rounds n).elapsed_before_ms + policy.deadline_guard_ms) ≡ false
      → IsInTime policy (rounds n) (budget_of policy (rounds n).elapsed_before_ms)
  budget-IsInTime n early = record { positive = ground arith; exact = ground arith }

  wait-IsRested :
      (n b : ℕ)
      → backoff policy.backoff_ms n ≡ some b
      → IsRested policy (rounds n) (wait_of policy b (rounds n).elapsed_ms)
  wait-IsRested n b e = record {
    backoff_ms = b;
    listed = backoff-listed policy.backoff_ms n b e;
    no_longer = ground arith;
    as_long = whole_or_left b _ _ _;
    in_budget = none_or_left b _ _ _;
  }

  gives_up-why :
      (n : ℕ)
      → gives_up policy (suc n) (rounds n).elapsed_ms ≡ true
      → (policy.max_retries ≤ n) ⊎ (policy.total_budget_ms ≤ (rounds n).elapsed_ms)
  gives_up-why n h = elim (Bool-cases (ltb policy.max_retries (suc n))) [
    | inl last ↦ inl (ground arith)
    | inr earlier ↦ inr (ground arith)
  ]

  goes_on :
      (n : ℕ)
      → gives_up policy (suc n) (rounds n).elapsed_ms ≡ false
      → (n < policy.max_retries) × ((rounds n).elapsed_ms < policy.total_budget_ms)
  goes_on n h = ground arith

  -- A retryable failure with retries and time left: what the later rounds give goes after the sleep.
  after_sleep :
      (fuel n b : ℕ) (e : Error) (o : Option ℕ) (later : Option (Result A × List Action))
      → IsInTime policy (rounds n) b
      → (rounds n).ending ≡ raised_retryable e
      → (n < policy.max_retries) × ((rounds n).elapsed_ms < policy.total_budget_ms)
      → backoff policy.backoff_ms n ≡ o
      → IsBounded policy rounds fuel (suc n) later
      → IsBounded policy rounds (suc fuel) n (elim o [
        | none ↦ some (err index_error, attempt (suc n) b ∷ [])
        | some backoff_ms ↦ elim later [
          | none ↦ none
          | some (result, actions) ↦ some (
            result,
            attempt (suc n) b ∷ sleep (wait_of policy backoff_ms (rounds n).elapsed_ms) ∷ actions,
          )
        ]
      ])
  after_sleep fuel n b e none later in_time ended left found rest =
      (_, _, refl, ground arith, has_no_backoff e in_time ended (no_backoff _ n found))
  after_sleep fuel n b e (some w) later in_time ended left found
        (result, actions, same, few, fits) =
      rw same (
        result,
        _,
        refl,
        ground arith,
        retries e in_time ended left.0 left.1 (wait-IsRested n w found) fits,
      )

  after_attempt :
      (fuel n b : ℕ) (ending : Ending A) (later : Option (Result A × List Action))
      → IsInTime policy (rounds n) b
      → (rounds n).ending ≡ ending
      → (gives_up policy (suc n) (rounds n).elapsed_ms ≡ false
          → IsBounded policy rounds fuel (suc n) later)
      → IsBounded policy rounds (suc fuel) n (elim ending [
        | returned a ↦ some (ok a, attempt (suc n) b ∷ [])
        | raised_other e ↦ some (err e, attempt (suc n) b ∷ [])
        | raised_retryable e ↦
            if gives_up policy (suc n) (rounds n).elapsed_ms
            then some (err retry_exhausted, attempt (suc n) b ∷ [])
            else elim (backoff policy.backoff_ms n) [
              | none ↦ some (err index_error, attempt (suc n) b ∷ [])
              | some backoff_ms ↦ elim later [
                | none ↦ none
                | some (result, actions) ↦ some (
                  result,
                  attempt (suc n) b
                      ∷ sleep (wait_of policy backoff_ms (rounds n).elapsed_ms)
                      ∷ actions,
                )
              ]
            ]
      ])
  after_attempt fuel n b (returned a) later in_time ended rest =
      (_, _, refl, ground arith, returns a in_time ended)
  after_attempt fuel n b (raised_other e) later in_time ended rest =
      (_, _, refl, ground arith, fails e in_time ended)
  after_attempt fuel n b (raised_retryable e) later in_time ended rest =
      if_cases (IsBounded policy rounds (suc fuel) n)
        (gives_up policy (suc n) (rounds n).elapsed_ms) _ _
        (λ last. (_, _, refl, ground arith, exhausts e in_time ended (gives_up-why n last)))
        λ more. after_sleep fuel n b e _ later in_time ended (goes_on n more) refl (rest more)

  run-IsBounded :
      (fuel n : ℕ)
      → n + fuel ≡ suc policy.max_retries
      → n ≤ policy.max_retries
      → IsBounded policy rounds fuel n (run policy fuel rounds n)
  unfolding run
  run-IsBounded zero n e h = absurd (omega arith)
  run-IsBounded (suc fuel) n e h =
      if_cases (IsBounded policy rounds (suc fuel) n)
        (leb policy.total_budget_ms ((rounds n).elapsed_before_ms + policy.deadline_guard_ms)) _ _
        (λ late. (_, _, refl, ground arith, out_of_time (ground arith)))
        λ early.
          after_attempt fuel n _ (rounds n).ending _ (budget-IsInTime n early) refl
            λ more. run-IsBounded fuel (suc n) (omega arith) (goes_on n more).0

-- A call of the runner ends with a result after at most `max_retries + 1` attempts. Each begins while
-- more than the guard is left of the budget, and gets what is left, less the guard. After a retryable
-- failure there is another attempt only while retries and time are left, after a sleep of one of the
-- listed backoffs, cut to what is left of the budget less the guard; the result is that of the last
-- attempt, or says that the retries, the time or the list of backoffs are exhausted.
pub run_ends {ℓ} :
    {A : Type ℓ} (policy : RetryPolicy) (rounds : ℕ → Round A)
    → IsBounded policy rounds
        (suc policy.max_retries)
        0
        (run policy (suc policy.max_retries) rounds 0)
run_ends policy rounds =
    run-IsBounded policy rounds (suc policy.max_retries) 0 (omega arith) (omega arith)
