-- ===== src/Simulation/Projecting/Total.antt =====
-- A validated model of src/butterbot/simulation/economy.py is projected without an exception.
use butterbot.Base.{
  ℕ, ℤ, pos, true, false, ◌≡◌, refl, ◌≤ℤ◌, arith, List, [], ◌∷◌, inl, inr, Bool-cases, ◌||◌, eqb_ℤ,
  min_ℤ, max_ℤ, ◌*ℤ◌, select, ◌==◌, negsuc, eq_of_parts,
}
use butterbot.Result.{ok}
use butterbot.Simulation.{
  basis_points, days_per_week, Horizon, Unlock, Cohort, EconomyModel, DailyRates, Projection,
}
use butterbot.Simulation.Fractions.{Fraction, of_int, ◌+ℚ◌, ◌*ℚ◌, leb_ℚ, min_ℚ, truncate}
use butterbot.Simulation.Fractions.Sign.{
  IsNonNegative, of_int-IsNonNegative, +ℚ-IsNonNegative, *ℚ-IsNonNegative, /ℕ-IsNonNegative,
  min_ℚ-IsNonNegative, leb_ℚ-zero, divide-ok, fraction_of-ok, fraction_of-IsNonNegative,
}
use butterbot.Simulation.Rates.{
  daily_rates, fraction, bps, rewarded_actions_per_active_day, rates_of,
}
use butterbot.Simulation.Validation.{validate_model, validate_cohort, first_unlock_is_zero}
use butterbot.Simulation.Validation.Sound.{
  IsSound, IsSoundCohort, validated-IsSound, cohort-IsSound, above,
}
use butterbot.Simulation.Progress.{catch_up_calendar_days, xp_after, profession_xp_at_days}
use butterbot.Simulation.Projecting.Balanced.{IsBalanced, projection-IsBalanced}
use butterbot.Simulation.Projecting.{
  project, projection_of, last, share_bps, reached_unlocks, recurring_spend_of, milestone_spend_of,
  milestone_cost,
}

fraction-ok : (n d : ℤ) → pos 1 ≤ℤ d → (q : Fraction) × (fraction n d ≡ ok q)
unfolding fraction
fraction-ok n d h = rw (above d h) (fraction_of-ok n d h)

daily_rates-ok :
    (model : EconomyModel) (cohort : Cohort)
    → IsSound model
    → (units coins : Fraction) × (daily_rates model cohort ≡ ok (rates_of model cohort units coins))
unfolding daily_rates
daily_rates-ok model cohort sound =
    let u = fraction-ok model.activity.material_units_ev_numerator _ sound.units in
    let c = fraction-ok model.activity.direct_coin_ev_numerator _ sound.coins in
    (u.0, c.0, rw u.1 (rw c.1 refl))

pub min_ℤ-positive : (a b : ℤ) → pos 0 ≤ℤ a → pos 1 ≤ℤ b → pos 0 ≤ℤ min_ℤ a b
unfolding min_ℤ
min_ℤ-positive a b h k = ground arith

pub max_ℤ-positive : (a : ℤ) → pos 0 ≤ℤ max_ℤ (pos 0) a
unfolding max_ℤ
max_ℤ-positive a = ground arith

*ℤ-positive : (a : ℤ) (n : ℕ) → pos 0 ≤ℤ a → pos 0 ≤ℤ a *ℤ pos n
unfolding ◌*ℤ◌
*ℤ-positive (pos m) n h = ground arith
*ℤ-positive (negsuc m) n h = ground arith

rewarded-IsNonNegative :
    (model : EconomyModel) (cohort : Cohort)
    → IsSound model
    → IsSoundCohort cohort
    → IsNonNegative (rewarded_actions_per_active_day model cohort)
unfolding rewarded_actions_per_active_day bps
rewarded-IsNonNegative model cohort sound sound_cohort =
    +ℚ-IsNonNegative _ _
      (of_int-IsNonNegative _ (min_ℤ-positive _ _ sound_cohort.actions sound.allowance))
      (/ℕ-IsNonNegative _ _ (
        *ℚ-IsNonNegative _ _ (of_int-IsNonNegative _ (max_ℤ-positive _))
          (of_int-IsNonNegative _ sound.overflow)))

profession_xp-IsNonNegative :
    (model : EconomyModel) (cohort : Cohort) (units coins : Fraction)
    → IsSound model
    → IsSoundCohort cohort
    → pos 0 ≤ℤ model.activity.profession_xp_per_rewarded_action
    → IsNonNegative (rates_of model cohort units coins).profession_xp
unfolding rates_of
profession_xp-IsNonNegative model cohort units coins sound sound_cohort h =
    *ℚ-IsNonNegative _ _
      (*ℚ-IsNonNegative _ _
        (/ℕ-IsNonNegative _ _ (of_int-IsNonNegative _ (omega (arith, sound_cohort.active))))
        (rewarded-IsNonNegative model cohort sound sound_cohort))
      (of_int-IsNonNegative _ h)

catch_up-ok :
    (cohort : Cohort)
    → IsSoundCohort cohort
    → pos 0 ≤ℤ cohort.catch_up_active_days
    → (days : Fraction) × (catch_up_calendar_days cohort ≡ ok days) × IsNonNegative days
unfolding catch_up_calendar_days
catch_up-ok cohort sound h =
    let days = fraction_of-ok (cohort.catch_up_active_days *ℤ pos days_per_week) _ sound.active in
    (days.0, days.1, fraction_of-IsNonNegative _ _ (*ℤ-positive _ _ h) sound.active days.1)

-- The experience where a catch-up of `catch_up` days is granted.
abbrev boosted_xp : Cohort → DailyRates → Fraction → Fraction → Fraction
boosted_xp cohort rates days catch_up =
    rates.profession_xp *ℚ days
    +ℚ bps (rates.profession_xp *ℚ min_ℚ days catch_up) cohort.catch_up_xp_bonus_bps

boosted-IsNonNegative :
    (cohort : Cohort) (rates : DailyRates) (days catch_up : Fraction)
    → IsSoundCohort cohort
    → IsNonNegative rates.profession_xp
    → IsNonNegative days
    → IsNonNegative catch_up
    → IsNonNegative (boosted_xp cohort rates days catch_up)
unfolding bps
boosted-IsNonNegative cohort rates days catch_up sound r d c =
    +ℚ-IsNonNegative _ _ (*ℚ-IsNonNegative _ _ r d) (
      /ℕ-IsNonNegative _ _ (
        *ℚ-IsNonNegative _ _ (*ℚ-IsNonNegative _ _ r (min_ℚ-IsNonNegative _ _ d c))
          (of_int-IsNonNegative _ sound.bonus)))

xp_after-ok :
    (cohort : Cohort) (rates : DailyRates) (days : Fraction)
    → IsSoundCohort cohort
    → pos 0 ≤ℤ cohort.catch_up_active_days
    → IsNonNegative rates.profession_xp
    → IsNonNegative days
    → (xp : Fraction) × (xp_after cohort rates days ≡ ok xp) × IsNonNegative xp
unfolding xp_after
xp_after-ok cohort rates days sound h r d =
    let base = *ℚ-IsNonNegative rates.profession_xp days r d in
    elim (Bool-cases
      (eqb_ℤ cohort.catch_up_xp_bonus_bps (pos 0) || eqb_ℤ cohort.catch_up_active_days (pos 0))) [
        | inl e ↦ (rates.profession_xp *ℚ days, rw e refl, base)
        | inr e ↦
            let c = catch_up-ok cohort sound h in
            (
              boosted_xp cohort rates days c.0,
              rw e (rw c.1 refl),
              boosted-IsNonNegative cohort rates days c.0 sound r d c.2,
            )
      ]

share_bps-ok : (part whole : Fraction) → (n : ℤ) × (share_bps part whole ≡ ok n)
unfolding share_bps
share_bps-ok part whole = elim (Bool-cases (whole.credit == whole.debit)) [
  | inl e ↦ (pos 0, rw e refl)
  | inr e ↦
      let share = divide-ok (part *ℚ of_int (pos basis_points)) whole e in
      (truncate share.0, rw e (rw share.1 refl))
]

last-ok {ℓ} : {A : Type ℓ} (x : A) (xs : List A) → (y : A) × (last (x ∷ xs) ≡ ok y)
unfolding last
last-ok x [] = (x, refl)
last-ok x (y ∷ ys) = last-ok y ys

reaches-zero :
    (n : ℤ) (xp : Fraction) → eqb_ℤ n (pos 0) ≡ true → IsNonNegative xp → leb_ℚ (of_int n) xp ≡ true
reaches-zero n xp e h = rw (eq_of_parts n (pos 0) (ground arith)) (leb_ℚ-zero xp h)

select-first-ok :
    (us : List Unlock) (xp : Fraction)
    → elim us [ [] ↦ false | u ∷ _ ↦ eqb_ℤ u.profession_xp (pos 0) ] ≡ true
    → IsNonNegative xp
    → (u : Unlock) × (last (select (λ v. leb_ℚ (of_int v.profession_xp) xp) us) ≡ ok u)
select-first-ok [] xp first h = ground arith
select-first-ok (u ∷ us) xp first h = rw (reaches-zero u.profession_xp xp first h) (last-ok u _)

reached-ok :
    (model : EconomyModel) (xp : Fraction)
    → first_unlock_is_zero model ≡ true
    → IsNonNegative xp
    → (u : Unlock) × (last (reached_unlocks model xp) ≡ ok u)
unfolding reached_unlocks first_unlock_is_zero
reached-ok model xp first h = select-first-ok model.unlocks xp first h

-- A validated model projects every validated cohort that gains experience at every horizon of no
-- negative length: `project` returns, and what it returns is balanced.
pub project_returns :
    (model : EconomyModel) (cohort : Cohort) (horizon : Horizon)
    → validate_model model ≡ ok tt
    → validate_cohort model cohort ≡ ok tt
    → pos 0 ≤ℤ model.activity.profession_xp_per_rewarded_action
    → pos 0 ≤ℤ cohort.catch_up_active_days
    → pos 0 ≤ℤ horizon.days
    → (p : Projection) × (project model cohort horizon ≡ ok p) × IsBalanced model p
unfolding project profession_xp_at_days
project_returns model cohort horizon valid valid_cohort gain catch_up days =
    let sound = validated-IsSound model valid in
    let sound_cohort = cohort-IsSound model cohort valid_cohort in
    let r = daily_rates-ok model cohort sound in
    let rates = rates_of model cohort r.0 r.1 in
    let xp =
      xp_after-ok cohort rates (of_int horizon.days) sound_cohort catch_up
        (profession_xp-IsNonNegative model cohort r.0 r.1 sound sound_cohort gain)
        (of_int-IsNonNegative _ days) in
    let latest = reached-ok model xp.0 sound.first_zero xp.2 in
    let share = share_bps-ok rates.daily_claim_income rates.gross_income in
    let ratio =
      share_bps-ok
        (recurring_spend_of rates (of_int horizon.days)
          +ℚ milestone_spend_of rates (of_int horizon.days)
              (milestone_cost (reached_unlocks model xp.0)))
        (rates.gross_income *ℚ of_int horizon.days) in
    (
      projection_of model cohort horizon rates xp.0 latest.0 share.0 ratio.0,
      rw r.2 (rw xp.1 (rw latest.1 (rw share.1 (rw ratio.1 refl)))),
      projection-IsBalanced model cohort horizon rates xp.0 latest.0 share.0 ratio.0,
    )
