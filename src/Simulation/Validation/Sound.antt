-- ===== src/Simulation/Validation/Sound.antt =====
-- What a model and a cohort that src/butterbot/simulation/economy.py has validated satisfy.
use butterbot.Base.{
  ℤ, pos, Bool, true, false, ◌≡◌, refl, ◌≤ℤ◌, arith, List, [], ◌∷◌, not, &&-true, leb_ℤ→le,
  ltb_ℤ-false, leb_ℤ, ltb_ℤ, Bool-cases, inl, inr, ◌||◌,
}
use butterbot.Result.{Result, ok, ◌>>◌}
use butterbot.Simulation.{basis_points, Cohort, EconomyModel}
use butterbot.Simulation.Validation.{
  refuse_if, any_outside_bps, first_unlock_is_zero, validate_model, validate_cohort,
}

refuse_if-ok :
    (refused : Bool) (rest : Result (Unit {0}))
    → (refuse_if refused >> rest) ≡ ok tt
    → (refused ≡ false) × (rest ≡ ok tt)
unfolding refuse_if
refuse_if-ok true rest e = ground arith
refuse_if-ok false rest e = (refl, e)

below : (n : ℤ) → leb_ℤ n (pos 0) ≡ false → pos 1 ≤ℤ n
below n e = ground arith

pub above : (n : ℤ) → pos 1 ≤ℤ n → leb_ℤ n (pos 0) ≡ false
above n h = ground arith

-- What a validated model and a validated cohort are known to satisfy.
pub record IsSound (model : EconomyModel) : Type 0 where
  pub first_zero : first_unlock_is_zero model ≡ true
  pub allowance : pos 1 ≤ℤ model.activity.full_reward_actions_per_active_day
  pub units : pos 1 ≤ℤ model.activity.material_units_ev_denominator
  pub coins : pos 1 ≤ℤ model.activity.direct_coin_ev_denominator
  pub overflow : pos 0 ≤ℤ model.activity.overflow_reward_bps
  pub overflow_cap : model.activity.overflow_reward_bps ≤ℤ pos basis_points

pub record IsSoundCohort (cohort : Cohort) : Type 0 where
  pub active : pos 1 ≤ℤ cohort.active_days_per_week
  pub actions : pos 0 ≤ℤ cohort.actions_per_active_day
  pub bonus : pos 0 ≤ℤ cohort.catch_up_xp_bonus_bps

not-false : (b : Bool) → not b ≡ false → b ≡ true
not-false true e = refl
not-false false e = ground arith

abbrev AreShares : List ℤ → Type 0
AreShares [] = Unit
AreShares (v ∷ vs) = (pos 0 ≤ℤ v) × (v ≤ℤ pos basis_points) × AreShares vs

any_outside_bps-false : (vs : List ℤ) → any_outside_bps vs ≡ false → AreShares vs
any_outside_bps-false [] e = tt
any_outside_bps-false (v ∷ vs) e =
    elim (Bool-cases (ltb_ℤ v (pos 0) || ltb_ℤ (pos basis_points) v)) [
      | inl k ↦ ground arith
      | inr k ↦ (ground arith, ground arith, any_outside_bps-false vs (ground arith))
    ]

pub validated-IsSound : (model : EconomyModel) → validate_model model ≡ ok tt → IsSound model
unfolding validate_model
validated-IsSound model e =
    let s0 = refuse_if-ok _ _ e in
    let s1 = refuse_if-ok _ _ s0.1 in
    let s2 = refuse_if-ok _ _ s1.1 in
    let s3 = refuse_if-ok _ _ s2.1 in
    let s4 = refuse_if-ok _ _ s3.1 in
    let s5 = refuse_if-ok _ _ s4.1 in
    let s6 = refuse_if-ok _ _ s5.1 in
    let s7 = refuse_if-ok _ _ s6.1 in
    let shares =
      (any_outside_bps-false
        (model.activity.overflow_reward_bps ∷ model.activity.material_sale_bps
          ∷ model.activity.maximum_economic_yield_bonus_bps
          ∷ model.sinks.material_consumption_bps_of_retained ∷ [])
        s7.0) in
    record {
      first_zero = not-false _ s3.0;
      allowance = below _ s4.0;
      units = below _ s5.0;
      coins = below _ s6.0;
      overflow = shares.0;
      overflow_cap = shares.1;
    }

pub cohort-IsSound :
    (model : EconomyModel) (cohort : Cohort)
    → validate_cohort model cohort ≡ ok tt
    → IsSoundCohort cohort
unfolding validate_cohort
cohort-IsSound model cohort e =
    let s0 = refuse_if-ok _ _ e in
    let s1 = refuse_if-ok _ _ s0.1 in
    let s2 = refuse_if-ok _ _ s1.1 in
    let s3 = refuse_if-ok _ _ s2.1 in
    let shares =
      any_outside_bps-false
        (cohort.weekly_objective_completion_bps ∷ cohort.economic_yield_bonus_bps
          ∷ cohort.aspirational_sink_participation_bps ∷ cohort.launch_population_bps
          ∷ cohort.catch_up_xp_bonus_bps ∷ [])
        s3.0 in
    record {
      active =
          leb_ℤ→le (pos 1) cohort.active_days_per_week
            (&&-true (leb_ℤ (pos 1) cohort.active_days_per_week) _ (not-false _ s0.0)).0;
      actions = ltb_ℤ-false cohort.actions_per_active_day (pos 0) s2.0;
      bonus = shares.2.2.2.2.0;
    }
