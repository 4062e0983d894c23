-- ===== src/Simulation/Validation.antt =====
-- `validate_model` of src/butterbot/simulation/economy.py. Every complaint is a ValueError.
pub mod Sound
use butterbot.Base.{
  is_empty, ℤ, pos, Bool, true, false, not, ◌&&◌, ◌||◌, List, [], ◌∷◌, ◌++◌, ltb_ℤ, leb_ℤ, eqb_ℤ,
  sum_by, any, if◌then◌else◌,
}
use butterbot.Result.{Result, ok, err, value_error, ◌>>=◌, ◌>>◌}
use butterbot.Simulation.{basis_points, days_per_week, Cohort, EconomyModel}

-- `if refused: raise ValueError`
unfoldable pub refuse_if : Bool → Result (Unit {0})
refuse_if true = err value_error
refuse_if false = ok tt

-- `tuple(sorted(xs)) == tuple(xs)`
unfoldable pub is_sorted_by {ℓ} : {A : Type ℓ} → (A → ℤ) → List A → Bool
is_sorted_by f [] = true
is_sorted_by f (x ∷ []) = true
is_sorted_by f (x ∷ y ∷ ys) = leb_ℤ (f x) (f y) && is_sorted_by f (y ∷ ys)

-- Some value is no share in basis points.
abbrev pub any_outside_bps : List ℤ → Bool
any_outside_bps values = any (λ v. ltb_ℤ v (pos 0) || ltb_ℤ (pos basis_points) v) values

unfoldable pub first_unlock_is_zero : EconomyModel → Bool
first_unlock_is_zero model = elim model.unlocks [
  | [] ↦ false
  | u ∷ us ↦ eqb_ℤ u.profession_xp (pos 0)
]

unfoldable pub validate_cohort : EconomyModel → Cohort → Result (Unit {0})
validate_cohort model c = do
  refuse_if (
      not
        (leb_ℤ (pos 1) c.active_days_per_week && leb_ℤ c.active_days_per_week (pos days_per_week)))
  refuse_if
      (not (leb_ℤ (pos 0) c.claim_days_per_week && leb_ℤ c.claim_days_per_week (pos days_per_week)))
  refuse_if (ltb_ℤ c.actions_per_active_day (pos 0))
  refuse_if (
      any_outside_bps (
        c.weekly_objective_completion_bps ∷ c.economic_yield_bonus_bps
        ∷ c.aspirational_sink_participation_bps ∷ c.launch_population_bps ∷ c.catch_up_xp_bonus_bps
        ∷ []))
  refuse_if (ltb_ℤ model.activity.maximum_economic_yield_bonus_bps c.economic_yield_bonus_bps)

unfoldable pub validate_cohorts : EconomyModel → List Cohort → Result (Unit {0})
validate_cohorts model [] = ok tt
validate_cohorts model (c ∷ cs) = validate_cohort model c >> validate_cohorts model cs

unfoldable pub validate_model : EconomyModel → Result (Unit {0})
validate_model model = do
  refuse_if (is_empty model.horizons || is_empty model.cohorts || is_empty model.unlocks)
  refuse_if (not (is_sorted_by (λ h. h.days) model.horizons))
  refuse_if (not (is_sorted_by (λ u. u.profession_xp) model.unlocks))
  refuse_if (not (first_unlock_is_zero model))
  refuse_if (leb_ℤ model.activity.full_reward_actions_per_active_day (pos 0))
  refuse_if (leb_ℤ model.activity.material_units_ev_denominator (pos 0))
  refuse_if (leb_ℤ model.activity.direct_coin_ev_denominator (pos 0))
  refuse_if (
      any_outside_bps (
        model.activity.overflow_reward_bps ∷ model.activity.material_sale_bps
        ∷ model.activity.maximum_economic_yield_bonus_bps
        ∷ model.sinks.material_consumption_bps_of_retained ∷ []))
  validate_cohorts model (model.cohorts ++ model.sensitivities)
  refuse_if (not (eqb_ℤ (sum_by (λ c. c.launch_population_bps) model.cohorts) (pos basis_points)))
