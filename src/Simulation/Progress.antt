-- ===== src/Simulation/Progress.antt =====
-- `profession_xp_at_days` and `days_to_profession_xp` of src/butterbot/simulation/economy.py.
use butterbot.Base.{ℤ, pos, Bool, not, ◌&&◌, ◌||◌, ◌+ℤ◌, ◌*ℤ◌, eqb_ℤ, if◌then◌else◌}
use butterbot.Result.{Result, ok, err, value_error, ◌>>=◌}
use butterbot.Simulation.{basis_points, days_per_week, Cohort, EconomyModel, DailyRates}
use butterbot.Simulation.Fractions.{
  Fraction, of_int, fraction_of, ◌+ℚ◌, ◌-ℚ◌, ◌*ℚ◌, ◌/ℕ◌, divide, leb_ℚ, ltb_ℚ, min_ℚ,
}
use butterbot.Simulation.Rates.{daily_rates, bps}

-- `Fraction(cohort.catch_up_active_days * days_per_week, cohort.active_days_per_week)`
unfoldable pub catch_up_calendar_days : Cohort → Result Fraction
catch_up_calendar_days cohort =
    fraction_of (cohort.catch_up_active_days *ℤ pos days_per_week) cohort.active_days_per_week

-- `bonus and days`
abbrev pub has_catch_up : Cohort → Bool
has_catch_up cohort =
    not (eqb_ℤ cohort.catch_up_xp_bonus_bps (pos 0))
    && not (eqb_ℤ cohort.catch_up_active_days (pos 0))

unfoldable pub xp_after : Cohort → DailyRates → Fraction → Result Fraction
xp_after cohort rates days =
    let base_xp = rates.profession_xp *ℚ days in
    if eqb_ℤ cohort.catch_up_xp_bonus_bps (pos 0) || eqb_ℤ cohort.catch_up_active_days (pos 0)
    then ok base_xp
    else (catch_up_calendar_days cohort >>= λ catch_up.
        ok (
          base_xp +ℚ bps (rates.profession_xp *ℚ min_ℚ days catch_up) cohort.catch_up_xp_bonus_bps))

unfoldable pub profession_xp_at_days : EconomyModel → Cohort → Fraction → Result Fraction
profession_xp_at_days model cohort days = do
  rates ← daily_rates model cohort
  xp_after cohort rates days

-- `days_to_profession_xp` once the length of the catch-up is known.
unfoldable pub days_after : Cohort → DailyRates → ℤ → Fraction → Result Fraction
days_after cohort rates target_xp catch_up_calendar_days =
    let boosted_daily_xp =
      rates.profession_xp
      *ℚ of_int (pos basis_points +ℤ cohort.catch_up_xp_bonus_bps)
      /ℕ basis_points in
    let catch_up_xp = boosted_daily_xp *ℚ catch_up_calendar_days in
    if leb_ℚ (of_int target_xp) catch_up_xp && ltb_ℚ (of_int (pos 0)) catch_up_xp
    then divide (of_int target_xp) boosted_daily_xp
    else (divide (of_int target_xp -ℚ catch_up_xp) rates.profession_xp >>= λ more.
        ok (catch_up_calendar_days +ℚ more))

unfoldable pub days_to_positive : Cohort → DailyRates → ℤ → Result Fraction
days_to_positive cohort rates target_xp =
    if leb_ℚ rates.profession_xp (of_int (pos 0))
    then err value_error
    else ((if has_catch_up cohort then catch_up_calendar_days cohort else ok (of_int (pos 0)))
        >>= days_after cohort rates target_xp)

unfoldable pub days_to_profession_xp : EconomyModel → Cohort → ℤ → Result Fraction
days_to_profession_xp model cohort target_xp = do
  rates ← daily_rates model cohort
  if eqb_ℤ target_xp (pos 0) then ok (of_int (pos 0)) else days_to_positive cohort rates target_xp
