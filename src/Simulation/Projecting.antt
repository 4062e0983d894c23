-- ===== src/Simulation/Projecting.antt =====
-- `project` of src/butterbot/simulation/economy.py.
pub mod Balanced
pub mod Total
use butterbot.Base.{ℤ, pos, Bool, List, [], ◌∷◌, select, sum_by, if◌then◌else◌, not, ◌==◌}
use butterbot.Result.{Result, ok, err, out_of_range, ◌>>=◌, ◌>>◌}
use butterbot.Simulation.{
  basis_points, Horizon, Unlock, Cohort, EconomyModel, DailyRates, Projection,
}
use butterbot.Simulation.Fractions.{
  Fraction, of_int, ◌+ℚ◌, ◌-ℚ◌, ◌*ℚ◌, divide, leb_ℚ, min_ℚ, truncate,
}
use butterbot.Simulation.Progress.{profession_xp_at_days}
use butterbot.Simulation.Rates.{daily_rates}

-- `xs[-1]`, an IndexError on none.
unfoldable pub last {ℓ} : {A : Type ℓ} → List A → Result A
last [] = err out_of_range
last (x ∷ []) = ok x
last (x ∷ y ∷ ys) = last (y ∷ ys)

unfoldable pub reached_unlocks : EconomyModel → Fraction → List Unlock
reached_unlocks model xp = select (λ u. leb_ℚ (of_int u.profession_xp) xp) model.unlocks

unfoldable pub milestone_cost : List Unlock → ℤ
milestone_cost reached = sum_by (λ u. u.recommended_purchase_cost) reached

-- `int(part * basis_points / whole) if whole else 0`
unfoldable pub share_bps : Fraction → Fraction → Result ℤ
share_bps part whole =
    if whole.credit == whole.debit
    then ok (pos 0)
    else (divide (part *ℚ of_int (pos basis_points)) whole >>= λ share. ok (truncate share))

-- The coins of a projection: what comes in, what the sinks take first, what the unlocks take of
-- the rest, and what stays.
unfoldable pub recurring_spend_of : DailyRates → Fraction → Fraction
recurring_spend_of rates days =
    min_ℚ (rates.gross_income *ℚ days) (rates.recurring_sink_demand *ℚ days)

unfoldable pub milestone_spend_of : DailyRates → Fraction → ℤ → Fraction
milestone_spend_of rates days milestone_demand =
    min_ℚ (rates.gross_income *ℚ days -ℚ recurring_spend_of rates days) (of_int milestone_demand)

-- The projection whose unlocks and shares are known.
unfoldable pub projection_of :
    EconomyModel → Cohort → Horizon → DailyRates → Fraction → Unlock → ℤ → ℤ → Projection
projection_of model cohort horizon rates profession_xp latest share ratio =
    let days = of_int horizon.days in
    let recurring_spend = recurring_spend_of rates days in
    let milestone_demand = milestone_cost (reached_unlocks model profession_xp) in
    let milestone_spend = milestone_spend_of rates days milestone_demand in
    record {
      cohort = cohort;
      horizon = horizon;
      rates = rates;
      expected_actions = rates.actions *ℚ days;
      expected_commands = rates.commands *ℚ days;
      gross_income = rates.gross_income *ℚ days;
      recurring_sink_spend = recurring_spend;
      milestone_sink_spend = milestone_spend;
      total_spending = recurring_spend +ℚ milestone_spend;
      coin_stockpile = rates.gross_income *ℚ days -ℚ (recurring_spend +ℚ milestone_spend);
      material_stockpile = rates.material_stockpile *ℚ days;
      profession_xp = profession_xp;
      account_xp = rates.account_xp *ℚ days;
      latest_unlock = latest;
      daily_reward_share_bps = share;
      sink_source_ratio_bps = ratio;
      unfunded_sink_demand =
          rates.recurring_sink_demand *ℚ days
          -ℚ recurring_spend
          +ℚ of_int milestone_demand
          -ℚ milestone_spend;
      source_variance = rates.source_variance *ℚ days;
      sink_variance = rates.sink_variance *ℚ days;
    }

unfoldable pub project : EconomyModel → Cohort → Horizon → Result Projection
project model cohort horizon = do
  rates ← daily_rates model cohort
  let days = of_int horizon.days
  profession_xp ← profession_xp_at_days model cohort days
  let reached = reached_unlocks model profession_xp
  latest ← last reached
  let total_spending =
      recurring_spend_of rates days +ℚ milestone_spend_of rates days (milestone_cost reached)
  share ← share_bps rates.daily_claim_income rates.gross_income
  ratio ← share_bps total_spending (rates.gross_income *ℚ days)
  ok (projection_of model cohort horizon rates profession_xp latest share ratio)
