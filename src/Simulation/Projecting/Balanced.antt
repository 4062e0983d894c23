-- ===== src/Simulation/Projecting/Balanced.antt =====
-- The coins of a projection of src/butterbot/simulation/economy.py are accounted for.
use butterbot.Base.{ℤ, pos}
use butterbot.Simulation.{Horizon, Unlock, Cohort, EconomyModel, DailyRates, Projection}
use butterbot.Simulation.Fractions.{Fraction, of_int, ◌+ℚ◌, ◌*ℚ◌, Same, ◌≤ℚ◌}
use butterbot.Simulation.Fractions.Order.{min_ℚ-≤_left, ≤ℚ_of-rest, Same-rest, Same-demand, rest-≤ℚ}
use butterbot.Simulation.Projecting.{
  projection_of, reached_unlocks, milestone_cost, recurring_spend_of, milestone_spend_of,
}

-- No more is spent than comes in, what is not spent stays, and every demand is spent or unfunded.
pub record IsBalanced (model : EconomyModel) (p : Projection) : Type 0 where
  within_income : p.total_spending ≤ℚ p.gross_income
  stockpile_positive : of_int (pos 0) ≤ℚ p.coin_stockpile
  kept : Same (p.total_spending +ℚ p.coin_stockpile) p.gross_income
  accounted : Same (p.total_spending +ℚ p.unfunded_sink_demand) (
      p.rates.recurring_sink_demand *ℚ of_int p.horizon.days
      +ℚ of_int (milestone_cost (reached_unlocks model p.profession_xp)))

total-within :
    (rates : DailyRates) (days : Fraction) (cost : ℤ)
    → recurring_spend_of rates days +ℚ milestone_spend_of rates days cost
      ≤ℚ rates.gross_income *ℚ days
unfolding milestone_spend_of
total-within rates days cost = ≤ℚ_of-rest _ _ _ (min_ℚ-≤_left _ _)

pub projection-IsBalanced :
    (model : EconomyModel) (cohort : Cohort) (horizon : Horizon) (rates : DailyRates)
    (xp : Fraction) (latest : Unlock) (share ratio : ℤ)
    → IsBalanced model (projection_of model cohort horizon rates xp latest share ratio)
unfolding projection_of
projection-IsBalanced model cohort horizon rates xp latest share ratio = record {
  within_income = total-within rates _ _;
  stockpile_positive = rest-≤ℚ _ _ (total-within rates _ _);
  kept = Same-rest _ _;
  accounted = Same-demand (recurring_spend_of rates _) _ _ _;
}
