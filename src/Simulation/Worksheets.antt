-- ===== src/Simulation/Worksheets.antt =====
-- The worksheets of src/butterbot/simulation/economy.py: `render_projection_worksheet` to
-- `render_worksheets`, up to the text of a number and the quoting of the csv module.
pub mod Width
use butterbot.Base.{ℕ, ℤ, pos, String, Bool, List, [], ◌∷◌, ◌++◌, map, if◌then◌else◌, ◌==◌}
use butterbot.Result.{Result, ok, err, ◌>>=◌, ◌>>◌}
use butterbot.Simulation.{basis_points, Horizon, Unlock, Cohort, EconomyModel, Projection}
use butterbot.Simulation.Fractions.{Fraction, of_int, ◌+ℚ◌, ◌-ℚ◌, ◌*ℚ◌, ◌/ℕ◌}
use butterbot.Simulation.Progress.{days_to_profession_xp}
use butterbot.Simulation.Projecting.{project, share_bps}
use butterbot.Simulation.Rates.{daily_rates}

-- `decimal x` is `_decimal(x)`, `deviation x` is `_standard_deviation(x)`.
pub data Cell : Type 0 where
  word : String → Cell
  number : ℤ → Cell
  decimal : Fraction → Cell
  deviation : Fraction → Cell

pub record Worksheet : Type 0 where
  pub header : List String
  pub rows : List (List Cell)

-- A row for each entry; the first exception ends the rendering.
unfoldable pub rows_for {ℓ} :
    {A : Type ℓ} → (A → Result (List (List Cell))) → List A → Result (List (List Cell))
rows_for render [] = ok []
rows_for render (x ∷ xs) = do first ← render x; rest ← rows_for render xs; ok (first ++ rest)

abbrev pub projection_header : List String
projection_header =
    "model_version" ∷ "cohort" ∷ "horizon" ∷ "calendar_days" ∷ "actions_per_day"
    ∷ "commands_per_day" ∷ "expected_actions" ∷ "expected_commands" ∷ "expected_income_coins"
    ∷ "source_standard_deviation_coins" ∷ "recurring_sink_spend_coins"
    ∷ "milestone_sink_spend_coins" ∷ "expected_spending_coins" ∷ "sink_standard_deviation_coins"
    ∷ "coin_stockpile" ∷ "material_stockpile_units" ∷ "profession_xp" ∷ "account_xp"
    ∷ "latest_major_unlock" ∷ "daily_reward_share_bps" ∷ "sink_source_ratio_bps"
    ∷ "unfunded_sink_demand_coins" ∷ []

unfoldable pub projection_row : EconomyModel → Cohort → Horizon → Result (List (List Cell))
projection_row model cohort horizon = do
  result ← project model cohort horizon
  ok (
      (word model.version
        ∷ word cohort.key
        ∷ word horizon.key
        ∷ number horizon.days
        ∷ decimal result.rates.actions
        ∷ decimal result.rates.commands
        ∷ decimal result.expected_actions
        ∷ decimal result.expected_commands
        ∷ decimal result.gross_income
        ∷ deviation result.source_variance
        ∷ decimal result.recurring_sink_spend
        ∷ decimal result.milestone_sink_spend
        ∷ decimal result.total_spending
        ∷ deviation result.sink_variance
        ∷ decimal result.coin_stockpile
        ∷ decimal result.material_stockpile
        ∷ decimal result.profession_xp
        ∷ decimal result.account_xp
        ∷ word result.latest_unlock.key
        ∷ number result.daily_reward_share_bps
        ∷ number result.sink_source_ratio_bps
        ∷ decimal result.unfunded_sink_demand
        ∷ [])
      ∷ [])

unfoldable pub render_projection_worksheet : EconomyModel → Result Worksheet
render_projection_worksheet model = do
  rows ← rows_for (λ c. rows_for (projection_row model c) model.horizons) model.cohorts
  ok record { header = projection_header; rows = rows }

abbrev pub source_sink_header : List String
source_sink_header =
    "model_version" ∷ "cohort" ∷ "daily_action_source_ev" ∷ "daily_claim_source_ev"
    ∷ "weekly_objective_source_ev_per_day" ∷ "total_source_ev_per_day" ∷ "source_variance_per_day"
    ∷ "tool_charge_sink_ev_per_day" ∷ "crafting_sink_ev_per_day" ∷ "npc_supplies_sink_ev_per_day"
    ∷ "aspirational_sink_ev_per_day" ∷ "total_recurring_sink_ev_per_day"
    ∷ "recurring_sink_variance_per_day" ∷ []

unfoldable pub source_sink_row : EconomyModel → Cohort → Result (List (List Cell))
source_sink_row model cohort = do
  rates ← daily_rates model cohort
  ok (
      (word model.version
        ∷ word cohort.key
        ∷ decimal rates.action_income
        ∷ decimal rates.daily_claim_income
        ∷ decimal rates.weekly_objective_income
        ∷ decimal rates.gross_income
        ∷ decimal rates.source_variance
        ∷ decimal rates.tool_charge_sink
        ∷ decimal rates.crafting_sink
        ∷ decimal rates.npc_supplies_sink
        ∷ decimal rates.aspirational_sink
        ∷ decimal rates.recurring_sink_demand
        ∷ decimal rates.sink_variance
        ∷ [])
      ∷ [])

unfoldable pub render_source_sink_worksheet : EconomyModel → Result Worksheet
render_source_sink_worksheet model = do
  rows ← rows_for (source_sink_row model) model.cohorts
  ok record { header = source_sink_header; rows = rows }

abbrev pub milestone_header : List String
milestone_header =
    "model_version" ∷ "cohort" ∷ "major_unlock" ∷ "profession_xp_required" ∷ "elapsed_calendar_days"
    ∷ "expected_commands" ∷ "recommended_purchase_cost_coins" ∷ []

unfoldable pub milestone_row : EconomyModel → Cohort → Unlock → Result (List (List Cell))
milestone_row model cohort unlock = do
  rates ← daily_rates model cohort
  elapsed_days ← days_to_profession_xp model cohort unlock.profession_xp
  ok (
      (word model.version
        ∷ word cohort.key
        ∷ word unlock.key
        ∷ number unlock.profession_xp
        ∷ decimal elapsed_days
        ∷ decimal (elapsed_days *ℚ rates.commands)
        ∷ number unlock.recommended_purchase_cost
        ∷ [])
      ∷ [])

unfoldable pub render_milestone_worksheet : EconomyModel → Result Worksheet
render_milestone_worksheet model = do
  rows ←
      rows_for (λ c. daily_rates model c >> rows_for (milestone_row model c) model.unlocks)
        model.cohorts
  ok record { header = milestone_header; rows = rows }

abbrev pub sensitivity_header : List String
sensitivity_header =
    "model_version" ∷ "sensitivity" ∷ "horizon" ∷ "actions_per_day" ∷ "expected_income_coins"
    ∷ "expected_spending_coins" ∷ "coin_stockpile" ∷ "profession_xp" ∷ "daily_reward_share_bps"
    ∷ "sink_source_ratio_bps" ∷ []

unfoldable pub sensitivity_row : EconomyModel → Cohort → Horizon → Result (List (List Cell))
sensitivity_row model cohort horizon = do
  result ← project model cohort horizon
  ok (
      (word model.version
        ∷ word cohort.key
        ∷ word horizon.key
        ∷ decimal result.rates.actions
        ∷ decimal result.gross_income
        ∷ decimal result.total_spending
        ∷ decimal result.coin_stockpile
        ∷ decimal result.profession_xp
        ∷ number result.daily_reward_share_bps
        ∷ number result.sink_source_ratio_bps
        ∷ [])
      ∷ [])

unfoldable pub render_sensitivity_worksheet : EconomyModel → Result Worksheet
render_sensitivity_worksheet model = do
  rows ← rows_for (λ c. rows_for (sensitivity_row model c) model.horizons) model.sensitivities
  ok record { header = sensitivity_header; rows = rows }

abbrev pub population : ℕ
population = 1000

unfoldable pub project_all : EconomyModel → Horizon → List Cohort → Result (List Projection)
project_all model horizon [] = ok []
project_all model horizon (c ∷ cs) = do
  first ← project model c horizon
  rest ← project_all model horizon cs
  ok (first ∷ rest)

-- `sum(amount * launch_population_bps * population / basis_points)` over the projections.
unfoldable pub launch_total : (Projection → Fraction) → List Projection → Fraction
launch_total amount [] = of_int (pos 0)
launch_total amount (p ∷ ps) =
    amount p *ℚ of_int p.cohort.launch_population_bps *ℚ of_int (pos population) /ℕ basis_points
    +ℚ launch_total amount ps

abbrev pub supply_pressure_header : List String
supply_pressure_header =
    "model_version" ∷ "horizon" ∷ "modeled_active_players" ∷ "cumulative_minted_coins"
    ∷ "cumulative_destroyed_coins" ∷ "net_new_supply_coins" ∷ "net_supply_bps_of_minted"
    ∷ "average_wallet_coins" ∷ "unfunded_sink_demand_coins" ∷ []

unfoldable pub supply_pressure_row : EconomyModel → Horizon → Result (List (List Cell))
supply_pressure_row model horizon = do
  results ← project_all model horizon model.cohorts
  let gross_income = launch_total (λ p. p.gross_income) results
  let destroyed = launch_total (λ p. p.total_spending) results
  let net_new_supply = gross_income -ℚ destroyed
  share ← share_bps net_new_supply gross_income
  ok (
      (word model.version
        ∷ word horizon.key
        ∷ number (pos population)
        ∷ decimal gross_income
        ∷ decimal destroyed
        ∷ decimal net_new_supply
        ∷ number share
        ∷ decimal (net_new_supply /ℕ population)
        ∷ decimal (launch_total (λ p. p.unfunded_sink_demand) results)
        ∷ [])
      ∷ [])

unfoldable pub render_supply_pressure_worksheet : EconomyModel → Result Worksheet
render_supply_pressure_worksheet model = do
  rows ← rows_for (supply_pressure_row model) model.horizons
  ok record { header = supply_pressure_header; rows = rows }

unfoldable pub render_worksheets : EconomyModel → Result (List (String × Worksheet))
render_worksheets model = do
  projection ← render_projection_worksheet model
  source_sink ← render_source_sink_worksheet model
  milestones ← render_milestone_worksheet model
  sensitivities ← render_sensitivity_worksheet model
  supply_pressure ← render_supply_pressure_worksheet model
  ok (
      ("phase0_projection.csv", projection)
      ∷ ("phase0_source_sink.csv", source_sink)
      ∷ ("phase0_milestones.csv", milestones)
      ∷ ("phase0_sensitivities.csv", sensitivities)
      ∷ ("phase0_supply_pressure.csv", supply_pressure)
      ∷ [])
