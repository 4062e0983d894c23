-- ===== src/Simulation/Rates.antt =====
-- `_fraction`, `_bps`, `rewarded_actions_per_active_day` and `daily_rates` of
-- src/butterbot/simulation/economy.py.
pub mod Capped
use butterbot.Base.{ℤ, pos, ◌+ℤ◌, ◌-ℤ◌, leb_ℤ, min_ℤ, max_ℤ, if◌then◌else◌}
use butterbot.Result.{Result, ok, err, value_error, ◌>>=◌, ◌>>◌}
use butterbot.Simulation.{basis_points, days_per_week, Cohort, EconomyModel, DailyRates}
use butterbot.Simulation.Fractions.{Fraction, of_int, fraction_of, ◌+ℚ◌, ◌*ℚ◌, ◌/ℕ◌}

unfoldable pub fraction : ℤ → ℤ → Result Fraction
fraction numerator denominator =
    if leb_ℤ denominator (pos 0) then err value_error else fraction_of numerator denominator

unfoldable pub bps : Fraction → ℤ → Fraction
bps value points = value *ℚ of_int points /ℕ basis_points

-- `Fraction(n, days_per_week)`
abbrev pub per_week : ℤ → Fraction
per_week n = of_int n /ℕ days_per_week

unfoldable pub rewarded_actions_per_active_day : EconomyModel → Cohort → Fraction
rewarded_actions_per_active_day model cohort =
    let full =
      min_ℤ cohort.actions_per_active_day model.activity.full_reward_actions_per_active_day in
    let overflow =
      max_ℤ (pos 0)
        (cohort.actions_per_active_day -ℤ model.activity.full_reward_actions_per_active_day) in
    of_int full +ℚ bps (of_int overflow) model.activity.overflow_reward_bps

-- `daily_rates` once the two expected values are known.
unfoldable pub rates_of : EconomyModel → Cohort → Fraction → Fraction → DailyRates
rates_of model cohort material_ev direct_coin_ev =
    let a = model.activity in
    let sinks = model.sinks in
    let active_day_rate = per_week cohort.active_days_per_week in
    let claim_rate = per_week cohort.claim_days_per_week in
    let actions = active_day_rate *ℚ of_int cohort.actions_per_active_day in
    let rewarded_actions = active_day_rate *ℚ rewarded_actions_per_active_day model cohort in
    let economic_multiplier =
      of_int (pos basis_points +ℤ cohort.economic_yield_bonus_bps) /ℕ basis_points in
    let economic_actions = rewarded_actions *ℚ economic_multiplier in
    let action_income =
      economic_actions
      *ℚ (material_ev *ℚ of_int a.material_npc_value *ℚ of_int a.material_sale_bps /ℕ basis_points
          +ℚ direct_coin_ev) in
    let daily_claim_income = claim_rate *ℚ of_int model.cadence_rewards.daily_claim_coins in
    let weekly_objective_income =
      per_week model.cadence_rewards.weekly_objective_coins
      *ℚ of_int cohort.weekly_objective_completion_bps
      /ℕ basis_points in
    let tool_charge_sink = actions *ℚ of_int sinks.tool_charge_coins_per_action in
    let crafting_sink = economic_actions *ℚ of_int sinks.crafting_coins_per_economic_action in
    let npc_supplies_sink =
      economic_actions *ℚ of_int sinks.npc_supplies_coins_per_economic_action in
    let aspirational_sink =
      economic_actions
      *ℚ of_int sinks.aspirational_coins_per_economic_action
      *ℚ of_int cohort.aspirational_sink_participation_bps
      /ℕ basis_points in
    let retained_materials =
      material_ev
      *ℚ economic_actions
      *ℚ of_int (pos basis_points -ℤ a.material_sale_bps)
      /ℕ basis_points in
    record {
      actions = actions;
      commands =
          actions
          +ℚ claim_rate
          +ℚ actions *ℚ of_int a.conversion_commands_per_100_actions /ℕ 100
          +ℚ actions *ℚ of_int a.spending_commands_per_100_actions /ℕ 100
          +ℚ active_day_rate *ℚ of_int a.inspection_commands_per_active_day;
      rewarded_actions = rewarded_actions;
      economic_actions = economic_actions;
      action_income = action_income;
      daily_claim_income = daily_claim_income;
      weekly_objective_income = weekly_objective_income;
      gross_income = action_income +ℚ daily_claim_income +ℚ weekly_objective_income;
      tool_charge_sink = tool_charge_sink;
      crafting_sink = crafting_sink;
      npc_supplies_sink = npc_supplies_sink;
      aspirational_sink = aspirational_sink;
      recurring_sink_demand =
          tool_charge_sink +ℚ crafting_sink +ℚ npc_supplies_sink +ℚ aspirational_sink;
      source_variance =
          rewarded_actions
          *ℚ of_int a.source_variance_per_rewarded_action
          *ℚ economic_multiplier
          *ℚ economic_multiplier;
      sink_variance = economic_actions *ℚ of_int sinks.sink_variance_per_economic_action;
      profession_xp = rewarded_actions *ℚ of_int a.profession_xp_per_rewarded_action;
      account_xp =
          rewarded_actions *ℚ of_int a.account_xp_per_rewarded_action
          +ℚ per_week model.cadence_rewards.weekly_objective_account_xp
            *ℚ of_int cohort.weekly_objective_completion_bps
            /ℕ basis_points;
      material_stockpile =
          retained_materials
          *ℚ of_int (pos basis_points -ℤ sinks.material_consumption_bps_of_retained)
          /ℕ basis_points;
    }

unfoldable pub daily_rates : EconomyModel → Cohort → Result DailyRates
daily_rates model cohort = do
  material_ev ←
      fraction model.activity.material_units_ev_numerator
        model.activity.material_units_ev_denominator
  direct_coin_ev ←
      fraction model.activity.direct_coin_ev_numerator model.activity.direct_coin_ev_denominator
  ok (rates_of model cohort material_ev direct_coin_ev)
