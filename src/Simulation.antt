-- ===== src/Simulation.antt =====
-- The economy model of src/butterbot/simulation/economy.py: its assumptions and its outputs.
pub mod Fractions
pub mod Validation
pub mod Loading
pub mod Rates
pub mod Progress
pub mod Projecting
pub mod Worksheets
use butterbot.Base.{ℕ, ℤ, pos, String, List}
use butterbot.Simulation.Fractions.{Fraction}

abbrev pub basis_points : ℕ
basis_points = 10000

abbrev pub days_per_week : ℕ
days_per_week = 7

pub record Horizon : Type 0 where
  pub key : String
  pub days : ℤ

pub record Unlock : Type 0 where
  pub key : String
  pub label : String
  pub profession_xp : ℤ
  pub recommended_purchase_cost : ℤ

pub record Cohort : Type 0 where
  pub key : String
  pub label : String
  pub active_days_per_week : ℤ
  pub actions_per_active_day : ℤ
  pub claim_days_per_week : ℤ
  pub weekly_objective_completion_bps : ℤ
  pub economic_yield_bonus_bps : ℤ
  pub aspirational_sink_participation_bps : ℤ
  pub launch_population_bps : ℤ
  pub catch_up_xp_bonus_bps : ℤ
  pub catch_up_active_days : ℤ

pub record Activity : Type 0 where
  pub full_reward_actions_per_active_day : ℤ
  pub overflow_reward_bps : ℤ
  pub material_units_ev_numerator : ℤ
  pub material_units_ev_denominator : ℤ
  pub material_npc_value : ℤ
  pub material_sale_bps : ℤ
  pub direct_coin_ev_numerator : ℤ
  pub direct_coin_ev_denominator : ℤ
  pub source_variance_per_rewarded_action : ℤ
  pub profession_xp_per_rewarded_action : ℤ
  pub account_xp_per_rewarded_action : ℤ
  pub conversion_commands_per_100_actions : ℤ
  pub spending_commands_per_100_actions : ℤ
  pub inspection_commands_per_active_day : ℤ
  pub maximum_economic_yield_bonus_bps : ℤ

pub record CadenceRewards : Type 0 where
  pub daily_claim_coins : ℤ
  pub weekly_objective_coins : ℤ
  pub weekly_objective_account_xp : ℤ

pub record Sinks : Type 0 where
  pub tool_charge_coins_per_action : ℤ
  pub crafting_coins_per_economic_action : ℤ
  pub npc_supplies_coins_per_economic_action : ℤ
  pub aspirational_coins_per_economic_action : ℤ
  pub material_consumption_bps_of_retained : ℤ
  pub sink_variance_per_economic_action : ℤ

pub record EconomyModel : Type 0 where
  pub version : String
  pub horizons : List Horizon
  pub activity : Activity
  pub cadence_rewards : CadenceRewards
  pub sinks : Sinks
  pub unlocks : List Unlock
  pub cohorts : List Cohort
  pub sensitivities : List Cohort

pub record DailyRates : Type 0 where
  pub actions : Fraction
  pub commands : Fraction
  pub rewarded_actions : Fraction
  pub economic_actions : Fraction
  pub action_income : Fraction
  pub daily_claim_income : Fraction
  pub weekly_objective_income : Fraction
  pub gross_income : Fraction
  pub tool_charge_sink : Fraction
  pub crafting_sink : Fraction
  pub npc_supplies_sink : Fraction
  pub aspirational_sink : Fraction
  pub recurring_sink_demand : Fraction
  pub source_variance : Fraction
  pub sink_variance : Fraction
  pub profession_xp : Fraction
  pub account_xp : Fraction
  pub material_stockpile : Fraction

pub record Projection : Type 0 where
  pub cohort : Cohort
  pub horizon : Horizon
  pub rates : DailyRates
  pub expected_actions : Fraction
  pub expected_commands : Fraction
  pub gross_income : Fraction
  pub recurring_sink_spend : Fraction
  pub milestone_sink_spend : Fraction
  pub total_spending : Fraction
  pub coin_stockpile : Fraction
  pub material_stockpile : Fraction
  pub profession_xp : Fraction
  pub account_xp : Fraction
  pub latest_unlock : Unlock
  pub daily_reward_share_bps : ℤ
  pub sink_source_ratio_bps : ℤ
  pub unfunded_sink_demand : Fraction
  pub source_variance : Fraction
  pub sink_variance : Fraction
