-- ===== src/Examples/Economy.antt =====
-- The theorems on the economy model of src/butterbot/simulation/economy.py at a small model.
use butterbot.Base.{pos, [], ◌∷◌, ◌≡◌, refl, min_ℤ, arith, ◌+ℤ◌}
use butterbot.Result.{ok, err, value_error, AllOk}
use butterbot.Simulation.{Horizon, Cohort, EconomyModel, Projection}
use butterbot.Simulation.Fractions.{of_int, ◌≤ℚ◌}
use butterbot.Simulation.Loading.{Toml, Entries, load_model, get, as_mapping}
use butterbot.Simulation.Projecting.{project}
use butterbot.Simulation.Projecting.Balanced.{IsBalanced}
use butterbot.Simulation.Projecting.Total.{project_returns}
use butterbot.Simulation.Rates.{rewarded_actions_per_active_day}
use butterbot.Simulation.Rates.Capped.{rewarded_actions_capped}
use butterbot.Simulation.Validation.{
  validate_model, validate_cohort, refuse_if, is_sorted_by, first_unlock_is_zero, validate_cohorts,
}
use butterbot.Simulation.Worksheets.{render_worksheets}
use butterbot.Simulation.Worksheets.Width.{AllFit, render_worksheets_lem}

abbrev regular : Cohort
regular = record {
  key = "regular";
  label = "Regular";
  active_days_per_week = pos 5;
  actions_per_active_day = pos 40;
  claim_days_per_week = pos 6;
  weekly_objective_completion_bps = pos 7500;
  economic_yield_bonus_bps = pos 500;
  aspirational_sink_participation_bps = pos 2500;
  launch_population_bps = pos 10000;
  catch_up_xp_bonus_bps = pos 5000;
  catch_up_active_days = pos 10;
}

abbrev month : Horizon
month = record { key = "month"; days = pos 30 }

abbrev small_model : EconomyModel
small_model = record {
  version = "test";
  horizons = month ∷ [];
  activity = record {
    full_reward_actions_per_active_day = pos 30;
    overflow_reward_bps = pos 2500;
    material_units_ev_numerator = pos 3;
    material_units_ev_denominator = pos 2;
    material_npc_value = pos 4;
    material_sale_bps = pos 6000;
    direct_coin_ev_numerator = pos 1;
    direct_coin_ev_denominator = pos 5;
    source_variance_per_rewarded_action = pos 9;
    profession_xp_per_rewarded_action = pos 10;
    account_xp_per_rewarded_action = pos 2;
    conversion_commands_per_100_actions = pos 8;
    spending_commands_per_100_actions = pos 4;
    inspection_commands_per_active_day = pos 3;
    maximum_economic_yield_bonus_bps = pos 1000;
  };
  cadence_rewards = record {
    daily_claim_coins = pos 50;
    weekly_objective_coins = pos 200;
    weekly_objective_account_xp = pos 100;
  };
  sinks = record {
    tool_charge_coins_per_action = pos 1;
    crafting_coins_per_economic_action = pos 1;
    npc_supplies_coins_per_economic_action = pos 1;
    aspirational_coins_per_economic_action = pos 2;
    material_consumption_bps_of_retained = pos 5000;
    sink_variance_per_economic_action = pos 4;
  };
  unlocks =
      record {
        key = "start";
        label = "Start";
        profession_xp = pos 0;
        recommended_purchase_cost = pos 0;
      }
      ∷ record {
        key = "rank_2";
        label = "Rank 2";
        profession_xp = pos 5000;
        recommended_purchase_cost = pos 800;
      }
      ∷ [];
  cohorts = regular ∷ [];
  sensitivities = [];
}

small_model-valid : validate_model small_model ≡ ok tt
unfolding validate_model refuse_if is_sorted_by first_unlock_is_zero validate_cohorts
    validate_cohort ◌+ℤ◌
small_model-valid = refl

regular-valid : validate_cohort small_model regular ≡ ok tt
unfolding validate_cohort refuse_if
regular-valid = refl

project_returns_example :
    (p : Projection) × (project small_model regular month ≡ ok p) × IsBalanced small_model p
project_returns_example =
    project_returns small_model regular month small_model-valid regular-valid (omega arith)
      (omega arith) (omega arith)

rewarded_actions_capped_example :
    (of_int (pos 30) ≤ℚ rewarded_actions_per_active_day small_model regular)
    × (rewarded_actions_per_active_day small_model regular ≤ℚ of_int (pos 40))
unfolding min_ℤ
rewarded_actions_capped_example =
    rewarded_actions_capped small_model regular small_model-valid regular-valid

render_worksheets_lem_example : AllOk AllFit (render_worksheets small_model)
render_worksheets_lem_example = render_worksheets_lem small_model

-- A table with no sections is refused.
no_sections_refused : load_model (Toml.table Entries.no_entry) ≡ err value_error
unfolding load_model as_mapping get
no_sections_refused = refl
