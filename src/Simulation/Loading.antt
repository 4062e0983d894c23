-- ===== src/Simulation/Loading.antt =====
-- Reading the assumptions in src/butterbot/simulation/economy.py: `_as_mapping` to `load_model`, on
-- the table that `tomllib` has parsed.
use butterbot.Base.{ℤ, pos, String, Bool, Option, none, some, List, [], ◌∷◌, str_eq, if◌then◌else◌}
use butterbot.Result.{Result, ok, err, value_error, ◌>>=◌, ◌>>◌}
use butterbot.Simulation.{Horizon, Unlock, Cohort, Activity, CadenceRewards, Sinks, EconomyModel}
use butterbot.Simulation.Validation.{validate_model}

-- What `tomllib` returns. A key of a table is found at its first entry.
mutual
  pub data Toml : Type 0 where
    text : String → Toml
    integer : ℤ → Toml
    boolean : Bool → Toml
    float_or_time : Toml
    array : Elements → Toml
    table : Entries → Toml

  pub data Elements : Type 0 where
    no_element : Elements
    element : Toml → Elements → Elements

  pub data Entries : Type 0 where
    no_entry : Entries
    entry : String → Toml → Entries → Entries

-- `table.get(key)`
unfoldable pub get : Entries → String → Option Toml
get no_entry key = none
get (entry k v rest) key = if str_eq k key then some v else get rest key

unfoldable pub as_mapping : Option Toml → Result Entries
as_mapping (some (table t)) = ok t
as_mapping _ = err value_error

unfoldable pub as_sequence : Option Toml → Result Elements
as_sequence (some (array xs)) = ok xs
as_sequence _ = err value_error

unfoldable pub non_empty : Option Toml → Result String
non_empty (some (text s)) = if str_eq s "" then err value_error else ok s
non_empty _ = err value_error

unfoldable pub string : Entries → String → Result String
string t key = non_empty (get t key)

-- A Boolean is no integer here, though it is one in Python.
unfoldable pub as_integer : Option Toml → Result ℤ
as_integer (some (integer n)) = ok n
as_integer _ = err value_error

unfoldable pub integer_of : Entries → String → Result ℤ
integer_of t key = as_integer (get t key)

-- `_integer(table, key, default=n)`
unfoldable pub integer_or : Entries → String → ℤ → Result ℤ
integer_or t key n = elim (get t key) [ none ↦ ok n | some v ↦ as_integer (some v) ]

unfoldable pub parse_all {ℓ} : {A : Type ℓ} → (Entries → Result A) → Elements → Result (List A)
parse_all parse no_element = ok []
parse_all parse (element x xs) = do
  t ← as_mapping (some x)
  a ← parse t
  rest ← parse_all parse xs
  ok (a ∷ rest)

unfoldable pub parse_horizon : Entries → Result Horizon
parse_horizon t = do
  key ← string t "key"
  days ← integer_of t "days"
  ok record { key = key; days = days }

unfoldable pub parse_unlock : Entries → Result Unlock
parse_unlock t = do
  key ← string t "key"
  label ← string t "label"
  xp ← integer_of t "profession_xp"
  cost ← integer_of t "recommended_purchase_cost"
  ok record { key = key; label = label; profession_xp = xp; recommended_purchase_cost = cost }

unfoldable pub parse_cohort : Entries → Result Cohort
parse_cohort t = do
  key ← string t "key"
  label ← string t "label"
  active ← integer_of t "active_days_per_week"
  actions ← integer_of t "actions_per_active_day"
  claims ← integer_of t "claim_days_per_week"
  completion ← integer_of t "weekly_objective_completion_bps"
  bonus ← integer_of t "economic_yield_bonus_bps"
  participation ← integer_of t "aspirational_sink_participation_bps"
  population ← integer_or t "launch_population_bps" (pos 0)
  catch_up ← integer_or t "catch_up_xp_bonus_bps" (pos 0)
  catch_up_days ← integer_or t "catch_up_active_days" (pos 0)
  ok record {
    key = key;
    label = label;
    active_days_per_week = active;
    actions_per_active_day = actions;
    claim_days_per_week = claims;
    weekly_objective_completion_bps = completion;
    economic_yield_bonus_bps = bonus;
    aspirational_sink_participation_bps = participation;
    launch_population_bps = population;
    catch_up_xp_bonus_bps = catch_up;
    catch_up_active_days = catch_up_days;
  }

unfoldable pub parse_activity : Entries → Result Activity
parse_activity t = do
  full ← integer_of t "full_reward_actions_per_active_day"
  overflow ← integer_of t "overflow_reward_bps"
  units ← integer_of t "material_units_ev_numerator"
  units_den ← integer_of t "material_units_ev_denominator"
  npc_value ← integer_of t "material_npc_value"
  sale ← integer_of t "material_sale_bps"
  coins ← integer_of t "direct_coin_ev_numerator"
  coins_den ← integer_of t "direct_coin_ev_denominator"
  variance ← integer_of t "source_variance_per_rewarded_action"
  profession ← integer_of t "profession_xp_per_rewarded_action"
  account ← integer_of t "account_xp_per_rewarded_action"
  conversion ← integer_of t "conversion_commands_per_100_actions"
  spending ← integer_of t "spending_commands_per_100_actions"
  inspection ← integer_of t "inspection_commands_per_active_day"
  maximum ← integer_of t "maximum_economic_yield_bonus_bps"
  ok record {
    full_reward_actions_per_active_day = full;
    overflow_reward_bps = overflow;
    material_units_ev_numerator = units;
    material_units_ev_denominator = units_den;
    material_npc_value = npc_value;
    material_sale_bps = sale;
    direct_coin_ev_numerator = coins;
    direct_coin_ev_denominator = coins_den;
    source_variance_per_rewarded_action = variance;
    profession_xp_per_rewarded_action = profession;
    account_xp_per_rewarded_action = account;
    conversion_commands_per_100_actions = conversion;
    spending_commands_per_100_actions = spending;
    inspection_commands_per_active_day = inspection;
    maximum_economic_yield_bonus_bps = maximum;
  }

unfoldable pub parse_cadence_rewards : Entries → Result CadenceRewards
parse_cadence_rewards t = do
  claim ← integer_of t "daily_claim_coins"
  weekly ← integer_of t "weekly_objective_coins"
  weekly_xp ← integer_of t "weekly_objective_account_xp"
  ok record {
    daily_claim_coins = claim;
    weekly_objective_coins = weekly;
    weekly_objective_account_xp = weekly_xp;
  }

unfoldable pub parse_sinks : Entries → Result Sinks
parse_sinks t = do
  tool ← integer_of t "tool_charge_coins_per_action"
  crafting ← integer_of t "crafting_coins_per_economic_action"
  supplies ← integer_of t "npc_supplies_coins_per_economic_action"
  aspirational ← integer_of t "aspirational_coins_per_economic_action"
  consumption ← integer_of t "material_consumption_bps_of_retained"
  variance ← integer_of t "sink_variance_per_economic_action"
  ok record {
    tool_charge_coins_per_action = tool;
    crafting_coins_per_economic_action = crafting;
    npc_supplies_coins_per_economic_action = supplies;
    aspirational_coins_per_economic_action = aspirational;
    material_consumption_bps_of_retained = consumption;
    sink_variance_per_economic_action = variance;
  }

-- `validate_model(result)`, then `return result`
abbrev pub validated : EconomyModel → Result EconomyModel
validated model = validate_model model >> ok model

-- `load_model`, from what `tomllib.loads` returns.
unfoldable pub load_model : Toml → Result EconomyModel
load_model loaded = do
  root ← as_mapping (some loaded)
  model_table ← as_mapping (get root "model")
  activity_table ← as_mapping (get root "activity")
  rewards_table ← as_mapping (get root "cadence_rewards")
  sinks_table ← as_mapping (get root "sinks")
  horizon_items ← as_sequence (get root "horizons")
  horizons ← parse_all parse_horizon horizon_items
  unlock_items ← as_sequence (get root "unlocks")
  unlocks ← parse_all parse_unlock unlock_items
  cohort_items ← as_sequence (get root "cohorts")
  cohorts ← parse_all parse_cohort cohort_items
  sensitivity_items ← as_sequence (get root "sensitivities")
  sensitivities ← parse_all parse_cohort sensitivity_items
  activity ← parse_activity activity_table
  cadence_rewards ← parse_cadence_rewards rewards_table
  sinks ← parse_sinks sinks_table
  version ← string model_table "version"
  validated record {
    version = version;
    horizons = horizons;
    activity = activity;
    cadence_rewards = cadence_rewards;
    sinks = sinks;
    unlocks = unlocks;
    cohorts = cohorts;
    sensitivities = sensitivities;
  }
