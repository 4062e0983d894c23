-- ===== src/Examples/Configuring.antt =====
-- The settings of src/butterbot/discord_app/config.py in a production environment.
use butterbot.Base.{
  ℕ, String, true, Option, none, some, List, [], ◌∷◌, pos, ◌≡◌, ◌⊎◌, refl, str_eq, if◌then◌else◌,
}
use butterbot.Checked.{require, ◌then◌}
use butterbot.Configuration.Safety.{
  read_limit, ordered_policy, load_safety_policy, read_ids, load_development_operators, AreAccepted,
  IsOrderedPolicy, load_safety_policy-IsOrderedPolicy, load_development_operators-AreAccepted,
}
use butterbot.Examples.{start}
use butterbot.Exact.{require_int64}
use butterbot.Policy.{SafetyPolicy, safety_policy}
use butterbot.Configuration.{
  Platform, Settings, production_database_path, production_database_root, strict_bool,
  optional_identity, check_combination, load_settings, IsProductionReady,
  load_settings-IsProductionReady,
}

abbrev production_variable : String → Option String
production_variable name =
    if str_eq name "DISCORD_TOKEN"
    then some "token"
    else if str_eq name "BUTTERBOT_RELEASE_ID"
    then some "r-1.0"
    else if str_eq name "BUTTERBOT_DATABASE_PATH"
    then some production_database_path
    else if str_eq name "BUTTERBOT_DATABASE_ROOT"
    then some production_database_root
    else if str_eq name "BUTTERBOT_ECONOMY_MUTATIONS_ENABLED"
    then some "true"
    else if str_eq name "BUTTERBOT_DATABASE_VOLUME_ID"
    then some "8:1"
    else if str_eq name "BUTTERBOT_DATABASE_ADMINISTRATOR_UID"
    then some "100"
    else if str_eq name "BUTTERBOT_DATABASE_SERVICE_GROUP_GID"
    then some "200"
    else if str_eq name "BUTTERBOT_SAFETY_APPROVAL_THRESHOLD"
    then some "100"
    else if str_eq name "BUTTERBOT_SAFETY_OPERATION_CEILING"
    then some "200"
    else if str_eq name "BUTTERBOT_SAFETY_24H_CEILING"
    then some "200"
    else if str_eq name "BUTTERBOT_SAFETY_ALERT_DESTINATION"
    then some "local_log"
    else if str_eq name "BUTTERBOT_DEV_SAFETY_BOOTSTRAP_IDS"
    then some "100"
    else none

abbrev production_decimal : String → Option ℕ
production_decimal value =
    if str_eq value "100" then some 100 else if str_eq value "200" then some 200 else none

abbrev pub production_platform : Platform
production_platform = record {
  getenv = production_variable;
  strip = λ value. value;
  read_decimal = production_decimal;
  is_absolute = λ value. true;
  as_posix = λ value. value;
  split = λ value. value ∷ [];
}

abbrev pub production_settings : Settings
production_settings = record {
  discord_token = "token";
  release_id = "r-1.0";
  database_path = production_database_path;
  database_root = production_database_root;
  database_volume_id = some "8:1";
  economy_mutations_enabled = true;
  database_administrator_uid = some 100;
  database_service_group_gid = some 200;
}

load_settings-IsProductionReady_example : IsProductionReady production_platform production_settings
unfolding load_settings check_combination optional_identity strict_bool require ◌then◌
load_settings-IsProductionReady_example =
    load_settings-IsProductionReady production_platform production_settings refl refl

abbrev pub production_policy : SafetyPolicy
production_policy = record {
  approval_threshold = pos 100;
  per_operation_ceiling = pos 200;
  rolling_24h_ceiling = pos 200;
}

load_safety_policy-IsOrderedPolicy_example : IsOrderedPolicy production_policy
unfolding load_safety_policy safety_policy read_limit ordered_policy require_int64 require ◌then◌
load_safety_policy-IsOrderedPolicy_example =
    load_safety_policy-IsOrderedPolicy production_platform production_policy refl

load_development_operators-AreAccepted_example :
    ◌≡◌ {A = List ℕ} (100 ∷ []) [] ⊎ AreAccepted production_platform (100 ∷ []) start
unfolding load_development_operators read_ids require ◌then◌
load_development_operators-AreAccepted_example =
    load_development_operators-AreAccepted production_platform (100 ∷ []) start refl
