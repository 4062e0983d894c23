-- ===== src/Configuration.antt =====
-- `load_settings` of src/butterbot/discord_app/config.py. The environment and what Python's strings and
-- paths answer are arguments.
pub mod Safety
use butterbot.Base.{
  ℕ, String, Bool, true, false, not, ◌&&◌, ◌||◌, Option, none, some, is_some, List, [], ◌∷◌, all,
  length, leb, str_eq, ◌==◌, ◌≡◌, arith, if◌then◌else◌,
}
use butterbot.Checked.{Checked, refused, passed, require, ◌then◌, AllPassed, require-then, then-any}
use butterbot.Names.{codes}
use mathlib.Core.Path.{subst}

-- `os.getenv`, `str.strip`, `int` of a string for which isascii and isdecimal hold, and Path.
pub record Platform : Type 0 where
  pub getenv : String → Option String
  pub strip : String → String
  pub read_decimal : String → Option ℕ
  pub is_absolute : String → Bool
  pub as_posix : String → String
  -- `str.split(",")`
  pub split : String → List String

pub record Settings : Type 0 where
  pub discord_token : String
  pub release_id : String
  pub database_path : String
  pub database_root : String
  pub database_volume_id : Option String
  pub economy_mutations_enabled : Bool
  pub database_administrator_uid : Option ℕ
  pub database_service_group_gid : Option ℕ

abbrev pub production_database_path : String
production_database_path = "/var/lib/butterbot/butterbot.sqlite3"

abbrev pub production_database_root : String
production_database_root = "/var/lib/butterbot"

unfoldable pub strict_bool : Option String → Bool → Checked Bool
strict_bool none default = passed default
strict_bool (some value) default =
    if str_eq value "true"
    then passed true
    else if str_eq value "false"
    then passed false
    else refused "not_a_boolean"

abbrev within : ℕ → ℕ → ℕ → Bool
within low high c = leb low c && leb c high

-- [A-Za-z0-9]
abbrev is_alphanumeric : ℕ → Bool
is_alphanumeric c = within 65 90 c || within 97 122 c || within 48 57 c

-- [A-Za-z0-9._+-]
abbrev is_release_code : ℕ → Bool
is_release_code c = is_alphanumeric c || c == 46 || c == 95 || c == 43 || c == 45

-- [A-Za-z0-9][A-Za-z0-9._+-]{0,99}
abbrev pub matches_release_id : List ℕ → Bool
matches_release_id [] = false
matches_release_id (c ∷ cs) = is_alphanumeric c && all is_release_code cs && leb (length cs) 99

all_needed :
    (enabled production volume administrator group : Bool)
    → enabled ≡ true
    → not (enabled && not production) ≡ true
    → not (enabled && not volume) ≡ true
    → not (volume && (not administrator || not group)) ≡ true
    → (production ≡ true) × (volume ≡ true) × (administrator ≡ true) × (group ≡ true)
all_needed enabled production volume administrator group e p v o = ground arith

module _ (platform : Platform) where
  unfoldable pub optional_identity : Option String → Checked (Option ℕ)
  optional_identity none = passed none
  optional_identity (some value) =
      if str_eq (platform.strip value) "" then passed none else elim (platform.read_decimal value) [
        | none ↦ refused "not_a_decimal"
        | some n ↦ passed (some n)
      ]

  -- `os.getenv(name, "").strip()`
  abbrev pub stripped : String → String
  stripped name = elim (platform.getenv name) [
    | none ↦ platform.strip ""
    | some value ↦ platform.strip value
  ]

  -- `value or None`
  abbrev pub non_empty : String → Option String
  non_empty value = if str_eq value "" then none else some value

  abbrev pub is_production : Settings → Bool
  is_production settings =
      str_eq (platform.as_posix settings.database_path) production_database_path
      && str_eq (platform.as_posix settings.database_root) production_database_root

  -- The checks on values that belong together.
  unfoldable pub check_combination : Settings → Checked Settings
  check_combination settings =
      require (not (settings.economy_mutations_enabled && not (is_production settings)))
        "production_path_required"
      then λ _.
          require
            (not (settings.economy_mutations_enabled && not (is_some settings.database_volume_id)))
            "volume_id_required"
          then λ _.
              require
                (not (
                  is_some settings.database_volume_id
                  && (not (is_some settings.database_administrator_uid)
                      || not (is_some settings.database_service_group_gid))))
                "administrator_and_group_required"
              then λ _. passed settings

  unfoldable pub load_settings : Checked Settings
  load_settings =
      let token = stripped "DISCORD_TOKEN" in
      require (not (str_eq token "" || str_eq token "your-discord-bot-token"))
        "token_not_configured"
      then λ _.
          let release_id = stripped "BUTTERBOT_RELEASE_ID" in
          require (not (str_eq release_id "")) "release_id_not_configured" then λ _.
          require (matches_release_id (codes release_id)) "invalid_release_id" then λ _.
          let database_path = stripped "BUTTERBOT_DATABASE_PATH" in
          require (not (str_eq database_path "")) "database_path_not_configured" then λ _.
          require (platform.is_absolute database_path) "database_path_not_absolute" then λ _.
          let database_root = stripped "BUTTERBOT_DATABASE_ROOT" in
          require (not (str_eq database_root "")) "database_root_not_configured" then λ _.
          require (platform.is_absolute database_root) "database_root_not_absolute" then λ _.
          strict_bool (platform.getenv "BUTTERBOT_ECONOMY_MUTATIONS_ENABLED") false
          then λ mutations_enabled.
              optional_identity (platform.getenv "BUTTERBOT_DATABASE_ADMINISTRATOR_UID") then λ uid.
              optional_identity (platform.getenv "BUTTERBOT_DATABASE_SERVICE_GROUP_GID") then λ gid.
              check_combination record {
                discord_token = token;
                release_id = release_id;
                database_path = database_path;
                database_root = database_root;
                database_volume_id = non_empty (stripped "BUTTERBOT_DATABASE_VOLUME_ID");
                economy_mutations_enabled = mutations_enabled;
                database_administrator_uid = uid;
                database_service_group_gid = gid;
              }

  -- What the settings of a bot that may write the economy have.
  pub record IsProductionReady (settings : Settings) : Type 0 where
    pub at_production : is_production settings ≡ true
    pub has_volume : is_some settings.database_volume_id ≡ true
    pub has_administrator : is_some settings.database_administrator_uid ≡ true
    pub has_group : is_some settings.database_service_group_gid ≡ true
    pub absolute_path : platform.is_absolute settings.database_path ≡ true

  -- The three checks on the combination, and the one on the path.
  record HasPassed (settings : Settings) : Type 0 where
    absolute : platform.is_absolute settings.database_path ≡ true
    production : not (settings.economy_mutations_enabled && not (is_production settings)) ≡ true
    volume :
        not (settings.economy_mutations_enabled && not (is_some settings.database_volume_id)) ≡ true
    owners :
        not (
          is_some settings.database_volume_id
          && (not (is_some settings.database_administrator_uid)
              || not (is_some settings.database_service_group_gid)))
        ≡ true

  check_combination-HasPassed :
      (settings : Settings)
      → platform.is_absolute settings.database_path ≡ true
      → AllPassed HasPassed (check_combination settings)
  unfolding check_combination
  check_combination-HasPassed settings absolute = require-then HasPassed _ _ _ λ production.
      require-then HasPassed _ _ _ λ volume. require-then HasPassed _ _ _ λ owners. record {
        absolute = absolute;
        production = production;
        volume = volume;
        owners = owners;
      }

  load_settings-HasPassed : AllPassed HasPassed load_settings
  unfolding load_settings
  load_settings-HasPassed = then-any HasPassed _ _ λ _. then-any HasPassed _ _ λ _.
      then-any HasPassed _ _ λ _. then-any HasPassed _ _ λ _.
        require-then HasPassed _ _ _ λ absolute. then-any HasPassed _ _ λ _.
          then-any HasPassed _ _ λ _. then-any HasPassed _ _ λ enabled.
            then-any HasPassed _ _
              λ uid. then-any HasPassed _ _ λ gid. check_combination-HasPassed _ absolute

  enabled_ready :
      (settings : Settings)
      → HasPassed settings
      → settings.economy_mutations_enabled ≡ true
      → IsProductionReady settings
  enabled_ready settings held enabled =
      let ready =
        all_needed settings.economy_mutations_enabled (is_production settings)
          (is_some settings.database_volume_id) (is_some settings.database_administrator_uid)
          (is_some settings.database_service_group_gid) enabled held.production held.volume
          held.owners in
      record {
        at_production = ready.0;
        has_volume = ready.1;
        has_administrator = ready.2;
        has_group = ready.3;
        absolute_path = held.absolute;
      }

  -- Settings that are loaded and enable mutations of the economy are for the production database:
  -- its path and root, a volume, an administrator and a service group are there, the path absolute.
  pub load_settings-IsProductionReady :
      (settings : Settings)
      → load_settings ≡ passed settings
      → settings.economy_mutations_enabled ≡ true
      → IsProductionReady settings
  load_settings-IsProductionReady settings loaded enabled =
      enabled_ready settings (subst (AllPassed HasPassed) loaded load_settings-HasPassed) enabled
