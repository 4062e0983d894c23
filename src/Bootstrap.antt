-- ===== src/Bootstrap.antt =====
-- `compose_application` of src/butterbot/bootstrap.py, with the telemetry left out. The services that
-- it makes hold these parts and no state of their own.
pub mod Deployed
use butterbot.Base.{
  ℕ, ℤ, pos, String, Bool, true, false, not, ◌&&◌, Option, none, some, is_some, if◌then◌else◌,
}
use mathlib.Core.Option.{map}
use butterbot.Checked.{Checked, refused, passed}
use butterbot.Configuration.{Platform, Settings, is_production}
use butterbot.Configuration.Safety.{load_safety_policy}
use butterbot.Eligibility.{GlobalMutationEligibility}
use butterbot.Monitor.{DatabaseStorageMonitor}
use butterbot.Policy.{SafetyPolicy}
use butterbot.ProcessLock.{new_lock, Owners, Held}
use butterbot.Runtime.{Release, StartAnswers, Started, Startup, create_database_runtime}
use butterbot.Storage.{DatabaseStorageContract}

pub record ApplicationRuntime : Type 0 where
  pub database : Started
  pub mutations_enabled : Bool
  pub safety_policy : Option SafetyPolicy

-- The eligibility of the application while its monitor is `monitor`.
abbrev pub mutation_eligibility :
    ApplicationRuntime → DatabaseStorageMonitor → GlobalMutationEligibility
mutation_eligibility application monitor = record {
  configured_enabled = application.mutations_enabled;
  database_ready = true;
  runtime_safety = some monitor.safe;
}

pub record Composition : Type 0 where
  pub result : Checked ApplicationRuntime
  pub held : Held
  pub engine_open : Bool

abbrev pub storage_contract : Settings → DatabaseStorageContract
storage_contract settings = record {
  required_volume_id = settings.database_volume_id;
  administrator_uid = map pos settings.database_administrator_uid;
  service_group_gid = map pos settings.database_service_group_gid;
}

abbrev pub production_storage_configured : Platform → Settings → Bool
production_storage_configured platform settings =
    is_production platform settings
    && is_some settings.database_volume_id
    && is_some settings.database_administrator_uid
    && is_some settings.database_service_group_gid

abbrev pub not_composed : String → Owners → Composition
not_composed category owners = record {
  result = refused category;
  held = record { lock = new_lock; owners = owners };
  engine_open = false;
}

unfoldable pub composed :
    Settings → Option SafetyPolicy → Checked Started → Checked ApplicationRuntime
composed settings policy (refused category) = refused category
composed settings policy (passed database) = passed record {
  database = database;
  mutations_enabled = settings.economy_mutations_enabled;
  safety_policy = policy;
}

unfoldable pub compose_started : Settings → Option SafetyPolicy → Startup → Composition
compose_started settings policy startup = record {
  result = composed settings policy startup.result;
  held = startup.held;
  engine_open = startup.engine_open;
}

-- `answers` is what is asked about a path and its root.
unfoldable pub compose_with :
    Platform
    → Release
    → (String → String → StartAnswers)
    → ℕ
    → Owners
    → Settings
    → Checked (Option SafetyPolicy)
    → Composition
compose_with platform release answers process owners settings (refused category) =
    not_composed category owners
compose_with platform release answers process owners settings (passed policy) =
    if settings.economy_mutations_enabled && not (production_storage_configured platform settings)
    then not_composed "unsafe_storage" owners
    else compose_started settings policy (
        create_database_runtime release (storage_contract settings)
          settings.economy_mutations_enabled (answers settings.database_path settings.database_root)
          process owners)

unfoldable pub compose_application :
    Platform → Release → (String → String → StartAnswers) → ℕ → Owners → Settings → Composition
compose_application platform release answers process owners settings =
    compose_with platform release answers process owners settings (load_safety_policy platform)
