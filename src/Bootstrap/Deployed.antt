-- ===== src/Bootstrap/Deployed.antt =====
-- An application whose settings enable mutations runs on the storage that the configuration approves:
-- src/butterbot/bootstrap.py over config.py, database.py and storage.py.
use butterbot.Base.{
  arith, ℕ, String, Bool, true, false, not, ◌&&◌, ◌||◌, Option, none, some, is_some, ◌≡◌, refl,
  if◌then◌else◌,
}
use mathlib.Core.Path.{subst}
use butterbot.Bootstrap.{
  ApplicationRuntime, Composition, mutation_eligibility, storage_contract,
  production_storage_configured, composed, compose_started, compose_with, compose_application,
}
use butterbot.Checked.{Checked, refused, passed}
use butterbot.Configuration.{Platform, Settings, load_settings, load_settings-IsProductionReady}
use butterbot.Configuration.Safety.{load_safety_policy}
use butterbot.Eligibility.{evaluate}
use butterbot.Policy.{SafetyPolicy}
use butterbot.ProcessLock.{Owners}
use butterbot.Runtime.{Release, StartAnswers, Startup}
use butterbot.Runtime.Starting.{
  IsRunning, StartEnds, runs, raises, keeps_engine, create_database_runtime-StartEnds,
}
use butterbot.Sentinel.{Aggregates}
use butterbot.Sentinel.Exactly.{IsExact}
use butterbot.Readiness.Complete.{ReadsViolations}

named_volume : (o : Option String) → is_some o ≡ true → (volume_id : String) × (o ≡ some volume_id)
named_volume none h = absurd (ground arith)
named_volume (some volume_id) h = (volume_id, refl)

passed_inj {ℓ} : {A : Type ℓ} {a b : A} → passed a ≡ passed b → a ≡ b
passed_inj h = cc

module _ (platform : Platform) (settings : Settings)
    (loaded : load_settings platform ≡ passed settings)
    (enabled : settings.economy_mutations_enabled ≡ true) where
  configured_lem : production_storage_configured platform settings ≡ true
  configured_lem =
      let ready = load_settings-IsProductionReady platform settings loaded enabled in
      ground
        (arith, ready.at_production, ready.has_volume, ready.has_administrator, ready.has_group)

  not_refused :
      (settings.economy_mutations_enabled && not (production_storage_configured platform settings))
      ≡ false
  not_refused = ground (arith, configured_lem)

-- What is known of an application that is composed.
pub record IsDeployed (release : Release) (answers : StartAnswers) (t : Aggregates)
    (settings : Settings) (c : Composition) (application : ApplicationRuntime) : Type 0 where
  pub volume_id : String
  pub approved : settings.database_volume_id ≡ some volume_id
  pub running : IsRunning release answers volume_id t application.database
  pub locked : (c.held.lock.file || c.held.lock.socket) ≡ true
  pub allowed :
      (evaluate (mutation_eligibility application application.database.monitor)).allowed ≡ true

module _ (platform : Platform) (release : Release) (t : Aggregates)
    (answers : String → String → StartAnswers) (process : ℕ) (owners : Owners) (settings : Settings)
    (loaded : load_settings platform ≡ passed settings)
    (enabled : settings.economy_mutations_enabled ≡ true) (exact : IsExact t)
    (reads : ReadsViolations
      (answers settings.database_path settings.database_root).database
      t) where
  started-IsDeployed :
      (volume_id : String) (policy : Option SafetyPolicy) (s : Startup)
      (application : ApplicationRuntime)
      → settings.database_volume_id ≡ some volume_id
      → StartEnds owners
          (IsRunning release (answers settings.database_path settings.database_root) volume_id t)
          s
      → (compose_started settings policy s).result ≡ passed application
      → IsDeployed release
          (answers settings.database_path settings.database_root)
          t
          settings
          (compose_started settings policy s)
          application
  unfolding compose_started composed evaluate
  started-IsDeployed volume_id policy s application named (runs started held good locked) made =
      subst
        (IsDeployed release (answers settings.database_path settings.database_root) t settings (
          compose_started settings policy
            record { result = passed started; held = held; engine_open = true }))
        (passed_inj made)
        record {
          volume_id = volume_id;
          approved = named;
          running = good;
          locked = locked;
          allowed = ground (arith, good.monitored, enabled);
        }
  started-IsDeployed volume_id policy s application named (raises category held e) made = cc
  started-IsDeployed volume_id policy s application named (keeps_engine held) made = cc

  otherwise-IsDeployed :
      (b : Bool) (application : ApplicationRuntime) (x y : Composition)
      → b ≡ false
      → (y.result ≡ passed application
          → IsDeployed release
              (answers settings.database_path settings.database_root)
              t
              settings
              y
              application)
      → (if b then x else y).result ≡ passed application
      → IsDeployed release
          (answers settings.database_path settings.database_root)
          t
          settings
          (if b then x else y)
          application
  otherwise-IsDeployed true application x y e next made = absurd (ground arith)
  otherwise-IsDeployed false application x y e next made = next made

  with-IsDeployed :
      (r : Checked (Option SafetyPolicy)) (application : ApplicationRuntime)
      → (compose_with platform release answers process owners settings r).result
        ≡ passed application
      → IsDeployed release
          (answers settings.database_path settings.database_root)
          t
          settings
          (compose_with platform release answers process owners settings r)
          application
  unfolding compose_with
  with-IsDeployed (refused category) application made = cc
  with-IsDeployed (passed policy) application made =
      let named =
        named_volume settings.database_volume_id
          (load_settings-IsProductionReady platform settings loaded enabled).has_volume in
      otherwise-IsDeployed _ application _ _ (not_refused platform settings loaded enabled)
        (started-IsDeployed named.0 policy _ application named.1 (
          create_database_runtime-StartEnds release (storage_contract settings)
            settings.economy_mutations_enabled
            (answers settings.database_path settings.database_root) named.0 t named.1 exact reads
            process owners))
        made

  -- From loaded settings that enable mutations, and with triggers that kept the violations exact, an
  -- application that is composed holds the process lock and allows mutations, on the volume that the
  -- settings name: its storage is safe and unchanged and its database is ready.
  pub compose_application-IsDeployed :
      (application : ApplicationRuntime)
      → (compose_application platform release answers process owners settings).result
        ≡ passed application
      → IsDeployed release
          (answers settings.database_path settings.database_root)
          t
          settings
          (compose_application platform release answers process owners settings)
          application
  unfolding compose_application
  compose_application-IsDeployed application made =
      with-IsDeployed (load_safety_policy platform) application made
