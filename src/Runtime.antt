-- ===== src/Runtime.antt =====
-- DatabaseRuntime and `create_database_runtime` of
-- src/butterbot/infrastructure/persistence/database.py, on what the operating system and the database
-- answer. What an engine does inside is left out: it is open or disposed.
pub mod Starting
pub mod Closing
use butterbot.Base.{
  ℕ, String, Bool, true, false, not, ◌&&◌, ◌||◌, Option, none, some, List, [], ◌∷◌, any,
  if◌then◌else◌, ◌==◌,
}
use butterbot.Checked.{Checked, refused, passed, require, ◌then◌}
use butterbot.Lifecycle.{UnitOfWorkLifecycle, end_drain}
use butterbot.Lifecycle as Lifecycle
use butterbot.Monitor.{DatabaseStorageMonitor, new_monitor, sample}
use butterbot.Monitor.Sampling.{SampleAnswers, sample_error}
use butterbot.ProcessLock.{new_lock, Owners, Host, Held, acquire, release}
use butterbot.Readiness.{SchemaObject, RevisionContract, DatabaseAnswers, check_schema_readiness}
use butterbot.Result.{Result, ok, err}
use butterbot.Storage.{
  StorageAnswers, DatabaseStorageContract, ValidatedDatabaseStorage, validate_database_storage,
}
use butterbot.Storage.Committing.{CheckAnswers, connection_main_path}
use butterbot.Storage.Identity.{verify_connection_path}

-- What is asked while the runtime is made, in this order.
pub record StartAnswers : Type 0 where
  pub before_lock : StorageAnswers
  pub host : Host
  pub storage : StorageAnswers
  pub connection : CheckAnswers
  pub database : DatabaseAnswers
  pub first_sample : SampleAnswers
  pub taken : ℕ → Bool
  -- Whether disposing of the engine raises nothing, where the start fails.
  pub disposes : Bool

-- What every start of this release is given.
pub record Release : Type 0 where
  pub hash : String → String
  pub schema : List SchemaObject
  pub revisions : RevisionContract

pub record Started : Type 0 where
  pub storage : ValidatedDatabaseStorage
  pub observed_revision : String
  pub monitor : DatabaseStorageMonitor

-- `_configure_sqlite_connection` once the pragmas are set.
unfoldable pub configure_sqlite_connection :
    ValidatedDatabaseStorage → CheckAnswers → Checked (Unit {0})
configure_sqlite_connection storage answers = connection_main_path answers.rows then λ file.
    verify_connection_path storage answers.identity file

-- `create_database_runtime` from the engine on.
unfoldable pub start_engine :
    Release
    → DatabaseStorageContract
    → Bool
    → StartAnswers
    → ValidatedDatabaseStorage
    → Checked Started
start_engine release contract mutations_enabled answers storage =
    configure_sqlite_connection storage answers.connection then λ _.
    check_schema_readiness release.hash release.schema release.revisions answers.database
    then λ revision.
        let monitor =
          sample (sample_error storage contract answers.first_sample) answers.taken
            (new_monitor mutations_enabled) in
        require monitor.safe "unsafe_storage" then λ _.
        passed record { storage = storage; observed_revision = revision; monitor = monitor }

pub record Startup : Type 0 where
  pub result : Checked Started
  pub held : Held
  pub engine_open : Bool

-- `except BaseException`: the engine, if there is one, is disposed of before the lock is released.
unfoldable pub fail_start : Bool → Bool → Held → String → Startup
fail_start engine_open disposes held category =
    if engine_open && not disposes
    then record { result = refused "engine_disposal"; held = held; engine_open = true }
    else record { result = refused category; held = release held; engine_open = false }

unfoldable pub end_start : StartAnswers → Held → Checked Started → Startup
end_start answers held (refused category) = fail_start true answers.disposes held category
end_start answers held (passed started) = record {
  result = passed started;
  held = held;
  engine_open = true;
}

unfoldable pub start_owned :
    Release
    → DatabaseStorageContract
    → Bool
    → StartAnswers
    → Held
    → Checked ValidatedDatabaseStorage
    → Startup
start_owned release contract mutations_enabled answers held (refused category) =
    fail_start false answers.disposes held category
start_owned release contract mutations_enabled answers held (passed storage) =
    end_start answers held (start_engine release contract mutations_enabled answers storage)

unfoldable pub start_locked :
    Release → DatabaseStorageContract → Bool → StartAnswers → Owners → Checked Held → Startup
start_locked release contract mutations_enabled answers owners (refused category) = record {
  result = refused category;
  held = record { lock = new_lock; owners = owners };
  engine_open = false;
}
start_locked release contract mutations_enabled answers owners (passed held) =
    start_owned release contract mutations_enabled answers held
      (validate_database_storage answers.storage contract)

unfoldable pub start_validated :
    Release
    → DatabaseStorageContract
    → Bool
    → StartAnswers
    → ℕ
    → Owners
    → Checked ValidatedDatabaseStorage
    → Startup
start_validated release contract mutations_enabled answers process owners (refused category) =
    record {
      result = refused category;
      held = record { lock = new_lock; owners = owners };
      engine_open = false;
    }
start_validated release contract mutations_enabled answers process owners (passed storage) =
    start_locked release contract mutations_enabled answers owners
      (acquire answers.host process new_lock owners)

unfoldable pub create_database_runtime :
    Release → DatabaseStorageContract → Bool → StartAnswers → ℕ → Owners → Startup
create_database_runtime release contract mutations_enabled answers process owners =
    start_validated release contract mutations_enabled answers process owners
      (validate_database_storage answers.before_lock contract)

-- A runtime, as far as its end goes.
pub record DatabaseRuntime : Type 0 where
  pub monitor_closed : Bool
  pub engine_open : Bool
  pub held : Held
  -- A close that has returned.
  pub closed : Bool

-- One call of `close`: the task that makes it, the lifecycle at the end of the drain, and how the
-- awaited parts end.
pub record Attempt : Type 0 where
  pub current : Option ℕ
  pub lifecycle : UnitOfWorkLifecycle
  pub monitor_closes : Bool
  pub owners_pending : Bool
  pub attempts : ℕ → Option Lifecycle.Closing
  pub disposes : Bool
  pub releases : Bool

-- `owns_task`
abbrev pub owns_task : Option ℕ → UnitOfWorkLifecycle → Bool
owns_task none l = false
owns_task (some task) l = any (λ r. r.owner == task) l.active

-- `_close` once the monitor and the transactions have ended.
unfoldable pub dispose_and_release : Attempt → DatabaseRuntime → DatabaseRuntime
dispose_and_release a r =
    if not a.disposes
    then r
    else if not a.releases
    then record r { engine_open = false }
    else record r { engine_open = false; held = release r.held; closed = true }

abbrev pub is_ok {ℓ} : {A : Type ℓ} → Result A → Bool
is_ok (ok a) = true
is_ok (err e) = false

abbrev pub drains : Attempt → Bool
drains a = is_ok (end_drain a.owners_pending a.attempts a.lifecycle)

-- `_monitor_close_for_attempt` and `_bounded_monitor_close`: a close of the monitor that has ended is
-- not asked for again.
abbrev pub monitor_close_for_attempt : Attempt → DatabaseRuntime → Bool
monitor_close_for_attempt a r = r.monitor_closed || a.monitor_closes

-- `_close`
unfoldable pub close_once : Attempt → DatabaseRuntime → DatabaseRuntime
close_once a r =
    let monitored = record r { monitor_closed = monitor_close_for_attempt a r } in
    if monitored.monitor_closed && drains a then dispose_and_release a monitored else monitored

unfoldable pub close : Attempt → DatabaseRuntime → DatabaseRuntime
close a r = if owns_task a.current a.lifecycle then r else if r.closed then r else close_once a r

unfoldable pub close_all : List Attempt → DatabaseRuntime → DatabaseRuntime
close_all [] r = r
close_all (a ∷ as') r = close_all as' (close a r)
