-- ===== src/Runtime/Starting.antt =====
-- What `create_database_runtime` of src/butterbot/infrastructure/persistence/database.py leaves, where
-- it returns and where it raises.
use butterbot.Base.{arith, ℕ, String, Bool, true, false, not, ◌||◌, none, some, is_some, ◌≡◌, refl}
use butterbot.Checked.{Checked, refused, passed, AllPassed, passed-then, require-then, if-passed}
use butterbot.ProcessLock.{
  new_lock, Owners, Host, Held, acquire, acquire_linux_socket, acquire_file, release, release_file,
  release_socket,
}
use butterbot.Readiness.{check_schema_readiness}
use butterbot.Readiness.Complete.{IsReady, ReadsViolations, readiness-all}
use butterbot.Runtime.{
  StartAnswers, Release, Started, Startup, configure_sqlite_connection, start_engine, fail_start,
  end_start, start_owned, start_locked, start_validated, create_database_runtime,
}
use butterbot.Sentinel.{Aggregates}
use butterbot.Sentinel.Exactly.{IsExact}
use butterbot.Storage.{DatabaseStorageContract, ValidatedDatabaseStorage}
use butterbot.Storage.Committing.{check_identity, identity-IsUnchanged}
use butterbot.Storage.Identity.{IsUnchanged}
use butterbot.Storage.Validated.{IsSafeStorage, validated-all}

abbrev HasOwners : Owners → Held → Type 0
HasOwners owners held =
    ((release held).owners ≡ owners) × ((held.lock.file || held.lock.socket) ≡ true)

no_socket :
    (owners : Owners)
    → is_some owners.socket_owner ≡ false
    → record owners { socket_owner = none } ≡ owners
no_socket owners free = ground arith

no_file :
    (owners : Owners)
    → is_some owners.file_owner ≡ false
    → record owners { file_owner = none } ≡ owners
no_file owners free = ground arith

-- A lock that is taken is held, and releasing it gives the owners from before.
acquire-release :
    (host : Host) (process : ℕ) (owners : Owners)
    → AllPassed (HasOwners owners) (acquire host process new_lock owners)
unfolding acquire acquire_linux_socket acquire_file release release_file release_socket
acquire-release host process owners =
    if-passed (HasOwners owners) host.is_linux _ _
      (λ _.
        if-passed (HasOwners owners) (is_some owners.socket_owner) _ _ (λ _. tt)
          λ free. (no_socket owners free, refl))
      λ _.
        if-passed (HasOwners owners) host.path_is_symlink _ _ (λ _. tt)
          λ _.
            if-passed (HasOwners owners) (not host.opens_file) _ _ (λ _. tt)
              λ _.
                if-passed (HasOwners owners) (is_some owners.file_owner) _ _ (λ _. tt)
                  λ free. (no_file owners free, refl)

-- What a start that returns is known to satisfy.
pub record IsRunning (release : Release) (answers : StartAnswers) (volume_id : String)
    (t : Aggregates) (started : Started) : Type 0 where
  pub safe : IsSafeStorage answers.storage volume_id started.storage
  pub unchanged : IsUnchanged started.storage answers.connection.identity
  pub ready : IsReady release.revisions answers.database t started.observed_revision
  pub monitored : started.monitor.safe ≡ true

-- A start that returns has the lock and an open engine; one that raises leaves both as they were,
-- unless the engine cannot be disposed of.
pub data StartEnds {ℓ} (owners : Owners) (Good : Started → Type ℓ) : Startup → Type ℓ where
  runs :
      (started : Started) (held : Held)
      → Good started
      → (held.lock.file || held.lock.socket) ≡ true
      → StartEnds owners Good record { result = passed started; held = held; engine_open = true }
  raises :
      (category : String) (held : Held)
      → held.owners ≡ owners
      → StartEnds owners Good record { result = refused category; held = held; engine_open = false }
  keeps_engine :
      (held : Held)
      → StartEnds owners Good
          record { result = refused "engine_disposal"; held = held; engine_open = true }

module _ {ℓ} (owners : Owners) (Good : Started → Type ℓ) (answers : StartAnswers) where
  fail-ends :
      (engine_open disposes : Bool) (held : Held) (category : String)
      → (release held).owners ≡ owners
      → StartEnds owners Good (fail_start engine_open disposes held category)
  unfolding fail_start
  fail-ends true true held category e = raises category (release held) e
  fail-ends true false held category e = keeps_engine held
  fail-ends false disposes held category e = raises category (release held) e

  end-ends :
      (held : Held) (r : Checked Started)
      → HasOwners owners held
      → AllPassed Good r
      → StartEnds owners Good (end_start answers held r)
  unfolding end_start
  end-ends held (refused category) owned good =
      fail-ends true answers.disposes held category owned.0
  end-ends held (passed started) owned good = runs started held good owned.1

module _ (release : Release) (contract : DatabaseStorageContract) (mutations_enabled : Bool)
    (answers : StartAnswers) (volume_id : String) (t : Aggregates)
    (named : contract.required_volume_id ≡ some volume_id) (exact : IsExact t)
    (reads : ReadsViolations answers.database t) where
  engine-IsRunning :
      (storage : ValidatedDatabaseStorage)
      → IsSafeStorage answers.storage volume_id storage
      → AllPassed
          (IsRunning release answers volume_id t)
          (start_engine release contract mutations_enabled answers storage)
  unfolding start_engine configure_sqlite_connection check_identity
  engine-IsRunning storage safe =
      passed-then (λ _. IsUnchanged storage answers.connection.identity)
        (IsRunning release answers volume_id t) _ _
        (identity-IsUnchanged storage answers.connection)
        λ _ same.
          passed-then (IsReady release.revisions answers.database t)
            (IsRunning release answers volume_id t)
            (check_schema_readiness release.hash release.schema release.revisions answers.database)
            _
            (readiness-all release.hash release.schema release.revisions answers.database t exact
              reads)
            λ revision ready.
              require-then (IsRunning release answers volume_id t) _ _ _ λ monitored. record {
                safe = safe;
                unchanged = same;
                ready = ready;
                monitored = monitored;
              }

  owned-ends :
      (owners : Owners) (held : Held) (r : Checked ValidatedDatabaseStorage)
      → HasOwners owners held
      → AllPassed (IsSafeStorage answers.storage volume_id) r
      → StartEnds owners
          (IsRunning release answers volume_id t)
          (start_owned release contract mutations_enabled answers held r)
  unfolding start_owned
  owned-ends owners held (refused category) owned safe =
      fail-ends owners _ answers false answers.disposes held category owned.0
  owned-ends owners held (passed storage) owned safe =
      end-ends owners _ answers held _ owned (engine-IsRunning storage safe)

  locked-ends :
      (owners : Owners) (r : Checked Held)
      → AllPassed (HasOwners owners) r
      → StartEnds owners
          (IsRunning release answers volume_id t)
          (start_locked release contract mutations_enabled answers owners r)
  unfolding start_locked
  locked-ends owners (refused category) owned = raises category _ refl
  locked-ends owners (passed held) owned =
      owned-ends owners held _ owned (validated-all answers.storage contract volume_id named)

  validated-ends :
      (process : ℕ) (owners : Owners) (r : Checked ValidatedDatabaseStorage)
      → StartEnds owners
          (IsRunning release answers volume_id t)
          (start_validated release contract mutations_enabled answers process owners r)
  unfolding start_validated
  validated-ends process owners (refused category) = raises category _ refl
  validated-ends process owners (passed storage) =
      locked-ends owners _ (acquire-release answers.host process owners)

  pub create_database_runtime-StartEnds :
      (process : ℕ) (owners : Owners)
      → StartEnds owners
          (IsRunning release answers volume_id t)
          (create_database_runtime release contract mutations_enabled answers process owners)
  unfolding create_database_runtime
  create_database_runtime-StartEnds process owners = validated-ends process owners _
