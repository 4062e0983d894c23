-- ===== src/Monitor/Sampling.antt =====
-- The checks of `sample` of DatabaseStorageMonitor, on what the operating system and the database
-- answer: src/butterbot/infrastructure/persistence/storage_monitor.py.
use butterbot.Base.{Bool, not, String, Option, none, some, if◌then◌else◌}
use butterbot.Checked.{refused, passed}
use butterbot.Storage.{
  StorageAnswers, FileStat, DatabaseStorageContract, ValidatedDatabaseStorage,
  validate_database_storage,
}
use butterbot.Storage.Identity.{IdentityAnswers, identity_unchanged}

pub record SampleAnswers : Type 0 where
  pub storage : StorageAnswers
  -- The stats of the stored paths; None on an OSError.
  pub stats : Option (FileStat × FileStat)
  pub identity : IdentityAnswers
  -- Whether the passive checkpoint raised nothing.
  pub checkpointed : Bool

-- The category of the error, where the checks find one.
unfoldable pub sample_error :
    ValidatedDatabaseStorage → DatabaseStorageContract → SampleAnswers → Option String
sample_error stored contract answers = elim (validate_database_storage answers.storage contract) [
  | refused category ↦ some category
  | passed current ↦
      if not (identity_unchanged stored answers.stats answers.identity)
      then some "unsafe_path"
      else if not answers.checkpointed
      then some "storage_check_failed"
      else none
]
