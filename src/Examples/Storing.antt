-- ===== src/Examples/Storing.antt =====
-- The theorems on the storage of src/butterbot/infrastructure/persistence/storage.py at a host that
-- meets the contract.
use butterbot.Base.{pos, true, false, none, some, [], ◌∷◌, refl}
use butterbot.Checked.{require, ◌then◌}
use butterbot.Storage.{
  StorageAnswers, FileStat, LinuxMount, DatabaseStorageContract, ValidatedDatabaseStorage,
  relative_to, longest, linux_mount_for, require_no_capabilities, require_protection,
  validate_linux_replacement_protection, require_init_namespace, validate_linux_network_namespace,
  approved_mount, production_mount, validate_canonical, validate_resolved,
  validate_database_storage,
}
use butterbot.Storage.Identity.{
  IdentityAnswers, verify_path, verify_resolved, verify_connected, verify_connection_path,
  same_path, IsUnchanged, verify_path-IsUnchanged,
}
use butterbot.Storage.Committing.{
  CheckAnswers, interrupted, the_only, connection_main_path, check_identity, confirm,
  commit_session, commit_checked, commit, IsConfirmed, commit-IsConfirmed,
}
use butterbot.Storage.Validated.{IsSafeStorage, validate_database_storage-IsSafeStorage}

abbrev pub file_stat : FileStat
file_stat = record { device = 8; inode = 40; links = 1; uid = 100; gid = 200; mode = 432 }

abbrev pub directory_stat : FileStat
directory_stat = record { device = 8; inode = 2; links = 3; uid = 100; gid = 200; mode = 1016 }

abbrev data_mount : LinuxMount
data_mount = record { mount_point = "data" ∷ []; filesystem = "ext4"; volume_id = "8:1" }

abbrev pub contract : DatabaseStorageContract
contract = record {
  required_volume_id = some "8:1";
  administrator_uid = some (pos 100);
  service_group_gid = some (pos 200);
}

abbrev pub host : StorageAnswers
host = record {
  path_is_absolute = true;
  root_is_absolute = true;
  path_has_symlink = false;
  root_has_symlink = false;
  canonical = some ("data" ∷ "bot.db" ∷ [], "data" ∷ []);
  root_is_dir = true;
  path_is_file = true;
  path_stat = file_stat;
  root_stat = directory_stat;
  protected_path_stat = file_stat;
  protected_root_stat = directory_stat;
  free_bytes = 8000000000;
  total_bytes = 16000000000;
  process = record {
    is_linux = true;
    mounts =
        some
          (record { mount_point = []; filesystem = "ext4"; volume_id = "8:0" } ∷ data_mount ∷ []);
    effective_uid = some 150;
    may_write_database = true;
    may_write_root = true;
    may_write_above_root = false;
    effective_capabilities = some 0;
    in_init_namespace = some true;
  };
}

abbrev pub stored : ValidatedDatabaseStorage
stored = record {
  database_path = "data" ∷ "bot.db" ∷ [];
  approved_root = "data" ∷ [];
  device = 8;
  inode = 40;
  root_device = 8;
  root_inode = 2;
  free_bytes = 8000000000;
  mount = some data_mount;
}

validate_database_storage-IsSafeStorage_example : IsSafeStorage host "8:1" stored
unfolding validate_database_storage validate_resolved validate_canonical production_mount
    approved_mount linux_mount_for relative_to longest validate_linux_replacement_protection
    require_protection require_no_capabilities validate_linux_network_namespace
    require_init_namespace require ◌then◌
validate_database_storage-IsSafeStorage_example =
    validate_database_storage-IsSafeStorage host contract refl refl

abbrev pub later : IdentityAnswers
later = record {
  path_has_symlink = false;
  root_has_symlink = false;
  resolved = some record {
    path = "data" ∷ "bot.db" ∷ [];
    root = "data" ∷ [];
    path_stat = file_stat;
    root_stat = directory_stat;
  };
}

verify_path-IsUnchanged_example : IsUnchanged stored later
unfolding verify_path verify_resolved same_path require ◌then◌
verify_path-IsUnchanged_example = verify_path-IsUnchanged stored later refl

abbrev pub answers_later : CheckAnswers
answers_later = record {
  rows = record { schema = "main"; file = some ("data" ∷ "bot.db" ∷ [], file_stat) } ∷ [];
  identity = later;
}

-- The confirmation is cancelled.
commit-IsConfirmed_example :
    IsConfirmed stored answers_later interrupted
      record { committed = true; raised = none; marked = some "post_commit_confirmation_failed" }
unfolding commit commit_checked commit_session confirm check_identity connection_main_path the_only
    verify_connection_path verify_connected verify_path verify_resolved same_path require ◌then◌
commit-IsConfirmed_example = commit-IsConfirmed stored true answers_later true interrupted refl
