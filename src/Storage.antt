-- ===== src/Storage.antt =====
-- `validate_database_storage`, DatabaseIdentityGuard and `identity_unchanged` of
-- src/butterbot/infrastructure/persistence/storage.py on what the operating system answers. The
-- percentage of free space, a float there, is compared exactly here.
pub mod Mounted
pub mod Validated
pub mod Identity
pub mod Committing
use butterbot.Base.{
  ℕ, suc, ◌+◌, ◌*◌, ℤ, pos, String, Bool, true, false, not, ◌&&◌, ◌||◌, Option, none, some, List,
  [], ◌∷◌, ◌++◌, any, all, select, length, is_some, str_eq, leb, ltb, ltb_ℤ, eqb_ℤ, ◌==◌,
  if◌then◌else◌,
}
use butterbot.Checked.{Checked, refused, passed, require, ◌then◌}

pub record FileStat : Type 0 where
  pub device : ℕ
  pub inode : ℕ
  pub links : ℕ
  pub uid : ℕ
  pub gid : ℕ
  -- S_IMODE(st_mode)
  pub mode : ℕ

-- A path is its parts below the anchor.
pub record LinuxMount : Type 0 where
  pub mount_point : List String
  pub filesystem : String
  pub volume_id : String

pub record DatabaseStorageContract : Type 0 where
  pub required_volume_id : Option String
  pub administrator_uid : Option ℤ
  pub service_group_gid : Option ℤ

-- What the service identity may do, and /proc/self.
pub record ProcessAnswers : Type 0 where
  pub is_linux : Bool
  -- The entries of mountinfo that can be read, in their order; None when the file cannot.
  pub mounts : Option (List LinuxMount)
  pub effective_uid : Option ℕ
  pub may_write_database : Bool
  pub may_write_root : Bool
  pub may_write_above_root : Bool
  -- CapEff; None when it is missing or malformed.
  pub effective_capabilities : Option ℕ
  -- Whether the network namespace is that of init; None when it cannot be read.
  pub in_init_namespace : Option Bool

pub record StorageAnswers : Type 0 where
  pub path_is_absolute : Bool
  pub root_is_absolute : Bool
  pub path_has_symlink : Bool
  pub root_has_symlink : Bool
  -- The canonical path and root; None when one does not exist.
  pub canonical : Option (List String × List String)
  pub root_is_dir : Bool
  pub path_is_file : Bool
  pub path_stat : FileStat
  pub root_stat : FileStat
  -- `_validate_linux_replacement_protection` reads both again.
  pub protected_path_stat : FileStat
  pub protected_root_stat : FileStat
  pub free_bytes : ℕ
  pub total_bytes : ℕ
  pub process : ProcessAnswers

pub record ValidatedDatabaseStorage : Type 0 where
  pub database_path : List String
  pub approved_root : List String
  pub device : ℕ
  pub inode : ℕ
  pub root_device : ℕ
  pub root_inode : ℕ
  pub free_bytes : ℕ
  pub mount : Option LinuxMount

abbrev pub minimum_free_bytes : ℕ
minimum_free_bytes = 5368709120

-- `path.relative_to(root)`
unfoldable pub relative_to : List String → List String → Option (List String)
relative_to path [] = some path
relative_to [] (r ∷ rs) = none
relative_to (p ∷ ps) (r ∷ rs) = if str_eq p r then relative_to ps rs else none

abbrev pub is_directly_inside : List String → List String → Bool
is_directly_inside path root = elim (relative_to path root) [
  | none ↦ false
  | some parts ↦ length parts == 1
]

-- `max(matches, key=...)`: the first of the longest.
unfoldable pub longest : LinuxMount → List LinuxMount → LinuxMount
longest best [] = best
longest best (m ∷ ms) =
    if ltb (length best.mount_point) (length m.mount_point) then longest m ms else longest best ms

abbrev pub holds_path : List String → LinuxMount → Bool
holds_path path m = is_some (relative_to path m.mount_point)

unfoldable pub linux_mount_for : List String → ProcessAnswers → Checked LinuxMount
linux_mount_for path process = require process.is_linux "unsafe_storage" then λ _.
    elim process.mounts [
      | none ↦ refused "unsafe_storage"
      | some mounts ↦ elim (select (holds_path path) mounts) [
        | [] ↦ refused "unsafe_storage"
        | m ∷ ms ↦ passed (longest m ms)
      ]
    ]

-- The conditions of `_validate_linux_replacement_protection` once the process has a user.
abbrev pub is_protected : StorageAnswers → ℤ → ℤ → ℕ → Bool
is_protected answers administrator_uid service_group_gid effective_uid =
    not (effective_uid == 0)
    && not (ltb_ℤ administrator_uid (pos 0) || ltb_ℤ service_group_gid (pos 0))
    && (eqb_ℤ (pos answers.protected_path_stat.uid) administrator_uid
        && eqb_ℤ (pos answers.protected_root_stat.uid) administrator_uid)
    && (eqb_ℤ (pos answers.protected_path_stat.gid) service_group_gid
        && eqb_ℤ (pos answers.protected_root_stat.gid) service_group_gid)
    && not (
        answers.protected_path_stat.uid == effective_uid
        || answers.protected_root_stat.uid == effective_uid)
    && (answers.protected_root_stat.mode == 1016)
    && (answers.protected_path_stat.mode == 432)
    && (answers.process.may_write_database && answers.process.may_write_root)
    && not answers.process.may_write_above_root

unfoldable pub require_no_capabilities : Option ℕ → Checked (Unit {0})
require_no_capabilities none = refused "unsafe_storage"
require_no_capabilities (some capabilities) = require (capabilities == 0) "unsafe_storage"

unfoldable pub require_protection : StorageAnswers → ℤ → ℤ → Option ℕ → Checked (Unit {0})
require_protection answers administrator_uid service_group_gid none = refused "unsafe_storage"
require_protection answers administrator_uid service_group_gid (some effective_uid) =
    require (is_protected answers administrator_uid service_group_gid effective_uid)
      "unsafe_storage"
    then λ _. require_no_capabilities answers.process.effective_capabilities

unfoldable pub validate_linux_replacement_protection : StorageAnswers → ℤ → ℤ → Checked (Unit {0})
validate_linux_replacement_protection answers administrator_uid service_group_gid =
    require_protection answers administrator_uid service_group_gid answers.process.effective_uid

unfoldable pub require_init_namespace : Option Bool → Checked (Unit {0})
require_init_namespace none = refused "unsafe_storage"
require_init_namespace (some same) = require same "unsafe_storage"

unfoldable pub validate_linux_network_namespace : ProcessAnswers → Checked (Unit {0})
validate_linux_network_namespace process = require_init_namespace process.in_init_namespace

abbrev pub is_supported_filesystem : String → Bool
is_supported_filesystem f = str_eq f "ext4" || str_eq f "xfs"

-- The checks of a production volume whose contract names all it must.
unfoldable pub approved_mount : StorageAnswers → String → ℤ → ℤ → List String → Checked LinuxMount
approved_mount answers volume_id administrator_uid service_group_gid path =
    linux_mount_for path answers.process then λ mount.
    require (is_supported_filesystem mount.filesystem) "unsafe_storage" then λ _.
    require (str_eq mount.volume_id volume_id) "unsafe_storage" then λ _.
    validate_linux_replacement_protection answers administrator_uid service_group_gid then λ _.
    validate_linux_network_namespace answers.process then λ _. passed mount

-- None where the contract names no volume.
unfoldable pub production_mount :
    StorageAnswers → Option String → Option ℤ → Option ℤ → List String → Checked (Option LinuxMount)
production_mount answers none administrator_uid service_group_gid path = passed none
production_mount answers (some volume_id) (some uid) (some gid) path =
    approved_mount answers volume_id uid gid path then λ mount. passed (some mount)
production_mount answers (some volume_id) none service_group_gid path = refused "unsafe_storage"
production_mount answers (some volume_id) (some uid) none path = refused "unsafe_storage"

abbrev pub has_free_space : StorageAnswers → Bool
has_free_space answers =
    not (ltb answers.free_bytes minimum_free_bytes)
    && not ((answers.total_bytes == 0) || ltb (answers.free_bytes * 100) (20 * answers.total_bytes))

unfoldable pub validate_canonical :
    StorageAnswers
    → DatabaseStorageContract
    → List String
    → List String
    → Checked ValidatedDatabaseStorage
validate_canonical answers contract path root = require answers.root_is_dir "unsafe_path" then λ _.
    require answers.path_is_file "unsafe_path" then λ _.
    require (is_directly_inside path root) "unsafe_path" then λ _.
    require (answers.path_stat.links == 1) "unsafe_path" then λ _.
    require (has_free_space answers) "unsafe_storage" then λ _.
    production_mount answers contract.required_volume_id contract.administrator_uid
      contract.service_group_gid path
    then λ mount. passed record {
      database_path = path;
      approved_root = root;
      device = answers.path_stat.device;
      inode = answers.path_stat.inode;
      root_device = answers.root_stat.device;
      root_inode = answers.root_stat.inode;
      free_bytes = answers.free_bytes;
      mount = mount;
    }

unfoldable pub validate_resolved :
    StorageAnswers
    → DatabaseStorageContract
    → Option (List String × List String)
    → Checked ValidatedDatabaseStorage
validate_resolved answers contract none = refused "missing_database"
validate_resolved answers contract (some (path, root)) =
    validate_canonical answers contract path root

unfoldable pub validate_database_storage :
    StorageAnswers → DatabaseStorageContract → Checked ValidatedDatabaseStorage
validate_database_storage answers contract =
    require answers.path_is_absolute "unsafe_path" then λ _.
    require answers.root_is_absolute "unsafe_path" then λ _.
    require (not (answers.path_has_symlink || answers.root_has_symlink)) "unsafe_path" then λ _.
    validate_resolved answers contract answers.canonical
