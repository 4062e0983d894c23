-- ===== src/Storage/Validated.antt =====
-- What a validated storage of src/butterbot/infrastructure/persistence/storage.py satisfies.
use butterbot.Base.{
  ℕ, ◌*◌, ◌≤◌, ℤ, String, Bool, true, false, not, ◌&&◌, ◌||◌, Option, none, some, List, [], ◌∷◌,
  ◌≡◌, ◌≢◌, refl, arith, Bool-cases, inl, inr, length, ◌==◌, ◌++◌, str_eq, eq_iff, ap, ==_iff,
}
use mathlib.Core.Path.{subst}
use butterbot.Checked.{
  Checked, refused, passed, require, AllPassed, passed-then, require-holds, require-then,
}
use butterbot.Storage.Mounted.{IsMountOf, linux_mount_for-IsMountOf, relative_to-append}
use butterbot.Storage.{
  StorageAnswers, DatabaseStorageContract, ValidatedDatabaseStorage, LinuxMount, minimum_free_bytes,
  relative_to, is_directly_inside, is_protected, is_supported_filesystem, has_free_space,
  linux_mount_for, require_no_capabilities, require_protection, require_init_namespace,
  validate_linux_replacement_protection, validate_linux_network_namespace, approved_mount,
  validate_resolved, production_mount, validate_canonical, validate_database_storage,
}

-- The mount is the innermost one that holds the path, of a supported kind and the approved volume, and the service, which is not root and
-- owns neither the file nor its directory, cannot replace them.
pub record IsProduction (answers : StorageAnswers) (volume_id : String) (path : List String)
    (mount : LinuxMount) : Type 0 where
  pub mounted : IsMountOf answers.process.mounts path mount
  pub supported : is_supported_filesystem mount.filesystem ≡ true
  pub approved : mount.volume_id ≡ volume_id
  pub effective_uid : ℕ
  pub runs_as : answers.process.effective_uid ≡ some effective_uid
  pub not_root : effective_uid ≢ 0
  pub not_owner :
      (answers.protected_path_stat.uid ≢ effective_uid)
      × (answers.protected_root_stat.uid ≢ effective_uid)
  pub root_mode : answers.protected_root_stat.mode ≡ 1016
  pub file_mode : answers.protected_path_stat.mode ≡ 432
  pub no_capabilities : answers.process.effective_capabilities ≡ some 0
  pub init_namespace : answers.process.in_init_namespace ≡ some true

all_conditions :
    (root mismatch owners group owner root_mode file_mode access parent : Bool)
    → (not root
        && not mismatch
        && owners
        && group
        && not owner
        && root_mode
        && file_mode
        && access
        && not parent)
      ≡ true
    → (root ≡ false) × (owner ≡ false) × (root_mode ≡ true) × (file_mode ≡ true)
all_conditions root mismatch owners group owner root_mode file_mode access parent h = ground arith

unequal : (a b : ℕ) → (a == b) ≡ false → a ≢ b
unequal a b e = ground arith

neither_equal : (a b c : ℕ) → (a == c || b == c) ≡ false → (a ≢ c) × (b ≢ c)
neither_equal a b c e = (λ h. ground arith, λ h. ground arith)

-- The user, the protection and the capabilities.
record IsProtected (answers : StorageAnswers) : Type 0 where
  uid : ℕ
  runs_as : answers.process.effective_uid ≡ some uid
  not_root : uid ≢ 0
  not_owner : (answers.protected_path_stat.uid ≢ uid) × (answers.protected_root_stat.uid ≢ uid)
  root_mode : answers.protected_root_stat.mode ≡ 1016
  file_mode : answers.protected_path_stat.mode ≡ 432
  no_capabilities : answers.process.effective_capabilities ≡ some 0

no_capabilities-hold : (o : Option ℕ) → AllPassed (λ _. o ≡ some 0) (require_no_capabilities o)
unfolding require_no_capabilities require
no_capabilities-hold none = tt
no_capabilities-hold (some n) = elim (Bool-cases (n == 0)) [
  | inl e ↦ rw e (ap some ((==_iff n 0).0 e))
  | inr e ↦ rw e tt
]

weaken {ℓ κ μ} :
    {A : Type ℓ} (P : A → Type κ) (Q : A → Type μ) (c : Checked A)
    → ((a : A) → P a → Q a)
    → AllPassed P c
    → AllPassed Q c
weaken P Q (refused category) f h = tt
weaken P Q (passed a) f h = f a h

require_no_capabilities-IsProtected :
    (answers : StorageAnswers) (admin group : ℤ) (uid : ℕ)
    → answers.process.effective_uid ≡ some uid
    → is_protected answers admin group uid ≡ true
    → AllPassed
        (λ _. IsProtected answers)
        (require_no_capabilities answers.process.effective_capabilities)
require_no_capabilities-IsProtected answers admin group uid e held =
    let all = all_conditions (uid == 0) _ _ _ _ _ _ _ _ held in
    weaken (λ _. answers.process.effective_capabilities ≡ some 0) (λ _. IsProtected answers)
      (require_no_capabilities answers.process.effective_capabilities)
      (λ _ none_left. record {
        uid = uid;
        runs_as = e;
        not_root = unequal uid 0 all.0;
        not_owner =
            neither_equal answers.protected_path_stat.uid answers.protected_root_stat.uid uid all.1;
        root_mode = (==_iff answers.protected_root_stat.mode 1016).0 all.2;
        file_mode = (==_iff answers.protected_path_stat.mode 432).0 all.3;
        no_capabilities = none_left;
      })
      (no_capabilities-hold answers.process.effective_capabilities)

protection-holds :
    (answers : StorageAnswers) (admin group : ℤ) (o : Option ℕ)
    → answers.process.effective_uid ≡ o
    → AllPassed (λ _. IsProtected answers) (require_protection answers admin group o)
unfolding require_protection
protection-holds answers admin group none e = tt
protection-holds answers admin group (some uid) e =
    passed-then (λ _. is_protected answers admin group uid ≡ true) (λ _. IsProtected answers)
      (require (is_protected answers admin group uid) "unsafe_storage")
      (λ _. require_no_capabilities answers.process.effective_capabilities)
      (require-holds (is_protected answers admin group uid) "unsafe_storage")
      λ _ held. require_no_capabilities-IsProtected answers admin group uid e held

namespace-holds : (o : Option Bool) → AllPassed (λ _. o ≡ some true) (require_init_namespace o)
unfolding require_init_namespace require
namespace-holds none = tt
namespace-holds (some true) = refl
namespace-holds (some false) = tt

approved_mount-IsProduction :
    (answers : StorageAnswers) (volume_id : String) (admin group : ℤ) (path : List String)
    → AllPassed
        (IsProduction answers volume_id path)
        (approved_mount answers volume_id admin group path)
unfolding approved_mount validate_linux_replacement_protection validate_linux_network_namespace
approved_mount-IsProduction answers volume_id admin group path =
    passed-then (IsMountOf answers.process.mounts path) (IsProduction answers volume_id path)
      (linux_mount_for path answers.process) _ (linux_mount_for-IsMountOf path answers.process)
      λ mount chosen.
        require-then (IsProduction answers volume_id path)
          (is_supported_filesystem mount.filesystem) _ _
          λ supported.
            require-then (IsProduction answers volume_id path) (str_eq mount.volume_id volume_id) _
              _
              λ approved.
                passed-then (λ _. IsProtected answers) (IsProduction answers volume_id path)
                  (require_protection answers admin group answers.process.effective_uid) _
                  (protection-holds answers admin group answers.process.effective_uid refl)
                  λ _ guarded.
                    passed-then (λ _. answers.process.in_init_namespace ≡ some true)
                      (IsProduction answers volume_id path)
                      (require_init_namespace answers.process.in_init_namespace) _
                      (namespace-holds answers.process.in_init_namespace)
                      λ _ init. record {
                        mounted = chosen;
                        supported = supported;
                        approved = (eq_iff mount.volume_id volume_id).0 approved;
                        effective_uid = guarded.uid;
                        runs_as = guarded.runs_as;
                        not_root = guarded.not_root;
                        not_owner = guarded.not_owner;
                        root_mode = guarded.root_mode;
                        file_mode = guarded.file_mode;
                        no_capabilities = guarded.no_capabilities;
                        init_namespace = init;
                      }

production_mount-IsProduction :
    (answers : StorageAnswers) (volume_id : String) (admin group : Option ℤ) (path : List String)
    → AllPassed
        (λ o. (m : LinuxMount) × (o ≡ some m) × IsProduction answers volume_id path m)
        (production_mount answers (some volume_id) admin group path)
unfolding production_mount
production_mount-IsProduction answers volume_id none group path = tt
production_mount-IsProduction answers volume_id (some uid) none path = tt
production_mount-IsProduction answers volume_id (some uid) (some gid) path =
    passed-then (IsProduction answers volume_id path)
      (λ o. (m : LinuxMount) × (o ≡ some m) × IsProduction answers volume_id path m)
      (approved_mount answers volume_id uid gid path) (λ m. passed (some m))
      (approved_mount-IsProduction answers volume_id uid gid path) λ m p. (m, refl, p)

-- What the validation of a production volume promises.
pub record IsSafeStorage (answers : StorageAnswers) (volume_id : String)
    (v : ValidatedDatabaseStorage) : Type 0 where
  pub file_name : String
  pub inside : v.database_path ≡ v.approved_root ++ (file_name ∷ [])
  pub one_link : answers.path_stat.links ≡ 1
  pub free_bytes : minimum_free_bytes ≤ answers.free_bytes
  pub free_share : 20 * answers.total_bytes ≤ answers.free_bytes * 100
  pub mount : LinuxMount
  pub mounted : v.mount ≡ some mount
  pub production : IsProduction answers volume_id v.database_path mount
  pub is_file : answers.path_is_file ≡ true
  pub is_directory : answers.root_is_dir ≡ true

one-part :
    (path root : List String) (o : Option (List String))
    → relative_to path root ≡ o
    → elim o [ none ↦ false | some parts ↦ length parts == 1 ] ≡ true
    → (name : String) × (path ≡ root ++ (name ∷ []))
one-part path root none e h = absurd (ground arith)
one-part path root (some []) e h = absurd (ground arith)
one-part path root (some (name ∷ [])) e h = (name, relative_to-append path root _ e)
one-part path root (some (a ∷ b ∷ cs)) e h = absurd (ground arith)

directly-inside :
    (path root : List String)
    → is_directly_inside path root ≡ true
    → (name : String) × (path ≡ root ++ (name ∷ []))
directly-inside path root h = one-part path root (relative_to path root) refl h

free-space :
    (answers : StorageAnswers)
    → has_free_space answers ≡ true
    → (minimum_free_bytes ≤ answers.free_bytes)
      × (20 * answers.total_bytes ≤ answers.free_bytes * 100)
free-space answers h = ground arith

-- The contract's volume is named, so the part for a production volume runs.
mount_named :
    (answers : StorageAnswers) (volume_id : String) (required : Option String)
    (admin group : Option ℤ) (path : List String)
    → required ≡ some volume_id
    → AllPassed
        (λ o. (m : LinuxMount) × (o ≡ some m) × IsProduction answers volume_id path m)
        (production_mount answers required admin group path)
mount_named answers volume_id required admin group path e =
    rw e (production_mount-IsProduction answers volume_id admin group path)

canonical-IsSafeStorage :
    (answers : StorageAnswers) (contract : DatabaseStorageContract) (volume_id : String)
    (path root : List String)
    → contract.required_volume_id ≡ some volume_id
    → AllPassed (IsSafeStorage answers volume_id) (validate_canonical answers contract path root)
unfolding validate_canonical
canonical-IsSafeStorage answers contract volume_id path root named =
    require-then (IsSafeStorage answers volume_id) answers.root_is_dir _ _ λ directory.
      require-then (IsSafeStorage answers volume_id) answers.path_is_file _ _ λ file.
        require-then (IsSafeStorage answers volume_id) (is_directly_inside path root) _ _ λ inside.
          require-then (IsSafeStorage answers volume_id) (answers.path_stat.links == 1) _ _ λ links.
            require-then (IsSafeStorage answers volume_id) (has_free_space answers) _ _ λ free.
              passed-then
                (λ o. (m : LinuxMount) × (o ≡ some m) × IsProduction answers volume_id path m)
                (IsSafeStorage answers volume_id)
                (production_mount answers contract.required_volume_id contract.administrator_uid
                  contract.service_group_gid path)
                _
                (mount_named answers volume_id contract.required_volume_id
                  contract.administrator_uid contract.service_group_gid path named)
                λ mount p. record {
                  file_name = (directly-inside path root inside).0;
                  inside = (directly-inside path root inside).1;
                  one_link = (==_iff answers.path_stat.links 1).0 links;
                  free_bytes = (free-space answers free).0;
                  free_share = (free-space answers free).1;
                  mount = p.0;
                  mounted = p.1;
                  production = p.2;
                  is_file = file;
                  is_directory = directory;
                }

resolved-IsSafeStorage :
    (answers : StorageAnswers) (contract : DatabaseStorageContract) (volume_id : String)
    (paths : Option (List String × List String))
    → contract.required_volume_id ≡ some volume_id
    → AllPassed (IsSafeStorage answers volume_id) (validate_resolved answers contract paths)
unfolding validate_resolved
resolved-IsSafeStorage answers contract volume_id none named = tt
resolved-IsSafeStorage answers contract volume_id (some (path, root)) named =
    canonical-IsSafeStorage answers contract volume_id path root named

pub validated-all :
    (answers : StorageAnswers) (contract : DatabaseStorageContract) (volume_id : String)
    → contract.required_volume_id ≡ some volume_id
    → AllPassed (IsSafeStorage answers volume_id) (validate_database_storage answers contract)
unfolding validate_database_storage
validated-all answers contract volume_id named =
    require-then (IsSafeStorage answers volume_id) answers.path_is_absolute _ _ λ _.
      require-then (IsSafeStorage answers volume_id) answers.root_is_absolute _ _ λ _.
        require-then (IsSafeStorage answers volume_id)
          (not (answers.path_has_symlink || answers.root_has_symlink)) _ _
          λ _. resolved-IsSafeStorage answers contract volume_id answers.canonical named

-- A production storage that is validated is a file directly inside the approved directory, with one
-- link and the free space asked for; the innermost mount that holds it is the approved volume; and
-- the service, which has no capabilities and is not root, owns neither the file nor the directory.
pub validate_database_storage-IsSafeStorage :
    (answers : StorageAnswers) (contract : DatabaseStorageContract) {volume_id : String}
    {v : ValidatedDatabaseStorage}
    → contract.required_volume_id ≡ some volume_id
    → validate_database_storage answers contract ≡ passed v
    → IsSafeStorage answers volume_id v
validate_database_storage-IsSafeStorage answers contract {volume_id} named e =
    subst (AllPassed (IsSafeStorage answers volume_id)) e
      (validated-all answers contract volume_id named)
