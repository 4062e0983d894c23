-- ===== src/Storage/Identity.antt =====
-- DatabaseIdentityGuard and `identity_unchanged` of
-- src/butterbot/infrastructure/persistence/storage.py, on what the operating system answers.
use butterbot.Base.{
  &&-true, Bool, true, false, not, ◌&&◌, ◌||◌, String, Option, none, some, List, [], ◌∷◌, ◌==◌, ◌≡◌,
  refl, arith, str_eq, ap, ◌∙◌, eq_iff, ==_iff,
}
use mathlib.Core.Path.{subst}
use butterbot.Checked.{
  Checked, refused, passed, AllPassed, require, require-then, require-accepts, ◌then◌,
}
use butterbot.Storage.{FileStat, ValidatedDatabaseStorage}

-- Both paths resolve and can be inspected, or there is an OSError.
pub record ResolvedIdentity : Type 0 where
  pub path : List String
  pub root : List String
  pub path_stat : FileStat
  pub root_stat : FileStat

pub record IdentityAnswers : Type 0 where
  pub path_has_symlink : Bool
  pub root_has_symlink : Bool
  pub resolved : Option ResolvedIdentity

unfoldable pub same_path : List String → List String → Bool
same_path [] [] = true
same_path (p ∷ ps) (q ∷ qs) = str_eq p q && same_path ps qs
same_path [] (q ∷ qs) = false
same_path (p ∷ ps) [] = false

abbrev pub parent : List String → List String
parent [] = []
parent (p ∷ []) = []
parent (p ∷ q ∷ qs) = p ∷ parent (q ∷ qs)

unfoldable pub verify_resolved :
    ValidatedDatabaseStorage → Option ResolvedIdentity → Checked (Unit {0})
verify_resolved storage none = refused "database_identity_mismatch"
verify_resolved storage (some r) =
    require
      (same_path r.path storage.database_path
        && same_path r.root storage.approved_root
        && same_path (parent r.path) r.root
        && r.path_stat.device == storage.device
        && r.path_stat.inode == storage.inode
        && r.path_stat.links == 1
        && r.root_stat.device == storage.root_device
        && r.root_stat.inode == storage.root_inode)
      "database_identity_mismatch"

-- The category is what `mark_unsafe` is called with before the exception.
unfoldable pub verify_path : ValidatedDatabaseStorage → IdentityAnswers → Checked (Unit {0})
verify_path storage answers =
    require (not (answers.path_has_symlink || answers.root_has_symlink))
      "database_identity_mismatch"
    then λ _. verify_resolved storage answers.resolved

-- The path of the connection, with what it resolves to; None on an OSError.
unfoldable pub verify_connected :
    ValidatedDatabaseStorage → Option (List String × FileStat) → Checked (Unit {0})
verify_connected storage none = refused "database_identity_mismatch"
verify_connected storage (some (path, found)) =
    require
      (same_path path storage.database_path
        && (found.device == storage.device && found.inode == storage.inode))
      "database_identity_mismatch"

unfoldable pub verify_connection_path :
    ValidatedDatabaseStorage
    → IdentityAnswers
    → Option (List String × FileStat)
    → Checked (Unit {0})
verify_connection_path storage answers connected =
    verify_path storage answers then λ _. verify_connected storage connected

-- The stats are those of the stored paths, which are what they resolve to while nothing changes.
unfoldable pub identity_unchanged :
    ValidatedDatabaseStorage → Option (FileStat × FileStat) → IdentityAnswers → Bool
identity_unchanged storage none answers = false
identity_unchanged storage (some (path_stat, root_stat)) answers =
    path_stat.device == storage.device
    && path_stat.inode == storage.inode
    && path_stat.links == 1
    && root_stat.device == storage.root_device
    && root_stat.inode == storage.root_inode
    && not answers.path_has_symlink
    && not answers.root_has_symlink

-- What the guard accepts: the paths and the file are the validated ones, and the monitor, which
-- has its own check, accepts them too.
pub record IsUnchanged (storage : ValidatedDatabaseStorage) (answers : IdentityAnswers)
    : Type 0 where
  pub found : ResolvedIdentity
  pub resolves : answers.resolved ≡ some found
  pub same_database_path : found.path ≡ storage.database_path
  pub same_root : found.root ≡ storage.approved_root
  pub inside_root : parent found.path ≡ storage.approved_root
  pub same_device : found.path_stat.device ≡ storage.device
  pub same_inode : found.path_stat.inode ≡ storage.inode
  pub one_link : found.path_stat.links ≡ 1
  pub same_root_device : found.root_stat.device ≡ storage.root_device
  pub same_root_inode : found.root_stat.inode ≡ storage.root_inode
  pub no_path_symlink : answers.path_has_symlink ≡ false
  pub no_root_symlink : answers.root_has_symlink ≡ false
  pub unchanged :
      identity_unchanged storage (some (found.path_stat, found.root_stat)) answers ≡ true

no_link : (a b : Bool) → not (a || b) ≡ true → (a ≡ false) × (b ≡ false)
no_link a b h = ground arith

same_path-≡ : (ps qs : List String) → same_path ps qs ≡ true → ps ≡ qs
unfolding same_path
same_path-≡ [] [] h = refl
same_path-≡ (p ∷ ps) [] h = absurd (ground arith)
same_path-≡ [] (q ∷ qs) h = absurd (ground arith)
same_path-≡ (p ∷ ps) (q ∷ qs) h =
    let (first, rest) = &&-true (str_eq p q) _ h in
    ap (λ l. p ∷ l) (same_path-≡ ps qs rest) ∙ ap (λ r. r ∷ qs) ((eq_iff p q).0 first)

each_true :
    (a b c d e f g h : Bool)
    → (a && b && c && d && e && f && g && h) ≡ true
    → (a ≡ true)
      × (b ≡ true)
      × (c ≡ true)
      × (d ≡ true)
      × (e ≡ true)
      × (f ≡ true)
      × (g ≡ true)
      × (h ≡ true)
each_true a b c d e f g h all = ground arith

all_true :
    (d e f g h a b : Bool)
    → d ≡ true
    → e ≡ true
    → f ≡ true
    → g ≡ true
    → h ≡ true
    → a ≡ false
    → b ≡ false
    → (d && e && f && g && h && not a && not b) ≡ true
all_true d e f g h a b i j k l m n o = ground arith

resolved-IsUnchanged :
    (storage : ValidatedDatabaseStorage) (answers : IdentityAnswers) (o : Option ResolvedIdentity)
    → answers.resolved ≡ o
    → not (answers.path_has_symlink || answers.root_has_symlink) ≡ true
    → AllPassed (λ _. IsUnchanged storage answers) (verify_resolved storage o)
unfolding verify_resolved identity_unchanged
resolved-IsUnchanged storage answers none e links = tt
resolved-IsUnchanged storage answers (some r) e links =
    require-accepts (λ _. IsUnchanged storage answers) _ "database_identity_mismatch"
      λ held.
        let (path, root, above, device, inode, link, root_device, root_inode) =
          each_true _ _ _ _ _ _ _ _ held in
        let (no_path, no_root) = no_link _ _ links in
        let same_root = same_path-≡ r.root storage.approved_root root in
        record {
          found = r;
          resolves = e;
          same_database_path = same_path-≡ r.path storage.database_path path;
          same_root = same_root;
          inside_root = same_path-≡ (parent r.path) r.root above ∙ same_root;
          same_device = (==_iff r.path_stat.device storage.device).0 device;
          same_inode = (==_iff r.path_stat.inode storage.inode).0 inode;
          one_link = (==_iff r.path_stat.links 1).0 link;
          same_root_device = (==_iff r.root_stat.device storage.root_device).0 root_device;
          same_root_inode = (==_iff r.root_stat.inode storage.root_inode).0 root_inode;
          no_path_symlink = no_path;
          no_root_symlink = no_root;
          unchanged =
              all_true _ _ _ _ _ _ _ device inode link root_device root_inode no_path no_root;
        }

pub verified :
    (storage : ValidatedDatabaseStorage) (answers : IdentityAnswers)
    → AllPassed (λ _. IsUnchanged storage answers) (verify_path storage answers)
unfolding verify_path
verified storage answers =
    require-then (λ _. IsUnchanged storage answers)
      (not (answers.path_has_symlink || answers.root_has_symlink)) _ _
      λ links. resolved-IsUnchanged storage answers answers.resolved refl links

-- Where the guard lets a transaction begin, no path goes through a symbolic link, the paths resolve
-- to the validated ones, with the file directly inside the root, the devices and inodes are those
-- that were validated and the file has one link; and the check of the storage monitor finds the
-- identity unchanged.
pub verify_path-IsUnchanged :
    (storage : ValidatedDatabaseStorage) (answers : IdentityAnswers)
    → verify_path storage answers ≡ passed tt
    → IsUnchanged storage answers
verify_path-IsUnchanged storage answers e =
    subst (AllPassed (λ _. IsUnchanged storage answers)) e (verified storage answers)
