-- ===== src/ProcessLock.antt =====
-- DatabaseProcessLock of src/butterbot/infrastructure/persistence/process_lock.py. A process is a
-- number; the operating system keeps who has the abstract socket and who has locked the file.
pub mod Exclusive
use butterbot.Base.{
  ℕ, Bool, true, false, not, ◌&&◌, ◌||◌, Option, none, some, is_some, if◌then◌else◌, ◌==◌,
}
use butterbot.Checked.{Checked, refused, passed}

pub record DatabaseProcessLock : Type 0 where
  pub file : Bool
  pub socket : Bool

-- `__init__`
abbrev pub new_lock : DatabaseProcessLock
new_lock = record { file = false; socket = false }

pub record Owners : Type 0 where
  pub socket_owner : Option ℕ
  pub file_owner : Option ℕ

-- What the platform answers when the lock is taken.
pub record Host : Type 0 where
  pub is_linux : Bool
  pub path_is_symlink : Bool
  pub opens_file : Bool

pub record Held : Type 0 where
  pub lock : DatabaseProcessLock
  pub owners : Owners

-- `_acquire_linux_socket`: binding a name that is taken is an OSError.
unfoldable pub acquire_linux_socket : ℕ → DatabaseProcessLock → Owners → Checked Held
acquire_linux_socket process lock owners =
    if is_some owners.socket_owner
    then refused "process_lock_unavailable"
    else passed record {
      lock = record lock { socket = true };
      owners = record owners { socket_owner = some process };
    }

-- `flock` or `locking` without waiting.
unfoldable pub acquire_file : Host → ℕ → DatabaseProcessLock → Owners → Checked Held
acquire_file host process lock owners =
    if host.path_is_symlink
    then refused "process_lock_unavailable"
    else if not host.opens_file
    then refused "process_lock_unavailable"
    else if is_some owners.file_owner
    then refused "process_lock_unavailable"
    else passed record {
      lock = record lock { file = true };
      owners = record owners { file_owner = some process };
    }

unfoldable pub acquire : Host → ℕ → DatabaseProcessLock → Owners → Checked Held
acquire host process lock owners =
    if lock.file || lock.socket
    then passed record { lock = lock; owners = owners }
    else if host.is_linux
    then acquire_linux_socket process lock owners
    else acquire_file host process lock owners

-- Closing the socket frees its name.
unfoldable pub release_socket : Held → Held
release_socket held = if not held.lock.socket then held else record {
  lock = record held.lock { socket = false };
  owners = record held.owners { socket_owner = none };
}

-- The file is closed, and so unlocked, also when unlocking it raises.
unfoldable pub release_file : Held → Held
release_file held = if not held.lock.file then held else record {
  lock = record held.lock { file = false };
  owners = record held.owners { file_owner = none };
}

unfoldable pub release : Held → Held
release held = release_file (release_socket held)
