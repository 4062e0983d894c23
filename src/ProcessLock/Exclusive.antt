-- ===== src/ProcessLock/Exclusive.antt =====
-- One process at a time has the lock of src/butterbot/infrastructure/persistence/process_lock.py,
-- whatever processes acquire and release, and whenever they die.
use butterbot.Base.{
  if_cases, &&-true, arith, ℕ, Bool, true, false, not, ◌&&◌, ◌||◌, Option, none, some, is_some, ◌≡◌,
  refl, ◌⊎◌, inl, inr, String, if◌then◌else◌, ◌==◌,
}
use butterbot.Checked.{Checked, refused, passed}
use butterbot.ProcessLock.{
  DatabaseProcessLock, new_lock, Owners, Host, Held, acquire_linux_socket, acquire_file, acquire,
  release_socket, release_file, release,
}

-- The processes of a machine, each with its lock.
pub record Machine : Type 0 where
  pub owners : Owners
  pub locks : ℕ → DatabaseProcessLock

abbrev pub new_machine : Machine
new_machine = record {
  owners = record { socket_owner = none; file_owner = none };
  locks = λ p. new_lock;
}

unfoldable pub set_lock : ℕ → Held → Machine → Machine
set_lock p held m = record {
  owners = held.owners;
  locks = λ q. if q == p then held.lock else m.locks q;
}

abbrev pub held_by : ℕ → Machine → Held
held_by p m = record { lock = m.locks p; owners = m.owners }

unfoldable pub acquired : ℕ → Machine → Checked Held → Machine
acquired p m (refused category) = m
acquired p m (passed held) = set_lock p held m

-- What a process does; the operating system frees what a process that dies has.
pub data Action : Type 0 where
  acquires : Host → ℕ → Action
  releases : ℕ → Action
  dies : ℕ → Action

unfoldable pub act : Action → Machine → Machine
act (acquires host p) m = acquired p m (acquire host p (m.locks p) m.owners)
act (releases p) m = set_lock p (release (held_by p m)) m
act (dies p) m = set_lock p (release (held_by p m)) m

pub data Reachable : Machine → Type 0 where
  fresh : Reachable new_machine
  next : (action : Action) (m : Machine) → Reachable m → Reachable (act action m)

abbrev pub owner_is : Option ℕ → ℕ → Bool
owner_is none p = false
owner_is (some q) p = q == p

-- Whoever holds a lock is the owner that the operating system knows.
abbrev pub is_owner : Bool → Option ℕ → ℕ → Bool
is_owner held owner p = not held || owner_is owner p

record AreOwners (m : Machine) : Type 0 where
  socket : (p : ℕ) → is_owner (m.locks p).socket m.owners.socket_owner p ≡ true
  file : (p : ℕ) → is_owner (m.locks p).file m.owners.file_owner p ≡ true

-- The lock of `p` is freed: what `q` is left with.
freed :
    (held other : Bool) (owner : Option ℕ) (p q : ℕ)
    → is_owner held owner p ≡ true
    → is_owner other owner q ≡ true
    → is_owner (if q == p then false else other) (if held then none else owner) q ≡ true
freed held other none p q hp hq = ground arith
freed held other (some r) p q hp hq = ground arith

-- The lock was free, and `p` takes it.
taken :
    (other : Bool) (owner : Option ℕ) (p q : ℕ)
    → is_some owner ≡ false
    → is_owner other owner q ≡ true
    → is_owner (if q == p then true else other) (some p) q ≡ true
taken other none p q free hq = ground arith
taken other (some r) p q free hq = ground arith

-- A lock of the other kind is not touched.
kept :
    (held other : Bool) (owner : Option ℕ) (p q : ℕ)
    → is_owner held owner p ≡ true
    → is_owner other owner q ≡ true
    → is_owner (if q == p then held else other) owner q ≡ true
kept held other none p q hp hq = ground arith
kept held other (some r) p q hp hq = ground arith

release-socket : (held : Held) → (release held).lock.socket ≡ false
unfolding release release_file release_socket
release-socket held = ground arith

release-file : (held : Held) → (release held).lock.file ≡ false
unfolding release release_file release_socket
release-file held = ground arith

release-socket_owner :
    (held : Held)
    → (release held).owners.socket_owner
      ≡ (if held.lock.socket then none else held.owners.socket_owner)
unfolding release release_file release_socket
release-socket_owner held = ground arith

release-file_owner :
    (held : Held)
    → (release held).owners.file_owner ≡ (if held.lock.file then none else held.owners.file_owner)
unfolding release release_file release_socket
release-file_owner held = ground arith

lock_socket :
    (b : Bool) (a c : DatabaseProcessLock)
    → (if b then a else c).socket ≡ (if b then a.socket else c.socket)
lock_socket true a c = refl
lock_socket false a c = refl

lock_file :
    (b : Bool) (a c : DatabaseProcessLock)
    → (if b then a else c).file ≡ (if b then a.file else c.file)
lock_file true a c = refl
lock_file false a c = refl

release-AreOwners :
    (p : ℕ) (m : Machine) → AreOwners m → AreOwners (set_lock p (release (held_by p m)) m)
unfolding set_lock
release-AreOwners p m old = record {
  socket = λ q.
      rw
        (
          lock_socket (q == p) (release (held_by p m)).lock (m.locks q),
          release-socket (held_by p m),
          release-socket_owner (held_by p m),
        )
        (freed (m.locks p).socket (m.locks q).socket m.owners.socket_owner p q (old.socket p)
          (old.socket q));
  file = λ q.
      rw
        (
          lock_file (q == p) (release (held_by p m)).lock (m.locks q),
          release-file (held_by p m),
          release-file_owner (held_by p m),
        )
        (freed (m.locks p).file (m.locks q).file m.owners.file_owner p q (old.file p) (old.file q));
}

-- A lock that is taken, of one kind or the other.
data Takes (p : ℕ) (m : Machine) : Checked Held → Type 0 where
  none_taken : (category : String) → Takes p m (refused category)
  held_already : Takes p m (passed (held_by p m))
  takes_socket :
      is_some m.owners.socket_owner ≡ false
      → Takes p m (
          passed record {
            lock = record (m.locks p) { socket = true };
            owners = record m.owners { socket_owner = some p };
          })
  takes_file :
      is_some m.owners.file_owner ≡ false
      → Takes p m (
          passed record {
            lock = record (m.locks p) { file = true };
            owners = record m.owners { file_owner = some p };
          })

acquire-Takes :
    (host : Host) (p : ℕ) (m : Machine) → Takes p m (acquire host p (m.locks p) m.owners)
unfolding acquire acquire_linux_socket acquire_file
acquire-Takes host p m =
    if_cases (Takes p m) ((m.locks p).file || (m.locks p).socket) _ _ (λ _. held_already)
      λ _.
        if_cases (Takes p m) host.is_linux _ _
          (λ _.
            if_cases (Takes p m) (is_some m.owners.socket_owner) _ _ (λ _. none_taken _)
              takes_socket)
          λ _.
            if_cases (Takes p m) host.path_is_symlink _ _ (λ _. none_taken _)
              λ _.
                if_cases (Takes p m) (not host.opens_file) _ _ (λ _. none_taken _)
                  λ _.
                    if_cases (Takes p m) (is_some m.owners.file_owner) _ _ (λ _. none_taken _)
                      takes_file

acquired-AreOwners :
    (p : ℕ) (m : Machine) (r : Checked Held)
    → Takes p m r
    → AreOwners m
    → AreOwners (acquired p m r)
unfolding acquired set_lock
acquired-AreOwners p m r (none_taken category) old = old
acquired-AreOwners p m r held_already old = record {
  socket = λ q. rw (lock_socket (q == p) (m.locks p) (m.locks q)) (
      kept (m.locks p).socket (m.locks q).socket m.owners.socket_owner p q (old.socket p)
        (old.socket q));
  file = λ q.
      rw (lock_file (q == p) (m.locks p) (m.locks q))
        (kept (m.locks p).file (m.locks q).file m.owners.file_owner p q (old.file p) (old.file q));
}
acquired-AreOwners p m r (takes_socket free) old = record {
  socket = λ q.
      rw (lock_socket (q == p) (record (m.locks p) { socket = true }) (m.locks q))
        (taken (m.locks q).socket m.owners.socket_owner p q free (old.socket q));
  file = λ q.
      rw (lock_file (q == p) (record (m.locks p) { socket = true }) (m.locks q))
        (kept (m.locks p).file (m.locks q).file m.owners.file_owner p q (old.file p) (old.file q));
}
acquired-AreOwners p m r (takes_file free) old = record {
  socket = λ q. rw (lock_socket (q == p) (record (m.locks p) { file = true }) (m.locks q)) (
      kept (m.locks p).socket (m.locks q).socket m.owners.socket_owner p q (old.socket p)
        (old.socket q));
  file = λ q.
      rw (lock_file (q == p) (record (m.locks p) { file = true }) (m.locks q))
        (taken (m.locks q).file m.owners.file_owner p q free (old.file q));
}

act-AreOwners : (action : Action) (m : Machine) → AreOwners m → AreOwners (act action m)
unfolding act
act-AreOwners (acquires host p) m old =
    acquired-AreOwners p m (acquire host p (m.locks p) m.owners) (acquire-Takes host p m) old
act-AreOwners (releases p) m old = release-AreOwners p m old
act-AreOwners (dies p) m old = release-AreOwners p m old

Reachable-AreOwners : {m : Machine} → Reachable m → AreOwners m
Reachable-AreOwners fresh = record { socket = λ p. refl; file = λ p. refl }
Reachable-AreOwners (next action m r) = act-AreOwners action m (Reachable-AreOwners r)

one_owner :
    (owner : Option ℕ) (p q : ℕ) (a b : Bool)
    → is_owner a owner p ≡ true
    → is_owner b owner q ≡ true
    → a ≡ true
    → b ≡ true
    → p ≡ q
one_owner none p q a b hp hq x y = ground arith
one_owner (some r) p q a b hp hq x y = ground arith

-- Two processes of which both hold the socket, or both hold the file, are the same process.
pub exclusive_lem :
    {m : Machine} (p q : ℕ)
    → Reachable m
    → (((m.locks p).socket && (m.locks q).socket) ≡ true)
      ⊎ (((m.locks p).file && (m.locks q).file) ≡ true)
    → p ≡ q
exclusive_lem {m} p q r (inl both) =
    let old = Reachable-AreOwners r in
    let each = &&-true _ _ both in
    one_owner m.owners.socket_owner p q _ _ (old.socket p) (old.socket q) each.0 each.1
exclusive_lem {m} p q r (inr both) =
    let old = Reachable-AreOwners r in
    let each = &&-true _ _ both in
    one_owner m.owners.file_owner p q _ _ (old.file p) (old.file q) each.0 each.1
