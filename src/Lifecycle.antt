-- ===== src/Lifecycle.antt =====
-- UnitOfWorkLifecycle and the phases and resources of SqlAlchemyUnitOfWork:
-- src/butterbot/infrastructure/persistence/unit_of_work.py. A unit and a task are numbers; a
-- function here is what runs between two awaits.
pub mod Steps
pub mod Slots
pub mod Tracked
pub mod Cancelling
pub mod Draining
use butterbot.Base.{
  is_empty, Option, none, some, ℕ, zero, suc, ◌-◌, Bool, true, false, not, ◌&&◌, ◌||◌, List, [],
  ◌∷◌, map, ◌++◌, any, all, select, if◌then◌else◌, ◌==◌,
}
use butterbot.Result.{Result, ok, err, runtime_error, shutdown_incomplete, ◌>>=◌, ◌>>◌}

pub data TransactionPhase : Type 0 where
  new starting active committing committed rolling_back rolled_back failed : TransactionPhase

pub record UnitOfWork : Type 0 where
  pub phase : TransactionPhase
  pub session : Bool
  pub connection : Bool
  pub shutdown_cancel_requested : Bool
  pub cleanup_failed : Bool

-- `__init__`
abbrev pub new_unit : UnitOfWork
new_unit = record {
  phase = TransactionPhase.new;
  session = false;
  connection = false;
  shutdown_cancel_requested = false;
  cleanup_failed = false;
}

pub record Registration : Type 0 where
  pub unit : ℕ
  pub owner : ℕ

-- UnitOfWorkLifecycle, with the units themselves and whether the identity guard is marked unsafe.
pub record UnitOfWorkLifecycle : Type 0 where
  pub active : List Registration
  pub unresolved : List ℕ
  pub waiting : List ℕ
  pub accepting : Bool
  pub writer_slots : ℕ
  pub units : ℕ → UnitOfWork
  pub unsafe : Bool

abbrev pub new_lifecycle : UnitOfWorkLifecycle
new_lifecycle = record {
  active = [];
  unresolved = [];
  waiting = [];
  accepting = true;
  writer_slots = 4;
  units = λ u. new_unit;
  unsafe = false;
}

-- What an operation leaves when it may have raised before it changed anything.
abbrev pub after : Result UnitOfWorkLifecycle → UnitOfWorkLifecycle → UnitOfWorkLifecycle
after (ok m) l = m
after (err e) l = l

unfoldable pub is_active : List Registration → ℕ → Bool
is_active registered u = any (λ r. r.unit == u) registered

abbrev pub member : List ℕ → ℕ → Bool
member xs x = any (λ y. y == x) xs

-- `xs.discard(x)`
abbrev pub discard : ℕ → List ℕ → List ℕ
discard x xs = select (λ y. not (y == x)) xs

-- `xs.add(x)`
abbrev pub add : ℕ → List ℕ → List ℕ
add x xs = if member xs x then xs else x ∷ xs

unfoldable pub set_unit : ℕ → UnitOfWork → (ℕ → UnitOfWork) → ℕ → UnitOfWork
set_unit u changed units v = if v == u then changed else units v

abbrev pub update : ℕ → UnitOfWork → UnitOfWorkLifecycle → UnitOfWorkLifecycle
update u changed l = record l { units = set_unit u changed l.units }

abbrev pub resources_closed : UnitOfWork → Bool
resources_closed x = not x.session && not x.connection

unfoldable pub shutdown_cancellable : UnitOfWork → Bool
shutdown_cancellable x = elim x.phase [
  | TransactionPhase.new ↦ true
  | TransactionPhase.starting ↦ true
  | TransactionPhase.active ↦ true
  | _ ↦ false
]

-- `register` up to its await: the task waits for a writer slot.
unfoldable pub register : ℕ → UnitOfWorkLifecycle → Result UnitOfWorkLifecycle
register task l =
    if not l.accepting then err runtime_error else ok (record l { waiting = add task l.waiting })

-- The rest of `register` once a slot is taken. The second is whether the caller goes on: it does
-- not after a shutdown, nor past its deadline, when it keeps the registration all the same.
unfoldable pub admit : ℕ → ℕ → Bool → UnitOfWorkLifecycle → UnitOfWorkLifecycle × Bool
admit u task in_time l =
    let done = discard task l.waiting in
    if not l.accepting then (record l { waiting = done }, false) else (
      record l {
        waiting = done;
        active = record { unit = u; owner = task } ∷ l.active;
        writer_slots = l.writer_slots - 1;
      },
      in_time,
    )

-- `register` where the wait for a slot has timed out or was cancelled.
unfoldable pub give_up : ℕ → UnitOfWorkLifecycle → UnitOfWorkLifecycle
give_up task l = record l { waiting = discard task l.waiting }

-- `del active[unit]`
unfoldable pub others : ℕ → List Registration → List Registration
others u registered = select (λ r. not (r.unit == u)) registered

unfoldable pub finish : ℕ → UnitOfWorkLifecycle → UnitOfWorkLifecycle
finish u l =
    if is_active l.active u
    then record l {
      active = others u l.active;
      writer_slots = suc l.writer_slots;
      unresolved = if resources_closed (l.units u) then l.unresolved else add u l.unresolved;
    }
    else l

-- What became of an attempt to close the session and the connection.
pub record Closing : Type 0 where
  pub session_closed : Bool
  pub connection_closed : Bool

-- `_close_resources_attempt`: what could not be closed stays.
unfoldable pub close_resources_attempt : Closing → UnitOfWork → UnitOfWork
close_resources_attempt closing x = record x {
  session = x.session && not closing.session_closed;
  connection = x.connection && not closing.connection_closed;
}

-- `record_cleanup_failure` after an attempt that left something open.
unfoldable pub cleaned : ℕ → Closing → UnitOfWorkLifecycle → UnitOfWorkLifecycle
cleaned u closing l =
    let x = close_resources_attempt closing (l.units u) in
    if resources_closed x
    then update u x l
    else record (update u (record x { cleanup_failed = true }) l) { unsafe = true }

abbrev pub set_phase : TransactionPhase → UnitOfWork → UnitOfWork
set_phase phase x = record x { phase = phase }

-- `__aenter__` step by step: its first line, the connection, the session, the begun transaction.
unfoldable pub start : ℕ → UnitOfWorkLifecycle → UnitOfWorkLifecycle
start u l = update u (set_phase TransactionPhase.starting (l.units u)) l

unfoldable pub connect : ℕ → UnitOfWorkLifecycle → UnitOfWorkLifecycle
connect u l = update u (record (l.units u) { connection = true }) l

unfoldable pub open_session : ℕ → UnitOfWorkLifecycle → UnitOfWorkLifecycle
open_session u l = update u (record (l.units u) { session = true }) l

unfoldable pub begun : ℕ → UnitOfWorkLifecycle → UnitOfWorkLifecycle
begun u l = update u (set_phase TransactionPhase.active (l.units u)) l

-- `__aenter__` on an exception: the cleanup, then `finish`.
unfoldable pub fail_entering : ℕ → Closing → UnitOfWorkLifecycle → UnitOfWorkLifecycle
fail_entering u closing l =
    finish u (cleaned u closing (update u (set_phase TransactionPhase.failed (l.units u)) l))

-- `__aexit__` up to the commit or the rollback: whether the body raised, whether its task is being
-- cancelled, and whether the checks before a commit pass.
unfoldable pub exit : ℕ → Bool → Bool → Bool → UnitOfWorkLifecycle → UnitOfWorkLifecycle
exit u raised cancelling checks_pass l =
    let x = l.units u in
    let next =
      if not raised && not (x.shutdown_cancel_requested || cancelling)
      then (if checks_pass then TransactionPhase.committing else TransactionPhase.failed)
      else TransactionPhase.rolling_back in
    update u (set_phase next x) l

unfoldable pub after_completion : Bool → TransactionPhase → TransactionPhase
after_completion succeeded TransactionPhase.committing =
    if succeeded then TransactionPhase.committed else TransactionPhase.failed
after_completion succeeded TransactionPhase.rolling_back =
    if succeeded then TransactionPhase.rolled_back else TransactionPhase.failed
after_completion succeeded other = other

-- The awaited commit or rollback of `__aexit__` has ended.
unfoldable pub completed : ℕ → Bool → UnitOfWorkLifecycle → UnitOfWorkLifecycle
completed u succeeded l =
    update u (set_phase (after_completion succeeded (l.units u).phase) (l.units u)) l

-- The `finally` of `__aexit__`.
unfoldable pub leave : ℕ → Closing → UnitOfWorkLifecycle → UnitOfWorkLifecycle
leave u closing l = finish u (cleaned u closing l)

-- One unit in `_retry_unresolved_cleanup`, when its attempt has ended.
unfoldable pub retry_cleanup : ℕ → Closing → UnitOfWorkLifecycle → UnitOfWorkLifecycle
retry_cleanup u closing l =
    let m = cleaned u closing l in
    if resources_closed (m.units u) then record m { unresolved = discard u m.unresolved } else m

-- `begin_shutdown`, with the tasks that it captures: those it cancels while they wait, and owners.
unfoldable pub begin_shutdown : UnitOfWorkLifecycle → UnitOfWorkLifecycle × List ℕ
begin_shutdown l = (record l { accepting = false }, l.waiting ++ map (λ r. r.owner) l.active)

unfoldable pub request_shutdown_cancel : ℕ → UnitOfWorkLifecycle → Result UnitOfWorkLifecycle
request_shutdown_cancel u l =
    if not (shutdown_cancellable (l.units u))
    then err runtime_error
    else ok (update u (record (l.units u) { shutdown_cancel_requested = true }) l)

-- `for unit in active_units: unit.request_shutdown_cancel()`
unfoldable pub request_all : List ℕ → UnitOfWorkLifecycle → Result UnitOfWorkLifecycle
request_all [] l = ok l
request_all (u ∷ us) l = request_shutdown_cancel u l >>= request_all us

abbrev pub units_of : ℕ → List Registration → List ℕ
units_of owner registered = map (λ r. r.unit) (select (λ r. r.owner == owner) registered)

-- One owner that is still pending in `drain`; the second is whether its task is cancelled.
unfoldable pub cancel_owner : ℕ → UnitOfWorkLifecycle → Result (UnitOfWorkLifecycle × Bool)
cancel_owner owner l =
    let active_units = units_of owner l.active in
    if all (λ u. shutdown_cancellable (l.units u)) active_units
    then (request_all active_units l >>= λ m. ok (m, true))
    else ok (l, false)

-- One unit in `_retry_unresolved_cleanup`: how its attempt ended, if it ended in time.
unfoldable pub retry_one : ℕ → Option Closing → UnitOfWorkLifecycle → UnitOfWorkLifecycle
retry_one u (some closing) l = retry_cleanup u closing l
retry_one u none l =
    if resources_closed (l.units u) then record l { unresolved = discard u l.unresolved } else l

unfoldable pub retry_each :
    (ℕ → Option Closing) → List ℕ → UnitOfWorkLifecycle → UnitOfWorkLifecycle
retry_each attempts [] l = l
retry_each attempts (u ∷ us) l = retry_each attempts us (retry_one u (attempts u) l)

-- `_retry_unresolved_cleanup`: a failed or unfinished attempt leaves its unit unresolved.
unfoldable pub retry_unresolved_cleanup :
    (ℕ → Option Closing) → UnitOfWorkLifecycle → Result UnitOfWorkLifecycle
retry_unresolved_cleanup attempts l =
    let m = retry_each attempts l.unresolved l in
    if is_empty m.unresolved then ok m else err shutdown_incomplete

-- The end of `drain`: whether owners are still pending after their cancellation.
unfoldable pub end_drain :
    Bool → (ℕ → Option Closing) → UnitOfWorkLifecycle → Result UnitOfWorkLifecycle
end_drain pending attempts l =
    if pending
    then err shutdown_incomplete
    else if not (is_empty l.active)
    then err shutdown_incomplete
    else retry_unresolved_cleanup attempts l
