-- ===== src/Lifecycle/Steps.antt =====
-- The life of the units of work of src/butterbot/infrastructure/persistence/unit_of_work.py as
-- steps in any order; the guards say which line of a unit's own code comes next.
use butterbot.Base.{ℕ, suc, Bool, true, false, ◌≡◌}
use butterbot.Lifecycle.{
  UnitOfWorkLifecycle, Closing, TransactionPhase, new_lifecycle, after, is_active, register, admit,
  give_up, start, connect, open_session, begun, fail_entering, exit, completed, leave,
  retry_cleanup, begin_shutdown, request_shutdown_cancel,
}

pub data Step (l : UnitOfWorkLifecycle) : UnitOfWorkLifecycle → Type 0 where
  starts : (u : ℕ) → (l.units u).phase ≡ TransactionPhase.new → Step l (start u l)
  waits : (task : ℕ) → Step l (after (register task l) l)
  gives_up : (task : ℕ) → Step l (give_up task l)
  is_admitted :
      (u task : ℕ) (in_time : Bool) {n : ℕ}
      → l.writer_slots ≡ suc n
      → is_active l.active u ≡ false
      → (l.units u).phase ≡ TransactionPhase.starting
      → Step l (admit u task in_time l).0
  connects :
      (u : ℕ)
      → is_active l.active u ≡ true
      → (l.units u).phase ≡ TransactionPhase.starting
      → Step l (connect u l)
  opens_session :
      (u : ℕ)
      → is_active l.active u ≡ true
      → (l.units u).phase ≡ TransactionPhase.starting
      → Step l (open_session u l)
  begins :
      (u : ℕ)
      → is_active l.active u ≡ true
      → (l.units u).phase ≡ TransactionPhase.starting
      → Step l (begun u l)
  fails_entering :
      (u : ℕ) (closing : Closing)
      → (l.units u).phase ≡ TransactionPhase.starting
      → Step l (fail_entering u closing l)
  exits :
      (u : ℕ) (raised cancelling checks_pass : Bool)
      → (l.units u).phase ≡ TransactionPhase.active
      → Step l (exit u raised cancelling checks_pass l)
  completes : (u : ℕ) (succeeded : Bool) → Step l (completed u succeeded l)
  leaves : (u : ℕ) (closing : Closing) → Step l (leave u closing l)
  retries : (u : ℕ) (closing : Closing) → Step l (retry_cleanup u closing l)
  shuts_down : Step l (begin_shutdown l).0
  is_asked_to_cancel : (u : ℕ) → Step l (after (request_shutdown_cancel u l) l)

-- The lifecycles that a new one can become.
pub data Reachable : UnitOfWorkLifecycle → Type 0 where
  created : Reachable new_lifecycle
  stepped : {l m : UnitOfWorkLifecycle} → Reachable l → Step l m → Reachable m
