-- ===== src/Lifecycle/Cancelling.antt =====
-- Cancellation on shutdown in src/butterbot/infrastructure/persistence/unit_of_work.py.
use butterbot.Base.{
  ℕ, ◌≡◌, refl, Bool, true, false, not, ◌&&◌, ◌||◌, arith, inl, inr, Bool-cases, ◌==◌,
  if◌then◌else◌,
}
use butterbot.Lifecycle.{
  UnitOfWorkLifecycle, UnitOfWork, Closing, TransactionPhase, after, is_active, set_unit, update,
  set_phase, resources_closed, close_resources_attempt, shutdown_cancellable, finish, cleaned,
  retry_cleanup, register, admit, give_up, start, connect, open_session, begun, fail_entering, exit,
  completed, after_completion, leave, begin_shutdown, request_shutdown_cancel,
}
use butterbot.Lifecycle.Steps.{Step, Reachable}

-- The commit has begun or is done.
abbrev pub has_begun_commit : TransactionPhase → Bool
has_begun_commit TransactionPhase.committing = true
has_begun_commit TransactionPhase.committed = true
has_begun_commit _ = false

-- Not both: asked to cancel, and committing.
abbrev pub IsSettled : UnitOfWork → Type 0
IsSettled x = (x.shutdown_cancel_requested && has_begun_commit x.phase) ≡ false

abbrev pub AreSettled : UnitOfWorkLifecycle → Type 0
AreSettled l = (u : ℕ) → IsSettled (l.units u)

settled-update :
    (u : ℕ) (x : UnitOfWork) (l : UnitOfWorkLifecycle)
    → IsSettled x
    → AreSettled l
    → AreSettled (update u x l)
unfolding set_unit
settled-update u x l new old =
    λ v. elim (Bool-cases (v == u)) [ inl e ↦ rw e new | inr e ↦ rw e (old v) ]

set_phase-IsSettled :
    (x : UnitOfWork) (phase : TransactionPhase)
    → has_begun_commit phase ≡ false
    → IsSettled (set_phase phase x)
set_phase-IsSettled x phase h = rw h (ground arith)

settled-finish : (u : ℕ) (l : UnitOfWorkLifecycle) → AreSettled l → AreSettled (finish u l)
unfolding finish
settled-finish u l old =
    λ v. elim (Bool-cases (is_active l.active u)) [ inl e ↦ rw e (old v) | inr e ↦ rw e (old v) ]

settled-cleaned :
    (u : ℕ) (closing : Closing) (l : UnitOfWorkLifecycle)
    → AreSettled l
    → AreSettled (cleaned u closing l)
unfolding cleaned close_resources_attempt
settled-cleaned u closing l old v =
    elim (Bool-cases (resources_closed (close_resources_attempt closing (l.units u)))) [
      | inl e ↦ rw e (settled-update u _ l (old u) old v)
      | inr e ↦ rw e (settled-update u _ l (old u) old v)
    ]

settled-retry :
    (u : ℕ) (closing : Closing) (l : UnitOfWorkLifecycle)
    → AreSettled l
    → AreSettled (retry_cleanup u closing l)
unfolding retry_cleanup
settled-retry u closing l old v =
    elim (Bool-cases (resources_closed ((cleaned u closing l).units u))) [
      | inl e ↦ rw e (settled-cleaned u closing l old v)
      | inr e ↦ rw e (settled-cleaned u closing l old v)
    ]

exit-settled :
    (raised requested cancelling checks_pass : Bool)
    → (requested
        && has_begun_commit (
            if not raised && not (requested || cancelling)
            then (if checks_pass then TransactionPhase.committing else TransactionPhase.failed)
            else TransactionPhase.rolling_back))
      ≡ false
exit-settled raised false cancelling checks_pass = refl
exit-settled true true cancelling checks_pass = refl
exit-settled false true cancelling checks_pass = refl

settled-exit :
    (u : ℕ) (raised cancelling checks_pass : Bool) (l : UnitOfWorkLifecycle)
    → AreSettled l
    → AreSettled (exit u raised cancelling checks_pass l)
unfolding exit
settled-exit u raised cancelling checks_pass l old =
    settled-update u _ l
      (exit-settled raised (l.units u).shutdown_cancel_requested cancelling checks_pass) old

completed-IsSettled :
    (succeeded : Bool) (x : UnitOfWork)
    → IsSettled x
    → IsSettled (set_phase (after_completion succeeded x.phase) x)
unfolding after_completion
completed-IsSettled succeeded x h = ground arith

completed_settles :
    (u : ℕ) (succeeded : Bool) (l : UnitOfWorkLifecycle)
    → AreSettled l
    → AreSettled (completed u succeeded l)
unfolding completed
completed_settles u succeeded l old =
    settled-update u _ l (completed-IsSettled succeeded (l.units u) (old u)) old

cancellable-early :
    (x : UnitOfWork)
    → shutdown_cancellable x ≡ true
    → IsSettled (record x { shutdown_cancel_requested = true })
unfolding shutdown_cancellable
cancellable-early x h = ground arith

settled-request :
    (u : ℕ) (l : UnitOfWorkLifecycle)
    → AreSettled l
    → AreSettled (after (request_shutdown_cancel u l) l)
unfolding request_shutdown_cancel
settled-request u l old = elim (Bool-cases (shutdown_cancellable (l.units u))) [
  | inl e ↦ rw e (settled-update u _ l (cancellable-early (l.units u) e) old)
  | inr e ↦ rw e old
]

settled-register :
    (task : ℕ) (l : UnitOfWorkLifecycle) → AreSettled l → AreSettled (after (register task l) l)
unfolding register
settled-register task l old = elim (Bool-cases l.accepting) [ inl e ↦ rw e old | inr e ↦ rw e old ]

settled-admit :
    (u task : ℕ) (in_time : Bool) (l : UnitOfWorkLifecycle)
    → AreSettled l
    → AreSettled (admit u task in_time l).0
unfolding admit
settled-admit u task in_time l old = elim (Bool-cases l.accepting) [
  | inl e ↦ rw e old
  | inr e ↦ rw e old
]

settled-step : {l m : UnitOfWorkLifecycle} → Step l m → AreSettled l → AreSettled m
unfolding start give_up connect open_session begun fail_entering leave begin_shutdown
settled-step {l} (Step.starts u _) old =
    settled-update u _ l (set_phase-IsSettled (l.units u) TransactionPhase.starting refl) old
settled-step {l} (Step.waits task) old = settled-register task l old
settled-step {l} (Step.gives_up task) old = old
settled-step {l} (Step.is_admitted u task in_time free new _) old =
    settled-admit u task in_time l old
settled-step {l} (Step.connects u _ _) old = settled-update u _ l (old u) old
settled-step {l} (Step.opens_session u _ _) old = settled-update u _ l (old u) old
settled-step {l} (Step.begins u _ _) old =
    settled-update u _ l (set_phase-IsSettled (l.units u) TransactionPhase.active refl) old
settled-step {l} (Step.fails_entering u closing _) old = settled-finish u _ (
    settled-cleaned u closing _
      (settled-update u _ l (set_phase-IsSettled (l.units u) TransactionPhase.failed refl) old))
settled-step {l} (Step.exits u r c p _) old = settled-exit u r c p l old
settled-step {l} (Step.completes u done) old = completed_settles u done l old
settled-step {l} (Step.leaves u closing) old = settled-finish u _ (settled-cleaned u closing l old)
settled-step {l} (Step.retries u closing) old = settled-retry u closing l old
settled-step {l} Step.shuts_down old = old
settled-step {l} (Step.is_asked_to_cancel u) old = settled-request u l old

-- In every lifecycle that a new one can become, no unit of work that was asked to cancel on
-- shutdown has begun its commit.
pub cancelled_never_commits : {l : UnitOfWorkLifecycle} → Reachable l → AreSettled l
cancelled_never_commits Reachable.created = λ u. refl
cancelled_never_commits (Reachable.stepped r s) = settled-step s (cancelled_never_commits r)
