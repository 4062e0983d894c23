-- ===== src/Examples/Lifecycle.antt =====
-- The theorems on the lifecycle of src/butterbot/infrastructure/persistence/unit_of_work.py at a
-- short run: one unit enters, is asked to cancel, rolls back and leaves.
use butterbot.Base.{true, false, ◌≡◌, refl}
use butterbot.Result.{ok}
use butterbot.Lifecycle.{
  UnitOfWorkLifecycle, new_lifecycle, after, is_active, set_unit, others, register, admit, start,
  connect, open_session, begun, exit, completed, leave, request_shutdown_cancel, finish, cleaned,
  close_resources_attempt, shutdown_cancellable, after_completion, end_drain,
  retry_unresolved_cleanup, retry_each,
}
use butterbot.Lifecycle.Steps.{Step, Reachable}
use butterbot.Lifecycle.Slots.{AreSlotsKept, slots_kept}
use butterbot.Lifecycle.Tracked.{AreTracked, resources_tracked}
use butterbot.Lifecycle.Cancelling.{AreSettled, cancelled_never_commits}
use butterbot.Lifecycle.Draining.{
  IsDrained, closer, closes_all, end_drain-IsDrained, end_drain_returns,
}

abbrev started : UnitOfWorkLifecycle
started = start 1 new_lifecycle

abbrev queued : UnitOfWorkLifecycle
queued = after (register 7 started) started

abbrev admitted : UnitOfWorkLifecycle
admitted = (admit 1 7 true queued).0

abbrev connected : UnitOfWorkLifecycle
connected = connect 1 admitted

abbrev running : UnitOfWorkLifecycle
running = begun 1 (open_session 1 connected)

abbrev asked : UnitOfWorkLifecycle
asked = after (request_shutdown_cancel 1 running) running

abbrev rolled_back : UnitOfWorkLifecycle
rolled_back = completed 1 true (exit 1 false false true asked)

abbrev left : UnitOfWorkLifecycle
left = leave 1 closer rolled_back

connected-Reachable : Reachable connected
unfolding start register admit is_active set_unit
connected-Reachable =
    Reachable.stepped
      (Reachable.stepped
        (Reachable.stepped (Reachable.stepped Reachable.created (Step.starts 1 refl))
          (Step.waits 7))
        (Step.is_admitted 1 7 true refl refl refl))
      (Step.connects 1 refl refl)

rolled_back-Reachable : Reachable rolled_back
unfolding start register admit is_active set_unit connect open_session begun request_shutdown_cancel
    shutdown_cancellable
rolled_back-Reachable =
    Reachable.stepped
      (Reachable.stepped
        (Reachable.stepped
          (Reachable.stepped
            (Reachable.stepped connected-Reachable (Step.opens_session 1 refl refl))
            (Step.begins 1 refl refl))
          (Step.is_asked_to_cancel 1))
        (Step.exits 1 false false true refl))
      (Step.completes 1 true)

slots_kept_example : AreSlotsKept rolled_back
slots_kept_example = slots_kept rolled_back-Reachable

resources_tracked_example : AreTracked rolled_back
resources_tracked_example = resources_tracked rolled_back-Reachable

cancelled_never_commits_example : AreSettled rolled_back
cancelled_never_commits_example = cancelled_never_commits rolled_back-Reachable

left-Reachable : Reachable left
left-Reachable = Reachable.stepped rolled_back-Reachable (Step.leaves 1 closer)

end_drain-IsDrained_example : IsDrained left
unfolding end_drain retry_unresolved_cleanup retry_each leave finish cleaned is_active set_unit
    others close_resources_attempt completed exit request_shutdown_cancel begun open_session connect
    admit register start shutdown_cancellable after_completion
end_drain-IsDrained_example = end_drain-IsDrained false closes_all left-Reachable refl

end_drain_returns_example : (m : UnitOfWorkLifecycle) × (end_drain false closes_all left ≡ ok m)
unfolding leave finish cleaned is_active set_unit others close_resources_attempt completed exit
    request_shutdown_cancel begun open_session connect admit register start shutdown_cancellable
    after_completion
end_drain_returns_example = end_drain_returns left refl
