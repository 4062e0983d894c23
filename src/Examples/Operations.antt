-- ===== src/Examples/Operations.antt =====
-- The theorems on readiness, the triggers and the storage monitor, at concrete inputs. They are of
-- src/butterbot/infrastructure/persistence/readiness.py, schema_contract.py and storage_monitor.py.
use butterbot.Base.{true, false, none, some, List, [], ◌∷◌, ◌≡◌}
use butterbot.Eligibility.{evaluate}
use butterbot.Monitor.{Event, new_monitor, run_monitor, transition_to}
use butterbot.Monitor.Delivered.{
  announced, changes, at_runtime, run_monitor-changes, last_found, last_or, run_monitor-evaluate,
}
use butterbot.Readiness.{DatabaseAnswers, SchemaObject}
use butterbot.Sentinel.{Change, no_aggregates, change_all}
use butterbot.Sentinel.Changes.{empty-IsExact, change_all-IsExact}
use butterbot.Sentinel.Exactly.{IsExact}

-- The storage fails, the telemetry is down, then both recover.
abbrev troubled : List Event
troubled =
    Event.samples none (λ n. true)
    ∷ Event.samples (some "unsafe_path") (λ n. false)
    ∷ Event.identity_fails (λ n. false)
    ∷ Event.samples none (λ n. true)
    ∷ []

run_monitor-changes_example :
    announced (run_monitor troubled (new_monitor true)) ≡ changes true true troubled
run_monitor-changes_example = run_monitor-changes true troubled

-- The telemetry has heard the recovery.
run_monitor-evaluate_example :
    let m = run_monitor troubled (new_monitor true) in
    let last = last_or (transition_to true true) (announced m) in
    (m.safe ≡ last_found true troubled)
    × (last.enabled ≡ (evaluate (at_runtime true m.safe)).allowed)
    × (last.reason ≡ (evaluate (at_runtime true m.safe)).reason)
run_monitor-evaluate_example = run_monitor-evaluate true troubled

-- A player joins: the row, the wallet, its balance. A second player has no wallet yet.
abbrev pub joining : List Change
joining =
    Change.inserts_player 1
    ∷ Change.inserts_account record { id = 5; owner = some 1 }
    ∷ Change.inserts_balance 5
    ∷ []

change_all-IsExact_example : IsExact (change_all joining no_aggregates)
change_all-IsExact_example = change_all-IsExact joining no_aggregates empty-IsExact

abbrev pub released : List SchemaObject
released = record { kind = "table"; name = "players"; table = "players"; digest = "x" } ∷ []

abbrev pub healthy : DatabaseAnswers
healthy = record {
  foreign_keys = 1;
  journal_mode = "wal";
  synchronous = 2;
  busy_timeout_ms = 1000;
  alembic_table = true;
  revision_rows = "20261005_0009" ∷ [];
  schema_rows =
      record { row_kind = "table"; row_name = "players"; row_table = "players"; sql = some "y" }
      ∷ [];
  incomplete_request = false;
  violation_kind = none;
}
