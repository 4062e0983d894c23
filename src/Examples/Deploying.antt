-- ===== src/Examples/Deploying.antt =====
-- The process lock, the runtime and the composed application at the host of Storing:
-- src/butterbot/infrastructure/persistence/process_lock.py, database.py and src/butterbot/bootstrap.py.
use butterbot.Base.{ℕ, true, false, none, some, List, [], ◌∷◌, ◌≡◌, inl, refl}
use butterbot.Bootstrap.{
  ApplicationRuntime, composed, compose_started, compose_with, compose_application,
}
use butterbot.Bootstrap.Deployed.{IsDeployed, compose_application-IsDeployed}
use butterbot.Checked.{require, ◌then◌}
use butterbot.Configuration.{strict_bool, optional_identity, check_combination, load_settings}
use butterbot.Configuration.Safety.{read_limit, ordered_policy, load_safety_policy}
use butterbot.Exact.{require_int64}
use butterbot.Examples.Configuring.{production_platform, production_settings, production_policy}
use butterbot.Examples.Operations.{joining, released, healthy}
use butterbot.Examples.Storing.{host, stored, file_stat, directory_stat, later, answers_later}
use butterbot.Lifecycle.{new_lifecycle}
use butterbot.Lifecycle.Draining.{closes_all}
use butterbot.Lifecycle.Steps.{Reachable}
use butterbot.Monitor.{sample, set_safe, drain_safety_transitions, drain_queue}
use butterbot.Monitor.Sampling.{sample_error}
use butterbot.Policy.{safety_policy}
use butterbot.ProcessLock.{Owners, Host, Held, acquire, acquire_linux_socket}
use butterbot.ProcessLock.Exclusive.{
  Machine, new_machine, Action, act, acquired, set_lock, Reachable as ReachableMachine,
  exclusive_lem,
}
use butterbot.Readiness.{
  default_revision_contract, check_schema_readiness, check_pragmas, the_revision, verify_revision,
  check_aggregates, same_schema, observed_schema,
}
use butterbot.Runtime.{
  Release, StartAnswers, DatabaseRuntime, Attempt, configure_sqlite_connection, start_engine,
  end_start, start_owned, start_locked, start_validated, create_database_runtime, close_all,
}
use butterbot.Runtime.Closing.{IsOrderly, close_all-IsOrderly, close_all_ends}
use butterbot.Sentinel.{
  no_aggregates, change_all, change, insert_player, insert_account, insert_balance, has_wallet,
  has_account,
}
use butterbot.Sentinel.Changes.{empty-IsExact, change_all-IsExact}
use butterbot.Storage.{
  relative_to, longest, linux_mount_for, require_no_capabilities, require_protection,
  validate_linux_replacement_protection, require_init_namespace, validate_linux_network_namespace,
  approved_mount, production_mount, validate_canonical, validate_resolved,
  validate_database_storage,
}
use butterbot.Storage.Committing.{the_only, connection_main_path}
use butterbot.Storage.Identity.{
  verify_path, verify_resolved, verify_connected, verify_connection_path, same_path,
  identity_unchanged,
}

abbrev linux : Host
linux = record { is_linux = true; path_is_symlink = false; opens_file = true }

abbrev one_holder : Machine
one_holder = act (Action.acquires linux 5) (act (Action.acquires linux 3) new_machine)

exclusive_lem_example : ◌≡◌ {A = ℕ} 3 3
unfolding act acquired set_lock acquire acquire_linux_socket
exclusive_lem_example =
    exclusive_lem {m = one_holder} 3 3
      (ReachableMachine.next (Action.acquires linux 5) _
        (ReachableMachine.next (Action.acquires linux 3) _ ReachableMachine.fresh))
      (inl refl)

abbrev free_owners : Owners
free_owners = record { socket_owner = none; file_owner = none }

abbrev this_release : Release
this_release = record {
  hash = λ sql. "x";
  schema = released;
  revisions = default_revision_contract;
}

abbrev start_answers : StartAnswers
start_answers = record {
  before_lock = host;
  host = linux;
  storage = host;
  connection = answers_later;
  database = healthy;
  first_sample = record {
    storage = host;
    stats = some (file_stat, directory_stat);
    identity = later;
    checkpointed = true;
  };
  taken = λ n. true;
  disposes = true;
}

abbrev deployed : ApplicationRuntime
deployed = record {
  database = record {
    storage = stored;
    observed_revision = "20261005_0009";
    monitor = record {
      configured_mutations_enabled = true;
      safe = true;
      pending_safety_transitions = [];
      emitted = [];
    };
  };
  mutations_enabled = true;
  safety_policy = some production_policy;
}

compose_application-IsDeployed_example :
    IsDeployed this_release start_answers
      (change_all joining no_aggregates)
      production_settings
      (compose_application production_platform this_release
        (λ path root. start_answers)
        3
        free_owners
        production_settings)
      deployed
unfolding compose_application compose_with compose_started composed load_safety_policy safety_policy
    read_limit ordered_policy require_int64 load_settings check_combination optional_identity
    strict_bool create_database_runtime start_validated start_locked start_owned end_start
    start_engine configure_sqlite_connection acquire acquire_linux_socket change_all change
    insert_player insert_account insert_balance has_wallet has_account check_schema_readiness
    check_pragmas the_revision verify_revision check_aggregates same_schema observed_schema sample
    set_safe drain_safety_transitions drain_queue sample_error validate_database_storage
    validate_resolved validate_canonical production_mount approved_mount linux_mount_for relative_to
    longest validate_linux_replacement_protection require_protection require_no_capabilities
    validate_linux_network_namespace require_init_namespace the_only connection_main_path
    verify_path verify_resolved verify_connected verify_connection_path same_path identity_unchanged
    require ◌then◌
compose_application-IsDeployed_example =
    compose_application-IsDeployed production_platform this_release
      (change_all joining no_aggregates) (λ path root. start_answers) 3 free_owners
      production_settings refl refl (change_all-IsExact joining no_aggregates empty-IsExact) refl
      deployed refl

abbrev held : Held
held = record {
  lock = record { file = false; socket = true };
  owners = record { socket_owner = some 3; file_owner = none };
}

abbrev open_runtime : DatabaseRuntime
open_runtime = record { monitor_closed = false; engine_open = true; held = held; closed = false }

abbrev good_attempt : Attempt
good_attempt = record {
  current = some 7;
  lifecycle = new_lifecycle;
  monitor_closes = true;
  owners_pending = false;
  attempts = closes_all;
  disposes = true;
  releases = true;
}

-- At first the engine cannot be disposed of.
abbrev two_attempts : List Attempt
two_attempts = record good_attempt { disposes = false } ∷ good_attempt ∷ []

close_all-IsOrderly_example : IsOrderly two_attempts held (close_all two_attempts open_runtime)
close_all-IsOrderly_example =
    close_all-IsOrderly two_attempts held open_runtime (Reachable.created, (Reachable.created, tt))
      (IsOrderly.keeps_lock refl refl)

close_all_ends_example : (close_all two_attempts open_runtime).closed ≡ true
close_all_ends_example =
    close_all_ends (record good_attempt { disposes = false } ∷ []) good_attempt open_runtime refl
      refl refl refl
