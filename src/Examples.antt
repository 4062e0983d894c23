-- ===== src/Examples.antt =====
-- The theorems at concrete inputs, and runs of the model.
pub mod Money
pub mod Rules
pub mod Joining
pub mod Economy
pub mod Storing
pub mod Configuring
pub mod Deploying
pub mod Refusing
pub mod Claiming
pub mod Operations
pub mod Lifecycle
use butterbot.Base.{
  ℕ, suc, ℤ, pos, negsuc, String, Bool, true, false, Option, none, some, List, [], ◌∷◌, ◌≡◌, refl,
  ◌-ℤ◌, ◌==◌, if◌then◌else◌,
}
use butterbot.Json.{Json}
use butterbot.Ledger.Measure.{
  IsBalanced, Measure, drift, net, coins, measure, held, posted_to, posted_by, supply,
}
use butterbot.Grants.{execute_grant}
use butterbot.Policy.{SafetyPolicy, Status}
use butterbot.Result.{Result, ok, err}
use butterbot.Models.{
  TransportRequestModel, active, wallet, grant, approved, pending, grants_propose,
}
use butterbot.Requests.{Registry, discord_retention_registry}
use butterbot.Safety.{SafetyService}
use butterbot.Session.{Session, Environment, empty_database, empty_tracker}
use butterbot.Units.{Operation, joins, claims_daily, run_all, run_unit, perform}
use butterbot.Units.Books.{run_all-IsBalanced}

abbrev pub digit : ℕ → String
digit n =
    if n == 5
    then "5"
    else if n == 6
    then "6"
    else if n == 7
    then "7"
    else if n == 8
    then "8"
    else "9"

abbrev pub test_str_int : ℤ → String
test_str_int (pos n) = digit n
test_str_int (negsuc n) = "-1"

-- A stand-in for the functions of the standard library, on the few values that occur below.
abbrev pub test_env : Environment
test_env = record {
  str_int = test_str_int;
  str_uuid = λ id. test_str_int (pos id);
  hex = λ id. test_str_int (pos id);
  parse_uuid = λ text. some 4;
  uuid5 = λ text. 1000;
  sha256 = λ value. "digest";
  is_printable = λ text. true;
  strip = λ text. text;
}

abbrev pub test_registry : Registry
test_registry =
    discord_retention_registry
      ("players.join" ∷ "economy.daily" ∷ "safety.propose" ∷ "safety.approve" ∷ [])

abbrev pub test_service : SafetyService
test_service = record {
  env = test_env;
  periods = test_registry;
  policy = none;
  runtime_safe = true;
  grants_allowed = true;
}

abbrev pub start : Session
start = record {
  db = empty_database;
  tracker = empty_tracker;
  pending_request_ids = [];
  after_commit = [];
  ids = λ n. suc n;
  next_id = 0;
}

start_measure : (m : Measure) → measure m [] [] ≡ pos 0
unfolding measure held posted_to posted_by supply ◌-ℤ◌
start_measure (drift a) = refl
start_measure (net t) = refl
start_measure coins = refl

start-IsBalanced : IsBalanced start
start-IsBalanced = (start_measure, (refl, (refl, refl, refl)))

abbrev two_operations : List Operation
two_operations = joins true (pos 5) 7 8 ∷ claims_daily true (pos 6) 7 9 (pos 0) ∷ []

run_all-IsBalanced_example : IsBalanced (run_all test_service two_operations start)
run_all-IsBalanced_example = run_all-IsBalanced test_service two_operations start start-IsBalanced

-- A session in which actor 5 may be granted 10 coins for player 7, and a policy.
abbrev pub test_policy : SafetyPolicy
test_policy = record {
  approval_threshold = pos 20;
  per_operation_ceiling = pos 50;
  rolling_24h_ceiling = pos 80;
}

abbrev pub test_request : ℕ → String → TransportRequestModel
test_request id namespace = record {
  id = id;
  namespace = namespace;
  transport_key = "8";
  actor_kind = "discord_user";
  actor_reference = "5";
  request_fingerprint = "digest";
  completion = none;
}

abbrev pub grant_start : Session
grant_start = record start {
  db = record empty_database {
    players =
        record { id = 2; discord_user_id = 7; created_at_ms = pos 5; lifecycle_state = active }
        ∷ [];
    accounts =
        record {
          id = 3;
          player_id = some 2;
          account_kind = wallet;
          currency_key = "coin";
          system_key = none;
          created_at_ms = pos 5;
        }
        ∷ [];
    balances =
        record { account_id = 3; account_kind = wallet; amount = pos 0; version = pos 0 } ∷ [];
    requests = test_request 4 "safety.execute_grant" ∷ test_request 5 "safety.correct_grant" ∷ [];
    capabilities = record { actor_id = 6; capability = grants_propose } ∷ [];
    proposals =
        record {
          id = 30;
          actor_id = 5;
          operation = grant;
          amount = pos 10;
          reason = "prize";
          created_at_ms = pos 1;
          expires_at_ms = pos 100;
          requires_approval = false;
          status = approved;
          approver_id = none;
        }
        ∷ record {
          id = 31;
          actor_id = 6;
          operation = grant;
          amount = pos 10;
          reason = "prize";
          created_at_ms = pos 1;
          expires_at_ms = pos 100;
          requires_approval = true;
          status = pending;
          approver_id = none;
        }
        ∷ [];
    proposal_targets =
        record { proposal_id = 30; target_id = 7 }
        ∷ record { proposal_id = 31; target_id = 7 }
        ∷ [];
    proposal_scopes =
        record { proposal_id = 30; target_count = 1; scope_verified = true }
        ∷ record { proposal_id = 31; target_count = 1; scope_verified = true }
        ∷ [];
  };
}
