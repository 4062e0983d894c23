-- ===== src/Examples/Rules.antt =====
-- The other theorems at concrete inputs.
use butterbot.Base.{
  ℕ, Option, map, pos, suc, ◌+◌, ◌*◌, max_ℤ, ◌*ℤ◌, ◌-ℤ◌, ◌+ℤ◌, String, true, false, ◌||◌, contains,
  length, all, ◌≤◌, none, some, [], ◌∷◌, ◌≡◌, refl, inl,
}
use butterbot.Examples.{test_env, test_service, test_policy, grant_start, start, test_registry}
use butterbot.Exact.{require_int64, checked_add_int64}
use butterbot.Exact.Bounds.{IsInt64, checked_add_int64-ok}
use butterbot.History.{HistoryCursor, HistoryEntry, page, sort_newest, insert_newest, entries_of}
use butterbot.History.Paging.{is_newest_first, is_within, is_stored, leaves_out_none}
use butterbot.History.Shown.{page_lem}
use butterbot.Json.{empty_object}
use butterbot.Names.{is_stable_name, is_namespaced_name, is_permanent_reference, segment, inside}
use butterbot.Models.{
  LedgerTransactionModel, LedgerPostingModel, grants_propose, StableOutcome, success,
}
use butterbot.Policy.{Status}
use butterbot.Restrictions.{set_capability, has_capability, set_frozen, is_frozen}
use butterbot.Restrictions.Lookup.{set_capability-has_capability, set_frozen-is_frozen}
use butterbot.Result.{Result, ok, err, runtime_error}
use butterbot.Runner.{run, Round, raised_retryable, default_retry_policy}
use butterbot.Runner.Bounds.{IsBounded, run_ends}
use butterbot.Safety.{Mutation, mutate, audit_action}
use butterbot.Safety.Approval.{IsApprovable, apply_approval_safe}
use butterbot.Safety.Authority.{mutate_refuses, Refused}
use butterbot.Safety.Proposing.{
  apply_approval, approve_within_policy, any_frozen, finish, finish_with,
}
use butterbot.Proposals.{get_proposal, proposed_amount_since, finish_proposal, audit}
use butterbot.Idempotency.{IdempotencyExecution, execute, run_operation, replay}
use butterbot.Idempotency.Replay.{execute_twice}
use butterbot.Requests.{TransportRequest, retain_until_ms, request_fingerprint, validate_request}
use butterbot.Transport.{
  claim, insert_or_read, insert_request, stored_claim, stored_outcome, complete,
  canonicalize_stable_outcome,
}
use butterbot.Tx.Rules.{Preserves-pure}
use butterbot.Session.{Session, Database}
use butterbot.Tx.{
  raise, or_raise, if_none, pure, gets, lift, guard, modify, defer_until_commit, new_id, ◌>>=◌,
}

abbrev always_busy : ℕ → Round ℕ
always_busy n = record {
  elapsed_before_ms = 100 * n;
  ending = raised_retryable runtime_error;
  elapsed_ms = 100 * n + 40;
}

run_ends_example :
    IsBounded default_retry_policy always_busy 3 0 (run default_retry_policy 3 always_busy 0)
run_ends_example = run_ends default_retry_policy always_busy

-- Two grants to account 3 and one to account 4 before the cursor, and one grant at it.
abbrev a_transaction : ℕ → ℕ → LedgerTransactionModel
a_transaction id time = record {
  id = id;
  transaction_kind = "admin.grant";
  committed_at_ms = pos time;
  actor_kind = "operator";
  actor_reference = "6";
  reason_code = "admin.grant";
  correlation_id = id;
  transport_request_id = none;
  domain_reference = none;
  discord_interaction_id = none;
  content_version = none;
}

abbrev a_posting : ℕ → ℕ → LedgerPostingModel
a_posting id account = record { transaction_id = id; account_id = account; amount = pos 50 }

abbrev shown_db : Database
shown_db = record grant_start.db {
  transactions =
      a_transaction 1 1000
      ∷ a_transaction 2 2000
      ∷ a_transaction 3 2000
      ∷ a_transaction 4 2000
      ∷ [];
  postings = a_posting 1 3 ∷ a_posting 2 3 ∷ a_posting 3 4 ∷ a_posting 4 3 ∷ [];
}

abbrev shown_cursor : Option HistoryCursor
shown_cursor = some record { committed_at_ms = pos 2000; transaction_id = 4 }

-- It shows transaction 2, and is full.
shown_page : map (λ (e : HistoryEntry). e.transaction_id) (page 3 shown_cursor 1 shown_db) ≡ 2 ∷ []
unfolding page sort_newest insert_newest entries_of
shown_page = refl

page_lem_example :
    (length (page 3 shown_cursor 1 shown_db) ≤ 1)
    × (is_newest_first (page 3 shown_cursor 1 shown_db) ≡ true)
    × (all
          (λ (e : HistoryEntry). is_within shown_cursor e.committed_at_ms e.transaction_id)
          (page 3 shown_cursor 1 shown_db)
        ≡ true)
    × (all (is_stored 3 shown_db) (page 3 shown_cursor 1 shown_db) ≡ true)
    × (all
          (leaves_out_none 3 shown_cursor 1 shown_db (page 3 shown_cursor 1 shown_db))
          shown_db.transactions
        ≡ true)
page_lem_example = page_lem 3 shown_cursor 1 shown_db

-- Actor 6 loses the capability to propose grants.
abbrev revoked : Session
revoked = record grant_start { db = record grant_start.db { capabilities = [] } }

set_capability-has_capability_example :
    has_capability 6 grants_propose revoked ≡ ok (false, revoked)
unfolding set_capability gets modify ◌>>=◌
set_capability-has_capability_example =
    set_capability-has_capability 6 grants_propose false grant_start revoked refl

abbrev frozen_7 : Session
frozen_7 = record start { db = record start.db { restrictions = 7 ∷ [] } }

set_frozen-is_frozen_example :
    is_frozen 7 frozen_7 ≡ ok (contains 0 frozen_7.restrictions || true, frozen_7)
unfolding set_frozen gets modify ◌>>=◌
set_frozen-is_frozen_example = set_frozen-is_frozen 7 true start frozen_7 refl

checked_add_int64-ok_example : (pos 7 ≡ pos 3 +ℤ pos 4) × IsInt64 (pos 7)
unfolding checked_add_int64 ◌+ℤ◌
checked_add_int64-ok_example = checked_add_int64-ok (pos 3) (pos 4) refl

-- Actor 5 approves the proposal of actor 6.
approval : Result (Status × Session)
approval = apply_approval 5 31 (pos 9) (some test_policy) grant_start

abbrev session_after : {A : Type 0} → Result (A × Session) → Session
session_after (ok (a, t)) = t
session_after (err e) = start

approval_runs : approval ≡ ok (Status.approved, session_after approval)
unfolding approval ◌>>=◌ pure gets guard lift or_raise modify if_none new_id defer_until_commit
    require_int64 ◌+ℤ◌ ◌-ℤ◌ ◌*ℤ◌ max_ℤ apply_approval approve_within_policy get_proposal
    has_capability proposed_amount_since any_frozen is_frozen finish finish_with finish_proposal
    audit_action audit
approval_runs = refl

apply_approval_safe_example : IsApprovable 5 31 (pos 9) grant_start
unfolding approval
apply_approval_safe_example =
    apply_approval_safe 5 31 (pos 9) (some test_policy) grant_start Status.approved
      (session_after approval) approval_runs (inl refl)

-- Actor 9 holds no capability.
abbrev intrusion : Mutation
intrusion = record {
  actor_id = 9;
  interaction_id = 8;
  namespace = "safety.capability";
  capability = grants_propose;
  semantic = empty_object;
  now = pos 9;
}

refusal : Result (String × Session)
refusal = mutate test_service intrusion (pure Status.applied) grant_start

refusal_runs : refusal ≡ ok ("denied", session_after refusal)
unfolding refusal ◌>>=◌ pure gets guard lift modify new_id defer_until_commit require_int64 mutate
    has_capability audit_action audit
refusal_runs = refl

mutate_refuses_example :
    Refused test_service intrusion
      (pure Status.applied)
      grant_start
      "denied"
      (session_after refusal)
unfolding refusal
mutate_refuses_example =
    mutate_refuses test_service intrusion (pure Status.applied) grant_start "denied"
      (session_after refusal) refl refusal_runs

-- A join that is asked for twice.
abbrev pub join_again : TransportRequest
join_again = record {
  namespace = "players.join";
  transport_key = "8";
  actor_kind = "discord_user";
  actor_reference = "7";
  semantic_input = empty_object;
}

abbrev pub joined : StableOutcome
joined = record { kind = success; code = "players.joined"; payload = empty_object }

first_join : Result (IdempotencyExecution × Session)
first_join = execute test_env test_registry join_again (pos 5) (pure joined) start

abbrev first_execution : IdempotencyExecution
first_execution = record { outcome = joined; replayed = false; request_id = 1 }

first_join_runs : first_join ≡ ok (first_execution, session_after first_join)
unfolding first_join ◌>>=◌ pure gets guard lift or_raise modify new_id defer_until_commit
    require_int64 checked_add_int64 ◌+ℤ◌ execute run_operation replay claim insert_or_read
    insert_request stored_claim stored_outcome complete canonicalize_stable_outcome retain_until_ms
    request_fingerprint validate_request is_stable_name is_namespaced_name is_permanent_reference
    segment inside
first_join_runs = refl

execute_twice_example :
    execute test_env test_registry join_again
      (pos 6)
      (raise runtime_error)
      (session_after first_join)
    ≡ ok (
      record first_execution { replayed = true },
      record (session_after first_join) { next_id = suc (session_after first_join).next_id },
    )
unfolding first_join require_int64
execute_twice_example =
    execute_twice test_env test_registry join_again (pos 5) (pos 6) (pos 6) (pure joined)
      (raise runtime_error) start (session_after first_join) first_execution
      (λ rows. Preserves-pure joined) first_join_runs refl
