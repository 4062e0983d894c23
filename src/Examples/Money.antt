-- ===== src/Examples/Money.antt =====
-- A grant and a correction that pass every check, and the theorems on them.
use butterbot.Base.{pos, ◌+ℤ◌, ◌-ℤ◌, ◌*ℤ◌, min_ℤ, false, some, [], ◌∷◌, ◌≡◌, refl}
use butterbot.Corrections.{CorrectionRequest, correct_grant}
use butterbot.Corrections.Repository.{amount_since as corrected_amount_since}
use butterbot.Examples.{test_env, test_policy, grant_start, start}
use butterbot.Exact.{require_int64, checked_add_int64}
use butterbot.Grants.{
  approver_counts, credit_target, collect_credits, finish_grant, issue_within_policy, execute_grant,
}
use butterbot.Grants.Limits.{IsOpenGrant, IsWithinPolicy, execute_grant_safe}
use butterbot.Grants.Repository.{
  executed, amount_since, insert_grant_target, insert_execution, credit_one, credit_all, issue,
}
use butterbot.Ledger.{
  system_account, find_or_insert, insert_system_account, insert_account, insert_balance, project,
  transport_request, insert_transaction, insert_posting,
}
use butterbot.Models.{wallet}
use butterbot.Players.{get_by_discord_user_id, get_wallet, wallet_record}
use butterbot.Policy.{Status}
use butterbot.Proposals.{Proposal, get_proposal}
use butterbot.Restrictions.{is_frozen, has_capability}
use butterbot.Result.{Result, ok, err}
use butterbot.Session.{Session}
use butterbot.Tx.{pure, gets, guard, lift, or_raise, modify, if_none, new_id, ◌>>=◌}

abbrev session_after : {A : Type 0} → Result (A × Session) → Session
session_after (ok (a, t)) = t
session_after (err e) = start

granted : Session
granted = session_after (execute_grant test_env 5 30 8 40 (pos 9) (some test_policy) grant_start)

grant_runs :
    execute_grant test_env 5 30 8 40 (pos 9) (some test_policy) grant_start
    ≡ ok (Status.executed, granted)
unfolding ◌>>=◌ pure gets guard lift or_raise modify if_none new_id ◌+ℤ◌ ◌-ℤ◌ ◌*ℤ◌ min_ℤ
    require_int64 checked_add_int64 get_by_discord_user_id get_wallet wallet_record is_frozen
    has_capability system_account find_or_insert insert_system_account insert_account insert_balance
    project transport_request insert_transaction insert_posting granted execute_grant get_proposal
    executed issue_within_policy approver_counts amount_since collect_credits credit_target
    finish_grant issue credit_all credit_one insert_execution insert_grant_target
grant_runs = refl

execute_grant_safe_example :
    (p : Proposal) × IsOpenGrant test_env 5 30 8 40 (pos 9) p grant_start
    × IsWithinPolicy 5 (pos 9) p test_policy grant_start
execute_grant_safe_example =
    execute_grant_safe test_env 5 30 8 40 (pos 9) test_policy grant_start granted grant_runs

-- The same player with 10 coins from transaction 40, of which 4 are taken back.
abbrev corrected_start : Session
corrected_start = record grant_start {
  db = record grant_start.db {
    balances =
        record { account_id = 3; account_kind = wallet; amount = pos 10; version = pos 1 } ∷ [];
    grant_executions =
        record {
          proposal_id = 30;
          transaction_id = 40;
          actor_id = 5;
          executed_at_ms = pos 9;
          total = pos 10;
        }
        ∷ [];
    grant_targets =
        record {
          proposal_id = 30;
          account_id = 3;
          target_id = 7;
          before_amount = pos 0;
          after_amount = pos 10;
        }
        ∷ [];
  };
}

abbrev four_coins : CorrectionRequest
four_coins = record {
  actor_id = 6;
  target_id = 7;
  original_transaction_id = 40;
  transaction_id = 41;
  amount = pos 4;
  reason = "slip";
  bypass_freeze = false;
  interaction_id = 8;
  now = pos 11;
}

corrected : Session
corrected = session_after (correct_grant test_env four_coins (some test_policy) corrected_start)
