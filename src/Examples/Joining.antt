-- ===== src/Examples/Joining.antt =====
-- A player who joins twice by the same interaction.
use butterbot.Base.{suc, pos, ◌+ℤ◌, true, false, ◌≡◌, refl}
use butterbot.Examples.{test_env, test_registry, start}
use butterbot.Exact.{require_int64, checked_add_int64}
use butterbot.Idempotency.{execute, run_operation, replay}
use butterbot.Join.{apply, join_result, join, JoinResult, created}
use butterbot.Join.Repeat.{join_twice}
use butterbot.Ledger.{insert_account, insert_balance}
use butterbot.Names.{is_stable_name, is_namespaced_name, is_permanent_reference, segment, inside}
use butterbot.Players.{
  get_by_discord_user_id, get_wallet, wallet_record, insert_player, insert_new_player,
  keep_or_insert, create_if_absent, insert_wallet, complete_or_insert, keep_wallet,
  new_player_wallet, create_wallet_if_absent,
}
use butterbot.Requests.{retain_until_ms, request_fingerprint, validate_request}
use butterbot.Restrictions.{is_frozen}
use butterbot.Result.{Result, ok, err}
use butterbot.Session.{Session}
use butterbot.Transport.{
  claim, insert_or_read, insert_request, stored_claim, stored_outcome, complete,
  canonicalize_stable_outcome,
}
use butterbot.Tx.{pure, gets, lift, or_raise, guard, modify, new_id, defer_until_commit, ◌>>=◌}

abbrev session_after : {A : Type 0} → Result (A × Session) → Session
session_after (ok (a, t)) = t
session_after (err e) = start

first_join : Result (JoinResult × Session)
first_join = join test_env test_registry true (pos 5) 7 8 start

abbrev welcome : JoinResult
welcome = record { status = created; replayed = false }

first_join_runs : first_join ≡ ok (welcome, session_after first_join)
unfolding first_join ◌>>=◌ pure gets guard lift or_raise modify new_id defer_until_commit
    require_int64 checked_add_int64 ◌+ℤ◌ execute run_operation replay claim insert_or_read
    insert_request stored_claim stored_outcome complete canonicalize_stable_outcome retain_until_ms
    request_fingerprint validate_request is_stable_name is_namespaced_name is_permanent_reference
    segment inside join apply join_result is_frozen get_by_discord_user_id get_wallet wallet_record
    insert_player insert_new_player keep_or_insert create_if_absent insert_wallet complete_or_insert
    keep_wallet new_player_wallet create_wallet_if_absent insert_account insert_balance
first_join_runs = refl

join_twice_example :
    join test_env test_registry false (pos 6) 7 8 (session_after first_join)
    ≡ ok (
      record welcome { replayed = true },
      record (session_after first_join) { next_id = suc (session_after first_join).next_id },
    )
unfolding first_join require_int64
join_twice_example =
    join_twice test_env test_registry 7 8 true false (pos 5) (pos 6) (pos 6) start
      (session_after first_join) welcome first_join_runs refl
