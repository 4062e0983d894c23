-- ===== src/Examples/Refusing.antt =====
-- A key that is stored for another request, at a concrete session: the coordinator of
-- src/butterbot/application/operations/idempotency.py.
use butterbot.Base.{ℕ, pos, some, [], ◌∷◌, ◌≡◌, refl}
use butterbot.Examples.{test_env, start, test_registry}
use butterbot.Examples.Rules.{join_again, joined}
use butterbot.Exact.{require_int64}
use butterbot.Idempotency.{execute}
use butterbot.Idempotency.Refusal.{execute_refuses}
use butterbot.Models.{TransportRequestModel}
use butterbot.Names.{is_stable_name, is_namespaced_name, is_permanent_reference, segment, inside}
use butterbot.Requests.{request_fingerprint, validate_request}
use butterbot.Result.{ok, err, fingerprint_conflict}
use butterbot.Session.{Session}
use butterbot.Transport.Cleanup.{cleanup, IsSpared, cleanup-IsSpared}
use butterbot.Tx.{pure}

abbrev other_row : TransportRequestModel
other_row = record {
  id = 3;
  namespace = "players.join";
  transport_key = "8";
  actor_kind = "discord_user";
  actor_reference = "9";
  request_fingerprint = "another fingerprint";
  completion = some record { outcome = joined; completed_at_ms = pos 4; retain_until_ms = pos 9 };
}

abbrev taken : Session
taken = record start { db = record start.db { requests = other_row ∷ [] } }

execute_refuses_example :
    execute test_env test_registry join_again (pos 5) (pure joined) taken ≡ err fingerprint_conflict
unfolding require_int64 request_fingerprint validate_request is_stable_name is_namespaced_name
    is_permanent_reference segment inside
execute_refuses_example =
    execute_refuses test_env test_registry join_again "digest" other_row (pos 5) (pos 5)
      (pure joined) taken refl refl refl refl

-- Beside the request that expires at 9, one that is kept until 40.
abbrev two_requests : Session
two_requests = record taken {
  db = record taken.db {
    requests =
        other_row
        ∷ record other_row {
          id = 4;
          transport_key = "9";
          completion =
              some record { outcome = joined; completed_at_ms = pos 5; retain_until_ms = pos 40 };
        }
        ∷ [];
  };
}

cleanup-IsSpared_example :
    (deleted : ℕ) × (t : Session) × (cleanup (pos 10) (pos 5) two_requests ≡ ok (deleted, t))
    × IsSpared 4 deleted two_requests.db t.db
unfolding require_int64
cleanup-IsSpared_example =
    cleanup-IsSpared (pos 10) (pos 5) (pos 10) (pos 5) 4 two_requests refl refl refl refl
