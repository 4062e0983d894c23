-- ===== src/Join.antt =====
-- `/join`: JoinService of src/butterbot/application/players/join.py.
pub mod Balanced
pub mod Repeat
use butterbot.Base.{
  ℕ, ℤ, pos, String, Option, none, some, Bool, true, false, not, ◌&&◌, ◌||◌, ◌==◌, str_eq,
  if◌then◌else◌,
}
use butterbot.Daily.{is_active, is_rejection, field_count, payload_fields}
use butterbot.Exact.{require_int64}
use butterbot.Idempotency.{execute}
use butterbot.Json.{empty_object}
use butterbot.Models.{StableOutcome, OutcomeKind, success, typed_rejection}
use butterbot.Players.{create_if_absent, create_wallet_if_absent}
use butterbot.Requests.{TransportRequest, Registry}
use butterbot.Restrictions.{is_frozen}
use butterbot.Result.{invalid_join_outcome}
use butterbot.Session.{Environment}
use butterbot.Tx.{Tx, pure, lift, guard, new_id, or_raise, ◌>>=◌, ◌>>◌}

pub data JoinStatus : Type 0 where
  created already_joined disabled inactive : JoinStatus

pub record JoinResult : Type 0 where
  pub status : JoinStatus
  pub replayed : Bool

-- The table of `_result`.
abbrev pub join_status : OutcomeKind → String → Option JoinStatus
join_status success code =
    if str_eq code "players.joined"
    then some created
    else if str_eq code "players.already_joined"
    then some already_joined
    else none
join_status typed_rejection code =
    if str_eq code "players.join_disabled"
    then some disabled
    else if str_eq code "players.join_inactive"
    then some inactive
    else none

unfoldable pub join_result : StableOutcome → Bool → Tx JoinResult
join_result outcome replayed = do
  status ← or_raise (join_status outcome.kind outcome.code) invalid_join_outcome
  guard (field_count (payload_fields outcome.payload) == 0) invalid_join_outcome
  pure (record { status = status; replayed = replayed })

abbrev pub outcome : OutcomeKind → String → StableOutcome
outcome kind code = record { kind = kind; code = code; payload = empty_object }

-- `apply` of `join`
unfoldable pub apply : Bool → ℕ → ℤ → Tx StableOutcome
apply allowed user now = do
  frozen ← is_frozen user
  if not allowed || frozen then pure (outcome typed_rejection "players.join_disabled") else do
    player_id ← new_id
    (player, was_created) ← create_if_absent player_id user now
    if not (is_active player.lifecycle_state)
        then pure (outcome typed_rejection "players.join_inactive")
        else do
          account_id ← new_id
          create_wallet_if_absent account_id player.id now was_created
          pure
              (outcome success (if was_created then "players.joined" else "players.already_joined"))

abbrev pub join_request : Environment → ℕ → ℕ → TransportRequest
join_request env user interaction_id = record {
  namespace = "players.join";
  transport_key = env.str_int (pos interaction_id);
  actor_kind = "discord_user";
  actor_reference = env.str_int (pos user);
  semantic_input = empty_object;
}

-- `join`: the unit of work's body.
unfoldable pub join : Environment → Registry → Bool → ℤ → ℕ → ℕ → Tx JoinResult
join env periods allowed clock_ms user interaction_id = do
  lift (require_int64 (pos 1) (pos user))
  lift (require_int64 (pos 1) (pos interaction_id))
  now ← lift (require_int64 (pos 0) clock_ms)
  execution ←
      execute env periods (join_request env user interaction_id) now (apply allowed user now)
  join_result execution.outcome execution.replayed
