-- ===== src/Daily.antt =====
-- The daily reward: DailyService of src/butterbot/application/economy/daily.py. The clock's reading,
-- the eligibility verdict and the registry are arguments of a claim.
pub mod Repository
pub mod Balanced
pub mod Receipts
use butterbot.Base.{
  ℕ, suc, ℤ, pos, negsuc, String, concat, remove_prefix, Option, none, some, Bool, true, false, not,
  ◌&&◌, ◌||◌, List, [], ◌∷◌, ◌==◌, str_eq, eqb_ℤ, any, find?, floor_div, is_some, if◌then◌else◌,
}
use Repository.{find, request, issue}
use butterbot.Exact.{require_int64, checked_add_int64}
use butterbot.Idempotency.{execute}
use butterbot.Json.{Json, object, field, no_field, int, text, Fields, empty_object}
use butterbot.Ledger.{
  system_account, transport_request, insert_transaction, project, insert_posting,
}
use butterbot.Models.{
  DailyClaim, PlayerModel, active, pseudonymized, issuance, StableOutcome, success, typed_rejection,
  Lifecycle, OutcomeKind,
}
use butterbot.Players.{WalletRecord, get_by_discord_user_id, get_wallet}
use butterbot.Requests.{TransportRequest, Registry}
use butterbot.Restrictions.{is_frozen}
use butterbot.Result.{Error, integrity_error, runtime_error, fingerprint_conflict, value_error}
use butterbot.Session.{Session, Environment}
use butterbot.Tx.{
  Tx, pure, raise, gets, lift, guard, or_raise, if_none, modify_db, new_id, ◌>>=◌, ◌>>◌,
}

abbrev pub day_ms : ℕ
day_ms = 86400000

abbrev pub daily_coins : ℤ
daily_coins = pos 15

pub record DailyResult : Type 0 where
  pub status : String
  pub period : ℤ
  pub balance : Option ℤ
  pub transaction_id : Option ℕ
  pub replayed : Bool

abbrev pub plain : String → ℤ → Bool → DailyResult
plain status period replayed = record {
  status = status;
  period = period;
  balance = none;
  transaction_id = none;
  replayed = replayed;
}

abbrev pub is_active : Lifecycle → Bool
is_active active = true
is_active pseudonymized = false

abbrev pub is_rejection : OutcomeKind → Bool
is_rejection typed_rejection = true
is_rejection success = false

-- `DailyService.inspect`
unfoldable pub inspect : ℕ → ℤ → Bool → Tx DailyResult
inspect user clock_ms allowed = do
  lift (require_int64 (pos 1) (pos user))
  now ← lift (require_int64 (pos 0) clock_ms)
  let period = floor_div now day_ms
  let answer : String → Tx DailyResult = λ status. pure (plain status period false)
  player ← get_by_discord_user_id user
  if_none player (answer "unjoined") λ p.
      if not (is_active p.lifecycle_state) then answer "inactive" else do
        wallet ← get_wallet p.id
        if_none wallet (answer "unavailable") λ w. do
          existing ← find p.id period
          frozen ← is_frozen user
          if is_some existing
              then answer "already_claimed"
              else if not allowed || frozen
              then answer "disabled"
              else answer "available"

abbrev pub reject : String → Tx StableOutcome
reject status =
    pure (record { kind = typed_rejection; code = concat "daily." status; payload = empty_object })

abbrev pub claimed : Environment → ℤ → ℕ → StableOutcome
claimed env after transaction_id = record {
  kind = success;
  code = "daily.claimed";
  payload = object (
      field "balance" (int after)
        (field "transaction_id" (text (env.str_uuid transaction_id)) no_field));
}

-- The last part of `apply`: nothing stands in the way of the claim.
unfoldable pub pay : Environment → ℕ → ℕ → ℤ → ℤ → PlayerModel → WalletRecord → Tx StableOutcome
pay env user interaction_id period now p w = do
  after ← lift (checked_add_int64 w.amount daily_coins)
  transaction_id ← new_id
  issue env
      (record {
        transaction_id = transaction_id;
        player_id = p.id;
        account_id = w.id;
        actor_id = user;
        interaction_id = interaction_id;
        claim_period = period;
        executed_at_ms = now;
        before_amount = w.amount;
        after_amount = after;
      })
      w
  pure (claimed env after transaction_id)

-- `apply` of `DailyService.claim`
unfoldable pub apply : Environment → Bool → ℕ → ℕ → ℤ → ℤ → Tx StableOutcome
apply env allowed user interaction_id period now =
    if not (eqb_ℤ period (floor_div now day_ms)) then reject "expired" else do
      frozen ← is_frozen user
      if not allowed || frozen then reject "disabled" else do
        player ← get_by_discord_user_id user
        if_none player (reject "unjoined") λ p.
            if not (is_active p.lifecycle_state) then reject "inactive" else do
              wallet ← get_wallet p.id
              if_none wallet (reject "unavailable") λ w. do
                existing ← find p.id period
                if is_some existing
                    then reject "already_claimed"
                    else pay env user interaction_id period now p w

-- The keys and values of a success payload: exactly a balance and a transaction id.
abbrev pub lookup_field : String → Fields → Option Json
lookup_field key no_field = none
lookup_field key (field name value rest) =
    if str_eq name key then some value else lookup_field key rest

abbrev pub field_count : Fields → ℕ
field_count no_field = 0
field_count (field name value rest) = suc (field_count rest)

abbrev pub int_value : Option Json → Option ℤ
int_value (some (int n)) = some n
int_value _ = none

abbrev pub text_value : Option Json → Option String
text_value (some (text t)) = some t
text_value _ = none

abbrev pub payload_fields : Json → Fields
payload_fields (object fields) = fields
payload_fields _ = no_field

-- The success branch of the decoding of a stored or fresh outcome.
decode_claimed : Environment → ℤ → Fields → Bool → Tx DailyResult
decode_claimed env period fields replayed = do
  guard (field_count fields == 2) runtime_error
  amount ← or_raise (int_value (lookup_field "balance" fields)) runtime_error
  id_text ← or_raise (text_value (lookup_field "transaction_id" fields)) runtime_error
  balance ← lift (require_int64 daily_coins amount)
  transaction_id ← or_raise (env.parse_uuid id_text) value_error
  pure (record {
    status = "claimed";
    period = period;
    balance = some balance;
    transaction_id = some transaction_id;
    replayed = replayed;
  })

abbrev pub rejections : List String
rejections =
    "expired" ∷ "disabled" ∷ "unjoined" ∷ "inactive" ∷ "unavailable" ∷ "already_claimed" ∷ []

decode_rejected : ℤ → StableOutcome → Bool → Tx DailyResult
decode_rejected period outcome replayed =
    let status = remove_prefix outcome.code "daily." in
    do
      guard
          (is_rejection outcome.kind
            && (str_eq outcome.code (concat "daily." status)
                && (any (str_eq status) rejections
                    && field_count (payload_fields outcome.payload) == 0)))
          runtime_error
      pure (plain status period replayed)

unfoldable pub decode : Environment → ℤ → StableOutcome → Bool → Tx DailyResult
unfolding decode_claimed decode_rejected
decode env period outcome replayed =
    if not (is_rejection outcome.kind) && str_eq outcome.code "daily.claimed"
    then decode_claimed env period (payload_fields outcome.payload) replayed
    else decode_rejected period outcome replayed

abbrev pub daily_request : Environment → ℕ → ℕ → ℤ → TransportRequest
daily_request env user interaction_id period = record {
  namespace = "economy.daily";
  transport_key = env.str_int (pos interaction_id);
  actor_kind = "discord_user";
  actor_reference = env.str_int (pos user);
  semantic_input = object (field "claim_period" (int period) no_field);
}

-- A row that this interaction has written answers again, for the same user and period only.
unfoldable pub repeat_claim : ℕ → ℤ → DailyClaim → Tx DailyResult
repeat_claim user period existing = do
  guard (existing.actor_id == user && eqb_ℤ existing.claim_period period) fingerprint_conflict
  pure (record {
    status = "claimed";
    period = existing.claim_period;
    balance = some existing.after_amount;
    transaction_id = some existing.transaction_id;
    replayed = true;
  })

-- `DailyService.claim`: the unit of work's body, `clock_ms` being its sample of the clock.
unfoldable pub claim : Environment → Registry → Bool → ℤ → ℕ → ℕ → ℤ → Tx DailyResult
claim env periods allowed clock_ms user interaction_id claim_period = do
  lift (require_int64 (pos 1) (pos user))
  lift (require_int64 (pos 1) (pos interaction_id))
  period ← lift (require_int64 (pos 0) claim_period)
  now ← lift (require_int64 (pos 0) clock_ms)
  existing ← request interaction_id
  if_none existing
      (do
        execution ←
            execute env periods (daily_request env user interaction_id period) now
              (apply env allowed user interaction_id period now)
        decode env period execution.outcome execution.replayed)
      (repeat_claim user period)
