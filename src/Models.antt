-- ===== src/Models.antt =====
-- src/butterbot/infrastructure/persistence/models.py: the rows of the tables. UUIDs and Discord
-- identities are only compared, so they are natural numbers; every counted quantity is an integer.
mod Safety
pub use Safety.*
use butterbot.Base.{ℕ, ℤ, String, Option, Bool, ◌&&◌, leb_ℤ, pos}
use butterbot.Json.{Json}

pub data Lifecycle : Type 0 where
  active pseudonymized : Lifecycle

pub record PlayerModel : Type 0 where
  pub id : ℕ
  pub discord_user_id : ℕ
  pub created_at_ms : ℤ
  pub lifecycle_state : Lifecycle

pub data AccountKind : Type 0 where
  wallet issuance retirement : AccountKind

pub record AccountModel : Type 0 where
  pub id : ℕ
  pub player_id : Option ℕ
  pub account_kind : AccountKind
  pub currency_key : String
  pub system_key : Option String
  pub created_at_ms : ℤ

pub record AccountBalanceModel : Type 0 where
  pub account_id : ℕ
  pub account_kind : AccountKind
  pub amount : ℤ
  pub version : ℤ

-- The CHECK constraints on a balance row.
abbrev pub polarity : AccountKind → ℤ → Bool
polarity wallet amount = leb_ℤ (pos 0) amount
polarity issuance amount = leb_ℤ amount (pos 0)
polarity retirement amount = leb_ℤ (pos 0) amount

abbrev pub balance_check : AccountBalanceModel → Bool
balance_check row = leb_ℤ (pos 0) row.version && polarity row.account_kind row.amount

pub record LedgerTransactionModel : Type 0 where
  pub id : ℕ
  pub transaction_kind : String
  pub committed_at_ms : ℤ
  pub actor_kind : String
  pub actor_reference : String
  pub reason_code : String
  pub correlation_id : ℕ
  pub transport_request_id : Option ℕ
  pub domain_reference : Option String
  pub discord_interaction_id : Option ℕ
  pub content_version : Option String

pub record LedgerPostingModel : Type 0 where
  pub transaction_id : ℕ
  pub account_id : ℕ
  pub amount : ℤ

pub data OutcomeKind : Type 0 where
  success typed_rejection : OutcomeKind

pub record StableOutcome : Type 0 where
  pub kind : OutcomeKind
  pub code : String
  pub payload : Json

-- The five columns of a finished request, which the CHECK constraint sets together.
pub record Completion : Type 0 where
  pub outcome : StableOutcome
  pub completed_at_ms : ℤ
  pub retain_until_ms : ℤ

pub record TransportRequestModel : Type 0 where
  pub id : ℕ
  pub namespace : String
  pub transport_key : String
  pub actor_kind : String
  pub actor_reference : String
  pub request_fingerprint : String
  pub completion : Option Completion

pub record GrantExecutionModel : Type 0 where
  pub proposal_id : ℕ
  pub transaction_id : ℕ
  pub actor_id : ℕ
  pub executed_at_ms : ℤ
  pub total : ℤ

pub record GrantTargetModel : Type 0 where
  pub proposal_id : ℕ
  pub account_id : ℕ
  pub target_id : ℕ
  pub before_amount : ℤ
  pub after_amount : ℤ

-- A row of `economy_corrections`; the application's `Correction` has the same fields.
pub record Correction : Type 0 where
  pub transaction_id : ℕ
  pub original_transaction_id : ℕ
  pub account_id : ℕ
  pub target_id : ℕ
  pub actor_id : ℕ
  pub amount : ℤ
  pub before_amount : ℤ
  pub after_amount : ℤ
  pub executed_at_ms : ℤ
  pub reason : String
  pub freeze_bypassed : Bool

-- A row of `economy_daily_claims`; the application's `DailyClaim` has the same fields.
pub record DailyClaim : Type 0 where
  pub transaction_id : ℕ
  pub player_id : ℕ
  pub account_id : ℕ
  pub actor_id : ℕ
  pub interaction_id : ℕ
  pub claim_period : ℤ
  pub executed_at_ms : ℤ
  pub before_amount : ℤ
  pub after_amount : ℤ
