-- ===== src/Session.antt =====
-- What one unit of work sees (src/butterbot/infrastructure/persistence/unit_of_work.py): the tables,
-- the completeness tracker of repositories.py, the pending request ids, and the callbacks that wait
-- for the commit. Also the functions of Python's standard library that the program calls.
use butterbot.Base.{ℕ, ℤ, String, Bool, Option, none, List, []}
use butterbot.Json.{Json}
use butterbot.Models.{
  PlayerModel, AccountModel, AccountBalanceModel, LedgerTransactionModel, LedgerPostingModel,
  TransportRequestModel, GrantExecutionModel, GrantTargetModel, Correction, DailyClaim,
  CapabilityModel, ProposalModel, ProposalTargetModel, ProposalScopeModel, AccessAuditModel,
}

-- `str` of an integer and of a UUID, `UUID.hex`, `UUID(text)`, `uuid5(NAMESPACE_URL, text)`, the
-- SHA-256 digest of canonical JSON, and the two Unicode tests on a reason.
pub record Environment : Type 0 where
  pub str_int : ℤ → String
  pub str_uuid : ℕ → String
  pub hex : ℕ → String
  pub parse_uuid : String → Option ℕ
  pub uuid5 : String → ℕ
  pub sha256 : Json → String
  pub is_printable : String → Bool
  pub strip : String → String

pub record Database : Type 0 where
  pub players : List PlayerModel
  pub accounts : List AccountModel
  pub balances : List AccountBalanceModel
  pub transactions : List LedgerTransactionModel
  pub postings : List LedgerPostingModel
  pub requests : List TransportRequestModel
  pub bootstrap : Option ℤ
  pub capabilities : List CapabilityModel
  pub restrictions : List ℕ
  pub proposals : List ProposalModel
  pub proposal_targets : List ProposalTargetModel
  pub proposal_scopes : List ProposalScopeModel
  pub audits : List AccessAuditModel
  pub grant_executions : List GrantExecutionModel
  pub grant_targets : List GrantTargetModel
  pub corrections : List Correction
  pub daily_claims : List DailyClaim

abbrev pub empty_database : Database
empty_database = record {
  players = [];
  accounts = [];
  balances = [];
  transactions = [];
  postings = [];
  requests = [];
  bootstrap = none;
  capabilities = [];
  restrictions = [];
  proposals = [];
  proposal_targets = [];
  proposal_scopes = [];
  audits = [];
  grant_executions = [];
  grant_targets = [];
  corrections = [];
  daily_claims = [];
}

pub record AggregateCompletenessTracker : Type 0 where
  pub created_players : List ℕ
  pub completed_players : List ℕ
  pub created_accounts : List ℕ
  pub projected_accounts : List ℕ

abbrev pub empty_tracker : AggregateCompletenessTracker
empty_tracker = record {
  created_players = [];
  completed_players = [];
  created_accounts = [];
  projected_accounts = [];
}

-- A callback of `defer_until_commit`: telemetry of the outcome, or an alert on an audit row.
pub data Callback : Type 0 where
  telemetry : String → String → Callback
  alert : String → ℕ → Callback

-- `ids` is the sequence of UUIDs that `uuid4` and the id factories hand out, and `next_id` how many
-- are taken.
pub record Session : Type 0 where
  pub db : Database
  pub open db use *
  pub tracker : AggregateCompletenessTracker
  pub pending_request_ids : List ℕ
  pub after_commit : List Callback
  pub ids : ℕ → ℕ
  pub next_id : ℕ
