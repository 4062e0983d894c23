-- ===== src/Proposals.antt =====
-- Proposals and audit rows: the rest of SqlAlchemySafetyRepository,
-- src/butterbot/infrastructure/persistence/safety.py, with Proposal of
-- src/butterbot/application/safety/ports.py.
use butterbot.Base.{
  ℕ, ℤ, pos, String, Option, none, some, Bool, true, false, not, ◌&&◌, List, [], ◌∷◌, map, ◌==◌,
  any, find?, select, sum_by, leb_ℤ, ltb, length, is_some, if◌then◌else◌,
}
use butterbot.Models.{
  Operation, grant, ProposalStatus, pending, approved, ProposalModel, ProposalTargetModel,
  ProposalScopeModel, AccessAuditModel, Capability, capabilities_manage, players_inspect,
  restrictions_manage, proposals_approve, grants_propose,
}
use butterbot.Restrictions.{set_capability}
use butterbot.Result.{integrity_error, runtime_error}
use butterbot.Tx.{Tx, pure, gets, guard, or_raise, if_none, modify_db, ◌>>=◌, ◌>>◌}

pub record Proposal : Type 0 where
  pub id : ℕ
  pub actor_id : ℕ
  pub operation : Operation
  pub targets : List ℕ
  pub amount : ℤ
  pub reason : String
  pub created_at_ms : ℤ
  pub expires_at_ms : ℤ
  pub requires_approval : Bool
  pub status : ProposalStatus
  pub approver_id : Option ℕ
  pub scope_verified : Bool

abbrev pub is_grant : Operation → Bool
is_grant grant = true
is_grant _ = false

abbrev pub is_pending : ProposalStatus → Bool
is_pending pending = true
is_pending _ = false

abbrev pub is_approved : ProposalStatus → Bool
is_approved approved = true
is_approved _ = false

unfoldable pub insert_proposal : ProposalModel → Tx (Unit {0})
insert_proposal row = do
  rows ← gets (λ s. s.proposals)
  guard (not (any (λ (p : ProposalModel). p.id == row.id) rows)) integrity_error
  modify_db (λ d. record d { proposals = row ∷ d.proposals })

unfoldable pub insert_target : ℕ → ℕ → Tx (Unit {0})
insert_target proposal_id target = do
  rows ← gets (λ s. s.proposal_targets)
  guard
      (not (
        any (λ (t : ProposalTargetModel). t.proposal_id == proposal_id && t.target_id == target)
          rows))
      integrity_error
  modify_db (λ d. record d {
    proposal_targets =
        record { proposal_id = proposal_id; target_id = target } ∷ d.proposal_targets;
  })

unfoldable pub insert_targets : ℕ → List ℕ → Tx (Unit {0})
unfolding insert_target
insert_targets proposal_id [] = pure tt
insert_targets proposal_id (target ∷ targets) =
    insert_target proposal_id target >> insert_targets proposal_id targets

unfoldable pub insert_scope : ProposalScopeModel → Tx (Unit {0})
insert_scope row = do
  rows ← gets (λ s. s.proposal_scopes)
  guard (not (any (λ (c : ProposalScopeModel). c.proposal_id == row.proposal_id) rows))
      integrity_error
  modify_db (λ d. record d { proposal_scopes = row ∷ d.proposal_scopes })

unfoldable pub add_proposal : Proposal → Tx (Unit {0})
unfolding insert_proposal insert_targets insert_scope
add_proposal p = do
  insert_proposal (record {
    id = p.id;
    actor_id = p.actor_id;
    operation = p.operation;
    amount = p.amount;
    reason = p.reason;
    created_at_ms = p.created_at_ms;
    expires_at_ms = p.expires_at_ms;
    requires_approval = p.requires_approval;
    status = pending;
    approver_id = none;
  })
  insert_targets p.id p.targets
  insert_scope
      (record { proposal_id = p.id; target_count = length p.targets; scope_verified = true })

-- ORDER BY target_id
abbrev pub insert_sorted : ℕ → List ℕ → List ℕ
insert_sorted n [] = n ∷ []
insert_sorted n (m ∷ ms) = if ltb m n then m ∷ insert_sorted n ms else n ∷ m ∷ ms

abbrev pub sorted : List ℕ → List ℕ
sorted [] = []
sorted (n ∷ ns) = insert_sorted n (sorted ns)

abbrev pub targets_of : ℕ → List ProposalTargetModel → List ℕ
targets_of proposal_id rows = sorted (
    map (λ (t : ProposalTargetModel). t.target_id)
      (select (λ (t : ProposalTargetModel). t.proposal_id == proposal_id) rows))

abbrev pub scope_of : ℕ → List ProposalScopeModel → Option ProposalScopeModel
scope_of proposal_id = find? (λ (c : ProposalScopeModel). c.proposal_id == proposal_id)

abbrev pub is_verified : Option ProposalScopeModel → List ℕ → Bool
is_verified none targets = false
is_verified (some scope) targets = scope.scope_verified && scope.target_count == length targets

abbrev pub has_id : ℕ → ProposalModel → Bool
has_id proposal_id row = row.id == proposal_id

abbrev pub proposal_record : ProposalModel → List ℕ → Bool → Proposal
proposal_record row targets verified = record {
  id = row.id;
  actor_id = row.actor_id;
  operation = row.operation;
  targets = targets;
  amount = row.amount;
  reason = row.reason;
  created_at_ms = row.created_at_ms;
  expires_at_ms = row.expires_at_ms;
  requires_approval = row.requires_approval;
  status = row.status;
  approver_id = row.approver_id;
  scope_verified = verified;
}

unfoldable pub get_proposal : ℕ → Tx (Option Proposal)
get_proposal proposal_id = do
  rows ← gets (λ s. s.proposals)
  if_none (find? (has_id proposal_id) rows) (pure none) λ row. do
    target_rows ← gets (λ s. s.proposal_targets)
    scopes ← gets (λ s. s.proposal_scopes)
    let targets = targets_of proposal_id target_rows
    pure (some (proposal_record row targets (is_verified (scope_of proposal_id scopes) targets)))

abbrev pub finish_row : ℕ → Option ℕ → ProposalStatus → ProposalModel → ProposalModel
finish_row proposal_id approver_id status row =
    if has_id proposal_id row
    then record row { approver_id = approver_id; status = status }
    else row

unfoldable pub finish_proposal : ℕ → Option ℕ → ProposalStatus → Tx (Unit {0})
finish_proposal proposal_id approver_id status = do
  rows ← gets (λ s. s.proposals)
  row ← or_raise (find? (has_id proposal_id) rows) runtime_error
  guard (is_pending row.status) runtime_error
  scopes ← gets (λ s. s.proposal_scopes)
  scope ← or_raise (scope_of proposal_id scopes) runtime_error
  guard scope.scope_verified runtime_error
  modify_db
      (λ d. record d { proposals = map (finish_row proposal_id approver_id status) d.proposals })

-- The amounts of the actor's grant proposals since then, once for each target.
abbrev pub counts_for : ℕ → ℤ → ProposalModel → Bool
counts_for actor_id since_ms row =
    row.actor_id == actor_id && (leb_ℤ since_ms row.created_at_ms && is_grant row.operation)

abbrev pub joined_amount : ℕ → ℤ → List ProposalTargetModel → ProposalModel → ℤ
joined_amount actor_id since_ms targets row =
    if counts_for actor_id since_ms row
    then sum_by (λ (t : ProposalTargetModel). if t.proposal_id == row.id then row.amount else pos 0)
        targets
    else pos 0

unfoldable pub proposed_amount_since : ℕ → ℤ → Tx ℤ
proposed_amount_since actor_id since_ms =
    gets (λ s. sum_by (joined_amount actor_id since_ms s.proposal_targets) s.proposals)

unfoldable pub audit : AccessAuditModel → Tx (Unit {0})
audit row = do
  rows ← gets (λ s. s.audits)
  guard (not (any (λ (a : AccessAuditModel). a.id == row.id) rows)) integrity_error
  modify_db (λ d. record d { audits = row ∷ d.audits })

unfoldable pub receipt : ℕ → Tx (Option AccessAuditModel)
receipt receipt_id = gets (λ s. find? (λ (a : AccessAuditModel). a.id == receipt_id) s.audits)

-- `BOOTSTRAP_CAPABILITIES`: all but the corrections.
abbrev pub bootstrap_capabilities : List Capability
bootstrap_capabilities =
    capabilities_manage ∷ players_inspect ∷ restrictions_manage ∷ proposals_approve ∷ grants_propose
    ∷ []

unfoldable pub grant_all : ℕ → List Capability → Tx (Unit {0})
grant_all actor_id [] = pure tt
grant_all actor_id (c ∷ cs) = set_capability actor_id c true >> grant_all actor_id cs

unfoldable pub grant_operators : List ℕ → Tx (Unit {0})
unfolding grant_all
grant_operators [] = pure tt
grant_operators (actor_id ∷ rest) =
    grant_all actor_id bootstrap_capabilities >> grant_operators rest

-- Authority is handed out once, however empty the capability table is later.
unfoldable pub bootstrap : List ℕ → ℤ → Tx Bool
unfolding grant_operators
bootstrap operator_ids now_ms = do
  done ← gets (λ s. s.bootstrap)
  if is_some done then pure false else do
    modify_db (λ d. record d { bootstrap = some now_ms })
    grant_operators operator_ids
    pure true
