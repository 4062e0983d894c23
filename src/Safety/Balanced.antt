-- ===== src/Safety/Balanced.antt =====
-- Every administrative operation keeps double entry, on every branch that returns.
use butterbot.Base.{ℕ, ℤ, String, Bool, Option, List, [], ◌∷◌}
use butterbot.Corrections.{CorrectionRequest}
use butterbot.Corrections.Balanced.{correct_grant-Has}
use butterbot.Daily.Balanced.{Has-IsOutside}
use butterbot.Grants.Balanced.{execute_grant-Has, get_proposal-Preserves, executed-Preserves}
use butterbot.Idempotency.Frame.{execute-Preserves, defer-Preserves}
use butterbot.Ledger.Measure.{Has, Measure}
use butterbot.Models.{
  Capability, AccessAuditModel, StableOutcome, ProposalModel, ProposalScopeModel, ProposalStatus,
}
use butterbot.Policy.{SafetyPolicy, Status}
use butterbot.Proposals.{
  Proposal, audit, receipt, grant_all, grant_operators, bootstrap as bootstrap_rows,
  insert_proposal, insert_target, insert_targets, insert_scope, add_proposal, finish_proposal,
  proposed_amount_since,
}
use butterbot.Reads.{reads}
use butterbot.Restrictions.{set_capability, set_frozen}
use butterbot.Safety.{
  SafetyService, Mutation, audit_action, run_with_receipt, read_receipt, apply_once, decode_status,
  mutate_authorized, mutate,
}
use butterbot.Safety.Access.{
  check_operators, audit_operators, bootstrap, apply_capability, change_capability, inspect,
  view_proposal,
}
use butterbot.Safety.Money.{apply_grant, execute_grant, apply_correction, correct_grant}
use butterbot.Safety.Proposing.{
  ProposalRequest, any_frozen, set_all_frozen, finish_with, finish, check_targets, check_proposal,
  record_proposal, build_and_record, apply_proposal, propose, approve_within_policy, apply_approval,
  approve,
}
use butterbot.Session.{Environment}
use butterbot.Tx.{Tx}
use butterbot.Tx.Rules.{Preserves, preserves_rules}

module _ (v : Measure → ℤ) where
  audit-Has : (row : AccessAuditModel) → Preserves (Has v) (audit row)
  unfolding audit
  audit-Has row = search preserves_rules

  receipt-Has : (id : ℕ) → Preserves (Has v) (receipt id)
  unfolding receipt
  receipt-Has id = search preserves_rules

  audit_action-Has :
      (actor_id : ℕ) (action reason : String) (now : ℤ) (target proposal : Option ℕ)
      → Preserves (Has v) (audit_action actor_id action reason now target proposal)
  unfolding audit_action
  audit_action-Has actor_id action reason now target proposal =
      search (preserves_rules, audit-Has, defer-Preserves (Has v) (Has-IsOutside v)) depth 12

  run_with_receipt-Has :
      (env : Environment) (m : Mutation) (fingerprint : String) (body : Tx Status)
      → Preserves (Has v) body
      → Preserves (Has v) (run_with_receipt env m fingerprint body)
  unfolding run_with_receipt
  run_with_receipt-Has env m fingerprint body keeps = search (preserves_rules, audit-Has) depth 12

  read_receipt-Has :
      (m : Mutation) (fingerprint : String) (row : AccessAuditModel)
      → Preserves (Has v) (read_receipt m fingerprint row)
  unfolding read_receipt
  read_receipt-Has m fingerprint row = search preserves_rules

  apply_once-Has :
      (env : Environment) (m : Mutation) (body : Tx Status)
      → Preserves (Has v) body
      → Preserves (Has v) (apply_once env m body)
  unfolding apply_once
  apply_once-Has env m body keeps =
      search (preserves_rules, receipt-Has, run_with_receipt-Has, read_receipt-Has) depth 14

  decode_status-Has : (outcome : StableOutcome) → Preserves (Has v) (decode_status outcome)
  unfolding decode_status
  decode_status-Has outcome = search preserves_rules

  mutate_authorized-Has :
      (service : SafetyService) (m : Mutation) (body : Tx Status)
      → Preserves (Has v) body
      → Preserves (Has v) (mutate_authorized service m body)
  unfolding mutate_authorized
  mutate_authorized-Has service m body keeps =
      search
        (
          preserves_rules,
          decode_status-Has,
          execute-Preserves (Has v) (Has-IsOutside v),
          apply_once-Has,
        )
        depth 12

  -- `_mutate` keeps the books if its body does.
  pub mutate-Has :
      (service : SafetyService) (m : Mutation) (body : Tx Status)
      → Preserves (Has v) body
      → Preserves (Has v) (mutate service m body)
  unfolding mutate
  mutate-Has service m body keeps =
      search (preserves_rules, reads, audit_action-Has, mutate_authorized-Has) depth 20

  set_capability-Has :
      (user : ℕ) (capability : Capability) (enabled : Bool)
      → Preserves (Has v) (set_capability user capability enabled)
  unfolding set_capability
  set_capability-Has user capability enabled = search preserves_rules depth 12

  set_frozen-Has : (user : ℕ) (enabled : Bool) → Preserves (Has v) (set_frozen user enabled)
  unfolding set_frozen
  set_frozen-Has user enabled = search preserves_rules depth 12

  grant_all-Has : (actor_id : ℕ) (cs : List Capability) → Preserves (Has v) (grant_all actor_id cs)
  unfolding grant_all
  grant_all-Has actor_id [] = search preserves_rules
  grant_all-Has actor_id (c ∷ cs) =
      let rest = grant_all-Has actor_id cs in search (preserves_rules, set_capability-Has)

  grant_operators-Has : (ids : List ℕ) → Preserves (Has v) (grant_operators ids)
  unfolding grant_operators
  grant_operators-Has [] = search preserves_rules
  grant_operators-Has (id ∷ ids) =
      let rest = grant_operators-Has ids in search (preserves_rules, grant_all-Has)

  bootstrap_rows-Has : (ids : List ℕ) (now : ℤ) → Preserves (Has v) (bootstrap_rows ids now)
  unfolding bootstrap_rows
  bootstrap_rows-Has ids now = search (preserves_rules, grant_operators-Has) depth 14

  check_operators-Has : (ids : List ℕ) → Preserves (Has v) (check_operators ids)
  unfolding check_operators
  check_operators-Has [] = search preserves_rules
  check_operators-Has (id ∷ ids) = let rest = check_operators-Has ids in search preserves_rules

  audit_operators-Has : (now : ℤ) (ids : List ℕ) → Preserves (Has v) (audit_operators now ids)
  unfolding audit_operators
  audit_operators-Has now [] = search preserves_rules
  audit_operators-Has now (id ∷ ids) =
      let rest = audit_operators-Has now ids in search (preserves_rules, audit_action-Has)

  pub bootstrap-Has :
      (service : SafetyService) (ids : List ℕ) (clock_ms : ℤ)
      → Preserves (Has v) (bootstrap service ids clock_ms)
  unfolding bootstrap
  bootstrap-Has service ids clock_ms =
      search (preserves_rules, check_operators-Has, bootstrap_rows-Has, audit_operators-Has) depth
        20

  pub apply_grant-Has :
      (service : SafetyService) (actor_id proposal_id interaction_id : ℕ) (clock_ms : ℤ)
      → Preserves (Has v) (apply_grant service actor_id proposal_id interaction_id clock_ms)
  unfolding apply_grant
  apply_grant-Has service actor_id proposal_id interaction_id clock_ms =
      search (preserves_rules, execute_grant-Has service.env v, audit_action-Has) depth 16

  apply_correction-Has :
      (service : SafetyService) (r : CorrectionRequest) (clock_ms : ℤ)
      → Preserves (Has v) (apply_correction service r clock_ms)
  unfolding apply_correction
  apply_correction-Has service r clock_ms =
      search (preserves_rules, reads, correct_grant-Has service.env v, audit_action-Has) depth 20

  -- `execute_grant` and `correct_grant` of the service keep the books.
  pub execute_grant-Has_service :
      (service : SafetyService) (actor_id proposal_id interaction_id : ℕ) (arrival_ms clock_ms : ℤ)
      → Preserves
          (Has v)
          (execute_grant service actor_id proposal_id interaction_id arrival_ms clock_ms)
  unfolding execute_grant
  execute_grant-Has_service service actor_id proposal_id interaction_id arrival_ms clock_ms =
      search (preserves_rules, mutate-Has, apply_grant-Has) depth 12

  pub correct_grant-Has_service :
      (service : SafetyService) (r : CorrectionRequest) (arrival_ms clock_ms : ℤ)
      → Preserves (Has v) (correct_grant service r arrival_ms clock_ms)
  unfolding correct_grant
  correct_grant-Has_service service r arrival_ms clock_ms =
      search (preserves_rules, mutate-Has, apply_correction-Has) depth 16

-- Inspection, capabilities and proposals touch no account.
module _ (v : Measure → ℤ) where
  apply_capability-Has :
      (actor_id target_id : ℕ) (capability : Capability) (enabled : Bool) (reason : String)
      (now : ℤ)
      → Preserves (Has v) (apply_capability actor_id target_id capability enabled reason now)
  unfolding apply_capability
  apply_capability-Has actor_id target_id capability enabled reason now =
      search (preserves_rules, set_capability-Has v, audit_action-Has v) depth 12

  pub change_capability-Has :
      (service : SafetyService) (actor_id target_id : ℕ) (capability : Capability) (enabled : Bool)
      (reason : String) (interaction_id : ℕ) (clock_ms : ℤ)
      → Preserves (Has v) (
          change_capability service actor_id target_id capability enabled reason interaction_id
            clock_ms)
  unfolding change_capability
  change_capability-Has service actor_id target_id capability enabled reason interaction_id
        clock_ms =
      search (preserves_rules, mutate-Has v, apply_capability-Has) depth 14

  pub inspect-Has :
      (service : SafetyService) (actor_id target_id : ℕ) (reason : String) (clock_ms : ℤ)
      → Preserves (Has v) (inspect service actor_id target_id reason clock_ms)
  unfolding inspect
  inspect-Has service actor_id target_id reason clock_ms =
      search (preserves_rules, reads, audit_action-Has v) depth 30

  pub view_proposal-Has :
      (service : SafetyService) (actor_id proposal_id : ℕ) (clock_ms : ℤ)
      → Preserves (Has v) (view_proposal service actor_id proposal_id clock_ms)
  unfolding view_proposal
  view_proposal-Has service actor_id proposal_id clock_ms =
      search
        (preserves_rules, reads, audit_action-Has v, get_proposal-Preserves, executed-Preserves)
        depth 30

  insert_proposal-Has : (row : ProposalModel) → Preserves (Has v) (insert_proposal row)
  unfolding insert_proposal
  insert_proposal-Has row = search preserves_rules

  insert_target-Has : (proposal target : ℕ) → Preserves (Has v) (insert_target proposal target)
  unfolding insert_target
  insert_target-Has proposal target = search preserves_rules

  insert_targets-Has :
      (proposal : ℕ) (targets : List ℕ) → Preserves (Has v) (insert_targets proposal targets)
  unfolding insert_targets
  insert_targets-Has proposal [] = search preserves_rules
  insert_targets-Has proposal (target ∷ targets) =
      let rest = insert_targets-Has proposal targets in search (preserves_rules, insert_target-Has)

  insert_scope-Has : (row : ProposalScopeModel) → Preserves (Has v) (insert_scope row)
  unfolding insert_scope
  insert_scope-Has row = search preserves_rules

  add_proposal-Has : (p : Proposal) → Preserves (Has v) (add_proposal p)
  unfolding add_proposal
  add_proposal-Has p =
      search (preserves_rules, insert_proposal-Has, insert_targets-Has, insert_scope-Has) depth 12

  finish_proposal-Has :
      (id : ℕ) (approver : Option ℕ) (status : ProposalStatus)
      → Preserves (Has v) (finish_proposal id approver status)
  unfolding finish_proposal
  finish_proposal-Has id approver status = search preserves_rules depth 20

  set_all_frozen-Has :
      (targets : List ℕ) (enabled : Bool) → Preserves (Has v) (set_all_frozen targets enabled)
  unfolding set_all_frozen
  set_all_frozen-Has [] enabled = search preserves_rules
  set_all_frozen-Has (target ∷ targets) enabled =
      let rest = set_all_frozen-Has targets enabled in search (preserves_rules, set_frozen-Has v)

  any_frozen-Has : (targets : List ℕ) → Preserves (Has v) (any_frozen targets)
  unfolding any_frozen
  any_frozen-Has [] = search preserves_rules
  any_frozen-Has (target ∷ targets) =
      let rest = any_frozen-Has targets in search (preserves_rules, reads)

  finish_with-Has :
      (p : Proposal) (approver : Option ℕ) (now : ℤ) (status : ProposalStatus) (result : Status)
      (action : String)
      → Preserves (Has v) (finish_with p approver now status result action)
  unfolding finish_with
  finish_with-Has p approver now status result action =
      search (preserves_rules, finish_proposal-Has, audit_action-Has v) depth 12

  finish-Has :
      (p : Proposal) (approver : Option ℕ) (now : ℤ) → Preserves (Has v) (finish p approver now)
  unfolding finish
  finish-Has p approver now = search (preserves_rules, finish_with-Has, set_all_frozen-Has) depth 12

  check_targets-Has :
      (minimum : ℤ) (targets : List ℕ) → Preserves (Has v) (check_targets minimum targets)
  unfolding check_targets
  check_targets-Has minimum [] = search preserves_rules
  check_targets-Has minimum (target ∷ targets) =
      let rest = check_targets-Has minimum targets in search preserves_rules

  check_proposal-Has :
      (env : Environment) (r : ProposalRequest) → Preserves (Has v) (check_proposal env r)
  unfolding check_proposal
  check_proposal-Has env r = search (preserves_rules, check_targets-Has) depth 20

  record_proposal-Has : (p : Proposal) (now : ℤ) → Preserves (Has v) (record_proposal p now)
  unfolding record_proposal
  record_proposal-Has p now =
      search (preserves_rules, add_proposal-Has, audit_action-Has v, finish-Has) depth 14

  build_and_record-Has :
      (env : Environment) (r : ProposalRequest) (now : ℤ) (targets : List ℕ) (policy : SafetyPolicy)
      → Preserves (Has v) (build_and_record env r now targets policy)
  unfolding build_and_record
  build_and_record-Has env r now targets policy = search (preserves_rules, record_proposal-Has)

  proposed_amount_since-Has :
      (actor : ℕ) (since_ms : ℤ) → Preserves (Has v) (proposed_amount_since actor since_ms)
  unfolding proposed_amount_since
  proposed_amount_since-Has actor since_ms = search preserves_rules

  apply_proposal-Has :
      (env : Environment) (r : ProposalRequest) (now : ℤ) (targets : List ℕ) (policy : SafetyPolicy)
      → Preserves (Has v) (apply_proposal env r now targets policy)
  unfolding apply_proposal
  apply_proposal-Has env r now targets policy =
      search (preserves_rules, build_and_record-Has, proposed_amount_since-Has, any_frozen-Has)
        depth 20

  pub propose-Has :
      (service : SafetyService) (r : ProposalRequest) (clock_ms : ℤ)
      → Preserves (Has v) (propose service r clock_ms)
  unfolding propose
  propose-Has service r clock_ms =
      search (preserves_rules, check_proposal-Has, mutate-Has v, apply_proposal-Has) depth 20

  approve_within_policy-Has :
      (actor : ℕ) (now : ℤ) (p : Proposal) (policy : SafetyPolicy)
      → Preserves (Has v) (approve_within_policy actor now p policy)
  unfolding approve_within_policy
  approve_within_policy-Has actor now p policy =
      search (preserves_rules, finish-Has, proposed_amount_since-Has, any_frozen-Has) depth 20

  apply_approval-Has :
      (actor proposal : ℕ) (now : ℤ) (policy : Option SafetyPolicy)
      → Preserves (Has v) (apply_approval actor proposal now policy)
  unfolding apply_approval
  apply_approval-Has actor proposal now policy =
      search (preserves_rules, reads, get_proposal-Preserves, approve_within_policy-Has) depth 30

  pub approve-Has :
      (service : SafetyService) (actor proposal interaction_id : ℕ) (clock_ms : ℤ)
      → Preserves (Has v) (approve service actor proposal interaction_id clock_ms)
  unfolding approve
  approve-Has service actor proposal interaction_id clock_ms =
      search (preserves_rules, mutate-Has v, apply_approval-Has) depth 14
