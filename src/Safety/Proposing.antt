-- ===== src/Safety/Proposing.antt =====
-- Proposals: `propose`, `_finish` and `approve` of SafetyService.
use butterbot.Base.{
  ℕ, str_eq, ℤ, pos, ◌+ℤ◌, ◌-ℤ◌, ◌*ℤ◌, String, concat, Option, none, some, Bool, true, false, not,
  ◌&&◌, ◌||◌, List, [], ◌∷◌, ◌==◌, leb, ltb, leb_ℤ, ltb_ℤ, eqb_ℤ, max_ℤ, length, contains, map,
  if◌then◌else◌,
}
use butterbot.Daily.{day_ms}
use butterbot.Exact.{require_int64, checked_add_int64}
use butterbot.Json.{object, field, no_field, int, text, array, int_items}
use butterbot.Models.{
  Capability, Operation, freeze, release, grant, ProposalStatus, pending, grants_propose,
  restrictions_manage, proposals_approve,
}
use butterbot.Policy.{SafetyPolicy, Status}
use butterbot.Proposals.{
  Proposal, is_grant, is_pending, add_proposal, get_proposal, finish_proposal,
  proposed_amount_since, sorted,
}
use butterbot.Restrictions.{has_capability, is_frozen, set_frozen}
use butterbot.Result.{value_error}
use butterbot.Safety.{SafetyService, audit_action, is_reason, mutate}
use butterbot.Safety.Access.{are_distinct}
use butterbot.Session.{Environment}
use butterbot.Tx.{Tx, pure, lift, guard, if_none, ◌>>=◌, ◌>>◌}

-- `_capability`
abbrev pub proposal_capability : Operation → Capability
proposal_capability grant = grants_propose
proposal_capability _ = restrictions_manage

abbrev pub operation_name : Operation → String
operation_name freeze = "freeze"
operation_name release = "release"
operation_name grant = "grant"

abbrev pub is_freeze : Operation → Bool
is_freeze freeze = true
is_freeze _ = false

-- `proposal_identity`
abbrev pub proposal_identity : Environment → ℕ → ℕ
proposal_identity env interaction_id =
    env.uuid5 (concat "butterbot:safety:proposal:" (env.str_int (pos interaction_id)))

-- `any([await is_frozen(target) for target in targets])`
unfoldable pub any_frozen : List ℕ → Tx Bool
any_frozen [] = pure false
any_frozen (target ∷ targets) = do
  frozen ← is_frozen target
  rest ← any_frozen targets
  pure (frozen || rest)

unfoldable pub set_all_frozen : List ℕ → Bool → Tx (Unit {0})
set_all_frozen [] enabled = pure tt
set_all_frozen (target ∷ targets) enabled =
    set_frozen target enabled >> set_all_frozen targets enabled

abbrev pub approver_or_actor : Option ℕ → ℕ → ℕ
approver_or_actor none actor_id = actor_id
approver_or_actor (some approver) actor_id = if approver == 0 then actor_id else approver

unfoldable pub finish_with : Proposal → Option ℕ → ℤ → ProposalStatus → Status → String → Tx Status
finish_with p approver_id now status result action = do
  finish_proposal p.id approver_id status
  audit_action (approver_or_actor approver_id p.actor_id) action p.reason now none (some p.id)
  pure result

-- `_finish`: a grant is approved, and paid later; a restriction takes effect.
unfoldable pub finish : Proposal → Option ℕ → ℤ → Tx Status
finish p approver_id now =
    if is_grant p.operation
    then finish_with p approver_id now ProposalStatus.approved Status.approved "proposal.approved"
    else do
      set_all_frozen p.targets (is_freeze p.operation)
      finish_with p approver_id now ProposalStatus.applied Status.applied "proposal.applied"

unfoldable pub check_targets : ℤ → List ℕ → Tx (Unit {0})
check_targets minimum [] = pure tt
check_targets minimum (target ∷ targets) =
    lift (require_int64 minimum (pos target)) >> check_targets minimum targets

-- `targets == (0,)`
abbrev pub is_global : List ℕ → Bool
is_global (target ∷ []) = target == 0
is_global _ = false

pub record ProposalRequest : Type 0 where
  pub actor_id : ℕ
  pub operation : Operation
  pub targets : List ℕ
  pub amount : ℤ
  pub reason : String
  pub interaction_id : ℕ

unfoldable pub check_proposal : Environment → ProposalRequest → Tx (Unit {0})
check_proposal env r = do
  guard ((leb 1 (length r.targets) && leb (length r.targets) 25) && are_distinct r.targets)
      value_error
  check_targets (if is_grant r.operation then pos 1 else pos 0) r.targets
  guard (not (contains 0 r.targets) || is_global r.targets) value_error
  lift (require_int64 (if is_grant r.operation then pos 1 else pos 0) r.amount)
  guard (is_grant r.operation || eqb_ℤ r.amount (pos 0)) value_error
  guard (is_reason env r.reason) value_error

-- The row is written, and finished at once where no second person is asked for.
unfoldable pub record_proposal : Proposal → ℤ → Tx Status
record_proposal p now = do
  add_proposal p
  audit_action p.actor_id "proposal.created" p.reason now none (some p.id)
  if p.requires_approval then pure Status.pending else finish p none now

abbrev pub requires_approval : List ℕ → ℤ → SafetyPolicy → Bool
requires_approval targets total policy =
    ltb 1 (length targets) || (is_global targets || ltb_ℤ policy.approval_threshold total)

unfoldable pub build_and_record :
    Environment → ProposalRequest → ℤ → List ℕ → SafetyPolicy → Tx Status
build_and_record env r now targets policy = do
  expires ← lift (checked_add_int64 now (pos day_ms))
  record_proposal
      (record {
        id = proposal_identity env r.interaction_id;
        actor_id = r.actor_id;
        operation = r.operation;
        targets = targets;
        amount = r.amount;
        reason = r.reason;
        created_at_ms = now;
        expires_at_ms = expires;
        requires_approval = requires_approval targets (r.amount *ℤ pos (length targets)) policy;
        status = pending;
        approver_id = none;
        scope_verified = false;
      })
      now

-- `apply` of `propose`, over the sorted targets.
unfoldable pub apply_proposal :
    Environment → ProposalRequest → ℤ → List ℕ → SafetyPolicy → Tx Status
apply_proposal env r now targets policy =
    let total = r.amount *ℤ pos (length targets) in
    if not (is_grant r.operation) then build_and_record env r now targets policy else do
      reserved ← proposed_amount_since r.actor_id (max_ℤ (pos 0) (now -ℤ pos day_ms))
      if ltb_ℤ policy.per_operation_ceiling total
            || ltb_ℤ policy.rolling_24h_ceiling (total +ℤ reserved)
          then pure Status.limit
          else do
            frozen ← any_frozen targets
            if frozen then pure Status.frozen else build_and_record env r now targets policy

-- `SafetyResult`
pub record SafetyResult : Type 0 where
  pub status : String
  pub proposal_id : Option ℕ

-- The statuses that name the proposal to its author.
abbrev pub names_proposal : String → Bool
names_proposal status =
    str_eq status "pending" || (str_eq status "applied" || str_eq status "approved")

unfoldable pub propose : SafetyService → ProposalRequest → ℤ → Tx SafetyResult
propose service r clock_ms = do
  check_proposal service.env r
  now ← lift (require_int64 (pos 0) clock_ms)
  lift (require_int64 (pos 1) (pos r.interaction_id))
  let targets = sorted r.targets
  status ←
      mutate service
        (record {
          actor_id = r.actor_id;
          interaction_id = r.interaction_id;
          namespace = "safety.propose";
          capability = proposal_capability r.operation;
          semantic = object (
              field "amount" (int r.amount) (
                field "operation" (text (operation_name r.operation)) (
                  field "reason" (text r.reason)
                    (field "targets" (array (int_items (map pos targets))) no_field))));
          now = now;
        })
        (if_none service.policy (pure Status.unconfigured)
          (apply_proposal service.env r now targets))
  pure (record {
    status = status;
    proposal_id =
        if names_proposal status
        then some (proposal_identity service.env r.interaction_id)
        else none;
  })

-- The limits that a grant must still meet when it is approved.
unfoldable pub approve_within_policy : ℕ → ℤ → Proposal → SafetyPolicy → Tx Status
approve_within_policy actor_id now p policy =
    if not (is_grant p.operation) then finish p (some actor_id) now else do
      reserved ← proposed_amount_since p.actor_id (max_ℤ (pos 0) (now -ℤ pos day_ms))
      if ltb_ℤ policy.per_operation_ceiling (p.amount *ℤ pos (length p.targets))
            || ltb_ℤ policy.rolling_24h_ceiling reserved
          then pure Status.limit
          else do
            frozen ← any_frozen p.targets
            if frozen then pure Status.frozen else finish p (some actor_id) now

-- `apply` of `approve`
unfoldable pub apply_approval : ℕ → ℕ → ℤ → Option SafetyPolicy → Tx Status
apply_approval actor_id proposal_id now policy = do
  found ← get_proposal proposal_id
  if_none found (pure Status.unavailable) λ p.
      if not p.scope_verified
      then pure Status.unverified_scope
      else if p.actor_id == actor_id
      then pure Status.self_approval
      else if not (is_pending p.status)
      then pure Status.already_finished
      else if leb_ℤ p.expires_at_ms now
      then pure Status.expired
      else do
        entitled ← has_capability p.actor_id (proposal_capability p.operation)
        if not entitled
            then pure Status.denied
            else if_none policy (pure Status.unconfigured) (approve_within_policy actor_id now p)

unfoldable pub approve : SafetyService → ℕ → ℕ → ℕ → ℤ → Tx String
approve service actor_id proposal_id interaction_id clock_ms = do
  now ← lift (require_int64 (pos 0) clock_ms)
  mutate service
      (record {
        actor_id = actor_id;
        interaction_id = interaction_id;
        namespace = "safety.approve";
        capability = proposals_approve;
        semantic = object (field "proposal" (text (service.env.str_uuid proposal_id)) no_field);
        now = now;
      })
      (apply_approval actor_id proposal_id now service.policy)
