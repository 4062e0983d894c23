-- ===== src/Grants.antt =====
-- Grant rules: `execute_grant` of src/butterbot/application/economy/grants.py, and the statuses and
-- policy of src/butterbot/application/safety/service.py.
pub mod Repository
pub mod Balanced
pub mod Limits
use butterbot.Base.{
  ℕ, ℤ, pos, ◌+ℤ◌, ◌-ℤ◌, ◌*ℤ◌, String, Option, none, some, Bool, true, false, not, ◌&&◌, ◌||◌, List,
  [], ◌∷◌, ◌++◌, ◌==◌, ltb, leb_ℤ, ltb_ℤ, length, if◌then◌else◌,
}
use Repository.{GrantCredit, executed, amount_since, issue}
use butterbot.Daily.{day_ms, is_active}
use butterbot.Exact.{require_int64, checked_add_int64}
use butterbot.Models.{proposals_approve}
use butterbot.Players.{get_by_discord_user_id, get_wallet}
use butterbot.Policy.{SafetyPolicy, Status}
use butterbot.Proposals.{Proposal, get_proposal, is_grant, is_approved}
use butterbot.Restrictions.{is_frozen, has_capability}
use butterbot.Result.{runtime_error}
use butterbot.Session.{Environment}
use butterbot.Tx.{Tx, pure, lift, or_raise, if_none, ◌>>=◌, ◌>>◌}

-- A second person who may approve has approved; an approval that is not needed is not looked at.
unfoldable pub approver_counts : ℕ → Option ℕ → Tx Bool
approver_counts actor_id none = pure false
approver_counts actor_id (some approver) =
    if approver == actor_id then pure false else has_capability approver proposals_approve

abbrev pub total_of : Proposal → ℤ
total_of p = p.amount *ℤ pos (length p.targets)

abbrev pub needs_approval : Proposal → ℤ → SafetyPolicy → Bool
needs_approval p total policy =
    p.requires_approval || (ltb 1 (length p.targets) || ltb_ℤ policy.approval_threshold total)

-- The loop over the targets: a status that ends it, or the credits so far.
pub data Credits : Type 0 where
  stopped : Status → Credits
  collected : List GrantCredit → Credits

unfoldable pub credit_target : ℤ → ℕ → List GrantCredit → Tx Credits
credit_target amount target credits = do
  frozen ← is_frozen target
  if frozen then pure (stopped Status.frozen) else do
    player ← get_by_discord_user_id target
    if_none player (pure (stopped Status.unavailable)) λ p.
        if not (is_active p.lifecycle_state) then pure (stopped Status.unavailable) else do
          found ← get_wallet p.id
          w ← or_raise found runtime_error
          after ← lift (checked_add_int64 w.amount amount)
          lift (checked_add_int64 w.version (pos 1))
          pure
              (collected (credits ++ record { target_id = target; wallet = w; after = after } ∷ []))

unfoldable pub collect_credits : ℤ → List ℕ → List GrantCredit → Tx Credits
collect_credits amount [] credits = pure (collected credits)
collect_credits amount (target ∷ targets) credits = do
  result ← credit_target amount target credits
  elim result [
    | stopped status ↦ pure (stopped status)
    | collected so_far ↦ collect_credits amount targets so_far
  ]

unfoldable pub finish_grant : Environment → ℕ → ℕ → ℕ → ℕ → ℤ → Credits → Tx Status
finish_grant env proposal_id transaction_id actor_id interaction_id now (stopped status) =
    pure status
finish_grant env proposal_id transaction_id actor_id interaction_id now (collected credits) = do
  issue env proposal_id transaction_id actor_id interaction_id now credits
  pure Status.executed

-- What follows the checks on the proposal itself: limits, the second approval, and the credits.
unfoldable pub issue_within_policy :
    Environment → ℕ → ℕ → ℕ → ℕ → ℤ → Proposal → SafetyPolicy → Tx Status
issue_within_policy env actor_id proposal_id interaction_id transaction_id now p policy = do
  total ← lift (require_int64 (pos 1) (total_of p))
  if ltb_ℤ policy.per_operation_ceiling total then pure Status.limit else do
    approver_ok ← approver_counts actor_id p.approver_id
    if needs_approval p total policy && not approver_ok then pure Status.approval_required else do
      spent ← amount_since actor_id (now -ℤ pos day_ms)
      if ltb_ℤ policy.rolling_24h_ceiling (spent +ℤ total) then pure Status.limit else do
        credits ← collect_credits p.amount p.targets []
        finish_grant env proposal_id transaction_id actor_id interaction_id now credits

-- `execute_grant`
unfoldable pub execute_grant : Environment → ℕ → ℕ → ℕ → ℕ → ℤ → Option SafetyPolicy → Tx Status
execute_grant env actor_id proposal_id interaction_id transaction_id now policy = do
  found ← get_proposal proposal_id
  if_none found (pure Status.unavailable) λ p.
      if not (is_grant p.operation)
      then pure Status.unavailable
      else if not (p.actor_id == actor_id)
      then pure Status.denied
      else if not p.scope_verified
      then pure Status.unverified_scope
      else do
        done ← executed proposal_id
        if done
            then pure Status.already_executed
            else if not (is_approved p.status)
            then pure Status.approval_required
            else if not (leb_ℤ p.created_at_ms now && ltb_ℤ now p.expires_at_ms)
            then pure Status.expired
            else if_none policy (pure Status.unconfigured)
                (issue_within_policy env actor_id proposal_id interaction_id transaction_id now p)
