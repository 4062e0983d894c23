-- ===== src/Grants/Limits.antt =====
-- What a grant that is executed has passed: the sealed proposal, the second person, and the ceilings.
use butterbot.Base.{
  ℕ, any, ℤ, pos, ◌+ℤ◌, ◌-ℤ◌, ◌≤ℤ◌, ◌<ℤ◌, Bool, true, false, not, ◌&&◌, Option, some, none, ◌≡◌,
  ◌≢◌, refl, ap, ◌∙◌, ◌==◌, ==_iff, arith, ltb_ℤ, leb_ℤ, ltb_ℤ-false, Bool-cases, inl, inr,
}
use butterbot.Daily.{day_ms}
use butterbot.Exact.Bounds.{require_int64-ok}
use butterbot.Grants.{approver_counts, total_of, needs_approval, issue_within_policy, execute_grant}
use butterbot.Grants.Balanced.{approver_counts-Preserves, get_proposal-Preserves}
use butterbot.Grants.Repository.{executed, is_execution_of, amount_since, spent_since}
use butterbot.Models.{proposals_approve}
use butterbot.Policy.{SafetyPolicy, Status}
use butterbot.Proposals.{Proposal, get_proposal, is_grant, is_approved}
use butterbot.Restrictions.{holds, has_capability}
use butterbot.Result.{ok}
use butterbot.Session.{Session, Environment}
use butterbot.Tx.{pure, gets, if_none}
use butterbot.Tx.Rules.{Post, Post-always, Post-map, Post-ok}
use butterbot.Tx.Steps.{gets_step, read_step, lift_step, if_step, if_none_step, pure_end}

-- A second person who may approve has approved.
abbrev pub IsSeconded : ℕ → Proposal → Session → Type 0
IsSeconded actor_id p s =
    (approver : ℕ) × (p.approver_id ≡ some approver)
    × (approver ≢ actor_id)
    × (any (holds approver proposals_approve) s.capabilities ≡ true)

-- What the policy asks of the proposal and of what the actor has spent.
abbrev pub IsWithinPolicy : ℕ → ℤ → Proposal → SafetyPolicy → Session → Type 0
IsWithinPolicy actor_id now p policy s =
    (total_of p ≤ℤ policy.per_operation_ceiling)
    × (spent_since actor_id (now -ℤ pos day_ms) s.grant_executions +ℤ total_of p
        ≤ℤ policy.rolling_24h_ceiling)
    × (needs_approval p (total_of p) policy ≡ true → IsSeconded actor_id p s)

not_both : (a b : Bool) → a ≡ true → (a && not b) ≡ false → b ≡ true
not_both a b h k = ground arith

counts_from :
    (actor_id : ℕ) (approver : Option ℕ) (s : Session) {b : Bool}
    → approver_counts actor_id approver s ≡ ok (b, s)
    → b ≡ true
    → (id : ℕ) × (approver ≡ some id)
      × (id ≢ actor_id)
      × (any (holds id proposals_approve) s.capabilities ≡ true)
unfolding approver_counts has_capability pure gets
counts_from actor_id none s {b} h counts = absurd cc
counts_from actor_id (some id) s {b} h counts = elim (Bool-cases (id == actor_id)) [
  | inl same ↦ absurd (ground arith)
  | inr other ↦ (id, refl, λ e. ground arith, ground arith)
]

module _ (env : Environment) (actor_id proposal_id interaction_id transaction_id : ℕ)
    (now : ℤ) where
  module _ (p : Proposal) (policy : SafetyPolicy) (s : Session) where
    abbrev Passed : Status → Session → Type 0
    Passed status t = status ≡ Status.executed → IsWithinPolicy actor_id now p policy s

    within-Post :
        Post Passed (
          issue_within_policy env actor_id proposal_id interaction_id transaction_id now p policy s)
    unfolding issue_within_policy amount_since
    within-Post = lift_step _ _ _ s λ total is_total.
        if_step Passed (ltb_ℤ policy.per_operation_ceiling total) _ _ s
          (λ _. pure_end Passed Status.limit s λ e. absurd cc)
          λ low.
            read_step _ _ _ s (approver_counts-Preserves actor_id p.approver_id)
              λ approver_ok is_approver.
                if_step Passed (needs_approval p total policy && not approver_ok) _ _ s
                  (λ _. pure_end Passed Status.approval_required s λ e. absurd cc)
                  λ seconded. gets_step _ _ _ s (
                    if_step Passed
                      (ltb_ℤ policy.rolling_24h_ceiling
                        (spent_since actor_id (now -ℤ pos day_ms) s.grant_executions +ℤ total))
                      _ _ s (λ _. pure_end Passed Status.limit s λ e. absurd cc)
                      λ under. Post-always Passed _ λ status t e.
                        let same : total ≡ total_of p = (require_int64-ok (pos 1) _ is_total).0 in
                        (
                          rw (← same) (ltb_ℤ-false policy.per_operation_ceiling total low),
                          rw (← same) (
                              ltb_ℤ-false policy.rolling_24h_ceiling
                                (spent_since actor_id (now -ℤ pos day_ms) s.grant_executions
                                  +ℤ total)
                                under),
                          λ needs. counts_from actor_id p.approver_id s is_approver (
                              not_both (needs_approval p total policy) approver_ok (rw same needs)
                                seconded),
                        ))

  -- The proposal is the actor's own, sealed, approved, in time, and not executed before.
  abbrev pub IsOpenGrant : Proposal → Session → Type 0
  IsOpenGrant p s =
      (get_proposal proposal_id s ≡ ok (some p, s))
      × (is_grant p.operation ≡ true)
      × (p.actor_id ≡ actor_id)
      × (p.scope_verified ≡ true)
      × (any (is_execution_of proposal_id) s.grant_executions ≡ false)
      × (is_approved p.status ≡ true)
      × (p.created_at_ms ≤ℤ now)
      × (now <ℤ p.expires_at_ms)

  module _ (policy : SafetyPolicy) (s : Session) where
    abbrev Safe : Status → Session → Type 0
    Safe status t =
        status ≡ Status.executed
        → (p : Proposal) × IsOpenGrant p s × IsWithinPolicy actor_id now p policy s

    execute_grant-Post :
        Post Safe
          (execute_grant env actor_id proposal_id interaction_id transaction_id now (some policy) s)
    unfolding execute_grant executed if_none
    execute_grant-Post = read_step _ _ _ s (get_proposal-Preserves proposal_id) λ found is_found.
        if_none_step Safe found _ _ s (λ _. pure_end Safe Status.unavailable s λ e. absurd cc)
          λ p is_p.
            if_step Safe (not (is_grant p.operation)) _ _ s
              (λ _. pure_end Safe Status.unavailable s λ e. absurd cc)
              λ grants.
                if_step Safe (not (p.actor_id == actor_id)) _ _ s
                  (λ _. pure_end Safe Status.denied s λ e. absurd cc)
                  λ own.
                    if_step Safe (not p.scope_verified) _ _ s
                      (λ _. pure_end Safe Status.unverified_scope s λ e. absurd cc)
                      λ sealed. gets_step _ _ _ s (
                        if_step Safe (any (is_execution_of proposal_id) s.grant_executions) _ _ s
                          (λ _. pure_end Safe Status.already_executed s λ e. absurd cc)
                          λ fresh.
                            if_step Safe (not (is_approved p.status)) _ _ s
                              (λ _. pure_end Safe Status.approval_required s λ e. absurd cc)
                              λ approved.
                                if_step Safe
                                  (not (leb_ℤ p.created_at_ms now && ltb_ℤ now p.expires_at_ms)) _ _
                                  s (λ _. pure_end Safe Status.expired s λ e. absurd cc)
                                  λ in_time.
                                    Post-map (Passed p policy s) Safe _ (within-Post p policy s)
                                      λ status t passed e. (
                                        p,
                                        (
                                          is_found ∙ ap (λ o. ok (o, s)) is_p,
                                          ground (arith, grants),
                                          (==_iff p.actor_id actor_id).0 (ground (arith, own)),
                                          ground (arith, sealed),
                                          fresh,
                                          ground (arith, approved),
                                          ground (arith, in_time),
                                          ground (arith, in_time),
                                        ),
                                        passed e,
                                      ))

  -- A grant that is executed is the actor's own sealed proposal, approved, in time and not executed
  -- before; its total meets the ceiling of one operation, together with what the actor executed in the
  -- last day it meets the rolling ceiling, and where the policy or the proposal asks for it a second
  -- person who holds the capability has approved.
  pub execute_grant_safe :
      (policy : SafetyPolicy) (s t : Session)
      → execute_grant env actor_id proposal_id interaction_id transaction_id now (some policy) s
        ≡ ok (Status.executed, t)
      → (p : Proposal) × IsOpenGrant p s × IsWithinPolicy actor_id now p policy s
  execute_grant_safe policy s t h = Post-ok (Safe policy s) _ (execute_grant-Post policy s) h refl
