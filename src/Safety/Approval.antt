-- ===== src/Safety/Approval.antt =====
-- What an approval has passed: a second person, in time, of a pending proposal whose author may propose.
use butterbot.Base.{
  any, ℕ, ℤ, ◌<ℤ◌, Bool, true, false, not, Option, some, ◌≡◌, ◌≢◌, refl, ap, ◌∙◌, ◌==◌, arith,
  leb_ℤ, ◌⊎◌, inl, inr,
}
use butterbot.Grants.Balanced.{get_proposal-Preserves}
use butterbot.Policy.{SafetyPolicy, Status}
use butterbot.Proposals.{Proposal, get_proposal, is_pending}
use butterbot.Restrictions.{holds, has_capability}
use butterbot.Result.{ok}
use butterbot.Safety.Proposing.{proposal_capability, apply_approval}
use butterbot.Session.{Session}
use butterbot.Tx.{if_none}
use butterbot.Tx.Rules.{Post, Post-ok, Post-always}
use butterbot.Tx.Steps.{gets_step, read_step, if_step, if_none_step, pure_end}

-- The two statuses of a proposal that takes effect.
abbrev pub IsGranted : Status → Type 0
IsGranted status = (status ≡ Status.approved) ⊎ (status ≡ Status.applied)

abbrev pub IsApprovable : ℕ → ℕ → ℤ → Session → Type 0
IsApprovable actor_id proposal_id now s =
    (p : Proposal) × (get_proposal proposal_id s ≡ ok (some p, s))
    × (p.scope_verified ≡ true)
    × (p.actor_id ≢ actor_id)
    × (is_pending p.status ≡ true)
    × (now <ℤ p.expires_at_ms)
    × (any (holds p.actor_id (proposal_capability p.operation)) s.capabilities ≡ true)

different : (a b : ℕ) → (a == b) ≡ false → a ≢ b
different a b h e = ground arith

not_true : {A : Type 0} → false ≡ true → A
not_true h = absurd cc

-- No other status counts.
abbrev is_granted : Status → Bool
is_granted Status.approved = true
is_granted Status.applied = true
is_granted _ = false

granted-is_granted : (status : Status) → IsGranted status → is_granted status ≡ true
granted-is_granted status (inl e) = rw e refl
granted-is_granted status (inr e) = rw e refl

module _ (actor_id proposal_id : ℕ) (now : ℤ) (policy : Option SafetyPolicy) (s : Session) where
  abbrev Safe : Status → Session → Type 0
  Safe status t = IsGranted status → IsApprovable actor_id proposal_id now s

  apply_approval-Post : Post Safe (apply_approval actor_id proposal_id now policy s)
  unfolding apply_approval if_none has_capability
  apply_approval-Post = read_step _ _ _ s (get_proposal-Preserves proposal_id) λ found is_found.
      if_none_step Safe found _ _ s
        (λ _.
          pure_end Safe Status.unavailable s
            λ e. (not_true (granted-is_granted Status.unavailable e)))
        λ p is_p.
          if_step Safe (not p.scope_verified) _ _ s
            (λ _.
              pure_end Safe Status.unverified_scope s
                λ e. (not_true (granted-is_granted Status.unverified_scope e)))
            λ sealed.
              if_step Safe (p.actor_id == actor_id) _ _ s
                (λ _.
                  pure_end Safe Status.self_approval s
                    λ e. (not_true (granted-is_granted Status.self_approval e)))
                λ other.
                  if_step Safe (not (is_pending p.status)) _ _ s
                    (λ _.
                      pure_end Safe Status.already_finished s
                        λ e. (not_true (granted-is_granted Status.already_finished e)))
                    λ waits.
                      if_step Safe (leb_ℤ p.expires_at_ms now) _ _ s
                        (λ _.
                          pure_end Safe Status.expired s
                            λ e. (not_true (granted-is_granted Status.expired e)))
                        λ in_time. gets_step _ _ _ s (
                          if_step Safe
                            (not (
                              any (holds p.actor_id (proposal_capability p.operation))
                                s.capabilities))
                            _ _ s
                            (λ _.
                              pure_end Safe Status.denied s
                                λ e. (not_true (granted-is_granted Status.denied e)))
                            λ entitled. Post-always Safe _ λ status t e. (
                              p,
                              is_found ∙ ap (λ o. ok (o, s)) is_p,
                              ground (arith, sealed),
                              (λ same. different p.actor_id actor_id other same),
                              ground (arith, waits),
                              ground (arith, in_time),
                              ground (arith, entitled),
                            ))

  -- An approval that approves or applies a proposal is given by somebody other than its author, while
  -- the proposal is pending and not expired, with its targets sealed, and while the author still holds
  -- the capability to propose it.
  pub apply_approval_safe :
      (status : Status) (t : Session)
      → apply_approval actor_id proposal_id now policy s ≡ ok (status, t)
      → IsGranted status
      → IsApprovable actor_id proposal_id now s
  apply_approval_safe status t h granted = Post-ok Safe _ apply_approval-Post h granted
