-- ===== src/Safety/Authority.antt =====
-- Without the capability, or while the service is unsafe, `_mutate` only leaves audit rows.
use butterbot.Base.{ℕ, ℤ, String, false, not, ◌&&◌, any, ◌≡◌, refl, ◌⊎◌, inl, inr, Option, []}
use butterbot.Policy.{Status}
use butterbot.Proposals.{audit}
use butterbot.Restrictions.{holds, has_capability}
use butterbot.Result.{ok}
use butterbot.Safety.{SafetyService, Mutation, moves_money, mutate, audit_action}
use butterbot.Session.{Session, Database}
use butterbot.Tx.{Tx, defer_until_commit}
use butterbot.Tx.Rules.{Post, Post-ok, Preserves, preserves_rules}
use butterbot.Tx.Steps.{gets_step, lift_step, if_step, pure_end, frame_step}

-- The tables but for the audit rows.
abbrev pub without_audits : Database → Database
without_audits d = record d { audits = [] }

module _ (d : Database) where
  abbrev Same : Session → Type 0
  Same s = without_audits s.db ≡ d

  audit_action-Same :
      (actor_id : ℕ) (action reason : String) (now : ℤ) (target proposal : Option ℕ)
      → Preserves Same (audit_action actor_id action reason now target proposal)
  unfolding audit_action audit defer_until_commit
  audit_action-Same actor_id action reason now target proposal = search preserves_rules depth 16

module _ (service : SafetyService) (m : Mutation) (body : Tx Status) (s : Session) where
  abbrev pub Refused : String → Session → Type 0
  Refused answer t =
      ((answer ≡ "denied") ⊎ (answer ≡ "unavailable")) × (without_audits t.db ≡ without_audits s.db)

  mutate-Refused :
      any (holds m.actor_id m.capability) s.capabilities ≡ false
      → Post Refused (mutate service m body s)
  unfolding mutate has_capability
  mutate-Refused lacks = lift_step _ _ _ s λ _ _. lift_step _ _ _ s λ _ _.
      if_step Refused (not service.runtime_safe) _ _ s (λ _. pure_end Refused _ s (inr refl, refl))
        λ _.
          if_step Refused (moves_money m.namespace && not service.grants_allowed) _ _ s
            (λ _. pure_end Refused _ s (inr refl, refl))
            λ _. gets_step _ _ _ s (
              rw lacks (
                frame_step Refused _ (Same (without_audits s.db)) _ s
                  (audit_action-Same (without_audits s.db) _ _ _ _ _ _) refl
                  λ _ t same. pure_end Refused _ t (inl refl, same)))

  -- An actor without the capability is refused before any replay or change: the body does not run, and no
  -- table but the audit changes.
  pub mutate_refuses :
      (answer : String) (t : Session)
      → any (holds m.actor_id m.capability) s.capabilities ≡ false
      → mutate service m body s ≡ ok (answer, t)
      → Refused answer t
  mutate_refuses answer t lacks h = Post-ok Refused _ (mutate-Refused lacks) h
