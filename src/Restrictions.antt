-- ===== src/Restrictions.antt =====
-- Freezes and capabilities: the reads and writes of these two tables in SqlAlchemySafetyRepository,
-- src/butterbot/infrastructure/persistence/safety.py. Target 0 stands for everybody.
pub mod Lookup
use butterbot.Base.{
  ℕ, Bool, true, false, not, ◌&&◌, ◌||◌, List, [], ◌∷◌, ◌==◌, any, select, contains, if◌then◌else◌,
}
use butterbot.Models.{
  Capability, capabilities_manage, players_inspect, restrictions_manage, proposals_approve,
  grants_propose, corrections_execute, corrections_bypass_freeze, CapabilityModel,
}
use butterbot.Session.{Session}
use butterbot.Tx.{Tx, pure, gets, modify_db, ◌>>=◌}

abbrev pub rank : Capability → ℕ
rank capabilities_manage = 0
rank players_inspect = 1
rank restrictions_manage = 2
rank proposals_approve = 3
rank grants_propose = 4
rank corrections_execute = 5
rank corrections_bypass_freeze = 6

abbrev pub holds : ℕ → Capability → CapabilityModel → Bool
holds actor_id capability row = row.actor_id == actor_id && rank row.capability == rank capability

unfoldable pub has_capability : ℕ → Capability → Tx Bool
has_capability actor_id capability = gets (λ s. any (holds actor_id capability) s.capabilities)

unfoldable pub set_capability : ℕ → Capability → Bool → Tx (Unit {0})
set_capability actor_id capability enabled = do
  rows ← gets (λ s. s.capabilities)
  let existing = any (holds actor_id capability) rows
  if enabled && not existing
      then modify_db (λ d. record d {
        capabilities = record { actor_id = actor_id; capability = capability } ∷ d.capabilities;
      })
      else if not enabled && existing
      then modify_db (λ d. record d {
        capabilities = select (λ row. not (holds actor_id capability row)) d.capabilities;
      })
      else pure tt

-- A restriction on the user or on everybody.
abbrev pub frozen_by : ℕ → List ℕ → Bool
frozen_by user = any (λ target. target == 0 || target == user)

unfoldable pub is_frozen : ℕ → Tx Bool
is_frozen user = gets (λ s. frozen_by user s.restrictions)

unfoldable pub set_frozen : ℕ → Bool → Tx (Unit {0})
set_frozen target enabled = do
  rows ← gets (λ s. s.restrictions)
  if enabled && not (contains target rows)
      then modify_db (λ d. record d { restrictions = target ∷ d.restrictions })
      else if not enabled
      then modify_db
          (λ d. record d { restrictions = select (λ t. not (t == target)) d.restrictions })
      else pure tt
