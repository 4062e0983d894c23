-- ===== src/Restrictions/Lookup.antt =====
-- What a capability or a freeze reads after it was set.
use butterbot.Base.{
  ℕ, Bool, true, false, not, ◌&&◌, ◌||◌, List, [], ◌∷◌, any, select, contains, ◌==◌, ◌≡◌, refl, sym,
  ◌∙◌, arith,
}
use butterbot.Models.{Capability}
use butterbot.Restrictions.{holds, has_capability, set_capability, frozen_by, is_frozen, set_frozen}
use butterbot.Result.{ok}
use butterbot.Session.{Session}
use butterbot.Tx.{gets}
use butterbot.Tx.Rules.{Post, Post-ok}
use butterbot.Tx.Steps.{gets_step, if_step, modify_end, pure_end}

any-select-not :
    {A : Type 0} (p : A → Bool) (xs : List A) → any p (select (λ x. not (p x)) xs) ≡ false
any-select-not p [] = refl
any-select-not p (x ∷ xs) = ground (arith, any-select-not p xs)

holds_itself :
    (actor_id : ℕ) (capability : Capability)
    → holds actor_id capability (record { actor_id = actor_id; capability = capability }) ≡ true
holds_itself actor_id capability = ground arith

module _ (actor_id : ℕ) (capability : Capability) (enabled : Bool) (s : Session) where
  abbrev Reads : Unit {0} → Session → Type 0
  Reads u t = any (holds actor_id capability) t.capabilities ≡ enabled

  set_capability-Reads : Post Reads (set_capability actor_id capability enabled s)
  unfolding set_capability
  set_capability-Reads =
      let existing = any (holds actor_id capability) s.capabilities in
      gets_step _ _ _ s (
        if_step Reads (enabled && not existing) _ _ s
          (λ adds. modify_end Reads _ s (ground (arith, adds, holds_itself actor_id capability)))
          λ keeps.
            if_step Reads (not enabled && existing) _ _ s
              (λ removes. modify_end Reads _ s (
                any-select-not (holds actor_id capability) s.capabilities
                ∙ sym (ground (arith, removes))))
              λ same. pure_end Reads tt s (ground (arith, keeps, same)))

-- A capability reads as it was last set, whether or not the row was there.
pub set_capability-has_capability :
    (actor_id : ℕ) (capability : Capability) (enabled : Bool) (s t : Session)
    → set_capability actor_id capability enabled s ≡ ok (tt, t)
    → has_capability actor_id capability t ≡ ok (enabled, t)
unfolding has_capability gets
set_capability-has_capability actor_id capability enabled s t h =
    let read : any (holds actor_id capability) t.capabilities ≡ enabled =
      Post-ok (Reads actor_id capability enabled s) _
        (set_capability-Reads actor_id capability enabled s) h in
    rw read refl

module _ (target : ℕ) (enabled : Bool) (s : Session) where
  abbrev Holds : Unit {0} → Session → Type 0
  Holds u t = contains target t.restrictions ≡ enabled

  set_frozen-Holds : Post Holds (set_frozen target enabled s)
  unfolding set_frozen
  set_frozen-Holds =
      let present = contains target s.restrictions in
      gets_step _ _ _ s (
        if_step Holds (enabled && not present) _ _ s
          (λ adds. modify_end Holds _ s (ground (arith, adds)))
          λ keeps.
            if_step Holds (not enabled) _ _ s
              (λ removes.
                modify_end Holds _ s (
                  any-select-not (λ t. t == target) s.restrictions ∙ sym (ground (arith, removes))))
              λ same. pure_end Holds tt s (ground (arith, keeps, same)))

is_frozen_of :
    (user : ℕ) (rows : List ℕ) → frozen_by user rows ≡ (contains 0 rows || contains user rows)
is_frozen_of user [] = refl
is_frozen_of user (t ∷ ts) = ground (arith, is_frozen_of user ts)

-- A player reads as frozen where the player's own restriction was last set, or where everybody is frozen.
pub set_frozen-is_frozen :
    (target : ℕ) (enabled : Bool) (s t : Session)
    → set_frozen target enabled s ≡ ok (tt, t)
    → is_frozen target t ≡ ok (contains 0 t.restrictions || enabled, t)
unfolding is_frozen gets
set_frozen-is_frozen target enabled s t h =
    let held : contains target t.restrictions ≡ enabled =
      Post-ok (Holds target enabled s) _ (set_frozen-Holds target enabled s) h in
    rw (is_frozen_of target t.restrictions, held) refl
