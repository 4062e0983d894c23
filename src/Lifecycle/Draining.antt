-- ===== src/Lifecycle/Draining.antt =====
-- What `drain` of src/butterbot/infrastructure/persistence/unit_of_work.py promises when it returns.
use butterbot.Base.{
  is_empty, ℕ, ◌≡◌, refl, ◌∙◌, Bool, true, false, arith, inl, inr, Bool-cases, Option, none, some,
  List, [], ◌∷◌, length, ◌==◌, ==_iff,
}
use mathlib.Core.Path.{subst}
use butterbot.Result.{ok, AllOk}
use butterbot.Lifecycle.{
  UnitOfWork, UnitOfWorkLifecycle, Registration, Closing, resources_closed, is_active, member,
  discard, cleaned, retry_cleanup, retry_one, retry_each, retry_unresolved_cleanup, end_drain,
  close_resources_attempt, update, set_unit,
}
use butterbot.Lifecycle.Slots.{slots_kept}
use butterbot.Lifecycle.Steps.{Reachable}
use butterbot.Lifecycle.Tracked.{
  is_tracked, AreTracked, tracked-retry, tracked-discard, resources_tracked,
}

-- What a retry leaves alone.
record IsSameBooks (l m : UnitOfWorkLifecycle) : Type 0 where
  active : m.active ≡ l.active
  slots : m.writer_slots ≡ l.writer_slots

same-cleaned :
    (u : ℕ) (closing : Closing) (l : UnitOfWorkLifecycle) → IsSameBooks l (cleaned u closing l)
unfolding cleaned
same-cleaned u closing l =
    elim (Bool-cases (resources_closed (close_resources_attempt closing (l.units u)))) [
      | inl e ↦ rw e record { active = refl; slots = refl }
      | inr e ↦ rw e record { active = refl; slots = refl }
    ]

same-one :
    (u : ℕ) (attempt : Option Closing) (l : UnitOfWorkLifecycle)
    → IsSameBooks l (retry_one u attempt l)
unfolding retry_one retry_cleanup
same-one u (some closing) l =
    let same = same-cleaned u closing l in
    elim (Bool-cases (resources_closed ((cleaned u closing l).units u))) [
      | inl e ↦ rw e record { active = same.active; slots = same.slots }
      | inr e ↦ rw e same
    ]
same-one u none l = elim (Bool-cases (resources_closed (l.units u))) [
  | inl e ↦ rw e record { active = refl; slots = refl }
  | inr e ↦ rw e record { active = refl; slots = refl }
]

tracked-one :
    (u : ℕ) (attempt : Option Closing) (l : UnitOfWorkLifecycle)
    → AreTracked l
    → AreTracked (retry_one u attempt l)
unfolding retry_one
tracked-one u (some closing) l old v = tracked-retry u closing l old v
tracked-one u none l old v = elim (Bool-cases (resources_closed (l.units u))) [
  | inl e ↦ rw e (tracked-discard u v l e (old v))
  | inr e ↦ rw e (old v)
]

same-each :
    (attempts : ℕ → Option Closing) (us : List ℕ) (l : UnitOfWorkLifecycle)
    → IsSameBooks l (retry_each attempts us l)
unfolding retry_each
same-each attempts [] l = record { active = refl; slots = refl }
same-each attempts (u ∷ us) l =
    let first = same-one u (attempts u) l in
    let rest = same-each attempts us (retry_one u (attempts u) l) in
    record { active = rest.active ∙ first.active; slots = rest.slots ∙ first.slots }

tracked-each :
    (attempts : ℕ → Option Closing) (us : List ℕ) (l : UnitOfWorkLifecycle)
    → AreTracked l
    → AreTracked (retry_each attempts us l)
unfolding retry_each
tracked-each attempts [] l old = old
tracked-each attempts (u ∷ us) l old = tracked-each attempts us _ (tracked-one u (attempts u) l old)

-- All is over: nothing is open, and the four writer slots are free.
pub record IsDrained (l : UnitOfWorkLifecycle) : Type 0 where
  pub closed : (u : ℕ) → resources_closed (l.units u) ≡ true
  pub free : l.writer_slots ≡ 4

is_active-empty : (rs : List Registration) (u : ℕ) → is_empty rs ≡ true → is_active rs u ≡ false
unfolding is_active
is_active-empty [] u e = refl
is_active-empty (r ∷ rs) u e = ground arith

member-empty : (xs : List ℕ) (u : ℕ) → is_empty xs ≡ true → member xs u ≡ false
member-empty [] u e = refl
member-empty (x ∷ xs) u e = ground arith

closed-of :
    (x : UnitOfWork) (a b : Bool)
    → a ≡ false
    → b ≡ false
    → is_tracked x a b ≡ true
    → resources_closed x ≡ true
closed-of x a b p q h = ground arith

length-empty : (rs : List Registration) → is_empty rs ≡ true → length rs ≡ 0
length-empty [] e = refl
length-empty (r ∷ rs) e = ground arith

drained-tracked :
    (l : UnitOfWorkLifecycle)
    → is_empty l.active ≡ true
    → is_empty l.unresolved ≡ true
    → AreTracked l
    → (u : ℕ) → resources_closed (l.units u) ≡ true
drained-tracked l a b old u =
    closed-of (l.units u) _ _ (is_active-empty l.active u a) (member-empty l.unresolved u b) (old u)

retry_unresolved_cleanup-IsDrained :
    (l : UnitOfWorkLifecycle) (attempts : ℕ → Option Closing)
    → Reachable l
    → is_empty l.active ≡ true
    → AllOk IsDrained (retry_unresolved_cleanup attempts l)
unfolding retry_unresolved_cleanup
retry_unresolved_cleanup-IsDrained l attempts r a =
    let m = retry_each attempts l.unresolved l in
    let same = same-each attempts l.unresolved l in
    elim (Bool-cases (is_empty m.unresolved)) [
      | inr e ↦ rw e tt
      | inl e ↦ rw e record {
        closed =
            drained-tracked m (rw same.active a) e
              (tracked-each attempts l.unresolved l (resources_tracked r));
        free = rw same.slots (omega (arith, (slots_kept r).slots, length-empty l.active a));
      }
    ]

end_drain-all :
    (pending : Bool) (attempts : ℕ → Option Closing) (l : UnitOfWorkLifecycle)
    → Reachable l
    → AllOk IsDrained (end_drain pending attempts l)
unfolding end_drain
end_drain-all true attempts l r = tt
end_drain-all false attempts l r = elim (Bool-cases (is_empty l.active)) [
  | inl e ↦ rw e (retry_unresolved_cleanup-IsDrained l attempts r e)
  | inr e ↦ rw e tt
]

-- From a lifecycle that a new one can become, a drain that returns leaves no session and no
-- connection open, and all four writer slots free.
pub end_drain-IsDrained :
    {l m : UnitOfWorkLifecycle} (pending : Bool) (attempts : ℕ → Option Closing)
    → Reachable l
    → end_drain pending attempts l ≡ ok m
    → IsDrained m
end_drain-IsDrained {l} pending attempts r e =
    subst (AllOk IsDrained) e (end_drain-all pending attempts l r)

abbrev pub closer : Closing
closer = record { session_closed = true; connection_closed = true }

-- The attempts that close whatever is open.
abbrev pub closes_all : ℕ → Option Closing
closes_all u = some closer

closer-closes : (x : UnitOfWork) → resources_closed (close_resources_attempt closer x) ≡ true
unfolding close_resources_attempt
closer-closes x = ground arith

cleaned-closer :
    (u : ℕ) (l : UnitOfWorkLifecycle)
    → cleaned u closer l ≡ update u (close_resources_attempt closer (l.units u)) l
unfolding cleaned
cleaned-closer u l = rw (closer-closes (l.units u)) refl

set_unit-same : (u : ℕ) (x : UnitOfWork) (units : ℕ → UnitOfWork) → set_unit u x units u ≡ x
unfolding set_unit
set_unit-same u x units = rw ((==_iff u u).1 refl) refl

unresolved-one :
    (u : ℕ) (l : UnitOfWorkLifecycle)
    → (retry_one u (some closer) l).unresolved ≡ discard u l.unresolved
unfolding retry_one retry_cleanup
unresolved-one u l = rw (cleaned-closer u l) (
    rw (set_unit-same u (close_resources_attempt closer (l.units u)) l.units)
      (rw (closer-closes (l.units u)) refl))

discard-member :
    (u v : ℕ) (xs : List ℕ)
    → member (discard u xs) v ≡ true
    → (member xs v ≡ true) × ((u == v) ≡ false)
discard-member u v [] e = ground arith
discard-member u v (x ∷ xs) e = elim (Bool-cases (x == u)) [
  | inl c ↦ ground (arith, discard-member u v xs)
  | inr c ↦ ground (arith, discard-member u v xs)
]

member-discard_of :
    (u v : ℕ) (xs us : List ℕ)
    → member (discard u xs) v ≡ true
    → (member xs v ≡ true → member (u ∷ us) v ≡ true)
    → member us v ≡ true
member-discard_of u v xs us e h =
    let kept = discard-member u v xs e in ground (arith, h kept.0, kept.1)

nobody-empty :
    (xs : List ℕ) → ((v : ℕ) → member xs v ≡ true → member [] v ≡ true) → is_empty xs ≡ true
nobody-empty [] h = refl
nobody-empty (x ∷ xs) h = ground (arith, h x)

drained-each :
    (us : List ℕ) (l : UnitOfWorkLifecycle)
    → ((v : ℕ) → member l.unresolved v ≡ true → member us v ≡ true)
    → is_empty (retry_each closes_all us l).unresolved ≡ true
unfolding retry_each
drained-each [] l h = nobody-empty l.unresolved h
drained-each (u ∷ us) l h = drained-each us (retry_one u (closes_all u) l) λ v e.
    member-discard_of u v l.unresolved us (subst (λ xs. member xs v ≡ true) (unresolved-one u l) e)
      (h v)

-- When no owner is pending, no unit is registered and every resource can be closed, the drain
-- returns.
pub end_drain_returns :
    (l : UnitOfWorkLifecycle)
    → is_empty l.active ≡ true
    → (m : UnitOfWorkLifecycle) × (end_drain false closes_all l ≡ ok m)
unfolding end_drain retry_unresolved_cleanup
end_drain_returns l a =
    (retry_each closes_all l.unresolved l, rw a (rw (drained-each l.unresolved l λ v e. e) refl))
