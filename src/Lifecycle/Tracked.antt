-- ===== src/Lifecycle/Tracked.antt =====
-- The connections and sessions of src/butterbot/infrastructure/persistence/unit_of_work.py: none is
-- open that the lifecycle has forgotten.
use butterbot.Base.{
  ℕ, ◌≡◌, refl, Bool, true, false, ◌||◌, arith, inl, inr, Bool-cases, ◌==◌, ==_iff, if◌then◌else◌,
  List, [], ◌∷◌,
}
use butterbot.Lifecycle.{
  UnitOfWorkLifecycle, UnitOfWork, Registration, Closing, after, is_active, set_unit, update,
  others, member, add, discard, resources_closed, close_resources_attempt, shutdown_cancellable,
  finish, cleaned, retry_cleanup, register, admit, give_up, start, connect, open_session, begun,
  fail_entering, exit, completed, leave, begin_shutdown, request_shutdown_cancel,
}
use butterbot.Lifecycle.Steps.{Step, Reachable}

-- A unit is closed, or registered, or in the set of those to clean up.
abbrev pub is_tracked : UnitOfWork → Bool → Bool → Bool
is_tracked x registered to_clean = resources_closed x || (registered || to_clean)

abbrev pub AreTracked : UnitOfWorkLifecycle → Type 0
AreTracked l =
    (u : ℕ) → is_tracked (l.units u) (is_active l.active u) (member l.unresolved u) ≡ true

tracked-update :
    (u : ℕ) (x : UnitOfWork) (l : UnitOfWorkLifecycle)
    → is_tracked x (is_active l.active u) (member l.unresolved u) ≡ true
    → AreTracked l
    → AreTracked (update u x l)
unfolding set_unit
tracked-update u x l new old = λ v. elim (Bool-cases (v == u)) [
  | inl e ↦ rw e (rw ((==_iff v u).0 e) new)
  | inr e ↦ rw e (old v)
]

is_active-others_same :
    (u v : ℕ) (rs : List Registration)
    → (v == u) ≡ false
    → is_active (others u rs) v ≡ is_active rs v
unfolding is_active others
is_active-others_same u v [] e = refl
is_active-others_same u v (r ∷ rs) e = ground (arith, is_active-others_same u v rs)

member-add : (u v : ℕ) (xs : List ℕ) → member xs v ≡ true → member (add u xs) v ≡ true
member-add u v xs e = ground arith

member-add_self : (u : ℕ) (xs : List ℕ) → member (add u xs) u ≡ true
member-add_self u xs = ground arith

member-discard : (u v : ℕ) (xs : List ℕ) → (v == u) ≡ false → member (discard u xs) v ≡ member xs v
member-discard u v [] e = refl
member-discard u v (x ∷ xs) e = ground (arith, member-discard u v xs)

still-tracked :
    (x : UnitOfWork) (a b c : Bool)
    → (b ≡ true → c ≡ true)
    → is_tracked x a b ≡ true
    → is_tracked x a c ≡ true
still-tracked x a b c f h = ground arith

-- The part of `finish` that changes something, at one unit.
tracked-others :
    (u v : ℕ) (l : UnitOfWorkLifecycle)
    → is_tracked (l.units v) (is_active l.active v) (member l.unresolved v) ≡ true
    → is_tracked
        (l.units v)
        (is_active (others u l.active) v)
        (member (if resources_closed (l.units u) then l.unresolved else add u l.unresolved) v)
      ≡ true
tracked-others u v l old = elim (Bool-cases (v == u)) [
  | inl e ↦ rw ((==_iff v u).0 e) (elim (Bool-cases (resources_closed (l.units u))) [
    | inl c ↦ rw c refl
    | inr c ↦ rw c (rw (member-add_self u l.unresolved) (ground arith))
  ])
  | inr e ↦
      rw (is_active-others_same u v l.active e) (elim (Bool-cases (resources_closed (l.units u))) [
        | inl c ↦ rw c old
        | inr c ↦
            rw c (
              still-tracked (l.units v) (is_active l.active v) _ _ (member-add u v l.unresolved)
                old)
      ])
]

tracked-finish : (u : ℕ) (l : UnitOfWorkLifecycle) → AreTracked l → AreTracked (finish u l)
unfolding finish
tracked-finish u l old = λ v. elim (Bool-cases (is_active l.active u)) [
  | inr e ↦ rw e (old v)
  | inl e ↦ rw e (tracked-others u v l (old v))
]

closed-later :
    (closing : Closing) (x : UnitOfWork) (a b : Bool)
    → is_tracked x a b ≡ true
    → is_tracked (close_resources_attempt closing x) a b ≡ true
unfolding close_resources_attempt
closed-later closing x a b h = ground arith

pub tracked-cleaned :
    (u : ℕ) (closing : Closing) (l : UnitOfWorkLifecycle)
    → AreTracked l
    → AreTracked (cleaned u closing l)
unfolding cleaned
tracked-cleaned u closing l old v =
    elim (Bool-cases (resources_closed (close_resources_attempt closing (l.units u)))) [
      | inl e ↦ rw e (
          tracked-update u _ l
            (closed-later closing (l.units u) (is_active l.active u) (member l.unresolved u)
              (old u))
            old v)
      | inr e ↦ rw e (
          tracked-update u _ l
            (closed-later closing (l.units u) (is_active l.active u) (member l.unresolved u)
              (old u))
            old v)
    ]

pub tracked-discard :
    (u v : ℕ) (m : UnitOfWorkLifecycle)
    → resources_closed (m.units u) ≡ true
    → is_tracked (m.units v) (is_active m.active v) (member m.unresolved v) ≡ true
    → is_tracked (m.units v) (is_active m.active v) (member (discard u m.unresolved) v) ≡ true
tracked-discard u v m closed old = elim (Bool-cases (v == u)) [
  | inl e ↦ rw ((==_iff v u).0 e) (rw closed refl)
  | inr e ↦ rw (member-discard u v m.unresolved e) old
]

pub tracked-retry :
    (u : ℕ) (closing : Closing) (l : UnitOfWorkLifecycle)
    → AreTracked l
    → AreTracked (retry_cleanup u closing l)
unfolding retry_cleanup
tracked-retry u closing l old v =
    elim (Bool-cases (resources_closed ((cleaned u closing l).units u))) [
      | inl e ↦
          rw e (tracked-discard u v (cleaned u closing l) e (tracked-cleaned u closing l old v))
      | inr e ↦ rw e (tracked-cleaned u closing l old v)
    ]

active-tracked : (x : UnitOfWork) (a b : Bool) → a ≡ true → is_tracked x a b ≡ true
active-tracked x a b h = rw h (ground arith)

tracked-register :
    (task : ℕ) (l : UnitOfWorkLifecycle) → AreTracked l → AreTracked (after (register task l) l)
unfolding register
tracked-register task l old = elim (Bool-cases l.accepting) [ inl e ↦ rw e old | inr e ↦ rw e old ]

still-active :
    (x : UnitOfWork) (new a b : Bool) → is_tracked x a b ≡ true → is_tracked x (new || a) b ≡ true
still-active x new a b h = ground arith

tracked-admit :
    (u task : ℕ) (in_time : Bool) (l : UnitOfWorkLifecycle)
    → AreTracked l
    → AreTracked (admit u task in_time l).0
unfolding admit is_active
tracked-admit u task in_time l old v = elim (Bool-cases l.accepting) [
  | inl e ↦
      rw e
        (still-active (l.units v) (u == v) (is_active l.active v) (member l.unresolved v) (old v))
  | inr e ↦ rw e (old v)
]

tracked-request :
    (u : ℕ) (l : UnitOfWorkLifecycle)
    → AreTracked l
    → AreTracked (after (request_shutdown_cancel u l) l)
unfolding request_shutdown_cancel
tracked-request u l old = elim (Bool-cases (shutdown_cancellable (l.units u))) [
  | inl e ↦ rw e (tracked-update u _ l (old u) old)
  | inr e ↦ rw e old
]

tracked-step : {l m : UnitOfWorkLifecycle} → Step l m → AreTracked l → AreTracked m
unfolding start give_up connect open_session begun fail_entering exit completed leave begin_shutdown
tracked-step {l} (Step.starts u _) old = tracked-update u _ l (old u) old
tracked-step {l} (Step.waits task) old = tracked-register task l old
tracked-step {l} (Step.gives_up task) old = old
tracked-step {l} (Step.is_admitted u task in_time free new _) old =
    tracked-admit u task in_time l old
tracked-step {l} (Step.connects u a _) old =
    tracked-update u _ l
      (active-tracked (record (l.units u) { connection = true }) _ (member l.unresolved u) a) old
tracked-step {l} (Step.opens_session u a _) old =
    tracked-update u _ l
      (active-tracked (record (l.units u) { session = true }) _ (member l.unresolved u) a) old
tracked-step {l} (Step.begins u _ _) old = tracked-update u _ l (old u) old
tracked-step {l} (Step.fails_entering u closing _) old =
    tracked-finish u _ (tracked-cleaned u closing _ (tracked-update u _ l (old u) old))
tracked-step {l} (Step.exits u _ _ _ _) old = tracked-update u _ l (old u) old
tracked-step {l} (Step.completes u _) old = tracked-update u _ l (old u) old
tracked-step {l} (Step.leaves u closing) old = tracked-finish u _ (tracked-cleaned u closing l old)
tracked-step {l} (Step.retries u closing) old = tracked-retry u closing l old
tracked-step {l} Step.shuts_down old = old
tracked-step {l} (Step.is_asked_to_cancel u) old = tracked-request u l old

-- In every lifecycle that a new one can become, a unit of work with an open session or connection
-- is registered or waits for its cleanup.
pub resources_tracked : {l : UnitOfWorkLifecycle} → Reachable l → AreTracked l
resources_tracked Reachable.created = λ u. refl
resources_tracked (Reachable.stepped r s) = tracked-step s (resources_tracked r)
