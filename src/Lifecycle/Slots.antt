-- ===== src/Lifecycle/Slots.antt =====
-- The writer slots of src/butterbot/infrastructure/persistence/unit_of_work.py in every reachable lifecycle.
use butterbot.Base.{
  ℕ, suc, ◌+◌, ◌≡◌, refl, Bool, true, false, not, ◌&&◌, List, [], ◌∷◌, length, arith, inl, inr,
  Bool-cases,
}
use butterbot.Lifecycle.{
  after, others, UnitOfWorkLifecycle, Registration, Closing, is_active, resources_closed, finish,
  cleaned, admit, retry_cleanup, close_resources_attempt, register, give_up, start, connect,
  open_session, begun, fail_entering, exit, completed, leave, begin_shutdown,
  request_shutdown_cancel, shutdown_cancellable,
}
use butterbot.Lifecycle.Steps.{Step, Reachable}

abbrev distinct_units : List Registration → Bool
distinct_units [] = true
distinct_units (r ∷ rs) = not (is_active rs r.unit) && distinct_units rs

is_active-others :
    (u v : ℕ) (rs : List Registration) → is_active rs v ≡ false → is_active (others u rs) v ≡ false
unfolding is_active others
is_active-others u v [] e = refl
is_active-others u v (r ∷ rs) e = ground (arith, is_active-others u v rs)

length-others_absent : (u : ℕ) (rs : List Registration) → is_active rs u ≡ false → others u rs ≡ rs
unfolding is_active others
length-others_absent u [] e = refl
length-others_absent u (r ∷ rs) e = ground (arith, length-others_absent u rs)

length-others :
    (u : ℕ) (rs : List Registration)
    → distinct_units rs ≡ true
    → is_active rs u ≡ true
    → suc (length (others u rs)) ≡ length rs
unfolding is_active others
length-others u [] d e = ground arith
length-others u (r ∷ rs) d e = ground (arith, length-others u rs, length-others_absent u rs)

distinct-others :
    (u : ℕ) (rs : List Registration)
    → distinct_units rs ≡ true
    → distinct_units (others u rs) ≡ true
unfolding is_active others
distinct-others u [] d = refl
distinct-others u (r ∷ rs) d = ground (arith, distinct-others u rs, is_active-others u r.unit rs)

-- The registrations, each of them a unit of its own, hold the writer slots that are not free.
pub record AreSlotsKept (l : UnitOfWorkLifecycle) : Type 0 where
  pub slots : l.writer_slots + length l.active ≡ 4
  pub distinct : distinct_units l.active ≡ true

slots-finish : (u : ℕ) (l : UnitOfWorkLifecycle) → AreSlotsKept l → AreSlotsKept (finish u l)
unfolding finish
slots-finish u l kept = elim (Bool-cases (is_active l.active u)) [
  | inr e ↦ rw e kept
  | inl e ↦ rw e record {
    slots = omega (arith, length-others u l.active kept.distinct e, kept.slots);
    distinct = distinct-others u l.active kept.distinct;
  }
]

slots-cleaned :
    (u : ℕ) (closing : Closing) (l : UnitOfWorkLifecycle)
    → AreSlotsKept l
    → AreSlotsKept (cleaned u closing l)
unfolding cleaned
slots-cleaned u closing l kept =
    elim (Bool-cases (resources_closed (close_resources_attempt closing (l.units u)))) [
      | inl e ↦ rw e record { slots = kept.slots; distinct = kept.distinct }
      | inr e ↦ rw e record { slots = kept.slots; distinct = kept.distinct }
    ]

slots-retry :
    (u : ℕ) (closing : Closing) (l : UnitOfWorkLifecycle)
    → AreSlotsKept l
    → AreSlotsKept (retry_cleanup u closing l)
unfolding retry_cleanup
slots-retry u closing l kept =
    let m = slots-cleaned u closing l kept in
    elim (Bool-cases (resources_closed ((cleaned u closing l).units u))) [
      | inl e ↦ rw e record { slots = m.slots; distinct = m.distinct }
      | inr e ↦ rw e m
    ]

slots-admit :
    (u task : ℕ) (in_time : Bool) (l : UnitOfWorkLifecycle) {n : ℕ}
    → l.writer_slots ≡ suc n
    → is_active l.active u ≡ false
    → AreSlotsKept l
    → AreSlotsKept (admit u task in_time l).0
unfolding admit
slots-admit u task in_time l {n} free new kept = elim (Bool-cases l.accepting) [
  | inl e ↦ rw e record { slots = omega (arith, kept.slots, free); distinct = rw new kept.distinct }
  | inr e ↦ rw e record { slots = kept.slots; distinct = kept.distinct }
]

slots-register :
    (task : ℕ) (l : UnitOfWorkLifecycle) → AreSlotsKept l → AreSlotsKept (after (register task l) l)
unfolding register
slots-register task l kept = elim (Bool-cases l.accepting) [
  | inl e ↦ rw e record { slots = kept.slots; distinct = kept.distinct }
  | inr e ↦ rw e record { slots = kept.slots; distinct = kept.distinct }
]

slots-request :
    (u : ℕ) (l : UnitOfWorkLifecycle)
    → AreSlotsKept l
    → AreSlotsKept (after (request_shutdown_cancel u l) l)
unfolding request_shutdown_cancel
slots-request u l kept = elim (Bool-cases (shutdown_cancellable (l.units u))) [
  | inl e ↦ rw e record { slots = kept.slots; distinct = kept.distinct }
  | inr e ↦ rw e kept
]

slots-step : {l m : UnitOfWorkLifecycle} → Step l m → AreSlotsKept l → AreSlotsKept m
unfolding start give_up connect open_session begun fail_entering exit completed leave begin_shutdown
slots-step (Step.starts u _) kept = record { slots = kept.slots; distinct = kept.distinct }
slots-step (Step.waits task) kept = slots-register task _ kept
slots-step (Step.gives_up task) kept = record { slots = kept.slots; distinct = kept.distinct }
slots-step (Step.is_admitted u task in_time free new _) kept =
    slots-admit u task in_time _ free new kept
slots-step (Step.connects u _ _) kept = record { slots = kept.slots; distinct = kept.distinct }
slots-step (Step.opens_session u _ _) kept = record { slots = kept.slots; distinct = kept.distinct }
slots-step (Step.begins u _ _) kept = record { slots = kept.slots; distinct = kept.distinct }
slots-step (Step.fails_entering u closing _) kept =
    slots-finish u _
      (slots-cleaned u closing _ record { slots = kept.slots; distinct = kept.distinct })
slots-step (Step.exits u _ _ _ _) kept = record { slots = kept.slots; distinct = kept.distinct }
slots-step (Step.completes u _) kept = record { slots = kept.slots; distinct = kept.distinct }
slots-step (Step.leaves u closing) kept = slots-finish u _ (slots-cleaned u closing _ kept)
slots-step (Step.retries u closing) kept = slots-retry u closing _ kept
slots-step Step.shuts_down kept = record { slots = kept.slots; distinct = kept.distinct }
slots-step (Step.is_asked_to_cancel u) kept = slots-request u _ kept

-- In every lifecycle that a new one can become, the free writer slots and the registered units of
-- work are four together, and no unit is registered twice.
pub slots_kept : {l : UnitOfWorkLifecycle} → Reachable l → AreSlotsKept l
slots_kept Reachable.created = record { slots = refl; distinct = refl }
slots_kept (Reachable.stepped r s) = slots-step s (slots_kept r)
