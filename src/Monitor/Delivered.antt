-- ===== src/Monitor/Delivered.antt =====
-- What the telemetry of src/butterbot/infrastructure/persistence/storage_monitor.py hears.
use butterbot.Base.{
  ℕ, suc, Bool, true, false, not, some, List, [], ◌∷◌, ◌++◌, ◌≡◌, refl, ap, sym, ◌∙◌, is_some,
  if◌then◌else◌, Bool-cases, inl, inr, arith,
}
use mathlib.Core.Path.{subst}
use butterbot.Eligibility.{GlobalMutationEligibility, evaluate}
use butterbot.Monitor.{
  Transition, DatabaseStorageMonitor, new_monitor, same_bool, transition_to, set_safe, drain_queue,
  drain_safety_transitions, sample, identity_failure, Event, monitor_step, run_monitor,
}

-- What an event finds: whether the storage is safe.
abbrev pub found_safe : Event → Bool
found_safe (Event.samples category taken) = not (is_some category)
found_safe (Event.identity_fails taken) = false

-- The specification: a transition for each change between safe and unsafe, nothing else.
abbrev pub changes : Bool → Bool → List Event → List Transition
changes configured safe [] = []
changes configured safe (e ∷ es) =
    if same_bool (found_safe e) safe
    then changes configured safe es
    else transition_to configured (found_safe e) ∷ changes configured (found_safe e) es

-- What was heard, then what is still to be heard.
abbrev pub announced : DatabaseStorageMonitor → List Transition
announced m = m.emitted ++ m.pending_safety_transitions

append_assoc {ℓ} : {A : Type ℓ} (xs ys zs : List A) → (xs ++ ys) ++ zs ≡ xs ++ (ys ++ zs)
append_assoc [] ys zs = refl
append_assoc (x ∷ xs) ys zs = ap (λ l. x ∷ l) (append_assoc xs ys zs)

append_nil {ℓ} : {A : Type ℓ} (xs : List A) → xs ++ [] ≡ xs
append_nil [] = refl
append_nil (x ∷ xs) = ap (λ l. x ∷ l) (append_nil xs)

drain_queue-++ :
    (taken : ℕ → Bool) (n : ℕ) (ts : List Transition)
    → (drain_queue taken n ts).0 ++ (drain_queue taken n ts).1 ≡ ts
unfolding drain_queue
drain_queue-++ taken n [] = refl
drain_queue-++ taken n (t ∷ ts) = elim (Bool-cases (taken n)) [
  | inl e ↦ rw e (ap (λ l. t ∷ l) (drain_queue-++ taken (suc n) ts))
  | inr e ↦ rw e refl
]

announced-drain :
    (taken : ℕ → Bool) (m : DatabaseStorageMonitor)
    → announced (drain_safety_transitions taken m) ≡ announced m
unfolding drain_safety_transitions
announced-drain taken m =
    append_assoc m.emitted _ _
    ∙ ap (λ l. m.emitted ++ l) (drain_queue-++ taken 0 m.pending_safety_transitions)

-- One event: what it finds is set, and then the queue drained.
abbrev telemetry_of : Event → ℕ → Bool
telemetry_of (Event.samples category taken) = taken
telemetry_of (Event.identity_fails taken) = taken

monitor_step_lem :
    (e : Event) (m : DatabaseStorageMonitor)
    → monitor_step e m ≡ drain_safety_transitions (telemetry_of e) (set_safe (found_safe e) m)
unfolding monitor_step sample identity_failure
monitor_step_lem (Event.samples category taken) m = refl
monitor_step_lem (Event.identity_fails taken) m = refl

set_safe-same :
    (safe : Bool) (m : DatabaseStorageMonitor) → same_bool safe m.safe ≡ true → set_safe safe m ≡ m
unfolding set_safe
set_safe-same safe m e = rw e refl

-- The monitor after a change.
abbrev changed : Bool → DatabaseStorageMonitor → DatabaseStorageMonitor
changed safe m = record m {
  safe = safe;
  pending_safety_transitions =
      m.pending_safety_transitions ++ (transition_to m.configured_mutations_enabled safe ∷ []);
}

set_safe-changed :
    (safe : Bool) (m : DatabaseStorageMonitor)
    → same_bool safe m.safe ≡ false
    → set_safe safe m ≡ changed safe m
unfolding set_safe
set_safe-changed safe m e = rw e refl

-- What a run adds to what was announced before it.
run-changes :
    (es : List Event) (m : DatabaseStorageMonitor)
    → announced (run_monitor es m) ≡ announced m ++ changes m.configured_mutations_enabled m.safe es
unfolding run_monitor drain_safety_transitions
run-changes [] m = sym (append_nil (announced m))
run-changes (e ∷ es) m =
    let taken = telemetry_of e in
    elim (Bool-cases (same_bool (found_safe e) m.safe)) [
      | inl k ↦ rw k (
          ap (λ n. announced (run_monitor es n))
            (monitor_step_lem e m
              ∙ ap (drain_safety_transitions taken) (set_safe-same (found_safe e) m k))
          ∙ run-changes es (drain_safety_transitions taken m)
          ∙ ap (λ l. l ++ changes m.configured_mutations_enabled m.safe es)
              (announced-drain taken m))
      | inr k ↦ rw k (
          ap (λ n. announced (run_monitor es n))
            (monitor_step_lem e m
              ∙ ap (drain_safety_transitions taken) (set_safe-changed (found_safe e) m k))
          ∙ run-changes es (drain_safety_transitions taken (changed (found_safe e) m))
          ∙ ap (λ l. l ++ changes m.configured_mutations_enabled (found_safe e) es)
              (announced-drain taken (changed (found_safe e) m)
                ∙ sym (append_assoc m.emitted m.pending_safety_transitions _))
          ∙ append_assoc (announced m) _ _)
    ]

-- What the telemetry of a new monitor has taken, followed by what waits in the queue, are the
-- changes between safe and unsafe that the events amount to: each once, in order, none lost when
-- the telemetry fails.
pub run_monitor-changes :
    (configured : Bool) (es : List Event)
    → announced (run_monitor es (new_monitor configured)) ≡ changes configured true es
run_monitor-changes configured es = run-changes es (new_monitor configured)

-- The eligibility check of a ready database whose monitor answers `safe`.
abbrev pub at_runtime : Bool → Bool → GlobalMutationEligibility
at_runtime configured safe = record {
  configured_enabled = configured;
  database_ready = true;
  runtime_safety = some safe;
}

decides :
    (configured safe : Bool)
    → ((transition_to configured safe).enabled ≡ (evaluate (at_runtime configured safe)).allowed)
      × ((transition_to configured safe).reason ≡ (evaluate (at_runtime configured safe)).reason)
unfolding evaluate
decides true true = (refl, refl)
decides true false = (refl, refl)
decides false true = (refl, refl)
decides false false = (refl, refl)

abbrev pub last_or : Transition → List Transition → Transition
last_or t [] = t
last_or t (x ∷ xs) = last_or x xs

last_or-append : (t x : Transition) (ts : List Transition) → last_or t (ts ++ (x ∷ [])) ≡ x
last_or-append t x [] = refl
last_or-append t x (y ∷ ts) = last_or-append y x ts

-- The configuration stays, and the last transition announced is the one to what the storage is now.
record IsCurrent (configured : Bool) (m : DatabaseStorageMonitor) : Type 0 where
  stays : m.configured_mutations_enabled ≡ configured
  latest : last_or (transition_to configured true) (announced m) ≡ transition_to configured m.safe

drain-IsCurrent :
    (configured : Bool) (taken : ℕ → Bool) (m : DatabaseStorageMonitor)
    → IsCurrent configured m
    → IsCurrent configured (drain_safety_transitions taken m)
unfolding drain_safety_transitions
drain-IsCurrent configured taken m old = record {
  stays = old.stays;
  latest = ap (last_or (transition_to configured true)) (announced-drain taken m) ∙ old.latest;
}

set_safe-IsCurrent :
    (configured safe : Bool) (m : DatabaseStorageMonitor)
    → IsCurrent configured m
    → IsCurrent configured (set_safe safe m)
set_safe-IsCurrent configured safe m old = elim (Bool-cases (same_bool safe m.safe)) [
  | inl k ↦ subst (IsCurrent configured) (sym (set_safe-same safe m k)) old
  | inr k ↦ subst (IsCurrent configured) (sym (set_safe-changed safe m k)) record {
    stays = old.stays;
    latest =
        ap (last_or (transition_to configured true))
          (sym (append_assoc m.emitted m.pending_safety_transitions _))
        ∙ last_or-append (transition_to configured true) _ (announced m)
        ∙ ap (λ c. transition_to c safe) old.stays;
  }
]

run-IsCurrent :
    (configured : Bool) (es : List Event) (m : DatabaseStorageMonitor)
    → IsCurrent configured m
    → IsCurrent configured (run_monitor es m)
unfolding run_monitor
run-IsCurrent configured [] m old = old
run-IsCurrent configured (e ∷ es) m old = run-IsCurrent configured es (monitor_step e m) (
    subst (IsCurrent configured) (sym (monitor_step_lem e m)) (
      drain-IsCurrent configured (telemetry_of e) (set_safe (found_safe e) m)
        (set_safe-IsCurrent configured (found_safe e) m old)))

-- What the last event found.
abbrev pub last_found : Bool → List Event → Bool
last_found safe [] = safe
last_found safe (e ∷ es) = last_found (found_safe e) es

same_bool-≡ : (a b : Bool) → same_bool a b ≡ true → b ≡ a
same_bool-≡ true true e = refl
same_bool-≡ false false e = refl
same_bool-≡ true false e = absurd (ground arith)
same_bool-≡ false true e = absurd (ground arith)

set_safe-safe : (safe : Bool) (m : DatabaseStorageMonitor) → (set_safe safe m).safe ≡ safe
set_safe-safe safe m = elim (Bool-cases (same_bool safe m.safe)) [
  | inl k ↦
      ap (λ (n : DatabaseStorageMonitor). n.safe) (set_safe-same safe m k)
      ∙ same_bool-≡ safe m.safe k
  | inr k ↦ ap (λ (n : DatabaseStorageMonitor). n.safe) (set_safe-changed safe m k)
]

run_monitor-safe :
    (es : List Event) (m : DatabaseStorageMonitor) → (run_monitor es m).safe ≡ last_found m.safe es
unfolding run_monitor drain_safety_transitions
run_monitor-safe [] m = refl
run_monitor-safe (e ∷ es) m =
    run_monitor-safe es (monitor_step e m)
    ∙ ap (λ b. last_found b es)
        (ap (λ (n : DatabaseStorageMonitor). n.safe) (monitor_step_lem e m)
          ∙ set_safe-safe (found_safe e) m)

-- After any events, the last transition that a monitor has announced, to the telemetry or to its
-- queue (or the one to a safe storage, where it has announced none), says what the eligibility check
-- of a ready database decides with the answer that the monitor gives then, which is what the last
-- event found.
pub run_monitor-evaluate :
    (configured : Bool) (es : List Event)
    → let m = run_monitor es (new_monitor configured) in
      let last = last_or (transition_to configured true) (announced m) in
      (m.safe ≡ last_found true es)
      × (last.enabled ≡ (evaluate (at_runtime configured m.safe)).allowed)
      × (last.reason ≡ (evaluate (at_runtime configured m.safe)).reason)
run_monitor-evaluate configured es =
    let m = run_monitor es (new_monitor configured) in
    let current =
      run-IsCurrent configured es (new_monitor configured) record { stays = refl; latest = refl } in
    let decided = decides configured m.safe in
    (
      run_monitor-safe es (new_monitor configured),
      ap (λ (t : Transition). t.enabled) current.latest ∙ decided.0,
      ap (λ (t : Transition). t.reason) current.latest ∙ decided.1,
    )
