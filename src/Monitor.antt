-- ===== src/Monitor.antt =====
-- The safety transitions of DatabaseStorageMonitor:
-- src/butterbot/infrastructure/persistence/storage_monitor.py.
pub mod Delivered
pub mod Sampling
use butterbot.Base.{
  ℕ, zero, suc, String, Bool, true, false, not, Option, none, some, List, [], ◌∷◌, ◌++◌, is_some,
  if◌then◌else◌,
}

-- `mutations_state(enabled, reason)`
pub record Transition : Type 0 where
  pub enabled : Bool
  pub reason : String

pub record DatabaseStorageMonitor : Type 0 where
  pub configured_mutations_enabled : Bool
  pub safe : Bool
  pub pending_safety_transitions : List Transition
  -- What the telemetry has taken so far.
  pub emitted : List Transition

-- `__init__`
abbrev pub new_monitor : Bool → DatabaseStorageMonitor
new_monitor configured = record {
  configured_mutations_enabled = configured;
  safe = true;
  pending_safety_transitions = [];
  emitted = [];
}

abbrev pub same_bool : Bool → Bool → Bool
same_bool true b = b
same_bool false b = not b

abbrev pub transition_to : Bool → Bool → Transition
transition_to configured true = record {
  enabled = configured;
  reason = if configured then "enabled" else "globally_disabled";
}
transition_to configured false = record { enabled = false; reason = "runtime_storage_unsafe" }

unfoldable pub set_safe : Bool → DatabaseStorageMonitor → DatabaseStorageMonitor
set_safe safe m = if same_bool safe m.safe then m else record m {
  safe = safe;
  pending_safety_transitions =
      m.pending_safety_transitions ++ (transition_to m.configured_mutations_enabled safe ∷ []);
}

-- The queue from its front: whether the telemetry takes the entries is for each call to say.
unfoldable pub drain_queue : (ℕ → Bool) → ℕ → List Transition → List Transition × List Transition
drain_queue taken n [] = ([], [])
drain_queue taken n (t ∷ ts) =
    let rest = drain_queue taken (suc n) ts in
    if taken n then (t ∷ rest.0, rest.1) else ([], t ∷ ts)

unfoldable pub drain_safety_transitions :
    (ℕ → Bool) → DatabaseStorageMonitor → DatabaseStorageMonitor
drain_safety_transitions taken m =
    let drained = drain_queue taken 0 m.pending_safety_transitions in
    record m { emitted = m.emitted ++ drained.0; pending_safety_transitions = drained.1 }

-- `sample`, as far as safety goes: the category of the error, when the checks find one.
unfoldable pub sample : Option String → (ℕ → Bool) → DatabaseStorageMonitor → DatabaseStorageMonitor
sample error_category taken m =
    drain_safety_transitions taken (set_safe (not (is_some error_category)) m)

unfoldable pub identity_failure : (ℕ → Bool) → DatabaseStorageMonitor → DatabaseStorageMonitor
identity_failure taken m = drain_safety_transitions taken (set_safe false m)

-- What happens to a monitor.
pub data Event : Type 0 where
  samples : Option String → (ℕ → Bool) → Event
  identity_fails : (ℕ → Bool) → Event

unfoldable pub monitor_step : Event → DatabaseStorageMonitor → DatabaseStorageMonitor
monitor_step (samples category taken) m = sample category taken m
monitor_step (identity_fails taken) m = identity_failure taken m

unfoldable pub run_monitor : List Event → DatabaseStorageMonitor → DatabaseStorageMonitor
run_monitor [] m = m
run_monitor (e ∷ es) m = run_monitor es (monitor_step e m)
