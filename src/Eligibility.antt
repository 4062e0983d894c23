-- ===== src/Eligibility.antt =====
-- GlobalMutationEligibility of src/butterbot/application/operations/mutation_eligibility.py.
use butterbot.Base.{String, Bool, true, false, not, Option, none, some, if◌then◌else◌}

pub record MutationEligibilityDecision : Type 0 where
  pub allowed : Bool
  pub reason : String

-- `runtime_safety` is what the monitor's `is_safe()` answers, where there is a monitor.
pub record GlobalMutationEligibility : Type 0 where
  pub configured_enabled : Bool
  pub database_ready : Bool
  pub runtime_safety : Option Bool

abbrev pub is_unsafe : Option Bool → Bool
is_unsafe none = false
is_unsafe (some safe) = not safe

unfoldable pub evaluate : GlobalMutationEligibility → MutationEligibilityDecision
evaluate e =
    if not e.database_ready
    then record { allowed = false; reason = "database_not_ready" }
    else if is_unsafe e.runtime_safety
    then record { allowed = false; reason = "runtime_storage_unsafe" }
    else if not e.configured_enabled
    then record { allowed = false; reason = "globally_disabled" }
    else record { allowed = true; reason = "enabled" }
