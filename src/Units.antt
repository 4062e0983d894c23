-- ===== src/Units.antt =====
-- Units of work: how SqlAlchemyUnitOfWork of src/butterbot/infrastructure/persistence/unit_of_work.py
-- begins, commits and rolls back around an operation of a service, and sequences of such units.
pub mod Books
use butterbot.Base.{ℕ, ℤ, Bool, String, List, [], ◌∷◌}
use butterbot.Corrections.{CorrectionRequest}
use butterbot.Daily.{claim}
use butterbot.Join.{join}
use butterbot.Models.{Capability}
use butterbot.Players.{assert_complete}
use butterbot.Result.{Result, ok, err}
use butterbot.Safety.{SafetyService}
use butterbot.Safety.Access.{bootstrap, change_capability, inspect, view_proposal}
use butterbot.Safety.Money.{execute_grant, correct_grant}
use butterbot.Safety.Proposing.{ProposalRequest, propose, approve}
use butterbot.Session.{Session, Callback, empty_tracker}
use butterbot.Transport.{assert_no_pending_requests}
use butterbot.Tx.{Tx, pure, ◌>>=◌, ◌>>◌}

-- What a unit leaves: its result, the session for the next, and the callbacks that run after it.
pub record Ended {ℓ} (A : Type ℓ) : Type ℓ where
  pub result : Result A
  pub session : Session
  pub published : List Callback

-- `__aenter__`: a new tracker, no pending request, no callback.
abbrev pub begin : Session → Session
begin s = record s { tracker = empty_tracker; pending_request_ids = []; after_commit = [] }

module _ {ℓ} {A : Type ℓ} where
  -- `__aexit__` where the body has not raised: the two checks before the commit.
  unfoldable pub checked : Tx A → Tx A
  checked body = do a ← body; assert_no_pending_requests; assert_complete; pure a

  -- A commit runs the callbacks; a rollback drops them and every write.
  abbrev pub end : Session → Result (A × Session) → Ended A
  end s (ok (a, t)) = record { result = ok a; session = begin t; published = t.after_commit }
  end s (err e) = record { result = err e; session = s; published = [] }

  unfoldable pub run_unit : Tx A → Session → Ended A
  run_unit body s = end s (checked body (begin s))

-- The operations of the services that write.
pub data Operation : Type 0 where
  joins : Bool → ℤ → ℕ → ℕ → Operation
  claims_daily : Bool → ℤ → ℕ → ℕ → ℤ → Operation
  bootstraps : List ℕ → ℤ → Operation
  changes_capability : ℕ → ℕ → Capability → Bool → String → ℕ → ℤ → Operation
  inspects : ℕ → ℕ → String → ℤ → Operation
  views_proposal : ℕ → ℕ → ℤ → Operation
  proposes : ProposalRequest → ℤ → Operation
  approves : ℕ → ℕ → ℕ → ℤ → Operation
  executes_grant : ℕ → ℕ → ℕ → ℤ → ℤ → Operation
  corrects_grant : CorrectionRequest → ℤ → ℤ → Operation

unfoldable pub perform : SafetyService → Operation → Tx (Unit {0})
perform service (joins allowed clock_ms user interaction_id) =
    join service.env service.periods allowed clock_ms user interaction_id >> pure tt
perform service (claims_daily allowed clock_ms user interaction_id period) =
    claim service.env service.periods allowed clock_ms user interaction_id period >> pure tt
perform service (bootstraps ids clock_ms) = bootstrap service ids clock_ms >> pure tt
perform service
      (changes_capability actor target capability enabled reason interaction_id clock_ms) =
    change_capability service actor target capability enabled reason interaction_id clock_ms
    >> pure tt
perform service (inspects actor target reason clock_ms) =
    inspect service actor target reason clock_ms >> pure tt
perform service (views_proposal actor proposal clock_ms) =
    view_proposal service actor proposal clock_ms >> pure tt
perform service (proposes r clock_ms) = propose service r clock_ms >> pure tt
perform service (approves actor proposal interaction_id clock_ms) =
    approve service actor proposal interaction_id clock_ms >> pure tt
perform service (executes_grant actor proposal interaction_id arrival_ms clock_ms) =
    execute_grant service actor proposal interaction_id arrival_ms clock_ms >> pure tt
perform service (corrects_grant r arrival_ms clock_ms) =
    correct_grant service r arrival_ms clock_ms >> pure tt

unfoldable pub run_all : SafetyService → List Operation → Session → Session
run_all service [] s = s
run_all service (o ∷ os) s = run_all service os (run_unit (perform service o) s).session
