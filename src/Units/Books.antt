-- ===== src/Units/Books.antt =====
-- Double entry over whole runs of the program.
use butterbot.Base.{ℤ, List, [], ◌∷◌}
use butterbot.Daily.Balanced.{claim-Has}
use butterbot.Join.Balanced.{join-Has}
use butterbot.Ledger.Measure.{Has, Measure, IsBalanced, zero_measure}
use butterbot.Players.{assert_complete}
use butterbot.Result.{Result, ok, err}
use butterbot.Safety.{SafetyService}
use butterbot.Safety.Balanced.{
  bootstrap-Has, change_capability-Has, inspect-Has, view_proposal-Has, propose-Has, approve-Has,
  execute_grant-Has_service, correct_grant-Has_service,
}
use butterbot.Session.{Session}
use butterbot.Transport.{assert_no_pending_requests}
use butterbot.Tx.{Tx}
use butterbot.Tx.Rules.{Post, Preserves, preserves_rules}
use butterbot.Units.{
  checked, end, begin, run_unit, perform, run_all, Operation, joins, claims_daily, bootstraps,
  changes_capability, inspects, views_proposal, proposes, approves, executes_grant, corrects_grant,
}

assert_complete-Preserves : {P : Session → Type 0} → Preserves P assert_complete
unfolding assert_complete
assert_complete-Preserves = search preserves_rules

assert_no_pending-Preserves : {P : Session → Type 0} → Preserves P assert_no_pending_requests
unfolding assert_no_pending_requests
assert_no_pending-Preserves = search preserves_rules

module _ {ℓ} {A : Type ℓ} (v : Measure → ℤ) where
  checked-Has : (body : Tx A) → Preserves (Has v) body → Preserves (Has v) (checked body)
  unfolding checked
  checked-Has body keeps =
      search (preserves_rules, assert_no_pending-Preserves, assert_complete-Preserves)

  end-Has :
      (s : Session) (r : Result (A × Session))
      → Has v s
      → Post (λ (a : A). Has v) r
      → Has v (end s r).session
  end-Has s (ok (a, t)) h k = k
  end-Has s (err e) h k = h

  run_unit-Has :
      (body : Tx A) (s : Session)
      → Preserves (Has v) body
      → Has v s
      → Has v (run_unit body s).session
  unfolding run_unit
  run_unit-Has body s keeps h =
      end-Has s (checked body (begin s)) h ((checked-Has body keeps).at (begin s) h)

perform-Has :
    (service : SafetyService) (o : Operation) (v : Measure → ℤ)
    → Preserves (Has v) (perform service o)
unfolding perform
perform-Has service (joins allowed clock_ms user interaction_id) v =
    search (preserves_rules, join-Has v)
perform-Has service (claims_daily allowed clock_ms user interaction_id period) v =
    search (preserves_rules, claim-Has)
perform-Has service (bootstraps ids clock_ms) v = search (preserves_rules, bootstrap-Has v)
perform-Has service (changes_capability actor target capability enabled reason interaction clock_ms)
      v =
    search (preserves_rules, change_capability-Has v)
perform-Has service (inspects actor target reason clock_ms) v =
    search (preserves_rules, inspect-Has v)
perform-Has service (views_proposal actor proposal clock_ms) v =
    search (preserves_rules, view_proposal-Has v)
perform-Has service (proposes r clock_ms) v = search (preserves_rules, propose-Has v)
perform-Has service (approves actor proposal interaction_id clock_ms) v =
    search (preserves_rules, approve-Has v)
perform-Has service (executes_grant actor proposal interaction_id arrival_ms clock_ms) v =
    search (preserves_rules, execute_grant-Has_service v)
perform-Has service (corrects_grant r arrival_ms clock_ms) v =
    search (preserves_rules, correct_grant-Has_service v)

-- Any sequence of units of work, whether each commits or rolls back, keeps double entry: each balance
-- stays the sum of the account's postings, the postings of each transaction cancel, all balances
-- together cancel, every balance meets the CHECKs of its table (no wallet is negative), and no daily
-- claim, grant execution or correction stands beside one that it is in conflict with.
pub run_all-IsBalanced :
    (service : SafetyService) (os : List Operation) (s : Session)
    → IsBalanced s
    → IsBalanced (run_all service os s)
unfolding run_all
run_all-IsBalanced service [] s h = h
run_all-IsBalanced service (o ∷ os) s h =
    run_all-IsBalanced service os _
      (run_unit-Has zero_measure (perform service o) s (perform-Has service o zero_measure) h)
