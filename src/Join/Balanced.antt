-- ===== src/Join/Balanced.antt =====
-- Joining moves no coin.
use butterbot.Base.{ℕ, ℤ, Bool}
use butterbot.Daily.Balanced.{Has-IsOutside}
use butterbot.Idempotency.Frame.{execute-Preserves}
use butterbot.Join.{apply, join_result, join}
use butterbot.Ledger.Measure.{Has, Measure}
use butterbot.Models.{StableOutcome}
use butterbot.Players.Balanced.{create_if_absent-Has, create_wallet_if_absent-Has}
use butterbot.Reads.{reads}
use butterbot.Requests.{Registry}
use butterbot.Session.{Environment}
use butterbot.Tx.Rules.{Preserves, preserves_rules}

module _ (v : Measure → ℤ) where
  join_result-Has :
      (outcome : StableOutcome) (replayed : Bool) → Preserves (Has v) (join_result outcome replayed)
  unfolding join_result
  join_result-Has outcome replayed = search preserves_rules

  apply-Has : (allowed : Bool) (user : ℕ) (now : ℤ) → Preserves (Has v) (apply allowed user now)
  unfolding apply
  apply-Has allowed user now =
      search (preserves_rules, reads, create_if_absent-Has v, create_wallet_if_absent-Has v) depth
        24

  -- A join that returns leaves every measure of the books as it was.
  pub join-Has :
      (env : Environment) (periods : Registry) (allowed : Bool) (clock_ms : ℤ)
      (user interaction_id : ℕ)
      → Preserves (Has v) (join env periods allowed clock_ms user interaction_id)
  unfolding join
  join-Has env periods allowed clock_ms user interaction_id =
      search
        (preserves_rules, execute-Preserves (Has v) (Has-IsOutside v), apply-Has, join_result-Has)
        depth 16
