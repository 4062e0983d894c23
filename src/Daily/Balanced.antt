-- ===== src/Daily/Balanced.antt =====
-- The daily reward keeps double entry, on every branch that returns.
use butterbot.Base.{ℕ, ℤ, pos, negsuc, Bool, ◌+ℤ◌, ◌≡◌, int_laws}
use butterbot.Exact.Bounds.{checked_add_int64-ok}
use butterbot.Ledger.Effects.{
  &&-intro, system_account-Has, transport_request-Has, insert_transaction-Has,
}
use butterbot.Ledger.Measure.{Has, Measure}
use butterbot.Ledger.Moves.{move_step}
use butterbot.Models.{DailyClaim, PlayerModel, StableOutcome}
use butterbot.Players.{WalletRecord}
use butterbot.Session.{Session, Environment}
use butterbot.Tx.Rules.{Post, Preserves, preserves_rules, >>=-Post, Preserves-new_id}
use butterbot.Tx.Steps.{gets_step, guard_step, modify_end, frame_step, lift_step, pure_end}
use butterbot.Daily.Repository.{issue, insert_claim}
use butterbot.Daily.{pay, apply, decode, repeat_claim, claim}
use butterbot.Idempotency.Frame.{IsOutside, execute-Preserves}
use butterbot.Requests.{Registry}
use butterbot.Reads.{reads}

insert_claim-Has : (v : Measure → ℤ) (row : DailyClaim) → Preserves (Has v) (insert_claim row)
unfolding insert_claim
insert_claim-Has v row = record {
  at = λ s h. gets_step _ _ _ s (
      guard_step _ _ _ _ s
        λ fresh. modify_end _ _ s (h.0, (h.1.0, (&&-intro _ _ fresh h.1.1.0, h.1.1.1, h.1.1.2))));
}

module _ (env : Environment) (v : Measure → ℤ) where
  issue-Has :
      (c : DailyClaim) (w : WalletRecord) (s : Session)
      → c.after_amount ≡ w.amount +ℤ pos 15
      → Has v s
      → Post (λ (u : Unit {0}). Has v) (issue env c w s)
  unfolding issue
  issue-Has c w s grown h =
      frame_step _ _ (Has v) _ s (system_account-Has v _ _ _) h λ (account, balance) s1 h1.
        lift_step _ _ _ s1 λ after after_sum. lift_step _ _ _ s1 λ version _.
          frame_step _ _ (Has v) _ s1 (transport_request-Has v _ _) h1 λ request s2 h2.
            frame_step _ _ (Has v) _ s2 (insert_transaction-Has v _) h2 λ _ s3 h3.
              lift_step _ _ _ s3 λ wallet_version _.
                move_step v c.transaction_id w.id account.id (pos 15) (negsuc 14) _ _ _ _ grown
                  (checked_add_int64-ok balance.amount (negsuc 14) after_sum).0 (omega int_laws) _ _
                  s3 _ _ _ _ h3 λ t ht. (insert_claim-Has v c).at t ht

  pay-Has :
      (user interaction_id : ℕ) (period now : ℤ) (p : PlayerModel) (w : WalletRecord)
      → Preserves (Has v) (pay env user interaction_id period now p w)
  unfolding pay
  pay-Has user interaction_id period now p w = record {
    at = λ s h. lift_step _ _ _ s λ after after_sum.
        frame_step _ _ (Has v) _ s (Preserves-new_id λ _ k. k) h λ id s1 h1.
          >>=-Post (λ _. Has v) _ _ _ s1
            (issue-Has _ w s1 (checked_add_int64-ok w.amount (pos 15) after_sum).0 h1)
            λ _ t ht. pure_end _ _ t ht;
  }

  apply-Has :
      (allowed : Bool) (user interaction_id : ℕ) (period now : ℤ)
      → Preserves (Has v) (apply env allowed user interaction_id period now)
  unfolding apply
  apply-Has allowed user interaction_id period now =
      search (preserves_rules, reads, pay-Has) depth 24

decode-Preserves :
    {P : Session → Type 0} (env : Environment) (period : ℤ) (outcome : StableOutcome)
    (replayed : Bool)
    → Preserves P (decode env period outcome replayed)
unfolding decode
decode-Preserves env period outcome replayed = search preserves_rules depth 14

pub Has-IsOutside : (v : Measure → ℤ) → IsOutside (Has v)
Has-IsOutside v = record {
  requests_free = λ s rows h. h;
  pending_free = λ s ids h. h;
  callbacks_free = λ s callbacks h. h;
  ids_free = λ s n h. h;
}

-- A daily claim that returns, whatever its answer, leaves every measure of the books as it was: each
-- balance against its postings, the postings of each transaction, and the sum of all balances.
pub claim-Has :
    (env : Environment) (periods : Registry) (allowed : Bool) (clock_ms : ℤ)
    (user interaction_id : ℕ) (claim_period : ℤ) (v : Measure → ℤ)
    → Preserves (Has v) (claim env periods allowed clock_ms user interaction_id claim_period)
unfolding claim repeat_claim
claim-Has env periods allowed clock_ms user interaction_id claim_period v =
    search
      (
        preserves_rules,
        reads,
        decode-Preserves,
        execute-Preserves (Has v) (Has-IsOutside v),
        apply-Has env v,
      )
      depth 16
