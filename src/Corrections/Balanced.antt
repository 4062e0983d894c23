-- ===== src/Corrections/Balanced.antt =====
-- A correction keeps double entry, on every branch that returns.
use butterbot.Base.{ℕ, ℤ, pos, Bool, Option, ◌+ℤ◌, ◌-ℤ◌, ◌≡◌, int_laws}
use butterbot.Corrections.{
  CorrectionRequest, correction_row, debit_unless_frozen, correct_within_policy, correct_grant,
}
use butterbot.Corrections.Repository.{find, original_amount, amount_since, insert_correction, debit}
use butterbot.Exact.Bounds.{checked_add_int64-ok}
use butterbot.Ledger.Effects.{
  &&-intro, system_account-Has, transport_request-Has, insert_transaction-Has,
}
use butterbot.Ledger.Measure.{Has, Measure}
use butterbot.Ledger.Moves.{move_step}
use butterbot.Models.{Correction}
use butterbot.Players.{WalletRecord}
use butterbot.Policy.{SafetyPolicy}
use butterbot.Reads.{reads}
use butterbot.Session.{Session, Environment}
use butterbot.Tx.Rules.{Post, Preserves, preserves_rules}
use butterbot.Tx.Steps.{gets_step, guard_step, modify_end, frame_step, lift_step}

insert_correction-Has :
    (v : Measure → ℤ) (row : Correction) → Preserves (Has v) (insert_correction row)
unfolding insert_correction
insert_correction-Has v row = record {
  at = λ s h. gets_step _ _ _ s (
      guard_step _ _ _ _ s
        λ fresh. modify_end _ _ s (h.0, (h.1.0, (h.1.1.0, h.1.1.1, &&-intro _ _ fresh h.1.1.2))));
}

module _ {μ} {P : Session → Type μ} where
  pub find-Preserves : (original account : ℕ) → Preserves P (find original account)
  unfolding find
  find-Preserves original account = search preserves_rules

  pub original_amount-Preserves :
      (transaction account : ℕ) → Preserves P (original_amount transaction account)
  unfolding original_amount
  original_amount-Preserves transaction account = search preserves_rules

  amount_since-Preserves : (actor : ℕ) (since_ms : ℤ) → Preserves P (amount_since actor since_ms)
  unfolding amount_since
  amount_since-Preserves actor since_ms = search preserves_rules

module _ (env : Environment) (v : Measure → ℤ) where
  debit-Has :
      (c : Correction) (w : WalletRecord) (interaction_id : ℕ) (s : Session)
      → c.after_amount ≡ w.amount +ℤ (pos 0 -ℤ c.amount)
      → Has v s
      → Post (λ (u : Unit {0}). Has v) (debit env c w interaction_id s)
  unfolding debit
  debit-Has c w interaction_id s shrunk h =
      frame_step _ _ (Has v) _ s (system_account-Has v _ _ _) h λ (account, balance) s1 h1.
        lift_step _ _ _ s1 λ after after_sum. lift_step _ _ _ s1 λ version _.
          frame_step _ _ (Has v) _ s1 (transport_request-Has v _ _) h1 λ request s2 h2.
            frame_step _ _ (Has v) _ s2 (insert_transaction-Has v _) h2 λ _ s3 h3.
              lift_step _ _ _ s3 λ wallet_version _.
                move_step v c.transaction_id w.id account.id (pos 0 -ℤ c.amount) c.amount _ _ _ _
                  shrunk (checked_add_int64-ok balance.amount c.amount after_sum).0 (omega int_laws)
                  _ _ s3 _ _ _ _ h3 λ t ht. (insert_correction-Has v c).at t ht

  debit_row-Has :
      (r : CorrectionRequest) (w : WalletRecord) (frozen : Bool)
      → Preserves (Has v) (debit env (correction_row r w frozen) w r.interaction_id)
  debit_row-Has r w frozen = record {
    at = λ s h. debit-Has (correction_row r w frozen) w r.interaction_id s (omega int_laws) h;
  }

  debit_unless_frozen-Has :
      (r : CorrectionRequest) (w : WalletRecord) → Preserves (Has v) (debit_unless_frozen env r w)
  unfolding debit_unless_frozen
  debit_unless_frozen-Has r w = search (preserves_rules, reads, debit_row-Has) depth 16

  correct_within_policy-Has :
      (r : CorrectionRequest) (w : WalletRecord) (original : ℤ) (policy : SafetyPolicy)
      → Preserves (Has v) (correct_within_policy env r w original policy)
  unfolding correct_within_policy
  correct_within_policy-Has r w original policy =
      search (preserves_rules, amount_since-Preserves, debit_unless_frozen-Has) depth 16

  -- A correction that returns, whatever its status, leaves every measure of the books as it was.
  pub correct_grant-Has :
      (r : CorrectionRequest) (policy : Option SafetyPolicy)
      → Preserves (Has v) (correct_grant env r policy)
  unfolding correct_grant
  correct_grant-Has r policy =
      search
        (
          preserves_rules, reads, find-Preserves, original_amount-Preserves,
          correct_within_policy-Has,
        )
        depth 24
