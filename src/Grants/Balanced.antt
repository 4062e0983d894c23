-- ===== src/Grants/Balanced.antt =====
-- A grant keeps double entry: what the issuance account gives is what the targets' wallets get.
use butterbot.Base.{
  ℕ, ℤ, pos, Option, some, none, List, [], ◌∷◌, sum_by, ◌==◌, ◌+ℤ◌, ◌-ℤ◌, ◌≡◌, int_laws, refl,
  Bool-cases, inl, inr, ◌∙◌, ap,
}
use butterbot.Exact.Bounds.{checked_add_int64-ok, require_int64-ok}
use butterbot.Grants.{
  approver_counts, Credits, stopped, collected, credit_target, collect_credits, finish_grant,
  issue_within_policy, execute_grant,
}
use butterbot.Grants.Repository.{
  GrantCredit, executed, amount_since, insert_grant_target, insert_execution, credited, credit_one,
  credit_all, issue,
}
use butterbot.Ledger.Effects.{
  &&-intro, system_account-Has, transport_request-Has, insert_transaction-Has, project-Has,
  insert_posting-Has, projected, posted,
}
use butterbot.Ledger.Measure.{Has, Measure, drift, net, coins, at_key}
use butterbot.Models.{GrantTargetModel, GrantExecutionModel}
use butterbot.Policy.{SafetyPolicy}
use butterbot.Proposals.{Proposal, get_proposal}
use butterbot.Reads.{reads}
use butterbot.Session.{Session, Environment}
use butterbot.Tx.{Tx, pure}
use butterbot.Tx.Rules.{
  Post, Preserves, preserves_rules, Preserves-bind, Preserves-pure, Post-map, >>=-Post,
}
use butterbot.Tx.Steps.{gets_step, guard_step, modify_end, frame_step, lift_step, pure_end}

insert_grant_target-Has :
    (v : Measure → ℤ) (row : GrantTargetModel) → Preserves (Has v) (insert_grant_target row)
unfolding insert_grant_target
insert_grant_target-Has v row = search preserves_rules

insert_execution-Has :
    (v : Measure → ℤ) (row : GrantExecutionModel) → Preserves (Has v) (insert_execution row)
unfolding insert_execution
insert_execution-Has v row = record {
  at = λ s h. gets_step _ _ _ s (
      guard_step _ _ _ _ s
        λ fresh. modify_end _ _ s (h.0, (h.1.0, (h.1.1.0, &&-intro _ _ fresh h.1.1.1, h.1.1.2))));
}

-- What is still to be credited: `total` on the postings of `transaction` and on the supply.
abbrev owed : (Measure → ℤ) → ℕ → ℤ → Measure → ℤ
owed v transaction total (drift a) = v (drift a)
owed v transaction total (net t) = v (net t) -ℤ at_key transaction t total
owed v transaction total coins = v coins -ℤ total

at_key_less :
    (k t : ℕ) (v x total : ℤ) → v -ℤ at_key k t total +ℤ at_key k t x ≡ v -ℤ at_key k t (total -ℤ x)
at_key_less k t v x total = elim (Bool-cases (k == t)) [
  | inl same ↦ rw same (omega int_laws)
  | inr other ↦ rw other (omega int_laws)
]

-- A projection and the posting for it pay a part of what is owed.
pays :
    (v : Measure → ℤ) (transaction account : ℕ) (before after total : ℤ) (m : Measure)
    → posted
        (projected (owed v transaction total) account before after)
        transaction
        account
        (after -ℤ before)
        m
      ≡ owed v transaction (total -ℤ (after -ℤ before)) m
pays v transaction account before after total (drift a) = omega int_laws
pays v transaction account before after total (net t) = at_key_less transaction t _ _ _
pays v transaction account before after total coins = omega int_laws

owes_nothing :
    (v : Measure → ℤ) (transaction : ℕ) (m : Measure) → owed v transaction (pos 0) m ≡ v m
owes_nothing v transaction (drift a) = refl
owes_nothing v transaction (net t) = elim (Bool-cases (transaction == t)) [
  | inl same ↦ rw same (omega int_laws)
  | inr other ↦ rw other (omega int_laws)
]
owes_nothing v transaction coins = omega int_laws

module _ (v : Measure → ℤ) (proposal_id transaction : ℕ) where
  credit_one-Has :
      (c : GrantCredit) (total : ℤ) (s : Session)
      → Has (owed v transaction total) s
      → Post
          (λ (u : Unit {0}). Has (owed v transaction (total -ℤ credited c)))
          (credit_one proposal_id transaction c s)
  unfolding credit_one
  credit_one-Has c total s h = lift_step _ _ _ s λ next_version _.
      >>=-Post (λ _. Has _) _ _ _ s (project-Has _ _ _ _ _ _ s h)
        λ _ s1 h1.
          >>=-Post (λ _. Has _) _ _ _ s1 (insert_posting-Has _ _ _ _ s1 h1)
            λ _ s2 h2.
              (insert_grant_target-Has _ _).at s2 (
                (λ m. h2.0 m ∙ pays v transaction c.wallet.id c.wallet.amount c.after total m),
                h2.1,
              )

  credit_all-Has :
      (cs : List GrantCredit) (total : ℤ) (s : Session)
      → Has (owed v transaction total) s
      → Post
          (λ (u : Unit {0}). Has (owed v transaction (total -ℤ sum_by credited cs)))
          (credit_all proposal_id transaction cs s)
  unfolding credit_all
  credit_all-Has [] total s h =
      pure_end _ _ s (let unchanged : total -ℤ pos 0 ≡ total = omega int_laws in rw unchanged h)
  credit_all-Has (c ∷ cs) total s h =
      let regrouped : total -ℤ (credited c +ℤ sum_by credited cs)
          ≡ total -ℤ credited c -ℤ sum_by credited cs =
        omega int_laws in
      >>=-Post (λ _. Has _) _ _ _ s (credit_one-Has c total s h)
        λ _ t ht. rw regrouped (credit_all-Has cs (total -ℤ credited c) t ht)

  -- The credits add up to what is owed.
  credit_all_settles :
      (cs : List GrantCredit) (s : Session)
      → Has (owed v transaction (sum_by credited cs)) s
      → Post (λ (u : Unit {0}). Has v) (credit_all proposal_id transaction cs s)
  credit_all_settles cs s h =
      let settled : sum_by credited cs -ℤ sum_by credited cs ≡ pos 0 = omega int_laws in
      Post-map (λ _. Has _) (λ _. Has v) _ (credit_all-Has cs (sum_by credited cs) s h)
        λ _ t ht. ((λ m. ht.0 m ∙ rw settled (owes_nothing v transaction m)), ht.1)

-- The debit of the issuance account is what is owed.
debits :
    (v : Measure → ℤ) (transaction account : ℕ) (before after total : ℤ)
    → after ≡ before +ℤ (pos 0 -ℤ total)
    → (m : Measure)
    → posted (projected v account before after) transaction account (pos 0 -ℤ total) m
      ≡ owed v transaction total m
debits v transaction account before after total moved (drift a) =
    let change : after -ℤ before ≡ pos 0 -ℤ total = rw moved (omega int_laws) in
    rw change (omega int_laws)
debits v transaction account before after total moved (net t) =
    elim (Bool-cases (transaction == t)) [
      | inl same ↦ rw same (omega int_laws)
      | inr other ↦ rw other (omega int_laws)
    ]
debits v transaction account before after total moved coins = rw moved (omega int_laws)

module _ (env : Environment) (v : Measure → ℤ) where
  issue-Has :
      (proposal_id transaction_id actor_id interaction_id : ℕ) (now_ms : ℤ)
      (credits : List GrantCredit)
      → Preserves
          (Has v)
          (issue env proposal_id transaction_id actor_id interaction_id now_ms credits)
  unfolding issue
  issue-Has proposal_id transaction_id actor_id interaction_id now_ms credits = record {
    at = λ s h. lift_step _ _ _ s λ total total_is.
        frame_step _ _ (Has v) _ s (system_account-Has v _ _ _) h λ (account, balance) s1 h1.
          lift_step _ _ _ s1 λ after after_sum. lift_step _ _ _ s1 λ version _.
            frame_step _ _ (Has v) _ s1 (transport_request-Has v _ _) h1 λ request s2 h2.
              frame_step _ _ (Has v) _ s2 (insert_transaction-Has v _) h2 λ _ s3 h3.
                >>=-Post (λ _. Has _) _ _ _ s3 (project-Has _ _ _ _ _ _ s3 h3)
                  λ _ s4 h4.
                    >>=-Post (λ _. Has _) _ _ _ s4 (insert_posting-Has _ _ _ _ s4 h4)
                      λ _ s5 h5.
                        >>=-Post (λ _. Has v) _ _ _ s5
                          (credit_all_settles v proposal_id transaction_id credits s5 (
                            (λ m.
                                h5.0 m
                                ∙ debits v transaction_id account.id balance.amount after total
                                    (checked_add_int64-ok balance.amount (pos 0 -ℤ total)
                                      after_sum).0
                                    m
                                ∙ ap (λ n. owed v transaction_id n m)
                                    (require_int64-ok (pos 1) _ total_is).0),
                            h5.1,
                          ))
                          λ _ t ht. (insert_execution-Has v _).at t ht;
  }

  finish_grant-Has :
      (proposal_id transaction_id actor_id interaction_id : ℕ) (now : ℤ) (credits : Credits)
      → Preserves
          (Has v)
          (finish_grant env proposal_id transaction_id actor_id interaction_id now credits)
  unfolding finish_grant
  finish_grant-Has proposal_id transaction_id actor_id interaction_id now (stopped status) =
      search preserves_rules
  finish_grant-Has proposal_id transaction_id actor_id interaction_id now (collected credits) =
      search (preserves_rules, issue-Has) depth 12

abbrev after_target : ℤ → List ℕ → Credits → Tx Credits
after_target amount targets k = elim k [
  | stopped status ↦ pure (stopped status)
  | collected so_far ↦ collect_credits amount targets so_far
]

module _ {μ} {P : Session → Type μ} where
  pub credit_target-Preserves :
      (amount : ℤ) (target : ℕ) (credits : List GrantCredit)
      → Preserves P (credit_target amount target credits)
  unfolding credit_target
  credit_target-Preserves amount target credits = search (preserves_rules, reads) depth 24

  pub collect_credits-Preserves :
      (amount : ℤ) (targets : List ℕ) (credits : List GrantCredit)
      → Preserves P (collect_credits amount targets credits)
  unfolding collect_credits
  collect_credits-Preserves amount [] credits = search preserves_rules
  collect_credits-Preserves amount (target ∷ targets) credits =
      Preserves-bind _ _ (credit_target-Preserves amount target credits) λ result.
        elim result as (λ k. Preserves P (after_target amount targets k)) [
          | stopped status ↦ Preserves-pure (stopped status)
          | collected so_far ↦ collect_credits-Preserves amount targets so_far
        ]

  pub approver_counts-Preserves :
      (actor_id : ℕ) (approver : Option ℕ) → Preserves P (approver_counts actor_id approver)
  unfolding approver_counts
  approver_counts-Preserves actor_id none = search preserves_rules
  approver_counts-Preserves actor_id (some approver) = search (preserves_rules, reads)

  pub executed-Preserves : (proposal_id : ℕ) → Preserves P (executed proposal_id)
  unfolding executed
  executed-Preserves proposal_id = search preserves_rules

  pub amount_since-Preserves :
      (actor : ℕ) (since_ms : ℤ) → Preserves P (amount_since actor since_ms)
  unfolding amount_since
  amount_since-Preserves actor since_ms = search preserves_rules

  pub get_proposal-Preserves : (id : ℕ) → Preserves P (get_proposal id)
  unfolding get_proposal
  get_proposal-Preserves id = search preserves_rules depth 16

module _ (env : Environment) (v : Measure → ℤ) where
  issue_within_policy-Has :
      (actor_id proposal_id interaction_id transaction_id : ℕ) (now : ℤ) (p : Proposal)
      (policy : SafetyPolicy)
      → Preserves
          (Has v)
          (issue_within_policy env actor_id proposal_id interaction_id transaction_id now p policy)
  unfolding issue_within_policy
  issue_within_policy-Has actor_id proposal_id interaction_id transaction_id now p policy =
      search
        (
          preserves_rules,
          approver_counts-Preserves,
          amount_since-Preserves,
          collect_credits-Preserves,
          finish_grant-Has env v,
        )
        depth 24

  -- A grant that returns, whatever its status, leaves every measure of the books as it was.
  pub execute_grant-Has :
      (actor_id proposal_id interaction_id transaction_id : ℕ) (now : ℤ)
      (policy : Option SafetyPolicy)
      → Preserves
          (Has v)
          (execute_grant env actor_id proposal_id interaction_id transaction_id now policy)
  unfolding execute_grant
  execute_grant-Has actor_id proposal_id interaction_id transaction_id now policy =
      search (preserves_rules, get_proposal-Preserves, executed-Preserves, issue_within_policy-Has)
        depth 24
