-- ===== src/Daily/Receipts.antt =====
-- The CHECK on the receipts of daily claims, `ck_daily_values` of
-- src/butterbot/infrastructure/persistence/models.py, against what the service writes.
use butterbot.Base.{
  arith, ℕ, ℤ, pos, negsuc, Bool, true, false, not, ◌&&◌, ◌||◌, Option, none, some, is_some, all,
  ltb, ◌-ℤ◌, leb_ℤ, ltb_ℤ, eqb_ℤ, ◌+ℤ◌, floor_div, ◌≡◌, ap, ◌∙◌, if◌then◌else◌,
}
use butterbot.Daily.{day_ms, daily_coins, is_active, pay, apply, reject}
use butterbot.Daily.Repository.{find, issue, insert_claim}
use butterbot.Exact.Bounds.{checked_add_int64-ok}
use butterbot.Ledger.{
  insert_account, insert_balance, insert_system_account, find_or_insert, system_account,
  insert_transaction, project, insert_posting,
}
use butterbot.Models.{
  AccountKind, AccountModel, DailyClaim, LedgerTransactionModel, PlayerModel, StableOutcome,
}
use butterbot.Players.{WalletRecord, get_by_discord_user_id, get_wallet}
use butterbot.Reads.{
  transport_request-Preserves, get_wallet-Preserves, find-Preserves, is_frozen-Preserves,
  get_by_discord_user_id-Preserves,
}
use butterbot.Restrictions.{is_frozen}
use butterbot.Result.{ok}
use butterbot.Session.{Session, Environment}
use butterbot.Tx.Rules.{Post, Preserves, preserves_rules, Preserves-pure, Preserves-new_id}
use butterbot.Tx.Steps.{
  gets_step, guard_step, modify_end, frame_step, lift_step, pure_end, read_step, if_step,
  if_none_step,
}
use butterbot.Tx.{if_none, ◌>>=◌}

-- `ck_daily_values`
abbrev pub daily_values : DailyClaim → Bool
daily_values row =
    (ltb 0 row.actor_id && ltb 0 row.interaction_id)
    && (leb_ℤ (pos 0) row.claim_period && leb_ℤ (pos 0) row.executed_at_ms)
    && eqb_ℤ row.claim_period (floor_div row.executed_at_ms day_ms)
    && leb_ℤ (pos 0) row.before_amount
    && (ltb_ℤ row.before_amount row.after_amount
        && eqb_ℤ (row.after_amount -ℤ row.before_amount) (pos 15))

abbrev pub AreChecked : Session → Type 0
AreChecked s = all daily_values s.daily_claims ≡ true

insert_claim-Preserves :
    (row : DailyClaim) → daily_values row ≡ true → Preserves AreChecked (insert_claim row)
unfolding insert_claim
insert_claim-Preserves row good = record {
  at = λ s h.
      gets_step _ _ _ s (guard_step _ _ _ _ s λ fresh. modify_end _ _ s (ground (arith, good, h)));
}

find_or_insert-Preserves :
    (found : Option AccountModel) (kind : AccountKind) (key : _) (now : ℤ)
    → Preserves AreChecked (find_or_insert found kind key now)
unfolding find_or_insert insert_system_account insert_account insert_balance
find_or_insert-Preserves (some account) kind key now = Preserves-pure account
find_or_insert-Preserves none kind key now = search preserves_rules depth 14

system_account-Preserves :
    (kind : AccountKind) (key : _) (now : ℤ) → Preserves AreChecked (system_account kind key now)
unfolding system_account
system_account-Preserves kind key now = search (preserves_rules, find_or_insert-Preserves) depth 14

insert_transaction-Preserves :
    (row : LedgerTransactionModel) → Preserves AreChecked (insert_transaction row)
unfolding insert_transaction
insert_transaction-Preserves row = search preserves_rules depth 14

project-Preserves :
    (id : ℕ) (before version after next_version : ℤ)
    → Preserves AreChecked (project id before version after next_version)
unfolding project
project-Preserves id before version after next_version = search preserves_rules depth 14

insert_posting-Preserves :
    (transaction_id account_id : ℕ) (amount : ℤ)
    → Preserves AreChecked (insert_posting transaction_id account_id amount)
unfolding insert_posting
insert_posting-Preserves transaction_id account_id amount = search preserves_rules depth 14

issue-Preserves :
    (env : Environment) (c : DailyClaim) (w : WalletRecord)
    → daily_values c ≡ true
    → Preserves AreChecked (issue env c w)
unfolding issue
issue-Preserves env c w good = record {
  at = λ s h.
      frame_step _ _ AreChecked _ s (system_account-Preserves _ _ _) h λ (account, balance) s1 h1.
        lift_step _ _ _ s1 λ after _. lift_step _ _ _ s1 λ version _.
          frame_step _ _ AreChecked _ s1 (transport_request-Preserves _ _) h1 λ request s2 h2.
            frame_step _ _ AreChecked _ s2 (insert_transaction-Preserves _) h2 λ _ s3 h3.
              lift_step _ _ _ s3 λ wallet_version _.
                frame_step _ _ AreChecked _ s3 (project-Preserves _ _ _ _ _) h3 λ _ s4 h4.
                  frame_step _ _ AreChecked _ s4 (project-Preserves _ _ _ _ _) h4 λ _ s5 h5.
                    frame_step _ _ AreChecked _ s5 (insert_posting-Preserves _ _ _) h5 λ _ s6 h6.
                      frame_step _ _ AreChecked _ s6 (insert_posting-Preserves _ _ _) h6
                        λ _ s7 h7. (insert_claim-Preserves c good).at s7 h7;
}

all_hold :
    (a b c d e f g : Bool)
    → a ≡ true
    → b ≡ true
    → c ≡ true
    → d ≡ true
    → e ≡ true
    → f ≡ true
    → g ≡ true
    → ((a && b) && (c && d) && e && f && g) ≡ true
all_hold a b c d e f g ha hb hc hd he hf hg = ground arith

fifteen_more :
    (amount after : ℤ)
    → leb_ℤ (pos 0) amount ≡ true
    → after ≡ amount +ℤ daily_coins
    → (ltb_ℤ amount after && eqb_ℤ (after -ℤ amount) (pos 15)) ≡ true
unfolding ◌+ℤ◌ ◌-ℤ◌
fifteen_more (pos m) after a e = rw e (ground arith)
fifteen_more (negsuc m) after a e = absurd (ground arith)

period_of :
    (period now : ℤ)
    → leb_ℤ (pos 0) now ≡ true
    → eqb_ℤ period (floor_div now day_ms) ≡ true
    → leb_ℤ (pos 0) period ≡ true
unfolding floor_div
period_of (pos q) now n p = ground arith
period_of (negsuc q) (pos m) n p = absurd (ground arith)
period_of (negsuc q) (negsuc m) n p = absurd (ground arith)

-- A claim of the current period by a player, from a wallet that holds `amount`.
good_values :
    (user interaction_id transaction player account : ℕ) (period now amount after : ℤ)
    → ltb 0 user ≡ true
    → ltb 0 interaction_id ≡ true
    → leb_ℤ (pos 0) now ≡ true
    → eqb_ℤ period (floor_div now day_ms) ≡ true
    → leb_ℤ (pos 0) amount ≡ true
    → after ≡ amount +ℤ daily_coins
    → daily_values record {
      transaction_id = transaction;
      player_id = player;
      account_id = account;
      actor_id = user;
      interaction_id = interaction_id;
      claim_period = period;
      executed_at_ms = now;
      before_amount = amount;
      after_amount = after;
    }
      ≡ true
good_values user interaction_id transaction player account period now amount after u i n p a e =
    all_hold _ _ _ _ _ _ _ u i (period_of period now n p) n p a (fifteen_more amount after a e)

-- No wallet that can be read is in debt.
abbrev pub HasFunds : Session → Type 0
HasFunds s =
    (player_id : ℕ) (w : WalletRecord)
    → get_wallet player_id s ≡ ok (some w, s)
    → leb_ℤ (pos 0) w.amount ≡ true

is_current :
    (period now : ℤ)
    → not (eqb_ℤ period (floor_div now day_ms)) ≡ false
    → eqb_ℤ period (floor_div now day_ms) ≡ true
is_current period now e = ground arith

module _ (env : Environment) (user interaction_id : ℕ) (period now : ℤ)
    (is_user : ltb 0 user ≡ true) (is_interaction : ltb 0 interaction_id ≡ true)
    (is_time : leb_ℤ (pos 0) now ≡ true) where
  pay-AreChecked :
      (p : PlayerModel) (w : WalletRecord) (s : Session)
      → eqb_ℤ period (floor_div now day_ms) ≡ true
      → leb_ℤ (pos 0) w.amount ≡ true
      → AreChecked s
      → Post
          (λ (outcome : StableOutcome). AreChecked)
          (pay env user interaction_id period now p w s)
  unfolding pay
  pay-AreChecked p w s is_period funds h = lift_step _ _ _ s λ after after_sum.
      frame_step _ _ AreChecked _ s (Preserves-new_id λ _ k. k) h λ id s1 h1.
        frame_step _ _ AreChecked _ s1
          (issue-Preserves env _ w (
            good_values user interaction_id id p.id w.id period now w.amount after is_user
              is_interaction is_time is_period funds
              (checked_add_int64-ok w.amount daily_coins after_sum).0))
          h1 λ _ t ht. pure_end _ _ t ht

  -- The wallet is read in a session where no wallet is in debt.
  wallet-AreChecked :
      (p : PlayerModel) (s : Session)
      → eqb_ℤ period (floor_div now day_ms) ≡ true
      → HasFunds s
      → AreChecked s
      → Post
          (λ (outcome : StableOutcome). AreChecked)
          ((get_wallet p.id >>= λ wallet. if_none wallet (reject "unavailable") λ w. do
            existing ← find p.id period
            if is_some existing
                then reject "already_claimed"
                else pay env user interaction_id period now p w)
            s)
  wallet-AreChecked p s is_period funds h =
      read_step _ _ (get_wallet p.id) s (get_wallet-Preserves p.id) λ wallet found.
        if_none_step _ wallet _ _ s (λ _. pure_end _ _ s h)
          λ w is_w. read_step _ _ (find p.id period) s (find-Preserves p.id period) λ existing _.
            if_step _ (is_some existing) _ _ s (λ _. pure_end _ _ s h)
              λ _.
                pay-AreChecked p w s is_period (funds p.id w (found ∙ ap (λ o. ok (o, s)) is_w)) h

  -- A claim that returns, decided for a user and an interaction with positive numbers, at a
  -- time that is not negative and in a session where no wallet that can be read is in debt,
  -- leaves receipts that pass the CHECK of their table, where those before it passed.
  pub apply-AreChecked :
      (allowed : Bool) (s : Session)
      → HasFunds s
      → AreChecked s
      → Post
          (λ (outcome : StableOutcome). AreChecked)
          (apply env allowed user interaction_id period now s)
  unfolding apply
  apply-AreChecked allowed s funds h =
      if_step _ (not (eqb_ℤ period (floor_div now day_ms))) _ _ s (λ _. pure_end _ _ s h)
        λ current. read_step _ _ (is_frozen user) s (is_frozen-Preserves user) λ frozen _.
          if_step _ (not allowed || frozen) _ _ s (λ _. pure_end _ _ s h)
            λ _.
              read_step _ _ (get_by_discord_user_id user) s (get_by_discord_user_id-Preserves user)
                λ player _.
                  if_none_step _ player _ _ s (λ _. pure_end _ _ s h)
                    λ p _.
                      if_step _ (not (is_active p.lifecycle_state)) _ _ s (λ _. pure_end _ _ s h)
                        λ _. wallet-AreChecked p s (is_current period now current) funds h
