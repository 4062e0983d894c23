-- ===== src/Examples/Claiming.antt =====
-- A daily claim of src/butterbot/application/economy/daily.py that is paid, and its receipt.
use butterbot.Base.{
  pos, Bool, true, false, none, some, [], ◌∷◌, ◌&&◌, ◌==◌, ◌≡◌, refl, leb_ℤ, if◌then◌else◌,
}
use mathlib.Core.Path.{subst}
use butterbot.Daily.{apply}
use butterbot.Daily.Receipts.{HasFunds, AreChecked, apply-AreChecked}
use butterbot.Examples.{test_env, start}
use butterbot.Models.{AccountModel, StableOutcome, active, wallet}
use butterbot.Players.{WalletRecord, wallet_record, get_wallet}
use butterbot.Result.{ok}
use butterbot.Session.{Session}
use butterbot.Tx.{gets, or_raise, pure, ◌>>=◌}
use butterbot.Tx.Rules.{Post}

abbrev wallet_6 : AccountModel
wallet_6 = record {
  id = 6;
  player_id = some 1;
  account_kind = wallet;
  currency_key = "coin";
  system_key = none;
  created_at_ms = pos 0;
}

-- Player 1 holds 30 coins, and their interaction 5 is being answered.
abbrev with_wallet : Session
with_wallet = record start {
  db = record start.db {
    players =
        record { id = 1; discord_user_id = 7; created_at_ms = pos 0; lifecycle_state = active }
        ∷ [];
    accounts = wallet_6 ∷ [];
    balances =
        record { account_id = 6; account_kind = wallet; amount = pos 30; version = pos 1 } ∷ [];
    requests =
        record {
          id = 9;
          namespace = "economy.daily";
          transport_key = "5";
          actor_kind = "discord_user";
          actor_reference = "7";
          request_fingerprint = "digest";
          completion = none;
        }
        ∷ [];
  };
}

one_wallet :
    (b : Bool) (w : WalletRecord)
    → wallet_record (if b then some wallet_6 else none) with_wallet ≡ ok (some w, with_wallet)
    → leb_ℤ (pos 0) w.amount ≡ true
unfolding wallet_record gets or_raise pure ◌>>=◌
one_wallet true w e =
    let same : record { id = 6; player_id = 1; amount = pos 30; version = pos 1 } ≡ w = cc in
    subst (λ (v : WalletRecord). leb_ℤ (pos 0) v.amount ≡ true) same refl
one_wallet false w e = cc

with_wallet-HasFunds : HasFunds with_wallet
unfolding get_wallet gets ◌>>=◌
with_wallet-HasFunds player_id w e = one_wallet ((1 == player_id) && true) w e

apply-AreChecked_example :
    Post
      (λ (outcome : StableOutcome). AreChecked)
      (apply test_env true 7 5 (pos 0) (pos 1000) with_wallet)
apply-AreChecked_example =
    apply-AreChecked test_env 7 5 (pos 0) (pos 1000) refl refl refl true with_wallet
      with_wallet-HasFunds refl
