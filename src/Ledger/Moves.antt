-- ===== src/Ledger/Moves.antt =====
-- A move between a wallet and a system account: two projections and two postings that cancel.
use butterbot.Base.{ℕ, ℤ, pos, ◌==◌, ◌+ℤ◌, ◌-ℤ◌, ◌≡◌, Bool-cases, inl, inr, int_laws, ◌∙◌}
use butterbot.Ledger.{insert_posting, project}
use butterbot.Ledger.Effects.{project-Has, insert_posting-Has, projected, posted}
use butterbot.Ledger.Measure.{Has, Measure, drift, net, coins, at_key}
use butterbot.Session.{Session}
use butterbot.Tx.{Tx, ◌>>◌}
use butterbot.Tx.Rules.{Post, >>=-Post}

add_cancel : (v x y : ℤ) → x +ℤ y ≡ pos 0 → v +ℤ x +ℤ y ≡ v
add_cancel v x y h =
    let regrouped : v +ℤ x +ℤ y ≡ v +ℤ (x +ℤ y) = omega int_laws in
    rw (regrouped, h) (omega int_laws)

at_key_cancel : (k t : ℕ) (v x y : ℤ) → x +ℤ y ≡ pos 0 → v +ℤ at_key k t x +ℤ at_key k t y ≡ v
at_key_cancel k t v x y h = elim (Bool-cases (k == t)) [
  | inl same ↦ rw same (add_cancel v x y h)
  | inr other ↦ rw other (omega int_laws)
]

module _ (v : Measure → ℤ) (transaction wallet account : ℕ)
    (x y wallet_before wallet_after before after : ℤ)
    (wallet_moves : wallet_after ≡ wallet_before +ℤ x) (account_moves : after ≡ before +ℤ y)
    (cancels : x +ℤ y ≡ pos 0) where
  abbrev moved : Measure → ℤ
  moved =
      posted
        (posted (projected (projected v wallet wallet_before wallet_after) account before after)
          transaction wallet x)
        transaction account y

  wallet_change : wallet_after -ℤ wallet_before ≡ x
  wallet_change = rw wallet_moves (omega int_laws)

  account_change : after -ℤ before ≡ y
  account_change = rw account_moves (omega int_laws)

  -- The four writes together leave every measure as it was.
  moved_cancels : (m : Measure) → moved m ≡ v m
  moved_cancels (drift a) = rw (wallet_change, account_change) (omega int_laws)
  moved_cancels (net t) = at_key_cancel transaction t (v (net t)) x y cancels
  moved_cancels coins = rw (wallet_change, account_change) (add_cancel (v coins) x y cancels)

  pub move_step {κ} :
      {B : Type κ} (Q : B → Session → Type 0) (rest : Tx B) (s : Session)
      (wallet_version wallet_next version next : ℤ)
      → Has v s
      → ((t : Session) → Has v t → Post Q (rest t))
      → Post Q (
          (project wallet wallet_before wallet_version wallet_after wallet_next
              >> (project account before version after next
                  >> (insert_posting transaction wallet x
                      >> (insert_posting transaction account y >> rest))))
            s)
  move_step Q rest s wallet_version wallet_next version next h continue =
      >>=-Post (λ _. Has _) Q _ _ s (project-Has _ _ _ _ _ _ s h)
        λ _ s1 h1.
          >>=-Post (λ _. Has _) Q _ _ s1 (project-Has _ _ _ _ _ _ s1 h1)
            λ _ s2 h2.
              >>=-Post (λ _. Has _) Q _ _ s2 (insert_posting-Has _ _ _ _ s2 h2)
                λ _ s3 h3.
                  >>=-Post (λ _. Has moved) Q _ _ s3 (insert_posting-Has _ _ _ _ s3 h3)
                    λ _ t ht. continue t ((λ m. ht.0 m ∙ moved_cancels m), ht.1)
