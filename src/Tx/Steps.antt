-- ===== src/Tx/Steps.antt =====
-- One rule for each kind of first step of a sequence, to reason forwards through a `do` block.
use butterbot.Base.{Bool, true, false, Option, none, some, ◌≡◌, refl, sym, ap, ◌∙◌, if◌then◌else◌}
use mathlib.Core.Path.{subst}
use butterbot.Result.{Error, Result, ok, err}
use butterbot.Session.{Session}
use butterbot.Tx.{if_none, pure, Tx, gets, lift, or_raise, modify, guard, ◌>>=◌}
use butterbot.Tx.Rules.{Post, >>=-Post, Preserves}

recall-Post {ℓ κ} :
    {A : Type ℓ} (P : A → Session → Type κ) (r : Result (A × Session))
    → Post P r
    → Post (λ a t. (r ≡ ok (a, t)) × P a t) r
recall-Post P (ok (a, t)) h = (refl, h)
recall-Post P (err e) h = tt

read-Post {ℓ} :
    {A : Type ℓ} (m : Tx A) (s : Session)
    → Post (λ (a : A) t. t ≡ s) (m s)
    → Post (λ a t. (m s ≡ ok (a, t)) × (t ≡ s)) (m s)
read-Post m s h = recall-Post (λ _ t. t ≡ s) (m s) h

module _ {ℓ κ μ} {A : Type ℓ} {B : Type κ} (Q : B → Session → Type μ) (f : A → Tx B) where
  -- The first step keeps `P`.
  pub frame_step :
      (P : Session → Type μ) (m : Tx A) (s : Session)
      → Preserves P m
      → P s
      → ((a : A) (t : Session) → P t → Post Q (f a t))
      → Post Q ((m >>= f) s)
  frame_step P m s keeps h next = >>=-Post (λ _. P) Q m f s (keeps.at s h) next

  pub gets_step : (g : Session → A) (s : Session) → Post Q (f (g s) s) → Post Q ((gets g >>= f) s)
  unfolding ◌>>=◌
  gets_step g s next = next

  pub lift_step :
      (r : Result A) (s : Session)
      → ((a : A) → r ≡ ok a → Post Q (f a s))
      → Post Q ((lift r >>= f) s)
  unfolding ◌>>=◌
  lift_step (ok a) s next = next a refl
  lift_step (err e) s next = tt

  pub or_raise_step :
      (o : Option A) (e : Error) (s : Session)
      → ((a : A) → o ≡ some a → Post Q (f a s))
      → Post Q ((or_raise o e >>= f) s)
  unfolding ◌>>=◌
  or_raise_step (some a) e s next = next a refl
  or_raise_step none e s next = tt

module _ {ℓ κ} {A : Type ℓ} {B : Type κ} (Q : B → Session → Type ℓ) (f : A → Tx B) where
  -- The first step only reads.
  pub read_step :
      (m : Tx A) (s : Session)
      → Preserves (λ t. t ≡ s) m
      → ((a : A) → m s ≡ ok (a, s) → Post Q (f a s))
      → Post Q ((m >>= f) s)
  read_step m s keeps next =
      >>=-Post (λ a t. (m s ≡ ok (a, t)) × (t ≡ s)) Q m f s (read-Post m s (keeps.at s refl))
        λ a t (made, same).
          subst (λ u. Post Q (f a u)) (sym same) (next a (made ∙ ap (λ u. ok (a, u)) same))

module _ {κ μ} {B : Type κ} (Q : B → Session → Type μ) (f : Unit {0} → Tx B) where
  pub guard_step :
      (b : Bool) (e : Error) (s : Session)
      → (b ≡ true → Post Q (f tt s))
      → Post Q ((guard b e >>= f) s)
  unfolding ◌>>=◌
  guard_step true e s next = next refl
  guard_step false e s next = tt

  pub modify_step :
      (g : Session → Session) (s : Session) → Post Q (f tt (g s)) → Post Q ((modify g >>= f) s)
  unfolding ◌>>=◌
  modify_step g s next = next

module _ {κ μ} {B : Type κ} (Q : B → Session → Type μ) where
  pub if_step :
      (b : Bool) (m n : Tx B) (s : Session)
      → (b ≡ true → Post Q (m s))
      → (b ≡ false → Post Q (n s))
      → Post Q ((if b then m else n) s)
  if_step true m n s yes_case no_case = yes_case refl
  if_step false m n s yes_case no_case = no_case refl

module _ {ℓ κ μ} {A : Type ℓ} {B : Type κ} (Q : B → Session → Type μ) where
  pub if_none_step :
      (o : Option A) (m : Tx B) (f : A → Tx B) (s : Session)
      → (o ≡ none → Post Q (m s))
      → ((a : A) → o ≡ some a → Post Q (f a s))
      → Post Q (if_none o m f s)
  unfolding if_none
  if_none_step none m f s absent present = absent refl
  if_none_step (some a) m f s absent present = present a refl

-- The same for an action that ends the block.
module _ {μ} (Q : Unit {0} → Session → Type μ) where
  pub guard_end : (b : Bool) (e : Error) (s : Session) → (b ≡ true → Q tt s) → Post Q (guard b e s)
  unfolding guard
  guard_end true e s last = last refl
  guard_end false e s last = tt

  pub modify_end : (g : Session → Session) (s : Session) → Q tt (g s) → Post Q (modify g s)
  unfolding modify
  modify_end g s last = last

module _ {ℓ μ} {A : Type ℓ} (Q : A → Session → Type μ) where
  pub pure_end : (a : A) (s : Session) → Q a s → Post Q (pure a s)
  unfolding pure
  pure_end a s last = last
