-- ===== src/Tx/Rules.antt =====
-- Inversion of successful actions, and the rules by which an action keeps a predicate of the session.
use butterbot.Base.{suc, arith, Bool, true, false, Option, none, some, ◌≡◌, refl, if◌then◌else◌}
use mathlib.Core.Path.{subst}
use butterbot.Result.{Error, Result, ok, err}
use butterbot.Session.{Session}
use butterbot.Tx.{
  Tx, pure, raise, gets, lift, or_raise, modify, guard, ◌>>=◌, continue, new_id, if_none,
}

module _ {ℓ κ} {A : Type ℓ} {B : Type κ} where
  continue-ok :
      (r : Result (A × Session)) (f : A → Tx B) {b : B} {u : Session}
      → continue f r ≡ ok (b, u)
      → (a : A) × (t : Session) × (r ≡ ok (a, t)) × (f a t ≡ ok (b, u))
  continue-ok (ok (a, t)) f h = (a, t, refl, h)
  continue-ok (err e) f h = cc

  -- A successful sequence splits into two successful parts.
  pub >>=-ok :
      (m : Tx A) (f : A → Tx B) (s : Session) {b : B} {u : Session}
      → (m >>= f) s ≡ ok (b, u)
      → (a : A) × (t : Session) × (m s ≡ ok (a, t)) × (f a t ≡ ok (b, u))
  unfolding ◌>>=◌
  >>=-ok m f s h = continue-ok (m s) f h

  -- A first part that succeeds hands its result on; one that raises ends the sequence.
  pub ok->>= :
      (m : Tx A) (f : A → Tx B) (s : Session) {a : A} {t : Session}
      → m s ≡ ok (a, t)
      → (m >>= f) s ≡ f a t
  unfolding ◌>>=◌
  ok->>= m f s h = rw h

  pub err->>= :
      (m : Tx A) (f : A → Tx B) (s : Session) {e : Error} → m s ≡ err e → (m >>= f) s ≡ err e
  unfolding ◌>>=◌
  err->>= m f s h = rw h

-- What holds of a result and the session after it, where there is one.
abbrev pub Post {ℓ κ} : {A : Type ℓ} → (A → Session → Type κ) → Result (A × Session) → Type κ
Post Q (ok (a, t)) = Q a t
Post Q (err e) = Unit

pub Post-ok {ℓ κ} :
    {A : Type ℓ} (Q : A → Session → Type κ) (r : Result (A × Session)) {a : A} {t : Session}
    → Post Q r
    → r ≡ ok (a, t)
    → Q a t
Post-ok Q r h e = subst (Post Q) e h

pub Post-always {ℓ κ} :
    {A : Type ℓ} (Q : A → Session → Type κ) (r : Result (A × Session))
    → ((a : A) (t : Session) → Q a t)
    → Post Q r
Post-always Q (ok (a, t)) k = k a t
Post-always Q (err e) k = tt

pub Post-map {ℓ κ μ} :
    {A : Type ℓ} (P : A → Session → Type κ) (Q : A → Session → Type μ) (r : Result (A × Session))
    → Post P r
    → ((a : A) (t : Session) → P a t → Q a t)
    → Post Q r
Post-map P Q (ok (a, t)) h k = k a t h
Post-map P Q (err e) h k = tt

module _ {ℓ κ μ} {A : Type ℓ} {B : Type κ} where
  continue-Post :
      (P : A → Session → Type μ) (Q : B → Session → Type μ) (r : Result (A × Session))
      (f : A → Tx B)
      → Post P r
      → ((a : A) (t : Session) → P a t → Post Q (f a t))
      → Post Q (continue f r)
  continue-Post P Q (ok (a, t)) f h k = k a t h
  continue-Post P Q (err e) f h k = tt

  pub >>=-Post :
      (P : A → Session → Type μ) (Q : B → Session → Type μ) (m : Tx A) (f : A → Tx B) (s : Session)
      → Post P (m s)
      → ((a : A) (t : Session) → P a t → Post Q (f a t))
      → Post Q ((m >>= f) s)
  unfolding ◌>>=◌
  >>=-Post P Q m f s h k = continue-Post P Q (m s) f h k

-- `m` keeps `P` wherever it returns.
pub record Preserves {ℓ μ} {A : Type ℓ} (P : Session → Type μ) (m : Tx A) : Type (ℓ ⊔ μ) where
  pub at : (s : Session) → P s → Post (λ (a : A). P) (m s)

module _ {ℓ μ} {A : Type ℓ} (P : Session → Type μ) where
  lift-Post : (r : Result A) (s : Session) → P s → Post (λ (a : A). P) (lift r s)
  unfolding lift
  lift-Post (ok a) s h = h
  lift-Post (err e) s h = tt

  or_raise-Post :
      (o : Option A) (e : Error) (s : Session) → P s → Post (λ (a : A). P) (or_raise o e s)
  unfolding or_raise
  or_raise-Post none e s h = tt
  or_raise-Post (some a) e s h = h

module _ {μ} (P : Session → Type μ) where
  guard-Post : (b : Bool) (e : Error) (s : Session) → P s → Post (λ (a : Unit {0}). P) (guard b e s)
  unfolding guard
  guard-Post true e s h = h
  guard-Post false e s h = tt

module _ {ℓ μ} {A : Type ℓ} {P : Session → Type μ} where
  pub Preserves-pure : (a : A) → Preserves P (pure a)
  unfolding pure
  Preserves-pure a = record { at = λ s h. h }

  pub Preserves-raise : (e : Error) → Preserves P (raise {A = A} e)
  unfolding raise
  Preserves-raise e = record { at = λ s h. tt }

  pub Preserves-gets : (f : Session → A) → Preserves P (gets f)
  unfolding gets
  Preserves-gets f = record { at = λ s h. h }

  pub Preserves-lift : (r : Result A) → Preserves P (lift r)
  Preserves-lift r = record { at = lift-Post P r }

  pub Preserves-or_raise : (o : Option A) (e : Error) → Preserves P (or_raise o e)
  Preserves-or_raise o e = record { at = or_raise-Post P o e }

  pub Preserves-if :
      (b : Bool) (m n : Tx A) → Preserves P m → Preserves P n → Preserves P (if b then m else n)
  Preserves-if true m n km kn = km
  Preserves-if false m n km kn = kn

module _ {μ} {P : Session → Type μ} where
  pub Preserves-guard : (b : Bool) (e : Error) → Preserves P (guard b e)
  Preserves-guard b e = record { at = guard-Post P b e }

  pub Preserves-modify :
      (f : Session → Session) → ((s : Session) → P s → P (f s)) → Preserves P (modify f)
  unfolding modify
  Preserves-modify f h = record { at = h }

  pub Preserves-new_id :
      ((s : Session) → P s → P (record s { next_id = suc s.next_id })) → Preserves P new_id
  unfolding new_id
  Preserves-new_id h = record { at = h }

pub Preserves-if_none {ℓ κ μ} :
    {A : Type ℓ} {B : Type κ} {P : Session → Type μ} (o : Option A) (m : Tx B) (f : A → Tx B)
    → Preserves P m
    → ((a : A) → Preserves P (f a))
    → Preserves P (if_none o m f)
unfolding if_none
Preserves-if_none none m f km kf = km
Preserves-if_none (some a) m f km kf = kf a

pub Preserves-bind {ℓ κ μ} :
    {A : Type ℓ} {B : Type κ} {P : Session → Type μ} (m : Tx A) (f : A → Tx B)
    → Preserves P m
    → ((a : A) → Preserves P (f a))
    → Preserves P (m >>= f)
Preserves-bind {P} m f km kf = record {
  at = λ s h. >>=-Post (λ _. P) (λ _. P) m f s (km.at s h) (λ a t k. (kf a).at t k);
}

pub ruleset preserves_rules = (
  Preserves-pure, Preserves-raise, Preserves-gets, Preserves-lift, Preserves-or_raise, Preserves-if,
  Preserves-guard, Preserves-new_id, Preserves-modify, Preserves-if_none, Preserves-bind,
)

-- Inversion of the checks.
pub guard-ok :
    (b : Bool) (e : Error) (s : Session) {u : Unit {0}} {t : Session}
    → guard b e s ≡ ok (u, t)
    → (b ≡ true) × (t ≡ s)
unfolding guard
guard-ok true e s h = ground arith
guard-ok false e s h = cc

pub lift-ok {ℓ} :
    {A : Type ℓ} (r : Result A) (s : Session) {a : A} {t : Session}
    → lift r s ≡ ok (a, t)
    → (r ≡ ok a) × (t ≡ s)
unfolding lift
lift-ok (ok b) s h = (cc, cc)
lift-ok (err e) s h = cc

pub or_raise-ok {ℓ} :
    {A : Type ℓ} (o : Option A) (e : Error) (s : Session) {a : A} {t : Session}
    → or_raise o e s ≡ ok (a, t)
    → (o ≡ some a) × (t ≡ s)
unfolding or_raise
or_raise-ok none e s h = cc
or_raise-ok (some b) e s h = (cc, cc)
