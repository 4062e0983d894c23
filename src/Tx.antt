-- ===== src/Tx.antt =====
-- The body of a unit of work: it reads and writes the session, or raises. What was written before a
-- raise is rolled back with the transaction, so an error carries no session.
pub mod Rules
pub mod Steps
use butterbot.Base.{ℕ, ℤ, suc, Bool, true, false, Option, none, some, ◌≡◌, refl}
use butterbot.Result.{Error, Result, ok, err}
use butterbot.Session.{Session, Database, Callback}
use mathlib.Core.List.{◌++◌, ◌∷◌, []}

abbrev pub Tx {ℓ} : Type ℓ → Type ℓ
Tx A = Session → Result (A × Session)

module _ {ℓ} {A : Type ℓ} where
  unfoldable pub pure : A → Tx A
  pure a s = ok (a, s)

  unfoldable pub raise : Error → Tx A
  raise e s = err e

  unfoldable pub gets : (Session → A) → Tx A
  gets f s = ok (f s, s)

  -- A check outside the database: the session is not touched.
  unfoldable pub lift : Result A → Tx A
  lift (ok a) s = ok (a, s)
  lift (err e) s = err e

  -- `if value is None: raise`
  unfoldable pub or_raise : Option A → Error → Tx A
  or_raise none e s = err e
  or_raise (some a) e s = ok (a, s)

-- `if value is None: return ...`, and otherwise the rest.
unfoldable pub if_none {ℓ κ} : {A : Type ℓ} {B : Type κ} → Option A → Tx B → (A → Tx B) → Tx B
if_none none absent present = absent
if_none (some a) absent present = present a

unfoldable pub modify : (Session → Session) → Tx (Unit {0})
modify f s = ok (tt, f s)

unfoldable pub guard : Bool → Error → Tx (Unit {0})
guard true e s = ok (tt, s)
guard false e s = err e

abbrev pub continue {ℓ κ} :
    {A : Type ℓ} {B : Type κ} → (A → Tx B) → Result (A × Session) → Result (B × Session)
continue f (ok (a, s)) = f a s
continue f (err e) = err e

infixl 5 ◌>>=◌ ◌>>◌
unfoldable pub ◌>>=◌ {ℓ κ} : {A : Type ℓ} {B : Type κ} → Tx A → (A → Tx B) → Tx B
unfolding pure raise gets lift or_raise modify guard
◌>>=◌ m f s = continue f (m s)

abbrev pub ◌>>◌ {ℓ κ} : {A : Type ℓ} {B : Type κ} → Tx A → Tx B → Tx B
m >> k = m >>= λ _. k

-- A statement that changes the tables only.
abbrev pub modify_db : (Database → Database) → Tx (Unit {0})
modify_db f = modify (λ s. record s { db = f s.db })

-- `uuid4()` or `self._id_factory()`
unfoldable pub new_id : Tx ℕ
new_id s = ok (s.ids s.next_id, record s { next_id = suc s.next_id })

unfoldable pub defer_until_commit : Callback → Tx (Unit {0})
unfolding modify
defer_until_commit callback =
    modify (λ s. record s { after_commit = s.after_commit ++ callback ∷ [] })
