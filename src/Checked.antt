-- ===== src/Checked.antt =====
-- Checks that end with the category of an error: DatabaseReadinessError and UnsafeDatabaseStorage of
-- src/butterbot/infrastructure/persistence.
use butterbot.Base.{if_cases, String, Bool, true, false, ◌≡◌, refl, if◌then◌else◌}

-- The error's category, or what a check gives.
pub data Checked {ℓ} (A : Type ℓ) : Type ℓ where
  refused : String → Checked A
  passed : A → Checked A

infixl 5 ◌then◌
unfoldable pub ◌then◌ {ℓ κ} : {A : Type ℓ} {B : Type κ} → Checked A → (A → Checked B) → Checked B
first then next = elim first [ refused category ↦ refused category | passed a ↦ next a ]

-- `if not b: raise`
unfoldable pub require : Bool → String → Checked (Unit {0})
require b category = if b then passed tt else refused category

-- What a passed check gave, when it passed, satisfies `P`.
abbrev pub AllPassed {ℓ κ} : {A : Type ℓ} → (A → Type κ) → Checked A → Type κ
AllPassed P (refused category) = Unit
AllPassed P (passed a) = P a

pub passed-then {ℓ κ μ ν} :
    {A : Type ℓ} {B : Type κ} (Q : A → Type μ) (P : B → Type ν) (first : Checked A)
    (next : A → Checked B)
    → AllPassed Q first
    → ((a : A) → Q a → AllPassed P (next a))
    → AllPassed P (first then next)
unfolding ◌then◌
passed-then Q P (refused category) next q each = tt
passed-then Q P (passed a) next q each = each a q

pub require-holds : (b : Bool) (category : String) → AllPassed (λ _. b ≡ true) (require b category)
unfolding require
require-holds true category = refl
require-holds false category = tt

pub require-then {ℓ κ} :
    {A : Type ℓ} (P : A → Type κ) (b : Bool) (category : String) (next : Unit {0} → Checked A)
    → (b ≡ true → AllPassed P (next tt))
    → AllPassed P (require b category then next)
unfolding require ◌then◌
require-then P true category next each = each refl
require-then P false category next each = tt

-- Nothing is asked of what a check gives.
pub then-any {ℓ κ μ} :
    {A : Type ℓ} {B : Type κ} (P : B → Type μ) (first : Checked A) (next : A → Checked B)
    → ((a : A) → AllPassed P (next a))
    → AllPassed P (first then next)
unfolding ◌then◌
then-any P (refused category) next each = tt
then-any P (passed a) next each = each a

pub require-accepts {ℓ} :
    (P : Unit {0} → Type ℓ) (b : Bool) (category : String)
    → (b ≡ true → P tt)
    → AllPassed P (require b category)
unfolding require
require-accepts P true category f = f refl
require-accepts P false category f = tt

pub if-passed {ℓ κ} :
    {A : Type ℓ} (P : A → Type κ) (b : Bool) (x y : Checked A)
    → (b ≡ true → AllPassed P x)
    → (b ≡ false → AllPassed P y)
    → AllPassed P (if b then x else y)
if-passed P = if_cases (AllPassed P)
