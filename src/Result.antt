-- ===== src/Result.antt =====
-- Python exceptions as values: which exceptions the modelled code raises.
pub data Error : Type 0 where
  out_of_range value_error invalid_request invalid_outcome invalid_join_outcome : Error
  fingerprint_conflict unregistered_namespace incomplete_request corrupt_outcome : Error
  persistence_invariant runtime_error integrity_error retry_exhausted zero_division : Error
  shutdown_incomplete index_error : Error

-- `err` stands for a raised exception.
pub data Result {ℓ} (Value : Type ℓ) : Type ℓ where
  err : Error → Result Value
  ok : Value → Result Value

infixl 5 ◌>>=◌ ◌>>◌
abbrev pub ◌>>=◌ {ℓ κ} : {A : Type ℓ} {B : Type κ} → Result A → (A → Result B) → Result B
result >>= next = elim result [ err raised ↦ err raised | ok value ↦ next value ]

abbrev pub ◌>>◌ {ℓ κ} : {A : Type ℓ} {B : Type κ} → Result A → Result B → Result B
first >> second = first >>= λ value. second

-- What is returned, when anything is, satisfies `P`.
abbrev pub AllOk {ℓ κ} : {A : Type ℓ} → (A → Type κ) → Result A → Type κ
AllOk P (err raised) = Unit
AllOk P (ok value) = P value

pub AllOk-bind {ℓ κ μ} :
    {A : Type ℓ} {B : Type κ} (P : B → Type μ) (result : Result A) (next : A → Result B)
    → ((value : A) → AllOk P (next value))
    → AllOk P (result >>= next)
AllOk-bind P (err raised) next each = tt
AllOk-bind P (ok value) next each = each value

pub AllOk-bind_of {ℓ κ μ ν} :
    {A : Type ℓ} {B : Type κ} (Q : A → Type ν) (P : B → Type μ) (result : Result A)
    (next : A → Result B)
    → AllOk Q result
    → ((value : A) → Q value → AllOk P (next value))
    → AllOk P (result >>= next)
AllOk-bind_of Q P (err raised) next holds each = tt
AllOk-bind_of Q P (ok value) next holds each = each value holds
