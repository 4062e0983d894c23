-- ===== src/Base/Lists.antt =====
-- Lists searched by Boolean tests, measured by native numbers and summed in ℤ.
use Prim.Native.Nat.{ℕ, suc, zero}
use mathlib.Core.Path.{◌≡◌, refl}
use mathlib.Core.Bool.{Bool, true, false, ◌&&◌, ◌||◌}
use mathlib.Core.Option.{Option, none, some}
use mathlib.Core.List.{List, [], ◌∷◌, ◌++◌}
use native.Mathlib.Omega.{arith}
use butterbot.Base.Tests.{◌==◌, if◌then◌else◌}
use butterbot.Base.Int.{ℤ, pos, ◌+ℤ◌, int_laws}

module _ {ℓ} {A : Type ℓ} where
  abbrev pub length : List A → ℕ
  length [] = 0
  length (x ∷ xs) = suc (length xs)

  abbrev pub take : ℕ → List A → List A
  take zero xs = []
  take (suc n) [] = []
  take (suc n) (x ∷ xs) = x ∷ take n xs

  abbrev pub is_empty : List A → Bool
  is_empty [] = true
  is_empty (x ∷ xs) = false

  -- Some entry passes the test.
  abbrev pub any : (A → Bool) → List A → Bool
  any p [] = false
  any p (x ∷ xs) = p x || any p xs

  abbrev pub all : (A → Bool) → List A → Bool
  all p [] = true
  all p (x ∷ xs) = p x && all p xs

  -- The first entry that passes the test.
  abbrev pub find? : (A → Bool) → List A → Option A
  find? p [] = none
  find? p (x ∷ xs) = if p x then some x else find? p xs

  -- The entries that pass the test, in order.
  abbrev pub select : (A → Bool) → List A → List A
  select p [] = []
  select p (x ∷ xs) = if p x then x ∷ select p xs else select p xs

  abbrev pub count_if : (A → Bool) → List A → ℕ
  count_if p [] = 0
  count_if p (x ∷ xs) = if p x then suc (count_if p xs) else count_if p xs

  abbrev pub sum_by : (A → ℤ) → List A → ℤ
  sum_by f [] = pos 0
  sum_by f (x ∷ xs) = f x +ℤ sum_by f xs

  pub sum_by-append :
      (f : A → ℤ) (xs ys : List A) → sum_by f (xs ++ ys) ≡ sum_by f xs +ℤ sum_by f ys
  sum_by-append f [] ys = omega int_laws
  sum_by-append f (x ∷ xs) ys = rw (sum_by-append f xs ys) (omega int_laws)

  pub any-append : (p : A → Bool) (xs ys : List A) → any p (xs ++ ys) ≡ (any p xs || any p ys)
  any-append p [] ys = refl
  any-append p (x ∷ xs) ys = ground (arith, any-append p xs ys)

  pub find?-test : (p : A → Bool) (xs : List A) {a : A} → find? p xs ≡ some a → p a ≡ true
  find?-test p [] {a} e = ground arith
  find?-test p (x ∷ xs) {a} e = ground (arith, find?-test p xs {a = a})

  pub any-find? : (p : A → Bool) (xs : List A) {a : A} → find? p xs ≡ some a → any p xs ≡ true
  any-find? p [] {a} e = ground arith
  any-find? p (x ∷ xs) {a} e = ground (arith, any-find? p xs {a = a})

  pub find?-append_some :
      (p : A → Bool) (xs ys : List A) {a : A} → find? p xs ≡ some a → find? p (xs ++ ys) ≡ some a
  find?-append_some p [] ys {a} e = ground arith
  find?-append_some p (x ∷ xs) ys {a} e = ground (arith, find?-append_some p xs ys {a = a})

  pub find?-append_none :
      (p : A → Bool) (xs ys : List A) → any p xs ≡ false → find? p (xs ++ ys) ≡ find? p ys
  find?-append_none p [] ys e = refl
  find?-append_none p (x ∷ xs) ys e = ground (arith, find?-append_none p xs ys)

-- A number is in the list.
abbrev pub contains : ℕ → List ℕ → Bool
contains k = any (λ j. j == k)
