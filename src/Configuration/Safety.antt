-- ===== src/Configuration/Safety.antt =====
-- `load_safety_policy` and `load_development_operators` of
-- src/butterbot/discord_app/safety_config.py.
use butterbot.Base.{
  &&-true, arith, ℕ, ℤ, pos, String, Bool, true, not, ◌&&◌, Option, none, some, List, [], ◌∷◌, all,
  any, length, ltb, leb, str_eq, leb_ℤ, ◌≡◌, refl, sym, ap, suc, ◌⊎◌, Bool-cases, inl, inr,
  if◌then◌else◌,
}
use mathlib.Core.Path.{subst}
use butterbot.Checked.{
  Checked, refused, passed, require, ◌then◌, AllPassed, require-then, then-any, passed-then,
  if-passed,
}
use butterbot.Configuration.{Platform, stripped}
use butterbot.Exact.{int64_max, require_int64}
use butterbot.Policy.{SafetyPolicy, safety_policy}
use butterbot.Result.{Result, ok, err, value_error, AllOk, AllOk-bind, AllOk-bind_of}
use butterbot.Safety.Access.{are_distinct, check_operators}
use butterbot.Session.{Session}
use butterbot.Tx.{lift, pure, ◌>>=◌}

abbrev pub is_snowflake : ℕ → Bool
is_snowflake id = ltb 0 id && ltb id 9223372036854775808

abbrev is_blank : String → Bool
is_blank value = str_eq value ""

module _ (platform : Platform) where
  -- `int(value)` of a value that is ASCII and decimal.
  unfoldable pub read_limit : String → Checked ℕ
  read_limit value = elim (platform.read_decimal value) [
    | none ↦ refused "safety_limits_required"
    | some n ↦ passed n
  ]

  unfoldable pub ordered_policy : Result SafetyPolicy → Checked (Option SafetyPolicy)
  ordered_policy (ok policy) = passed (some policy)
  ordered_policy (err e) = refused "safety_limits_not_ordered"

  abbrev safety_values : List String
  safety_values =
      stripped platform "BUTTERBOT_SAFETY_APPROVAL_THRESHOLD"
      ∷ stripped platform "BUTTERBOT_SAFETY_OPERATION_CEILING"
      ∷ stripped platform "BUTTERBOT_SAFETY_24H_CEILING"
      ∷ stripped platform "BUTTERBOT_SAFETY_ALERT_DESTINATION"
      ∷ []

  -- An empty value has no decimal reading, so it is refused with the others.
  unfoldable pub load_safety_policy : Checked (Option SafetyPolicy)
  load_safety_policy =
      let threshold = stripped platform "BUTTERBOT_SAFETY_APPROVAL_THRESHOLD" in
      let operation = stripped platform "BUTTERBOT_SAFETY_OPERATION_CEILING" in
      let rolling = stripped platform "BUTTERBOT_SAFETY_24H_CEILING" in
      let alert = stripped platform "BUTTERBOT_SAFETY_ALERT_DESTINATION" in
      if all is_blank safety_values
      then passed none
      else (require (not (any is_blank safety_values)) "safety_limits_required" then λ _.
          require (str_eq alert "local_log") "safety_limits_required" then λ _.
          read_limit threshold then λ a. read_limit operation then λ b. read_limit rolling then λ c.
          ordered_policy (
            safety_policy record {
              approval_threshold = pos a;
              per_operation_ceiling = pos b;
              rolling_24h_ceiling = pos c;
            }))

  unfoldable pub read_ids : List String → Checked (List ℕ)
  read_ids [] = passed []
  read_ids (part ∷ parts) = elim (platform.read_decimal part) [
    | none ↦ refused "bootstrap_ids_required"
    | some id ↦ read_ids parts then λ ids. passed (id ∷ ids)
  ]

  unfoldable pub load_development_operators : Checked (List ℕ)
  load_development_operators =
      let value = stripped platform "BUTTERBOT_DEV_SAFETY_BOOTSTRAP_IDS" in
      if str_eq value ""
      then passed []
      else (let parts = platform.split value in
          require (leb 1 (length parts) && leb (length parts) 10) "bootstrap_ids_required" then λ _.
          read_ids parts then λ operators.
          require (are_distinct operators && all is_snowflake operators)
            "bootstrap_ids_not_distinct"
          then λ _. passed operators)

-- The limits are in order, and fit a signed 64-bit word.
pub record IsOrderedPolicy (p : SafetyPolicy) : Type 0 where
  pub threshold : leb_ℤ (pos 0) p.approval_threshold ≡ true
  pub ceiling : leb_ℤ p.approval_threshold p.per_operation_ceiling ≡ true
  pub rolling : leb_ℤ p.per_operation_ceiling p.rolling_24h_ceiling ≡ true
  pub bounded : leb_ℤ p.rolling_24h_ceiling int64_max ≡ true

require_int64-between :
    (minimum value : ℤ)
    → AllOk
        (λ _. (leb_ℤ minimum value && leb_ℤ value int64_max) ≡ true)
        (require_int64 minimum value)
unfolding require_int64
require_int64-between minimum value =
    elim (Bool-cases (leb_ℤ minimum value && leb_ℤ value int64_max)) [
      | inl e ↦ rw e refl
      | inr e ↦ rw e tt
    ]

ordered_ok :
    (p : SafetyPolicy)
    → (leb_ℤ (pos 0) p.approval_threshold && leb_ℤ p.approval_threshold int64_max) ≡ true
    → (leb_ℤ (pos 1) p.rolling_24h_ceiling && leb_ℤ p.rolling_24h_ceiling int64_max) ≡ true
    → AllOk IsOrderedPolicy (
        if leb_ℤ p.approval_threshold p.per_operation_ceiling
          && leb_ℤ p.per_operation_ceiling p.rolling_24h_ceiling
        then ok p
        else err value_error)
ordered_ok p first last =
    elim (Bool-cases (
      leb_ℤ p.approval_threshold p.per_operation_ceiling
      && leb_ℤ p.per_operation_ceiling p.rolling_24h_ceiling)) [
        | inl e ↦
            subst (λ b. AllOk IsOrderedPolicy (if b then ok p else err value_error)) (sym e)
              record {
                threshold = (&&-true _ _ first).0;
                ceiling = (&&-true _ _ e).0;
                rolling = (&&-true _ _ e).1;
                bounded = (&&-true _ _ last).1;
              }
        | inr e ↦
            subst (λ b. AllOk IsOrderedPolicy (if b then ok p else err value_error)) (sym e) tt
      ]

safety_policy-IsOrderedPolicy : (p : SafetyPolicy) → AllOk IsOrderedPolicy (safety_policy p)
unfolding safety_policy
safety_policy-IsOrderedPolicy p =
    AllOk-bind_of
      (λ _. (leb_ℤ (pos 0) p.approval_threshold && leb_ℤ p.approval_threshold int64_max) ≡ true)
      IsOrderedPolicy (require_int64 (pos 0) p.approval_threshold) _
      (require_int64-between (pos 0) p.approval_threshold)
      λ _ first. AllOk-bind IsOrderedPolicy (require_int64 (pos 1) p.per_operation_ceiling) _ λ _.
        AllOk-bind_of
          (λ _.
            (leb_ℤ (pos 1) p.rolling_24h_ceiling && leb_ℤ p.rolling_24h_ceiling int64_max) ≡ true)
          IsOrderedPolicy (require_int64 (pos 1) p.rolling_24h_ceiling) _
          (require_int64-between (pos 1) p.rolling_24h_ceiling) λ _ last. ordered_ok p first last

in_range :
    (id : ℕ) → is_snowflake id ≡ true → (leb_ℤ (pos 1) (pos id) && leb_ℤ (pos id) int64_max) ≡ true
in_range id h = ground arith

accepted_ids :
    (ids : List ℕ) (s : Session) → all is_snowflake ids ≡ true → check_operators ids s ≡ ok (tt, s)
unfolding check_operators require_int64 ◌>>=◌ lift pure
accepted_ids [] s h = refl
accepted_ids (id ∷ ids) s h =
    rw (in_range id (&&-true _ _ h).0) (accepted_ids ids s (&&-true _ _ h).1)

-- What the policy of a configuration is, where there is one.
abbrev IsLoaded : Option SafetyPolicy → Type 0
IsLoaded none = Unit
IsLoaded (some p) = IsOrderedPolicy p

module _ (platform : Platform) where
  ordered_policy-IsLoaded :
      (r : Result SafetyPolicy)
      → AllOk IsOrderedPolicy r
      → AllPassed IsLoaded (ordered_policy platform r)
  unfolding ordered_policy
  ordered_policy-IsLoaded (ok p) h = h
  ordered_policy-IsLoaded (err e) h = tt

  load_safety_policy-IsLoaded : AllPassed IsLoaded (load_safety_policy platform)
  unfolding load_safety_policy
  load_safety_policy-IsLoaded =
      if-passed IsLoaded (all is_blank (safety_values platform)) _ _ (λ _. tt)
        λ _. then-any IsLoaded _ _ λ _. then-any IsLoaded _ _ λ _. then-any IsLoaded _ _ λ a.
          then-any IsLoaded _ _ λ b.
            then-any IsLoaded _ _ λ c. ordered_policy-IsLoaded _ (safety_policy-IsOrderedPolicy _)

  -- A safety policy that the configuration loads has its limits in order, none negative and all of
  -- them signed 64-bit integers.
  pub load_safety_policy-IsOrderedPolicy :
      (p : SafetyPolicy) → load_safety_policy platform ≡ passed (some p) → IsOrderedPolicy p
  load_safety_policy-IsOrderedPolicy p loaded =
      subst (AllPassed IsLoaded) loaded load_safety_policy-IsLoaded

  read_one :
      (id : Option ℕ) (parts : List String)
      → AllPassed (λ ids. length ids ≡ length parts) (read_ids platform parts)
      → AllPassed
          (λ ids. length ids ≡ suc (length parts))
          (elim id [
            | none ↦ refused "bootstrap_ids_required"
            | some id ↦ read_ids platform parts then λ ids. passed (id ∷ ids)
          ])
  read_one none parts rest = tt
  read_one (some id) parts rest =
      passed-then (λ ids. length ids ≡ length parts) (λ ids. length ids ≡ suc (length parts))
        (read_ids platform parts) _ rest λ ids e. ap suc e

  read_ids-length :
      (parts : List String) → AllPassed (λ ids. length ids ≡ length parts) (read_ids platform parts)
  unfolding read_ids
  read_ids-length [] = refl
  read_ids-length (part ∷ parts) =
      read_one (platform.read_decimal part) parts (read_ids-length parts)

  -- What `bootstrap` of the safety service asks of operators.
  abbrev pub AreAccepted : List ℕ → Session → Type 0
  AreAccepted ids s =
      (((leb 1 (length ids) && leb (length ids) 10) && are_distinct ids) ≡ true)
      × (check_operators ids s ≡ ok (tt, s))

  operators-accepted :
      (s : Session)
      → AllPassed (λ ids. (ids ≡ []) ⊎ AreAccepted ids s) (load_development_operators platform)
  unfolding load_development_operators
  operators-accepted s =
      let Good : List ℕ → Type 0 = λ ids. (ids ≡ []) ⊎ AreAccepted ids s in
      let parts = platform.split (stripped platform "BUTTERBOT_DEV_SAFETY_BOOTSTRAP_IDS") in
      if-passed Good (str_eq (stripped platform "BUTTERBOT_DEV_SAFETY_BOOTSTRAP_IDS") "") _ _
        (λ _. inl refl)
        λ _. require-then Good _ _ _ λ few.
          passed-then (λ ids. length ids ≡ length parts) Good (read_ids platform parts) _
            (read_ids-length parts)
            λ ids same.
              require-then Good _ _ _ λ good.
                inr (ground (arith, same, few, good), accepted_ids ids s (&&-true _ _ good).1)

  -- Operators that the configuration of a development run loads are none, or pass the checks that
  -- the bootstrap makes before it writes.
  pub load_development_operators-AreAccepted :
      (ids : List ℕ) (s : Session)
      → load_development_operators platform ≡ passed ids
      → (ids ≡ []) ⊎ AreAccepted ids s
  load_development_operators-AreAccepted ids s loaded =
      subst (AllPassed (λ ids. (ids ≡ []) ⊎ AreAccepted ids s)) loaded (operators-accepted s)
