-- ===== src/Simulation/Rates/Capped.antt =====
-- The soft cap on rewarded actions of src/butterbot/simulation/economy.py.
use native.Mathlib.Nat.{mul-le-mul_left}
use butterbot.Simulation.Projecting.Total.{min_ℤ-positive, max_ℤ-positive}
use butterbot.Base.{ℕ, ℤ, pos, negsuc, ◌+◌, ◌≤◌, ◌≡◌, ◌≤ℤ◌, ◌-ℤ◌, min_ℤ, max_ℤ, arith, pos_part}
use butterbot.Result.{ok}
use butterbot.Simulation.{basis_points, Cohort, EconomyModel}
use butterbot.Simulation.Fractions.{of_int, ◌+ℚ◌, ◌≤ℚ◌}
use butterbot.Simulation.Fractions.Order.{fraction_laws}
use butterbot.Simulation.Rates.{bps, rewarded_actions_per_active_day}
use butterbot.Simulation.Validation.{validate_model, validate_cohort}
use butterbot.Simulation.Validation.Sound.{validated-IsSound, cohort-IsSound}

share-≤ :
    (full over k : ℕ)
    → k ≤ basis_points
    → (of_int (pos full) ≤ℚ of_int (pos full) +ℚ bps (of_int (pos over)) (pos k))
      × (of_int (pos full) +ℚ bps (of_int (pos over)) (pos k) ≤ℚ of_int (pos (full + over)))
unfolding bps
share-≤ full over k h =
    (simp fraction_laws (omega arith), simp fraction_laws (grind (arith, mul-le-mul_left over h)))

split-cap :
    (a f : ℤ)
    → pos 0 ≤ℤ a
    → pos 1 ≤ℤ f
    → a ≡ pos (pos_part (min_ℤ a f) + pos_part (max_ℤ (pos 0) (a -ℤ f)))
unfolding min_ℤ max_ℤ ◌-ℤ◌
split-cap a f ha hf = ground arith

cap-≤ :
    (a full over b : ℤ)
    → pos 0 ≤ℤ full
    → pos 0 ≤ℤ over
    → pos 0 ≤ℤ b
    → b ≤ℤ pos basis_points
    → a ≡ pos (pos_part full + pos_part over)
    → (of_int full ≤ℚ of_int full +ℚ bps (of_int over) b)
      × (of_int full +ℚ bps (of_int over) b ≤ℚ of_int a)
cap-≤ a (pos full) (pos over) (pos k) hf ho hb hc e = rw e (share-≤ full over k (omega arith))
cap-≤ a (negsuc full) over k hf ho hb hc e = ground arith
cap-≤ a (pos full) (negsuc over) k hf ho hb hc e = ground arith
cap-≤ a (pos full) (pos over) (negsuc k) hf ho hb hc e = ground arith

-- In a validated model a validated cohort is rewarded for at least the actions that it takes up to
-- the full-reward allowance, and for no more actions than it takes.
pub rewarded_actions_capped :
    (model : EconomyModel) (cohort : Cohort)
    → validate_model model ≡ ok tt
    → validate_cohort model cohort ≡ ok tt
    → (of_int
          (min_ℤ cohort.actions_per_active_day model.activity.full_reward_actions_per_active_day)
        ≤ℚ rewarded_actions_per_active_day model cohort)
      × (rewarded_actions_per_active_day model cohort ≤ℚ of_int cohort.actions_per_active_day)
unfolding rewarded_actions_per_active_day
rewarded_actions_capped model cohort valid valid_cohort =
    let sound = validated-IsSound model valid in
    let sound_cohort = cohort-IsSound model cohort valid_cohort in
    cap-≤ cohort.actions_per_active_day
      (min_ℤ cohort.actions_per_active_day model.activity.full_reward_actions_per_active_day)
      (max_ℤ (pos 0)
        (cohort.actions_per_active_day -ℤ model.activity.full_reward_actions_per_active_day))
      model.activity.overflow_reward_bps (min_ℤ-positive _ _ sound_cohort.actions sound.allowance)
      (max_ℤ-positive _) sound.overflow sound.overflow_cap
      (split-cap _ _ sound_cohort.actions sound.allowance)
