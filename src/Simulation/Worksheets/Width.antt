-- ===== src/Simulation/Worksheets/Width.antt =====
-- Every row of every worksheet of src/butterbot/simulation/economy.py fits its header.
use butterbot.Base.{ℕ, String, Bool, true, ◌≡◌, refl, List, [], ◌∷◌, ◌++◌, length, all, ◌==◌, arith}
use butterbot.Result.{Result, ok, ◌>>=◌, AllOk, AllOk-bind, AllOk-bind_of}
use butterbot.Simulation.{EconomyModel}
use butterbot.Simulation.Worksheets.{
  Cell, Worksheet, rows_for, projection_row, source_sink_row, milestone_row, sensitivity_row,
  supply_pressure_row, project_all, render_projection_worksheet, render_source_sink_worksheet,
  render_milestone_worksheet, render_sensitivity_worksheet, render_supply_pressure_worksheet,
  render_worksheets,
}
use butterbot.Simulation.Rates.{daily_rates}
use butterbot.Simulation.Progress.{days_to_profession_xp}
use butterbot.Simulation.Projecting.{project, share_bps}

abbrev have_width : ℕ → List (List Cell) → Bool
have_width n rows = all (λ r. length r == n) rows

-- Each row has as many cells as the header has names.
abbrev pub fits_header : Worksheet → Bool
fits_header w = have_width (length w.header) w.rows

have_width-append :
    (n : ℕ) (xs ys : List (List Cell))
    → have_width n xs ≡ true
    → have_width n ys ≡ true
    → have_width n (xs ++ ys) ≡ true
have_width-append n [] ys p q = q
have_width-append n (x ∷ xs) ys p q = ground (arith, have_width-append n xs ys)

abbrev HaveWidth : ℕ → List (List Cell) → Type 0
HaveWidth n rows = have_width n rows ≡ true

rows_for-HaveWidth {ℓ} :
    {A : Type ℓ} (n : ℕ) (render : A → Result (List (List Cell))) (xs : List A)
    → ((x : A) → AllOk (HaveWidth n) (render x))
    → AllOk (HaveWidth n) (rows_for render xs)
unfolding rows_for
rows_for-HaveWidth n render [] each = refl
rows_for-HaveWidth n render (x ∷ xs) each =
    AllOk-bind_of (HaveWidth n) (HaveWidth n) (render x) _ (each x) λ first p.
      AllOk-bind_of (HaveWidth n) (HaveWidth n) (rows_for render xs) _
        (rows_for-HaveWidth n render xs each) λ rest q. have_width-append n first rest p q

abbrev Fits : Worksheet → Type 0
Fits w = fits_header w ≡ true

sheet-Fits :
    (header : List String) (rows : Result (List (List Cell)))
    → AllOk (HaveWidth (length header)) rows
    → AllOk Fits (rows >>= λ r. ok record { header = header; rows = r })
sheet-Fits header rows h = AllOk-bind_of (HaveWidth (length header)) Fits rows _ h λ r e. e

projection-Fits : (model : EconomyModel) → AllOk Fits (render_projection_worksheet model)
unfolding render_projection_worksheet projection_row
projection-Fits model = sheet-Fits _ _ (
    rows_for-HaveWidth 22 _ model.cohorts λ c.
      rows_for-HaveWidth 22 _ model.horizons
        λ h. AllOk-bind (HaveWidth 22) (project model c h) _ λ result. refl)

source_sink-Fits : (model : EconomyModel) → AllOk Fits (render_source_sink_worksheet model)
unfolding render_source_sink_worksheet source_sink_row
source_sink-Fits model = sheet-Fits _ _ (
    rows_for-HaveWidth 13 _ model.cohorts
      λ c. AllOk-bind (HaveWidth 13) (daily_rates model c) _ λ rates. refl)

milestone-Fits : (model : EconomyModel) → AllOk Fits (render_milestone_worksheet model)
unfolding render_milestone_worksheet milestone_row
milestone-Fits model = sheet-Fits _ _ (
    rows_for-HaveWidth 7 _ model.cohorts λ c. AllOk-bind (HaveWidth 7) (daily_rates model c) _ λ _.
      rows_for-HaveWidth 7 _ model.unlocks λ u.
        AllOk-bind (HaveWidth 7) (daily_rates model c) _
          λ _. AllOk-bind (HaveWidth 7) (days_to_profession_xp model c _) _ λ days. refl)

sensitivity-Fits : (model : EconomyModel) → AllOk Fits (render_sensitivity_worksheet model)
unfolding render_sensitivity_worksheet sensitivity_row
sensitivity-Fits model = sheet-Fits _ _ (
    rows_for-HaveWidth 10 _ model.sensitivities λ c.
      rows_for-HaveWidth 10 _ model.horizons
        λ h. AllOk-bind (HaveWidth 10) (project model c h) _ λ result. refl)

supply_pressure-Fits : (model : EconomyModel) → AllOk Fits (render_supply_pressure_worksheet model)
unfolding render_supply_pressure_worksheet supply_pressure_row
supply_pressure-Fits model = sheet-Fits _ _ (
    rows_for-HaveWidth 9 _ model.horizons λ h.
      AllOk-bind (HaveWidth 9) (project_all model h model.cohorts) _
        λ results. AllOk-bind (HaveWidth 9) (share_bps _ _) _ λ share. refl)

-- The five worksheets, all of them fitting.
abbrev pub AllFit : List (String × Worksheet) → Type 0
AllFit sheets = (length sheets ≡ 5) × (all (λ s. fits_header s.1) sheets ≡ true)

-- Rendered worksheets are five, and each row of each has as many cells as the header has names.
pub render_worksheets_lem : (model : EconomyModel) → AllOk AllFit (render_worksheets model)
unfolding render_worksheets
render_worksheets_lem model = AllOk-bind_of Fits AllFit _ _ (projection-Fits model) λ a p.
    AllOk-bind_of Fits AllFit _ _ (source_sink-Fits model) λ b q.
      AllOk-bind_of Fits AllFit _ _ (milestone-Fits model) λ c r.
        AllOk-bind_of Fits AllFit _ _ (sensitivity-Fits model) λ d s.
          AllOk-bind_of Fits AllFit _ _ (supply_pressure-Fits model) λ e t. (refl, ground arith)
