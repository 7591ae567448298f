-- ===== src/Update/Cdp/Window.antt =====
-- One consolidated data point, from the primary data points that arrive for it one at a time:
-- `update_cdp` of rrdtool-1.4.5/src/rrd_update.c called once for each, as `update_cdp_prep` calls
-- it, with the counts that `update_all_cdp_prep` computes.
use administracion_servicios.Prelude.{ℕ, ◌+◌, ◌≡◌, false, List, [], ◌∷◌, if◌then◌else◌}
use administracion_servicios.Double.{Double}
use administracion_servicios.Rrd.{Cf, average, minimum, maximum, CdpPrep}
use administracion_servicios.Update.Rows.{sub_word}
use administracion_servicios.Update.Steps.{start_pdp_offset, rra_step_cnt}
use administracion_servicios.Update.Cdp.{update_cdp}

-- The functions that fold the known values of a window.
abbrev pub Folds : Cf → Type 0
Folds average = Unit
Folds maximum = Unit
Folds minimum = Unit
Folds _ = ⊥

module _ (F : Double) where
  open F use {V, isnan, nan, add, div, mul, lt, of_ℕ}

  -- the calls of `update_cdp` for primary data points that arrive step by step, the first of them
  -- after `proc_pdp_cnt` steps
  unfoldable pub feed : Cf → ℕ → V → ℕ → List V → CdpPrep V → CdpPrep V
  feed cf pdp_cnt xff proc_pdp_cnt [] c = c
  feed cf pdp_cnt xff proc_pdp_cnt (v ∷ vs) c = feed cf pdp_cnt xff (proc_pdp_cnt + 1) vs (
      update_cdp F c cf v (rra_step_cnt pdp_cnt proc_pdp_cnt 1) 1
        (start_pdp_offset pdp_cnt proc_pdp_cnt) pdp_cnt xff)

  -- what a known value adds to what has been collected
  abbrev pub tally : Cf → V → V → V
  tally maximum acc v = if lt acc v then v else acc
  tally minimum acc v = if lt v acc then v else acc
  tally _ acc v = add acc v

  abbrev pub tally_known : Cf → V → V → V
  tally_known cf acc v = if isnan v then acc else tally cf acc v

  -- the known values of a window, collected in the order of their arrival
  abbrev pub collect : Cf → V → List V → V
  collect cf acc [] = acc
  collect cf acc (v ∷ vs) = collect cf (tally_known cf acc v) vs

  abbrev pub unknowns : List V → ℕ
  unknowns [] = 0
  unknowns (v ∷ vs) = (if isnan v then 1 else 0) + unknowns vs

  -- No partial result is NaN, as the sum of opposite infinities would be.
  abbrev pub NoNan : Cf → V → List V → Type 0
  NoNan cf acc [] = isnan acc ≡ false
  NoNan cf acc (v ∷ vs) = (isnan acc ≡ false) × NoNan cf (tally_known cf acc v) vs

  -- the consolidated value: unknown where too much is unknown, else the collected value, which
  -- an average divides by the number of known values
  abbrev pub consolidated : Cf → V → ℕ → ℕ → V → V
  consolidated cf xff pdp_cnt unknown collected =
      if lt (mul (of_ℕ pdp_cnt) xff) (of_ℕ unknown)
      then nan
      else (elim cf [ average ↦ div collected (of_ℕ (sub_word pdp_cnt unknown)) | _ ↦ collected ])
