-- ===== src/Forecast/Update/Order.antt =====
-- The forecast of rrdtool-1.4.5/src/rrd_hw_update.c does not depend on which of the archives
-- HWPREDICT and SEASONAL stands first in the file.
use administracion_servicios.Prelude.{
  ℕ, ◌≡◌, refl, sym, ap, ◌∙◌, false, Bool-cases, inl, inr, ◌==◌, if◌then◌else◌,
}
use administracion_servicios.Double.{Double}
use administracion_servicios.Rrd.{CdpPrep}
use administracion_servicios.Update.Rows.{ScratchIdx, primary, secondary}
use administracion_servicios.Forecast.{HwFunctions}
use administracion_servicios.Forecast.Update.{
  HwDef, scratch_of, saved, seasonal_value, update_hwpredict, update_seasonal,
}

module _ (F : Double) (f : HwFunctions F) where
  open F use {V, isnan}

  -- the definitions of a pair of archives that refer to each other
  abbrev pub pair_defs : ℕ → ℕ → HwDef F → HwDef F → ℕ → HwDef F
  pair_defs hw season d e k =
      if k == hw
      then record d { dependent_rra_idx = season }
      else record e { dependent_rra_idx = hw }

  abbrev pub pair_cdps : ℕ → CdpPrep V → CdpPrep V → ℕ → CdpPrep V
  pair_cdps hw c s k = if k == hw then c else s

  -- an update of both, in the order in which they stand
  abbrev pub hwpredict_first :
      HwDef F → HwDef F → ScratchIdx → V → CdpPrep V → CdpPrep V → ℕ → CdpPrep V
  hwpredict_first d e at coef c s =
      let defs = pair_defs 0 1 d e in
      update_seasonal F f defs 1 at coef (update_hwpredict F f defs 0 at (pair_cdps 0 c s))

  abbrev pub seasonal_first :
      HwDef F → HwDef F → ScratchIdx → V → CdpPrep V → CdpPrep V → ℕ → CdpPrep V
  seasonal_first d e at coef c s =
      let defs = pair_defs 1 0 d e in
      update_hwpredict F f defs 1 at (update_seasonal F f defs 0 at coef (pair_cdps 1 c s))

  -- the intercept is computed from what an update saves, not from what it has saved before
  abbrev pub ReadsCurrent : Type 0
  ReadsCurrent =
      (defs : ℕ → HwDef F) (alpha v w : V) (c : CdpPrep V)
      → f.intercept alpha v w (saved F f defs c) ≡ f.intercept alpha v w c

  same_value :
      (r : ReadsCurrent) (d e : HwDef F) (at : ScratchIdx) (c s : CdpPrep V)
      → isnan c.hw_intercept ≡ false
      → isnan c.hw_slope ≡ false
      → scratch_of F at s ≡ scratch_of F at c
      → let a = pair_defs 0 1 d e in
        let b = pair_defs 1 0 d e in
        seasonal_value F f a 1
          (scratch_of F at s)
          s.hw_intercept
          (update_hwpredict F f a 0 at (pair_cdps 0 c s))
        ≡ seasonal_value F f b 0 (scratch_of F at s) s.hw_intercept (pair_cdps 1 c s)
  unfolding update_hwpredict
  same_value r d e primary c s a b o = elim (Bool-cases (isnan s.primary_val)) [
    | inl k ↦ rw k refl
    | inr k ↦ elim (Bool-cases (isnan s.hw_intercept)) [
      | inl n ↦ rw (k, n, a, b, a, b) refl
      | inr n ↦
          let l : isnan c.primary_val ≡ false = ap isnan (sym o) ∙ k in
          rw (k, n, a, b, l, a, b)
            (ap (λ z. f.seasonality e.seasonal_gamma s.primary_val z s.hw_intercept)
              (r (pair_defs 0 1 d e) d.hw_alpha c.primary_val s.hw_intercept c
                ∙ ap (λ x. f.intercept d.hw_alpha x s.hw_intercept c) (sym o)))
    ]
  ]
  same_value r d e secondary c s a b o = elim (Bool-cases (isnan s.secondary_val)) [
    | inl k ↦ rw k refl
    | inr k ↦ elim (Bool-cases (isnan s.hw_intercept)) [
      | inl n ↦ rw (k, n, a, b, a, b) refl
      | inr n ↦
          let l : isnan c.secondary_val ≡ false = ap isnan (sym o) ∙ k in
          rw (k, n, a, b, l, a, b)
            (ap (λ z. f.seasonality e.seasonal_gamma s.secondary_val z s.hw_intercept)
              (r (pair_defs 0 1 d e) d.hw_alpha c.secondary_val s.hw_intercept c
                ∙ ap (λ x. f.intercept d.hw_alpha x s.hw_intercept c) (sym o)))
    ]
  ]

  -- For HWPREDICT or MHWPREDICT and its SEASONAL archive, an update has the same effect on both,
  -- the forecast and all coefficients included, whichever of the two stands first, where the
  -- intercept and the slope are numbers; the seasonal coefficient and the value observed, which
  -- is the same for both, may be unknown. The formula for the intercept is one that reads the
  -- current coefficients alone.
  pub seasonal-hwpredict :
      (r : ReadsCurrent) (d e : HwDef F) (at : ScratchIdx) (coef : V) (c s : CdpPrep V)
      → isnan c.hw_intercept ≡ false
      → isnan c.hw_slope ≡ false
      → scratch_of F at s ≡ scratch_of F at c
      → (hwpredict_first d e at coef c s 0 ≡ seasonal_first d e at coef c s 1)
        × (hwpredict_first d e at coef c s 1 ≡ seasonal_first d e at coef c s 0)
  unfolding update_hwpredict update_seasonal
  seasonal-hwpredict r d e primary coef c s a b o = (
    refl,
    ap (λ v. record s { hw_last_intercept = s.hw_intercept; hw_intercept = coef; primary_val = v })
        (same_value r d e primary c s a b o),
  )
  seasonal-hwpredict r d e secondary coef c s a b o = (
    refl,
    ap
        (λ v. record s {
          hw_last_intercept = s.hw_intercept;
          hw_intercept = coef;
          secondary_val = v;
        })
        (same_value r d e secondary c s a b o),
  )
