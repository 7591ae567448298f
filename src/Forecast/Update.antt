-- ===== src/Forecast/Update.antt =====
-- The update of the Holt-Winters archives for one data source: rrdtool-1.4.5/src/rrd_hw_update.c and
-- `update_aberrant_CF` of rrdtool-1.4.5/src/rrd_hw.c. The `cdp_prep` of the data source is given
-- by the index of the archive. What the functions return is left out, as no caller looks at it.
pub mod Failures
pub mod Order
mod Tests
use administracion_servicios.Prelude.{
  ℕ, zero, suc, ◌+◌, ◌-◌, Bool, true, false, not, ◌&&◌, ◌||◌, List, [], ◌∷◌, ltb, ◌==◌,
  if◌then◌else◌, get_or, set,
}
use administracion_servicios.Double.{Double}
use administracion_servicios.Rrd.{
  Cf, hwpredict, mhwpredict, seasonal, devseasonal, devpredict, failures, CdpPrep,
}
use administracion_servicios.Update.Rows.{ScratchIdx, primary, secondary}
use administracion_servicios.Forecast.{
  HwFunctions, hw_additive_functions, hw_multiplicative_functions,
}

module _ (F : Double) where
  open F use {V, isnan, nan, add, sub, mul, lt, of_ℕ}

  -- the parameters of `rra_def_t` for these archives
  pub record HwDef : Type 0 where
    pub cf : Cf
    pub dependent_rra_idx : ℕ
    pub hw_alpha : V
    pub hw_beta : V
    pub seasonal_gamma : V
    pub delta_pos : V
    pub delta_neg : V
    pub window_len : ℕ
    pub failure_threshold : ℕ

  -- `scratch[CDP_scratch_idx]`
  abbrev pub scratch_of : ScratchIdx → CdpPrep V → V
  scratch_of primary c = c.primary_val
  scratch_of secondary c = c.secondary_val

  abbrev pub with_scratch : ScratchIdx → V → CdpPrep V → CdpPrep V
  with_scratch primary v c = record c { primary_val = v }
  with_scratch secondary v c = record c { secondary_val = v }

  abbrev pub store : ℕ → CdpPrep V → (ℕ → CdpPrep V) → ℕ → CdpPrep V
  store i c cdps k = if k == i then c else cdps k

  -- `init_slope_intercept`
  abbrev pub init_slope_intercept : V → CdpPrep V → CdpPrep V
  init_slope_intercept v c = record c {
    hw_intercept = v;
    hw_last_intercept = v;
    hw_slope = of_ℕ 0;
    hw_last_slope = of_ℕ 0;
    null_count = 1;
    last_null_count = 1;
  }

  abbrev pub hw_is_violation : V → V → V → V → V → Bool
  hw_is_violation observed prediction deviation delta_pos delta_neg =
      lt (add prediction (mul delta_pos deviation)) observed
      || lt observed (sub prediction (mul delta_neg deviation))

  module _ (f : HwFunctions F) (defs : ℕ → HwDef) where
    -- `update_hwpredict` on the coefficients, which are saved first
    abbrev pub saved : CdpPrep V → CdpPrep V
    saved c = record c {
      hw_last_intercept = c.hw_intercept;
      hw_last_slope = c.hw_slope;
      last_null_count = c.null_count;
    }

    abbrev pub with_intercept : HwDef → V → V → CdpPrep V → CdpPrep V
    with_intercept d observed coef c = record c {
      hw_intercept = f.intercept d.hw_alpha observed coef c;
    }

    abbrev pub with_slope : HwDef → CdpPrep V → CdpPrep V
    with_slope d c = record c { hw_slope = f.slope d.hw_beta c; null_count = 1 }

    abbrev pub hwpredict_coefs : HwDef → ScratchIdx → V → CdpPrep V → CdpPrep V
    hwpredict_coefs d at coef c =
        let observed = scratch_of at c in
        if isnan c.hw_intercept || isnan c.hw_slope || isnan coef
        then with_scratch at nan (
            if isnan c.hw_intercept && not (isnan observed)
            then init_slope_intercept observed c
            else c)
        else with_scratch at (f.predict c.hw_intercept c.hw_slope c.null_count coef) (
            if isnan observed
            then record c { null_count = c.null_count + 1 }
            else with_slope d (with_intercept d observed coef c))

    -- the seasonal coefficient of before, for the archive at an index
    abbrev pub coef_for : ℕ → ℕ → (ℕ → CdpPrep V) → V
    coef_for rra_idx seasonal_idx cdps =
        if ltb seasonal_idx rra_idx
        then (cdps seasonal_idx).hw_last_intercept
        else (cdps seasonal_idx).hw_intercept

    unfoldable pub update_hwpredict : ℕ → ScratchIdx → (ℕ → CdpPrep V) → ℕ → CdpPrep V
    update_hwpredict i at cdps =
        let d = defs i in
        store i (hwpredict_coefs d at (coef_for i d.dependent_rra_idx cdps) (saved (cdps i))) cdps

    -- the value that `update_seasonal` writes, from the coefficients of the forecast
    abbrev pub seasonal_after : HwDef → V → V → CdpPrep V → V
    seasonal_after d observed old c =
        if isnan c.hw_last_intercept || isnan c.hw_last_slope
        then nan
        else if isnan old
        then f.init_seasonality observed c.hw_last_intercept
        else f.seasonality d.seasonal_gamma observed c.hw_intercept old

    abbrev pub seasonal_before : HwDef → HwDef → V → V → CdpPrep V → V
    seasonal_before d hw observed old c =
        if isnan c.hw_intercept || isnan c.hw_slope
        then f.identity
        else if isnan old
        then f.init_seasonality observed c.hw_intercept
        else f.seasonality d.seasonal_gamma observed (f.intercept hw.hw_alpha observed old c) old

    abbrev pub seasonal_value : ℕ → V → V → (ℕ → CdpPrep V) → V
    seasonal_value i observed old cdps =
        let d = defs i in
        let hw = d.dependent_rra_idx in
        if isnan observed
        then old
        else if ltb hw i
        then seasonal_after d observed old (cdps hw)
        else seasonal_before d (defs hw) observed old (cdps hw)

    -- `update_seasonal`, with `seasonal_coef[ds_idx]`
    unfoldable pub update_seasonal : ℕ → ScratchIdx → V → (ℕ → CdpPrep V) → ℕ → CdpPrep V
    update_seasonal i at coef cdps =
        let c = cdps i in
        store i
          (with_scratch at (seasonal_value i (scratch_of at c) c.hw_intercept cdps)
            (record c { hw_last_intercept = c.hw_intercept; hw_intercept = coef }))
          cdps

    -- `update_devpredict`
    unfoldable pub update_devpredict : ℕ → ScratchIdx → (ℕ → CdpPrep V) → ℕ → CdpPrep V
    update_devpredict i at cdps =
        store i (with_scratch at (coef_for i (defs i).dependent_rra_idx cdps) (cdps i)) cdps

    -- the prediction that the archive at an index sees: that of before the update
    abbrev pub prediction_for : ℕ → ℕ → V → (ℕ → CdpPrep V) → V
    prediction_for i hw coef cdps =
        let c = cdps hw in
        if ltb hw i
        then f.predict c.hw_last_intercept c.hw_last_slope c.last_null_count coef
        else f.predict c.hw_intercept c.hw_slope c.null_count coef

    abbrev pub lacks_prediction : ℕ → ℕ → V → (ℕ → CdpPrep V) → Bool
    lacks_prediction i hw coef cdps =
        let c = cdps hw in
        if ltb hw i
        then isnan c.hw_last_intercept || isnan c.hw_last_slope || isnan coef
        else isnan c.hw_intercept || isnan c.hw_slope || isnan coef

    abbrev pub deviation_value : HwDef → V → V → V → V
    deviation_value d prediction observed last =
        if isnan observed
        then last
        else if isnan last
        then f.init_seasonal_deviation prediction observed
        else f.seasonal_deviation d.seasonal_gamma prediction observed last

    -- `update_devseasonal`, with `seasonal_dev[ds_idx]`
    unfoldable pub update_devseasonal : ℕ → ScratchIdx → V → (ℕ → CdpPrep V) → ℕ → CdpPrep V
    update_devseasonal i at dev cdps =
        let c = cdps i in
        let hw = (defs i).dependent_rra_idx in
        let coef = coef_for i (defs hw).dependent_rra_idx cdps in
        let value =
          if lacks_prediction i hw coef cdps
          then nan
          else deviation_value (defs i) (prediction_for i hw coef cdps) (scratch_of at c)
              c.hw_intercept in
        store i
          (with_scratch at value
            (record c { hw_last_intercept = c.hw_intercept; hw_intercept = dev }))
          cdps

    -- the shift of `update_failures`, and the violations that it counts, from index `i - 1` down
    abbrev pub shift : ℕ → List ℕ → ℕ → List ℕ × ℕ
    shift zero a cnt = (a, cnt)
    shift (suc zero) a cnt = (a, cnt)
    shift (suc (suc i)) a cnt =
        let b = set a (suc i) (get_or a i 0) in shift (suc i) b (cnt + get_or b (suc i) 0)

    -- the violation of one value, 0 or 1
    abbrev pub violation_of : HwDef → V → V → V → ℕ
    violation_of d observed prediction deviation =
        if isnan deviation
        then 0
        else if isnan observed
        then 1
        else if hw_is_violation observed prediction deviation d.delta_pos d.delta_neg
        then 1
        else 0

    abbrev pub record_violation : HwDef → ScratchIdx → ℕ → CdpPrep V → CdpPrep V
    record_violation d at violation c =
        let (a, cnt) = shift d.window_len c.violations violation in
        with_scratch at (if ltb cnt d.failure_threshold then of_ℕ 0 else of_ℕ 1)
          (record c { violations = set a 0 violation })

    -- the violation that `update_failures` finds
    abbrev pub violation_at : ℕ → ScratchIdx → (ℕ → CdpPrep V) → ℕ
    violation_at i at cdps =
        let d = defs i in
        let dev = d.dependent_rra_idx in
        let hw = (defs dev).dependent_rra_idx in
        let season = (defs hw).dependent_rra_idx in
        let deviation =
          if ltb i season then (cdps dev).hw_intercept else (cdps dev).hw_last_intercept in
        let coef =
          if ltb i season then (cdps season).hw_intercept else (cdps season).hw_last_intercept in
        let prediction =
          if ltb i hw
          then f.predict (cdps hw).hw_intercept (cdps hw).hw_slope (cdps hw).null_count coef
          else f.predict (cdps hw).hw_last_intercept (cdps hw).hw_last_slope
              (cdps hw).last_null_count coef in
        violation_of d (scratch_of at (cdps i)) prediction deviation

    -- `update_failures`
    unfoldable pub update_failures : ℕ → ScratchIdx → (ℕ → CdpPrep V) → ℕ → CdpPrep V
    update_failures i at cdps =
        store i (record_violation (defs i) at (violation_at i at cdps) (cdps i)) cdps

  module _ (fabs : V → V) (defs : ℕ → HwDef) where
    abbrev pub functions_for : Cf → HwFunctions F
    functions_for mhwpredict = hw_multiplicative_functions F fabs
    functions_for _ = hw_additive_functions F fabs

    abbrev pub is_forecast : Cf → Bool
    is_forecast hwpredict = true
    is_forecast mhwpredict = true
    is_forecast _ = false

    -- `update_aberrant_CF`
    unfoldable pub update_aberrant_cf :
        V → Cf → ℕ → ScratchIdx → V → (ℕ → CdpPrep V) → ℕ → CdpPrep V
    unfolding update_hwpredict update_seasonal update_devpredict update_devseasonal update_failures
    update_aberrant_cf pdp_val cf i at coef cdps =
        let s = store i (with_scratch at pdp_val (cdps i)) cdps in
        let one_back = (defs (defs i).dependent_rra_idx).cf in
        let two_back = (defs (defs (defs i).dependent_rra_idx).dependent_rra_idx).cf in
        elim cf [
          | hwpredict ↦ update_hwpredict (functions_for hwpredict) defs i at s
          | mhwpredict ↦ update_hwpredict (functions_for mhwpredict) defs i at s
          | devpredict ↦ update_devpredict (functions_for hwpredict) defs i at s
          | seasonal ↦
              if is_forecast one_back
              then update_seasonal (functions_for one_back) defs i at coef s
              else s
          | devseasonal ↦
              if is_forecast one_back
              then update_devseasonal (functions_for one_back) defs i at coef s
              else s
          | failures ↦
              if is_forecast two_back
              then update_failures (functions_for two_back) defs i at s
              else s
          | _ ↦ s
        ]
