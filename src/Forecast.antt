-- ===== src/Forecast.antt =====
-- Holt-Winters forecasting: the formulas of rrdtool-1.4.5/src/rrd_hw_math.c, additive and
-- multiplicative. `fabs` of the mathematical library is a parameter.
pub mod Update
pub mod Fifo
pub mod Wrap
use administracion_servicios.Prelude.{ℕ, Bool, not, ◌&&◌, if◌then◌else◌}
use administracion_servicios.Double.{Double}
use administracion_servicios.Rrd.{CdpPrep}

module _ (F : Double) where
  open F use {V, isnan, nan, add, sub, mul, div, lt, of_ℕ}

  -- `hw_functions_t`
  pub record HwFunctions : Type 0 where
    pub predict : V → V → ℕ → V → V
    pub intercept : V → V → V → CdpPrep V → V
    pub slope : V → CdpPrep V → V
    pub seasonality : V → V → V → V → V
    pub init_seasonality : V → V → V
    pub seasonal_deviation : V → V → V → V → V
    pub init_seasonal_deviation : V → V → V
    pub identity : V

  -- `a * x + (1 - a) * y`
  abbrev pub smoothed : V → V → V → V
  smoothed a x y = add (mul a x) (mul (sub (of_ℕ 1) a) y)

  -- `intercept + slope * null_count`, for a count that is not negative and below 2^31
  abbrev pub baseline : V → V → ℕ → V
  baseline intercept slope null_count = add intercept (mul slope (of_ℕ null_count))

  -- `x <= 0`, false for NaN
  abbrev pub is_nonpositive : V → Bool
  is_nonpositive x = not (isnan x) && not (lt (of_ℕ 0) x)

  abbrev pub hw_additive_calculate_prediction : V → V → ℕ → V → V
  hw_additive_calculate_prediction intercept slope null_count seasonal_coef =
      add (baseline intercept slope null_count) seasonal_coef

  abbrev pub hw_additive_calculate_intercept : V → V → V → CdpPrep V → V
  hw_additive_calculate_intercept hw_alpha observed seasonal_coef c =
      smoothed hw_alpha (sub observed seasonal_coef)
        (baseline c.hw_intercept c.hw_slope c.null_count)

  abbrev pub hw_additive_calculate_seasonality : V → V → V → V → V
  hw_additive_calculate_seasonality hw_gamma observed intercept seasonal_coef =
      smoothed hw_gamma (sub observed intercept) seasonal_coef

  abbrev pub hw_additive_init_seasonality : V → V → V
  hw_additive_init_seasonality seasonal_coef intercept = sub seasonal_coef intercept

  abbrev pub hw_multiplicative_calculate_prediction : V → V → ℕ → V → V
  hw_multiplicative_calculate_prediction intercept slope null_count seasonal_coef =
      mul (baseline intercept slope null_count) seasonal_coef

  abbrev pub hw_multiplicative_calculate_intercept : V → V → V → CdpPrep V → V
  hw_multiplicative_calculate_intercept hw_alpha observed seasonal_coef c =
      if is_nonpositive seasonal_coef
      then nan
      else smoothed hw_alpha (div observed seasonal_coef)
          (baseline c.hw_intercept c.hw_slope c.null_count)

  abbrev pub hw_multiplicative_calculate_seasonality : V → V → V → V → V
  hw_multiplicative_calculate_seasonality hw_gamma observed intercept seasonal_coef =
      if is_nonpositive intercept
      then nan
      else smoothed hw_gamma (div observed intercept) seasonal_coef

  abbrev pub hw_multiplicative_init_seasonality : V → V → V
  hw_multiplicative_init_seasonality seasonal_coef intercept =
      if is_nonpositive intercept then nan else div seasonal_coef intercept

  abbrev pub hw_calculate_slope : V → CdpPrep V → V
  hw_calculate_slope hw_beta c =
      smoothed hw_beta (sub c.hw_intercept c.hw_last_intercept) c.hw_slope

  module _ (fabs : V → V) where
    abbrev pub hw_calculate_seasonal_deviation : V → V → V → V → V
    hw_calculate_seasonal_deviation hw_gamma prediction observed last =
        smoothed hw_gamma (fabs (sub prediction observed)) last

    abbrev pub hw_init_seasonal_deviation : V → V → V
    hw_init_seasonal_deviation prediction observed = fabs (sub prediction observed)

    -- the two tables of `update_aberrant_CF` in rrdtool-1.4.5/src/rrd_hw.c
    abbrev pub hw_additive_functions : HwFunctions
    hw_additive_functions = record {
      predict = hw_additive_calculate_prediction;
      intercept = hw_additive_calculate_intercept;
      slope = hw_calculate_slope;
      seasonality = hw_additive_calculate_seasonality;
      init_seasonality = hw_additive_init_seasonality;
      seasonal_deviation = hw_calculate_seasonal_deviation;
      init_seasonal_deviation = hw_init_seasonal_deviation;
      identity = of_ℕ 0;
    }

    abbrev pub hw_multiplicative_functions : HwFunctions
    hw_multiplicative_functions = record {
      predict = hw_multiplicative_calculate_prediction;
      intercept = hw_multiplicative_calculate_intercept;
      slope = hw_calculate_slope;
      seasonality = hw_multiplicative_calculate_seasonality;
      init_seasonality = hw_multiplicative_init_seasonality;
      seasonal_deviation = hw_calculate_seasonal_deviation;
      init_seasonal_deviation = hw_init_seasonal_deviation;
      identity = of_ℕ 1;
    }
