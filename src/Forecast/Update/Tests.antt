-- ===== src/Forecast/Update/Tests.antt =====
-- The Holt-Winters archives on integers.
use administracion_servicios.Prelude.{take, zero, suc, ℕ, ◌+◌, ◌≡◌, refl, [], ◌∷◌, arith}
use administracion_servicios.Prelude.Int.{pos, neg_part, pos_part, ◌+ℤ◌, ◌-ℤ◌, ◌*ℤ◌}
use administracion_servicios.Double.Sample.{Number, int, nan, sample, add, mul}
use administracion_servicios.Rrd.{Cf, hwpredict, seasonal, devseasonal, failures, CdpPrep}
use administracion_servicios.Update.Rows.{primary}
use administracion_servicios.Forecast.{hw_additive_functions}
use administracion_servicios.Forecast.Update.{HwDef, update_failures}
use administracion_servicios.Forecast.Update.Failures.{after_one, after_all, update_failures-window}
use administracion_servicios.Forecast.Update.Order.{
  hwpredict_first, seasonal_first, seasonal-hwpredict,
}

abbrev size : Number → Number
size (int z) = int (pos (pos_part z + neg_part z))
size x = x

abbrev cdp : Number → Number → CdpPrep Number
cdp value intercept = record {
  cdp_val = nan;
  unkn_pdp_cnt = 0;
  hw_intercept = intercept;
  hw_last_intercept = intercept;
  hw_slope = int (pos 1);
  hw_last_slope = int (pos 1);
  null_count = 1;
  last_null_count = 1;
  primary_val = value;
  secondary_val = nan;
  violations = 0 ∷ 1 ∷ 0 ∷ 0 ∷ [];
}

abbrev def : Cf → ℕ → HwDef sample
def cf dependent = record {
  cf = cf;
  dependent_rra_idx = dependent;
  hw_alpha = int (pos 1);
  hw_beta = int (pos 1);
  seasonal_gamma = int (pos 1);
  delta_pos = int (pos 2);
  delta_neg = int (pos 2);
  window_len = 3;
  failure_threshold = 2;
}

seasonal-hwpredict_example :
    let c = cdp (int (pos 9)) (int (pos 5)) in
    let s = cdp (int (pos 9)) (int (pos 2)) in
    (hwpredict_first sample
        (hw_additive_functions sample size)
        (def hwpredict 0)
        (def seasonal 0)
        primary
        (int (pos 3))
        c
        s
        0
      ≡ seasonal_first sample
          (hw_additive_functions sample size)
          (def hwpredict 0)
          (def seasonal 0)
          primary
          (int (pos 3))
          c
          s
          1)
    × (hwpredict_first sample
          (hw_additive_functions sample size)
          (def hwpredict 0)
          (def seasonal 0)
          primary
          (int (pos 3))
          c
          s
          1
        ≡ seasonal_first sample
            (hw_additive_functions sample size)
            (def hwpredict 0)
            (def seasonal 0)
            primary
            (int (pos 3))
            c
            s
            0)
seasonal-hwpredict_example =
    seasonal-hwpredict sample (hw_additive_functions sample size) (λ defs alpha v w c. refl)
      (def hwpredict 0) (def seasonal 0) primary (int (pos 3)) (cdp (int (pos 9)) (int (pos 5)))
      (cdp (int (pos 9)) (int (pos 2))) refl refl refl

-- the archives HWPREDICT, SEASONAL, DEVSEASONAL and FAILURES, in this order
abbrev defs : ℕ → HwDef sample
defs zero = def hwpredict 1
defs (suc zero) = def seasonal 0
defs (suc (suc zero)) = def devseasonal 0
defs _ = def failures 2

-- the observation: the forecast is 5 + 1 + 0, the deviation 1, so 9 is a violation and 6 is not
abbrev seen : Number → ℕ → CdpPrep Number
seen value zero = cdp value (int (pos 5))
seen value (suc zero) = cdp value (int (pos 0))
seen value (suc (suc zero)) = cdp value (int (pos 1))
seen value _ = cdp value nan

abbrev calm : CdpPrep Number
calm = record (cdp nan nan) { violations = 0 ∷ 0 ∷ 0 ∷ 0 ∷ [] }

update_failures-window_example :
    let f = hw_additive_functions sample size in
    let before =
      after_all sample f defs 3 primary (seen (int (pos 9)) ∷ seen (int (pos 6)) ∷ []) calm in
    let t = after_one sample f defs 3 primary (seen (int (pos 9))) before in
    (take 3 t.violations ≡ 1 ∷ 0 ∷ 1 ∷ []) × (t.primary_val ≡ int (pos 1))
unfolding update_failures add mul ◌+ℤ◌ ◌-ℤ◌ ◌*ℤ◌
update_failures-window_example =
    update_failures-window sample (hw_additive_functions sample size) defs 3 primary 2
      (seen (int (pos 9)) ∷ seen (int (pos 6)) ∷ []) (seen (int (pos 9))) calm refl (omega arith)
