-- ===== src/Update/Cdp.antt =====
-- The consolidation of primary data points, rrdtool-1.4.5/src/rrd_update.c: `update_cdp` and its
-- parts, `reset_cdp` with `erase_violations` of rrdtool-1.4.5/src/rrd_hw.c, and
-- `do_schedule_smooth`. A function that writes through its pointers returns the new record.
pub mod Window
mod Tests
use administracion_servicios.Prelude.{
  ℕ, zero, suc, ◌+◌, ◌-◌, ◌*◌, ◌%◌, Bool, true, false, ◌&&◌, ◌||◌, List, [], ◌∷◌, ltb, leb, ◌==◌,
  if◌then◌else◌, set,
}
use administracion_servicios.Double.{Double}
use administracion_servicios.Rrd.{
  Cf, average, minimum, maximum, last, hwpredict, seasonal, devpredict, devseasonal, failures,
  mhwpredict, CdpPrep,
}
use administracion_servicios.Update.Rows.{sub_word}

module _ (F : Double) where
  open F use {V, isnan, nan, inf, neg_inf, add, div, mul, lt, of_ℕ}

  -- IFDNAN(X, Y)
  abbrev pub ifdnan : V → V → V
  ifdnan x y = if isnan x then y else x

  -- `initialize_cdp_val`
  unfoldable pub initialize_cdp_val : CdpPrep V → Cf → V → ℕ → ℕ → CdpPrep V
  initialize_cdp_val c average pdp_temp_val start_pdp_offset pdp_cnt =
      let cum_val = ifdnan c.cdp_val (of_ℕ 0) in
      let cur_val = ifdnan pdp_temp_val (of_ℕ 0) in
      record c {
        primary_val =
            div (add cum_val (mul cur_val (of_ℕ start_pdp_offset)))
              (of_ℕ (sub_word pdp_cnt c.unkn_pdp_cnt));
      }
  initialize_cdp_val c maximum pdp_temp_val start_pdp_offset pdp_cnt =
      let cum_val = ifdnan c.cdp_val neg_inf in
      let cur_val = ifdnan pdp_temp_val neg_inf in
      record c { primary_val = if lt cum_val cur_val then cur_val else cum_val }
  initialize_cdp_val c minimum pdp_temp_val start_pdp_offset pdp_cnt =
      let cum_val = ifdnan c.cdp_val inf in
      let cur_val = ifdnan pdp_temp_val inf in
      record c { primary_val = if lt cur_val cum_val then cur_val else cum_val }
  initialize_cdp_val c _ pdp_temp_val start_pdp_offset pdp_cnt = record c {
    primary_val = pdp_temp_val;
  }

  -- the values that `initialize_carry_over` gives where nothing is carried over
  abbrev pub carry_nothing : Cf → V
  carry_nothing maximum = neg_inf
  carry_nothing minimum = inf
  carry_nothing average = of_ℕ 0
  carry_nothing _ = nan

  abbrev pub carry_value : Cf → V → ℕ → V
  carry_value average v n = mul v (of_ℕ n)
  carry_value _ v n = v

  -- `initialize_carry_over`
  unfoldable pub initialize_carry_over : V → Cf → ℕ → ℕ → ℕ → V
  initialize_carry_over pdp_temp_val cf elapsed_pdp_st start_pdp_offset pdp_cnt =
      let pdp_into_cdp_cnt = (elapsed_pdp_st - start_pdp_offset) % pdp_cnt in
      if pdp_into_cdp_cnt == 0 || isnan pdp_temp_val
      then carry_nothing cf
      else carry_value cf pdp_temp_val pdp_into_cdp_cnt

  -- `calculate_cdp_val`
  unfoldable pub calculate_cdp_val : V → V → ℕ → Cf → V
  calculate_cdp_val cdp_val pdp_temp_val elapsed_pdp_st average =
      if isnan cdp_val
      then mul pdp_temp_val (of_ℕ elapsed_pdp_st)
      else add cdp_val (mul pdp_temp_val (of_ℕ elapsed_pdp_st))
  calculate_cdp_val cdp_val pdp_temp_val elapsed_pdp_st minimum =
      if isnan cdp_val
      then pdp_temp_val
      else if lt pdp_temp_val cdp_val
      then pdp_temp_val
      else cdp_val
  calculate_cdp_val cdp_val pdp_temp_val elapsed_pdp_st maximum =
      if isnan cdp_val
      then pdp_temp_val
      else if lt cdp_val pdp_temp_val
      then pdp_temp_val
      else cdp_val
  calculate_cdp_val cdp_val pdp_temp_val elapsed_pdp_st _ = pdp_temp_val

  -- the first statement of `update_cdp` where a row is due: the value of the rows behind the first
  abbrev pub fill_in : CdpPrep V → V → ℕ → CdpPrep V
  fill_in c pdp_temp_val start_pdp_offset =
      if isnan pdp_temp_val
      then record c { unkn_pdp_cnt = c.unkn_pdp_cnt + start_pdp_offset; secondary_val = nan }
      else record c { secondary_val = pdp_temp_val }

  -- the second: the value of the first row, unknown where more than the share `xff` is unknown
  abbrev pub first_row : CdpPrep V → Cf → V → ℕ → ℕ → V → CdpPrep V
  first_row c cf pdp_temp_val start_pdp_offset pdp_cnt xff =
      if lt (mul (of_ℕ pdp_cnt) xff) (of_ℕ c.unkn_pdp_cnt)
      then record c { primary_val = nan }
      else initialize_cdp_val c cf pdp_temp_val start_pdp_offset pdp_cnt

  -- `update_cdp`
  unfoldable pub update_cdp : CdpPrep V → Cf → V → ℕ → ℕ → ℕ → ℕ → V → CdpPrep V
  unfolding initialize_cdp_val initialize_carry_over calculate_cdp_val
  update_cdp c cf pdp_temp_val rra_step_cnt elapsed_pdp_st start_pdp_offset pdp_cnt xff =
      if rra_step_cnt == 0
      then (if isnan pdp_temp_val
          then record c { unkn_pdp_cnt = c.unkn_pdp_cnt + elapsed_pdp_st }
          else record c { cdp_val = calculate_cdp_val c.cdp_val pdp_temp_val elapsed_pdp_st cf })
      else (let c' =
            first_row (fill_in c pdp_temp_val start_pdp_offset) cf pdp_temp_val start_pdp_offset
              pdp_cnt xff in
          record c' {
            cdp_val = initialize_carry_over pdp_temp_val cf elapsed_pdp_st start_pdp_offset pdp_cnt;
            unkn_pdp_cnt =
                if isnan pdp_temp_val then (elapsed_pdp_st - start_pdp_offset) % pdp_cnt else 0;
          })

  -- the loop of `erase_violations`, from index `i - 1` down
  unfoldable pub erase_violations : ℕ → List ℕ → List ℕ
  erase_violations zero violations_array = violations_array
  erase_violations (suc i) violations_array = erase_violations i (set violations_array i 0)

  -- `reset_cdp`, with `last_seasonal_coef` and `seasonal_coef` at the data source
  unfoldable pub reset_cdp : CdpPrep V → Cf → ℕ → V → V → V → ℕ → CdpPrep V
  unfolding erase_violations
  reset_cdp c seasonal elapsed pdp_temp last_coef coef window_len = record c {
    hw_last_intercept = last_coef;
    hw_intercept = coef;
  }
  reset_cdp c devseasonal elapsed pdp_temp last_coef coef window_len = record c {
    hw_last_intercept = last_coef;
    hw_intercept = coef;
  }
  reset_cdp c hwpredict elapsed pdp_temp last_coef coef window_len = record c {
    null_count = c.null_count + elapsed;
    last_null_count = c.last_null_count + (elapsed - 1);
    primary_val = nan;
    secondary_val = nan;
  }
  reset_cdp c mhwpredict elapsed pdp_temp last_coef coef window_len = record c {
    null_count = c.null_count + elapsed;
    last_null_count = c.last_null_count + (elapsed - 1);
    primary_val = nan;
    secondary_val = nan;
  }
  reset_cdp c devpredict elapsed pdp_temp last_coef coef window_len = record c {
    primary_val = nan;
    secondary_val = nan;
  }
  reset_cdp c failures elapsed pdp_temp last_coef coef window_len = record c {
    primary_val = of_ℕ 0;
    secondary_val = of_ℕ 0;
    violations = erase_violations window_len c.violations;
  }
  reset_cdp c _ elapsed pdp_temp last_coef coef window_len = record c {
    primary_val = pdp_temp;
    secondary_val = pdp_temp;
  }

abbrev pub burnin_cycles : ℕ
burnin_cycles = 3

-- `do_schedule_smooth`: whether a smooth is due, and the burn-in position `init_seasonal`, which
-- is kept in the first data source's entry. `++(*init_seasonal)` is never 0 below 2^64.
unfoldable pub do_schedule_smooth : ℕ → ℕ → ℕ → ℕ → ℕ → Bool × ℕ
do_schedule_smooth cur_row row_cnt seasonal_smooth_idx init_seasonal elapsed_pdp_st =
    let reached = cur_row + elapsed_pdp_st in
    if ltb burnin_cycles init_seasonal
    then (if ltb cur_row seasonal_smooth_idx
        then (leb seasonal_smooth_idx reached, init_seasonal)
        else (leb row_cnt reached && leb (row_cnt + seasonal_smooth_idx) reached, init_seasonal))
    else if leb row_cnt reached
    then (true, init_seasonal + 1)
    else (false, init_seasonal)
