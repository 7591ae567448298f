-- ===== src/Update/Prep/Tests.antt =====
-- `update_all_cdp_prep` of rrdtool-1.4.5/src/rrd_update.c on an archive of averages of two points and
-- one of seasonal coefficients, after two steps.
use administracion_servicios.Prelude.{◌≡◌, refl, true, false, List, [], ◌∷◌, some, arith}
use administracion_servicios.Prelude.Int.{pos}
use administracion_servicios.Double.Sample.{Number, int, nan, sample}
use administracion_servicios.Rrd.{Rra, CdpPrep, average, seasonal}
use administracion_servicios.Rrd.File.{RrdFile, rrd_seek, rrd_read}
use administracion_servicios.Update.Rows.{Pending}
use administracion_servicios.Update.Steps.{rra_step_cnt}
use administracion_servicios.Update.Cdp.{do_schedule_smooth}
use administracion_servicios.Update.Prep.{
  Elapsing, Season, update_cdp_prep, seasonal_block, lookup_seasonal, update_all_cdp_prep,
}
use administracion_servicios.Update.Prep.Counts.{ArePrepared, update_all_cdp_prep-ArePrepared}

abbrev cdp : CdpPrep Number
cdp = record {
  cdp_val = nan;
  unkn_pdp_cnt = 0;
  hw_intercept = nan;
  hw_last_intercept = nan;
  hw_slope = nan;
  hw_last_slope = nan;
  null_count = 0;
  last_null_count = 0;
  primary_val = nan;
  secondary_val = nan;
  violations = [];
}

abbrev averages : Rra Number
averages = record {
  def = record {
    cf = average;
    row_cnt = 3;
    pdp_cnt = 2;
    xff = int (pos 1);
    seasonal_smooth_idx = 0;
    window_len = 0;
  };
  cur_row = 1;
  cdp_prep = cdp ∷ [];
}

abbrev seasons : Rra Number
seasons = record {
  def = record {
    cf = seasonal;
    row_cnt = 4;
    pdp_cnt = 1;
    xff = int (pos 1);
    seasonal_smooth_idx = 2;
    window_len = 0;
  };
  cur_row = 0;
  cdp_prep = cdp ∷ [];
}

abbrev elapsing : Elapsing sample
elapsing = record { ds_cnt = 1; elapsed_pdp_st = 2; proc_pdp_cnt = 7; pdp_temp = int (pos 5) ∷ [] }

abbrev file : RrdFile Number
file = record {
  values = nan ∷ nan ∷ nan ∷ int (pos 1) ∷ int (pos 2) ∷ int (pos 3) ∷ int (pos 4) ∷ [];
  pos = 0;
}

abbrev season : Season sample
season = record {
  last_seasonal_coef = [];
  seasonal_coef = [];
  schedule_smooth = false;
  file = file;
}

abbrev after : Season sample
after = record season {
  last_seasonal_coef = int (pos 3) ∷ [];
  seasonal_coef = int (pos 4) ∷ [];
  file = record file { pos = 7 };
}

abbrev prepared : List (Pending Number)
prepared =
    record {
      rra = record averages {
        cdp_prep = update_cdp_prep sample elapsing season averages 0 (cdp ∷ []);
      };
      step_cnt = 1;
      skip_update = false;
    }
    ∷ record {
      rra = record seasons {
        cdp_prep = update_cdp_prep sample elapsing after seasons 0 (cdp ∷ []);
      };
      step_cnt = 2;
      skip_update = true;
    }
    ∷ []

two_steps :
    update_all_cdp_prep sample elapsing 0 (averages ∷ seasons ∷ []) season ≡ some (prepared, after)
unfolding update_all_cdp_prep seasonal_block lookup_seasonal rra_step_cnt rrd_seek rrd_read
    do_schedule_smooth
two_steps = refl

update_all_cdp_prep-ArePrepared_example :
    ArePrepared sample elapsing (averages ∷ seasons ∷ []) prepared
    × (after.file.values ≡ file.values)
update_all_cdp_prep-ArePrepared_example =
    update_all_cdp_prep-ArePrepared sample elapsing 0 (averages ∷ seasons ∷ []) season after
      prepared (omega arith, (omega arith, tt)) two_steps
