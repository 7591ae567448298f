-- ===== src/Update/Pdp/Tests.antt =====
-- `process_pdp_st` of rrdtool-1.4.5/src/rrd_update.c after two updates of 100 seconds, one of them
-- unknown, in a step of 300 seconds.
use administracion_servicios.Prelude.{ℕ, ◌≡◌, refl, Option, none, some, List, [], ◌∷◌, set}
use administracion_servicios.Prelude.Int.{pos}
use administracion_servicios.Double.Sample.{Number, int, nan, sample}
use administracion_servicios.Rrd.{DsDef, PdpPrep, gauge}
use administracion_servicios.Update.Pdp.{Closing, process_pdp_st, next_prep}
use administracion_servicios.Update.Pdp.Series.{updates, known_sum, rate_of, process_pdp_st-updates}

abbrev no_rpn : List Number → ℕ → Option Number
no_rpn temp i = none

abbrev source : DsDef Number
source = record { ds_nam = []; dst = gauge; mrhb_cnt = 600; min_val = nan; max_val = nan }

abbrev prep : PdpPrep Number
prep = record { last_ds = []; unkn_sec_cnt = 0; pdp_val = int (pos 0) }

abbrev closing : Closing sample
closing = record {
  interval = int (pos 100);
  pre_int = int (pos 100);
  post_int = int (pos 0);
  diff_pdp_st = 300;
}

abbrev series : List (Number × Number)
series = (int (pos 100), int (pos 500)) ∷ (int (pos 100), nan) ∷ []

process_pdp_st-updates_example :
    process_pdp_st sample no_rpn 300 closing 0 source
      (int (pos 700))
      (updates sample series prep)
      (nan ∷ [])
    ≡ some (
      set (nan ∷ []) 0 (
          rate_of sample 300 600 closing
            (int (pos 700))
            100
            (known_sum sample (int (pos 0)) series)),
      next_prep sample closing (int (pos 700)) (updates sample series prep),
    )
unfolding next_prep
process_pdp_st-updates_example =
    process_pdp_st-updates sample no_rpn 300 closing 0 source (int (pos 700)) series prep (nan ∷ [])
      refl
