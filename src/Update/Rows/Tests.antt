-- ===== src/Update/Rows/Tests.antt =====
-- The rows of rrdtool-1.4.5/src/rrd_update.c written to a file of one archive with three rows of
-- one value each, and the times reported for them.
use administracion_servicios.Prelude.{
  ℕ, zero, suc, ◌+◌, ◌-◌, ◌*◌, ◌%◌, ◌≡◌, ◌<◌, refl, false, List, [], ◌∷◌, some, length, arith,
  get_or,
}
use administracion_servicios.Rrd.{Rra, CdpPrep, average}
use administracion_servicios.Rrd.File.{RrdFile}
use administracion_servicios.Update.Rows.{primary, secondary, Pending, write_to_rras, rra_time}
use administracion_servicios.Update.Rows.Ring.{History, Fits, Holds, slot}
use administracion_servicios.Update.Rows.Archives.{placed, After, write_to_rras-After}
use administracion_servicios.Update.Rows.Times.{rra_time_late}

abbrev cdp : CdpPrep ℕ
cdp = record {
  cdp_val = 0;
  unkn_pdp_cnt = 0;
  hw_intercept = 0;
  hw_last_intercept = 0;
  hw_slope = 0;
  hw_last_slope = 0;
  null_count = 0;
  last_null_count = 0;
  primary_val = 7;
  secondary_val = 8;
  violations = [];
}

abbrev archive : Rra ℕ
archive = record {
  def = record {
    cf = average;
    row_cnt = 3;
    pdp_cnt = 1;
    xff = 0;
    seasonal_smooth_idx = 0;
    window_len = 0;
  };
  cur_row = 1;
  cdp_prep = cdp ∷ [];
}

abbrev pending : Pending ℕ
pending = record { rra = archive; step_cnt = 2; skip_update = false }

abbrev file : RrdFile ℕ
file = record { values = 5 ∷ 6 ∷ 4 ∷ []; pos = 0 }

-- newest first: 6, 5, 4
abbrev history : History ℕ
history zero ds = 6
history (suc zero) ds = 5
history (suc (suc k)) ds = 4

pending-Fits : Fits 0 (placed 0 300 1 900 0 pending) file
pending-Fits = record { inside = omega arith; width = refl; rows = omega arith }

pending-Holds : Holds 0 (placed 0 300 1 900 0 pending) 1 file history
pending-Holds = record { in_range = omega arith; cells = λ k ds l m. cell k ds l m }
  where
    cell :
        (k ds : ℕ) → k < 3 → ds < 1 → get_or file.values (0 + 1 * slot 3 1 k + ds) 0 ≡ history k ds
    cell zero zero l m = refl
    cell (suc zero) zero l m = refl
    cell (suc (suc zero)) zero l m = refl
    cell (suc (suc (suc k))) zero l m = absurd (omega arith)
    cell k (suc ds) l m = absurd (omega arith)

write_to_rras-After_example :
    (rs : List (Rra ℕ)) × (g : RrdFile ℕ) × (times' : List ℕ) × (write_to_rras 300 1 900 0
        (pending ∷ [])
        file
        []
      ≡ some (rs, g, times'))
    × After 0 300 1 900 0 (pending ∷ []) rs (history ∷ []) g
    × (length g.values ≡ 3)
    × ((q : ℕ) → q < 0 → get_or g.values q 0 ≡ get_or file.values q 0)
write_to_rras-After_example =
    write_to_rras-After 0 300 1 900 0 (pending ∷ []) (history ∷ []) file []
      (refl, pending-Fits, pending-Holds, tt)

rra_time_late_example :
    (rra_time 1000 300 2 primary + (2 - 1) * 300 ≡ 1000 - 1000 % 300)
    × (rra_time 1000 300 2 secondary + (2 - 1) * 300 ≡ 1000 - 1000 % 300 + 300)
rra_time_late_example =
    rra_time_late 1000 300 2 (omega arith) (omega arith) (omega arith) (omega arith) (omega arith)
