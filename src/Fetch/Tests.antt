-- ===== src/Fetch/Tests.antt =====
-- The fetch of rrdtool-1.4.5/src/rrd_fetch.c from an archive of three rows of one value, which was
-- last updated in second 1000: the newest row is that of second 900.
use administracion_servicios.Prelude.{
  ℕ, zero, suc, ◌+◌, ◌*◌, ◌/◌, ◌-◌, ◌<◌, ◌≡◌, ◌⊎◌, refl, true, false, List, [], ◌∷◌, some, none,
  arith, get_or, get_elem?,
}
use administracion_servicios.Rrd.{CdpPrep}
use administracion_servicios.Rrd.File.{RrdFile}
use administracion_servicios.Update.Rows.{primary, secondary, Archive, Rows, write_rows}
use administracion_servicios.Update.Rows.Ring.{History, pushes, row_of, slot}
use administracion_servicios.Prelude.Int.{pos}
use administracion_servicios.Fetch.{
  Source, fetch_from, round_request, Candidate, choose, search_rras, consider,
}
use administracion_servicios.Fetch.Choose.{IsBestFull, NoFull, choose-IsBestFull}
use administracion_servicios.Fetch.Rows.{Archived}
use administracion_servicios.Fetch.Window.{rows_of_steps, fetch_from-steps}
use administracion_servicios.Fetch.RoundTrip.{source_of, write_rows-fetch_from}

abbrev source : Source ℕ
source = record { rra_base = 0; row_cnt = 3; ds_cnt = 1; dnan = 99 }

abbrev file : RrdFile ℕ
file = record { values = 5 ∷ 6 ∷ 4 ∷ []; pos = 0 }

-- newest first: 6, 5, 4
abbrev history : History ℕ
history zero ds = 6
history (suc zero) ds = 5
history (suc (suc k)) ds = 4

cell : (k ds : ℕ) → k < 3 → ds < 1 → get_or file.values (0 + 1 * slot 3 1 k + ds) 99 ≡ history k ds
cell zero zero l m = refl
cell (suc zero) zero l m = refl
cell (suc (suc zero)) zero l m = refl
cell (suc (suc (suc k))) zero l m = absurd (omega arith)
cell k (suc ds) l m = absurd (omega arith)

file-Archived : Archived source 1 file.values history
file-Archived = record {
  inside = omega arith;
  in_range = omega arith;
  cells = λ k ds l m. cell k ds l m;
}

-- from second 100 to second 1000: the rows of seconds 300, 600 and 900, and an unknown one
fetch_from-steps_example :
    fetch_from source 1 1000 file (round_request 100 1000 300) ≡ some (4 ∷ 5 ∷ 6 ∷ 99 ∷ [])
fetch_from-steps_example =
    fetch_from-steps source history 1 100 1000 300 1000 file (omega arith) file-Archived

abbrev cdp : CdpPrep ℕ
cdp = record {
  cdp_val = 0;
  unkn_pdp_cnt = 0;
  hw_intercept = 0;
  hw_last_intercept = 0;
  hw_slope = 0;
  hw_last_slope = 0;
  null_count = 0;
  last_null_count = 0;
  primary_val = 7;
  secondary_val = 8;
  violations = [];
}

abbrev archive : Archive ℕ
archive = record {
  rra_start = 0;
  row_cnt = 3;
  ds_cnt = 1;
  cdps = cdp ∷ [];
  skip_update = false;
  current_time = 1600;
  step_time = 300;
}

abbrev before : Rows ℕ
before = record { cur_row = 1; file = file; summary = [] }

write_rows-fetch_from_example :
    (s' : Rows ℕ) × (write_rows 2 primary archive before ≡ some s')
    × ((start end step last_up : ℕ)
        → 0 < step
        → fetch_from
            (source_of 99 archive)
            s'.cur_row
            last_up
            s'.file
            (round_request start end step)
          ≡ some (
              rows_of_steps
                (source_of 99 archive)
                (pushes 2 (row_of 99 archive primary) (row_of 99 archive secondary) history)
                (last_up / step)
                (end / step + 1 - start / step)
                (start / step + 1)))
write_rows-fetch_from_example =
    write_rows-fetch_from 99 archive 2 before history refl
      (record { inside = omega arith; width = refl; rows = omega arith })
      (record { in_range = omega arith; cells = λ k ds l m. cell k ds l m })

-- two archives of 300 and of 3600 seconds, of which the second alone goes back to second 5000
abbrev archives : List Candidate
archives =
    record { cf_matches = true; rra_step = 300; cal_start = pos 9000 }
    ∷ record { cf_matches = true; rra_step = 3600; cal_start = pos 1000 }
    ∷ []

second_chosen : choose 5000 9500 300 archives ≡ some 1
unfolding choose search_rras consider
second_chosen = refl

choose-IsBestFull_example :
    ((k : ℕ)
      → choose 5000 9500 300 archives ≡ some k
      → IsBestFull 5000 9500 300 archives k
        ⊎ (NoFull 5000 9500 300 archives
            × ((c : Candidate) × (get_elem? archives k ≡ some c) × (c.cf_matches ≡ true))))
    × (choose 5000 9500 300 archives ≡ none
        → (j : ℕ) (c : Candidate) → get_elem? archives j ≡ some c
        → c.cf_matches ≡ false)
choose-IsBestFull_example = choose-IsBestFull 5000 9500 300 archives
