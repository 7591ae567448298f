-- ===== src/Update/Steps/Tests.antt =====
-- Counts of steps on numbers: an update at second 1215 after one at second 605, steps of 300
-- seconds, archives of two steps a row.
use administracion_servicios.Prelude.{◌+◌, ◌/◌, ◌≡◌, arith}
use administracion_servicios.Double.Sample.{sample}
use administracion_servicios.Rrd.{LiveHead}
use administracion_servicios.Update.Steps.{calculate_elapsed_steps}
use administracion_servicios.Update.Steps.Count.{elapsed-eq-boundaries}

abbrev last_update : LiveHead
last_update = record { last_up = 605; last_up_usec = 0 }

elapsed-eq-boundaries_example :
    let e = calculate_elapsed_steps sample last_update 300 1215 0 sample.nan in
    (e.proc_pdp_cnt ≡ 605 / 300) × (e.elapsed_pdp_st + 605 / 300 ≡ 1215 / 300)
elapsed-eq-boundaries_example =
    elapsed-eq-boundaries sample last_update 300 1215 0 sample.nan (omega arith) (omega arith)
      (omega arith)
