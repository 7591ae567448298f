-- ===== src/Update/Rows/Times.antt =====
-- The times under which `write_to_rras` of rrdtool-1.4.5/src/rrd_update.c reports the rows it
-- writes (`rra_time`, which `rrd_update_v` returns).
use administracion_servicios.Prelude.{zero, suc, ℕ, ◌+◌, ◌-◌, ◌*◌, ◌%◌, ◌^◌, ◌≤◌, ◌<◌, ◌≡◌, arith}
use administracion_servicios.Update.Rows.{primary, secondary, rra_time}

-- In a round with `step_cnt` rows left, this one included, the row stands for the time `step_cnt -
-- 1` steps before the last step boundary. Where these times are not negative and fit 64 bits, the
-- first row of an update is reported under that time, and a row behind it one step later.
pub rra_time_late :
    (current_time step_time step_cnt : ℕ)
    → 0 < step_time
    → 0 < step_cnt
    → (step_cnt - 1) * step_time ≤ current_time - current_time % step_time
    → current_time + step_time < 2 ^ 64
    → step_cnt < 2 ^ 64
    → (rra_time current_time step_time step_cnt primary + (step_cnt - 1) * step_time
        ≡ current_time - current_time % step_time)
      × (rra_time current_time step_time step_cnt secondary + (step_cnt - 1) * step_time
          ≡ current_time - current_time % step_time + step_time)
unfolding rra_time
rra_time_late ct st zero a b c d e = absurd (omega arith)
rra_time_late ct st (suc zero) a b c d e = omega arith
rra_time_late ct st (suc (suc n)) a b c d e =
    let one : (suc (suc n) + 2 ^ 64 - 1) % 2 ^ 64 ≡ suc n = omega arith in
    let two : (suc (suc n) + 2 ^ 64 - 2) % 2 ^ 64 ≡ n = omega arith in
    let left : suc (suc n) - 1 ≡ suc n = omega arith in
    let bound : suc n * st ≤ ct - ct % st = rw left at c in
    (rw (one, left) (omega arith), rw (two, left) (omega arith))
