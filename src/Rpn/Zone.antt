-- ===== src/Rpn/Zone.antt =====
-- `tzoffset` of rrdtool-1.4.5/src/rrd_rpncalc.c: the difference of local time to universal time at
-- a moment, from the two broken-down times that `localtime_r` and `gmtime_r` give.
mod Tests
use administracion_servicios.Prelude.{
  ℕ, ◌+◌, ◌*◌, ◌≤◌, ◌<◌, ◌≡◌, Bool, ◌||◌, if◌then◌else◌, ltb, arith,
}
use administracion_servicios.Prelude.Int.{ℤ, pos, sub_ℕ, ◌+ℤ◌, ◌-ℤ◌}

-- `struct tm`: the fields that are read
pub record Tm : Type 0 where
  pub tm_sec : ℕ
  pub tm_min : ℕ
  pub tm_hour : ℕ
  pub tm_yday : ℕ
  pub tm_year : ℕ

-- the second of the day
abbrev pub day_seconds : Tm → ℕ
day_seconds t = t.tm_sec + t.tm_min * 60 + t.tm_hour * 3600

unfoldable pub tzoffset : Tm → Tm → ℤ
unfolding ◌+ℤ◌ ◌-ℤ◌
tzoffset gm l =
    let off = sub_ℕ (day_seconds l) (day_seconds gm) in
    if ltb gm.tm_yday l.tm_yday || ltb gm.tm_year l.tm_year
    then off +ℤ pos (24 * 3600)
    else if ltb l.tm_yday gm.tm_yday || ltb l.tm_year gm.tm_year
    then off -ℤ pos (24 * 3600)
    else off

-- Where both times are on one day, the offset is the difference of the two clocks. Where the local
-- day is the next one, in the same year or as the first of January after, it is a day more, and
-- where the local day is the one before in the same year, a day less. Where local time is still
-- in the last year, it is a day more too, that is two days more than the difference.
pub tzoffset_lem :
    (gm l : Tm)
    → let off = sub_ℕ (day_seconds l) (day_seconds gm) in
      (l.tm_year ≡ gm.tm_year → l.tm_yday ≡ gm.tm_yday → tzoffset gm l ≡ off)
      × (l.tm_year ≡ gm.tm_year → l.tm_yday ≡ gm.tm_yday + 1 → tzoffset gm l ≡ off +ℤ pos 86400)
      × (l.tm_year ≡ gm.tm_year + 1 → tzoffset gm l ≡ off +ℤ pos 86400)
      × (l.tm_year ≡ gm.tm_year → l.tm_yday + 1 ≡ gm.tm_yday → tzoffset gm l ≡ off -ℤ pos 86400)
      × (l.tm_year + 1 ≡ gm.tm_year
          → gm.tm_yday ≡ 0
          → 0 < l.tm_yday
          → tzoffset gm l ≡ off +ℤ pos 86400)
unfolding tzoffset
tzoffset_lem gm l = (
  λ a b. ground (arith, a, b),
  λ a b. ground (arith, a, b),
  λ a. ground (arith, a),
  λ a b. ground (arith, a, b),
  λ a b c. ground (arith, a, b, c),
)
