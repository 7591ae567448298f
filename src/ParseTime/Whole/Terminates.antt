-- ===== src/ParseTime/Whole/Terminates.antt =====
-- The way of `rrd_parsetime` in rrdtool-1.4.5/src/rrd_parsetime.c to its result.
use administracion_servicios.Prelude.{
  ℕ, suc, ◌<◌, ◌≢◌, not, ◌&&◌, ◌||◌, Option, none, some, List, length, arith,
}
use administracion_servicios.Prelude.Int.{ℤ, pos, negsuc}
use administracion_servicios.ParseTime.{
  Symbol, number, plus, minus, epoch, start, end, now, teatime, noon, midnight, TimeType,
  relative_to_epoch, relative_to_start_time, relative_to_end_time, TimeValue, Calendar, token,
  init_scanner, various_words, is_number, out_of_fuel, Tm, broken_down,
}
use administracion_servicios.Fetch.{eqb_ℤ}
use administracion_servicios.ParseTime.Day.{Progress, month_of}
use administracion_servicios.ParseTime.Whole.{
  keep_relative, at_now, marked, tod_behind, numeric_time, month_time, at_hour, from_month,
  reference_for, offsets, concluded, normalized, rrd_parsetime, starts_offset, is_eof, is_absolute,
}
use administracion_servicios.ParseTime.Ends.{
  Ends, holds, fails, breaks, Ends-bind, Ends-if, Ends-out_of_fuel,
}
use administracion_servicios.ParseTime.Whole.Within.{first-Within}
use administracion_servicios.ParseTime.Whole.Fuel.{offset_loop-Ends}
use administracion_servicios.ParseTime.Whole.DayEnds.{Fits, Any, next, tod-Ends, day_for-Ends}

module _ (n : ℕ) where
  keep_relative-Ends : (k : TimeType) (p : Progress) → Fits n p → Ends (Fits n) (keep_relative k p)
  unfolding keep_relative
  keep_relative-Ends k (v, sc) h =
      Ends-if (starts_offset (token sc).sc_tokid) (λ _. holds (next n sc h)) (λ _. fails)

  at_now-Ends : (p : Progress) → Fits n p → Ends (Fits n) (at_now p)
  unfolding at_now
  at_now-Ends (v, sc) h =
      Ends-if (starts_offset (token sc).sc_tokid || is_eof (token sc).sc_tokid)
        (λ _. holds (next n sc h)) (λ _. fails)

  tod_behind-Ends : (p : Progress) → Fits n p → Ends (Fits n) (tod_behind p)
  tod_behind-Ends (v, sc) h =
      Ends-if (eqb_ℤ v.tm.tm_hour (pos 30) && not (eqb_ℤ v.tm.tm_year (pos 30000)))
        (λ _. tod-Ends n (v, sc) h) (λ _. holds h)

  numeric_time-Ends :
      (cal : Calendar) (p : Progress) → Fits n p → Ends (Fits n) (numeric_time cal p)
  unfolding numeric_time
  numeric_time-Ends cal (v, sc) h = Ends-bind (tod-Ends n (marked v, sc) h) (λ p hp.
      Ends-bind (day_for-Ends n p.1.sc_tokid cal p hp)
        (λ q hq. Ends-bind (tod_behind-Ends q hq) (λ r hr. holds hr)))

  month_time-Ends : (cal : Calendar) (p : Progress) → Fits n p → Ends (Fits n) (month_time cal p)
  unfolding month_time
  month_time-Ends cal p h =
      Ends-bind (day_for-Ends n p.1.sc_tokid cal p h)
        (λ q hq. Ends-if (is_number q.1.sc_tokid) (λ _. tod-Ends n q hq) (λ _. holds hq))

  at_hour-Ends :
      (i : ℕ) (cal : Calendar) (p : Progress) → Fits n p → Ends (Fits n) (at_hour i cal p)
  unfolding at_hour
  at_hour-Ends i cal (v, sc) h = day_for-Ends n (token sc).sc_tokid cal (_, token sc) (next n sc h)

  from_month-Ends :
      (o : Option ℕ) (cal : Calendar) (p : Progress) → Fits n p → Ends (Fits n) (from_month o cal p)
  from_month-Ends (some _) cal p h = month_time-Ends cal p h
  from_month-Ends none cal p h = fails

  reference_for-Ends :
      (k : Symbol) (cal : Calendar) (p : Progress)
      → Fits n p
      → Ends (Fits n) (reference_for k cal p)
  unfolding reference_for
  reference_for-Ends plus cal p h = holds h
  reference_for-Ends minus cal p h = holds h
  reference_for-Ends epoch cal p h = keep_relative-Ends relative_to_epoch p h
  reference_for-Ends start cal p h = keep_relative-Ends relative_to_start_time p h
  reference_for-Ends end cal p h = keep_relative-Ends relative_to_end_time p h
  reference_for-Ends now cal p h = at_now-Ends p h
  reference_for-Ends number cal p h = numeric_time-Ends cal p h
  reference_for-Ends teatime cal p h = at_hour-Ends 16 cal p h
  reference_for-Ends noon cal p h = at_hour-Ends 12 cal p h
  reference_for-Ends midnight cal p h = at_hour-Ends 0 cal p h
  reference_for-Ends other cal p h = from_month-Ends (month_of other) cal p h

  offsets-Ends :
      (fuel : ℕ) (op : Symbol) (prev : Option Symbol) (p : Progress)
      → Fits n p
      → suc n < fuel
      → Ends (Fits n) (offsets fuel op prev p)
  unfolding offsets
  offsets-Ends fuel op prev (v, sc) h l =
      Ends-if (starts_offset sc.sc_tokid)
        (λ _. Ends-bind (offset_loop-Ends fuel n _ h l) (λ s hs. holds hs)) (λ _. holds h)

normalized-Ends : (cal : Calendar) (v : TimeValue) → Ends Any (normalized cal v)
normalized-Ends cal v =
    Ends-if (is_absolute v.kind)
      (λ _. Ends-if (eqb_ℤ (cal.mktime v.tm).1 (negsuc 0)) (λ _. fails) (λ _. holds tt))
      (λ _. holds tt)

broken_down-Ends : (o : Option Tm) → Ends Any (broken_down o)
broken_down-Ends none = breaks
broken_down-Ends (some t) = holds tt

concluded-Ends : (cal : Calendar) (p : Progress) → Ends Any (concluded cal p)
concluded-Ends cal (v, sc) = Ends-if (is_eof sc.sc_tokid) (λ _. normalized-Ends cal v) (λ _. fails)

-- On every text, whatever the static variables hold and the calendar says, the loop of
-- `rrd_parsetime` over the offsets ends within the rounds it is given: the function comes to a value
-- or to a message, or before that to a point that C leaves undefined, which is where `localtime`
-- has given NULL or a number does not fit.
pub rrd_parsetime_ends :
    (cal : Calendar) (at : ℤ) (op : Symbol) (prev : Option Symbol) (tspec : List ℕ)
    → rrd_parsetime cal at op prev tspec ≢ out_of_fuel
unfolding rrd_parsetime
rrd_parsetime_ends cal at op prev tspec =
    let n = length tspec in
    let w = (first-Within various_words tspec).0 in
    Ends-out_of_fuel (
      Ends-bind (broken_down-Ends (cal.localtime at)) (λ t _.
        Ends-bind (reference_for-Ends n _ cal (_, token (init_scanner various_words tspec)) w)
          (λ p hp.
            Ends-bind (offsets-Ends n (suc (suc n)) op prev p hp (omega arith))
              (λ q hq. concluded-Ends cal q))))
