-- ===== src/ParseTime/Whole.antt =====
-- `rrd_parsetime` and `rrd_proc_start_end` of rrdtool-1.4.5/src/rrd_parsetime.c. The time of the
-- system and its calendar are parameters. `offset_loop` runs on fuel, two rounds more than the text
-- has bytes, which is enough since a round reads a byte and the last one none.
pub mod Within
pub mod Fuel
pub mod DayEnds
pub mod Terminates
pub mod Meaning
pub mod Items
pub mod Groups
pub mod StartEnd
use administracion_servicios.Prelude.{
  ℕ, suc, ◌+◌, ◌*◌, Bool, true, false, not, ◌&&◌, ◌||◌, Option, none, some, List, [], ◌==◌,
  if◌then◌else◌, length,
}
use administracion_servicios.Prelude.Int.{ℤ, pos, negsuc, ◌+ℤ◌}
use administracion_servicios.ParseTime.{
  Symbol, midnight, noon, teatime, now, start, end, epoch, number, plus, minus, eof, Tm, TimeType,
  absolute_time, relative_to_start_time, relative_to_end_time, relative_to_epoch, TimeValue,
  Calendar, Scanner, token, init_scanner, various_words, time_multipliers, is_number, Parsed, ok,
  broken_down, failed, ◌>>=◌, no_offset_after_reference, no_offset_after_now, unparsable_time,
  trailing_text, incorrect_time,
}
use administracion_servicios.Fetch.{eqb_ℤ}
use administracion_servicios.ParseTime.Offset.{State, offset_loop}
use administracion_servicios.ParseTime.Day.{Progress, with_tm, tod, day, day_for, month_of}

abbrev pub starts_offset : Symbol → Bool
starts_offset plus = true
starts_offset minus = true
starts_offset _ = false

abbrev pub is_eof : Symbol → Bool
is_eof eof = true
is_eof _ = false

-- a reference other than now starts from zeros
abbrev pub zero_tm : Tm → Tm
zero_tm t = record t {
  tm_sec = pos 0;
  tm_min = pos 0;
  tm_hour = pos 0;
  tm_mday = pos 0;
  tm_mon = pos 0;
  tm_year = pos 0;
}

unfoldable pub keep_relative : TimeType → Progress → Parsed Progress
unfolding token
keep_relative kind (v, sc) =
    if starts_offset (token sc).sc_tokid
    then ok (record { kind = kind; offset = v.offset; tm = zero_tm v.tm }, token sc)
    else failed no_offset_after_reference

unfoldable pub at_now : Progress → Parsed Progress
unfolding token
at_now (v, sc) =
    if starts_offset (token sc).sc_tokid || is_eof (token sc).sc_tokid
    then ok (v, token sc)
    else failed no_offset_after_now

-- the marks that tell whether `tod` and `day` have set the hour and the year
abbrev pub marked : TimeValue → TimeValue
marked v = with_tm v (record v.tm { tm_hour = pos 30; tm_year = pos 30000 })

abbrev pub unmarked : TimeValue → TimeValue → TimeValue
unmarked old v = with_tm v (record v.tm {
  tm_hour = if eqb_ℤ v.tm.tm_hour (pos 30) then old.tm.tm_hour else v.tm.tm_hour;
  tm_year = if eqb_ℤ v.tm.tm_year (pos 30000) then old.tm.tm_year else v.tm.tm_year;
})

-- the second chance of the time of day, behind a date
abbrev pub tod_behind : Progress → Parsed Progress
tod_behind (v, sc) =
    if eqb_ℤ v.tm.tm_hour (pos 30) && not (eqb_ℤ v.tm.tm_year (pos 30000))
    then tod (v, sc)
    else ok (v, sc)

unfoldable pub numeric_time : Calendar → Progress → Parsed Progress
unfolding tod day_for
numeric_time cal (v, sc) = tod (marked v, sc) >>= λ p.
    day cal p >>= λ q. tod_behind q >>= λ (w, sc'). ok (unmarked v w, sc')

unfoldable pub month_time : Calendar → Progress → Parsed Progress
unfolding tod day_for
month_time cal p =
    day cal p >>= λ (v, sc). if is_number sc.sc_tokid then tod (v, sc) else ok (v, sc)

unfoldable pub at_hour : ℕ → Calendar → Progress → Parsed Progress
unfolding token day_for
at_hour hr cal (v, sc) =
    day cal (with_tm v (record v.tm { tm_hour = pos hr; tm_min = pos 0; tm_sec = pos 0 }), token sc)

abbrev pub from_month : Option ℕ → Calendar → Progress → Parsed Progress
from_month (some _) cal p = month_time cal p
from_month none cal p = failed unparsable_time

-- the switch over the first token
unfoldable pub reference_for : Symbol → Calendar → Progress → Parsed Progress
unfolding keep_relative at_now numeric_time month_time at_hour
reference_for plus cal p = ok p
reference_for minus cal p = ok p
reference_for epoch cal p = keep_relative relative_to_epoch p
reference_for start cal p = keep_relative relative_to_start_time p
reference_for end cal p = keep_relative relative_to_end_time p
reference_for now cal p = at_now p
reference_for number cal p = numeric_time cal p
reference_for teatime cal p = at_hour 16 cal p
reference_for noon cal p = at_hour 12 cal p
reference_for midnight cal p = at_hour 0 cal p
reference_for other cal p = from_month (month_of other) cal p

abbrev pub reference : Calendar → Progress → Parsed Progress
reference cal p = reference_for p.1.sc_tokid cal p

-- the static variables of `plus_minus` hold what the last call left
unfoldable pub offsets : ℕ → Symbol → Option Symbol → Progress → Parsed Progress
unfolding offset_loop
offsets fuel op prev (v, sc) =
    if starts_offset sc.sc_tokid
    then (offset_loop fuel (record {
      ptv = v;
      scanner = record sc { specials = time_multipliers };
      op = op;
      prev_multiplier = prev;
    })
        >>= λ s. ok (s.ptv, s.scanner))
    else ok (v, sc)

abbrev pub is_absolute : TimeType → Bool
is_absolute absolute_time = true
is_absolute _ = false

abbrev pub normalized : Calendar → TimeValue → Parsed TimeValue
normalized cal v =
    let (t, at) = cal.mktime v.tm in
    if is_absolute v.kind
    then if eqb_ℤ at (negsuc 0) then failed incorrect_time else ok (with_tm v t)
    else ok v

abbrev pub concluded : Calendar → Progress → Parsed TimeValue
concluded cal (v, sc) = if is_eof sc.sc_tokid then normalized cal v else failed trailing_text

-- the default reference: local time, with `mktime` to find out about daylight saving
abbrev pub at_default : Tm → TimeValue
at_default t = record {
  kind = absolute_time;
  offset = pos 0;
  tm = record t { tm_isdst = negsuc 0 };
}

unfoldable pub rrd_parsetime : Calendar → ℤ → Symbol → Option Symbol → List ℕ → Parsed TimeValue
unfolding token reference_for offsets
rrd_parsetime cal at op prev tspec = broken_down (cal.localtime at) >>= λ t.
    reference cal (at_default t, token (init_scanner various_words tspec)) >>= λ p.
    offsets (suc (suc (length tspec))) op prev p >>= λ q. concluded cal q

-- both times, or the message for one of the three errors
pub data RangeError : Type 0 where
  relative_to_each_other start_relative_to_itself end_relative_to_itself : RangeError

pub data Range : Type 0 where
  times : ℤ → ℤ → Range
  refused : RangeError → Range
  -- the NULL of `localtime` is read
  no_local_time : Range

-- `mktime` with the offset behind it
unfoldable pub time_of : Calendar → TimeValue → ℤ
unfolding ◌+ℤ◌
time_of cal v = (cal.mktime v.tm).1 +ℤ v.offset

-- a time relative to another one
abbrev pub moved : Tm → ℤ → ℤ → ℤ → Tm
moved t mday month year = record t {
  tm_mday = t.tm_mday +ℤ mday;
  tm_mon = t.tm_mon +ℤ month;
  tm_year = t.tm_year +ℤ year;
}

unfoldable pub time_from : Calendar → Tm → TimeValue → ℤ
unfolding ◌+ℤ◌
time_from cal t v = (cal.mktime (moved t v.tm.tm_mday v.tm.tm_mon v.tm.tm_year)).1 +ℤ v.offset

abbrev pub with_local : Option Tm → (Tm → Range) → Range
with_local none f = no_local_time
with_local (some t) f = f t

-- the value with its fields as `mktime` has left them
abbrev pub again : Calendar → TimeValue → TimeValue
again cal v = with_tm v (cal.mktime v.tm).0

-- by the kinds of the start and of the end
unfoldable pub times_for : TimeType → TimeType → Calendar → TimeValue → TimeValue → Range
unfolding time_of time_from
times_for relative_to_end_time relative_to_start_time cal start_tv end_tv =
    refused relative_to_each_other
times_for relative_to_start_time _ cal start_tv end_tv = refused start_relative_to_itself
times_for _ relative_to_end_time cal start_tv end_tv = refused end_relative_to_itself
times_for relative_to_end_time _ cal start_tv end_tv =
    with_local (cal.localtime (time_of cal end_tv))
      (λ t. times (time_from cal t start_tv) (time_of cal (again cal end_tv)))
times_for _ relative_to_start_time cal start_tv end_tv =
    let begin = time_of cal (again cal start_tv) in
    with_local (cal.localtime begin) (λ t. times begin (time_from cal t end_tv))
times_for _ _ cal start_tv end_tv = times (time_of cal start_tv) (time_of cal end_tv)

unfoldable pub rrd_proc_start_end : Calendar → TimeValue → TimeValue → Range
unfolding times_for
rrd_proc_start_end cal start_tv end_tv = times_for start_tv.kind end_tv.kind cal start_tv end_tv
