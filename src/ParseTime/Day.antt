-- ===== src/ParseTime/Day.antt =====
-- The day and the time of day of a time specification: `tod`, `assign_date` and `day` of
-- rrdtool-1.4.5/src/rrd_parsetime.c. Each takes the value under construction with the scanner.
pub mod Clock
pub mod Notations
use administracion_servicios.Prelude.{
  ℕ, suc, ◌+◌, ◌-◌, ◌*◌, ◌/◌, ◌%◌, Bool, true, false, ◌&&◌, ◌||◌, Option, none, some, List, [], ◌∷◌,
  ltb, leb, ◌==◌, if◌then◌else◌, length, take, drop,
}
use administracion_servicios.Prelude.Int.{ℤ, pos, negsuc, ◌+ℤ◌, ◌-ℤ◌, ltb_ℤ}
use administracion_servicios.ParseTime.{
  Symbol, am, pm, yesterday, today, tomorrow, number, dot, colon, slash, jan, feb, mar, apr, may,
  jun, jul, aug, sep, oct, nov, dec, sun, mon, tue, wed, thu, fri, sat, Tm, TimeValue, Calendar,
  Scanner, token, atoi, is_number, expect2, Parsed, ok, failed, undefined, ◌>>=◌, int_max, long_max,
  broken_down, no_minutes, minutes_above_59, hours_above_12, invalid_year, before_epoch,
  no_day_of_month, no_second_number, no_year_number, not_a_month, not_a_day,
}

abbrev pub Progress : Type 0
Progress = TimeValue × Scanner

-- `sprintf` with "%d" of a number below 100
abbrev pub printed : ℕ → List ℕ
printed n = if ltb n 10 then (b'0' + n) ∷ [] else (b'0' + n / 10) ∷ (b'0' + n % 10) ∷ []

-- the token and the place in the argument as they were
abbrev pub restore : ℕ → Scanner → Scanner → Scanner
restore hour saved sc = record sc {
  sct = saved.sct;
  sc_token = printed hour;
  sc_tokid = saved.sc_tokid;
}

abbrev pub with_tm : TimeValue → Tm → TimeValue
with_tm v t = record v { tm = t }

unfoldable pub set_clock : ℕ → ℕ → TimeValue → TimeValue
unfolding ◌+ℤ◌
set_clock hour minute v =
    if hour == 24
    then with_tm v (record v.tm {
      tm_hour = pos 0;
      tm_min = pos minute;
      tm_sec = pos 0;
      tm_mday = v.tm.tm_mday +ℤ pos 1;
    })
    else with_tm v (record v.tm { tm_hour = pos hour; tm_min = pos minute; tm_sec = pos 0 })

-- the part of `tod` behind the minutes, by the token
unfoldable pub half_day_for : Symbol → ℕ → ℕ → Scanner → Progress → Parsed Progress
unfolding token set_clock
half_day_for am hour minute sc (v, saved) =
    if ltb 12 hour
    then failed hours_above_12
    else ok (set_clock (if hour == 12 then 0 else hour) minute v, token sc)
half_day_for pm hour minute sc (v, saved) =
    if ltb 12 hour
    then failed hours_above_12
    else ok (set_clock (if hour == 12 then hour else hour + 12) minute v, token sc)
half_day_for _ hour minute sc (v, saved) =
    if ltb 23 hour then ok (v, restore hour saved sc) else ok (set_clock hour minute v, sc)

abbrev pub half_day : ℕ → ℕ → Scanner → Progress → Parsed Progress
half_day hour minute sc p = half_day_for sc.sc_tokid hour minute sc p

-- the minutes, behind a colon
unfoldable pub minutes_of : ℕ → Scanner → Progress → Parsed Progress
unfolding token half_day_for expect2
minutes_of hour sc p = expect2 no_minutes sc >>= λ sc'.
    if ltb int_max (atoi sc'.sc_token)
    then undefined
    else if ltb 59 (atoi sc'.sc_token)
    then failed minutes_above_59
    else half_day hour (atoi sc'.sc_token) (token sc') p

-- `tod` behind the hour, by the token
unfoldable pub tod_for : Symbol → ℕ → Scanner → Progress → Parsed Progress
unfolding half_day_for minutes_of
tod_for slash hour next (v, sc) = ok (v, restore hour sc next)
tod_for dot hour next (v, sc) = ok (v, restore hour sc next)
tod_for colon hour next p = minutes_of hour next p
tod_for _ hour next p = half_day hour 0 next p

unfoldable pub tod : Progress → Parsed Progress
unfolding token tod_for atoi
tod (v, sc) =
    if ltb 2 (length sc.sc_token)
    then ok (v, sc)
    else tod_for (token sc).sc_tokid (atoi sc.sc_token) (token sc) (v, sc)

abbrev pub put_date : TimeValue → ℕ → ℕ → ℤ → TimeValue
put_date v mday month year =
    with_tm v (record v.tm { tm_mday = pos mday; tm_mon = pos month; tm_year = year })

-- The years of the century, 00 to 37, count from 2000; those behind 1970 from 1900.
unfoldable pub full_year : ℤ → Parsed ℤ
unfolding ◌+ℤ◌ ◌-ℤ◌
full_year year =
    if ltb_ℤ (pos 138) year
    then if ltb_ℤ (pos 1970) year then ok (year -ℤ pos 1900) else failed invalid_year
    else if ltb_ℤ (negsuc 0) year && ltb_ℤ year (pos 38)
    then ok (year +ℤ pos 100)
    else ok year

unfoldable pub assign_date : TimeValue → ℕ → ℕ → ℤ → Parsed TimeValue
unfolding full_year
assign_date v mday month year = full_year year >>= λ y.
    if ltb_ℤ y (pos 70) then failed before_epoch else ok (put_date v mday month y)

-- `sc_tokid - JAN` and `sc_tokid - SUN`
abbrev pub month_of : Symbol → Option ℕ
month_of jan = some 0
month_of feb = some 1
month_of mar = some 2
month_of apr = some 3
month_of may = some 4
month_of jun = some 5
month_of jul = some 6
month_of aug = some 7
month_of sep = some 8
month_of oct = some 9
month_of nov = some 10
month_of dec = some 11
month_of _ = none

abbrev pub weekday_of : Symbol → Option ℕ
weekday_of sun = some 0
weekday_of mon = some 1
weekday_of tue = some 2
weekday_of wed = some 3
weekday_of thu = some 4
weekday_of fri = some 5
weekday_of sat = some 6
weekday_of _ = none

abbrev pub dated : Scanner → Parsed TimeValue → Parsed Progress
dated sc r = r >>= λ v. ok (v, sc)

-- a month's name, the day of the month, and perhaps a year
unfoldable pub month_day : ℕ → Progress → Parsed Progress
unfolding token assign_date atoi expect2
month_day month (v, sc) = expect2 no_day_of_month sc >>= λ sc1.
    let sc2 = token sc1 in
    if is_number sc2.sc_tokid
    then dated (token sc2) (assign_date v (atoi sc1.sc_token) month (pos (atoi sc2.sc_token)))
    else dated sc2 (assign_date v (atoi sc1.sc_token) month v.tm.tm_year)

-- the checks behind the numeric dates, on the month as it is written
unfoldable pub checked_date : TimeValue → ℕ → ℕ → ℤ → Parsed TimeValue
unfolding assign_date
checked_date v mday month year =
    if ltb month 1 || ltb 12 month
    then failed not_a_month
    else if ltb mday 1 || ltb 31 mday
    then failed not_a_day
    else assign_date v mday (month - 1) year

abbrev pub is_dot : Symbol → Bool
is_dot dot = true
is_dot _ = false

abbrev pub is_slash : Symbol → Bool
is_slash slash = true
is_slash _ = false

-- the second number, the year behind the same separator if there is one, and the flip of the
-- European order
abbrev pub ordered : Bool → TimeValue → ℕ → ℕ → ℤ → Parsed TimeValue
ordered european v first second year =
    if european then checked_date v first second year else checked_date v second first year

unfoldable pub year_behind : Bool → TimeValue → ℕ → ℕ → Scanner → Parsed Progress
unfolding token checked_date atoi expect2
year_behind european v first second sc =
    if (if european then is_dot sc.sc_tokid else is_slash sc.sc_tokid)
    then (expect2 no_year_number sc >>= λ sc'.
        dated (token sc') (ordered european v first second (pos (atoi sc'.sc_token))))
    else dated sc (ordered european v first second v.tm.tm_year)

unfoldable pub separated : Bool → ℕ → Progress → Parsed Progress
unfolding token year_behind atoi expect2
separated european first (v, sc) = expect2 no_second_number sc >>= λ sc'.
    year_behind european v first (atoi sc'.sc_token) (token sc')

-- a number, of which the digits are given, with the token behind it: seconds since 1970, YYYYMMDD,
-- or a date with separators
unfoldable pub day_number : Calendar → TimeValue → List ℕ → Scanner → Parsed Progress
unfolding separated checked_date atoi
day_number cal v digits next =
    let n = atoi digits in
    if ltb (10 * 365 * 24 * 60 * 60) n
    then (if ltb long_max n
        then undefined
        else (broken_down (cal.localtime (pos n)) >>= λ t. ok (with_tm v t, next)))
    else if ltb 19700101 n && ltb n 24000101
    then dated next (
        checked_date v (atoi (take 2 (drop 6 digits))) (atoi (take 2 (drop 4 digits)))
          (pos (atoi (take 4 digits))))
    else if leb n 31 && (is_dot next.sc_tokid || is_slash next.sc_tokid)
    then separated (is_dot next.sc_tokid) n (v, next)
    else dated next (checked_date v 0 n v.tm.tm_year)

unfoldable pub numeric_day : Calendar → Progress → Parsed Progress
unfolding token day_number
numeric_day cal (v, sc) = day_number cal v sc.sc_token (token sc)

abbrev pub shift_day : ℤ → Progress → Progress
shift_day d (v, sc) = (with_tm v (record v.tm { tm_mday = v.tm.tm_mday +ℤ d }), token sc)

abbrev pub named_day : Option ℕ → Option ℕ → Progress → Parsed Progress
named_day (some month) _ p = month_day month p
named_day none (some wday) (v, sc) = ok (shift_day (pos wday -ℤ v.tm.tm_wday) (v, sc))
named_day none none p = ok p

unfoldable pub day_for : Symbol → Calendar → Progress → Parsed Progress
unfolding token month_day numeric_day ◌+ℤ◌ ◌-ℤ◌
day_for yesterday cal p = ok (shift_day (negsuc 0) p)
day_for today cal (v, sc) = ok (v, token sc)
day_for tomorrow cal p = ok (shift_day (pos 1) p)
day_for number cal p = numeric_day cal p
day_for other cal p = named_day (month_of other) (weekday_of other) p

abbrev pub day : Calendar → Progress → Parsed Progress
day cal p = day_for p.1.sc_tokid cal p
