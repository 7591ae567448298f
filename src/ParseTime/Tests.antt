-- ===== src/ParseTime/Tests.antt =====
-- Tests of the time specifications.
use administracion_servicios.Prelude.{
  ℕ, ◌≡◌, ◌≢◌, refl, ap, sym, Option, true, false, some, none, List, [], ◌∷◌, ◌++◌, arith,
}
use administracion_servicios.Prelude.Int.{ℤ, pos, negsuc, ◌+ℤ◌, ◌-ℤ◌}
use administracion_servicios.Daemon.Response.{codes}
use administracion_servicios.ParseTime.{
  junk, various_words, time_multipliers, Tm, TimeValue, Calendar, Scanner, Parsed, parse_token,
  atoi, number, pm, eof, ok, failed, out_of_fuel, absolute_time, relative_to_start_time,
  relative_to_end_time, no_offset_after_reference, minutes_above_59,
}
use administracion_servicios.ParseTime.Day.{tod, numeric_day}
use administracion_servicios.ParseTime.Day.Notations.{
  Digits, dated_by, behind_number, numeric_day_notations,
}
use administracion_servicios.ParseTime.Whole.{
  rrd_parsetime, rrd_proc_start_end, times, at_default, normalized,
}
use administracion_servicios.ParseTime.Whole.Terminates.{rrd_parsetime_ends}
use administracion_servicios.ParseTime.Whole.Items.{Item, text, shifted}
use administracion_servicios.ParseTime.Whole.Groups.{
  the_end, reference_text, starting_value, rrd_parsetime-text,
}
use administracion_servicios.ParseTime.Whole.StartEnd.{
  IsCalendar, own_time, proc_start_end-relative,
}

abbrev january : Tm
january = record {
  tm_sec = pos 0;
  tm_min = pos 0;
  tm_hour = pos 0;
  tm_mday = pos 1;
  tm_mon = pos 0;
  tm_year = pos 111;
  tm_wday = pos 6;
  tm_isdst = pos 0;
}

-- a calendar that counts seconds alone
abbrev calendar : Calendar
calendar = record {
  localtime = λ t. some (record january { tm_sec = t });
  mktime = λ t. (t, t.tm_sec);
}

abbrev value : ℤ → ℤ → ℤ → ℤ → TimeValue
value offset hour mday year = record {
  kind = absolute_time;
  offset = offset;
  tm = record january { tm_hour = hour; tm_mday = mday; tm_year = year; tm_isdst = negsuc 0 };
}

parse : List ℕ → Parsed TimeValue
unfolding rrd_parsetime various_words time_multipliers
parse s = rrd_parsetime calendar (pos 0) junk none s

-- an hour with a date behind it
parse_date : parse (codes "13:00 7.1.2009") ≡ ok (value (pos 0) (pos 13) (pos 7) (pos 109))
unfolding parse ◌+ℤ◌ ◌-ℤ◌
parse_date = refl

-- without a year, the mark for "no year yet" is taken for one
parse_no_year : parse (codes "12:00 jan 5") ≡ ok (value (pos 0) (pos 12) (pos 5) (pos 28100))
unfolding parse ◌+ℤ◌ ◌-ℤ◌
parse_no_year = refl

-- "am" behind a date is read as the hour 0
parse_letters : parse (codes "7.1.2009 am") ≡ ok (value (pos 0) (pos 0) (pos 7) (pos 109))
unfolding parse ◌+ℤ◌ ◌-ℤ◌
parse_letters = refl

-- a sign behind a number without a unit is taken for the unit
parse_sign_lost : parse (codes "now-5+3") ≡ ok (value (negsuc 7) (pos 0) (pos 1) (pos 111))
unfolding parse ◌+ℤ◌ ◌-ℤ◌
parse_sign_lost = refl

-- text from an unknown byte on is taken for the end
parse_garbage : parse (codes "now-5h;x") ≡ ok (value (negsuc 17999) (pos 0) (pos 1) (pos 111))
unfolding parse ◌+ℤ◌ ◌-ℤ◌
parse_garbage = refl

parse_start : parse (codes "start") ≡ failed no_offset_after_reference
unfolding parse ◌+ℤ◌ ◌-ℤ◌
parse_start = refl

parse_minutes : parse (codes "12:60") ≡ failed minutes_above_59
unfolding parse ◌+ℤ◌ ◌-ℤ◌
parse_minutes = refl

rrd_parsetime_ends_example :
    rrd_parsetime calendar (pos 0) junk none (codes "now-1d5m+3") ≢ out_of_fuel
rrd_parsetime_ends_example = rrd_parsetime_ends calendar (pos 0) junk none (codes "now-1d5m+3")

abbrev one_day : Item
one_day = record { sign = some false; digit = b'1'; digits = []; letter = b'd'; letters = [] }

abbrev five_m : Item
five_m = record { sign = none; digit = b'5'; digits = b'0' ∷ []; letter = b'm'; letters = [] }

abbrev three_hours : Item
three_hours = record {
  sign = some true;
  digit = b'3';
  digits = [];
  letter = b'h';
  letters = codes "ours";
}

-- "end-1d50m+3hours"
rrd_parsetime-text_example :
    rrd_parsetime calendar
      (pos 0)
      junk
      none
      (reference_text the_end ++ text (one_day ∷ five_m ∷ three_hours ∷ []))
    ≡ normalized calendar (
        shifted
          (one_day ∷ five_m ∷ three_hours ∷ [])
          junk
          none
          (starting_value the_end (at_default january)))
unfolding time_multipliers parse_token atoi ◌+ℤ◌ ◌-ℤ◌
rrd_parsetime-text_example =
    rrd_parsetime-text calendar (pos 0) january junk none the_end false one_day
      (five_m ∷ three_hours ∷ []) refl refl
      (
        ((refl, tt), (refl, tt)),
        (
          ((refl, (refl, tt)), (refl, tt)),
          (((refl, tt), (refl, (refl, (refl, (refl, (refl, tt)))))), tt),
        ),
      )
      (refl, (refl, (refl, tt)))

abbrev fifth_of_june : Digits
fifth_of_june = record {
  d1 = b'0';
  d2 = b'5';
  m1 = b'0';
  m2 = b'6';
  y1 = b'2';
  y2 = b'0';
  y3 = b'1';
  y4 = b'0';
}

abbrev some_value : TimeValue
some_value = value (pos 0) (pos 0) (pos 1) (pos 111)

numeric_day_notations_example :
    (numeric_day calendar (behind_number some_value various_words (codes "05") (codes ".06.2010"))
      ≡ dated_by fifth_of_june some_value various_words [])
    × (numeric_day calendar (behind_number some_value various_words (codes "06") (codes "/05/2010"))
        ≡ dated_by fifth_of_june some_value various_words [])
    × (numeric_day calendar (behind_number some_value various_words (codes "20100605") [])
        ≡ dated_by fifth_of_june some_value various_words [])
unfolding atoi
numeric_day_notations_example =
    numeric_day_notations calendar fifth_of_june some_value various_words [] (refl, (refl, tt))
      (refl, (refl, tt)) (refl, (refl, (refl, (refl, tt)))) tt (omega arith) (omega arith)
      (omega arith) (omega arith)

abbrev half_past_one : Scanner
half_past_one = record {
  specials = [];
  scp = [];
  sct = codes ":30pm";
  need = false;
  sc_token = codes "1";
  sc_tokid = number;
}

abbrev with_pm : Scanner
with_pm = record half_past_one { specials = (codes "pm", pm) ∷ [] }

abbrev behind_pm : Scanner
behind_pm = record with_pm { need = true; sct = []; sc_token = []; sc_tokid = eof }

half_past_one_lem :
    tod (some_value, with_pm)
    ≡ ok (
      record some_value { tm = record some_value.tm { tm_hour = pos 13; tm_min = pos 30 } },
      behind_pm,
    )
unfolding tod
half_past_one_lem = refl

seconds_of : Option Tm → ℤ
seconds_of (some t) = t.tm_sec
seconds_of none = pos 0

broken_down_again : (t : ℤ) (b : Tm) → some (record january { tm_sec = t }) ≡ some b → b.tm_sec ≡ t
unfolding seconds_of
broken_down_again t b e = sym (ap seconds_of e)

calendar-IsCalendar : IsCalendar calendar
calendar-IsCalendar = record {
  mktime-localtime = λ t b e. broken_down_again t b e;
  mktime_again = λ t. refl;
}

abbrev relative : TimeValue
relative = record {
  kind = relative_to_end_time;
  offset = negsuc 3599;
  tm = record january { tm_mday = pos 0; tm_year = pos 0 };
}

abbrev relative_to_start : TimeValue
relative_to_start = record relative { kind = relative_to_start_time; offset = pos 60 }

proc_start_end-relative_example :
    (rrd_proc_start_end calendar relative some_value
      ≡ times (own_time calendar some_value +ℤ negsuc 3599) (own_time calendar some_value))
    × (rrd_proc_start_end calendar some_value relative_to_start
        ≡ times (own_time calendar some_value) (own_time calendar some_value +ℤ pos 60))
proc_start_end-relative_example =
    proc_start_end-relative calendar some_value relative relative_to_start
      (record january { tm_sec = own_time calendar some_value }) calendar-IsCalendar refl refl refl
      refl (refl, refl, refl) (refl, refl, refl)
