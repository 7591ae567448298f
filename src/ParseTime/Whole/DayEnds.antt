-- ===== src/ParseTime/Whole/DayEnds.antt =====
-- What `tod` and `day` of rrdtool-1.4.5/src/rrd_parsetime.c read of the text.
use administracion_servicios.Prelude.{
  ℕ, Bool, true, false, ◌&&◌, ◌||◌, ◌-◌, leb, ◌*◌, Option, none, some, List, if◌then◌else◌, length,
  take, drop, ltb,
}
use administracion_servicios.Prelude.Int.{ℤ, pos, negsuc, ltb_ℤ}
use administracion_servicios.ParseTime.{
  Symbol, am, pm, yesterday, today, tomorrow, number, slash, dot, colon, TimeValue, Calendar,
  Scanner, token, is_number, atoi, Parsed, Tm, ok, ◌>>=◌, int_max, long_max, broken_down,
  no_minutes, no_second_number, no_year_number,
}
use administracion_servicios.ParseTime.Day.{
  Progress, with_tm, is_dot, is_slash, half_day_for, minutes_of, tod_for, tod, month_of, weekday_of,
  dated, full_year, assign_date, month_day, checked_date, ordered, year_behind, separated,
  day_number, numeric_day, named_day, day_for,
}
use administracion_servicios.ParseTime.Ends.{Ends, holds, fails, breaks, Ends-bind, Ends-if}
use administracion_servicios.ParseTime.Whole.Within.{Within, token-Within, expect2-Within}

abbrev pub Fits : ℕ → Progress → Type 0
Fits n p = Within n p.1

abbrev pub Any : {A : Type 0} → A → Type 0
Any _ = Unit {0}

module _ (n : ℕ) where
  pub next : (sc : Scanner) → Within n sc → Within n (token sc)
  next sc w = (token-Within n sc w).0

  half_day_for-Ends :
      (k : Symbol) (hour minute : ℕ) (sc : Scanner) (p : Progress)
      → Within n sc
      → Fits n p
      → Ends (Fits n) (half_day_for k hour minute sc p)
  unfolding half_day_for
  half_day_for-Ends am hour minute sc p w h =
      Ends-if (ltb 12 hour) (λ _. fails) (λ _. holds (next sc w))
  half_day_for-Ends pm hour minute sc p w h =
      Ends-if (ltb 12 hour) (λ _. fails) (λ _. holds (next sc w))
  half_day_for-Ends _ hour minute sc p w h =
      Ends-if (ltb 23 hour) (λ _. holds (w.0, h.1)) (λ _. holds w)

  minutes_of-Ends :
      (hour : ℕ) (sc : Scanner) (p : Progress)
      → Within n sc
      → Fits n p
      → Ends (Fits n) (minutes_of hour sc p)
  unfolding minutes_of
  minutes_of-Ends hour sc p w h = Ends-bind (expect2-Within n no_minutes sc w) (λ sc' w'.
      Ends-if (ltb int_max (atoi sc'.sc_token)) (λ _. breaks)
        (λ _.
          Ends-if (ltb 59 (atoi sc'.sc_token)) (λ _. fails)
            (λ _.
              half_day_for-Ends (token sc').sc_tokid hour (atoi sc'.sc_token) (token sc') p
                (next sc' w') h)))

  local-Ends :
      (v : TimeValue) (o : Option Tm) (sc : Scanner)
      → Within n sc
      → Ends (Fits n) (broken_down o >>= λ t. ok (with_tm v t, sc))
  local-Ends v none sc w = breaks
  local-Ends v (some t) sc w = holds w

  tod_for-Ends :
      (k : Symbol) (hour : ℕ) (sc : Scanner) (p : Progress)
      → Within n sc
      → Fits n p
      → Ends (Fits n) (tod_for k hour sc p)
  unfolding tod_for
  tod_for-Ends slash hour sc p w h = holds (w.0, h.1)
  tod_for-Ends dot hour sc p w h = holds (w.0, h.1)
  tod_for-Ends colon hour sc p w h = minutes_of-Ends hour sc p w h
  tod_for-Ends _ hour sc p w h = half_day_for-Ends sc.sc_tokid hour 0 sc p w h

  pub tod-Ends : (p : Progress) → Fits n p → Ends (Fits n) (tod p)
  unfolding tod
  tod-Ends (v, sc) h =
      Ends-if (ltb 2 (length sc.sc_token)) (λ _. holds h)
        (λ _. tod_for-Ends (token sc).sc_tokid (atoi sc.sc_token) (token sc) (v, sc) (next sc h) h)

  full_year-Ends : (y : ℤ) → Ends Any (full_year y)
  unfolding full_year
  full_year-Ends y =
      Ends-if (ltb_ℤ (pos 138) y) (λ _. Ends-if (ltb_ℤ (pos 1970) y) (λ _. holds tt) (λ _. fails))
        (λ _. Ends-if (ltb_ℤ (negsuc 0) y && ltb_ℤ y (pos 38)) (λ _. holds tt) (λ _. holds tt))

  assign_date-Ends : (v : TimeValue) (d m : ℕ) (y : ℤ) → Ends Any (assign_date v d m y)
  unfolding assign_date
  assign_date-Ends v d m y =
      Ends-bind (full_year-Ends y) (λ z _. Ends-if (ltb_ℤ z (pos 70)) (λ _. fails) (λ _. holds tt))

  checked_date-Ends : (v : TimeValue) (d m : ℕ) (y : ℤ) → Ends Any (checked_date v d m y)
  unfolding checked_date
  checked_date-Ends v d m y =
      Ends-if (ltb m 1 || ltb 12 m) (λ _. fails)
        (λ _. Ends-if (ltb d 1 || ltb 31 d) (λ _. fails) (λ _. assign_date-Ends v d (m - 1) y))

  ordered-Ends : (b : Bool) (v : TimeValue) (i j : ℕ) (y : ℤ) → Ends Any (ordered b v i j y)
  ordered-Ends true v i j y = checked_date-Ends v i j y
  ordered-Ends false v i j y = checked_date-Ends v j i y

  dated-Ends :
      (sc : Scanner) (r : Parsed TimeValue) → Within n sc → Ends Any r → Ends (Fits n) (dated sc r)
  dated-Ends sc r w h = Ends-bind h (λ v _. holds w)

  month_day-Ends : (m : ℕ) (p : Progress) → Fits n p → Ends (Fits n) (month_day m p)
  unfolding month_day
  month_day-Ends m (v, sc) h = Ends-bind (expect2-Within n _ sc h) (λ sc1 w1.
      let w2 : Within n (token sc1) = next sc1 w1 in
      let mday = atoi sc1.sc_token in
      let year = pos (atoi (token sc1).sc_token) in
      Ends-if (is_number (token sc1).sc_tokid)
        (λ _.
          dated-Ends (token (token sc1)) (assign_date v mday m year) (next (token sc1) w2)
            (assign_date-Ends v mday m year))
        (λ _.
          dated-Ends (token sc1) (assign_date v mday m v.tm.tm_year) w2
            (assign_date-Ends v mday m v.tm.tm_year)))

  year_behind-Ends :
      (b : Bool) (v : TimeValue) (i j : ℕ) (sc : Scanner)
      → Within n sc
      → Ends (Fits n) (year_behind b v i j sc)
  unfolding year_behind
  year_behind-Ends b v i j sc w =
      Ends-if (if b then is_dot sc.sc_tokid else is_slash sc.sc_tokid)
        (λ _. Ends-bind (expect2-Within n no_year_number sc w) (λ sc' w'.
          let year = pos (atoi sc'.sc_token) in
          dated-Ends (token sc') (ordered b v i j year) (next sc' w') (ordered-Ends b v i j year)))
        (λ _. dated-Ends sc (ordered b v i j v.tm.tm_year) w (ordered-Ends b v i j v.tm.tm_year))

  separated-Ends : (b : Bool) (i : ℕ) (p : Progress) → Fits n p → Ends (Fits n) (separated b i p)
  unfolding separated
  separated-Ends b i (v, sc) h =
      Ends-bind (expect2-Within n no_second_number sc h)
        (λ sc' w. year_behind-Ends b v i (atoi sc'.sc_token) (token sc') (next sc' w))

  day_number-Ends :
      (cal : Calendar) (v : TimeValue) (t : List ℕ) (sc : Scanner)
      → Within n sc
      → Ends (Fits n) (day_number cal v t sc)
  unfolding day_number
  day_number-Ends cal v t sc w =
      let i = atoi t in
      let k = sc.sc_tokid in
      let mday = atoi (take 2 (drop 6 t)) in
      let month = atoi (take 2 (drop 4 t)) in
      let year = pos (atoi (take 4 t)) in
      Ends-if (ltb (10 * 365 * 24 * 60 * 60) i)
        (λ _.
          Ends-if (ltb long_max i) (λ _. breaks) (λ _. local-Ends v (cal.localtime (pos i)) sc w))
        (λ _.
          Ends-if (ltb 19700101 i && ltb i 24000101)
            (λ _.
              dated-Ends sc (checked_date v mday month year) w
                (checked_date-Ends v mday month year))
            (λ _.
              Ends-if (leb i 31 && (is_dot k || is_slash k))
                (λ _. separated-Ends (is_dot k) i (v, sc) w)
                (λ _.
                  dated-Ends sc (checked_date v 0 i v.tm.tm_year) w
                    (checked_date-Ends v 0 i v.tm.tm_year))))

  numeric_day-Ends : (cal : Calendar) (p : Progress) → Fits n p → Ends (Fits n) (numeric_day cal p)
  unfolding numeric_day
  numeric_day-Ends cal (v, sc) h = day_number-Ends cal v sc.sc_token (token sc) (next sc h)

  named_day-Ends : (i j : Option ℕ) (p : Progress) → Fits n p → Ends (Fits n) (named_day i j p)
  named_day-Ends (some m) j p h = month_day-Ends m p h
  named_day-Ends none (some d) (v, sc) h = holds (next sc h)
  named_day-Ends none none p h = holds h

  pub day_for-Ends :
      (k : Symbol) (cal : Calendar) (p : Progress) → Fits n p → Ends (Fits n) (day_for k cal p)
  unfolding day_for
  day_for-Ends yesterday cal (v, sc) h = holds (next sc h)
  day_for-Ends today cal (v, sc) h = holds (next sc h)
  day_for-Ends tomorrow cal (v, sc) h = holds (next sc h)
  day_for-Ends number cal p h = numeric_day-Ends cal p h
  day_for-Ends other cal p h = named_day-Ends (month_of other) (weekday_of other) p h
