-- ===== src/ParseTime/Day/Clock.antt =====
-- The times of day that `tod` of rrdtool-1.4.5/src/rrd_parsetime.c lets through.
use administracion_servicios.Prelude.{
  ℕ, ◌+◌, ◌≤◌, ◌<◌, ◌≡◌, refl, ◌⊎◌, inl, inr, false, if◌then◌else◌, length, ltb, ◌==◌, arith,
}
use administracion_servicios.Prelude.Int.{pos}
use administracion_servicios.ParseTime.{
  Symbol, am, pm, slash, dot, colon, TimeValue, Scanner, token, expect2, is_number, atoi, int_max,
  no_minutes, ok,
}
use administracion_servicios.ParseTime.Day.{
  Progress, set_clock, half_day_for, minutes_of, tod_for, tod, with_tm,
}
use administracion_servicios.ParseTime.Ends.{
  Ends, holds, fails, breaks, Ends-bind, Ends-if, Ends-ok,
}

-- The value with another time of day, whose hour is below 24 and whose minute is below 60.
abbrev pub AtTime : TimeValue → TimeValue → Type 0
AtTime v w =
    (hour : ℕ) × (minute : ℕ) × (hour < 24)
    × (minute < 60)
    × (w ≡ with_tm v (record v.tm { tm_hour = pos hour; tm_min = pos minute; tm_sec = pos 0 }))

abbrev Clocked : TimeValue → Progress → Type 0
Clocked v p = (p.0 ≡ v) ⊎ AtTime v p.0

set_clock-AtTime :
    (hour minute : ℕ) (v : TimeValue) → hour < 24 → minute < 60 → AtTime v (set_clock hour minute v)
unfolding set_clock
set_clock-AtTime hour minute v h m = (hour, minute, h, m, ground arith)

not_above : (a b : ℕ) → ltb a b ≡ false → b ≤ a
not_above a b h = ground arith

morning : (hour : ℕ) → hour ≤ 12 → (if hour == 12 then 0 else hour) < 24
morning hour h = ground arith

evening : (hour : ℕ) → hour ≤ 12 → (if hour == 12 then hour else hour + 12) < 24
evening hour h = ground arith

half_day_for-Clocked :
    (k : Symbol) (hour minute : ℕ) (sc : Scanner) (v : TimeValue) (saved : Scanner)
    → minute < 60
    → Ends (Clocked v) (half_day_for k hour minute sc (v, saved))
unfolding half_day_for
half_day_for-Clocked am hour minute sc v saved m =
    Ends-if (ltb 12 hour) (λ _. fails)
      (λ e. holds (inr (set_clock-AtTime _ minute v (morning hour (not_above 12 hour e)) m)))
half_day_for-Clocked pm hour minute sc v saved m =
    Ends-if (ltb 12 hour) (λ _. fails)
      (λ e. holds (inr (set_clock-AtTime _ minute v (evening hour (not_above 12 hour e)) m)))
half_day_for-Clocked _ hour minute sc v saved m =
    Ends-if (ltb 23 hour) (λ _. holds (inl refl))
      (λ e. holds (inr (set_clock-AtTime hour minute v (omega (arith, not_above 23 hour e)) m)))

expect2-Ends : (sc : Scanner) → Ends (λ (s : Scanner). Unit {0}) (expect2 no_minutes sc)
unfolding expect2
expect2-Ends sc = Ends-if (is_number (token sc).sc_tokid) (λ _. holds tt) (λ _. fails)

minutes_of-Clocked :
    (hour : ℕ) (sc : Scanner) (v : TimeValue) (saved : Scanner)
    → Ends (Clocked v) (minutes_of hour sc (v, saved))
unfolding minutes_of
minutes_of-Clocked hour sc v saved = Ends-bind (expect2-Ends sc) (λ s _.
    Ends-if (ltb int_max (atoi s.sc_token)) (λ _. breaks)
      (λ _.
        Ends-if (ltb 59 (atoi s.sc_token)) (λ _. fails)
          (λ e.
            half_day_for-Clocked (token s).sc_tokid hour (atoi s.sc_token) (token s) v saved
              (omega (arith, not_above 59 (atoi s.sc_token) e)))))

tod_for-Clocked :
    (k : Symbol) (hour : ℕ) (sc : Scanner) (v : TimeValue) (saved : Scanner)
    → Ends (Clocked v) (tod_for k hour sc (v, saved))
unfolding tod_for
tod_for-Clocked slash hour sc v saved = holds (inl refl)
tod_for-Clocked dot hour sc v saved = holds (inl refl)
tod_for-Clocked colon hour sc v saved = minutes_of-Clocked hour sc v saved
tod_for-Clocked _ hour sc v saved = half_day_for-Clocked sc.sc_tokid hour 0 sc v saved (omega arith)

tod-Ends : (v : TimeValue) (sc : Scanner) → Ends (Clocked v) (tod (v, sc))
unfolding tod
tod-Ends v sc =
    Ends-if (ltb 2 (length sc.sc_token)) (λ _. holds (inl refl))
      (λ _. tod_for-Clocked (token sc).sc_tokid (atoi sc.sc_token) (token sc) v sc)

-- Where `tod` succeeds, it leaves the value as it was, or it sets an hour below 24, a minute below
-- 60 and the second 0, with "am" and "pm" as well as without; and the date is as it was, since the
-- hour 24, for which the code would go on to the next day, does not come about.
pub tod_clocked :
    (v : TimeValue) (sc : Scanner) {w : TimeValue} {sc' : Scanner}
    → tod (v, sc) ≡ ok (w, sc')
    → (w ≡ v) ⊎ AtTime v w
tod_clocked v sc e = Ends-ok (tod-Ends v sc) e
