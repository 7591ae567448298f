-- ===== src/ParseTime/Whole/StartEnd.antt =====
-- Start and end given relative to one another: `rrd_proc_start_end` of
-- rrdtool-1.4.5/src/rrd_parsetime.c.
use administracion_servicios.Prelude.{some, ◌≡◌, refl, ◌∙◌, ap, arith}
use administracion_servicios.Prelude.Int.{ℤ, pos, ◌+ℤ◌}
use administracion_servicios.ParseTime.{
  Tm, absolute_time, relative_to_start_time, relative_to_end_time, TimeValue, Calendar,
}
use administracion_servicios.ParseTime.Whole.{
  times, moved, time_of, time_from, again, times_for, rrd_proc_start_end,
}

-- `mktime` undoes `localtime`, what it has normalized stays, and the fields that it leaves stand
-- for the time that it gives.
pub record IsCalendar (cal : Calendar) : Type 0 where
  pub mktime-localtime : (t : ℤ) (b : Tm) → cal.localtime t ≡ some b → (cal.mktime b).1 ≡ t
  pub mktime_again : (t : Tm) → (cal.mktime (cal.mktime t).0).1 ≡ (cal.mktime t).1

-- no days, months or years are moved by
abbrev pub OnlySeconds : TimeValue → Type 0
OnlySeconds v = (v.tm.tm_mday ≡ pos 0) × (v.tm.tm_mon ≡ pos 0) × (v.tm.tm_year ≡ pos 0)

-- the second that a time of its own stands for
abbrev pub own_time : Calendar → TimeValue → ℤ
own_time cal v = (cal.mktime v.tm).1 +ℤ v.offset

add_zero : (a : ℤ) → a +ℤ pos 0 ≡ a
unfolding ◌+ℤ◌
add_zero a = ground arith

moved-zero : (t : Tm) (a b c : ℤ) → a ≡ pos 0 → b ≡ pos 0 → c ≡ pos 0 → moved t a b c ≡ t
moved-zero t a b c p q r =
    rw (p, q, r) (rw (add_zero t.tm_mday, add_zero t.tm_mon, add_zero t.tm_year) refl)

time_from-seconds :
    (cal : Calendar) (base : ℤ) (b : Tm) (v : TimeValue)
    → IsCalendar cal
    → cal.localtime base ≡ some b
    → OnlySeconds v
    → time_from cal b v ≡ base +ℤ v.offset
unfolding time_from
time_from-seconds cal base b v k l (p, q, r) =
    ap (λ (t : Tm). (cal.mktime t).1 +ℤ v.offset)
      (moved-zero b v.tm.tm_mday v.tm.tm_mon v.tm.tm_year p q r)
    ∙ ap (λ (t : ℤ). t +ℤ v.offset) (k.mktime-localtime base b l)

time_of-again :
    (cal : Calendar) (v : TimeValue) → IsCalendar cal → time_of cal (again cal v) ≡ own_time cal v
unfolding time_of
time_of-again cal v k = ap (λ (t : ℤ). t +ℤ v.offset) (k.mktime_again v.tm)

module _ (cal : Calendar) (v r : TimeValue) where
  before_fixed :
      (b : Tm)
      → cal.localtime (own_time cal v) ≡ some b
      → times_for relative_to_end_time absolute_time cal r v
        ≡ times (time_from cal b r) (time_of cal (again cal v))
  unfolding times_for time_of
  before_fixed b e = rw e refl

  behind_fixed :
      (b : Tm)
      → cal.localtime (time_of cal (again cal v)) ≡ some b
      → times_for absolute_time relative_to_start_time cal v r
        ≡ times (time_of cal (again cal v)) (time_from cal b r)
  unfolding times_for
  behind_fixed b e = rw e refl

-- Where one of the two times is absolute and one that `localtime` can express, the calendar keeps its
-- laws, and the other time is given relative to it by seconds, minutes or hours alone, with no days,
-- weeks, months or years: as a start relative to the end or as an end relative to the start, that
-- time comes out as the first one with its offset added, and the first one as `mktime` gives it
-- with its own offset.
pub proc_start_end-relative :
    (cal : Calendar) (v from_end from_start : TimeValue) (b : Tm)
    → IsCalendar cal
    → v.kind ≡ absolute_time
    → cal.localtime (own_time cal v) ≡ some b
    → from_end.kind ≡ relative_to_end_time
    → from_start.kind ≡ relative_to_start_time
    → OnlySeconds from_end
    → OnlySeconds from_start
    → (rrd_proc_start_end cal from_end v
        ≡ times (own_time cal v +ℤ from_end.offset) (own_time cal v))
      × (rrd_proc_start_end cal v from_start
          ≡ times (own_time cal v) (own_time cal v +ℤ from_start.offset))
unfolding rrd_proc_start_end
proc_start_end-relative cal v from_end from_start b k fixed l e s he hs =
    let a = time_of-again cal v k in
    let l' : cal.localtime (time_of cal (again cal v)) ≡ some b = ap cal.localtime a ∙ l in
    (
      rw (e, fixed)
          (before_fixed cal v from_end b l
            ∙ ap (λ (t : ℤ). times t (time_of cal (again cal v)))
                (time_from-seconds cal (own_time cal v) b from_end k l he)
            ∙ ap (λ (t : ℤ). times (own_time cal v +ℤ from_end.offset) t) a),
      rw (s, fixed)
          (behind_fixed cal v from_start b l'
            ∙ ap (λ (t : ℤ). times (time_of cal (again cal v)) t)
                (time_from-seconds cal (time_of cal (again cal v)) b from_start k l' hs)
            ∙ ap (λ (t : ℤ). times t (t +ℤ from_start.offset)) a),
    )
