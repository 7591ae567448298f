-- ===== src/Rpn/Zone/Tests.antt =====
-- The offset of Europe/Madrid to universal time in winter, across the end of a day.
use administracion_servicios.Prelude.{◌≡◌, refl}
use administracion_servicios.Prelude.Int.{pos, ◌+ℤ◌}
use administracion_servicios.Rpn.Zone.{Tm, tzoffset}

abbrev late : Tm
late = record { tm_sec = 0; tm_min = 30; tm_hour = 23; tm_yday = 40; tm_year = 111 }

abbrev early : Tm
early = record { tm_sec = 0; tm_min = 30; tm_hour = 0; tm_yday = 41; tm_year = 111 }

tzoffset_test : tzoffset late early ≡ pos 3600
unfolding tzoffset ◌+ℤ◌
tzoffset_test = refl

-- six hours west of Greenwich, in the first hours of a year by universal time
abbrev new_year : Tm
new_year = record { tm_sec = 0; tm_min = 0; tm_hour = 2; tm_yday = 0; tm_year = 112 }

abbrev old_year : Tm
old_year = record { tm_sec = 0; tm_min = 0; tm_hour = 20; tm_yday = 364; tm_year = 111 }

tzoffset-new_year_test : tzoffset new_year old_year ≡ pos 151200
unfolding tzoffset ◌+ℤ◌
tzoffset-new_year_test = refl
