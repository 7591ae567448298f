-- ===== src/Forecast/Wrap/Tests.antt =====
-- Rows of an archive of five rows.
use administracion_servicios.Prelude.{◌≡◌, refl}
use administracion_servicios.Prelude.Int.{negsuc}
use administracion_servicios.Forecast.Wrap.{my_mod}

before_first_test : my_mod (negsuc 4) 5 ≡ 5
unfolding my_mod
before_first_test = refl
