-- ===== src/Daemon/Access/Tests.antt =====
-- Clients confined to the directory /db.
use administracion_servicios.Prelude.{◌≡◌, ◌⊎◌, refl, true, false, some}
use administracion_servicios.Daemon.Response.{codes}
use administracion_servicios.Daemon.Access.{Config, get_abs_path, check_file_access}
use administracion_servicios.Daemon.Access.Inside.{IsBelow, EndsUp, check_file_access-IsBelow}

abbrev confined : Config
confined = record { write_base_only = true; base_dir = some (codes "/db"); path_max = 4096 }

check_file_access-IsBelow_example :
    IsBelow (codes "/db") (codes "/db/x.rrd") ⊎ EndsUp (codes "/db") (codes "/db/x.rrd")
unfolding get_abs_path check_file_access
check_file_access-IsBelow_example =
    check_file_access-IsBelow confined (codes "/db") (codes "x.rrd") 4094 refl refl refl refl refl

-- the directory above the base passes
above_base_test : check_file_access confined false (get_abs_path confined (codes "..")) ≡ true
unfolding get_abs_path check_file_access
above_base_test = refl

refused_test : check_file_access confined false (get_abs_path confined (codes "a/../../x")) ≡ false
unfolding get_abs_path check_file_access
refused_test = refl

other_base_test : check_file_access confined false (get_abs_path confined (codes "/dbx/a")) ≡ false
unfolding get_abs_path check_file_access
other_base_test = refl
