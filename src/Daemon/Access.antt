-- ===== src/Daemon/Access.antt =====
-- The files that clients of the daemon may write to: `get_abs_path` and `check_file_access` in
-- rrdtool-1.4.5/src/rrd_daemon.c. A path is the list of its bytes.
pub mod Inside
mod Tests
use administracion_servicios.Prelude.{
  ℕ, zero, suc, ◌+◌, ◌-◌, Bool, true, false, not, ◌&&◌, ◌||◌, Option, none, some, List, [], ◌∷◌,
  ◌++◌, ltb, ◌==◌, if◌then◌else◌, length, get_or, take,
}
use administracion_servicios.Daemon.Response.{codes}
use administracion_servicios.Daemon.Command.{same_text}

abbrev pub slash : ℕ
slash = b'/'

-- `config_write_base_only` and `config_base_dir`, and PATH_MAX of the system
pub record Config : Type 0 where
  pub write_base_only : Bool
  pub base_dir : Option (List ℕ)
  pub path_max : ℕ

-- `*file`, of a text that a zero byte ends
abbrev pub first : List ℕ → ℕ
first file = get_or file 0 0

-- `strncmp(file, s, strlen(s)) == 0`
abbrev pub starts_with : List ℕ → List ℕ → Bool
starts_with [] file = true
starts_with (c ∷ s) [] = false
starts_with (c ∷ s) (d ∷ file) = (c == d) && starts_with s file

-- `strstr(file, s) != NULL`
abbrev pub contains : List ℕ → List ℕ → Bool
contains s [] = starts_with s []
contains s (d ∷ file) = starts_with s (d ∷ file) || contains s file

-- `get_abs_path`; `snprintf` cuts the path off where there is no room for it
abbrev pub joined_path : ℕ → List ℕ → List ℕ → List ℕ
joined_path path_max base file = take (path_max - 1) (base ++ (slash ∷ file))

unfoldable pub get_abs_path : Config → List ℕ → List ℕ
get_abs_path config file = elim config.base_dir [
  | none ↦ file
  | some base ↦ if first file == slash then file else joined_path config.path_max base file
]

-- the checks of `check_file_access` on a path below a base directory
abbrev pub within_base : List ℕ → List ℕ → Bool
within_base base file =
    if contains (codes "../") file
    then false
    else if not (first file == slash)
    then true
    else if ltb (length file) (length base + 2)
    then false
    else if not (starts_with base file)
    then false
    else get_or file (length base) 0 == slash

-- `check_file_access`, with whether a journal is replayed
unfoldable pub check_file_access : Config → Bool → List ℕ → Bool
check_file_access config replay file = elim config.base_dir [
  | none ↦ true
  | some base ↦ if not config.write_base_only || replay then true else within_base base file
]
