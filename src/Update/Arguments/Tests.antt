-- ===== src/Update/Arguments/Tests.antt =====
-- The argument `9:1:2` for the template of the second and the first of three data sources, and two
-- times.
use administracion_servicios.Prelude.{
  ℕ, ◌≡◌, refl, Bool, true, false, none, some, List, [], ◌∷◌, ◌++◌, length, get_or, arith,
}
use administracion_servicios.Prelude.Int.{pos, ◌+ℤ◌, ◌-ℤ◌, ◌*ℤ◌}
use administracion_servicios.Double.Sample.{Number, int, sample, add, mul}
use administracion_servicios.Rrd.{LiveHead, DsDef, gauge, cdef}
use administracion_servicios.Update.Arguments.{
  colon, unknown, Clock, parsed, refused, parse_ds, parse_template, ds_match, default_template,
  get_time_from_reading,
}
use administracion_servicios.Update.Arguments.Readings.{
  reading_for, with_colons, parse_ds-with_colons,
}
use administracion_servicios.Update.Arguments.Times.{Increasing, get_time_from_reading-Increasing}

parse_ds-with_colons_example :
    ((r : List (List ℕ)) × (parse_ds 3
          (2 ∷ 1 ∷ [])
          ((b'9' ∷ []) ++ (colon ∷ with_colons (b'1' ∷ []) ((b'2' ∷ []) ∷ [])))
        ≡ parsed (false, b'9' ∷ [], r))
      × ((k : ℕ)
          → get_or r k unknown
            ≡ reading_for (2 ∷ 1 ∷ []) ((b'1' ∷ []) ∷ (b'2' ∷ []) ∷ []) k unknown))
parse_ds-with_colons_example =
    (parse_ds-with_colons 3 2 (1 ∷ []) (b'9' ∷ []) (b'1' ∷ []) ((b'2' ∷ []) ∷ []) (refl, tt)
        (refl, tt) ((refl, tt), ((refl, tt), tt)) ((refl, tt), ((refl, tt), tt))
        ((omega arith, omega arith), ((omega arith, omega arith), tt))).0
      refl

too_many_test : parse_ds 3 (2 ∷ []) (b'9' ∷ colon ∷ b'1' ∷ colon ∷ b'2' ∷ []) ≡ refused
unfolding parse_ds
too_many_test = refl

abbrev source : ℕ → Bool → DsDef Number
source name computed = record {
  ds_nam = name ∷ [];
  dst = elim computed [ true ↦ cdef | false ↦ gauge ];
  mrhb_cnt = 600;
  min_val = int (pos 0);
  max_val = int (pos 100);
}

abbrev sources : List (DsDef Number)
sources = source b'a' false ∷ source b'b' true ∷ source b'c' false ∷ []

default_template_test : default_template sources ≡ 1 ∷ 3 ∷ []
default_template_test = refl

parse_template_test : parse_template sources (b'c' ∷ colon ∷ b'a' ∷ []) ≡ some (3 ∷ 1 ∷ [])
unfolding parse_template ds_match
parse_template_test = refl

parse_template-unknown_test : parse_template sources (b'c' ∷ colon ∷ []) ≡ none
unfolding parse_template ds_match
parse_template-unknown_test = refl

abbrev clock : ℕ → Clock sample
clock now = record {
  tv_sec = now;
  tv_usec = 0;
  strtod = λ t. some (int (pos (length t)));
  parsetime = λ t. none;
  micro = int (pos 0);
}

abbrev start : LiveHead
start = record { last_up = 1; last_up_usec = 0 }

get_time_from_reading-Increasing_example : Increasing (
    start
    ∷ record { last_up = 3; last_up_usec = 0 }
    ∷ record { last_up = 8; last_up_usec = 0 }
    ∷ [])
unfolding get_time_from_reading add mul ◌+ℤ◌ ◌-ℤ◌ ◌*ℤ◌
get_time_from_reading-Increasing_example =
    get_time_from_reading-Increasing sample 3
      ((clock 7, false, b'1' ∷ b'2' ∷ b'3' ∷ []) ∷ (clock 8, false, b'N' ∷ []) ∷ []) start
