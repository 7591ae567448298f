-- ===== src/Rpn/Compact/Tests.antt =====
-- The compact form of `3,12,+`, with 12 a data source.
use administracion_servicios.Prelude.{◌≡◌, refl, true, some, List, [], ◌∷◌, arith}
use administracion_servicios.Prelude.Int.{ℤ, pos, negsuc, ◌-ℤ◌}
use administracion_servicios.Double.Sample.{Number, int, nan, sample}
use administracion_servicios.Rpn.{Node, op_number, op_variable, op_add, op_time}
use administracion_servicios.Rpn.Sample.{sample_math, node}
use administracion_servicios.Rpn.Compact.{
  CdefDs, compacted, refused, in_short, rpn_compact, rpn_expand, parse_cdef_ds,
}
use administracion_servicios.Rpn.Compact.RoundTrip.{IsShort, ExactShorts, rpn_compact-rpn_expand}

abbrev cell : ℤ → CdefDs
cell z = record { op = op_number; val = z }

abbrev header : List CdefDs
header =
    record { op = op_number; val = negsuc 2 }
    ∷ record { op = op_variable; val = pos 12 }
    ∷ record { op = op_add; val = pos 0 }
    ∷ []

in_range : (z : ℤ) → IsShort z → in_short sample sample_math (int z) ≡ true
unfolding ◌-ℤ◌
in_range (pos n) h = ground arith
in_range (negsuc n) h = ground arith

sample_exact : ExactShorts sample sample_math
sample_exact = record { floor_of = λ z h. refl; trunc_of = λ z h. refl; in_range = in_range }

rpn_compact-rpn_expand_example :
    rpn_compact sample sample_math (rpn_expand sample sample_math header) ≡ compacted header
rpn_compact-rpn_expand_example =
    rpn_compact-rpn_expand sample sample_math sample_exact header
      ((omega arith, λ a b. cc), ((omega arith, λ a b. cc), ((omega arith, λ a b. refl), tt)))
      (omega arith)

abbrev sum_of : List (Node Number)
sum_of =
    node op_number (int (pos 3)) (pos 0)
    ∷ node op_variable nan (pos 12)
    ∷ node op_add nan (pos 0)
    ∷ []

parse_cdef_ds_refused_test :
    parse_cdef_ds sample sample_math (some (node op_time nan (pos 0) ∷ [])) ≡ refused
unfolding parse_cdef_ds
parse_cdef_ds_refused_test = refl
