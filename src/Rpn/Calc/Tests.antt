-- ===== src/Rpn/Calc/Tests.antt =====
-- The calculator on `10,x,+` and on a trend.
use administracion_servicios.Prelude.{◌≡◌, refl, ℕ, [], ◌∷◌, ◌++◌}
use administracion_servicios.Prelude.Int.{pos, negsuc, ◌+ℤ◌}
use administracion_servicios.Double.Sample.{Number, int, nan, sample, add}
use administracion_servicios.Rpn.{Node, op_number, op_add, op_end, op_sort}
use administracion_servicios.Rpn.Stack.{ok, fault, shape}
use administracion_servicios.Rpn.Sample.{sample_math, node, series}
use administracion_servicios.Rpn.Zone.{Tm}
use administracion_servicios.Rpn.Calc.{Call, Machine, operate, rpn_calc, variable_value}
use administracion_servicios.Rpn.Calc.Trees.{Tree, leaf, tree2, postfix, rpn_calc-tree_value}

abbrev midnight : Tm
midnight = record { tm_sec = 0; tm_min = 0; tm_hour = 0; tm_yday = 0; tm_year = 100 }

abbrev call : Call sample
call = record {
  data_idx = pos 10;
  output = nan ∷ nan ∷ [];
  output_idx = 1;
  now = int (pos 20);
  gmtime_r = λ t. midnight;
  localtime_r = λ t. midnight;
}

abbrev value : ℕ → Node Number
value n = node op_number (int (pos n)) (pos 0)

abbrev total : Tree Number
total = tree2 (node op_add nan (pos 0)) (leaf (value 10)) (leaf (series (pos 4)))

rpn_calc-tree_value_example :
    (s : Machine sample) × (rpn_calc sample sample_math call
        (postfix total ++ (node op_end nan (pos 0) ∷ []))
        0
      ≡ ok (nan ∷ int (pos 24) ∷ [], s))
unfolding add ◌+ℤ◌ shape variable_value
rpn_calc-tree_value_example =
    rpn_calc-tree_value sample sample_math call total (node op_end nan (pos 0)) 0 (int (pos 24))
      refl refl

abbrev empty : Machine sample
empty = record { stack = []; dc_stacksize = 0; before = [] }

abbrev one_more : Machine sample
one_more = record { stack = int (pos 7) ∷ []; dc_stacksize = 100; before = value 7 ∷ [] }

-- a negative number of entries to sort
sort_negative_test :
    operate sample sample_math call op_sort
      (node op_sort nan (pos 0))
      (record { stack = int (negsuc 0) ∷ []; dc_stacksize = 100; before = [] })
    ≡ fault
unfolding operate
sort_negative_test = refl
