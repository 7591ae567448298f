-- ===== src/Rpn/Calc.antt =====
-- `rpn_calc` of rrdtool-1.4.5/src/rrd_rpncalc.c: the loop over the nodes of an expression.
pub mod Trees
mod Tests
use administracion_servicios.Prelude.{
  ℕ, zero, suc, ◌+◌, ◌-◌, ◌%◌, Bool, true, false, Option, none, some, List, [], ◌∷◌, if◌then◌else◌,
  ltb, leb, ◌==◌, length, get_or, set,
}
use administracion_servicios.Prelude.Int.{ℤ, pos, ◌+ℤ◌, ◌-ℤ◌, pos_part, neg_part}
use administracion_servicios.Double.{Double}
use administracion_servicios.Rpn.{
  Op, op_number, op_variable, op_inf, op_prev, op_neginf, op_unkn, op_now, op_time, op_dup, op_exc,
  op_pop, op_end, op_ltime, op_prev_other, op_count, op_sort, op_rev, op_trend, op_trendnan,
  op_predict, op_predictsigma, op_avg, Node, Math,
}
use administracion_servicios.Rpn.Stack.{
  Result, ok, failed, fault, shape, apply, dup, pop, exc, sort, rev, avg,
}
use administracion_servicios.Rpn.Series.{trend, predict}
use administracion_servicios.Rpn.Zone.{Tm, tzoffset}

-- `v % step == 0`
abbrev pub divides : ℤ → ℤ → Bool
divides step v = (pos_part v + neg_part v) % (pos_part step + neg_part step) == 0

module _ (F : Double) where
  open F use {V, nan, inf, neg_inf, add, of_ℕ}

  -- the arguments of a call, the time now, and the calendar of the C library
  pub record Call : Type 0 where
    pub data_idx : ℤ
    pub output : List V
    pub output_idx : ℕ
    pub now : V
    pub gmtime_r : ℤ → Tm
    pub localtime_r : ℤ → Tm

  -- The stack with `dc_stacksize`, and the nodes that the loop is through with, the last one
  -- first.
  pub record Machine : Type 0 where
    pub stack : List V
    pub dc_stacksize : ℕ
    pub before : List (Node V)

  module _ (m : Math F) (c : Call) where
    -- OP_VARIABLE and OP_PREV_OTHER: the value, and the pointer moved on where a row is complete
    unfoldable pub variable_value : Op → Node V → V
    unfolding ◌-ℤ◌
    variable_value op_prev_other n =
        if leb c.output_idx 0 then nan else n.memory (n.data_at -ℤ n.ds_cnt)
    variable_value _ n = n.memory n.data_at

    unfoldable pub moved_on : Node V → Node V
    unfolding ◌+ℤ◌
    moved_on n =
        if divides n.step c.data_idx then record n { data_at = n.data_at +ℤ n.ds_cnt } else n

    abbrev pub is_zero : ℤ → Bool
    is_zero z = pos_part z + neg_part z == 0

    -- OP_NUMBER and the cases that push a value which depends on the call alone
    abbrev pub pushed : Op → Node V → V
    pushed op_number n = n.val
    pushed op_count n = of_ℕ (c.output_idx + 1)
    pushed op_prev n = if leb c.output_idx 0 then nan else get_or c.output (c.output_idx - 1) nan
    pushed op_unkn n = nan
    pushed op_inf n = inf
    pushed op_neginf n = neg_inf
    pushed op_now n = c.now
    pushed op_time n = m.of_ℤ c.data_idx
    pushed _ n =
        add (m.of_ℤ (tzoffset (c.gmtime_r c.data_idx) (c.localtime_r c.data_idx)))
          (m.of_ℤ c.data_idx)

    -- the node one before and two before the current one
    abbrev pub look_back : (Node V → Result (List V)) → List (Node V) → Result (List V)
    look_back f [] = failed
    look_back f (n ∷ ns) = f n

    abbrev pub look_back_two : (Node V → Result (List V)) → List (Node V) → Result (List V)
    look_back_two f (_ ∷ n ∷ ns) = f n
    look_back_two f _ = failed

    -- the switch: the stack after the operator
    unfoldable pub operate : Op → Node V → Machine → Result (List V)
    unfolding variable_value shape sort rev avg trend predict
    operate op_variable n s =
        if is_zero n.ds_cnt then failed else ok (variable_value op_variable n ∷ s.stack)
    operate op_prev_other n s =
        if is_zero n.ds_cnt then failed else ok (variable_value op_prev_other n ∷ s.stack)
    operate op_number n s = ok (pushed op_number n ∷ s.stack)
    operate op_count n s = ok (pushed op_count n ∷ s.stack)
    operate op_prev n s = ok (pushed op_prev n ∷ s.stack)
    operate op_unkn n s = ok (pushed op_unkn n ∷ s.stack)
    operate op_inf n s = ok (pushed op_inf n ∷ s.stack)
    operate op_neginf n s = ok (pushed op_neginf n ∷ s.stack)
    operate op_now n s = ok (pushed op_now n ∷ s.stack)
    operate op_time n s = ok (pushed op_time n ∷ s.stack)
    operate op_ltime n s = ok (pushed op_ltime n ∷ s.stack)
    operate op_dup n s = dup F m s.stack
    operate op_pop n s = pop F m s.stack
    operate op_exc n s = exc F m s.stack
    operate op_sort n s = sort F m s.stack
    operate op_rev n s = rev F m s.stack
    operate op_avg n s = avg F m s.stack
    operate op_trend n s = look_back_two (λ k. trend F m true k c.output_idx s.stack) s.before
    operate op_trendnan n s = look_back_two (λ k. trend F m false k c.output_idx s.stack) s.before
    operate op_predict n s = look_back (λ k. predict F m true k c.output_idx s.stack) s.before
    operate op_predictsigma n s = look_back (λ k. predict F m false k c.output_idx s.stack) s.before
    operate op n s = apply F m (shape F m op) s.stack

    abbrev pub after : Op → Node V → Node V
    after op_variable n = moved_on n
    after op_prev_other n = moved_on n
    after _ n = n

    -- the growth of the stack before an operator
    abbrev pub grown : Machine → Machine
    grown s =
        if ltb s.dc_stacksize (length s.stack + 4)
        then record s { dc_stacksize = s.dc_stacksize + 100 }
        else s

    abbrev pub with_stack : Node V → Machine → Result (List V) → Result Machine
    with_stack n s (ok x) = ok (record s { stack = x; before = after n.op n ∷ s.before })
    with_stack n s failed = failed
    with_stack n s fault = fault

    -- the body of the loop
    unfoldable pub step : Node V → Machine → Result Machine
    unfolding operate moved_on
    step n s = let t = grown s in with_stack n t (operate n.op n t)

    abbrev pub is_end : Op → Bool
    is_end op_end = true
    is_end _ = false

    -- the loop; an expression without OP_END would be read beyond its end
    unfoldable pub run : List (Node V) → Machine → Result Machine
    run [] s = fault
    run (n ∷ ns) s =
        if is_end n.op
        then ok s
        else elim (step n s) [ ok t ↦ run ns t | failed ↦ failed | fault ↦ fault ]

    -- the end: one value is to be left, which goes to the output
    abbrev pub finish : Result Machine → Result (List V × Machine)
    finish (ok s) = elim s.stack [
      | [] ↦ failed
      | x ∷ xs ↦ elim xs [ [] ↦ ok (set c.output c.output_idx x, s) | _ ∷ _ ↦ failed ]
    ]
    finish failed = failed
    finish fault = fault

    -- `rpn_calc`: the output, and the machine, whose stack memory is kept for the next call
    unfoldable pub rpn_calc : List (Node V) → ℕ → Result (List V × Machine)
    rpn_calc nodes dc_stacksize =
        finish (run nodes (record { stack = []; dc_stacksize = dc_stacksize; before = [] }))
