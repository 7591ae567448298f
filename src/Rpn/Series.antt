-- ===== src/Rpn/Series.antt =====
-- The operators of `rpn_calc` (rrdtool-1.4.5/src/rrd_rpncalc.c) that look back in a series of
-- values: OP_TREND, OP_TRENDNAN, OP_PREDICT and OP_PREDICTSIGMA. The node that the data pointer
-- belongs to is one that the calculator has been through already.
pub mod Window
use administracion_servicios.Prelude.{
  ℕ, zero, suc, ◌+◌, ◌-◌, ◌*◌, Bool, true, false, not, ◌&&◌, ◌||◌, List, [], ◌∷◌, if◌then◌else◌,
  ltb, leb, length, take, drop,
}
use administracion_servicios.Prelude.Int.{ℤ, pos, negsuc, ◌+ℤ◌, ◌-ℤ◌, ◌*ℤ◌, ltb_ℤ, sub_ℕ, pos_part}
use administracion_servicios.Double.{Double}
use administracion_servicios.Rpn.{Op, op_variable, Node, Math}
use administracion_servicios.Rpn.Stack.{Result, ok, failed, fault, mean_of, rev_onto}

abbrev pub is_variable : Op → Bool
is_variable op_variable = true
is_variable _ = false

module _ (F : Double) (m : Math F) where
  open F use {V, isnan, nan, add, sub, mul, div, lt, of_ℕ}

  -- `data[k]`
  abbrev pub data_of : Node V → ℤ → V
  data_of n k = n.memory (n.data_at +ℤ k)

  -- `data[ds_cnt * i]` at the index -i
  abbrev pub back : Node V → ℕ → V
  back n i = data_of n (n.ds_cnt *ℤ sub_ℕ 0 i)

  -- the sum and the number of the values taken so far
  abbrev pub taken : Bool → V → V × ℕ → V × ℕ
  taken ignorenan val (accum, count) =
      if ignorenan || not (isnan val) then (add accum val, suc count) else (accum, count)

  -- The `do` loop of OP_TREND. A step that is not positive never ends it; that is `fault`, as is
  -- too little fuel.
  unfoldable pub trend_loop : ℕ → Bool → ℤ → Node V → ℕ → ℤ → V × ℕ → Result (V × ℕ)
  trend_loop zero ignorenan step n i dur s = fault
  trend_loop (suc fuel) ignorenan step n i dur s =
      let s' = taken ignorenan (back n i) s in
      let rest = trend_loop fuel ignorenan step n (suc i) (dur -ℤ step) s' in
      if ltb_ℤ (pos 0) (dur -ℤ step) then rest else ok s'

  abbrev pub mean_on : List V → Result (V × ℕ) → Result (List V)
  mean_on s (ok x) = ok (mean_of F m x ∷ s)
  mean_on s failed = failed
  mean_on s fault = fault

  -- OP_TREND and OP_TRENDNAN, with the node two before; each round takes a second or more of the
  -- duration, so the duration and one are enough fuel
  unfoldable pub trend : Bool → Node V → ℕ → List V → Result (List V)
  trend ignorenan n output_idx (d ∷ x ∷ s) =
      let dur = m.trunc d in
      if not (is_variable n.op)
      then failed
      else if ltb_ℤ (m.ceil_div dur n.step) (pos output_idx)
      then mean_on s (trend_loop (suc (pos_part dur)) ignorenan n.step n 0 dur (of_ℕ 0, 0))
      else ok (nan ∷ s)
  trend ignorenan n output_idx _ = failed

  -- `sum`, `sum2` and `count` of OP_PREDICT
  pub record Sums : Type 0 where
    pub sum : V
    pub sum2 : V
    pub count : ℕ

  -- the body of the inner loop, at `offset` values back
  abbrev pub add_value : Node V → ℕ → ℤ → Sums → Sums
  add_value n output_idx (negsuc _) t = t
  add_value n output_idx (pos offset) t =
      let val = data_of n (sub_ℕ 0 1 *ℤ n.ds_cnt *ℤ pos offset) in
      if ltb offset output_idx && not (isnan val)
      then record { sum = add t.sum val; sum2 = add t.sum2 (mul val val); count = suc t.count }
      else t

  -- the inner loop, for `k` rounds from the offset on
  abbrev pub add_values : ℕ → Node V → ℕ → ℤ → Sums → Sums
  add_values zero n output_idx offset t = t
  add_values (suc k) n output_idx offset t =
      add_values k n output_idx (offset +ℤ pos 1) (add_value n output_idx offset t)

  -- the loop over the shifts
  abbrev pub add_shifts : ℕ → Node V → ℕ → List ℤ → Sums → Result Sums
  add_shifts rounds n output_idx [] t = ok t
  add_shifts rounds n output_idx (negsuc _ ∷ ks) t = failed
  add_shifts rounds n output_idx (pos k ∷ ks) t =
      add_shifts rounds n output_idx ks
        (add_values rounds n output_idx (m.ceil_div (pos k) n.step) t)

  -- the final calculations; the product of floats is taken exactly
  abbrev pub prediction : Bool → Sums → V
  prediction true t = if ltb 0 t.count then div t.sum (of_ℕ t.count) else nan
  prediction false t =
      let val = sub (mul (of_ℕ t.count) t.sum2) (mul t.sum t.sum) in
      if ltb 1 t.count
      then (if lt val (of_ℕ 0)
          then nan
          else m.sqrt (div val (mul (of_ℕ t.count) (sub (of_ℕ t.count) (of_ℕ 1)))))
      else nan

  abbrev pub prediction_on : Bool → List V → Result Sums → Result (List V)
  prediction_on b s (ok t) = ok (prediction b t ∷ s)
  prediction_on b s failed = failed
  prediction_on b s fault = fault

  -- the shifts in the order of the loop: given one by one, or as multiples of one
  abbrev pub truncated : List V → List ℤ
  truncated [] = []
  truncated (x ∷ xs) = m.trunc x ∷ truncated xs

  abbrev pub multiples : ℕ → ℕ → V → List ℤ
  multiples zero loop x = []
  multiples (suc n) loop x = m.trunc (mul (of_ℕ loop) x) ∷ multiples n (suc loop) x

  abbrev pub none_yet : Sums
  none_yet = record { sum = of_ℕ 0; sum2 = of_ℕ 0; count = 0 }

  -- the calculation, from the number of rounds of the inner loop and the number of shifts on. A
  -- negative number of shifts with nothing below it reads and writes the entry before the stack.
  abbrev pub predict_from : Bool → Node V → ℕ → ℕ → ℤ → List V → Result (List V)
  predict_from b n output_idx rounds (pos shifts) below =
      if ltb (length below) shifts
      then failed
      else prediction_on b (drop shifts below) (
          add_shifts rounds n output_idx (truncated (rev_onto F m (take shifts below) [])) none_yet)
  predict_from b n output_idx rounds (negsuc k) [] = fault
  predict_from b n output_idx rounds (negsuc k) (y ∷ s) =
      prediction_on b s (add_shifts rounds n output_idx (multiples (suc k) 0 y) none_yet)

  -- OP_PREDICT and OP_PREDICTSIGMA, with the node before
  unfoldable pub predict : Bool → Node V → ℕ → List V → Result (List V)
  unfolding ◌+ℤ◌ ◌*ℤ◌
  predict b n output_idx (x ∷ l ∷ c ∷ below) =
      predict_from b n output_idx (pos_part (m.ceil_div (m.trunc l) n.step +ℤ pos 1)) (m.trunc c)
        below
  predict b n output_idx _ = failed
