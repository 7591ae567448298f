-- ===== src/Rpn/Stack.antt =====
-- The operators of `rpn_calc` (rrdtool-1.4.5/src/rrd_rpncalc.c) that work on the stack alone. The
-- stack is a list with its top first; the entry `s[stptr - k]` is the one number `k`.
-- `stackunderflow(n)` fails on a stack of at most `n` entries.
use administracion_servicios.Prelude.{
  ℕ, zero, suc, Bool, not, ◌&&◌, ◌||◌, List, [], ◌∷◌, ◌++◌, if◌then◌else◌, ltb, length, take, drop,
}
use administracion_servicios.Prelude.Int.{pos, negsuc}
use administracion_servicios.Double.{Double}
use administracion_servicios.Rpn.{
  Op, Math, op_add, op_mod, op_sub, op_mul, op_div, op_sin, op_cos, op_log, op_exp, op_lt, op_le,
  op_gt, op_ge, op_eq, op_if, op_min, op_max, op_limit, op_floor, op_ceil, op_un, op_ne, op_isinf,
  op_atan, op_sqrt, op_atan2, op_rad2deg, op_deg2rad, op_abs, op_addnan,
}

-- A result, the error return -1, or an access outside the stack.
pub data Result (A : Type 0) : Type 0 where
  ok : A → Result A
  failed fault : Result A

module _ (F : Double) where
  open F use {V, isnan, nan, add, sub, mul, div, lt, of_ℕ}

  abbrev pub truth : Bool → V
  truth b = if b then of_ℕ 1 else of_ℕ 0

  -- `x == y`, of two numbers
  abbrev pub equal : V → V → Bool
  equal x y = not (lt x y) && not (lt y x)

  -- what a binary operator does with NaN: the first operand if it is NaN, else the second if it is
  abbrev pub unless_nan : V → V → V → V
  unless_nan x y z = if isnan x then x else if isnan y then y else z

  -- OP_ADDNAN
  abbrev pub addnan : V → V → V
  addnan x y = if isnan x then y else if isnan y then x else add x y

  -- OP_LT to OP_EQ, of two numbers; `x <= y` is that `y < x` is not
  abbrev pub compared : Op → V → V → Bool
  compared op_lt x y = lt x y
  compared op_le x y = not (lt y x)
  compared op_gt x y = lt y x
  compared op_ge x y = not (lt x y)
  compared op_ne x y = not (equal x y)
  compared _ x y = equal x y

  abbrev pub comparison : Op → V → V → V
  comparison op x y = unless_nan x y (truth (compared op x y))

  -- OP_MIN and OP_MAX
  abbrev pub minimum : V → V → V
  minimum x y = unless_nan x y (if lt y x then y else x)

  abbrev pub maximum : V → V → V
  maximum x y = unless_nan x y (if lt x y then y else x)

  -- OP_IF
  abbrev pub choice : V → V → V → V
  choice c x y = if isnan c || equal c (of_ℕ 0) then y else x

  -- OP_LIMIT
  abbrev pub limited : V → V → V → V
  limited x low high =
      if isnan x
      then x
      else if isnan low
      then low
      else if isnan high
      then high
      else if lt x low
      then nan
      else if lt high x
      then nan
      else x

  module _ (m : Math F) where
    -- the operators by the number of operands that they replace with one value; the others stand
    -- for themselves
    pub data Shape : Type 0 where
      unary : (V → V) → Shape
      binary : (V → V → V) → Shape
      ternary : (V → V → V → V) → Shape
      other : Shape

    -- OP_ADD to OP_MOD, OP_ATAN2
    abbrev pub arithmetic : Op → V → V → V
    arithmetic op_add = add
    arithmetic op_addnan = addnan
    arithmetic op_sub = sub
    arithmetic op_mul = mul
    arithmetic op_div = div
    arithmetic op_mod = m.fmod
    arithmetic _ = m.atan2

    -- OP_SIN to OP_LOG, OP_EXP
    abbrev pub analytic : Op → V → V
    analytic op_sin = m.sin
    analytic op_atan = m.atan
    analytic op_rad2deg = mul m.rad2deg
    analytic op_deg2rad = mul m.deg2rad
    analytic op_cos = m.cos
    analytic op_ceil = m.ceil
    analytic op_floor = m.floor
    analytic op_log = m.log
    analytic _ = m.exp

    -- OP_UN, OP_ISINF, OP_SQRT, OP_ABS
    abbrev pub tested : Op → V → V
    tested op_un x = truth (isnan x)
    tested op_isinf x = truth (m.isinf x)
    tested op_sqrt x = m.sqrt x
    tested _ x = m.fabs x

    -- the switch, for the operators that replace their operands with one value
    unfoldable pub shape : Op → Shape
    shape op_add = binary (arithmetic op_add)
    shape op_addnan = binary (arithmetic op_addnan)
    shape op_sub = binary (arithmetic op_sub)
    shape op_mul = binary (arithmetic op_mul)
    shape op_div = binary (arithmetic op_div)
    shape op_mod = binary (arithmetic op_mod)
    shape op_atan2 = binary (arithmetic op_atan2)
    shape op_sin = unary (analytic op_sin)
    shape op_atan = unary (analytic op_atan)
    shape op_rad2deg = unary (analytic op_rad2deg)
    shape op_deg2rad = unary (analytic op_deg2rad)
    shape op_cos = unary (analytic op_cos)
    shape op_ceil = unary (analytic op_ceil)
    shape op_floor = unary (analytic op_floor)
    shape op_log = unary (analytic op_log)
    shape op_exp = unary (analytic op_exp)
    shape op_lt = binary (comparison op_lt)
    shape op_le = binary (comparison op_le)
    shape op_gt = binary (comparison op_gt)
    shape op_ge = binary (comparison op_ge)
    shape op_ne = binary (comparison op_ne)
    shape op_eq = binary (comparison op_eq)
    shape op_if = ternary choice
    shape op_min = binary minimum
    shape op_max = binary maximum
    shape op_limit = ternary limited
    shape op_un = unary (tested op_un)
    shape op_isinf = unary (tested op_isinf)
    shape op_sqrt = unary (tested op_sqrt)
    shape op_abs = unary (tested op_abs)
    shape _ = other

    -- the body of those cases
    abbrev pub apply : Shape → List V → Result (List V)
    apply (unary f) (x ∷ s) = ok (f x ∷ s)
    apply (binary f) (y ∷ x ∷ s) = ok (f x y ∷ s)
    apply (ternary f) (z ∷ y ∷ x ∷ s) = ok (f x y z ∷ s)
    apply _ _ = failed

    -- OP_DUP, OP_POP, OP_EXC
    abbrev pub dup : List V → Result (List V)
    dup [] = failed
    dup (x ∷ s) = ok (x ∷ x ∷ s)

    abbrev pub pop : List V → Result (List V)
    pop [] = failed
    pop (x ∷ s) = ok s

    abbrev pub exc : List V → Result (List V)
    exc (y ∷ x ∷ s) = ok (x ∷ y ∷ s)
    exc _ = failed

    -- the first entries of a list, last one first
    abbrev pub rev_onto : List V → List V → List V
    rev_onto [] acc = acc
    rev_onto (x ∷ xs) acc = rev_onto xs (x ∷ acc)

    -- OP_SORT: the uppermost entries in ascending order, the greatest on top. A negative number goes
    -- to `qsort` as a huge one.
    unfoldable pub sort : List V → Result (List V)
    sort [] = failed
    sort (n ∷ s) = elim (m.trunc n) [
      | pos spn ↦
          if ltb (length s) spn
          then failed
          else ok (rev_onto (m.qsort (rev_onto (take spn s) [])) (drop spn s))
      | negsuc _ ↦ fault
    ]

    -- OP_REV: a number that is not positive leaves the entries alone.
    unfoldable pub rev : List V → Result (List V)
    rev [] = failed
    rev (n ∷ s) = elim (m.trunc n) [
      | pos spn ↦ if ltb (length s) spn then failed else ok (rev_onto (take spn s) [] ++ drop spn s)
      | negsuc _ ↦ ok s
    ]

    -- the loop of OP_AVG: the sum of the entries that are numbers, and their number
    abbrev pub sum_known : List V → V → ℕ → V × ℕ
    sum_known [] sum count = (sum, count)
    sum_known (x ∷ xs) sum count =
        if isnan x then sum_known xs sum count else sum_known xs (add sum x) (suc count)

    abbrev pub mean_of : V × ℕ → V
    mean_of (sum, zero) = nan
    mean_of (sum, suc n) = div sum (of_ℕ (suc n))

    -- OP_AVG
    unfoldable pub avg : List V → Result (List V)
    avg [] = failed
    avg (n ∷ s) = elim (m.trunc n) [
      | pos i ↦
          if ltb (length s) i
          then failed
          else ok (mean_of (sum_known (take i s) (of_ℕ 0) 0) ∷ drop i s)
      | negsuc _ ↦ ok (nan ∷ s)
    ]
