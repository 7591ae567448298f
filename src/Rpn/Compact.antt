-- ===== src/Rpn/Compact.antt =====
-- The compact form that an expression has in a database header, rrdtool-1.4.5/src/rrd_rpncalc.c:
-- `rpn_compact`, `rpn_expand` and the checks of `parseCDEF_DS`. A sequence is the list of its nodes
-- before OP_END.
pub mod Accepted
pub mod RoundTrip
mod Tests
use administracion_servicios.Prelude.{
  ℕ, zero, suc, ◌+◌, ◌-◌, ◌*◌, ◌%◌, ◌^◌, Bool, true, false, not, ◌&&◌, ◌||◌, Option, none, some,
  List, [], ◌∷◌, if◌then◌else◌, ltb, leb, length, take,
}
use administracion_servicios.Prelude.Int.{ℤ, pos, negsuc, sub_ℕ, ltb_ℤ, pos_part, neg_part}
use administracion_servicios.Double.{Double}
use administracion_servicios.Rpn.{
  Op, op_number, op_variable, op_prev, op_time, op_ltime, op_count, op_prev_other, op_inf, Node,
  Math,
}

-- DS_CDEF_MAX_RPN_NODES
abbrev pub max_rpn_nodes : ℕ
max_rpn_nodes = 26

-- `rpn_cdefds_t`; `op` is a `char` that holds the number of the operator.
pub record CdefDs : Type 0 where
  pub op : Op
  pub val : ℤ

-- What `rpn_compact` and `parseCDEF_DS` come to: the nodes for the header, an error, or that memory
-- is read or written outside of its array.
pub data Compacted : Type 0 where
  compacted : List CdefDs → Compacted
  refused : Compacted
  out_of_bounds : Compacted

-- SHRT_MAX, and the sizes in bytes of `par` and of an `rpn_cdefds_t`
abbrev pub shrt_max : ℕ
shrt_max = 32767

abbrev pub par_size : ℕ
par_size = 80

abbrev pub cell_size : ℕ
cell_size = 4

-- the conversion of an integer to `short`
abbrev pub to_short : ℤ → ℤ
to_short (pos n) = let r = n % 2 ^ 16 in if ltb r (2 ^ 15) then pos r else sub_ℕ r (2 ^ 16)
to_short (negsuc n) =
    let r = n % 2 ^ 16 in if ltb r (2 ^ 15) then negsuc r else sub_ℕ (2 ^ 16 - 1) r

-- whether the node keeps a number of a data source
abbrev pub refers : Op → Bool
refers op_variable = true
refers op_prev_other = true
refers _ = false

abbrev pub is_number : Op → Bool
is_number op_number = true
is_number _ = false

module _ (F : Double) (m : Math F) where
  open F use {V, lt, of_ℕ, neg}

  -- whether a constant is in the interval from SHRT_MIN to SHRT_MAX
  abbrev pub in_short : V → Bool
  in_short temp = not (lt temp (neg (of_ℕ (2 ^ 15))) || lt (of_ℕ (2 ^ 15 - 1)) temp)

  -- the body of the loop of `rpn_compact`
  abbrev pub compact_node : Node V → Option CdefDs
  compact_node n =
      let temp = m.floor n.val in
      if is_number n.op
      then (if in_short temp
          then some (record { op = n.op; val = to_short (m.trunc temp) })
          else none)
      else if refers n.op
      then some (record { op = n.op; val = to_short n.ptr })
      else some (record { op = n.op; val = pos 0 })

  abbrev pub prepend : {A : Type 0} → Option A → Option (List A) → Option (List A)
  prepend (some x) (some xs) = some (x ∷ xs)
  prepend (some x) none = none
  prepend none o = none

  unfoldable pub compact_all : List (Node V) → Option (List CdefDs)
  compact_all [] = some []
  compact_all (n ∷ ns) = prepend (compact_node n) (compact_all ns)

  abbrev pub from_option : Option (List CdefDs) → Compacted
  from_option none = refused
  from_option (some cs) = compacted cs

  -- `rpn_compact`; OP_END counts as a node. With as many nodes as a `short` counts, `*count` wraps to
  -- a negative number, at which the nodes are read or which `calloc` is called with.
  unfoldable pub rpn_compact : List (Node V) → Compacted
  rpn_compact ns =
      let rpnc = compact_all ns in
      if ltb shrt_max (length ns + 1)
      then out_of_bounds
      else if ltb max_rpn_nodes (length ns + 1)
      then refused
      else from_option rpnc

  -- the body of the loop of `rpn_expand`, on memory that `calloc` has cleared
  abbrev pub expand_node : CdefDs → Node V
  expand_node c = record {
    op = c.op;
    val = if is_number c.op then m.of_ℤ c.val else of_ℕ 0;
    ptr = if not (is_number c.op) && refers c.op then c.val else pos 0;
    memory = λ k. of_ℕ 0;
    data_at = pos 0;
    ds_cnt = pos 0;
    step = pos 0;
  }

  -- `rpn_expand`, whose memory for 26 nodes is there
  unfoldable pub rpn_expand : List CdefDs → List (Node V)
  rpn_expand [] = []
  rpn_expand (c ∷ cs) = expand_node c ∷ rpn_expand cs

  -- the operators that `parseCDEF_DS` refuses
  abbrev pub is_refused : Op → Bool
  is_refused op_time = true
  is_refused op_ltime = true
  is_refused op_prev = true
  is_refused op_count = true
  is_refused _ = false

  abbrev pub any_refused : List (Node V) → Bool
  any_refused [] = false
  any_refused (n ∷ ns) = is_refused n.op || any_refused ns

  -- the `memcpy` into the array `par`, OP_END included
  abbrev pub copied : Compacted → Compacted
  copied (compacted cs) =
      if ltb par_size ((length cs + 1) * cell_size) then out_of_bounds else compacted cs
  copied r = r

  -- `parseCDEF_DS` on what `rpn_parse` has returned. Its loop sees the nodes up to the last index that
  -- a `short` holds; behind that one it wraps, as `rpn_compact` then does.
  unfoldable pub parse_cdef_ds : Option (List (Node V)) → Compacted
  unfolding rpn_compact
  parse_cdef_ds none = refused
  parse_cdef_ds (some ns) =
      if any_refused (take (shrt_max + 1) ns) then refused else copied (rpn_compact ns)
