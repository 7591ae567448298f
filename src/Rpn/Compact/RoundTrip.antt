-- ===== src/Rpn/Compact/RoundTrip.antt =====
-- The compact form of an expression (rrdtool-1.4.5/src/rrd_rpncalc.c) keeps what it stands for, and
-- fits the place that it has in a database header.
use administracion_servicios.Prelude.{
  suc, ◌+◌, ◌%◌, ◌^◌, ◌<◌, ◌≡◌, refl, ap, sym, true, false, Bool-cases, inl, inr, some, List, [],
  ◌∷◌, ltb, length, arith,
}
use administracion_servicios.Prelude.Int.{ℤ, pos, negsuc}
use administracion_servicios.Double.{Double}
use administracion_servicios.Rpn.{Math}
use administracion_servicios.Rpn.Compact.{
  CdefDs, compacted, shrt_max, max_rpn_nodes, to_short, refers, is_number, in_short, compact_node,
  compact_all, rpn_compact, expand_node, rpn_expand,
}

-- the integers that a `short` holds
abbrev pub IsShort : ℤ → Type 0
IsShort (pos n) = n < 2 ^ 15
IsShort (negsuc n) = n < 2 ^ 15

to_short_lem : (z : ℤ) → IsShort z → to_short z ≡ z
to_short_lem (pos n) h =
    let e : n % 2 ^ 16 ≡ n = omega arith in
    let l : ltb n (2 ^ 15) ≡ true = ground arith in rw (e, l) refl
to_short_lem (negsuc n) h =
    let e : n % 2 ^ 16 ≡ n = omega arith in
    let l : ltb n (2 ^ 15) ≡ true = ground arith in rw (e, l) refl

-- A node as `rpn_compact` writes it into memory that is cleared: a `short`, and 0 where the
-- operator has no use for it.
abbrev pub IsCompact : CdefDs → Type 0
IsCompact c = IsShort c.val × (is_number c.op ≡ false → refers c.op ≡ false → c.val ≡ pos 0)

abbrev pub AllCompact : List CdefDs → Type 0
AllCompact [] = Unit
AllCompact (c ∷ cs) = IsCompact c × AllCompact cs

module _ (F : Double) (m : Math F) where
  -- A double is exact on the integers that a `short` holds.
  pub record ExactShorts : Type 0 where
    pub floor_of : (z : ℤ) → IsShort z → m.floor (m.of_ℤ z) ≡ m.of_ℤ z
    pub trunc_of : (z : ℤ) → IsShort z → m.trunc (m.of_ℤ z) ≡ z
    pub in_range : (z : ℤ) → IsShort z → in_short F m (m.of_ℤ z) ≡ true

  compact-expand_node :
      (x : ExactShorts) (c : CdefDs) → IsCompact c → compact_node F m (expand_node F m c) ≡ some c
  compact-expand_node x c (s, z) = elim (Bool-cases (is_number c.op)) [
    | inl n ↦
        let e = x.floor_of c.val s in
        let k = x.in_range c.val s in
        let t = x.trunc_of c.val s in let u = to_short_lem c.val s in rw (n, e, k, t, u) refl
    | inr n ↦ elim (Bool-cases (refers c.op)) [
      | inl r ↦ let u = to_short_lem c.val s in rw (n, r, u) refl
      | inr r ↦ let u = z n r in rw (n, r, sym u) refl
    ]
  ]

  compact_all-rpn_expand :
      (x : ExactShorts) (cs : List CdefDs)
      → AllCompact cs
      → compact_all F m (rpn_expand F m cs) ≡ some cs
  unfolding compact_all rpn_expand
  compact_all-rpn_expand x [] a = refl
  compact_all-rpn_expand x (c ∷ cs) (a, b) =
      rw (compact-expand_node x c a, compact_all-rpn_expand x cs b) refl

  length-rpn_expand : (cs : List CdefDs) → length (rpn_expand F m cs) ≡ length cs
  unfolding rpn_expand
  length-rpn_expand [] = refl
  length-rpn_expand (c ∷ cs) = ap suc (length-rpn_expand cs)

  -- An expression of a database header, read by `rpn_expand` and written again by `rpn_compact`, is
  -- the same: it fits, no constant is out of range, and no node changes. The header is one that
  -- holds at most 25 nodes before OP_END, each a `short`, with 0 where the operator takes no
  -- number; a `double` is to be exact on a `short`.
  pub rpn_compact-rpn_expand :
      (x : ExactShorts) (cs : List CdefDs)
      → AllCompact cs
      → length cs < max_rpn_nodes
      → rpn_compact F m (rpn_expand F m cs) ≡ compacted cs
  unfolding rpn_compact
  rpn_compact-rpn_expand x cs a l =
      let k : ltb max_rpn_nodes (length cs + 1) ≡ false = ground (arith, l) in
      let w : ltb shrt_max (length cs + 1) ≡ false = ground (arith, l) in
      rw (length-rpn_expand cs, w, k, compact_all-rpn_expand x cs a) refl
