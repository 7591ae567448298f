-- ===== src/Rpn/Compact/Accepted.antt =====
-- Which expressions `parseCDEF_DS` (rrdtool-1.4.5/src/rrd_rpncalc.c) accepts.
use administracion_servicios.Prelude.{◌≡◌, true, false, List, [], ◌∷◌}
use administracion_servicios.Prelude.Int.{ℤ}
use administracion_servicios.Double.{Double}
use administracion_servicios.Rpn.{Op, Node, Math}
use administracion_servicios.Rpn.Compact.{CdefDs, is_number, in_short, is_refused}

abbrev pub header_ops : List CdefDs → List Op
header_ops [] = []
header_ops (c ∷ cs) = c.op ∷ header_ops cs

abbrev tail_of : List Op → List Op
tail_of [] = []
tail_of (o ∷ os) = os

module _ (F : Double) (m : Math F) where
  open F use {V}

  -- A node that a header can hold: its operator is allowed, and a constant is in the range of
  -- `short`.
  abbrev pub FitsHeader : Node V → Type 0
  FitsHeader n =
      (is_refused F m n.op ≡ false) × (is_number n.op ≡ true → in_short F m (m.floor n.val) ≡ true)

  abbrev pub node_ops : List (Node V) → List Op
  node_ops [] = []
  node_ops (n ∷ ns) = n.op ∷ node_ops ns

  abbrev pub AllFit : List (Node V) → Type 0
  AllFit [] = Unit
  AllFit (n ∷ ns) = FitsHeader n × AllFit ns

  abbrev node_with : Node V → ℤ → CdefDs
  node_with n v = record { op = n.op; val = v }
