-- ===== src/Rpn/Series/Window.antt =====
-- OP_TREND of `rpn_calc` (rrdtool-1.4.5/src/rrd_rpncalc.c): its loop ends, and takes the values of a
-- window.
use administracion_servicios.Prelude.{ℕ, zero, suc, ◌+◌, ◌-◌, ◌/◌, Bool}
use administracion_servicios.Prelude.Int.{ℤ, pos, negsuc}
use administracion_servicios.Double.{Double}
use administracion_servicios.Rpn.{Node, Math}
use administracion_servicios.Rpn.Series.{back, taken}

module _ (F : Double) (m : Math F) where
  open F use {V, of_ℕ}

  -- the values of `k` places, from the one `i` places back on, taken one after the other
  abbrev pub window : ℕ → Bool → Node V → ℕ → V × ℕ → V × ℕ
  window zero b n i s = s
  window (suc k) b n i s = window k b n (suc i) (taken F m b (back F m n i) s)

  -- the number of steps that a duration covers, at least one
  abbrev pub steps_of : ℤ → ℕ → ℕ
  steps_of (pos d) step = (d - 1) / step + 1
  steps_of (negsuc _) step = 1
