-- ===== src/Rpn.antt =====
-- Expressions in reverse Polish notation, rrdtool-1.4.5/src/rrd_rpncalc.c: their nodes, and what of
-- the C library the calculator calls. The children are the calculator (Stack, Series, Calc), the
-- compact form of an expression in a database header (Compact); Sample is for tests.
pub mod Sample
pub mod Stack
pub mod Series
pub mod Calc
pub mod Zone
pub mod Compact
use administracion_servicios.Prelude.{ℕ, Bool, List}
use administracion_servicios.Prelude.Int.{ℤ}
use administracion_servicios.Double.{Double}

-- `enum op_en`
pub data Op : Type 0 where
  op_number op_variable op_inf op_prev op_neginf : Op
  op_unkn op_now op_time op_add op_mod op_sub op_mul : Op
  op_div op_sin op_dup op_exc op_pop : Op
  op_cos op_log op_exp op_lt op_le op_gt op_ge op_eq op_if : Op
  op_min op_max op_limit op_floor op_ceil : Op
  op_un op_end op_ltime op_ne op_isinf op_prev_other op_count : Op
  op_atan op_sqrt op_sort op_rev op_trend op_trendnan : Op
  op_atan2 op_rad2deg op_deg2rad : Op
  op_predict op_predictsigma : Op
  op_avg op_abs op_addnan : Op

-- `rpnp_t`. The pointer `data` is a memory of values, which the calculator only reads, and a
-- position in it.
pub record Node (V : Type 0) : Type 0 where
  pub op : Op
  pub val : V
  pub ptr : ℤ
  pub memory : ℤ → V
  pub data_at : ℤ
  pub ds_cnt : ℤ
  pub step : ℤ

-- What the calculator takes from the mathematical library and from conversions between numbers:
-- no law is assumed of them. `ceil_div a b` is `(int) ceil((float) a / (float) b)`, `trunc` the
-- conversion to `int` or `time_t`, `qsort` the sort by `rpn_compare_double`.
pub record Math (F : Double) : Type 0 where
  pub fmod : F.V → F.V → F.V
  pub atan2 : F.V → F.V → F.V
  pub sin : F.V → F.V
  pub cos : F.V → F.V
  pub atan : F.V → F.V
  pub log : F.V → F.V
  pub exp : F.V → F.V
  pub sqrt : F.V → F.V
  pub ceil : F.V → F.V
  pub floor : F.V → F.V
  pub fabs : F.V → F.V
  pub isinf : F.V → Bool
  -- the constants 57.29577951 and 0.0174532952
  pub rad2deg : F.V
  pub deg2rad : F.V
  pub trunc : F.V → ℤ
  pub of_ℤ : ℤ → F.V
  pub ceil_div : ℤ → ℤ → ℤ
  pub qsort : List F.V → List F.V
