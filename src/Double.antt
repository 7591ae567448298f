-- ===== src/Double.antt =====
-- `rrd_value_t` of rrdtool-1.4.5/src/rrd.h, a C `double`, with the operations of the compiler and
-- of the mathematical library that the sources apply to it. The record assumes no law: a theorem
-- that needs one has it as a hypothesis (`HasNan`, `Exact`), and `Sample` is a value for tests.
pub mod Sample
use administracion_servicios.Prelude.{ℕ, Bool, true, false, ◌≡◌}

pub record Double : Type 1 where
  pub V : Type 0
  pub isnan : V → Bool
  -- DNAN, DINF and -DINF
  pub nan : V
  pub inf : V
  pub neg_inf : V
  pub add : V → V → V
  pub sub : V → V → V
  pub mul : V → V → V
  pub div : V → V → V
  pub neg : V → V
  -- `a < b`, false where either is not a number
  pub lt : V → V → Bool
  -- the conversion of an unsigned integer
  pub of_ℕ : ℕ → V
  -- the conversion to an unsigned long, of `floor` of a number that is not negative
  pub floor : V → ℕ

-- NaN is told apart from the numbers and from the infinities, and compares with nothing.
pub record HasNan (F : Double) : Type 0 where
  pub isnan-nan : F.isnan F.nan ≡ true
  pub isnan-of_ℕ : (n : ℕ) → F.isnan (F.of_ℕ n) ≡ false
  pub isnan-inf : F.isnan F.inf ≡ false
  pub isnan-neg_inf : F.isnan F.neg_inf ≡ false

-- The laws of arithmetic that hold of a `double` without rounding, the two zeros being one value,
-- and the infinities being the ends of the order.
pub record Exact (F : Double) : Type 0 where
  pub mul_one : (a : F.V) → F.isnan a ≡ false → F.mul a (F.of_ℕ 1) ≡ a
  pub add_zero : (a : F.V) → F.isnan a ≡ false → F.add a (F.of_ℕ 0) ≡ a
  pub lt_neg_inf : (a : F.V) → F.lt a F.neg_inf ≡ false
  pub inf_lt : (a : F.V) → F.lt F.inf a ≡ false
