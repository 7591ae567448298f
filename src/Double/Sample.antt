-- ===== src/Double/Sample.antt =====
-- Integers with NaN and the infinities, as a `Double` to run the model on.
use administracion_servicios.Prelude.{
  ℕ, ◌/◌, Bool, true, false, if◌then◌else◌, ◌==◌, refl, ◌≡◌, suc, arith, ap,
}
use administracion_servicios.Prelude.Int.{ℤ, pos, ◌+ℤ◌, ◌-ℤ◌, ◌*ℤ◌, ltb_ℤ, pos_part}
use administracion_servicios.Double.{Double, HasNan, Exact}

pub data Number : Type 0 where
  nan inf neg_inf : Number
  int : ℤ → Number

abbrev pub is_nan : Number → Bool
is_nan nan = true
is_nan _ = false

unfoldable pub add : Number → Number → Number
unfolding ◌+ℤ◌
add (int a) (int b) = int (a +ℤ b)
add inf (int b) = inf
add (int a) inf = inf
add neg_inf (int b) = neg_inf
add (int a) neg_inf = neg_inf
add _ _ = nan

abbrev pub negated : Number → Number
negated (int a) = int (pos 0 -ℤ a)
negated inf = neg_inf
negated neg_inf = inf
negated nan = nan

unfoldable pub mul : Number → Number → Number
unfolding ◌*ℤ◌
mul (int a) (int b) = int (a *ℤ b)
mul inf (int (pos (suc n))) = inf
mul neg_inf (int (pos (suc n))) = neg_inf
mul _ _ = nan

-- exact where the divisor is positive and divides a number that is not negative
abbrev pub div : Number → Number → Number
div (int (pos a)) (int (pos b)) = if b == 0 then nan else int (pos (a / b))
div _ _ = nan

abbrev pub less : Number → Number → Bool
less (int a) (int b) = ltb_ℤ a b
less (int a) inf = true
less neg_inf (int b) = true
less neg_inf inf = true
less _ _ = false

abbrev pub floor_of : Number → ℕ
floor_of (int a) = pos_part a
floor_of _ = 0

abbrev pub sample : Double
sample = record {
  V = Number;
  isnan = is_nan;
  nan = nan;
  inf = inf;
  neg_inf = neg_inf;
  add = add;
  sub = λ a b. add a (negated b);
  mul = mul;
  div = div;
  neg = negated;
  lt = less;
  of_ℕ = λ n. int (pos n);
  floor = floor_of;
}

mul_one : (a : ℤ) → a *ℤ pos 1 ≡ a
unfolding ◌*ℤ◌
mul_one a = ground arith

add_zero : (a : ℤ) → a +ℤ pos 0 ≡ a
unfolding ◌+ℤ◌
add_zero a = ground arith

pub sample-HasNan : HasNan sample
sample-HasNan = record {
  isnan-nan = refl;
  isnan-of_ℕ = λ n. refl;
  isnan-inf = refl;
  isnan-neg_inf = refl;
}

mul_one_number : (a : Number) → is_nan a ≡ false → mul a (int (pos 1)) ≡ a
unfolding mul
mul_one_number nan h = cc
mul_one_number inf h = refl
mul_one_number neg_inf h = refl
mul_one_number (int a) h = ap int (mul_one a)

add_zero_number : (a : Number) → is_nan a ≡ false → add a (int (pos 0)) ≡ a
unfolding add
add_zero_number nan h = cc
add_zero_number inf h = refl
add_zero_number neg_inf h = refl
add_zero_number (int a) h = ap int (add_zero a)

less_neg_inf : (a : Number) → less a neg_inf ≡ false
less_neg_inf (int a) = refl
less_neg_inf _ = refl

inf_less : (a : Number) → less inf a ≡ false
inf_less (int a) = refl
inf_less _ = refl

pub sample-Exact : Exact sample
sample-Exact = record {
  mul_one = mul_one_number;
  add_zero = add_zero_number;
  lt_neg_inf = less_neg_inf;
  inf_lt = inf_less;
}
