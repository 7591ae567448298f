-- ===== src/Rpn/Sample.antt =====
-- Functions on integers in place of the mathematical library, to run the calculator on.
use administracion_servicios.Prelude.{
  suc, ◌+◌, ◌/◌, ◌%◌, ◌≡◌, refl, ap, ◌∙◌, Bool, true, false, Bool-cases, inl, inr, List, [], ◌∷◌,
  if◌then◌else◌, length,
}
use administracion_servicios.Prelude.Int.{ℤ, pos, pos_part, neg_part}
use administracion_servicios.Double.Sample.{Number, nan, inf, neg_inf, int, less, sample}
use administracion_servicios.Rpn.{Op, op_variable, Node, Math}

abbrev insert : Number → List Number → List Number
insert x [] = x ∷ []
insert x (y ∷ ys) = let rest = insert x ys in if less y x then y ∷ rest else x ∷ y ∷ ys

abbrev sorted : List Number → List Number
sorted [] = []
sorted (x ∷ xs) = insert x (sorted xs)

length-insert : (x : Number) (ys : List Number) → length (insert x ys) ≡ suc (length ys)
length-insert x [] = refl
length-insert x (y ∷ ys) = elim (Bool-cases (less y x)) [
  | inl e ↦ rw e (ap suc (length-insert x ys))
  | inr e ↦ rw e refl
]

pub length-sorted : (xs : List Number) → length (sorted xs) ≡ length xs
length-sorted [] = refl
length-sorted (x ∷ xs) = length-insert x (sorted xs) ∙ ap suc (length-sorted xs)

abbrev whole : Number → ℤ
whole (int z) = z
whole _ = pos 0

abbrev same : Number → Number
same x = x

abbrev size : Number → Number
size (int z) = int (pos (pos_part z + neg_part z))
size neg_inf = inf
size x = x

abbrev remainder : Number → Number → Number
remainder (int (pos a)) (int (pos (suc b))) = int (pos (a % suc b))
remainder _ _ = nan

abbrev infinite : Number → Bool
infinite inf = true
infinite neg_inf = true
infinite _ = false

abbrev quotient_up : ℤ → ℤ → ℤ
quotient_up (pos a) (pos (suc b)) = pos ((a + b) / suc b)
quotient_up _ _ = pos 0

abbrev pub sample_math : Math sample
sample_math = record {
  fmod = remainder;
  atan2 = λ x y. nan;
  sin = same;
  cos = same;
  atan = same;
  log = same;
  exp = same;
  sqrt = same;
  ceil = same;
  floor = same;
  fabs = size;
  isinf = infinite;
  rad2deg = int (pos 57);
  deg2rad = nan;
  trunc = whole;
  of_ℤ = int;
  ceil_div = quotient_up;
  qsort = sorted;
}

-- a node with a number
abbrev pub node : Op → Number → ℤ → Node Number
node op val ptr = record {
  op = op;
  val = val;
  ptr = ptr;
  memory = λ k. int (pos 0);
  data_at = pos 0;
  ds_cnt = pos 0;
  step = pos 0;
}

-- a variable with the values 10, 11, 12, … of a series with a step of 5, read at the place given
abbrev pub series : ℤ → Node Number
series at = record {
  op = op_variable;
  val = nan;
  ptr = pos 0;
  memory = λ k. int (pos (10 + pos_part k));
  data_at = at;
  ds_cnt = pos 1;
  step = pos 5;
}
