-- ===== src/Diff/Correct.antt =====
-- The result of `rrd_diff` (rrdtool-1.4.5/src/rrd_diff.c) on the texts of two readings.
use administracion_servicios.Prelude.{
  ℕ, zero, suc, ◌≤◌, ◌<◌, ◌≡◌, refl, ap, ◌∙◌, List, [], ◌∷◌, Bool, true, false, if◌then◌else◌,
  arith, length, inl, inr, Bool-cases,
}
use administracion_servicios.Prelude.Int.{ℤ, sub_ℕ}
use administracion_servicios.Diff.{
  isdigit, skip_sign, digits, subtract, decimal, reverse_onto, result, negate, value, difference,
  rrd_diff,
}
use administracion_servicios.Diff.Borrow.{
  val, places, Digits, Difference, subtract-Difference, complement_lem, val-reverse_onto,
  decimal-reverse_onto, reverse_onto-Digits,
}

places-zero : (n : ℕ) → places n 0 ≡ 0
places-zero zero = refl
places-zero (suc n) = omega (arith, places-zero n)

digits-Digits : (s : List ℕ) → Digits (digits s)
unfolding digits
digits-Digits [] = tt
digits-Digits (c ∷ s) = elim (Bool-cases (isdigit c)) [
  | inl e ↦ rw e (ground (arith, e), digits-Digits s)
  | inr e ↦ rw e tt
]

negate-sub_ℕ : (a b : ℕ) → negate (sub_ℕ a b) ≡ sub_ℕ b a
negate-sub_ℕ a b = ground arith

-- Without a final borrow the digits are the difference; with one their complement is its amount.
result-Difference :
    (as₁ bs rs : List ℕ) (c : ℕ)
    → Difference as₁ bs 0 (rs, c)
    → result (rs, c) ≡ sub_ℕ (val as₁) (val bs)
result-Difference as₁ bs rs zero (p, q, r, s, t) =
    let e = places-zero (length rs) in rw decimal-reverse_onto (ground (arith, p, e))
result-Difference as₁ bs rs (suc zero) (p, q, r, s, t) =
    let k = complement_lem rs q (omega (arith, p, s)) in
    rw decimal-reverse_onto (ground (arith, p, k))
result-Difference as₁ bs rs (suc (suc c)) (p, q, r, s, t) = absurd (omega (arith, r))

-- the digits that a text is read as
abbrev pub digits_of : List ℕ → List ℕ
digits_of a = digits (skip_sign false a).1

abbrev pub is_negative : List ℕ → Bool
is_negative a = (skip_sign false a).0

subtract-decimal :
    (da db : List ℕ)
    → Digits da
    → Digits db
    → result (subtract (reverse_onto da []) (reverse_onto db []) 0)
      ≡ sub_ℕ (decimal 0 da) (decimal 0 db)
subtract-decimal da db x y =
    let d =
      subtract-Difference (reverse_onto da []) (reverse_onto db []) 0
        (reverse_onto-Digits da [] x tt) (reverse_onto-Digits db [] y tt) (omega arith) in
    rw⁻¹ (val-reverse_onto da [], val-reverse_onto db [])
      (result-Difference (reverse_onto da []) (reverse_onto db [])
        (subtract (reverse_onto da []) (reverse_onto db []) 0).0
        (subtract (reverse_onto da []) (reverse_onto db []) 0).1 d)

difference-value :
    (na nb : Bool) (da db : List ℕ) (r : ℤ)
    → na ≡ nb
    → 0 < length da
    → 0 < length db
    → length da ≤ 28
    → length db ≤ 28
    → result (subtract (reverse_onto da []) (reverse_onto db []) 0) ≡ r
    → difference na da nb db ≡ value (if na then negate r else r)
unfolding difference
difference-value na nb [] db r h x y k l e = absurd (omega arith)
difference-value na nb (d ∷ da) [] r h x y k l e = absurd (omega arith)
difference-value true true (d ∷ da) (f ∷ db) r h x y k l e = ground (arith, k, l, e)
difference-value false false (d ∷ da) (f ∷ db) r h x y k l e = ground (arith, k, l, e)
difference-value true false (d ∷ da) (f ∷ db) r h x y k l e = cc
difference-value false true (d ∷ da) (f ∷ db) r h x y k l e = cc

-- Two readings of one sign, each of at least one and at most 28 digits: the result is the exact
-- difference of the two numbers, whatever borrows the digits need and whichever number is greater,
-- with its sign turned round if both readings are negative.
pub rrd_diff-difference :
    (a b : List ℕ)
    → is_negative a ≡ is_negative b
    → 0 < length (digits_of a)
    → 0 < length (digits_of b)
    → length (digits_of a) ≤ 28
    → length (digits_of b) ≤ 28
    → rrd_diff a b
      ≡ value (
          if is_negative a
          then sub_ℕ (decimal 0 (digits_of b)) (decimal 0 (digits_of a))
          else sub_ℕ (decimal 0 (digits_of a)) (decimal 0 (digits_of b)))
unfolding rrd_diff
rrd_diff-difference a b h x y k l =
    let da = digits_of a in
    let db = digits_of b in
    let e =
      subtract-decimal da db (digits-Digits (skip_sign false a).1)
        (digits-Digits (skip_sign false b).1) in
    difference-value (is_negative a) (is_negative b) da db (sub_ℕ (decimal 0 da) (decimal 0 db)) h x
      y k l e
    ∙ ap (λ t. value (if is_negative a then t else sub_ℕ (decimal 0 da) (decimal 0 db)))
        (negate-sub_ℕ (decimal 0 da) (decimal 0 db))
