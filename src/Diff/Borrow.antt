-- ===== src/Diff/Borrow.antt =====
-- The borrows of `rrd_diff` (rrdtool-1.4.5/src/rrd_diff.c): what the two loops over the digits
-- compute, digits read from the last one on.
use administracion_servicios.Prelude.{
  ℕ, zero, suc, ◌+◌, ◌-◌, ◌*◌, ◌≤◌, ◌<◌, ◌≡◌, refl, false, List, [], ◌∷◌, ltb, arith, length, max,
  inl, inr, Bool-cases,
}
use administracion_servicios.Diff.{
  correct, both_left, first_left, second_left, subtract, complement, decimal, reverse_onto,
}

-- the value of digits, last digit first
abbrev pub val : List ℕ → ℕ
val [] = 0
val (d ∷ ds) = (d - b'0') + 10 * val ds

-- the place value `n` places up, of `c`
abbrev pub places : ℕ → ℕ → ℕ
places zero c = c
places (suc n) c = 10 * places n c

abbrev pub IsDigit : ℕ → Type 0
IsDigit d = (b'0' ≤ d) × (d ≤ b'9')

abbrev pub Digits : List ℕ → Type 0
Digits [] = Unit
Digits (d ∷ ds) = IsDigit d × Digits ds

correct_lem :
    (r : ℕ)
    → 38 ≤ r
    → r ≤ b'9'
    → ((correct r).0 ≡ r + 10 * (correct r).1) × IsDigit (correct r).0 × ((correct r).1 ≤ 1)
correct_lem r l m = ground arith

-- What the subtraction leaves: digits, as many as the longer number has, whose value is the
-- difference, up to the final borrow.
abbrev pub Difference : List ℕ → List ℕ → ℕ → List ℕ × ℕ → Type 0
Difference as₁ bs c (rs, c') =
    (val rs + val bs + c ≡ val as₁ + places (length rs) c')
    × Digits rs
    × (c' ≤ 1)
    × (val bs < places (length rs) 1)
    × (length rs ≡ max (length as₁) (length bs))

pub subtract-Difference :
    (as₁ bs : List ℕ) (c : ℕ)
    → Digits as₁
    → Digits bs
    → c ≤ 1
    → Difference as₁ bs c (subtract as₁ bs c)
unfolding subtract
subtract-Difference [] [] c x y l = (refl, tt, l, omega arith, refl)
subtract-Difference (a ∷ as₁) (b ∷ bs) c (x, xs) (y, ys) l =
    let (e, d, k) =
      correct_lem (both_left a b c) (omega (arith, x.0, y.1)) (omega (arith, x.1, y.0)) in
    let (p, q, r, s, t) = subtract-Difference as₁ bs (correct (both_left a b c)).1 xs ys k in
    (
      omega (arith, p, e, d.0, x.0, x.1, y.0, y.1),
      (d, q),
      r,
      omega (arith, s, y.1),
      omega (arith, t),
    )
subtract-Difference (a ∷ as₁) [] c (x, xs) y l =
    let (e, d, k) = correct_lem (first_left a c) (omega (arith, x.0)) (omega (arith, x.1)) in
    let (p, q, r, s, t) = subtract-Difference as₁ [] (correct (first_left a c)).1 xs tt k in
    (omega (arith, p, e, d.0, x.0, x.1), (d, q), r, omega (arith, s), omega (arith, t))
subtract-Difference [] (b ∷ bs) c x (y, ys) l =
    let (e, d, k) = correct_lem (second_left b c) (omega (arith, y.1)) (omega (arith, y.0)) in
    let (p, q, r, s, t) = subtract-Difference [] bs (correct (second_left b c)).1 tt ys k in
    (omega (arith, p, e, d.0, y.0, y.1), (d, q), r, omega (arith, s, y.1), omega (arith, t))

complement-zero :
    (rs : List ℕ) → Digits rs → val (complement rs 0) + val rs + 1 ≡ places (length rs) 1
unfolding complement
complement-zero [] x = refl
complement-zero (r ∷ rs) (x, xs) =
    let ih = complement-zero rs xs in
    let no : ltb b'9' (b'9' - r + 0 + b'0') ≡ false = ground (arith, x.0, x.1) in
    rw no (omega (arith, ih, x.0, x.1))

-- The second loop turns a nonzero result into its complement.
pub complement_lem :
    (rs : List ℕ) → Digits rs → 0 < val rs → val (complement rs 1) + val rs ≡ places (length rs) 1
unfolding complement
complement_lem [] x l = absurd (omega arith)
complement_lem (r ∷ rs) (x, xs) l = elim (Bool-cases (ltb b'9' (b'9' - r + 1 + b'0'))) [
  | inl e ↦
      let z : r ≡ b'0' = ground (arith, e, x.0, x.1) in
      let ih = complement_lem rs xs (omega (arith, l, z)) in rw e (omega (arith, ih, z))
  | inr e ↦
      let z : b'0' < r = ground (arith, e, x.0, x.1) in
      rw e (omega (arith, complement-zero rs xs, z, x.1))
]

pub val-reverse_onto : (ds acc : List ℕ) → val (reverse_onto ds acc) ≡ decimal (val acc) ds
val-reverse_onto [] acc = refl
val-reverse_onto (d ∷ ds) acc =
    let e : val (d ∷ acc) ≡ 10 * val acc + (d - b'0') = omega arith in
    rw⁻¹ e (val-reverse_onto ds (d ∷ acc))

pub decimal-reverse_onto :
    (rs acc : List ℕ) → decimal 0 (reverse_onto rs acc) ≡ decimal (val rs) acc
decimal-reverse_onto [] acc = refl
decimal-reverse_onto (r ∷ rs) acc =
    let e : val (r ∷ rs) ≡ 10 * val rs + (r - b'0') = omega arith in
    rw e (decimal-reverse_onto rs (r ∷ acc))

pub reverse_onto-Digits : (ds acc : List ℕ) → Digits ds → Digits acc → Digits (reverse_onto ds acc)
reverse_onto-Digits [] acc x y = y
reverse_onto-Digits (d ∷ ds) acc (x, xs) y = reverse_onto-Digits ds (d ∷ acc) xs (x, y)
