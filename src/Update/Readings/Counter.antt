-- ===== src/Update/Readings/Counter.antt =====
-- Counters of 32 bits in `update_pdp_prep` of rrdtool-1.4.5/src/rrd_update.c, with `rrd_diff` of
-- rrdtool-1.4.5/src/rrd_diff.c.
use administracion_servicios.Prelude.{
  ℕ, ◌+◌, ◌-◌, ◌%◌, ◌^◌, ◌≤◌, ◌<◌, ◌≡◌, ◌∙◌, sym, ap, refl, inl, inr, true, false, Bool-cases,
  Option, some, List, [], ◌∷◌, leb, length, arith,
}
use administracion_servicios.Prelude.Int.{ℤ, pos, sub_ℕ, pos_part, neg_part, ltb_ℤ, ◌+ℤ◌}
use administracion_servicios.Double.{Double}
use administracion_servicios.Rrd.{counter}
use administracion_servicios.Diff.{value, skip_sign, digits, isdigit, decimal, rrd_diff}
use administracion_servicios.Diff.Correct.{digits_of, is_negative, rrd_diff-difference}
use administracion_servicios.Update.Readings.{
  is_unknown, all_digits, of_ℤ, catch_overflow, new_value,
}

skip_sign-digits :
    (c : ℕ) (s : List ℕ) → isdigit c ≡ true → skip_sign false (c ∷ s) ≡ (false, c ∷ s)
unfolding skip_sign
skip_sign-digits c s h = rw h refl

digits-all_digits : (s : List ℕ) → all_digits s ≡ true → digits s ≡ s
unfolding digits
digits-all_digits [] h = refl
digits-all_digits (c ∷ s) h = ground (arith, h, digits-all_digits s)

digits_of-all_digits :
    (s : List ℕ)
    → all_digits s ≡ true
    → 0 < length s
    → (is_negative s ≡ false) × (digits_of s ≡ s) × (is_unknown s ≡ false)
digits_of-all_digits [] h l = absurd (omega arith)
digits_of-all_digits (c ∷ s) h l =
    let e = skip_sign-digits c s (ground (arith, h)) in
    (rw (is_negative, e) refl, rw (digits_of, e) (digits-all_digits (c ∷ s) h), ground (arith, h))

module _ (F : Double) (strtod : List ℕ → Option F.V) where
  open F use {V, add, div, lt, of_ℕ}

  -- A `double` is exact on integers of up to 53 bits.
  pub record ExactInts : Type 0 where
    pub below :
        (z : ℤ) → pos_part z + neg_part z ≤ 2 ^ 53 → lt (of_ℤ F strtod z) (of_ℕ 0) ≡ ltb_ℤ z (pos 0)
    pub plus :
        (z : ℤ) (n : ℕ)
        → pos_part z + neg_part z ≤ 2 ^ 53
        → pos_part z + n ≤ 2 ^ 53
        → add (of_ℤ F strtod z) (of_ℕ n) ≡ of_ℤ F strtod (z +ℤ pos n)

  module _ (x : ExactInts) where
    no_wrap :
        (n o : ℕ)
        → n < 2 ^ 32
        → o ≤ n
        → catch_overflow F strtod (of_ℤ F strtod (sub_ℕ n o)) ≡ of_ℕ (n - o)
    no_wrap n o l m =
        let e : sub_ℕ n o ≡ pos (n - o) = ground arith in
        let b = x.below (pos (n - o)) (omega arith) in
        let f : ltb_ℤ (pos (n - o)) (pos 0) ≡ false = ground arith in
        rw e (rw b (rw f (rw b (rw f refl))))

    wrap :
        (n o : ℕ)
        → o < 2 ^ 32
        → n < o
        → catch_overflow F strtod (of_ℤ F strtod (sub_ℕ n o)) ≡ of_ℕ (n + 2 ^ 32 - o)
    unfolding ◌+ℤ◌
    wrap n o l m =
        let z = sub_ℕ n o in
        let b : ltb_ℤ z (pos 0) ≡ true = ground arith in
        let small : pos_part z + neg_part z ≤ 2 ^ 53 = ground arith in
        let fits : pos_part z + 2 ^ 32 ≤ 2 ^ 53 = ground arith in
        let e : z +ℤ pos (2 ^ 32) ≡ pos (n + 2 ^ 32 - o) = ground arith in
        let p = x.plus z (2 ^ 32) small fits in
        let c = x.below (pos (n + 2 ^ 32 - o)) (omega arith) in
        let f : ltb_ℤ (pos (n + 2 ^ 32 - o)) (pos 0) ≡ false = ground arith in
        let first = x.below z small in ground (arith, first, b, p, e, c, f)

    catch_overflow_lem :
        (n o : ℕ)
        → n < 2 ^ 32
        → o < 2 ^ 32
        → catch_overflow F strtod (of_ℤ F strtod (sub_ℕ n o)) ≡ of_ℕ ((n + 2 ^ 32 - o) % 2 ^ 32)
    catch_overflow_lem n o l m = elim (Bool-cases (leb o n)) [
      | inl e ↦ no_wrap n o l (ground (arith, e)) ∙ ap of_ℕ (ground (arith, e))
      | inr e ↦ wrap n o m (ground (arith, e)) ∙ ap of_ℕ (ground (arith, e))
    ]

    -- A counter whose readings, before and now, are one to 28 plain digits with a value below
    -- 2^32, where doubles are exact on integers of up to 53 bits: the new value is the number of
    -- counts between the readings modulo 2^32, so that one wrap-around of the counter between two
    -- readings does no harm, and the rate is that number over the interval.
    pub counter-wraps :
        (interval : V) (updval last_ds : List ℕ)
        → all_digits updval ≡ true
        → all_digits last_ds ≡ true
        → 0 < length updval
        → 0 < length last_ds
        → length updval ≤ 28
        → length last_ds ≤ 28
        → decimal 0 updval < 2 ^ 32
        → decimal 0 last_ds < 2 ^ 32
        → let counts = of_ℕ ((decimal 0 updval + 2 ^ 32 - decimal 0 last_ds) % 2 ^ 32) in
          new_value F strtod counter interval updval last_ds ≡ some (counts, div counts interval)
    unfolding new_value
    counter-wraps interval u v a b k l m n s t =
        let (sign, same, known) = digits_of-all_digits u a k in
        let (sign', same', known') = digits_of-all_digits v b l in
        let d =
          rrd_diff-difference u v (sign ∙ sym sign') (rw same k) (rw same' l) (rw same m)
            (rw same' n) in
        let e : rrd_diff u v ≡ value (sub_ℕ (decimal 0 u) (decimal 0 v)) =
          rw (sign, same, same') at d in
        let c = catch_overflow_lem (decimal 0 u) (decimal 0 v) s t in rw (a, known', e) (rw c refl)
