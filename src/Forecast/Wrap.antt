-- ===== src/Forecast/Wrap.antt =====
-- `MyMod` of rrdtool-1.4.5/src/rrd_hw.c, by which the smoother finds rows before the first one and
-- behind the last one of a seasonal archive. The values fit an `int`.
mod Tests
use native.Mathlib.Nat.{mod-lt, mod-eq_of_lt, mod-add-div', mul-add-mod_self_right}
use administracion_servicios.Prelude.{
  ℕ, zero, suc, ◌+◌, ◌-◌, ◌*◌, ◌/◌, ◌%◌, ◌<◌, ◌≡◌, ◌≢◌, refl, ap, ◌∙◌, arith,
}
use administracion_servicios.Prelude.Int.{ℤ, pos, negsuc}

unfoldable pub my_mod : ℤ → ℕ → ℕ
my_mod (pos n) m = n % m
my_mod (negsuc n) m = m - suc n % m

-- For a row that is not before the first one, and for one before it by a number that is no multiple
-- of the modulus, the result is a row in range that is congruent to it. For one before it by a
-- multiple of the modulus it is the modulus itself, one row behind the last.
pub my_mod_lem :
    (n m : ℕ)
    → 0 < m
    → (my_mod (pos n) m < m)
      × (my_mod (pos n) m + n / m * m ≡ n)
      × (suc n % m ≢ 0 → (my_mod (negsuc n) m < m) × ((my_mod (negsuc n) m + suc n) % m ≡ 0))
      × (suc n % m ≡ 0 → my_mod (negsuc n) m ≡ m)
unfolding my_mod
my_mod_lem n m l =
    let r = mod-lt (suc n) {m = m} l in
    let e = mod-add-div' (suc n) m in
    (
      mod-lt n l,
      mod-add-div' n m,
      λ h. (
        omega (arith, h, r),
        let s : m - suc n % m + suc n ≡ (suc n / m + 1) * m + 0 = omega (arith, e, r) in
            ap (λ x. x % m) s ∙ mul-add-mod_self_right (suc n / m + 1) m 0 ∙ mod-eq_of_lt l,
      ),
      λ h. omega (arith, h),
    )
