-- ===== src/Update/Steps/Count.antt =====
-- What the step counts of rrdtool-1.4.5/src/rrd_update.c count: the step boundaries passed.
use administracion_servicios.Prelude.{
  ℕ, ◌+◌, ◌-◌, ◌*◌, ◌/◌, ◌%◌, ◌^◌, ◌≤◌, ◌<◌, ◌≡◌, leb, leb→le, arith, ap, Bool-cases, inl, inr,
  true, false,
}
use native.Mathlib.Nat.{
  mod-add-div', mul-div_cancel, le-div_iff_mul-le, div-mul-le_self, mul-add-div_right, mod-lt,
  div-eq_of_lt,
}
use administracion_servicios.Double.{Double}
use administracion_servicios.Rrd.{LiveHead}
use administracion_servicios.Update.Rows.{sub_word}
use administracion_servicios.Update.Steps.{calculate_elapsed_steps, rra_step_cnt}

pub div_mono : {a b : ℕ} (s : ℕ) → 0 < s → a ≤ b → a / s ≤ b / s
div_mono {a} s h l = (le-div_iff_mul-le h).1 (omega (arith, div-mul-le_self a s))

sub_word_le : (a b : ℕ) → b ≤ a → a < 2 ^ 64 → sub_word a b ≡ a - b
sub_word_le a b l h = omega arith

-- The time of the last step boundary, as the source computes it.
word_floor : (x s : ℕ) → x < 2 ^ 64 → sub_word x (x % s) ≡ x / s * s
word_floor x s h = omega (arith, mod-add-div' x s)

sub-mul : (x y s : ℕ) → y / s ≤ x / s → x / s * s - y / s * s ≡ (x / s - y / s) * s
sub-mul x y s l =
    let k = x / s - y / s in
    let e : x / s ≡ y / s + k = omega arith in omega (arith, ap (λ (t : ℕ). t * s) e)

-- For a step above 0 and a current time below 2^64 that is not before the last update, the result
-- of `calculate_elapsed_steps` is the number of step boundaries between the last update and the
-- current time: the difference of the two times' step numbers. `proc_pdp_cnt` is the step number
-- of the last update.
pub elapsed-eq-boundaries :
    (F : Double) (live : LiveHead) (pdp_step now usec : ℕ) (interval : F.V)
    → 0 < pdp_step
    → live.last_up ≤ now
    → now < 2 ^ 64
    → let e = calculate_elapsed_steps F live pdp_step now usec interval in
      (e.proc_pdp_cnt ≡ live.last_up / pdp_step)
      × (e.elapsed_pdp_st + live.last_up / pdp_step ≡ now / pdp_step)
unfolding calculate_elapsed_steps
elapsed-eq-boundaries F live s now usec i a b c =
    let below = div_mono s a b in
    let e₁ = word_floor live.last_up s (omega arith) in
    let e₂ = word_floor now s c in
    let fits : live.last_up / s * s ≤ now / s * s = grind arith in
    let e₃ =
      sub_word_le (now / s * s) (live.last_up / s * s) fits (omega (arith, mod-add-div' now s)) in
    (
      rw e₁ (mul-div_cancel (live.last_up / s) a),
      rw (e₁, e₂, e₃)
          (rw (sub-mul now (live.last_up) s below)
            (rw (mul-div_cancel (now / s - live.last_up / s) a) (omega arith))),
    )

-- Where an archive consolidates at least one point, the rows that an update adds to it are the
-- boundaries between consolidated points that the elapsed steps pass: the count of points
-- completed after the update less that before it.
pub rra_step_cnt-eq-boundaries :
    (pdp_cnt proc_pdp_cnt elapsed : ℕ)
    → 0 < pdp_cnt
    → rra_step_cnt pdp_cnt proc_pdp_cnt elapsed + proc_pdp_cnt / pdp_cnt
      ≡ (proc_pdp_cnt + elapsed) / pdp_cnt
unfolding rra_step_cnt
rra_step_cnt-eq-boundaries c p e h = elim (Bool-cases (leb (c - p % c) e)) [
  | inl t ↦ rw t (after_first t)
  | inr t ↦ rw t (none_passed t)
]
  where
    after_first : leb (c - p % c) e ≡ true → (e - (c - p % c)) / c + 1 + p / c ≡ (p + e) / c
    after_first t =
        let l = leb→le _ _ t in
        let m = mod-lt p h in
        let split : p + e ≡ (p / c + 1) * c + (e - (c - p % c)) = omega (arith, mod-add-div' p c) in
        rw (split, mul-add-div_right h) (omega arith)

    none_passed : leb (c - p % c) e ≡ false → 0 + p / c ≡ (p + e) / c
    none_passed t =
        let l : e < c - p % c = ground arith in
        let split : p + e ≡ p / c * c + (p % c + e) = omega (arith, mod-add-div' p c) in
        let small : (p % c + e) / c ≡ 0 = div-eq_of_lt (omega arith) in
        rw (split, mul-add-div_right h, small) (omega arith)
