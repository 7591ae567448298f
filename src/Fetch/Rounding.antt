-- ===== src/Fetch/Rounding.antt =====
-- The times and offsets of `rrd_fetch_fn` (rrdtool-1.4.5/src/rrd_fetch.c) as numbers of steps.
use native.Mathlib.Nat.{mod-add-div', mul-div_cancel, mod-lt}
use native.Mathlib.Decide.{dec_lt}
use administracion_servicios.Prelude.{
  ◌⊎◌, ℕ, zero, suc, ◌+◌, ◌-◌, ◌*◌, ◌/◌, ◌%◌, ◌≤◌, ◌<◌, ◌≡◌, refl, ap, arith, false, leb, leb→le,
  inl, inr, Bool-cases,
}
use administracion_servicios.Prelude.Int.{pos, negsuc, sub_ℕ, ◌-ℤ◌}
use administracion_servicios.Fetch.{
  tdiv, suc_ℤ, round_request, Offsets, find_offsets, overlaps, rounds,
}

pub floor-mul : (x s : ℕ) → x - x % s ≡ x / s * s
floor-mul x s = omega (arith, mod-add-div' x s)

-- Both ends of a rounded request are whole numbers of steps; the end is moved up, by a whole step
-- where it was on a step already.
pub round_request_lem :
    (start end step : ℕ)
    → 0 < step
    → let q = round_request start end step in
      (q.start ≡ start / step * step) × (q.end ≡ (end / step + 1) * step)
unfolding round_request
round_request_lem start end step h =
    (floor-mul start step, omega (arith, mod-add-div' end step, mod-lt end h))

mul_mono : (a b s : ℕ) → a ≤ b → a * s ≤ b * s
mul_mono a b s h = grind arith

mul_pos : (a s : ℕ) → 0 < a → 0 < s → 0 < a * s
mul_pos a s h k = grind arith

pub mul-diff : (x y s : ℕ) → y ≤ x → x * s - y * s ≡ (x - y) * s
mul-diff x y s h = let e : x ≡ y + (x - y) = omega arith in omega (arith, ap (λ (t : ℕ). t * s) e)

step_kept : (start end step : ℕ) → (round_request start end step).step ≡ step
unfolding round_request
step_kept start end step = refl

tdiv-sub : (x y s : ℕ) → 0 < s → tdiv (sub_ℕ (x * s) (y * s)) s ≡ sub_ℕ x y
tdiv-sub x y s h = elim (Bool-cases (leb y x)) [
  | inl t ↦
      let d = mul-diff x y s (leb→le _ _ t) in
      ground (arith, t, d, mul-div_cancel (x - y) h, mul_mono y x s)
  | inr t ↦
      let l : x ≤ y = ground (arith, t) in
      let d = mul-diff y x s l in
      let pos_diff : 0 < (y - x) * s = mul_pos (y - x) s (ground (arith, t)) h in
      let e : suc (y * s - x * s - 1) ≡ (y - x) * s = omega arith in
      ground (arith, t, e, mul-div_cancel (y - x) h)
]

pos-sub-sub : (a b c : ℕ) → pos a -ℤ sub_ℕ b c ≡ sub_ℕ (a + c) b
unfolding ◌-ℤ◌
pos-sub-sub a b c = ground arith

suc_ℤ-negsuc : (n : ℕ) → suc_ℤ (negsuc n) ≡ sub_ℕ 0 n
suc_ℤ-negsuc zero = refl
suc_ℤ-negsuc (suc n) = ground arith

pub suc_ℤ-sub : (a b : ℕ) → suc_ℤ (sub_ℕ a b) ≡ sub_ℕ (suc a) b
suc_ℤ-sub a b = ground (arith, suc_ℤ-negsuc (b - a - 1))

-- A request, as rounded, on an archive of `n` rows: the offsets count rows.
module _ (start end step last_up n : ℕ) (h : 0 < step) (k : 0 < n) where
  abbrev pub offsets : Offsets
  offsets = find_offsets (round_request start end step) last_up n

  pub start_offset_lem : offsets.start_offset ≡ sub_ℕ (start / step + n) (last_up / step)
  unfolding find_offsets
  start_offset_lem =
      let (a, _) = round_request_lem start end step h in
      let st : (round_request start end step).step ≡ step = step_kept start end step in
      let total : start / step * step + step + step * (n - 1) ≡ (start / step + n) * step =
        (let e : n ≡ n - 1 + 1 = omega arith in omega (arith, ap (λ (t : ℕ). t * step) e)) in
      rw (st, a, floor-mul last_up step, pos-sub-sub, total)
        (tdiv-sub (start / step + n) (last_up / step) step h)

  pub end_offset_lem : offsets.end_offset ≡ sub_ℕ (last_up / step) (end / step + 1)
  unfolding find_offsets
  end_offset_lem =
      let (_, b) = round_request_lem start end step h in
      rw (step_kept start end step, b, floor-mul last_up step)
        (tdiv-sub (last_up / step) (end / step + 1) step h)

  -- The loop makes a round for each step of the rounded request.
  pub rounds_lem : rounds n offsets ≡ end / step + 1 - start / step
  unfolding ◌-ℤ◌
  rounds_lem = rw (start_offset_lem, end_offset_lem) (ground arith)

  whole : step + step * (n - 1) ≡ n * step
  whole = let e : n ≡ n - 1 + 1 = omega arith in omega (arith, ap (λ (t : ℕ). t * step) e)

  -- Where nothing is sought the request lies behind the archive or before it.
  pub no_overlap :
      overlaps (round_request start end step) offsets ≡ false
      → (last_up / step < start / step) ⊎ (end / step + 1 + n < last_up / step)
  unfolding overlaps find_offsets ◌-ℤ◌
  no_overlap e = elim (dec_lt (last_up / step) (start / step)) [
    | yes p ↦ inl p
    | no p ↦ elim (dec_lt (end / step + 1 + n) (last_up / step)) [
      | yes r ↦ inr r
      | no r ↦ absurd (
          ground (
            arith,
            round_request_lem start end step h,
            step_kept start end step,
            floor-mul last_up step,
            mul_mono (start / step) (last_up / step) step (omega arith),
            mul_mono (last_up / step) (end / step + 1 + n) step (omega arith),
            whole,
            e,
          ))
    ]
  ]
