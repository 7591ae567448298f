-- ===== src/Fetch/Window.antt =====
-- What `rrd_fetch_fn` of rrdtool-1.4.5/src/rrd_fetch.c returns from the chosen archive: a row for
-- each step of the rounded request, under its time.
use native.Mathlib.Nat.{mod-eq_of_lt, mod-eq-sub-mod}
use native.Mathlib.Decide.{dec_lt}
use administracion_servicios.Prelude.{
  ℕ, zero, suc, ◌+◌, ◌-◌, ◌*◌, ◌/◌, ◌%◌, ◌≤◌, ◌<◌, ◌≡◌, refl, ap, ◌∙◌, arith, false, leb, ltb,
  if◌then◌else◌, ◌&&◌, inl, inr, Bool-cases, some, List, [], ◌++◌, length, replicate, length-append,
  length-replicate,
}
use administracion_servicios.Prelude.Int.{ℤ, negsuc, sub_ℕ, pos_part}
use administracion_servicios.Rrd.File.{RrdFile, rrd_seek}
use administracion_servicios.Update.Rows.Ring.{History, slot}
use administracion_servicios.Fetch.{
  round_request, Offsets, overlaps, rounds, fetch_from, fetch_rows, Source, Reading, first_pointer,
}
use administracion_servicios.Fetch.Rounding.{
  offsets, start_offset_lem, rounds_lem, no_overlap, suc_ℤ-sub,
}
use administracion_servicios.Fetch.Rows.{
  Archived, row_at, rows_from, tabulate, Placed, fetch_rows-rows_from, fetch_rows-below,
  length-tabulate,
}

-- The place `k` rows behind the oldest.
mod-slot : (cur k n : ℕ) → cur < n → k < n → (cur + 1 + k) % n ≡ slot n cur (n - 1 - k)
mod-slot cur k n l m = elim (dec_lt (cur + 1 + k) n) [
  | yes p ↦ ground (arith, mod-eq_of_lt p)
  | no p ↦ ground (
    arith,
    mod-eq-sub-mod {n = cur + 1 + k} {m = n} (omega arith),
    mod-eq_of_lt {n = cur + 1 + k - n} {m = n} (omega arith),
  )
]

module _ {V : Type 0} (a : Source V) (h : History V) where
  -- The row of step number `t` of a database that was last updated in step `last`: the row written
  -- `last - t` rows before the newest, as long as the archive goes back so far, and else a row of
  -- unknowns.
  abbrev pub row_of_step : ℕ → ℕ → List V
  row_of_step last t =
      if leb t last && ltb (last - t) a.row_cnt
      then tabulate a.ds_cnt (h (last - t))
      else replicate a.ds_cnt a.dnan

  -- the rows of `k` steps from step `t` on
  abbrev pub rows_of_steps : ℕ → ℕ → ℕ → List V
  rows_of_steps last zero t = []
  rows_of_steps last (suc k) t = row_of_step last t ++ rows_of_steps last k (t + 1)

  length-row_of_step : (last t : ℕ) → length (row_of_step last t) ≡ a.ds_cnt
  length-row_of_step last t = elim (Bool-cases (leb t last && ltb (last - t) a.row_cnt)) [
    | inl e ↦ rw e (length-tabulate a.ds_cnt (h (last - t)))
    | inr e ↦ rw e (length-replicate a.ds_cnt a.dnan)
  ]

  pub length-rows_of_steps : (last k t : ℕ) → length (rows_of_steps last k t) ≡ k * a.ds_cnt
  length-rows_of_steps last zero t = omega arith
  length-rows_of_steps last (suc k) t = omega (
    arith,
    length-append (row_of_step last t) (rows_of_steps last k (t + 1)),
    length-row_of_step last t,
    length-rows_of_steps last k (t + 1),
  )

  module _ (cur : ℕ) (values : List V) where
    -- An index of the archive and the step that it stands for.
    row_at-step :
        (last s : ℕ)
        → 0 < a.row_cnt
        → row_at a cur values h (sub_ℕ (s + a.row_cnt) last) ≡ row_of_step last (s + 1)
    row_at-step last s n = ground arith

    rows_from-steps :
        (last k s : ℕ)
        → 0 < a.row_cnt
        → rows_from a cur values h k (sub_ℕ (s + a.row_cnt) last) ≡ rows_of_steps last k (s + 1)
    rows_from-steps last zero s n = refl
    rows_from-steps last (suc k) s n =
        let next : suc (s + a.row_cnt) ≡ s + 1 + a.row_cnt = omega arith in
        rw (row_at-step last s n, suc_ℤ-sub, next)
          (ap (λ t. row_of_step last (s + 1) ++ t) (rows_from-steps last k (s + 1) n))

  module _ (cur start end step last_up : ℕ) (f : RrdFile V) (s : 0 < step)
      (v : Archived a cur f.values h) where
    abbrev rows_wanted : List V
    rows_wanted = rows_of_steps (last_up / step) (end / step + 1 - start / step) (start / step + 1)

    abbrev at_offset : Offsets
    at_offset = offsets start end step last_up a.row_cnt s (omega (arith, v.in_range))

    some_rows : 0 < a.row_cnt
    some_rows = omega (arith, v.in_range)

    rows_of_rounds :
        rows_from a cur f.values h (rounds a.row_cnt at_offset) at_offset.start_offset ≡ rows_wanted
    rows_of_rounds =
        rw
          (
            rounds_lem start end step last_up a.row_cnt s some_rows,
            start_offset_lem start end step last_up a.row_cnt s some_rows,
          )
          (rows_from-steps cur f.values (last_up / step) (end / step + 1 - start / step)
            (start / step) some_rows)

    -- the pointer and the position after the first seek
    sought : Reading V
    sought =
        let p = first_pointer at_offset.start_offset cur a.row_cnt in
        record { rra_pointer = p; file = rrd_seek f (a.rra_base + p * a.ds_cnt); copied = [] }

    sought-Placed : Placed a cur f.values h at_offset.start_offset sought
    unfolding sought rrd_seek
    sought-Placed = record {
      same = refl;
      at = λ _. refl;
      pointer = λ m. inl (mod-slot cur (pos_part at_offset.start_offset) a.row_cnt v.in_range m);
    }

    unsought : Reading V
    unsought = record { rra_pointer = 0; file = f; copied = [] }

    loop_sought :
        (r : Reading V) × (fetch_rows (rounds a.row_cnt at_offset) a at_offset.start_offset sought
          ≡ some r)
        × (r.copied ≡ rows_wanted)
    unfolding sought
    loop_sought =
        let (r, e, c) =
          fetch_rows-rows_from a cur f.values h (rounds a.row_cnt at_offset) at_offset.start_offset
            sought v sought-Placed in
        (r, e, c ∙ rows_of_rounds)

    -- a loop that does not come to an index of the archive
    below_zero :
        (k : ℕ) (z : ℤ) (i : ℕ)
        → z ≡ negsuc i
        → k ≤ suc i
        → (r : Reading V) × (fetch_rows k a z unsought ≡ some r)
          × (r.copied ≡ rows_from a cur f.values h k z)
    unfolding unsought
    below_zero k z i e l = rw e (fetch_rows-below a cur f.values h k i unsought l)

    no_round :
        (k : ℕ) (z : ℤ)
        → k ≡ 0
        → (r : Reading V) × (fetch_rows k a z unsought ≡ some r)
          × (r.copied ≡ rows_from a cur f.values h k z)
    unfolding unsought fetch_rows
    no_round k z e = rw e (unsought, refl, refl)

    number : rounds a.row_cnt at_offset ≡ end / step + 1 - start / step
    number = rounds_lem start end step last_up a.row_cnt s some_rows

    behind : last_up / step < start / step → Placed a cur f.values h at_offset.start_offset unsought
    unfolding unsought
    behind late = rw (start_offset_lem start end step last_up a.row_cnt s some_rows) (record {
      same = same;
      at = λ m. absurd (ground (arith, late));
      pointer = λ m. absurd (ground (arith, late));
    })
      where
        same : unsought.file.values ≡ f.values
        same = refl

    loop_unsought :
        overlaps (round_request start end step) at_offset ≡ false
        → (r : Reading V) × (fetch_rows
              (rounds a.row_cnt at_offset)
              a
              at_offset.start_offset
              unsought
            ≡ some r)
          × (r.copied ≡ rows_wanted)
    unfolding unsought
    loop_unsought e = elim (no_overlap start end step last_up a.row_cnt s some_rows e) [
      | inl late ↦
          let (r, x, c) =
            fetch_rows-rows_from a cur f.values h (rounds a.row_cnt at_offset)
              at_offset.start_offset unsought v (behind late) in
          (r, x, c ∙ rows_of_rounds)
      | inr early ↦ elim (dec_lt (start / step + a.row_cnt) (last_up / step)) [
        | yes p ↦
            let i = last_up / step - (start / step + a.row_cnt) - 1 in
            let at : at_offset.start_offset ≡ negsuc i =
              start_offset_lem start end step last_up a.row_cnt s some_rows ∙ ground arith in
            let (r, x, c) =
              below_zero (rounds a.row_cnt at_offset) at_offset.start_offset i at
                (omega (arith, number)) in
            (r, x, c ∙ rows_of_rounds)
        | no p ↦
            let (r, x, c) =
              no_round (rounds a.row_cnt at_offset) at_offset.start_offset (number ∙ omega arith) in
            (r, x, c ∙ rows_of_rounds)
      ]
    ]

    -- For a step above 0, an archive of the values that hold the history answers a request with
    -- one row for each step of the rounded request: the request's start is rounded down to a step,
    -- its end up to the next step, and the rows are those of the steps behind the start up to the
    -- end. Each is the row that was written for that step, or unknown where the archive has none.
    pub fetch_from-steps :
        fetch_from a cur last_up f (round_request start end step) ≡ some rows_wanted
    unfolding fetch_from sought unsought
    fetch_from-steps = elim (Bool-cases (overlaps (round_request start end step) at_offset)) [
      | inl e ↦ let (r, x, c) = loop_sought in ground (arith, e, x, c)
      | inr e ↦ let (r, x, c) = loop_unsought e in ground (arith, e, x, c)
    ]
