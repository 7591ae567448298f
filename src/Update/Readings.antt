-- ===== src/Update/Readings.antt =====
-- `update_pdp_prep` of rrdtool-1.4.5/src/rrd_update.c: how a reading becomes `pdp_new`, the rate
-- times the length of the interval. A reading is the list of its bytes up to the terminator. `strtod`
-- of the C library is a parameter, `none` where it sets `errno` or does not use the whole text. The
-- interval is a number, so that `>=` is the negation of `<`. A run that returns -1, and one in which
-- `rrd_diff` writes behind the end of its buffer, have the result `none`.
pub mod Bounds
pub mod Counter
mod Tests
use administracion_servicios.Prelude.{
  ℕ, zero, suc, ◌-◌, ◌^◌, Bool, true, false, not, ◌&&◌, ◌||◌, Option, none, some, List, [], ◌∷◌,
  leb, ◌==◌, if◌then◌else◌, take,
}
use administracion_servicios.Prelude.Int.{ℤ, pos, negsuc}
use administracion_servicios.Double.{Double}
use administracion_servicios.Rrd.{Dst, counter, absolute, gauge, derive, cdef, DsDef, PdpPrep}
use administracion_servicios.Diff.{Outcome, dnan, overrun, value, rrd_diff, isdigit, last_ds_len}

-- whether the first byte is `U`
abbrev pub is_unknown : List ℕ → Bool
is_unknown [] = false
is_unknown (c ∷ s) = c == b'U'

abbrev pub all_digits : List ℕ → Bool
all_digits [] = true
all_digits (c ∷ s) = isdigit c && all_digits s

-- the check of a reading of a COUNTER or, with a sign allowed at the front, of a DERIVE
abbrev pub simple_integer : Dst → List ℕ → Bool
simple_integer derive (c ∷ s) = (c == b'-' || isdigit c) && all_digits s
simple_integer _ s = all_digits s

abbrev pub is_cdef : Dst → Bool
is_cdef cdef = true
is_cdef _ = false

module _ (F : Double) (strtod : List ℕ → Option F.V) where
  open F use {V, isnan, nan, add, mul, div, neg, lt, of_ℕ}

  abbrev pub of_ℤ : ℤ → V
  of_ℤ (pos n) = of_ℕ n
  of_ℤ (negsuc n) = neg (of_ℕ (suc n))

  -- the double that `rrd_diff` returns
  abbrev pub diff_value : Outcome → Option V
  diff_value dnan = some nan
  diff_value overrun = none
  diff_value (value z) = some (of_ℤ z)

  -- the overflow catcher for counters of 32 and of 64 bits
  abbrev pub catch_overflow : V → V
  catch_overflow v =
      let w = if lt v (of_ℕ 0) then add v (of_ℕ (2 ^ 32)) else v in
      if lt w (of_ℕ 0) then add w (of_ℕ (2 ^ 64 - 2 ^ 32)) else w

  abbrev pub with_rate : V → Option V → Option (V × V)
  with_rate interval none = none
  with_rate interval (some v) = some (v, div v interval)

  -- `pdp_new` and `rate` of the two kinds that take differences
  abbrev pub from_difference : Dst → V → List ℕ → List ℕ → Option (V × V)
  from_difference dst interval updval last_ds =
      if not (simple_integer dst updval)
      then none
      else if is_unknown last_ds
      then some (nan, nan)
      else with_rate interval (elim dst [
        | counter ↦ elim (diff_value (rrd_diff updval last_ds)) [
          | none ↦ none
          | some v ↦ some (catch_overflow v)
        ]
        | _ ↦ diff_value (rrd_diff updval last_ds)
      ])

  -- the switch over the kinds of data source: `pdp_new` and `rate`
  unfoldable pub new_value : Dst → V → List ℕ → List ℕ → Option (V × V)
  new_value counter interval updval last_ds = from_difference counter interval updval last_ds
  new_value derive interval updval last_ds = from_difference derive interval updval last_ds
  new_value absolute interval updval last_ds = with_rate interval (strtod updval)
  new_value gauge interval updval last_ds =
      with_rate interval (elim (strtod updval) [ none ↦ none | some v ↦ some (mul v interval) ])
  new_value cdef interval updval last_ds = none

  -- whether the rate is outside the bounds of the data source
  abbrev pub out_of_bounds : DsDef V → V → Bool
  out_of_bounds d rate =
      not (isnan rate)
      && ((not (isnan d.max_val) && lt d.max_val rate)
          || (not (isnan d.min_val) && lt rate d.min_val))

  abbrev pub bounded : DsDef V → Option (V × V) → Option V
  bounded d none = none
  bounded d (some (v, rate)) = some (if out_of_bounds d rate then nan else v)

  abbrev pub store_reading : List ℕ → PdpPrep V → Option V → Option (V × PdpPrep V)
  store_reading updval p none = none
  store_reading updval p (some v) = some (v, record p { last_ds = take (last_ds_len - 1) updval })

  -- the body of the loop of `update_pdp_prep`: `pdp_new` at the data source, and its `pdp_prep`
  unfoldable pub update_pdp_prep_ds : DsDef V → V → List ℕ → PdpPrep V → Option (V × PdpPrep V)
  unfolding new_value
  update_pdp_prep_ds d interval updval p =
      let late = lt (of_ℕ d.mrhb_cnt) interval in
      let last_ds = if late then b'U' ∷ [] else p.last_ds in
      if not (is_unknown updval) && (not (is_cdef d.dst) && not late)
      then store_reading updval p (bounded d (new_value d.dst interval updval last_ds))
      else store_reading updval p (some nan)

  -- `update_pdp_prep`; the lists have an entry for each data source
  unfoldable pub update_pdp_prep :
      V → List (DsDef V) → List (List ℕ) → List (PdpPrep V) → Option (List V × List (PdpPrep V))
  update_pdp_prep interval (d ∷ ds) (u ∷ us) (p ∷ ps) = elim (update_pdp_prep_ds d interval u p) [
    | none ↦ none
    | some (v, q) ↦ elim (update_pdp_prep interval ds us ps) [
      | none ↦ none
      | some (vs, qs) ↦ some (v ∷ vs, q ∷ qs)
    ]
  ]
  update_pdp_prep interval _ _ _ = some ([], [])
