-- ===== src/Update/Pdp/Series.antt =====
-- A series of updates within a step, closed by `process_pdp_st` of
-- rrdtool-1.4.5/src/rrd_update.c.
use administracion_servicios.Prelude.{
  ℕ, ◌+◌, ◌≡◌, refl, ap, ◌∙◌, false, ◌||◌, Bool-cases, inl, inr, Option, some, List, [], ◌∷◌,
  if◌then◌else◌, set, arith,
}
use administracion_servicios.Double.{Double}
use administracion_servicios.Rrd.{DsDef, PdpPrep}
use administracion_servicios.Update.Rows.{sub_word}
use administracion_servicios.Update.Readings.{is_cdef}
use administracion_servicios.Update.Pdp.{
  simple_update_ds, Closing, closing_rate, next_prep, process_pdp_st,
}

module _ (F : Double) where
  open F use {V, isnan, nan, add, sub, mul, div, lt, of_ℕ, floor}

  -- a series of updates within a step: interval and new value of each
  unfoldable pub updates : List (V × V) → PdpPrep V → PdpPrep V
  updates [] p = p
  updates ((interval, v) ∷ us) p = updates us (simple_update_ds F interval v p)

  -- the whole seconds of the updates whose value is unknown
  abbrev pub unknown_seconds : List (V × V) → ℕ
  unknown_seconds [] = 0
  unknown_seconds ((interval, v) ∷ us) =
      (if isnan v then floor interval else 0) + unknown_seconds us

  -- the known values, added up in their order on what has been collected; nothing is NaN
  abbrev pub known_sum : V → List (V × V) → V
  known_sum acc [] = acc
  known_sum acc ((interval, v) ∷ us) =
      known_sum (if isnan v then acc else if isnan acc then v else add acc v) us

  one_update :
      (interval v : V) (p : PdpPrep V)
      → ((simple_update_ds F interval v p).unkn_sec_cnt
          ≡ p.unkn_sec_cnt + (if isnan v then floor interval else 0))
        × ((simple_update_ds F interval v p).pdp_val
            ≡ (if isnan v then p.pdp_val else if isnan p.pdp_val then v else add p.pdp_val v))
  unfolding simple_update_ds
  one_update interval v p = (ground arith, ground arith)

  updates_lem :
      (us : List (V × V)) (p : PdpPrep V)
      → ((updates us p).unkn_sec_cnt ≡ p.unkn_sec_cnt + unknown_seconds us)
        × ((updates us p).pdp_val ≡ known_sum p.pdp_val us)
  unfolding updates
  updates_lem [] p = (omega arith, refl)
  updates_lem ((interval, v) ∷ us) p =
      let (a, b) = updates_lem us (simple_update_ds F interval v p) in
      let (x, y) = one_update interval v p in (omega (arith, a, x), b ∙ ap (λ t. known_sum t us) y)

  -- the rate of a step, from the seconds known to be unknown and the values collected
  abbrev pub rate_of : ℕ → ℕ → Closing F → V → ℕ → V → V
  rate_of pdp_step mrhb t pdp_new unknown collected =
      if lt (of_ℕ mrhb) t.interval || lt (div (of_ℕ pdp_step) (of_ℕ 2)) (of_ℕ unknown)
      then nan
      else if isnan pdp_new
      then div collected (sub (of_ℕ (sub_word t.diff_pdp_st unknown)) t.pre_int)
      else div
          (add (if isnan collected then of_ℕ 0 else collected)
            (mul (div pdp_new t.interval) t.pre_int))
          (sub (of_ℕ (sub_word t.diff_pdp_st unknown)) (of_ℕ 0))

  -- what is collected of the step that has begun: the whole seconds behind the last closed one, or
  -- the share that the new value has in them
  abbrev pub begun : Closing F → V → PdpPrep V → PdpPrep V
  begun t pdp_new p = record p {
    unkn_sec_cnt = if isnan pdp_new then floor t.post_int else 0;
    pdp_val = if isnan pdp_new then nan else mul (div pdp_new t.interval) t.post_int;
  }

  -- Updates within a step, of which any may be unknown, and then one that closes it, for a data
  -- source that is not computed: its entry of `pdp_temp` is unknown if the last interval exceeds the
  -- heartbeat or if the unknown seconds of all the updates together exceed half a step. Else it is
  -- the sum of the known values with the share of the last one in the time before the step's end,
  -- over the closed seconds less those of the updates that are unknown; where the last value is
  -- unknown it adds nothing, and its time before the step's end is taken off too. The entries of the
  -- other data sources stay, and the next step starts with the last value's share in the time
  -- behind the step's end, or with that time's whole seconds as unknown.
  pub process_pdp_st-updates :
      (rpn_calc : List V → ℕ → Option V) (pdp_step : ℕ) (t : Closing F) (ds_idx : ℕ) (d : DsDef V)
      (pdp_new : V) (us : List (V × V)) (p : PdpPrep V) (pdp_temp : List V)
      → is_cdef d.dst ≡ false
      → let unknown = p.unkn_sec_cnt + unknown_seconds us in
        process_pdp_st F rpn_calc pdp_step t ds_idx d pdp_new (updates us p) pdp_temp
        ≡ some (
          set pdp_temp ds_idx
              (rate_of pdp_step d.mrhb_cnt t pdp_new unknown (known_sum p.pdp_val us)),
          begun t pdp_new (updates us p),
        )
  unfolding process_pdp_st closing_rate next_prep
  process_pdp_st-updates rpn_calc pdp_step t ds_idx d pdp_new us p pdp_temp h =
      let (a, b) = updates_lem us p in
      elim (Bool-cases (isnan pdp_new)) [
        | inl e ↦ rw (h, a, b, e) refl
        | inr e ↦ rw (h, a, b, e) refl
      ]
