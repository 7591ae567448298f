-- ===== src/Update/Pdp.antt =====
-- The primary data points of rrdtool-1.4.5/src/rrd_update.c: `simple_update`, which collects within
-- a step, and `process_pdp_st`, which closes steps. `rpn_calc` on a data source of the kind COMPUTE
-- (rrdtool-1.4.5/src/rrd_rpncalc.c) is a parameter, from `pdp_temp` and the index of the data source
-- to its value; `none` is its error. The counts of unknown seconds are below 2^31, where the cast to
-- `signed` changes nothing.
pub mod Series
mod Tests
use administracion_servicios.Prelude.{
  ℕ, ◌+◌, ◌*◌, Bool, true, false, ◌||◌, Option, none, some, List, [], ◌∷◌, if◌then◌else◌, get_or,
  set,
}
use administracion_servicios.Double.{Double}
use administracion_servicios.Rrd.{DsDef, PdpPrep}
use administracion_servicios.Update.Rows.{sub_word}
use administracion_servicios.Update.Readings.{is_cdef}

module _ (F : Double) where
  open F use {V, isnan, nan, add, sub, mul, div, lt, of_ℕ, floor}

  -- the body of the loop of `simple_update`
  unfoldable pub simple_update_ds : V → V → PdpPrep V → PdpPrep V
  simple_update_ds interval pdp_new p =
      if isnan pdp_new
      then record p { unkn_sec_cnt = p.unkn_sec_cnt + floor interval }
      else record p { pdp_val = if isnan p.pdp_val then pdp_new else add p.pdp_val pdp_new }

  -- `simple_update`; the lists have an entry for each data source
  unfoldable pub simple_update : V → List V → List (PdpPrep V) → List (PdpPrep V)
  simple_update interval (v ∷ vs) (p ∷ ps) =
      simple_update_ds interval v p ∷ simple_update interval vs ps
  simple_update interval _ ps = ps

  -- the lengths that a step is closed with: `interval`, `pre_int`, `post_int` and `diff_pdp_st`
  pub record Closing : Type 0 where
    pub interval : V
    pub pre_int : V
    pub post_int : V
    pub diff_pdp_st : ℕ

  -- `PDP_val` with the part of the new value that belongs to the steps that are closed
  abbrev pub closed_val : Closing → V → V → V
  closed_val t pdp_new pdp_val =
      if isnan pdp_new
      then pdp_val
      else add (if isnan pdp_val then of_ℕ 0 else pdp_val) (mul (div pdp_new t.interval) t.pre_int)

  -- whether the collected value is dumped: beyond the heartbeat, or half of a step is unknown
  abbrev pub is_dumped : ℕ → ℕ → V → ℕ → Bool
  is_dumped pdp_step mrhb interval unkn_sec_cnt =
      lt (of_ℕ mrhb) interval || lt (div (of_ℕ pdp_step) (of_ℕ 2)) (of_ℕ unkn_sec_cnt)

  -- the first value of `pdp_temp` at the data source
  unfoldable pub closing_rate : ℕ → ℕ → Closing → V → PdpPrep V → V
  closing_rate pdp_step mrhb t pdp_new p =
      if is_dumped pdp_step mrhb t.interval p.unkn_sec_cnt
      then nan
      else div (closed_val t pdp_new p.pdp_val) (
          sub (of_ℕ (sub_word t.diff_pdp_st p.unkn_sec_cnt))
            (if isnan pdp_new then t.pre_int else of_ℕ 0))

  -- `pdp_prep` made ready for the next run
  unfoldable pub next_prep : Closing → V → PdpPrep V → PdpPrep V
  next_prep t pdp_new p =
      if isnan pdp_new
      then record p { unkn_sec_cnt = floor t.post_int; pdp_val = nan }
      else record p { unkn_sec_cnt = 0; pdp_val = mul (div pdp_new t.interval) t.post_int }

  module _ (rpn_calc : List V → ℕ → Option V) where
    -- `process_pdp_st`: `pdp_temp` and the entry of `pdp_prep` after it
    unfoldable pub process_pdp_st :
        ℕ → Closing → ℕ → DsDef V → V → PdpPrep V → List V → Option (List V × PdpPrep V)
    process_pdp_st pdp_step t ds_idx d pdp_new p pdp_temp =
        let temp = set pdp_temp ds_idx (closing_rate pdp_step d.mrhb_cnt t pdp_new p) in
        if is_cdef d.dst
        then (elim (rpn_calc temp ds_idx) [
          | none ↦ none
          | some v ↦ some (set temp ds_idx v, next_prep t pdp_new p)
        ])
        else some (temp, next_prep t pdp_new p)

    -- `process_all_pdp_st`, from the data source `ds_idx` on
    unfoldable pub process_all_pdp_st :
        ℕ
        → Closing
        → ℕ
        → List (DsDef V)
        → List V
        → List (PdpPrep V)
        → List V
        → Option (List V × List (PdpPrep V))
    process_all_pdp_st pdp_step t ds_idx (d ∷ ds) (v ∷ vs) (p ∷ ps) pdp_temp =
        elim (process_pdp_st pdp_step t ds_idx d v p pdp_temp) [
          | none ↦ none
          | some (temp, q) ↦ elim (process_all_pdp_st pdp_step t (ds_idx + 1) ds vs ps temp) [
            | none ↦ none
            | some (temp', qs) ↦ some (temp', q ∷ qs)
          ]
        ]
    process_all_pdp_st pdp_step t ds_idx _ _ ps pdp_temp = some (pdp_temp, ps)
