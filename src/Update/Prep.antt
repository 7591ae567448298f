-- ===== src/Update/Prep.antt =====
-- `update_all_cdp_prep` and `update_cdp_prep` of rrdtool-1.4.5/src/rrd_update.c, with
-- `lookup_seasonal` of rrdtool-1.4.5/src/rrd_hw.c: what the elapsed steps do to the consolidation of
-- every archive, before rows are written. `none` is the result -1, after an error of `rrd_read`.
pub mod Counts
mod Tests
use administracion_servicios.Prelude.{
  ℕ, zero, suc, ◌+◌, ◌*◌, ◌%◌, Bool, true, false, ◌&&◌, ◌||◌, Option, none, some, List, [], ◌∷◌,
  ltb, leb, ◌==◌, if◌then◌else◌, length, get_or,
}
use administracion_servicios.Double.{Double}
use administracion_servicios.Rrd.{Cf, seasonal, devseasonal, CdpPrep, Rra}
use administracion_servicios.Rrd.File.{RrdFile, rrd_seek, rrd_read}
use administracion_servicios.Update.Rows.{Pending}
use administracion_servicios.Update.Steps.{start_pdp_offset, rra_step_cnt}
use administracion_servicios.Update.Cdp.{update_cdp, reset_cdp, do_schedule_smooth}

-- whether the archive is one of seasonal coefficients
abbrev pub is_seasonal : Cf → Bool
is_seasonal seasonal = true
is_seasonal devseasonal = true
is_seasonal _ = false

module _ (F : Double) where
  open F use {V, nan}

  -- `lookup_seasonal`: the row `offset` rows behind the current one, and the file after the read
  unfoldable pub lookup_seasonal : Rra V → ℕ → ℕ → ℕ → RrdFile V → Option (List V × RrdFile V)
  lookup_seasonal r ds_cnt rra_start offset f =
      let row = r.cur_row + offset in
      let row_idx = if leb r.def.row_cnt row then row % r.def.row_cnt else row in
      let (got, g) = rrd_read (rrd_seek f (rra_start + row_idx * ds_cnt)) ds_cnt in
      if length got == ds_cnt then some (got, g) else none

  -- what `update_all_cdp_prep` is called with
  pub record Elapsing : Type 0 where
    pub ds_cnt : ℕ
    pub elapsed_pdp_st : ℕ
    pub proc_pdp_cnt : ℕ
    pub pdp_temp : List V

  -- what it changes beside the archives: the two rows of coefficients, whether to smooth later, the
  -- file (only its position)
  pub record Season : Type 0 where
    pub last_seasonal_coef : List V
    pub seasonal_coef : List V
    pub schedule_smooth : Bool
    pub file : RrdFile V

  -- the body of the loop of `update_cdp_prep`
  abbrev pub update_one : Elapsing → Season → Rra V → ℕ → CdpPrep V → CdpPrep V
  update_one e s r ds_idx c =
      let value = get_or e.pdp_temp ds_idx nan in
      if ltb 1 r.def.pdp_cnt
      then update_cdp F c r.def.cf value
          (rra_step_cnt r.def.pdp_cnt e.proc_pdp_cnt e.elapsed_pdp_st) e.elapsed_pdp_st
          (start_pdp_offset r.def.pdp_cnt e.proc_pdp_cnt) r.def.pdp_cnt r.def.xff
      else if ltb 2 e.elapsed_pdp_st
      then reset_cdp F c r.def.cf e.elapsed_pdp_st value (get_or s.last_seasonal_coef ds_idx nan)
          (get_or s.seasonal_coef ds_idx nan) r.def.window_len
      else c

  -- `update_cdp_prep`, from the data source `ds_idx` on
  unfoldable pub update_cdp_prep :
      Elapsing → Season → Rra V → ℕ → List (CdpPrep V) → List (CdpPrep V)
  update_cdp_prep e s r ds_idx [] = []
  update_cdp_prep e s r ds_idx (c ∷ cs) =
      update_one e s r ds_idx c ∷ update_cdp_prep e s r (ds_idx + 1) cs

  -- `skip_update`
  abbrev pub skips : Rra V → ℕ → Bool
  skips r step_cnt = is_seasonal r.def.cf && ltb 1 step_cnt

  -- the two calls of `lookup_seasonal` for a bulk update
  abbrev pub look_ahead : Elapsing → ℕ → Rra V → Season → Option Season
  look_ahead e rra_start r s = elim (lookup_seasonal r e.ds_cnt rra_start e.elapsed_pdp_st s.file) [
    | none ↦ none
    | some (last, f) ↦ elim (lookup_seasonal r e.ds_cnt rra_start (e.elapsed_pdp_st + 1) f) [
      | none ↦ none
      | some (coef, g) ↦
          some (record s { last_seasonal_coef = last; seasonal_coef = coef; file = g })
    ]
  ]

  -- `init_seasonal`, which is `null_count` of the first data source
  abbrev pub init_seasonal : List (CdpPrep V) → ℕ
  init_seasonal [] = 0
  init_seasonal (c ∷ cs) = c.null_count

  abbrev pub set_init_seasonal : ℕ → List (CdpPrep V) → List (CdpPrep V)
  set_init_seasonal n [] = []
  set_init_seasonal n (c ∷ cs) = record c { null_count = n } ∷ cs

  -- the block for SEASONAL and DEVSEASONAL: the entries of the archive and the season after it
  unfoldable pub seasonal_block : Elapsing → ℕ → Rra V → Season → Option (List (CdpPrep V) × Season)
  seasonal_block e rra_start r s =
      let step_cnt = rra_step_cnt r.def.pdp_cnt e.proc_pdp_cnt e.elapsed_pdp_st in
      let (smooth, init) =
        do_schedule_smooth r.cur_row r.def.row_cnt r.def.seasonal_smooth_idx
          (init_seasonal r.cdp_prep) e.elapsed_pdp_st in
      let ahead = if ltb 1 step_cnt then look_ahead e rra_start r s else some s in
      if is_seasonal r.def.cf
      then (elim ahead [
        | none ↦ none
        | some t ↦ some (
          set_init_seasonal init r.cdp_prep,
          record t { schedule_smooth = smooth || t.schedule_smooth },
        )
      ])
      else some (r.cdp_prep, s)

  -- `update_all_cdp_prep`, from the archive at `rra_start` on
  unfoldable pub update_all_cdp_prep :
      Elapsing → ℕ → List (Rra V) → Season → Option (List (Pending V) × Season)
  update_all_cdp_prep e rra_start [] s = some ([], s)
  update_all_cdp_prep e rra_start (r ∷ rs) s =
      let step_cnt = rra_step_cnt r.def.pdp_cnt e.proc_pdp_cnt e.elapsed_pdp_st in
      elim (seasonal_block e rra_start r s) [
        | none ↦ none
        | some (cs, t) ↦ elim (update_all_cdp_prep e (rra_start + r.def.row_cnt * e.ds_cnt) rs t) [
          | none ↦ none
          | some (ps, u) ↦ some (
            record {
              rra = record r { cdp_prep = update_cdp_prep e t r 0 cs };
              step_cnt = step_cnt;
              skip_update = skips r step_cnt;
            }
                ∷ ps,
            u,
          )
        ]
      ]
