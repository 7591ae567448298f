-- ===== src/Rrd.antt =====
-- The round robin database in memory, after the structures of rrdtool-1.4.5/src/rrd_format.h and
-- the name conversions of rrdtool-1.4.5/src/rrd_format.c. The arrays `rra_def`, `rra_ptr` and
-- `cdp_prep`, which the source indexes by the archive (and, within `cdp_prep`, by the data source),
-- are one list of archives; `ds_def` and `pdp_prep` are one list of data sources. A `unival`
-- array is a record with the fields that its index enumeration names.
pub mod File
pub mod Names
use administracion_servicios.Prelude.{ℕ, Bool, List}

-- `enum cf_en`
pub data Cf : Type 0 where
  average minimum maximum last hwpredict seasonal devpredict devseasonal failures mhwpredict : Cf

-- `enum dst_en`
pub data Dst : Type 0 where
  counter absolute gauge derive cdef : Dst

module _ (V : Type 0) where
  -- `cdp_prep_t`, by `enum cdp_par_en`. The seasonal fields are other names of the first two
  -- Holt-Winters ones, and `init_seasonal` of `null_count`, as in the source. `violations` is the
  -- part of the array that a FAILURES archive reads as bytes.
  pub record CdpPrep : Type 0 where
    pub cdp_val : V
    pub unkn_pdp_cnt : ℕ
    pub hw_intercept : V
    pub hw_last_intercept : V
    pub hw_slope : V
    pub hw_last_slope : V
    pub null_count : ℕ
    pub last_null_count : ℕ
    pub primary_val : V
    pub secondary_val : V
    pub violations : List ℕ

  -- `rra_def_t` with `cf_nam` read by `cf_conv`, by `enum rra_par_en`
  pub record RraDef : Type 0 where
    pub cf : Cf
    pub row_cnt : ℕ
    pub pdp_cnt : ℕ
    pub xff : V
    pub seasonal_smooth_idx : ℕ
    pub window_len : ℕ

  -- one archive: its definition, `rra_ptr_t.cur_row`, and its `cdp_prep`, one for a data source
  pub record Rra : Type 0 where
    pub def : RraDef
    pub cur_row : ℕ
    pub cdp_prep : List CdpPrep

  -- `ds_def_t` with `dst` read by `dst_conv`, by `enum ds_param_en`
  pub record DsDef : Type 0 where
    pub ds_nam : List ℕ
    pub dst : Dst
    pub mrhb_cnt : ℕ
    pub min_val : V
    pub max_val : V

  -- `pdp_prep_t`, by `enum pdp_par_en`
  pub record PdpPrep : Type 0 where
    pub last_ds : List ℕ
    pub unkn_sec_cnt : ℕ
    pub pdp_val : V

-- `live_head_t`
pub record LiveHead : Type 0 where
  pub last_up : ℕ
  pub last_up_usec : ℕ
