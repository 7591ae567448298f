-- ===== src/Update/Rows.antt =====
-- `write_to_rras` and `write_RRA_row` of rrdtool-1.4.5/src/rrd_update.c: the rows that an update
-- adds to the archives. `none` is the result -1, after an error of `rrd_write`.
pub mod Ring
pub mod Archives
pub mod Times
mod Tests
use administracion_servicios.Prelude.{
  ℕ, zero, suc, ◌+◌, ◌-◌, ◌*◌, ◌%◌, ◌^◌, Bool, true, false, Option, none, some, List, [], ◌∷◌, ◌++◌,
  map, leb, ◌==◌, if◌then◌else◌, length,
}
use administracion_servicios.Rrd.{CdpPrep, Rra}
use administracion_servicios.Rrd.File.{RrdFile, rrd_seek, write_all}

-- the two entries of `cdp_prep` that rows are written from: CDP_primary_val, CDP_secondary_val
pub data ScratchIdx : Type 0 where
  primary secondary : ScratchIdx

-- unsigned long subtraction
abbrev pub sub_word : ℕ → ℕ → ℕ
sub_word a b = (a + 2 ^ 64 - b) % 2 ^ 64

-- the initial `step_subtract`, and that of the rounds behind the first
abbrev pub step_subtract : ScratchIdx → ℕ
step_subtract primary = 1
step_subtract secondary = 2

-- `rra_time` in a round of the loop, with `step_cnt` = `rra_step_cnt[rra_idx]` in that round
unfoldable pub rra_time : ℕ → ℕ → ℕ → ScratchIdx → ℕ
rra_time current_time step_time step_cnt idx =
    sub_word (current_time - current_time % step_time)
      (sub_word step_cnt (step_subtract idx) * step_time % 2 ^ 64)

-- the advance of `cur_row`, with wrap-around
abbrev pub next_row : ℕ → ℕ → ℕ
next_row row_cnt cur_row = if leb row_cnt (cur_row + 1) then 0 else cur_row + 1

-- what the loop over the rows of one archive changes; `summary` lists the times under which
-- `rrd_update_v` reports the rows (`pcdp_summary`), first row first
pub record Rows (V : Type 0) : Type 0 where
  pub cur_row : ℕ
  pub file : RrdFile V
  pub summary : List ℕ

-- what the loop reads: the place of the archive in the file, its size, its values
pub record Archive (V : Type 0) : Type 0 where
  pub rra_start : ℕ
  pub row_cnt : ℕ
  pub ds_cnt : ℕ
  pub cdps : List (CdpPrep V)
  pub skip_update : Bool
  pub current_time : ℕ
  pub step_time : ℕ

-- an archive with what `update_all_cdp_prep` has found for it: `rra_step_cnt[rra_idx]` and
-- `skip_update[rra_idx]`
pub record Pending (V : Type 0) : Type 0 where
  pub rra : Rra V
  pub step_cnt : ℕ
  pub skip_update : Bool

module _ {V : Type 0} where
  abbrev pub scratch : ScratchIdx → CdpPrep V → V
  scratch primary c = c.primary_val
  scratch secondary c = c.secondary_val

  -- `write_RRA_row`: one value for each data source
  unfoldable pub write_rra_row : RrdFile V → List (CdpPrep V) → ScratchIdx → Option (RrdFile V)
  write_rra_row f cdps idx = write_all f (map (scratch idx) cdps)

  -- the seek of a round: only if the position is not the right one already
  abbrev pub seek_to : RrdFile V → ℕ → RrdFile V
  seek_to f pos_new = if f.pos == pos_new then f else rrd_seek f pos_new

  -- The inner loop of `write_to_rras`; the first argument is `rra_step_cnt[rra_idx]`.
  unfoldable pub write_rows : ℕ → ScratchIdx → Archive V → Rows V → Option (Rows V)
  write_rows zero idx a s = some s
  write_rows (suc n) idx a s =
      let row = next_row a.row_cnt s.cur_row in
      let f = seek_to s.file (a.rra_start + a.ds_cnt * row) in
      elim a.skip_update [
        | true ↦ write_rows n secondary a (record s { cur_row = row; file = f })
        | false ↦ elim (write_rra_row f a.cdps idx) [
          | none ↦ none
          | some g ↦ write_rows n secondary a (record {
            cur_row = row;
            file = g;
            summary = s.summary ++ (rra_time a.current_time a.step_time (suc n) idx ∷ []);
          })
        ]
      ]

  -- the archive of `write_rows` at a place in the file
  abbrev pub archive_at : ℕ → ℕ → ℕ → ℕ → Pending V → Archive V
  archive_at pdp_step ds_cnt current_time rra_start p = record {
    rra_start = rra_start;
    row_cnt = p.rra.def.row_cnt;
    ds_cnt = ds_cnt;
    cdps = p.rra.cdp_prep;
    skip_update = p.skip_update;
    current_time = current_time;
    step_time = p.rra.def.pdp_cnt * pdp_step;
  }

  -- `write_to_rras`: the archives one after the other, each behind the values of the one before
  unfoldable pub write_to_rras :
      ℕ
      → ℕ
      → ℕ
      → ℕ
      → List (Pending V)
      → RrdFile V
      → List ℕ
      → Option (List (Rra V) × RrdFile V × List ℕ)
  write_to_rras pdp_step ds_cnt current_time rra_start [] f summary = some ([], f, summary)
  write_to_rras pdp_step ds_cnt current_time rra_start (p ∷ ps) f summary =
      elim (write_rows p.step_cnt primary (archive_at pdp_step ds_cnt current_time rra_start p)
        (record { cur_row = p.rra.cur_row; file = f; summary = summary })) [
          | none ↦ none
          | some s ↦
              elim (write_to_rras pdp_step ds_cnt current_time
                (rra_start + p.rra.def.row_cnt * ds_cnt) ps s.file s.summary) [
                  | none ↦ none
                  | some (rras, g, times) ↦
                      some (record (p.rra) { cur_row = s.cur_row } ∷ rras, g, times)
                ]
        ]
