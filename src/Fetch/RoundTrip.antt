-- ===== src/Fetch/RoundTrip.antt =====
-- An archive written by rrdtool-1.4.5/src/rrd_update.c and read by rrdtool-1.4.5/src/rrd_fetch.c.
use administracion_servicios.Prelude.{ℕ, ◌+◌, ◌-◌, ◌/◌, ◌<◌, ◌≡◌, false, some, arith}
use administracion_servicios.Rrd.File.{RrdFile}
use administracion_servicios.Update.Rows.{primary, secondary, Archive, Rows, write_rows}
use administracion_servicios.Update.Rows.Ring.{
  History, pushes, row_of, Fits, Holds, Beside, write_rows-Holds,
}
use administracion_servicios.Fetch.{Source, fetch_from, round_request}
use administracion_servicios.Fetch.Rows.{Archived}
use administracion_servicios.Fetch.Window.{rows_of_steps, fetch_from-steps}

module _ {V : Type 0} (d : V) (a : Archive V) where
  -- the archive as the fetch sees it
  abbrev pub source_of : Source V
  source_of = record { rra_base = a.rra_start; row_cnt = a.row_cnt; ds_cnt = a.ds_cnt; dnan = d }

  Holds-Archived :
      (cur : ℕ) (f g : RrdFile V) (h : History V)
      → Holds d a cur g h
      → Fits d a f
      → Beside d a f g
      → Archived source_of cur g.values h
  Holds-Archived cur f g h o v b = record {
    inside = omega (arith, v.inside, b.same_length);
    in_range = o.in_range;
    cells = o.cells;
  }

  -- An update that writes `n` rows to an archive, which lies within the file, holds its history
  -- and is not to be skipped, succeeds, and every request that is then made with a step above 0
  -- returns, under its time, the row that was pushed for that step: the primary values in the
  -- first of the new rows, the secondary values in those behind it, and the older rows as they
  -- were, as far as the archive goes back; each other row is unknown.
  pub write_rows-fetch_from :
      (n : ℕ) (s : Rows V) (h : History V)
      → a.skip_update ≡ false
      → Fits d a s.file
      → Holds d a s.cur_row s.file h
      → (s' : Rows V) × (write_rows n primary a s ≡ some s')
        × ((start end step last_up : ℕ)
            → 0 < step
            → fetch_from source_of s'.cur_row last_up s'.file (round_request start end step)
              ≡ some (
                  rows_of_steps source_of
                    (pushes n (row_of d a primary) (row_of d a secondary) h)
                    (last_up / step)
                    (end / step + 1 - start / step)
                    (start / step + 1)))
  write_rows-fetch_from n s h k v o =
      let (s', e, o', b) = write_rows-Holds d a n primary s h k v o in
      (
        s',
        e,
        λ start end step last_up l.
            fetch_from-steps source_of (pushes n (row_of d a primary) (row_of d a secondary) h)
              s'.cur_row start end step last_up s'.file l
              (Holds-Archived s'.cur_row s.file s'.file _ o' v b),
      )
