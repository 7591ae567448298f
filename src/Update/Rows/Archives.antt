-- ===== src/Update/Rows/Archives.antt =====
-- `write_to_rras` of rrdtool-1.4.5/src/rrd_update.c over all archives of a file: each one gets its
-- rows, and none disturbs another.
use administracion_servicios.Prelude.{
  ℕ, ◌+◌, ◌*◌, ◌≤◌, ◌<◌, ◌≡◌, inl, inr, refl, ◌∙◌, false, some, List, [], ◌∷◌, arith, length,
  get_or,
}
use administracion_servicios.Rrd.{Rra}
use administracion_servicios.Rrd.File.{RrdFile}
use administracion_servicios.Update.Rows.{
  primary, secondary, Archive, Pending, archive_at, write_to_rras,
}
use administracion_servicios.Update.Rows.Ring.{
  History, pushes, slot, row_of, Fits, Holds, write_rows-Holds, slot-lt, rows_apart,
}

module _ {V : Type 0} (d : V) (pdp_step ds_cnt current_time : ℕ) where
  -- the archive of `p`, placed at `start`
  abbrev pub placed : ℕ → Pending V → Archive V
  placed start p = archive_at pdp_step ds_cnt current_time start p

  -- Every archive is to be written, lies within the file, and holds its history.
  abbrev pub Before : ℕ → List (Pending V) → List (History V) → RrdFile V → Type 0
  Before start [] [] f = Unit
  Before start [] (h ∷ hs) f = ⊥
  Before start (p ∷ ps) [] f = ⊥
  Before start (p ∷ ps) (h ∷ hs) f =
      (p.skip_update ≡ false)
      × Fits d (placed start p) f
      × Holds d (placed start p) p.rra.cur_row f h
      × Before (start + p.rra.def.row_cnt * ds_cnt) ps hs f

  -- Every archive holds its history with its new rows pushed: the primary values first, then the
  -- secondary values.
  abbrev pub After : ℕ → List (Pending V) → List (Rra V) → List (History V) → RrdFile V → Type 0
  After start [] [] [] g = Unit
  After start (p ∷ ps) (r ∷ rs) (h ∷ hs) g =
      (r ≡ record (p.rra) { cur_row = r.cur_row })
      × Holds d (placed start p) r.cur_row g (
          pushes p.step_cnt (row_of d (placed start p) primary)
            (row_of d (placed start p) secondary) h)
      × After (start + p.rra.def.row_cnt * ds_cnt) ps rs hs g
  After start _ _ _ g = ⊥

  Holds-keep :
      (a : Archive V) {cur : ℕ} {f g : RrdFile V} {h : History V}
      → Holds d a cur f h
      → ((q : ℕ)
          → a.rra_start ≤ q
          → q < a.rra_start + a.ds_cnt * a.row_cnt
          → get_or g.values q d ≡ get_or f.values q d)
      → Holds d a cur g h
  Holds-keep a {cur} o same = record {
    in_range = o.in_range;
    cells = λ k ds l m.
        same _ (omega arith) (
          omega (
            arith,
            rows_apart a.ds_cnt (slot a.row_cnt cur k) a.row_cnt
                (slot-lt a.row_cnt cur k o.in_range l),
          ))
        ∙ o.cells k ds l m;
  }

  Before-keep :
      (start : ℕ) (ps : List (Pending V)) (hs : List (History V)) (f g : RrdFile V)
      → Before start ps hs f
      → length g.values ≡ length f.values
      → ((q : ℕ) → start ≤ q → get_or g.values q d ≡ get_or f.values q d)
      → Before start ps hs g
  Before-keep start [] [] f g b e same = tt
  Before-keep start [] (h ∷ hs) f g b e same = b
  Before-keep start (p ∷ ps) [] f g b e same = b
  Before-keep start (p ∷ ps) (h ∷ hs) f g (k, v, o, rest) e same = (
    k,
    record { inside = omega (arith, v.inside, e); width = v.width; rows = v.rows },
    Holds-keep (placed start p) o (λ q l _. same q l),
    Before-keep (start + p.rra.def.row_cnt * ds_cnt) ps hs f g rest e (λ q l. same q (omega arith)),
  )

  -- Where every archive lies within the file, has a value for each data source, holds its history
  -- and is not to be skipped, `write_to_rras` succeeds. Each archive, whose `cur_row` alone
  -- changes in memory, then holds its history with `rra_step_cnt` rows pushed, the primary values
  -- first and the secondary values behind them; what stands before the first archive, and the
  -- length of the file, are as they were.
  pub write_to_rras-After :
      (start : ℕ) (ps : List (Pending V)) (hs : List (History V)) (f : RrdFile V) (times : List ℕ)
      → Before start ps hs f
      → (rs : List (Rra V)) × (g : RrdFile V) × (times' : List ℕ) × (write_to_rras pdp_step ds_cnt
            current_time start ps f times
          ≡ some (rs, g, times'))
        × After start ps rs hs g
        × (length g.values ≡ length f.values)
        × ((q : ℕ) → q < start → get_or g.values q d ≡ get_or f.values q d)
  unfolding write_to_rras
  write_to_rras-After start [] [] f times b = ([], f, times, refl, tt, refl, λ q _. refl)
  write_to_rras-After start [] (h ∷ hs) f times b = absurd b
  write_to_rras-After start (p ∷ ps) [] f times b = absurd b
  write_to_rras-After start (p ∷ ps) (h ∷ hs) f times (k, v, o, rest) =
      let a = placed start p in
      let (s, e, o', b) =
        write_rows-Holds d a p.step_cnt primary
          (record { cur_row = p.rra.cur_row; file = f; summary = times }) h k v o in
      let start' = start + p.rra.def.row_cnt * ds_cnt in
      let (rs, g, times', e', after, len, low) = write_to_rras-After start' ps hs s.file s.summary (
        Before-keep start' ps hs f s.file rest b.same_length
          (λ q l. b.outside q (inr (omega arith)))) in
      (
        record (p.rra) { cur_row = s.cur_row } ∷ rs,
        g,
        times',
        ground (arith, e, e'),
        (refl, Holds-keep a o' (λ q l u. low q (omega arith)), after),
        len ∙ b.same_length,
        λ q l. low q (omega arith) ∙ b.outside q (inl l),
      )
