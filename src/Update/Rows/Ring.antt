-- ===== src/Update/Rows/Ring.antt =====
-- The rows of one archive as a history, newest row first: what the inner loop of `write_to_rras`
-- (rrdtool-1.4.5/src/rrd_update.c) adds to it, and that it touches nothing else in the file.
use native.Mathlib.Decide.{dec_lt}
use administracion_servicios.Prelude.{
  ℕ, zero, suc, ◌+◌, ◌-◌, ◌*◌, ◌≤◌, ◌<◌, ◌≡◌, ◌≢◌, ◌⊎◌, inl, inr, refl, ap, ◌∙◌, false, some, List,
  [], ◌∷◌, ◌++◌, map, arith, leb, if◌then◌else◌, length, get_or,
}
use administracion_servicios.Rrd.File.{RrdFile, rrd_seek, Wrote, write_all-Wrote}
use administracion_servicios.Update.Rows.{
  ScratchIdx, secondary, scratch, next_row, seek_to, rra_time, write_rra_row, Rows, Archive,
  write_rows,
}

-- the row that is `k` rows older than the one at `cur`, going round
abbrev pub slot : ℕ → ℕ → ℕ → ℕ
slot row_cnt cur k = if leb k cur then cur - k else cur + row_cnt - k

-- the rows written so far, newest first: row, data source, value
abbrev pub History : Type 0 → Type 0
History V = ℕ → ℕ → V

abbrev pub push : {V : Type 0} → (ℕ → V) → History V → History V
push r h zero = r
push r h (suc k) = h k

-- `n` rows pushed, the first with other values than those behind it
abbrev pub pushes : {V : Type 0} → ℕ → (ℕ → V) → (ℕ → V) → History V → History V
pushes zero r s h = h
pushes (suc n) r s h = pushes n s s (push r h)

length-map : {A B : Type 0} (f : A → B) (xs : List A) → length (map f xs) ≡ length xs
length-map f [] = refl
length-map f (x ∷ xs) = omega (arith, length-map f xs)

pub rows_apart : (d a b : ℕ) → a < b → d * a + d ≤ d * b
rows_apart d a b h = grind arith

pub slot-lt : (n c k : ℕ) → c < n → k < n → slot n c k < n
slot-lt n c k h l = ground arith

slot-zero : (n c : ℕ) → slot n c 0 ≡ c
slot-zero n c = ground arith

cells_apart :
    (s d a b ds : ℕ)
    → ds < d
    → a ≢ b
    → (s + d * a + ds < s + d * b) ⊎ (s + d * b + d ≤ s + d * a + ds)
cells_apart s d a b ds l ne = elim (dec_lt a b) [
  | yes p ↦ inl (omega (arith, rows_apart d a b p))
  | no p ↦ inr (omega (arith, rows_apart d b a (omega arith)))
]

module _ {V : Type 0} (d : V) (a : Archive V) where
  -- the values that a row is written from
  abbrev pub row_of : ScratchIdx → ℕ → V
  row_of idx ds = get_or (map (scratch idx) a.cdps) ds d

  -- The archive lies within the file, and has a value for each data source.
  pub record Fits (f : RrdFile V) : Type 0 where
    pub inside : a.rra_start + a.ds_cnt * a.row_cnt ≤ length f.values
    pub width : length a.cdps ≡ a.ds_cnt
    pub rows : 0 < a.row_cnt

  -- The file holds the last `row_cnt` rows of the history, the newest at `cur_row`.
  pub record Holds (cur_row : ℕ) (f : RrdFile V) (h : History V) : Type 0 where
    pub in_range : cur_row < a.row_cnt
    pub cells :
        (k ds : ℕ)
        → k < a.row_cnt
        → ds < a.ds_cnt
        → get_or f.values (a.rra_start + a.ds_cnt * slot a.row_cnt cur_row k + ds) d ≡ h k ds

  -- Outside the archive the two files agree, and they have one length.
  pub record Beside (f g : RrdFile V) : Type 0 where
    pub same_length : length g.values ≡ length f.values
    pub outside :
        (q : ℕ)
        → (q < a.rra_start) ⊎ (a.rra_start + a.ds_cnt * a.row_cnt ≤ q)
        → get_or g.values q d ≡ get_or f.values q d

  seek_to-values :
      (f : RrdFile V) (p : ℕ) → ((seek_to f p).values ≡ f.values) × ((seek_to f p).pos ≡ p)
  unfolding rrd_seek
  seek_to-values f p = ground arith

  row_inside :
      (cur : ℕ) {f : RrdFile V} {h : History V}
      → Fits f
      → Holds cur f h
      → next_row a.row_cnt cur < a.row_cnt
  row_inside cur v o = ground (arith, o.in_range, v.rows)

  -- What a write of one row at `row` leaves of the cells.
  module _ (cur : ℕ) (f f₀ g : RrdFile V) (vs : List V) (h : History V) (v : Fits f)
      (o : Holds cur f h) (same : f₀.values ≡ f.values)
      (at : f₀.pos ≡ a.rra_start + a.ds_cnt * next_row a.row_cnt cur) (full : length vs ≡ a.ds_cnt)
      (w : Wrote f₀ vs g) where
    newest :
        (ds : ℕ)
        → ds < a.ds_cnt
        → get_or g.values (a.rra_start + a.ds_cnt * next_row a.row_cnt cur + ds) d ≡ get_or vs ds d
    newest ds l =
        w.put _ d (omega (arith, at)) (omega (arith, at, full))
        ∙ (let e : a.rra_start + a.ds_cnt * next_row a.row_cnt cur + ds - f₀.pos ≡ ds =
              omega (arith, at) in
            rw e refl)

    older_slot :
        (k : ℕ)
        → suc k < a.row_cnt
        → (slot a.row_cnt (next_row a.row_cnt cur) (suc k) ≡ slot a.row_cnt cur k)
          × (slot a.row_cnt cur k < a.row_cnt)
          × (slot a.row_cnt cur k ≢ next_row a.row_cnt cur)
    older_slot k l = ground (arith, o.in_range)

    older :
        (j ds : ℕ)
        → ds < a.ds_cnt
        → j < a.row_cnt
        → j ≢ next_row a.row_cnt cur
        → get_or g.values (a.rra_start + a.ds_cnt * j + ds) d
          ≡ get_or f.values (a.rra_start + a.ds_cnt * j + ds) d
    older j ds l u ne =
        w.kept _ d (
          omega
            (arith, at, full, cells_apart a.rra_start a.ds_cnt j (next_row a.row_cnt cur) ds l ne))
        ∙ (rw same refl)

    step_Holds : Holds (next_row a.row_cnt cur) g (push (λ ds. get_or vs ds d) h)
    step_Holds = record { in_range = (row_inside cur v o); cells = cells }
      where
        cells :
            (k ds : ℕ)
            → k < a.row_cnt
            → ds < a.ds_cnt
            → get_or g.values
                (a.rra_start + a.ds_cnt * slot a.row_cnt (next_row a.row_cnt cur) k + ds)
                d
              ≡ push (λ e. get_or vs e d) h k ds
        cells zero ds l m = rw (slot-zero a.row_cnt (next_row a.row_cnt cur)) (newest ds m)
        cells (suc k) ds l m =
            let (e, u, ne) = older_slot k l in
            rw e (older (slot a.row_cnt cur k) ds m u ne ∙ o.cells k ds (omega arith) m)

    step_Beside : Beside f g
    step_Beside = record {
      same_length = rw (← same) w.file_len;
      outside = λ q k.
          w.kept q d (omega (arith, at, full, rows_apart a.ds_cnt _ _ (row_inside cur v o)))
          ∙ (rw same refl);
    }

  -- A round that writes succeeds, and pushes the row on the history.
  step :
      (idx : ScratchIdx) (cur : ℕ) (f : RrdFile V) (h : History V)
      → Fits f
      → Holds cur f h
      → (g : RrdFile V) × (write_rra_row
            (seek_to f (a.rra_start + a.ds_cnt * next_row a.row_cnt cur))
            a.cdps
            idx
          ≡ some g)
        × Holds (next_row a.row_cnt cur) g (push (row_of idx) h)
        × Beside f g
  unfolding write_rra_row
  step idx cur f h v o =
      let p = a.rra_start + a.ds_cnt * next_row a.row_cnt cur in
      let (same, at) = seek_to-values f p in
      let full : length (map (scratch idx) a.cdps) ≡ a.ds_cnt = length-map _ _ ∙ v.width in
      let (g, e, w) = write_all-Wrote (seek_to f p) (map (scratch idx) a.cdps) (
        omega (
          arith,
          at,
          full,
          ap length same,
          v.inside,
          rows_apart a.ds_cnt _ _ (row_inside cur v o),
        )) in
      (
        g,
        e,
        step_Holds cur f (seek_to f p) g _ h v o same at full w,
        step_Beside cur f (seek_to f p) g _ h v o same at full w,
      )

  Beside-trans : {f g k : RrdFile V} → Beside f g → Beside g k → Beside f k
  Beside-trans x y = record {
    same_length = y.same_length ∙ x.same_length;
    outside = λ q o. y.outside q o ∙ x.outside q o;
  }

  -- The loop writes all its rows: it succeeds, pushes them on the history, and leaves the rest of
  -- the file alone.
  pub write_rows-Holds :
      (n : ℕ) (idx : ScratchIdx) (s : Rows V) (h : History V)
      → a.skip_update ≡ false
      → Fits s.file
      → Holds s.cur_row s.file h
      → (t : Rows V) × (write_rows n idx a s ≡ some t)
        × Holds t.cur_row t.file (pushes n (row_of idx) (row_of secondary) h)
        × Beside s.file t.file
  unfolding write_rows
  write_rows-Holds zero idx s h k v o =
      (s, refl, o, record { same_length = refl; outside = λ q _. refl })
  write_rows-Holds (suc n) idx s h k v o =
      let (g, e, o', b) = step idx s.cur_row s.file h v o in
      let (t, e', o'', b') =
        write_rows-Holds n secondary
          (record {
            cur_row = next_row a.row_cnt s.cur_row;
            file = g;
            summary = s.summary ++ (rra_time a.current_time a.step_time (suc n) idx ∷ []);
          })
          (push (row_of idx) h) k
          (record {
            inside = omega (arith, v.inside, b.same_length);
            width = v.width;
            rows = v.rows;
          })
          o' in
      (t, ground (arith, k, e, e'), o'', Beside-trans b b')
