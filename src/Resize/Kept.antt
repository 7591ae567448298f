-- ===== src/Resize/Kept.antt =====
-- `rrd_resize` of rrdtool-1.4.5/src/rrd_resize.c, whole.
use mathlib.Core.List.{append-nil}
use administracion_servicios.Prelude.{
  ℕ, ◌+◌, ◌-◌, ◌*◌, ◌<◌, ◌≡◌, refl, ◌∙◌, ap, sym, true, false, some, List, [], ◌++◌, ltb, length,
  drop, take, set, get_elem?, replicate, arith,
}
use administracion_servicios.Resize.{
  Direction, grow, shrink, Ring, Database, Files, copy, copy_rest, resize_ring, not_that_big,
  known_version, values_before, resize_target, rrd_resize,
}
use administracion_servicios.Resize.Loops.{at, Stands, copy_lem}
use administracion_servicios.Resize.History.{Turned, shrink_ring-Turned, grow_ring-Turned}

abbrev pub new_count : Direction → ℕ → ℕ → ℕ
new_count grow m n = n + m
new_count shrink m n = n - m

module _ {V : Type 0} (nan : V) where
  -- the values in order of time, after `k` of them are added as unknown or removed at the old end
  abbrev pub changed : Direction → ℕ → List V → List V
  changed grow k h = replicate k nan ++ h
  changed shrink k h = drop k h

  -- The target archive has been changed, and everything else is as before.
  pub record Resized (d : Direction) (target m : ℕ) (db : Database V) (pre h post : List V) (n : ℕ)
      : Type 0 where
    pub new_database : Database V
    pub ring : Ring
    pub up_to : List V
    pub behind : List V
    pub succeeds : rrd_resize nan d target m db ≡ some new_database
    pub cells : new_database.cells ≡ pre ++ (up_to ++ (behind ++ post))
    pub in_order : behind ++ up_to ≡ changed d (m * db.ds_cnt) h
    pub rras : new_database.rras ≡ set db.rras target ring
    pub row_cnt : ring.row_cnt ≡ new_count d m n
    pub measured : length up_to ≡ (ring.cur_row + 1) * db.ds_cnt

  resize_ring-Turned :
      (d : Direction) (ds c m j : ℕ) (a b post w : List V) (f : V)
      → length a ≡ (c + 1) * ds
      → length b ≡ j * ds
      → 0 < m
      → not_that_big d m (record { row_cnt = c + 1 + j; cur_row = c }) ≡ false
      → Turned
          (resize_ring nan d m ds
            (at (a ++ (b ++ post)) w f (record { row_cnt = c + 1 + j; cur_row = c }) m))
          post
          w
          (changed d (m * ds) (b ++ a))
          (new_count d m (c + 1 + j))
          ds
  resize_ring-Turned grow ds c m j a b post w f ea eb p l =
      grow_ring-Turned ds c m j a b post w f ea eb nan
  resize_ring-Turned shrink ds c m j a b post w f ea eb p l =
      shrink_ring-Turned ds c m j a b post w f ea eb p (ground arith)

  copy_rest_lem :
      (s : Files V) (old new : List V) (r : Ring) (l : ℕ)
      → Stands s old new r l
      → ((copy_rest s).new ≡ new ++ old) × ((copy_rest s).ring ≡ r)
  copy_rest_lem s old new r l (b, e) =
      let all : old ++ [] ≡ old = append-nil old in
      let (g, h) = copy_lem old [] new b r l (length old) refl in
      let whole : copy_rest s ≡ at [] (new ++ old) g r l =
        ap copy_rest e ∙ ap (λ (v : List V). copy (length old) (at v new b r l)) (sym all) ∙ h in
      (ap (λ (t : Files V). t.new) whole, ap (λ (t : Files V). t.ring) whole)

  -- A database of a known version, whose values are those in front of the target archive, the rows
  -- of the archive up to its current one, those behind it, and the rest; and a change by a row at
  -- least, that leaves the archive a row at least. Then `rrd_resize` succeeds. In the copy the values
  -- of all other archives are as before, and in order of time the values of the target archive are
  -- the old ones with that many rows of unknown ones in front of them, or without that many of the
  -- oldest rows; its number of rows is changed by that many, and its current row is the last of
  -- them in time.
  pub rrd_resize_keeps :
      (d : Direction) (target m : ℕ) (db : Database V) (pre a b post : List V) (c j : ℕ)
      → 0 < m
      → get_elem? db.rras target ≡ some (record { row_cnt = c + 1 + j; cur_row = c })
      → not_that_big d m (record { row_cnt = c + 1 + j; cur_row = c }) ≡ false
      → known_version db.version ≡ true
      → db.cells ≡ pre ++ (a ++ (b ++ post))
      → length pre ≡ values_before db.ds_cnt (take target db.rras)
      → length a ≡ (c + 1) * db.ds_cnt
      → length b ≡ j * db.ds_cnt
      → Resized d target m db pre (b ++ a) post (c + 1 + j)
  unfolding rrd_resize resize_target
  rrd_resize_keeps d target m db pre a b post c j p found big known cells ep ea eb = record {
    new_database = resize_target nan d target m r db;
    ring = turned.ring;
    up_to = turned.up_to;
    behind = turned.behind;
    succeeds = rw (not_zero m p) (rw (found) (rw big (rw known refl)));
    cells =
        ap (λ (s : Files V). (copy_rest (resized s)).new) copied
        ∙ (copy_rest_lem (resized s1) _ _ _ _ turned.stands).0
        ∙ turned.joined;
    in_order = turned.in_order;
    rras =
        ap (λ (s : Files V). set db.rras target (copy_rest (resized s)).ring) copied
        ∙ ap (λ (q : Ring). set db.rras target q)
            (copy_rest_lem (resized s1) _ _ _ _ turned.stands).1;
    row_cnt = turned.rows;
    measured = turned.measured;
  }
    where
      not_zero : (m : ℕ) → 0 < m → ltb m 1 ≡ false
      not_zero m p = ground arith

      r : Ring
      r = record { row_cnt = c + 1 + j; cur_row = c }

      skipped : ℕ
      skipped = values_before db.ds_cnt (take target db.rras)

      rest : List V
      rest = a ++ (b ++ post)

      opened : Stands (copy skipped (at (pre ++ rest) [] nan r m)) rest ([] ++ pre) r m
      opened = copy_lem pre rest [] nan r m skipped (sym ep)

      s1 : Files V
      s1 = at rest pre opened.0 r m

      copied : copy skipped (at db.cells [] nan r m) ≡ s1
      copied = ap (λ (v : List V). copy skipped (at v [] nan r m)) cells ∙ opened.1

      resized : Files V → Files V
      resized s = resize_ring nan d m db.ds_cnt s

      turned :
          Turned
            (resized s1)
            post
            pre
            (changed d (m * db.ds_cnt) (b ++ a))
            (new_count d m (c + 1 + j))
            db.ds_cnt
      turned = resize_ring-Turned d db.ds_cnt c m j a b post pre opened.0 ea eb p big
