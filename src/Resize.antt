-- ===== src/Resize.antt =====
-- `rrd_resize` of rrdtool-1.4.5/src/rrd_resize.c: a copy of a database in which one archive has more
-- rows or fewer. The header is a record, and the area of values a list, read and written from front
-- to back. Opening, locking and the writing of the header are left out.
mod Loops
pub mod History
pub mod Kept
mod Tests
use administracion_servicios.Prelude.{
  ℕ, zero, suc, ◌+◌, ◌-◌, ◌*◌, ◌%◌, Bool, true, false, ◌||◌, Option, none, some, List, [], ◌∷◌,
  ◌++◌, ltb, leb, ◌==◌, if◌then◌else◌, length, drop, take, set, get_elem?,
}

pub data Direction : Type 0 where
  grow shrink : Direction

-- `rra_def_t.row_cnt` and `rra_ptr_t.cur_row`
pub record Ring : Type 0 where
  pub row_cnt : ℕ
  pub cur_row : ℕ

-- the values in front of the target archive
abbrev pub values_before : ℕ → List Ring → ℕ
values_before ds_cnt [] = 0
values_before ds_cnt (r ∷ l) = ds_cnt * r.row_cnt + values_before ds_cnt l

abbrev pub known_version : ℕ → Bool
known_version v = v == 1 || v == 3 || v == 4

-- the version of the copy
abbrev pub new_version : ℕ → ℕ
new_version v = if v == 1 then 3 else v

-- whether an archive is to lose all its rows
abbrev pub not_that_big : Direction → ℕ → Ring → Bool
not_that_big grow modify r = false
not_that_big shrink modify r = leb r.row_cnt modify

module _ (V : Type 0) where
  -- the version, the number of data sources, the archives, and the area of values
  pub record Database : Type 0 where
    pub version : ℕ
    pub ds_cnt : ℕ
    pub rras : List Ring
    pub cells : List V

  -- the two files, from their positions on: what is left to read, and what has been written; and the
  -- variables of the target archive, with the number of rows still to be removed
  pub record Files : Type 0 where
    pub old : List V
    pub new : List V
    pub buffer : V
    pub ring : Ring
    pub left : ℕ

module _ {V : Type 0} where
  -- `rrd_read` of a value, which leaves the buffer alone at the end of the file, and `rrd_write`
  abbrev pub read : List V → Files V → Files V
  read [] s = s
  read (v ∷ r) s = record s { old = r; buffer = v }

  abbrev pub write : Files V → Files V
  write s = record s { new = s.new ++ (s.buffer ∷ []) }

  abbrev pub read_write : Files V → Files V
  read_write s = write (read s.old s)

  unfoldable pub copy : ℕ → Files V → Files V
  copy zero s = s
  copy (suc l) s = copy l (read_write s)

  unfoldable pub copy_rows : ℕ → ℕ → Files V → Files V
  unfolding copy
  copy_rows zero ds_cnt s = s
  copy_rows (suc l) ds_cnt s = copy_rows l ds_cnt (copy ds_cnt s)

  -- the loop that writes the unknown values
  unfoldable pub pad : ℕ → Files V → Files V
  pad zero s = s
  pad (suc l) s = pad l (write s)

  -- a row passed over, in front of the current row or behind it
  abbrev pub skip_front : ℕ → Files V → Files V
  skip_front ds_cnt s = record s {
    old = drop ds_cnt s.old;
    ring = record { row_cnt = s.ring.row_cnt - 1; cur_row = s.ring.cur_row - 1 };
    left = s.left - 1;
  }

  abbrev pub skip_behind : ℕ → Files V → Files V
  skip_behind ds_cnt s = record s {
    old = drop ds_cnt s.old;
    ring = record s.ring { row_cnt = s.ring.row_cnt - 1 };
    left = s.left - 1;
  }

  -- the loop on `remove_end`, for `remove_end + 1` rounds. The current row is not the first one in
  -- a round, since an archive does not shrink by all its rows.
  unfoldable pub remove_front : ℕ → ℕ → Files V → Files V
  remove_front zero ds_cnt s = s
  remove_front (suc k) ds_cnt s = remove_front k ds_cnt (skip_front ds_cnt s)

  unfoldable pub remove_behind : ℕ → ℕ → Files V → Files V
  remove_behind zero ds_cnt s = s
  remove_behind (suc k) ds_cnt s = remove_behind k ds_cnt (skip_behind ds_cnt s)

  abbrev pub copy_rest : Files V → Files V
  copy_rest s = copy (length s.old) s

  -- the part for the target archive
  unfoldable pub grow_ring : V → ℕ → ℕ → Files V → Files V
  unfolding copy pad
  grow_ring nan modify ds_cnt s =
      let t = copy ((s.ring.cur_row + 1) * ds_cnt) s in
      let u = pad (modify * ds_cnt) (record t { buffer = nan }) in
      record u { ring = record u.ring { row_cnt = u.ring.row_cnt + modify } }

  abbrev pub unwrapped : ℕ → Files V → Files V
  unwrapped ds_cnt s =
      let remove_end = (s.ring.cur_row + s.left) % s.ring.row_cnt in
      if leb remove_end s.ring.cur_row then remove_front (remove_end + 1) ds_cnt s else s

  abbrev pub shrink_rest : ℕ → Files V → Files V
  shrink_rest ds_cnt s =
      let t = copy_rows (s.ring.cur_row + 1) ds_cnt s in remove_behind t.left ds_cnt t

  unfoldable pub shrink_ring : ℕ → Files V → Files V
  unfolding copy_rows remove_front remove_behind
  shrink_ring ds_cnt s = shrink_rest ds_cnt (unwrapped ds_cnt s)

  abbrev pub resize_ring : V → Direction → ℕ → ℕ → Files V → Files V
  resize_ring nan grow modify ds_cnt s = grow_ring nan modify ds_cnt s
  resize_ring nan shrink modify ds_cnt s = shrink_ring ds_cnt s

  unfoldable pub resize_target : V → Direction → ℕ → ℕ → Ring → Database V → Database V
  unfolding copy grow_ring shrink_ring
  resize_target nan d target modify r db =
      let start : Files V = record {
        old = db.cells;
        new = [];
        buffer = nan;
        ring = r;
        left = modify;
      } in
      let s = copy (values_before db.ds_cnt (take target db.rras)) start in
      let t = copy_rest (resize_ring nan d modify db.ds_cnt s) in
      record db {
        version = new_version db.version;
        rras = set db.rras target t.ring;
        cells = t.new;
      }

  -- `rrd_resize`, where `none` is an error return
  unfoldable pub rrd_resize : V → Direction → ℕ → ℕ → Database V → Option (Database V)
  unfolding resize_target
  rrd_resize nan d target modify db =
      if ltb modify 1 then none else elim (get_elem? db.rras target) [
        | none ↦ none
        | some r ↦
            if not_that_big d modify r
            then none
            else if known_version db.version
            then some (resize_target nan d target modify r db)
            else none
      ]
