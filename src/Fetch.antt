-- ===== src/Fetch.antt =====
-- `rrd_fetch_fn` of rrdtool-1.4.5/src/rrd_fetch.c: which archive answers a request, the times it
-- is rounded to, and the rows that are copied out. Times are not negative, and the differences of
-- times, which the source computes modulo 2^64 and reads as signed, are integers.
pub mod RoundTrip
pub mod Choose
pub mod Rows
pub mod Rounding
pub mod Window
pub mod Allocation
mod Tests
use administracion_servicios.Prelude.{
  ℕ, zero, suc, ◌+◌, ◌-◌, ◌*◌, ◌/◌, ◌%◌, Bool, true, false, not, ◌&&◌, ◌||◌, Option, none, some,
  List, [], ◌∷◌, ◌++◌, ltb, leb, ◌==◌, if◌then◌else◌, length, replicate, get_elem?,
}
use administracion_servicios.Prelude.Int.{ℤ, pos, negsuc, sub_ℕ, ltb_ℤ, ◌-ℤ◌, pos_part}
use administracion_servicios.Rrd.{Cf, Rra}
use administracion_servicios.Rrd.File.{RrdFile, rrd_seek, rrd_read}

abbrev pub leb_ℤ : ℤ → ℤ → Bool
leb_ℤ a b = not (ltb_ℤ b a)

abbrev pub eqb_ℤ : ℤ → ℤ → Bool
eqb_ℤ a b = leb_ℤ a b && leb_ℤ b a

-- `labs` of the difference of two numbers
abbrev pub labs_diff : ℕ → ℕ → ℕ
labs_diff a b = if leb a b then b - a else a - b

-- C division of a signed by a positive number, towards zero
abbrev pub tdiv : ℤ → ℕ → ℤ
tdiv (pos a) s = pos (a / s)
tdiv (negsuc a) s = sub_ℕ 0 (suc a / s)

-- `i++`
abbrev pub suc_ℤ : ℤ → ℤ
suc_ℤ (pos n) = pos (suc n)
suc_ℤ (negsuc zero) = pos 0
suc_ℤ (negsuc (suc n)) = negsuc n

-- what the search keeps of the archives it has seen: the best that covers the whole request
-- (`first_full` is `not have_full`), and the best that covers a part of it
pub record Best : Type 0 where
  pub have_full : Bool
  pub best_full_step_diff : ℕ
  pub best_full_rra : ℕ
  pub have_part : Bool
  pub best_match : ℤ
  pub best_part_step_diff : ℕ
  pub best_part_rra : ℕ

abbrev pub nothing_found : Best
nothing_found = record {
  have_full = false;
  best_full_step_diff = 0;
  best_full_rra = 0;
  have_part = false;
  best_match = pos 0;
  best_part_step_diff = 0;
  best_part_rra = 0;
}

-- what the search reads of an archive: whether it has the consolidation function asked for, the
-- number of seconds of a row, the time of its oldest data (`cal_start`)
pub record Candidate : Type 0 where
  pub cf_matches : Bool
  pub rra_step : ℕ
  pub cal_start : ℤ

abbrev pub cf_eq : Cf → Cf → Bool
cf_eq Cf.average Cf.average = true
cf_eq Cf.minimum Cf.minimum = true
cf_eq Cf.maximum Cf.maximum = true
cf_eq Cf.last Cf.last = true
cf_eq Cf.hwpredict Cf.hwpredict = true
cf_eq Cf.seasonal Cf.seasonal = true
cf_eq Cf.devpredict Cf.devpredict = true
cf_eq Cf.devseasonal Cf.devseasonal = true
cf_eq Cf.failures Cf.failures = true
cf_eq Cf.mhwpredict Cf.mhwpredict = true
cf_eq _ _ = false

unfoldable pub candidate : {V : Type 0} → Cf → ℕ → ℕ → Rra V → Candidate
candidate cf pdp_step last_up r =
    let step = r.def.pdp_cnt * pdp_step in
    let cal_end = last_up - last_up % step in
    record {
      cf_matches = cf_eq r.def.cf cf;
      rra_step = step;
      cal_start = sub_ℕ cal_end (r.def.pdp_cnt * r.def.row_cnt * pdp_step);
    }

-- the body of the search loop for an archive with the right consolidation function
unfoldable pub consider : ℕ → ℕ → ℕ → ℕ → Candidate → Best → Best
unfolding ◌-ℤ◌
consider start end step i c b =
    let tmp_step_diff = labs_diff step c.rra_step in
    if leb_ℤ c.cal_start (pos start)
    then (if not b.have_full || ltb tmp_step_diff b.best_full_step_diff
        then record b { have_full = true; best_full_step_diff = tmp_step_diff; best_full_rra = i }
        else b)
    else (let tmp_match = sub_ℕ end start -ℤ (c.cal_start -ℤ pos start) in
        if not b.have_part
          || (ltb_ℤ b.best_match tmp_match
              || (eqb_ℤ b.best_match tmp_match && ltb tmp_step_diff b.best_part_step_diff))
        then record b {
          have_part = true;
          best_match = tmp_match;
          best_part_step_diff = tmp_step_diff;
          best_part_rra = i;
        }
        else b)

-- the search, from archive `i` on
unfoldable pub search_rras : ℕ → ℕ → ℕ → ℕ → List Candidate → Best → Best
search_rras start end step i [] b = b
search_rras start end step i (c ∷ cs) b =
    search_rras start end step (i + 1) cs
      (if c.cf_matches then consider start end step i c b else b)

-- `chosen_rra`; `none` is the error that no archive has the consolidation function
unfoldable pub choose : ℕ → ℕ → ℕ → List Candidate → Option ℕ
choose start end step cs =
    let b = search_rras start end step 0 cs nothing_found in
    if b.have_full then some b.best_full_rra else if b.have_part then some b.best_part_rra else none

-- The request rounded to rows: `*step`, `*start`, `*end` after the search, and `rows`, the number
-- of rows that memory is allocated for.
pub record Request : Type 0 where
  pub step : ℕ
  pub start : ℕ
  pub end : ℕ
  pub rows : ℕ

unfoldable pub round_request : ℕ → ℕ → ℕ → Request
round_request start end step =
    let start' = start - start % step in
    let end' = end + (step - end % step) in
    record { step = step; start = start'; end = end'; rows = (end' - start') / step + 1 }

-- the position of the request in the chosen archive
pub record Offsets : Type 0 where
  pub rra_start_time : ℤ
  pub rra_end_time : ℕ
  pub start_offset : ℤ
  pub end_offset : ℤ

unfoldable pub find_offsets : Request → ℕ → ℕ → Offsets
find_offsets q last_up row_cnt =
    let rra_end_time = last_up - last_up % q.step in
    let rra_start_time = sub_ℕ rra_end_time (q.step * (row_cnt - 1)) in
    record {
      rra_start_time = rra_start_time;
      rra_end_time = rra_end_time;
      start_offset = tdiv (pos (q.start + q.step) -ℤ rra_start_time) q.step;
      end_offset = tdiv (sub_ℕ rra_end_time q.end) q.step;
    }

-- Whether the request and the archive overlap, so that there is something to seek to.
unfoldable pub overlaps : Request → Offsets → Bool
overlaps q o = leb q.start o.rra_end_time && leb_ℤ (o.rra_start_time -ℤ pos q.step) (pos q.end)

-- `rra_pointer` at the first seek: a negative `start_offset` does not count
abbrev pub first_pointer : ℤ → ℕ → ℕ → ℕ
first_pointer start_offset cur_row row_cnt = (cur_row + 1 + pos_part start_offset) % row_cnt

-- the number of rounds: `i` runs from `start_offset` to below `row_cnt - end_offset`
abbrev pub rounds : ℕ → Offsets → ℕ
rounds row_cnt o = pos_part (pos row_cnt -ℤ o.end_offset -ℤ o.start_offset)

-- the variables of the copying loop; `copied` is what lies before `data_ptr`
pub record Reading (V : Type 0) : Type 0 where
  pub rra_pointer : ℕ
  pub file : RrdFile V
  pub copied : List V

-- The places that the loop reads from: `rra_base`, `row_cnt`, `ds_cnt`; and DNAN.
pub record Source (V : Type 0) : Type 0 where
  pub rra_base : ℕ
  pub row_cnt : ℕ
  pub ds_cnt : ℕ
  pub dnan : V

module _ {V : Type 0} where
  -- the wrap of the pointer at the end of the archive, with its seek
  abbrev pub wrap : Source V → Reading V → Reading V
  wrap a r =
      if leb a.row_cnt r.rra_pointer
      then record r {
        rra_pointer = r.rra_pointer - a.row_cnt;
        file = rrd_seek r.file (a.rra_base + (r.rra_pointer - a.row_cnt) * a.ds_cnt);
      }
      else r

  -- the branch of the loop that reads a row; `none` is the error of a short read
  unfoldable pub read_row : Source V → Reading V → Option (Reading V)
  read_row a r =
      let r' = wrap a r in
      let (got, f) = rrd_read r'.file a.ds_cnt in
      if length got == a.ds_cnt
      then some (record { rra_pointer = r'.rra_pointer + 1; file = f; copied = r'.copied ++ got })
      else none

  -- a row of the loop that is outside the archive
  abbrev pub unknown_row : Source V → Reading V → Reading V
  unknown_row a r = record r { copied = r.copied ++ replicate a.ds_cnt a.dnan }

  -- the body of the loop at index `i`
  unfoldable pub fetch_row : Source V → ℤ → Reading V → Option (Reading V)
  unfolding read_row
  fetch_row a (negsuc i) r = some (unknown_row a r)
  fetch_row a (pos i) r = if leb a.row_cnt i then some (unknown_row a r) else read_row a r

  -- the loop, for `n` rounds from index `i`
  unfoldable pub fetch_rows : ℕ → Source V → ℤ → Reading V → Option (Reading V)
  fetch_rows zero a i r = some r
  fetch_rows (suc n) a i r = elim (fetch_row a i r) [
    | none ↦ none
    | some r' ↦ fetch_rows n a (suc_ℤ i) r'
  ]

  -- `rrd_fetch_fn` from the chosen archive on: the rounded request, and the rows copied out
  unfoldable pub fetch_from : Source V → ℕ → ℕ → RrdFile V → Request → Option (List V)
  fetch_from a cur_row last_up f q =
      let o = find_offsets q last_up a.row_cnt in
      let p = first_pointer o.start_offset cur_row a.row_cnt in
      let r =
        if overlaps q o
        then record { rra_pointer = p; file = rrd_seek f (a.rra_base + p * a.ds_cnt); copied = [] }
        else record { rra_pointer = 0; file = f; copied = [] } in
      elim (fetch_rows (rounds a.row_cnt o) a o.start_offset r) [
        | none ↦ none
        | some r' ↦ some r'.copied
      ]
