-- ===== src/Update/Arguments.antt =====
-- The arguments of an update: `parse_template`, `parse_ds` and `get_time_from_reading` of
-- rrdtool-1.4.5/src/rrd_update.c, with `ds_match` of rrdtool-1.4.5/src/rrd_format.c. A text is the
-- list of its bytes. `tmpl_idx` is the list of its entries behind that of the time, and `updvals`
-- the list of the readings behind the time.
pub mod Readings
pub mod Times
mod Tests
use administracion_servicios.Prelude.{
  ℕ, zero, suc, ◌+◌, ◌-◌, Bool, true, false, not, ◌&&◌, ◌||◌, Option, none, some, List, [], ◌∷◌,
  ◌++◌, ltb, leb, ◌==◌, if◌then◌else◌, length, set, replicate,
}
use administracion_servicios.Double.{Double}
use administracion_servicios.Rrd.{Dst, cdef, DsDef, LiveHead}

abbrev pub colon : ℕ
colon = b':'

abbrev pub at_sign : ℕ
at_sign = b'@'

-- a result, the error return -1, or the use of memory that is not set
pub data Parsed (A : Type 0) : Type 0 where
  parsed : A → Parsed A
  refused unset : Parsed A

-- the texts between the colons
abbrev pub in_front : ℕ → List (List ℕ) → List (List ℕ)
in_front c [] = (c ∷ []) ∷ []
in_front c (x ∷ xs) = (c ∷ x) ∷ xs

abbrev pub fields : List ℕ → List (List ℕ)
fields [] = [] ∷ []
fields (c ∷ s) = let rest = fields s in if c == colon then [] ∷ rest else in_front c rest

-- `strcmp` as far as it tells equal texts
abbrev pub same : List ℕ → List ℕ → Bool
same [] [] = true
same (a ∷ s) (b ∷ t) = (a == b) && same s t
same _ _ = false

-- `ds_match`, from the index given on
abbrev pub match_from : {V : Type 0} → ℕ → List (DsDef V) → List ℕ → Option ℕ
match_from i [] name = none
match_from i (d ∷ ds) name =
    let rest = match_from (i + 1) ds name in if same name d.ds_nam then some i else rest

unfoldable pub ds_match : {V : Type 0} → List (DsDef V) → List ℕ → Option ℕ
ds_match ds name = match_from 0 ds name

abbrev pub is_compute : Dst → Bool
is_compute cdef = true
is_compute _ = false

-- the template of `allocate_data_structures`: all sources that are not computed
abbrev pub default_from : {V : Type 0} → ℕ → List (DsDef V) → List ℕ
default_from i [] = []
default_from i (d ∷ ds) =
    let rest = default_from (i + 1) ds in if is_compute d.dst then rest else i ∷ rest

abbrev pub default_template : {V : Type 0} → List (DsDef V) → List ℕ
default_template ds = default_from 1 ds

-- the loop of `parse_template`, over the names, with the entries so far
abbrev pub with_match : (List ℕ → Option (List ℕ)) → List ℕ → Option ℕ → Option (List ℕ)
with_match rest idx none = none
with_match rest idx (some i) = rest (idx ++ ((i + 1) ∷ []))

abbrev pub template_loop : {V : Type 0} → List (DsDef V) → List (List ℕ) → List ℕ → Option (List ℕ)
template_loop ds [] idx = some idx
template_loop ds (dsname ∷ names) idx =
    if ltb (length ds) (length idx + 1)
    then none
    else with_match (template_loop ds names) idx (ds_match ds dsname)

unfoldable pub parse_template : {V : Type 0} → List (DsDef V) → List ℕ → Option (List ℕ)
unfolding ds_match
parse_template ds tmplt = template_loop ds (fields tmplt) []

-- `strchr`, with the text cut there
abbrev pub before : ℕ → Option (List ℕ × List ℕ) → Option (List ℕ × List ℕ)
before c none = none
before c (some (s, t)) = some (c ∷ s, t)

abbrev pub cut_at : ℕ → List ℕ → Option (List ℕ × List ℕ)
cut_at c [] = none
cut_at c (d ∷ s) = let rest = cut_at c s in if d == c then some ([], s) else before d rest

-- the separation of the readings, of which the first is put down without a check
abbrev pub assign : List ℕ → List (List ℕ) → List (List ℕ) → Parsed (List (List ℕ))
assign [] [] updvals = parsed updvals
assign [] (x ∷ xs) updvals = refused
assign (t ∷ ts) [] updvals = refused
assign (t ∷ ts) (x ∷ xs) updvals = assign ts xs (set updvals (t - 1) x)

abbrev pub assign_first : List ℕ → List (List ℕ) → List (List ℕ) → Parsed (List (List ℕ))
assign_first [] xs updvals = unset
assign_first ts xs updvals = assign ts xs updvals

abbrev pub unknown : List ℕ
unknown = b'U' ∷ []

-- what `parse_ds` gets from its text: whether the time is at-style, the time, and the readings
abbrev pub timed : Bool → List ℕ → Parsed (List (List ℕ)) → Parsed (Bool × List ℕ × List (List ℕ))
timed b time (parsed u) = parsed (b, time, u)
timed b time refused = refused
timed b time unset = unset

abbrev pub read_at : ℕ → List ℕ → Bool → List ℕ × List ℕ → Parsed (Bool × List ℕ × List (List ℕ))
read_at ds_cnt tmpl_idx b (time, rest) =
    timed b time (assign_first tmpl_idx (fields rest) (replicate ds_cnt unknown))

abbrev pub split_time :
    ℕ
    → List ℕ
    → Option (List ℕ × List ℕ)
    → Option (List ℕ × List ℕ)
    → Parsed (Bool × List ℕ × List (List ℕ))
split_time ds_cnt tmpl_idx (some p) o = read_at ds_cnt tmpl_idx true p
split_time ds_cnt tmpl_idx none (some p) = read_at ds_cnt tmpl_idx false p
split_time ds_cnt tmpl_idx none none = refused

-- `parse_ds` up to the call of `get_time_from_reading`
unfoldable pub parse_ds : ℕ → List ℕ → List ℕ → Parsed (Bool × List ℕ × List (List ℕ))
parse_ds ds_cnt tmpl_idx input =
    split_time ds_cnt tmpl_idx (cut_at at_sign input) (cut_at colon input)

module _ (F : Double) where
  open F use {V, add, sub, mul, lt, of_ℕ, floor}

  -- What the time of a reading depends on: the clock, normalized; `strtod`, none where it sets
  -- `errno`; `rrd_parsetime` and `mktime`, none for an error and for a relative time; 1e-6 as a
  -- float.
  pub record Clock : Type 0 where
    pub tv_sec : ℕ
    pub tv_usec : ℕ
    pub strtod : List ℕ → Option V
    pub parsetime : List ℕ → Option ℕ
    pub micro : V

  -- the time of a number, from now where it is negative; a time before 1970 is refused here, as
  -- it would be for being before the last update
  abbrev pub of_number : Clock → Option V → Option (ℕ × ℕ)
  of_number k none = none
  of_number k (some v) =
      let now = add (of_ℕ k.tv_sec) (mul (of_ℕ k.tv_usec) k.micro) in
      let tmp = if lt v (of_ℕ 0) then add now v else v in
      if lt tmp (of_ℕ 0)
      then none
      else some (floor tmp, floor (mul (sub tmp (of_ℕ (floor tmp))) (of_ℕ 1000000)))

  abbrev pub of_at_style : Option ℕ → Option (ℕ × ℕ)
  of_at_style none = none
  of_at_style (some t) = some (t, 0)

  abbrev pub time_read : Clock → Bool → List ℕ → Option (ℕ × ℕ)
  time_read k at_style time =
      if at_style
      then of_at_style (k.parsetime time)
      else if same time (b'N' ∷ [])
      then some (k.tv_sec, k.tv_usec)
      else of_number k (k.strtod time)

  -- the check against the last update
  abbrev pub later_than : LiveHead → ℕ × ℕ → Option LiveHead
  later_than h (current_time, current_time_usec) =
      if ltb current_time h.last_up
        || (current_time == h.last_up && leb current_time_usec h.last_up_usec)
      then none
      else some (record { last_up = current_time; last_up_usec = current_time_usec })

  abbrev pub checked : LiveHead → ℕ → Option (ℕ × ℕ) → Option LiveHead
  checked h version none = none
  checked h version (some (sec, usec)) = later_than h (sec, (if ltb version 3 then 0 else usec))

  -- `get_time_from_reading`, with the time as `process_arg` then keeps it for the last update
  unfoldable pub get_time_from_reading : Clock → Bool → List ℕ → ℕ → LiveHead → Option LiveHead
  get_time_from_reading k at_style time version h = checked h version (time_read k at_style time)
