-- ===== src/ParseTime/Offset.antt =====
-- The offset of a time specification: `plus_minus` of rrdtool-1.4.5/src/rrd_parsetime.c and the
-- loop of `rrd_parsetime` that calls it.
use administracion_servicios.Prelude.{
  ℕ, zero, suc, ◌*◌, Bool, not, ◌&&◌, ◌||◌, Option, none, some, ltb, leb, if◌then◌else◌,
}
use administracion_servicios.Prelude.Int.{ℤ, pos, negsuc, ◌+ℤ◌, ◌-ℤ◌, ltb_ℤ}
use administracion_servicios.ParseTime.{
  Symbol, seconds, minutes, hours, days, weeks, months, years, months_minutes, number, plus, minus,
  TimeValue, Scanner, token, atoi, is_plus, expect2, Parsed, ok, undefined, out_of_fuel, ◌>>=◌,
  int_max, no_number_after,
}

-- what is parsed, the scanner, and the static variables `op` and `prev_multiplier`, where `none`
-- stands for -1
pub record State : Type 0 where
  pub ptv : TimeValue
  pub scanner : Scanner
  pub op : Symbol
  pub prev_multiplier : Option Symbol

-- the guess whether "m" means months or minutes
abbrev pub guess : Option Symbol → ℕ → Symbol
guess (some days) delta = months
guess (some weeks) delta = months
guess (some months) delta = months
guess (some years) delta = months
guess (some seconds) delta = minutes
guess (some minutes) delta = minutes
guess (some hours) delta = minutes
guess _ delta = if ltb delta 6 then months else minutes

abbrev pub multiplier : Option Symbol → ℕ → Symbol → Symbol
multiplier prev delta months_minutes = guess prev delta
multiplier prev delta other = other

abbrev pub signed : Symbol → ℕ → ℤ
signed op delta = if is_plus op then pos delta else pos 0 -ℤ pos delta

-- the switch over the unit; any other token counts as seconds
unfoldable pub add_delta : Symbol → ℕ → Symbol → TimeValue → TimeValue
unfolding ◌+ℤ◌ ◌-ℤ◌
add_delta op delta years v = record v {
  tm = record v.tm { tm_year = v.tm.tm_year +ℤ signed op delta };
}
add_delta op delta months v = record v {
  tm = record v.tm { tm_mon = v.tm.tm_mon +ℤ signed op delta };
}
add_delta op delta weeks v = record v {
  tm = record v.tm { tm_mday = v.tm.tm_mday +ℤ signed op (delta * 7) };
}
add_delta op delta days v = record v {
  tm = record v.tm { tm_mday = v.tm.tm_mday +ℤ signed op delta };
}
add_delta op delta hours v = record v { offset = v.offset +ℤ signed op (delta * 60 * 60) }
add_delta op delta minutes v = record v { offset = v.offset +ℤ signed op (delta * 60) }
add_delta op delta other v = record v { offset = v.offset +ℤ signed op delta }

-- what a unit multiplies `delta` by
abbrev pub factor : Symbol → ℕ
factor weeks = 7
factor hours = 3600
factor minutes = 60
factor _ = 1

abbrev pub in_int : ℤ → Bool
in_int n = not (ltb_ℤ (pos int_max) n || ltb_ℤ n (negsuc int_max))

-- whether no `int` overflows: the number and its product, and the fields that it is added to
abbrev pub fits : ℕ → Symbol → TimeValue → Bool
fits delta unit v =
    leb (delta * factor unit) int_max
    && (in_int v.tm.tm_year && (in_int v.tm.tm_mon && in_int v.tm.tm_mday))

-- `plus_minus` behind its first statement: the number is the token
unfoldable pub with_unit : Symbol → Option Symbol → TimeValue → Scanner → Parsed State
unfolding token atoi add_delta
with_unit op prev v sc =
    let delta = atoi sc.sc_token in
    let next = token sc in
    let unit = multiplier prev delta next.sc_tokid in
    let ptv = add_delta op delta unit v in
    if fits delta unit ptv
    then ok (record {
      ptv = ptv;
      scanner = record next { sc_tokid = unit };
      op = op;
      prev_multiplier = some unit;
    })
    else undefined

-- `none` is PREVIOUS_OP
unfoldable pub plus_minus : Option Symbol → State → Parsed State
unfolding expect2 with_unit
plus_minus none s = with_unit s.op s.prev_multiplier s.ptv s.scanner
plus_minus (some doop) s =
    expect2 (no_number_after doop) s.scanner >>= λ sc. with_unit doop none s.ptv sc

-- what `plus_minus` is called with for a token, and `none` where the loop ends
abbrev pub operation : Symbol → Option (Option Symbol)
operation plus = some (some plus)
operation minus = some (some minus)
operation number = some none
operation _ = none

abbrev pub advance : State → State
advance s = record s { scanner = token s.scanner }

unfoldable pub offset_loop : ℕ → State → Parsed State
unfolding plus_minus
offset_loop zero s = out_of_fuel
offset_loop (suc fuel) s = elim (operation s.scanner.sc_tokid) [
  | none ↦ ok s
  | some doop ↦ plus_minus doop s >>= λ t. offset_loop fuel (advance t)
]
