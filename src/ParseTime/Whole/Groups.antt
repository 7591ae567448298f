-- ===== src/ParseTime/Whole/Groups.antt =====
-- What `rrd_parsetime` of rrdtool-1.4.5/src/rrd_parsetime.c makes of a reference with offsets.
use administracion_servicios.Prelude.{
  ℕ, suc, ◌+◌, ◌≤◌, ◌<◌, ◌≡◌, refl, ap, sym, ◌∙◌, Bool, true, false, Option, some, List, [], ◌∷◌,
  ◌++◌, length, All, length-append, arith,
}
use administracion_servicios.Prelude.Int.{ℤ, pos}
use administracion_servicios.Daemon.Response.{codes}
use administracion_servicios.ParseTime.{
  Tm, Symbol, eof, TimeValue, TimeType, relative_to_start_time, relative_to_end_time,
  relative_to_epoch, Calendar, Scanner, span, behind, scan, next_argument, token, init_scanner,
  various_words, parse_token, mystrcasecmp, Parsed, ok, ◌>>=◌,
}
use administracion_servicios.ParseTime.Offset.{State, offset_loop}
use administracion_servicios.ParseTime.Whole.{
  zero_tm, keep_relative, at_now, reference_for, offsets, at_default, normalized, starts_offset,
  rrd_parsetime,
}
use administracion_servicios.ParseTime.Tokens.{sign_symbol, sign_byte, placed, at_end, token-sign}
use administracion_servicios.ParseTime.Whole.Items.{
  AllFit, Item, amount, word, sign_text, text, IsItem, shifted, last_sign, last_unit, Z, looping,
  offset_loop-text,
}

-- A reference, as it is written.
pub data Reference : Type 0 where
  nothing the_now the_start the_end the_epoch : Reference

abbrev pub reference_text : Reference → List ℕ
reference_text nothing = []
reference_text the_now = codes "now"
reference_text the_start = codes "start"
reference_text the_end = codes "end"
reference_text the_epoch = codes "epoch"

-- what it starts from: the time now, or zeros that count from a time given later
abbrev from_zero : TimeType → TimeValue → TimeValue
from_zero k v = record { kind = k; offset = pos 0; tm = zero_tm v.tm }

abbrev pub starting_value : Reference → TimeValue → TimeValue
starting_value the_start v = from_zero relative_to_start_time v
starting_value the_end v = from_zero relative_to_end_time v
starting_value the_epoch v = from_zero relative_to_epoch v
starting_value _ v = v

-- the token of the sign behind the reference, and the rest
reference_sign :
    (r : Reference) (b : Bool) (s : List ℕ) (cal : Calendar) (v : TimeValue)
    → v.offset ≡ pos 0
    → let sc = token (init_scanner various_words (reference_text r ++ (sign_byte b ∷ s))) in
      reference_for sc.sc_tokid cal (v, sc)
      ≡ ok (starting_value r v, placed various_words (sign_byte b ∷ []) (sign_symbol b) s)
unfolding reference_for keep_relative at_now token next_argument behind scan parse_token
    various_words span mystrcasecmp
reference_sign nothing true s cal v e = refl
reference_sign nothing false s cal v e = refl
reference_sign the_now true s cal v e = refl
reference_sign the_now false s cal v e = refl
reference_sign the_start true s cal v e = rw e refl
reference_sign the_start false s cal v e = rw e refl
reference_sign the_end true s cal v e = rw e refl
reference_sign the_end false s cal v e = rw e refl
reference_sign the_epoch true s cal v e = rw e refl
reference_sign the_epoch false s cal v e = rw e refl

sign_starts : (b : Bool) → starts_offset (sign_symbol b) ≡ true
sign_starts true = refl
sign_starts false = refl

-- the loop behind the reference, from the sign of the first offset on
offsets-text :
    (fuel : ℕ) (b : Bool) (i : Item) (l : List Item) (op : Symbol) (prev : Option Symbol)
    (v : TimeValue)
    → i.sign ≡ some b
    → All IsItem (i ∷ l)
    → AllFit (i ∷ l) op prev v
    → length l + 1 < fuel
    → offsets fuel op prev (
      v,
      placed various_words (sign_byte b ∷ []) (sign_symbol b) (amount i ++ (word i ++ text l)),
    )
      ≡ ok (shifted (i ∷ l) op prev v, at_end Z)
unfolding offsets
offsets-text fuel b i l op prev v e h f lt =
    rw (sign_starts b) (ap (λ (r : Parsed State). r >>= λ t. ok (t.ptv, t.scanner)) looped)
  where
    s : List ℕ
    s = amount i ++ (word i ++ text l)

    first_token :
        token (placed Z [] eof (text (i ∷ l))) ≡ placed Z (sign_byte b ∷ []) (sign_symbol b) s
    first_token =
        ap (λ (o : Option Bool). token (placed Z [] eof (sign_text o ++ s))) e
        ∙ token-sign b [] eof Z s

    looped :
        offset_loop fuel (looping v op prev (placed Z (sign_byte b ∷ []) (sign_symbol b) s))
        ≡ ok (
            looping
              (shifted (i ∷ l) op prev v)
              (last_sign (i ∷ l) op)
              (last_unit (i ∷ l) prev)
              (at_end Z))
    looped =
        ap (λ (sc : Scanner). offset_loop fuel (looping v op prev sc)) (sym first_token)
        ∙ offset_loop-text fuel (i ∷ l) [] eof v op prev h f (omega arith)

-- enough fuel for the text
length-text : (l : List Item) → length l ≤ length (text l)
length-text [] = omega arith
length-text (i ∷ l) = omega (
  arith,
  length-text l,
  length-append (sign_text i.sign) (amount i ++ (word i ++ text l)),
  length-append (amount i) (word i ++ text l),
  length-append (word i) (text l),
)

-- Where `localtime` can express the time now and no `int` overflows: a time reference, or none, with
-- offsets behind it, of which the first has a sign, and each is digits and letters. Every offset is
-- read with the sign in front of it or, without one, with that of the offset before. Behind days,
-- weeks, months and years, the number is added to those fields of the reference, 7 days for a week;
-- behind hours and minutes 3600 or 60 seconds for each, and behind any other letters as many seconds
-- as it says, are added to its offset in seconds. Which unit letters name is looked up in the table.
-- The letter "m" stands for months behind an offset of days, weeks, months or years with no sign
-- between, for minutes behind one of seconds, minutes or hours, and else for months with a number
-- below 6, as the code has it where its documents say 25, and for minutes from there on. The result
-- is then normalized if it starts from the time now.
pub rrd_parsetime-text :
    (cal : Calendar) (at : ℤ) (local : Tm) (op : Symbol) (prev : Option Symbol) (r : Reference)
    (b : Bool) (i : Item) (l : List Item)
    → cal.localtime at ≡ some local
    → i.sign ≡ some b
    → All IsItem (i ∷ l)
    → AllFit (i ∷ l) op prev (starting_value r (at_default local))
    → rrd_parsetime cal at op prev (reference_text r ++ text (i ∷ l))
      ≡ normalized cal (shifted (i ∷ l) op prev (starting_value r (at_default local)))
unfolding rrd_parsetime
rrd_parsetime-text cal at local op prev r b i l now_local e h f =
    rw (with_sign, now_local)
      (rw (reference_sign r b s cal (at_default local) refl) (
        rw (offsets-text fuel b i l op prev (starting_value r (at_default local)) e h f enough)
          refl))
  where
    s : List ℕ
    s = amount i ++ (word i ++ text l)

    with_sign : reference_text r ++ text (i ∷ l) ≡ reference_text r ++ (sign_byte b ∷ s)
    with_sign = ap (λ (o : Option Bool). reference_text r ++ (sign_text o ++ s)) e

    fuel : ℕ
    fuel = suc (suc (length (reference_text r ++ (sign_byte b ∷ s))))

    enough : length l + 1 < fuel
    enough = omega (
      arith,
      length-text l,
      length-append (reference_text r) (sign_byte b ∷ s),
      length-append (amount i) (word i ++ text l),
      length-append (word i) (text l),
    )
