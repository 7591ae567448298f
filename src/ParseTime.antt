-- ===== src/ParseTime.antt =====
-- Time specifications: the types of rrdtool-1.4.5/src/rrd_parsetime.c and of `rrd_time_value` in
-- rrdtool-1.4.5/src/rrd.h, its words and its scanner. A text is the list of its bytes, in the "C"
-- locale. What `rrd_parsetime` returns and how its parts go on is in the children.
mod Ends
mod Tokens
pub mod Offset
pub mod Day
pub mod Whole
mod Tests
use administracion_servicios.Prelude.{
  ℕ, ◌+◌, ◌-◌, ◌*◌, Bool, true, false, ◌&&◌, ◌||◌, List, [], ◌∷◌, leb, ◌==◌, if◌then◌else◌, Option,
  none, some,
}
use administracion_servicios.Prelude.Int.{ℤ}
use administracion_servicios.Daemon.Response.{codes}

-- the symbols, and EOF of the C library
pub data Symbol : Type 0 where
  midnight noon teatime pm am yesterday today tomorrow now start end epoch : Symbol
  seconds minutes hours days weeks months years months_minutes : Symbol
  number plus minus dot colon slash id junk : Symbol
  jan feb mar apr may jun jul aug sep oct nov dec : Symbol
  sun mon tue wed thu fri sat : Symbol
  eof : Symbol

-- `struct tm`: the fields that are read or set
pub record Tm : Type 0 where
  pub tm_sec : ℤ
  pub tm_min : ℤ
  pub tm_hour : ℤ
  pub tm_mday : ℤ
  pub tm_mon : ℤ
  pub tm_year : ℤ
  pub tm_wday : ℤ
  pub tm_isdst : ℤ

pub data TimeType : Type 0 where
  absolute_time relative_to_start_time relative_to_end_time relative_to_epoch : TimeType

-- `rrd_time_value_t`, whose field `type` is `kind` here
pub record TimeValue : Type 0 where
  pub kind : TimeType
  pub offset : ℤ
  pub tm : Tm

-- the calendar of the C library: `localtime`, which returns NULL for a time it cannot express, and `mktime` with the fields as it leaves them
pub record Calendar : Type 0 where
  pub localtime : ℤ → Option Tm
  pub mktime : Tm → Tm × ℤ

-- the messages
pub data TimeError : Type 0 where
  no_number_after : Symbol → TimeError
  no_minutes minutes_above_59 hours_above_12 invalid_year before_epoch no_day_of_month : TimeError
  no_second_number no_year_number not_a_month not_a_day : TimeError
  no_offset_after_reference no_offset_after_now unparsable_time trailing_text : TimeError
  incorrect_time : TimeError

-- TIME_OK with a result, a message, or what C leaves undefined: the NULL of `localtime` is read, or a
-- number does not fit its type; and a loop cut short, which has no counterpart in the program
pub data Parsed {ℓ} (A : Type ℓ) : Type ℓ where
  ok : A → Parsed A
  failed : TimeError → Parsed A
  undefined : Parsed A
  out_of_fuel : Parsed A

infixl 5 ◌>>=◌
abbrev pub ◌>>=◌ {ℓ κ} : {A : Type ℓ} {B : Type κ} → Parsed A → (A → Parsed B) → Parsed B
ok a >>= f = f a
failed e >>= f = failed e
undefined >>= f = undefined
out_of_fuel >>= f = out_of_fuel

abbrev pub Words : Type 0
Words = List (List ℕ × Symbol)

unfoldable pub various_words : Words
various_words =
    (codes "midnight", midnight)
    ∷ (codes "noon", noon)
    ∷ (codes "teatime", teatime)
    ∷ (codes "am", am)
    ∷ (codes "pm", pm)
    ∷ (codes "tomorrow", tomorrow)
    ∷ (codes "yesterday", yesterday)
    ∷ (codes "today", today)
    ∷ (codes "now", now)
    ∷ (codes "n", now)
    ∷ (codes "start", start)
    ∷ (codes "s", start)
    ∷ (codes "end", end)
    ∷ (codes "e", end)
    ∷ (codes "epoch", epoch)
    ∷ (codes "jan", jan)
    ∷ (codes "feb", feb)
    ∷ (codes "mar", mar)
    ∷ (codes "apr", apr)
    ∷ (codes "may", may)
    ∷ (codes "jun", jun)
    ∷ (codes "jul", jul)
    ∷ (codes "aug", aug)
    ∷ (codes "sep", sep)
    ∷ (codes "oct", oct)
    ∷ (codes "nov", nov)
    ∷ (codes "dec", dec)
    ∷ (codes "january", jan)
    ∷ (codes "february", feb)
    ∷ (codes "march", mar)
    ∷ (codes "april", apr)
    ∷ (codes "may", may)
    ∷ (codes "june", jun)
    ∷ (codes "july", jul)
    ∷ (codes "august", aug)
    ∷ (codes "september", sep)
    ∷ (codes "october", oct)
    ∷ (codes "november", nov)
    ∷ (codes "december", dec)
    ∷ (codes "sunday", sun)
    ∷ (codes "sun", sun)
    ∷ (codes "monday", mon)
    ∷ (codes "mon", mon)
    ∷ (codes "tuesday", tue)
    ∷ (codes "tue", tue)
    ∷ (codes "wednesday", wed)
    ∷ (codes "wed", wed)
    ∷ (codes "thursday", thu)
    ∷ (codes "thu", thu)
    ∷ (codes "friday", fri)
    ∷ (codes "fri", fri)
    ∷ (codes "saturday", sat)
    ∷ (codes "sat", sat)
    ∷ []

unfoldable pub time_multipliers : Words
time_multipliers =
    (codes "second", seconds)
    ∷ (codes "seconds", seconds)
    ∷ (codes "sec", seconds)
    ∷ (codes "s", seconds)
    ∷ (codes "minute", minutes)
    ∷ (codes "minutes", minutes)
    ∷ (codes "min", minutes)
    ∷ (codes "m", months_minutes)
    ∷ (codes "hour", hours)
    ∷ (codes "hours", hours)
    ∷ (codes "hr", hours)
    ∷ (codes "h", hours)
    ∷ (codes "day", days)
    ∷ (codes "days", days)
    ∷ (codes "d", days)
    ∷ (codes "week", weeks)
    ∷ (codes "weeks", weeks)
    ∷ (codes "wk", weeks)
    ∷ (codes "w", weeks)
    ∷ (codes "month", months)
    ∷ (codes "months", months)
    ∷ (codes "mon", months)
    ∷ (codes "year", years)
    ∷ (codes "years", years)
    ∷ (codes "yr", years)
    ∷ (codes "y", years)
    ∷ []

-- `isdigit`, `isalpha`, `tolower`, and the loop's test for what stands between tokens
abbrev pub isdigit : ℕ → Bool
isdigit c = leb b'0' c && leb c b'9'

abbrev pub isalpha : ℕ → Bool
isalpha c = leb b'A' c && leb c b'Z' || leb b'a' c && leb c b'z'

abbrev pub tolower : ℕ → ℕ
tolower c = if leb b'A' c && leb c b'Z' then c + 32 else c

abbrev pub is_blank : ℕ → Bool
is_blank c = c == b' ' || leb 9 c && leb c 13 || c == b'_' || c == b','

-- `mystrcasecmp`, as far as it tells equal texts
unfoldable pub mystrcasecmp : List ℕ → List ℕ → Bool
mystrcasecmp [] [] = true
mystrcasecmp (a ∷ s) (b ∷ t) = (tolower a == tolower b) && mystrcasecmp s t
mystrcasecmp _ _ = false

unfoldable pub parse_token : Words → List ℕ → Symbol
unfolding mystrcasecmp
parse_token [] arg = id
parse_token ((name, value) ∷ specials) arg =
    if mystrcasecmp name arg then value else parse_token specials arg

-- The variables of the scanner, with the list of the arguments left for `scp` and `scc`.
pub record Scanner : Type 0 where
  pub specials : Words
  pub scp : List (List ℕ)
  pub sct : List ℕ
  pub need : Bool
  pub sc_token : List ℕ
  pub sc_tokid : Symbol

-- the loops over bytes of one sort: the bytes they take, and what they leave
unfoldable pub span : (ℕ → Bool) → List ℕ → List ℕ
span p [] = []
span p (c ∷ s) = let more = span p s in if p c then c ∷ more else []

unfoldable pub behind : (ℕ → Bool) → List ℕ → List ℕ
behind p [] = []
behind p (c ∷ s) = let more = behind p s in if p c then more else c ∷ s

abbrev pub symbol_of : ℕ → Symbol
symbol_of c =
    if c == b':'
    then colon
    else if c == b'.'
    then dot
    else if c == b'+'
    then plus
    else if c == b'-'
    then minus
    else if c == b'/'
    then slash
    else eof

-- a token that starts with the byte given
unfoldable pub scan : Words → List (List ℕ) → ℕ → List ℕ → Scanner
unfolding parse_token span behind
scan specials scp c s =
    if isdigit c
    then record {
      specials = specials;
      scp = scp;
      sct = behind isdigit s;
      need = false;
      sc_token = c ∷ span isdigit s;
      sc_tokid = number;
    }
    else if isalpha c
    then record {
      specials = specials;
      scp = scp;
      sct = behind isalpha s;
      need = false;
      sc_token = c ∷ span isalpha s;
      sc_tokid = parse_token specials (c ∷ span isalpha s);
    }
    else record {
      specials = specials;
      scp = scp;
      sct = elim (symbol_of c) [ eof ↦ c ∷ s | _ ↦ s ];
      need = false;
      sc_token = c ∷ [];
      sc_tokid = symbol_of c;
    }

-- the loop of `token`, where an argument is needed; past the last one `sct` stays at a zero byte
unfoldable pub next_argument : Words → List (List ℕ) → Scanner
unfolding scan behind
next_argument specials [] = record {
  specials = specials;
  scp = [];
  sct = [];
  need = true;
  sc_token = [];
  sc_tokid = eof;
}
next_argument specials (a ∷ scp) = elim (behind is_blank a) [
  | [] ↦ next_argument specials scp
  | c ∷ s ↦ scan specials scp c s
]

unfoldable pub token : Scanner → Scanner
unfolding scan behind next_argument
token sc = if sc.need then next_argument sc.specials sc.scp else elim (behind is_blank sc.sct) [
  | [] ↦ next_argument sc.specials sc.scp
  | c ∷ s ↦ scan sc.specials sc.scp c s
]

abbrev pub init_scanner : Words → List ℕ → Scanner
init_scanner specials tspec = record {
  specials = specials;
  scp = tspec ∷ [];
  sct = [];
  need = true;
  sc_token = [];
  sc_tokid = eof;
}

-- INT_MAX and LONG_MAX
abbrev pub int_max : ℕ
int_max = 2147483647

abbrev pub long_max : ℕ
long_max = 9223372036854775807

-- `atoi` and `atol` of a token: the number of the digits at its front, or 0. The callers say what
-- becomes of one that does not fit.
unfoldable pub digits_value : ℕ → List ℕ → ℕ
digits_value n [] = n
digits_value n (c ∷ s) =
    let more = digits_value (n * 10 + (c - b'0')) s in if isdigit c then more else n

unfoldable pub atoi : List ℕ → ℕ
unfolding digits_value
atoi s = digits_value 0 s

abbrev pub is_number : Symbol → Bool
is_number number = true
is_number _ = false

abbrev pub is_plus : Symbol → Bool
is_plus plus = true
is_plus _ = false

-- `expect2`, with the message to fail with
unfoldable pub expect2 : TimeError → Scanner → Parsed Scanner
unfolding token
expect2 e sc = if is_number (token sc).sc_tokid then ok (token sc) else failed e

-- `*localtime(&t)`
abbrev pub broken_down : Option Tm → Parsed Tm
broken_down none = undefined
broken_down (some t) = ok t
