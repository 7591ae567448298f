-- ===== src/ParseTime/Day/Notations.antt =====
-- The three notations of a date in numbers that `day` of rrdtool-1.4.5/src/rrd_parsetime.c reads.
use administracion_servicios.Prelude.{
  ℕ, ◌*◌, ◌≤◌, ◌<◌, ◌≡◌, refl, ◌∙◌, ap, Bool, true, false, List, [], ◌∷◌, ◌++◌, ltb, leb, take,
  drop, arith,
}
use administracion_servicios.Prelude.Int.{pos}
use administracion_servicios.ParseTime.{
  Symbol, number, dot, slash, Words, TimeValue, Calendar, Scanner, token, atoi, isdigit, Parsed,
  ◌>>=◌, behind, scan, no_second_number, no_year_number,
}
use administracion_servicios.ParseTime.Day.{
  Progress, dated, checked_date, ordered, year_behind, separated, day_number, numeric_day,
}
use administracion_servicios.ParseTime.Tokens.{placed, Stops, Every, expect2-number, token_same}

-- A date: two digits for the day and the month each, and four for the year.
pub record Digits : Type 0 where
  pub d1 : ℕ
  pub d2 : ℕ
  pub m1 : ℕ
  pub m2 : ℕ
  pub y1 : ℕ
  pub y2 : ℕ
  pub y3 : ℕ
  pub y4 : ℕ

abbrev pub mday_of : Digits → List ℕ
mday_of c = c.d1 ∷ c.d2 ∷ []

abbrev pub mon_of : Digits → List ℕ
mon_of c = c.m1 ∷ c.m2 ∷ []

abbrev pub year_of : Digits → List ℕ
year_of c = c.y1 ∷ c.y2 ∷ c.y3 ∷ c.y4 ∷ []

abbrev separator : Bool → ℕ
separator true = b'.'
separator false = b'/'

abbrev separator_symbol : Bool → Symbol
separator_symbol true = dot
separator_symbol false = slash

token-separator :
    (b : Bool) (w : Words) (t : List ℕ) (k : Symbol) (s : List ℕ)
    → token (placed w t k (separator b ∷ s)) ≡ placed w (separator b ∷ []) (separator_symbol b) s
unfolding token behind scan
token-separator true w t k s = refl
token-separator false w t k s = refl

separator_stops : (b : Bool) → isdigit (separator b) ≡ false
separator_stops true = refl
separator_stops false = refl

year_behind_lem :
    (b : Bool) (v : TimeValue) (first second : ℕ) (w : Words) (c : ℕ) (m s : List ℕ)
    → Every isdigit (c ∷ m)
    → Stops isdigit s
    → year_behind b v first second (placed w (separator b ∷ []) (separator_symbol b) (c ∷ (m ++ s)))
      ≡ dated (token (placed w (c ∷ m) number s)) (ordered b v first second (pos (atoi (c ∷ m))))
unfolding year_behind
year_behind_lem true v first second w c m s hc st =
    ap
      (λ (r : Parsed Scanner).
        r >>= λ sc. dated (token sc) (ordered true v first second (pos (atoi sc.sc_token))))
      (expect2-number no_year_number w (b'.' ∷ []) dot c m s hc st)
year_behind_lem false v first second w c m s hc st =
    ap
      (λ (r : Parsed Scanner).
        r >>= λ sc. dated (token sc) (ordered false v first second (pos (atoi sc.sc_token))))
      (expect2-number no_year_number w (b'/' ∷ []) slash c m s hc st)

-- the second number and the year
separated_lem :
    (b : Bool) (first : ℕ) (v : TimeValue) (w : Words) (t : List ℕ) (k : Symbol) (a c : ℕ)
    (l m s : List ℕ)
    → Every isdigit (a ∷ l)
    → Every isdigit (c ∷ m)
    → Stops isdigit s
    → separated b first (v, placed w t k (a ∷ (l ++ separator b ∷ c ∷ (m ++ s))))
      ≡ dated
          (token (placed w (c ∷ m) number s))
          (ordered b v first (atoi (a ∷ l)) (pos (atoi (c ∷ m))))
unfolding separated
separated_lem b first v w t k a c l m s ha hc st =
    ap (λ (r : Parsed Scanner). r >>= λ sc. year_behind b v first (atoi sc.sc_token) (token sc))
      (expect2-number no_second_number w t k a l (separator b ∷ c ∷ (m ++ s)) ha
        (separator_stops b))
    ∙ ap (λ (sc : Scanner). year_behind b v first (atoi (a ∷ l)) sc)
        (token-separator b w (a ∷ l) number (c ∷ (m ++ s)))
    ∙ year_behind_lem b v first (atoi (a ∷ l)) w c m s hc st

-- The date as the checks see it, and the place behind it.
abbrev pub dated_by : Digits → TimeValue → Words → List ℕ → Parsed Progress
dated_by c v w s =
    dated (token (placed w (year_of c) number s))
      (checked_date v (atoi (mday_of c)) (atoi (mon_of c)) (pos (atoi (year_of c))))

-- the token of the first number, as `day` gets it
abbrev pub behind_number : TimeValue → Words → List ℕ → List ℕ → Progress
behind_number v w t s = (v, placed w t number s)

in_range :
    (n : ℕ)
    → 19700101 < n
    → n < 24000101
    → (ltb (10 * 365 * 24 * 60 * 60) n ≡ false) × (ltb 19700101 n ≡ true) × (ltb n 24000101 ≡ true)
in_range n lo hi = (ground arith, ground arith, ground arith)

small :
    (n : ℕ)
    → n ≤ 31
    → (ltb (10 * 365 * 24 * 60 * 60) n ≡ false) × (ltb 19700101 n ≡ false) × (leb n 31 ≡ true)
small n h = (ground arith, ground arith, ground arith)

day_number-separator :
    (cal : Calendar) (b : Bool) (v : TimeValue) (w : Words) (t s : List ℕ)
    → atoi t ≤ 31
    → day_number cal v t (placed w (separator b ∷ []) (separator_symbol b) s)
      ≡ separated b (atoi t) (v, placed w (separator b ∷ []) (separator_symbol b) s)
unfolding day_number
day_number-separator cal true v w t s h =
    let (a, b, c) = small (atoi t) h in rw a (rw b (rw c refl))
day_number-separator cal false v w t s h =
    let (a, b, c) = small (atoi t) h in rw a (rw b (rw c refl))

day_number-packed :
    (cal : Calendar) (v : TimeValue) (t : List ℕ) (sc : Scanner)
    → 19700101 < atoi t
    → atoi t < 24000101
    → day_number cal v t sc
      ≡ dated sc (
          checked_date v
            (atoi (take 2 (drop 6 t)))
            (atoi (take 2 (drop 4 t)))
            (pos (atoi (take 4 t))))
unfolding day_number
day_number-packed cal v t sc lo hi =
    let (a, b, c) = in_range (atoi t) lo hi in rw a (rw b (rw c refl))

module _ (cal : Calendar) (c : Digits) (v : TimeValue) (w : Words) (s : List ℕ)
    (hd : Every isdigit (mday_of c)) (hm : Every isdigit (mon_of c))
    (hy : Every isdigit (year_of c)) (st : Stops isdigit s) where
  european :
      atoi (mday_of c) ≤ 31
      → numeric_day cal
          (behind_number v w (mday_of c) (b'.' ∷ (mon_of c ++ (b'.' ∷ (year_of c ++ s)))))
        ≡ dated_by c v w s
  unfolding numeric_day
  european l =
      ap (λ (sc : Scanner). day_number cal v (mday_of c) sc)
        (token-separator true w (mday_of c) number (mon_of c ++ (b'.' ∷ (year_of c ++ s))))
      ∙ day_number-separator cal true v w (mday_of c) _ l
      ∙ separated_lem true (atoi (mday_of c)) v w (b'.' ∷ []) dot c.m1 c.y1 (c.m2 ∷ [])
          (c.y2 ∷ c.y3 ∷ c.y4 ∷ []) s hm hy st

  american :
      atoi (mon_of c) ≤ 31
      → numeric_day cal
          (behind_number v w (mon_of c) (b'/' ∷ (mday_of c ++ (b'/' ∷ (year_of c ++ s)))))
        ≡ dated_by c v w s
  unfolding numeric_day
  american l =
      ap (λ (sc : Scanner). day_number cal v (mon_of c) sc)
        (token-separator false w (mon_of c) number (mday_of c ++ (b'/' ∷ (year_of c ++ s))))
      ∙ day_number-separator cal false v w (mon_of c) _ l
      ∙ separated_lem false (atoi (mon_of c)) v w (b'/' ∷ []) slash c.d1 c.y1 (c.d2 ∷ [])
          (c.y2 ∷ c.y3 ∷ c.y4 ∷ []) s hd hy st

  packed :
      19700101 < atoi (year_of c ++ (mon_of c ++ mday_of c))
      → atoi (year_of c ++ (mon_of c ++ mday_of c)) < 24000101
      → numeric_day cal (behind_number v w (year_of c ++ (mon_of c ++ mday_of c)) s)
        ≡ dated_by c v w s
  unfolding numeric_day
  packed lo hi =
      let t = year_of c ++ (mon_of c ++ mday_of c) in
      day_number-packed cal v t (token (placed w t number s)) lo hi
      ∙ ap
          (λ (sc : Scanner).
            dated sc (checked_date v (atoi (mday_of c)) (atoi (mon_of c)) (pos (atoi (year_of c)))))
          (token_same w t (year_of c) number number s)

  -- A date of two digits for the day, two for the month and four for the year, from the second of
  -- January 1970 to the end of 2399 and with no more than 31 for day and month: written with dots
  -- the day first, with slashes the month first, or as one number the year first, `day` takes it
  -- for the same date, or refuses it with the same message, and goes on behind it.
  pub numeric_day_notations :
      atoi (mday_of c) ≤ 31
      → atoi (mon_of c) ≤ 31
      → 19700101 < atoi (year_of c ++ (mon_of c ++ mday_of c))
      → atoi (year_of c ++ (mon_of c ++ mday_of c)) < 24000101
      → (numeric_day cal
            (behind_number v w (mday_of c) (b'.' ∷ (mon_of c ++ (b'.' ∷ (year_of c ++ s)))))
          ≡ dated_by c v w s)
        × (numeric_day cal
              (behind_number v w (mon_of c) (b'/' ∷ (mday_of c ++ (b'/' ∷ (year_of c ++ s)))))
            ≡ dated_by c v w s)
        × (numeric_day cal (behind_number v w (year_of c ++ (mon_of c ++ mday_of c)) s)
            ≡ dated_by c v w s)
  numeric_day_notations d m lo hi = (european d, american m, packed lo hi)
