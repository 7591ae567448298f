-- ===== src/Diff.antt =====
-- `rrd_diff` of rrdtool-1.4.5/src/rrd_diff.c: the difference of two counter readings, written out
-- digit by digit on the decimal texts. A text is the list of its bytes up to the terminator. The
-- result of `atof` on the digits is the integer that they write, before it is rounded to a double.
pub mod Borrow
pub mod Correct
mod Tests
use administracion_servicios.Prelude.{
  ℕ, zero, suc, ◌+◌, ◌-◌, ◌*◌, Bool, true, false, not, ◌&&◌, ◌||◌, List, [], ◌∷◌, ltb, leb, ◌==◌,
  if◌then◌else◌, length, max,
}
use administracion_servicios.Prelude.Int.{ℤ, pos, sub_ℕ, neg_part, pos_part}

-- LAST_DS_LEN; the array `res` has one entry more
abbrev pub last_ds_len : ℕ
last_ds_len = 30

abbrev pub isdigit : ℕ → Bool
isdigit c = leb b'0' c && leb c b'9'

-- the first loop over a text: whether a minus sign stands before the digits, and the text from
-- the first digit on
unfoldable pub skip_sign : Bool → List ℕ → Bool × List ℕ
skip_sign neg [] = (neg, [])
skip_sign neg (c ∷ s) =
    if isdigit c then (neg, c ∷ s) else skip_sign (if c == b'-' then true else neg) s

-- the digits up to the first byte that is none, where the source ends the text
unfoldable pub digits : List ℕ → List ℕ
digits [] = []
digits (c ∷ s) = if isdigit c then c ∷ digits s else []

-- `*r1` in a round of the subtraction, before its correction: with digits left in both texts, in
-- the first alone, and otherwise
abbrev pub both_left : ℕ → ℕ → ℕ → ℕ
both_left a b c = a + b'0' - (c + b)

abbrev pub first_left : ℕ → ℕ → ℕ
first_left a c = a - c

abbrev pub second_left : ℕ → ℕ → ℕ
second_left b c = b'0' + b'0' - (c + b)

-- the correction: the digit, and the borrow for the next round
abbrev pub correct : ℕ → ℕ × ℕ
correct r = if ltb r b'0' then (r + 10, 1) else if ltb b'9' r then (r - 10, 1) else (r, 0)

-- The subtraction, on the digits with the last ones first: the digits of the result, and the final
-- borrow. It makes as many rounds as the longer text has digits.
unfoldable pub subtract : List ℕ → List ℕ → ℕ → List ℕ × ℕ
subtract [] [] c = ([], c)
subtract (a ∷ as₁) (b ∷ bs) c =
    let (r, c') = correct (both_left a b c) in let (rs, c'') = subtract as₁ bs c' in (r ∷ rs, c'')
subtract (a ∷ as₁) [] c =
    let (r, c') = correct (first_left a c) in let (rs, c'') = subtract as₁ [] c' in (r ∷ rs, c'')
subtract [] (b ∷ bs) c =
    let (r, c') = correct (second_left b c) in let (rs, c'') = subtract [] bs c' in (r ∷ rs, c'')

-- the loop that turns a result with a borrow into the digits of its absolute value
unfoldable pub complement : List ℕ → ℕ → List ℕ
complement [] c = []
complement (r ∷ rs) c =
    let r' = b'9' - r + c + b'0' in
    if ltb b'9' r' then (r' - 10) ∷ complement rs 1 else r' ∷ complement rs 0

-- The value of decimal digits, first digit first, behind a number already read: `atof` on a text of
-- digits alone, before its result is rounded to a double.
abbrev pub decimal : ℕ → List ℕ → ℕ
decimal n [] = n
decimal n (d ∷ ds) = decimal (10 * n + (d - b'0')) ds

-- the bytes in the order in which a pointer that runs backwards meets them
abbrev pub reverse_onto : List ℕ → List ℕ → List ℕ
reverse_onto [] acc = acc
reverse_onto (x ∷ xs) acc = reverse_onto xs (x ∷ acc)

abbrev pub negate : ℤ → ℤ
negate z = sub_ℕ (neg_part z) (pos_part z)

-- DNAN, a write behind the end of `res`, or a number
pub data Outcome : Type 0 where
  dnan overrun : Outcome
  value : ℤ → Outcome

abbrev pub is_empty : List ℕ → Bool
is_empty [] = true
is_empty (_ ∷ _) = false

-- the result, from the digits of `res` and the final borrow
abbrev pub result : List ℕ × ℕ → ℤ
result (rs, c) =
    if c == 0
    then pos (decimal 0 (reverse_onto rs []))
    else negate (pos (decimal 0 (reverse_onto (complement rs c) [])))

-- `rrd_diff` behind the loops that find the digits of both texts and their signs. The last write
-- before the subtraction is to `res[m + 2]`.
unfoldable pub difference : Bool → List ℕ → Bool → List ℕ → Outcome
difference a_neg da b_neg db =
    let m = max (length da) (length db) in
    let r = result (subtract (reverse_onto da []) (reverse_onto db []) 0) in
    if is_empty da || is_empty db
    then dnan
    else if not (a_neg && b_neg) && (a_neg || b_neg)
    then dnan
    else if ltb last_ds_len m
    then dnan
    else if ltb last_ds_len (m + 2)
    then overrun
    else value (if a_neg && b_neg then negate r else r)

-- `rrd_diff`
unfoldable pub rrd_diff : List ℕ → List ℕ → Outcome
rrd_diff a b =
    let (a_neg, a') = skip_sign false a in
    let (b_neg, b') = skip_sign false b in difference a_neg (digits a') b_neg (digits b')
