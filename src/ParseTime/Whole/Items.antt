-- ===== src/ParseTime/Whole/Items.antt =====
-- The loop over the offsets of `rrd_parsetime` in rrdtool-1.4.5/src/rrd_parsetime.c, on offsets that
-- are written one behind the other.
use administracion_servicios.Prelude.{
  ℕ, zero, suc, ◌<◌, ◌≡◌, refl, ap, ◌∙◌, Bool, true, Option, none, some, List, [], ◌∷◌, ◌++◌,
  length, All, arith,
}
use administracion_servicios.ParseTime.{
  Symbol, number, eof, Words, TimeValue, Scanner, token, time_multipliers, parse_token, isdigit,
  isalpha, atoi, Parsed, ok, ◌>>=◌,
}
use administracion_servicios.ParseTime.Offset.{
  State, fits, with_unit, plus_minus, advance, offset_loop,
}
use administracion_servicios.ParseTime.Whole.Meaning.{
  moved_by, unit_meant, multiplier_lem, add_delta-moved_by,
}
use administracion_servicios.ParseTime.Whole.Fuel.{offset_loop_more}
use administracion_servicios.ParseTime.Tokens.{
  sign_symbol, sign_byte, placed, at_end, Stops, alpha-digit, sign-alpha, digit-alpha, token-at_end,
  token-sign, sign_operation, token-word, token-number, expect2-number,
}

-- An offset as it is written: a sign or none, digits, letters.
pub record Item : Type 0 where
  pub sign : Option Bool
  pub digit : ℕ
  pub digits : List ℕ
  pub letter : ℕ
  pub letters : List ℕ

abbrev pub amount : Item → List ℕ
amount i = i.digit ∷ i.digits

abbrev pub word : Item → List ℕ
word i = i.letter ∷ i.letters

abbrev pub sign_text : Option Bool → List ℕ
sign_text none = []
sign_text (some b) = sign_byte b ∷ []

abbrev pub text : List Item → List ℕ
text [] = []
text (i ∷ l) = sign_text i.sign ++ (amount i ++ (word i ++ text l))

abbrev pub IsItem : Item → Type 0
IsItem i = All (λ c. isdigit c ≡ true) (amount i) × All (λ c. isalpha c ≡ true) (word i)

-- Its meaning: the sign or, without one, that of the offset before; "m" is read by the unit of the
-- offset before, if there is no sign between them.
abbrev sign_of : Option Bool → Symbol → Symbol
sign_of none op = op
sign_of (some b) op = sign_symbol b

abbrev context_of : Option Bool → Option Symbol → Option Symbol
context_of none prev = prev
context_of (some _) prev = none

abbrev unit_of : Item → Option Symbol → Symbol
unit_of i prev =
    unit_meant (parse_token time_multipliers (word i)) (context_of i.sign prev) (atoi (amount i))

abbrev pub shifted : List Item → Symbol → Option Symbol → TimeValue → TimeValue
shifted [] op prev v = v
shifted (i ∷ l) op prev v =
    shifted l (sign_of i.sign op) (some (unit_of i prev))
      (moved_by (sign_of i.sign op) (atoi (amount i)) (unit_of i prev) v)

-- No `int` overflows: not the numbers, not their products, and not the year, month or day.
abbrev pub AllFit : List Item → Symbol → Option Symbol → TimeValue → Type 0
AllFit [] op prev v = Unit {0}
AllFit (i ∷ l) op prev v =
    let op' = sign_of i.sign op in
    let unit = unit_of i prev in
    let w = moved_by op' (atoi (amount i)) unit v in
    (fits (atoi (amount i)) unit w ≡ true) × AllFit l op' (some unit) w

abbrev pub last_sign : List Item → Symbol → Symbol
last_sign [] op = op
last_sign (i ∷ l) op = last_sign l (sign_of i.sign op)

abbrev pub last_unit : List Item → Option Symbol → Option Symbol
last_unit [] prev = prev
last_unit (i ∷ l) prev = last_unit l (some (unit_of i prev))

text-Stops : (l : List Item) → All IsItem l → Stops isalpha (text l)
text-Stops [] h = tt
text-Stops (i ∷ l) (h, _) = go i.sign
  where
    go : (o : Option Bool) → Stops isalpha (sign_text o ++ (amount i ++ (word i ++ text l)))
    go none = digit-alpha i.digit h.0.0
    go (some b) = sign-alpha b

abbrev pub Z : Words
Z = time_multipliers

-- the state of the loop, with the scanner given
abbrev pub looping : TimeValue → Symbol → Option Symbol → Scanner → State
looping v op prev sc = record { ptv = v; scanner = sc; op = op; prev_multiplier = prev }

-- behind the number: the unit is read, and the next token
abbrev behind_item : Item → List ℕ → TimeValue → Symbol → Option Symbol → State
behind_item i s v op prev =
    let unit = unit_meant (parse_token Z (word i)) prev (atoi (amount i)) in
    looping (moved_by op (atoi (amount i)) unit v) op (some unit) (placed Z (word i) unit s)

-- the number, the product and the fields fit
abbrev Fits : Item → TimeValue → Symbol → Option Symbol → Type 0
Fits i v op prev =
    let n = atoi (amount i) in
    let unit = unit_meant (parse_token Z (word i)) prev n in
    fits n unit (moved_by op n unit v) ≡ true

with_unit-item :
    (i : Item) (s : List ℕ) (v : TimeValue) (op : Symbol) (prev : Option Symbol)
    → IsItem i
    → Stops isalpha s
    → Fits i v op prev
    → with_unit op prev v (placed Z (amount i) number (word i ++ s))
      ≡ ok (behind_item i s v op prev)
unfolding with_unit
with_unit-item i s v op prev h st f =
    let n = atoi (amount i) in
    let k = parse_token Z (word i) in
    rw (token-word (amount i) number Z i.letter i.letters s h.1 st) (
      rw (multiplier_lem prev n k)
        (rw (add_delta-moved_by op n (unit_meant k prev n) v) (rw f refl)))

-- one offset
plus_minus-item :
    (i : Item) (doop : Option Symbol) (t : List ℕ) (k : Symbol) (s : List ℕ) (v : TimeValue)
    (op : Symbol) (prev : Option Symbol)
    → IsItem i
    → Stops isalpha s
    → ((op' : Symbol)
        → Fits i v op' none
        → plus_minus (some op') (looping v op prev (placed Z t k (amount i ++ (word i ++ s))))
          ≡ ok (behind_item i s v op' none))
      × (Fits i v op prev
          → plus_minus none (looping v op prev (placed Z (amount i) number (word i ++ s)))
            ≡ ok (behind_item i s v op prev))
unfolding plus_minus
plus_minus-item i doop t k s v op prev h st = (
  λ op' f.
      rw (expect2-number _ Z t k i.digit i.digits (word i ++ s) h.0 (alpha-digit i.letter h.1.0))
        (with_unit-item i s v op' none h st f),
  λ f. with_unit-item i s v op prev h st f,
)

-- one round, from the token that starts the offset to the token behind it
round :
    (fuel : ℕ) (o : Option Bool) (i : Item) (t : List ℕ) (k : Symbol) (s : List ℕ) (v : TimeValue)
    (op : Symbol) (prev : Option Symbol)
    → IsItem i
    → Stops isalpha s
    → Fits i v (sign_of o op) (context_of o prev)
    → offset_loop
        (suc fuel)
        (looping v op prev (token (placed Z t k (sign_text o ++ (amount i ++ (word i ++ s))))))
      ≡ offset_loop fuel (advance (behind_item i s v (sign_of o op) (context_of o prev)))
unfolding offset_loop
round fuel none i t k s v op prev h st f =
    rw (token-number t k Z i.digit i.digits (word i ++ s) h.0 (alpha-digit i.letter h.1.0)) (
      offset_loop_more fuel (looping v op prev (placed Z (amount i) number (word i ++ s))) none refl
      ∙ ap (λ (r : Parsed State). r >>= λ x. offset_loop fuel (advance x))
          ((plus_minus-item i none [] eof s v op prev h st).1 f))
round fuel (some b) i t k s v op prev h st f = rw (token-sign b t k Z (amount i ++ (word i ++ s))) (
    offset_loop_more fuel
      (looping v op prev (placed Z (sign_byte b ∷ []) (sign_symbol b) (amount i ++ (word i ++ s))))
      (some (sign_symbol b)) (sign_operation b)
    ∙ ap (λ (r : Parsed State). r >>= λ x. offset_loop fuel (advance x))
        ((plus_minus-item i none (sign_byte b ∷ []) (sign_symbol b) s v op prev h st).0
          (sign_symbol b) f))

pub offset_loop-text :
    (fuel : ℕ) (l : List Item) (t : List ℕ) (k : Symbol) (v : TimeValue) (op : Symbol)
    (prev : Option Symbol)
    → All IsItem l
    → AllFit l op prev v
    → length l < fuel
    → offset_loop fuel (looping v op prev (token (placed Z t k (text l))))
      ≡ ok (looping (shifted l op prev v) (last_sign l op) (last_unit l prev) (at_end Z))
offset_loop-text zero l t k v op prev h f lt = absurd (omega arith)
offset_loop-text (suc fuel) [] t k v op prev h f lt =
    rw (token-at_end Z t k) (unfold offset_loop in refl)
offset_loop-text (suc fuel) (i ∷ l) t k v op prev (h, hs) (f, fs) lt =
    round fuel i.sign i t k (text l) v op prev h (text-Stops l hs) f
    ∙ offset_loop-text fuel l (word i) (unit_of i prev) _ (sign_of i.sign op)
        (some (unit_of i prev)) hs fs (omega arith)
