-- ===== src/ParseTime/Tokens.antt =====
-- What the scanner of rrdtool-1.4.5/src/rrd_parsetime.c reads where a text starts with a word, a
-- number or a sign.
use administracion_servicios.Prelude.{
  ℕ, ◌≡◌, refl, ap, ◌∙◌, Bool, true, false, some, List, [], ◌∷◌, ◌++◌, All, arith,
}
use administracion_servicios.ParseTime.{
  Symbol, plus, minus, number, eof, Words, TimeError, Scanner, span, behind, scan, next_argument,
  token, init_scanner, parse_token, isdigit, isalpha, is_blank, expect2, ok,
}
use administracion_servicios.ParseTime.Offset.{operation}
use administracion_servicios.ParseTime.Offset.{operation}

abbrev pub sign_symbol : Bool → Symbol
sign_symbol true = plus
sign_symbol false = minus

abbrev pub sign_byte : Bool → ℕ
sign_byte true = b'+'
sign_byte false = b'-'

-- the scanner within the one argument, and at its end
abbrev pub placed : Words → List ℕ → Symbol → List ℕ → Scanner
placed w t k s = record {
  specials = w;
  scp = [];
  sct = s;
  need = false;
  sc_token = t;
  sc_tokid = k;
}

abbrev pub at_end : Words → Scanner
at_end w = record { specials = w; scp = []; sct = []; need = true; sc_token = []; sc_tokid = eof }

abbrev pub Stops : (ℕ → Bool) → List ℕ → Type 0
Stops p [] = Unit {0}
Stops p (c ∷ s) = p c ≡ false

abbrev pub Every : (ℕ → Bool) → List ℕ → Type 0
Every p l = All (λ c. p c ≡ true) l

pub span_lem : (p : ℕ → Bool) (l s : List ℕ) → Every p l → Stops p s → span p (l ++ s) ≡ l
unfolding span
span_lem p [] [] a h = refl
span_lem p [] (c ∷ s) a h = rw h refl
span_lem p (c ∷ l) s (a, b) h = rw a (ap (λ t. c ∷ t) (span_lem p l s b h))

pub behind_lem : (p : ℕ → Bool) (l s : List ℕ) → Every p l → Stops p s → behind p (l ++ s) ≡ s
unfolding behind
behind_lem p [] [] a h = refl
behind_lem p [] (c ∷ s) a h = rw h refl
behind_lem p (c ∷ l) s (a, b) h = rw a (behind_lem p l s b h)

pub digit-blank : (c : ℕ) → isdigit c ≡ true → is_blank c ≡ false
digit-blank c h = ground arith

pub alpha-blank : (c : ℕ) → isalpha c ≡ true → is_blank c ≡ false
alpha-blank c h = ground arith

pub alpha-digit : (c : ℕ) → isalpha c ≡ true → isdigit c ≡ false
alpha-digit c h = ground arith

pub sign-alpha : (b : Bool) → isalpha (sign_byte b) ≡ false
sign-alpha true = refl
sign-alpha false = refl

pub digit-alpha : (c : ℕ) → isdigit c ≡ true → isalpha c ≡ false
digit-alpha c h = ground arith

pub scan-word :
    (w : Words) (c : ℕ) (l s : List ℕ)
    → Every isalpha (c ∷ l)
    → Stops isalpha s
    → scan w [] c (l ++ s) ≡ placed w (c ∷ l) (parse_token w (c ∷ l)) s
unfolding scan
scan-word w c l s (a, b) h =
    rw (alpha-digit c a, a, span_lem isalpha l s b h, behind_lem isalpha l s b h) refl

pub scan-number :
    (w : Words) (c : ℕ) (l s : List ℕ)
    → Every isdigit (c ∷ l)
    → Stops isdigit s
    → scan w [] c (l ++ s) ≡ placed w (c ∷ l) number s
unfolding scan
scan-number w c l s (a, b) h = rw (a, span_lem isdigit l s b h, behind_lem isdigit l s b h) refl

-- the first byte of a token
pub token_at :
    (w : Words) (t : List ℕ) (k : Symbol) (c : ℕ) (s : List ℕ)
    → is_blank c ≡ false
    → token (placed w t k (c ∷ s)) ≡ scan w [] c s
unfolding token behind
token_at w t k c s e = rw e refl

pub first_token_at :
    (w : Words) (c : ℕ) (s : List ℕ)
    → is_blank c ≡ false
    → token (init_scanner w (c ∷ s)) ≡ scan w [] c s
unfolding token behind next_argument
first_token_at w c s e = rw (e, next_argument) refl

pub token-at_end : (w : Words) (t : List ℕ) (k : Symbol) → token (placed w t k []) ≡ at_end w
unfolding token behind next_argument
token-at_end w t k = refl

pub token-sign :
    (b : Bool) (t : List ℕ) (k : Symbol) (w : Words) (s : List ℕ)
    → token (placed w t k (sign_byte b ∷ s)) ≡ placed w (sign_byte b ∷ []) (sign_symbol b) s
unfolding token behind scan
token-sign true t k w s = refl
token-sign false t k w s = refl

pub sign_operation : (b : Bool) → operation (sign_symbol b) ≡ some (some (sign_symbol b))
sign_operation true = refl
sign_operation false = refl

module _ (t : List ℕ) (k : Symbol) (w : Words) (c : ℕ) (l s : List ℕ) where
  pub token-word :
      Every isalpha (c ∷ l)
      → Stops isalpha s
      → token (placed w t k (c ∷ (l ++ s))) ≡ placed w (c ∷ l) (parse_token w (c ∷ l)) s
  token-word a h = token_at w t k c (l ++ s) (alpha-blank c a.0) ∙ scan-word w c l s a h

  pub token-number :
      Every isdigit (c ∷ l)
      → Stops isdigit s
      → token (placed w t k (c ∷ (l ++ s))) ≡ placed w (c ∷ l) number s
  token-number a h = token_at w t k c (l ++ s) (digit-blank c a.0) ∙ scan-number w c l s a h

pub expect2-number :
    (e : TimeError) (w : Words) (t : List ℕ) (k : Symbol) (c : ℕ) (l s : List ℕ)
    → Every isdigit (c ∷ l)
    → Stops isdigit s
    → expect2 e (placed w t k (c ∷ (l ++ s))) ≡ ok (placed w (c ∷ l) number s)
unfolding expect2
expect2-number e w t k c l s a h = rw (token-number t k w c l s a h) refl

-- A token does not depend on the one before.
pub token_same :
    (w : Words) (t t' : List ℕ) (k k' : Symbol) (s : List ℕ)
    → token (placed w t k s) ≡ token (placed w t' k' s)
unfolding token
token_same w t t' k k' s = refl
