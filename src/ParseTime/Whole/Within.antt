-- ===== src/ParseTime/Whole/Within.antt =====
-- How much of the text the scanner of rrdtool-1.4.5/src/rrd_parsetime.c leaves.
use administracion_servicios.Prelude.{
  ℕ, suc, ◌≤◌, ◌≡◌, refl, ◌⊎◌, inl, inr, ap, ◌∙◌, Bool, none, List, [], ◌∷◌, length, Bool-cases,
  arith,
}
use administracion_servicios.ParseTime.{
  Symbol, Words, TimeError, Scanner, behind, scan, next_argument, token, init_scanner, is_number,
  is_blank, isdigit, isalpha, symbol_of, expect2, eof,
}
use administracion_servicios.ParseTime.Ends.{Ends, holds, fails, Ends-if}
use administracion_servicios.ParseTime.Offset.{operation}

-- No argument is left, and at most `n` bytes of the last one.
abbrev pub Within : ℕ → Scanner → Type 0
Within n sc = (sc.scp ≡ []) × (length sc.sct ≤ n)

length-behind : (p : ℕ → Bool) (s : List ℕ) → length (behind p s) ≤ length s
unfolding behind
length-behind p [] = omega arith
length-behind p (c ∷ s) = elim (Bool-cases (p c)) [
  | inl e ↦ rw e (omega (arith, length-behind p s))
  | inr e ↦ rw e (omega arith)
]

scan-scp : (w : Words) (l : List (List ℕ)) (c : ℕ) (s : List ℕ) → (scan w l c s).scp ≡ l
unfolding scan
scan-scp w l c s = elim (Bool-cases (isdigit c)) [
  | inl d ↦ rw d refl
  | inr nd ↦ elim (Bool-cases (isalpha c)) [ inl a ↦ rw (nd, a) refl | inr na ↦ rw (nd, na) refl ]
]

symbol_kept :
    (k : Symbol) (c : ℕ) (s : List ℕ) → length (elim k [ eof ↦ c ∷ s | _ ↦ s ]) ≤ suc (length s)
symbol_kept eof c s = omega arith
symbol_kept _ c s = omega arith

symbol_used :
    (k : Symbol) (c : ℕ) (s : List ℕ)
    → (operation k ≡ none) ⊎ (length (elim k [ eof ↦ c ∷ s | _ ↦ s ]) ≤ length s)
symbol_used eof c s = inl refl
symbol_used _ c s = inr (omega arith)

length-scan :
    (w : Words) (l : List (List ℕ)) (c : ℕ) (s : List ℕ)
    → length (scan w l c s).sct ≤ suc (length s)
unfolding scan
length-scan w l c s = elim (Bool-cases (isdigit c)) [
  | inl d ↦ rw d (omega (arith, length-behind isdigit s))
  | inr nd ↦ elim (Bool-cases (isalpha c)) [
    | inl a ↦ rw (nd, a) (omega (arith, length-behind isalpha s))
    | inr na ↦ rw (nd, na) (symbol_kept (symbol_of c) c s)
  ]
]

scan_used :
    (w : Words) (l : List (List ℕ)) (c : ℕ) (s : List ℕ)
    → (operation (scan w l c s).sc_tokid ≡ none) ⊎ (length (scan w l c s).sct ≤ length s)
unfolding scan
scan_used w l c s = elim (Bool-cases (isdigit c)) [
  | inl d ↦ rw d (inr (length-behind isdigit s))
  | inr nd ↦ elim (Bool-cases (isalpha c)) [
    | inl a ↦ rw (nd, a) (inr (length-behind isalpha s))
    | inr na ↦ rw (nd, na) (symbol_used (symbol_of c) c s)
  ]
]

-- what is read where no argument is left
no_argument :
    (w : Words) (l : List (List ℕ))
    → l ≡ []
    → ((next_argument w l).sc_tokid ≡ eof)
      × ((next_argument w l).scp ≡ [])
      × ((next_argument w l).sct ≡ [])
unfolding next_argument
no_argument w l e = rw e (refl, refl, refl)

behind-cases :
    (p : ℕ → Bool) (s : List ℕ)
    → (behind p s ≡ [])
      ⊎ ((c : ℕ) × (t : List ℕ) × (behind p s ≡ c ∷ t) × (suc (length t) ≤ length s))
behind-cases p s = cases (behind p s) refl (length-behind p s)
  where
    cases :
        (r : List ℕ)
        → behind p s ≡ r
        → length (behind p s) ≤ length s
        → (behind p s ≡ [])
          ⊎ ((c : ℕ) × (t : List ℕ) × (behind p s ≡ c ∷ t) × (suc (length t) ≤ length s))
    cases [] e l = inl e
    cases (c ∷ t) e l = inr (c, t, e, omega (arith, ap length e))

-- A token leaves no more than there was, and less if the loop goes on with it.
pub token-Within :
    (n : ℕ) (sc : Scanner)
    → Within n sc
    → Within n (token sc)
      × ((operation (token sc).sc_tokid ≡ none) ⊎ (suc (length (token sc).sct) ≤ n))
unfolding token
token-Within n sc (e, l) = elim (Bool-cases sc.need) [
  | inl need ↦ rw need (at_end)
  | inr more ↦ elim (behind-cases is_blank sc.sct) [
    | inl b ↦ rw (more, b) (at_end)
    | inr (c, t, b, lt) ↦
        rw (more, b)
          (
            (scan-scp _ _ c t ∙ e, omega (arith, length-scan sc.specials sc.scp c t)),
            used c t lt (scan_used sc.specials sc.scp c t),
          )
  ]
]
  where
    at_end :
        Within n (next_argument sc.specials sc.scp)
        × ((operation (next_argument sc.specials sc.scp).sc_tokid ≡ none)
            ⊎ (suc (length (next_argument sc.specials sc.scp).sct) ≤ n))
    at_end =
        let (a, b, d) = no_argument sc.specials sc.scp e in
        ((b, rw d (omega arith)), inl (rw a refl))

    used :
        (c : ℕ) (t : List ℕ)
        → suc (length t) ≤ length sc.sct
        → (operation (scan sc.specials sc.scp c t).sc_tokid ≡ none)
          ⊎ (length (scan sc.specials sc.scp c t).sct ≤ length t)
        → (operation (scan sc.specials sc.scp c t).sc_tokid ≡ none)
          ⊎ (suc (length (scan sc.specials sc.scp c t).sct) ≤ n)
    used c t lt (inl x) = inl x
    used c t lt (inr y) = inr (omega arith)

first_token-none :
    (w : Words) (s : List ℕ)
    → behind is_blank s ≡ []
    → token (init_scanner w s) ≡ next_argument w []
unfolding token next_argument
first_token-none w s e = rw (e, next_argument) refl

first_token-some :
    (w : Words) (s : List ℕ) (c : ℕ) (t : List ℕ)
    → behind is_blank s ≡ c ∷ t
    → token (init_scanner w s) ≡ scan w [] c t
unfolding token next_argument
first_token-some w s c t e = rw (e, next_argument) refl

pub first-Within :
    (w : Words) (s : List ℕ)
    → Within (length s) (token (init_scanner w s))
      × ((operation (token (init_scanner w s)).sc_tokid ≡ none)
          ⊎ (suc (length (token (init_scanner w s)).sct) ≤ length s))
first-Within w s = elim (behind-cases is_blank s) [
  | inl b ↦ rw (first_token-none w s b) (at_end (no_argument w [] refl))
  | inr (c, t, b, lt) ↦ rw (first_token-some w s c t b) (
    (scan-scp w [] c t, omega (arith, length-scan w [] c t)),
    elim (scan_used w [] c t) [ inl x ↦ inl x | inr y ↦ inr (omega arith) ],
  )
]
  where
    at_end :
        ((next_argument w []).sc_tokid ≡ eof)
          × ((next_argument w []).scp ≡ [])
          × ((next_argument w []).sct ≡ [])
        → Within (length s) (next_argument w [])
          × ((operation (next_argument w []).sc_tokid ≡ none)
              ⊎ (suc (length (next_argument w []).sct) ≤ length s))
    at_end (a, b, d) = ((b, rw d (omega arith)), inl (rw a refl))

pub expect2-Within :
    (n : ℕ) (e : TimeError) (sc : Scanner) → Within n sc → Ends (Within n) (expect2 e sc)
unfolding expect2
expect2-Within n e sc w =
    Ends-if (is_number (token sc).sc_tokid) (λ _. holds (token-Within n sc w).0) (λ _. fails)
