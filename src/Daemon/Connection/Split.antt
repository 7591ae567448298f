-- ===== src/Daemon/Connection/Split.antt =====
-- A text of a client of the daemon (rrdtool-1.4.5/src/rrd_daemon.c) as lines, and the handling of
-- lines one after the other.
use administracion_servicios.Prelude.{
  ℕ, zero, suc, ◌-◌, ◌<◌, ◌≡◌, refl, ap, ◌∙◌, inl, inr, Bool, true, false, ◌&&◌, Bool-cases, Option,
  none, some, List, [], ◌∷◌, ltb, ◌==◌, if◌then◌else◌, length, get_or, take, drop, arith,
}
use administracion_servicios.Daemon.Connection.{
  newline, carriage_return, further, memchr, Connection, reading, closed,
}

-- a line without the carriage return at its end, if it has one
abbrev pub stripped : List ℕ → List ℕ
stripped line =
    if ltb 0 (length line) && get_or line (length line - 1) 0 == carriage_return
    then take (length line - 1) line
    else line

-- the complete lines of a text, each without its end, and what is left
abbrev pub line_of : ℕ → List (List ℕ) × List ℕ → List (List ℕ) × List ℕ
line_of c ([], rest) = ([], c ∷ rest)
line_of c (l ∷ ls, rest) = ((c ∷ l) ∷ ls, rest)

abbrev pub split : List ℕ → List (List ℕ) × List ℕ
split [] = ([], [])
split (c ∷ s) =
    let (ls, rest) = split s in if c == newline then ([] ∷ ls, rest) else line_of c (ls, rest)

module _ {S : Type 0} (h : List ℕ → S → Bool × S) where
  -- the handling of a list of lines, up to the first one that ends the connection
  abbrev pub unless_ended : (S → Bool × S) → Bool × S → Bool × S
  unless_ended rest (true, t) = rest t
  unless_ended rest (false, t) = (false, t)

  abbrev pub handle_lines : List (List ℕ) → S → Bool × S
  handle_lines [] s = (true, s)
  handle_lines (l ∷ ls) s = unless_ended (handle_lines ls) (h (stripped l) s)

  -- the connection when the lines are handled: closed, or reading on behind the rest
  abbrev pub outcome : List ℕ → Bool × S → Connection S
  outcome rest (true, t) = reading t (record { rbuf = rest; next_at = 0 })
  outcome rest (false, t) = closed t

pub split-none : (s : List ℕ) → memchr newline s ≡ none → split s ≡ ([], s)
split-none [] e = refl
split-none (c ∷ s) e = elim (Bool-cases (c == newline)) [
  | inl k ↦ absurd_none (rw k at e)
  | inr k ↦ rw (k, split-none s (further-none (memchr newline s) (rw k at e))) refl
]
  where
    absurd_none : {k : ℕ} {A : Type 0} → some k ≡ none → A
    absurd_none e = cc

    further-none : (o : Option ℕ) → further o ≡ none → o ≡ none
    further-none none e = refl
    further-none (some k) e = cc

pub split-some :
    (s : List ℕ) (k : ℕ)
    → memchr newline s ≡ some k
    → (k < length s)
      × (split s ≡ (take k s ∷ (split (drop (suc k) s)).0, (split (drop (suc k) s)).1))
split-some [] k e = cc
split-some (c ∷ s) k e = elim (Bool-cases (c == newline)) [
  | inl b ↦ at_newline b k (rw b at e)
  | inr b ↦ behind (split-some s) b k (memchr newline s) refl (rw b at e)
]
  where
    Splits : ℕ → Type 0
    Splits k =
        (k < length (c ∷ s))
        × (split (c ∷ s) ≡ (take k (c ∷ s) ∷ (split (drop k s)).0, (split (drop k s)).1))

    at_newline : (c == newline) ≡ true → (k : ℕ) → some 0 ≡ some k → Splits k
    at_newline b zero e = (omega arith, rw b refl)
    at_newline b (suc k) e = cc

    behind :
        ((k : ℕ)
          → memchr newline s ≡ some k
          → (k < length s)
            × (split s ≡ (take k s ∷ (split (drop (suc k) s)).0, (split (drop (suc k) s)).1)))
        → (c == newline) ≡ false
        → (k : ℕ) (o : Option ℕ) → memchr newline s ≡ o
        → further o ≡ some k
        → Splits k
    behind ih b k none m e = cc
    behind ih b zero (some j) m e = cc
    behind ih b (suc k) (some j) m e =
        let q : j ≡ k = cc in
        let (l, p) = ih k (m ∙ ap some q) in (omega (arith, l), rw (b, p) refl)
