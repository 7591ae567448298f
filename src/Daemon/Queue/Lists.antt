-- ===== src/Daemon/Queue/Lists.antt =====
-- Lists of numbers without repetition, seen as the write queue of rrdtool-1.4.5/src/rrd_daemon.c
-- sees them: who stands before and behind an entry, and how that changes when an entry goes or
-- comes.
use administracion_servicios.Prelude.{
  ℕ, suc, ◌≡◌, ◌≢◌, refl, Bool, true, false, Option, none, some, List, [], ◌∷◌, ◌++◌, arith, ◌==◌,
  if◌then◌else◌, length, head?,
}

abbrev pub opt_eq : Option ℕ → ℕ → Bool
opt_eq none j = false
opt_eq (some i) j = i == j

abbrev pub contains : List ℕ → ℕ → Bool
contains [] j = false
contains (x ∷ xs) j = if x == j then true else contains xs j

abbrev pub next_in : List ℕ → ℕ → Option ℕ
next_in [] j = none
next_in (x ∷ xs) j = if x == j then head? xs else next_in xs j

-- the entry before `j`, where `p` is the one before the list
abbrev pub prev_in : Option ℕ → List ℕ → ℕ → Option ℕ
prev_in p [] j = none
prev_in p (x ∷ xs) j = if x == j then p else prev_in (some x) xs j

abbrev pub last_or : Option ℕ → List ℕ → Option ℕ
last_or p [] = p
last_or p (x ∷ xs) = last_or (some x) xs

-- The first `c` taken out.
abbrev pub remove : ℕ → List ℕ → List ℕ
remove c [] = []
remove c (x ∷ xs) = if x == c then xs else x ∷ remove c xs

abbrev pub NoDup : List ℕ → Type 0
NoDup [] = Unit
NoDup (x ∷ xs) = (contains xs x ≡ false) × NoDup xs

pub prev_in-absent :
    (p : Option ℕ) (xs : List ℕ) (c : ℕ) → contains xs c ≡ false → prev_in p xs c ≡ none
prev_in-absent p [] c h = refl
prev_in-absent p (x ∷ xs) c h = ground (arith, prev_in-absent (some x) xs c)

pub next_in-absent : (xs : List ℕ) (c : ℕ) → contains xs c ≡ false → next_in xs c ≡ none
next_in-absent [] c h = refl
next_in-absent (x ∷ xs) c h = ground (arith, next_in-absent xs c)

-- The entry before is `p` or one of the list.
prev_in-ne :
    (y : ℕ) (xs : List ℕ) (c z : ℕ)
    → (y == z) ≡ false
    → contains xs z ≡ false
    → opt_eq (prev_in (some y) xs c) z ≡ false
prev_in-ne y [] c z h k = refl
prev_in-ne y (x ∷ xs) c z h k = ground (arith, prev_in-ne x xs c z)

next_in-ne : (xs : List ℕ) (c z : ℕ) → contains xs z ≡ false → opt_eq (next_in xs c) z ≡ false
next_in-ne [] c z k = refl
next_in-ne (x ∷ []) c z k = ground (arith)
next_in-ne (x ∷ y ∷ xs) c z k = ground (arith, next_in-ne (y ∷ xs) c z)

prev_in-some : (y : ℕ) (xs : List ℕ) (c : ℕ) → contains xs c ≡ true → prev_in (some y) xs c ≢ none
prev_in-some y [] c h = cc
prev_in-some y (x ∷ xs) c h = ground (arith, prev_in-some x xs c)

-- The predecessor `p` shows only at the head.
pub prev_in-head :
    (p : Option ℕ) (xs : List ℕ) (j : ℕ)
    → prev_in p xs j ≡ (if opt_eq (head? xs) j then p else prev_in none xs j)
prev_in-head p [] j = refl
prev_in-head p (x ∷ xs) j = ground arith

head-remove-behind :
    (x : ℕ) (xs : List ℕ) (c : ℕ)
    → contains xs x ≡ false
    → head? (remove c xs) ≡ (if opt_eq (prev_in (some x) xs c) x then next_in xs c else head? xs)
head-remove-behind x [] c h = refl
head-remove-behind x (y ∷ ys) c h = ground (arith, prev_in-ne y ys c x)

next_in-remove_from :
    (p : Option ℕ) (xs : List ℕ) (c j : ℕ)
    → NoDup xs
    → contains xs c ≡ true
    → opt_eq p j ≡ false
    → next_in (remove c xs) j
      ≡ (if c == j then none else if opt_eq (prev_in p xs c) j then next_in xs c else next_in xs j)
next_in-remove_from p [] c j n h k = cc
next_in-remove_from p (x ∷ xs) c j n h k = ground (
  arith,
  n.0,
  next_in-absent xs c,
  head-remove-behind x xs c n.0,
  next_in-remove_from (some x) xs c j n.1,
)

module _ (xs : List ℕ) (c : ℕ) (n : NoDup xs) (h : contains xs c ≡ true) where
  pub next_in-remove :
      (j : ℕ)
      → next_in (remove c xs) j ≡ (
          if c == j
          then none
          else if opt_eq (prev_in none xs c) j
          then next_in xs c
          else next_in xs j)
  next_in-remove j = next_in-remove_from none xs c j n h refl

pub prev_in-remove :
    (p : Option ℕ) (xs : List ℕ) (c j : ℕ)
    → NoDup xs
    → contains xs c ≡ true
    → prev_in p (remove c xs) j ≡ (
        if c == j then none else if opt_eq (next_in xs c) j then prev_in p xs c else prev_in p xs j)
prev_in-remove p [] c j n h = cc
prev_in-remove p (x ∷ xs) c j n h = ground (
  arith,
  n.0,
  prev_in-absent p xs c,
  prev_in-head p xs j,
  prev_in-head (some x) xs j,
  next_in-ne xs c x n.0,
  prev_in-remove (some x) xs c j n.1,
)

pub head-remove :
    (p : Option ℕ) (xs : List ℕ) (c : ℕ)
    → contains xs c ≡ true
    → head? (remove c xs) ≡ (elim (prev_in none xs c) [ none ↦ next_in xs c | some _ ↦ head? xs ])
head-remove p [] c h = cc
head-remove p (x ∷ xs) c h = ground (arith, prev_in-some x xs c)

pub last-remove :
    (p : Option ℕ) (xs : List ℕ) (c : ℕ)
    → contains xs c ≡ true
    → last_or p (remove c xs)
      ≡ (elim (next_in xs c) [ none ↦ prev_in p xs c | some _ ↦ last_or p xs ])
last-remove p [] c h = cc
last-remove p (x ∷ []) c h = ground arith
last-remove p (x ∷ y ∷ xs) c h = ground (arith, last-remove (some x) (y ∷ xs) c)

pub contains-remove :
    (xs : List ℕ) (c j : ℕ)
    → NoDup xs
    → contains (remove c xs) j ≡ (if c == j then false else contains xs j)
contains-remove [] c j n = ground arith
contains-remove (x ∷ xs) c j n = ground (arith, n.0, contains-remove xs c j n.1)

pub NoDup-remove : (xs : List ℕ) (c : ℕ) → NoDup xs → NoDup (remove c xs)
NoDup-remove [] c n = tt
NoDup-remove (x ∷ xs) c n = elim (x == c) as (λ b. NoDup (if b then xs else x ∷ remove c xs)) [
  | true ↦ n.1
  | false ↦ (ground (arith, n.0, contains-remove xs c x n.1), NoDup-remove xs c n.1)
]

pub length-remove :
    (xs : List ℕ) (c : ℕ) → contains xs c ≡ true → length xs ≡ suc (length (remove c xs))
length-remove [] c h = cc
length-remove (x ∷ xs) c h = ground (arith, length-remove xs c)

pub remove-absent : (xs : List ℕ) (c : ℕ) → contains xs c ≡ false → remove c xs ≡ xs
remove-absent [] c h = refl
remove-absent (x ∷ xs) c h = ground (arith, remove-absent xs c)

last_or-ne :
    (p : Option ℕ) (y : ℕ) (xs : List ℕ) (z : ℕ)
    → contains (y ∷ xs) z ≡ false
    → opt_eq (last_or p (y ∷ xs)) z ≡ false
last_or-ne p y [] z h = ground arith
last_or-ne p y (w ∷ xs) z h = last_or-ne (some y) w xs z (ground (arith, h))

pub last-ne-none : (y : ℕ) (xs : List ℕ) → last_or (some y) xs ≢ none
last-ne-none y [] h = cc
last-ne-none y (x ∷ xs) h = last-ne-none x xs h

pub last_or-absent :
    (xs : List ℕ) (z : ℕ) → contains xs z ≡ false → opt_eq (last_or none xs) z ≡ false
last_or-absent [] z h = refl
last_or-absent (x ∷ xs) z h = last_or-ne none x xs z h

-- An entry put behind the list.
pub next_in-append :
    (p : Option ℕ) (xs : List ℕ) (c j : ℕ)
    → NoDup xs
    → contains xs c ≡ false
    → opt_eq p j ≡ false
    → next_in (xs ++ (c ∷ [])) j
      ≡ (if c == j then none else if opt_eq (last_or p xs) j then some c else next_in xs j)
next_in-append p [] c j n h k = ground arith
next_in-append p (x ∷ []) c j n h k = ground arith
next_in-append p (x ∷ y ∷ xs) c j n h k =
    ground (arith, n.0, next_in-append (some x) (y ∷ xs) c j n.1, last_or-ne (some x) y xs x)

pub prev_in-append :
    (p : Option ℕ) (xs : List ℕ) (c j : ℕ)
    → contains xs c ≡ false
    → prev_in p (xs ++ (c ∷ [])) j ≡ (if c == j then last_or p xs else prev_in p xs j)
prev_in-append p [] c j h = ground arith
prev_in-append p (x ∷ xs) c j h = ground (arith, prev_in-append (some x) xs c j)

pub last-append : (p : Option ℕ) (xs : List ℕ) (c : ℕ) → last_or p (xs ++ (c ∷ [])) ≡ some c
last-append p [] c = refl
last-append p (x ∷ xs) c = last-append (some x) xs c

pub contains-append :
    (xs : List ℕ) (c j : ℕ) → contains (xs ++ (c ∷ [])) j ≡ (if c == j then true else contains xs j)
contains-append [] c j = ground arith
contains-append (x ∷ xs) c j = ground (arith, contains-append xs c j)

pub NoDup-append : (xs : List ℕ) (c : ℕ) → NoDup xs → contains xs c ≡ false → NoDup (xs ++ (c ∷ []))
NoDup-append [] c n h = (refl, tt)
NoDup-append (x ∷ xs) c n h =
    (ground (arith, n.0, contains-append xs c x), NoDup-append xs c n.1 (ground (arith, h)))
