-- ===== src/Daemon/Access/Inside.antt =====
-- The paths that a client of the daemon (rrdtool-1.4.5/src/rrd_daemon.c) gives names of, where it is
-- confined to the base directory.
use mathlib.Core.List.{append_assoc}
use mathlib.Core.Path.{subst}
use native.Mathlib.Decide.{dec_lt}
use administracion_servicios.Prelude.{
  ℕ, suc, ◌+◌, ◌-◌, ◌≤◌, ◌≡◌, ◌≢◌, refl, sym, ap, ◌∙◌, Bool, ◌||◌, ◌⊎◌, All, true, false,
  Bool-cases, inl, inr, some, List, [], ◌∷◌, ◌++◌, ltb, ◌==◌, if◌then◌else◌, length, get_or, arith,
}
use administracion_servicios.Daemon.Response.{codes}
use administracion_servicios.Daemon.Access.{
  slash, Config, first, starts_with, contains, get_abs_path, joined_path, within_base,
  check_file_access,
}

-- The names of a path that a slash follows, and its last name, where one has been begun.
abbrev pub directories : List ℕ → List ℕ → List (List ℕ)
directories begun [] = []
directories begun (c ∷ path) =
    let stops = begun ∷ directories [] path in
    let goes_on = directories (begun ++ (c ∷ [])) path in if c == slash then stops else goes_on

abbrev pub last_name : List ℕ → List ℕ → List ℕ
last_name begun [] = begun
last_name begun (c ∷ path) =
    let stops = last_name [] path in
    let goes_on = last_name (begun ++ (c ∷ [])) path in if c == slash then stops else goes_on

abbrev pub up : List ℕ
up = codes ".."

-- The path is the base directory with names behind it, of which none that a slash follows is "..";
-- it is below the base, where the last one is not ".." either, and else it is the directory above
-- the one that the other names lead to.
abbrev pub IsBehind : List ℕ → List ℕ → List ℕ → Type 0
IsBehind base rest path =
    (path ≡ base ++ (slash ∷ rest))
    × (rest ≢ [])
    × All (λ (name : List ℕ). name ≢ up) (directories [] rest)

abbrev pub IsBelow : List ℕ → List ℕ → Type 0
IsBelow base path = (rest : List ℕ) × IsBehind base rest path × (last_name [] rest ≢ up)

abbrev pub EndsUp : List ℕ → List ℕ → Type 0
EndsUp base path = (rest : List ℕ) × IsBehind base rest path × (last_name [] rest ≡ up)

byte_cases : (a b : ℕ) → (a ≡ b) ⊎ (a ≢ b)
byte_cases a b = elim (dec_lt a b) [
  | yes l ↦ inr (λ e. absurd (omega (arith, l, e)))
  | no l ↦ elim (dec_lt b a) [
    | yes k ↦ inr (λ e. absurd (omega (arith, k, e)))
    | no k ↦ inl (omega (arith, l, k))
  ]
]

up_cases : (name : List ℕ) → (name ≡ up) ⊎ (name ≢ up)
up_cases [] = inr (λ h. cc)
up_cases (a ∷ []) = inr (λ h. cc)
up_cases (a ∷ b ∷ c ∷ name) = inr (λ h. cc)
up_cases (a ∷ b ∷ []) = elim (byte_cases a b'.') [
  | inr e ↦ inr (λ h. e (ap (λ (l : List ℕ). get_or l 0 0) h))
  | inl e ↦ elim (byte_cases b b'.') [
    | inr f ↦ inr (λ h. f (ap (λ (l : List ℕ). get_or l 1 0) h))
    | inl f ↦ inl (rw (e, f) refl)
  ]
]

contains-suffix : (s a b : List ℕ) → contains s (a ++ b) ≡ false → contains s b ≡ false
contains-suffix s [] b e = e
contains-suffix s (c ∷ a) b e =
    contains-suffix s a b (later (starts_with s (c ∷ (a ++ b))) (contains s (a ++ b)) e)
  where
    later : (x y : Bool) → (x || y) ≡ false → y ≡ false
    later true y e = cc
    later false y e = e

none_up :
    (begun path : List ℕ)
    → contains (codes "../") (begun ++ path) ≡ false
    → All (λ (name : List ℕ). name ≢ up) (directories begun path)
none_up begun [] e = tt
none_up begun (c ∷ path) e =
    let f : contains (codes "../") ((begun ++ (c ∷ [])) ++ path) ≡ false =
      ap (contains (codes "../")) (append_assoc begun (c ∷ []) path) ∙ e in
    elim (Bool-cases (c == slash)) [
      | inl k ↦
          let g : c ≡ slash = ground (arith, k) in
          rw k (
            λ h.
                let q : contains (codes "../") (up ++ (slash ∷ path)) ≡ false =
                  subst (λ (x : List ℕ). contains (codes "../") (x ++ (slash ∷ path)) ≡ false) h
                    (subst (λ (x : ℕ). contains (codes "../") (begun ++ (x ∷ path)) ≡ false) g e) in
                true_false q,
            none_up [] path (contains-suffix (codes "../") (begun ++ (c ∷ [])) path f),
          )
      | inr k ↦ rw k (none_up (begun ++ (c ∷ [])) path f)
    ]
  where
    true_false : {P : Type 0} → true ≡ false → P
    true_false e = cc

starts_with-rest :
    (base file : List ℕ)
    → starts_with base file ≡ true
    → get_or file (length base) 0 ≡ slash
    → length base + 2 ≤ length file
    → (c : ℕ) × (name : List ℕ) × (file ≡ base ++ (slash ∷ c ∷ name))
starts_with-rest [] [] s g l = absurd (omega arith)
starts_with-rest [] (d ∷ []) s g l = absurd (omega arith)
starts_with-rest [] (d ∷ c ∷ name) s g l = (c, name, rw g refl)
starts_with-rest (b ∷ base) [] s g l = cc
starts_with-rest (b ∷ base) (d ∷ file) s g l = elim (Bool-cases (b == d)) [
  | inl e ↦
      let k : b ≡ d = ground (arith, e) in
      let t : starts_with base file ≡ true = rw e at s in
      let (c, name, p) = starts_with-rest base file t g (omega arith) in
      (c, name, rw (sym k, p) refl)
  | inr e ↦ let t : false ≡ true = rw e at s in cc
]

within_base-IsBehind :
    (base file : List ℕ)
    → first file ≡ slash
    → within_base base file ≡ true
    → (rest : List ℕ) × IsBehind base rest file
within_base-IsBehind base file f h = elim (Bool-cases (contains (codes "../") file)) [
  | inl u ↦ no (rw u at h)
  | inr u ↦ elim (Bool-cases (ltb (length file) (length base + 2))) [
    | inl l ↦ no (rw (u, f, l) at h)
    | inr l ↦ elim (Bool-cases (starts_with base file)) [
      | inl s ↦
          let g : (get_or file (length base) 0 == slash) ≡ true = rw (u, f, l, s) at h in
          let (c, name, p) = starts_with-rest base file s (ground (arith, g)) (ground (arith, l)) in
          let v : contains (codes "../") (base ++ (slash ∷ c ∷ name)) ≡ false =
            ap (contains (codes "../")) (sym p) ∙ u in
          let w : contains (codes "../") ((base ++ (slash ∷ [])) ++ (c ∷ name)) ≡ false =
            ap (contains (codes "../")) (append_assoc base (slash ∷ []) (c ∷ name)) ∙ v in
          (
            c ∷ name,
            (
              p,
              λ e. cc,
              none_up [] (c ∷ name)
                  (contains-suffix (codes "../") (base ++ (slash ∷ [])) (c ∷ name) w),
            ),
          )
      | inr s ↦ no (rw (u, f, l, s) at h)
    ]
  ]
]
  where
    no : {A : Type 0} → false ≡ true → A
    no e = cc

first-joined :
    (n : ℕ) (base file : List ℕ)
    → first base ≡ slash
    → first (joined_path (suc (suc n)) base file) ≡ slash
first-joined n [] file f = cc
first-joined n (b ∷ base) file f = let e : suc (suc n) - 1 ≡ suc n = omega arith in rw e f

abs-first :
    (n : ℕ) (base file : List ℕ)
    → first base ≡ slash
    → first (if first file == slash then file else joined_path (suc (suc n)) base file) ≡ slash
abs-first n base file f = elim (Bool-cases (first file == slash)) [
  | inl e ↦ rw e (ground (arith, e))
  | inr e ↦ rw e (first-joined n base file f)
]

-- Where clients are confined to a base directory, given by an absolute path, a file name that passes
-- both functions, be it relative, absolute or too long, stands for that directory with a slash and
-- names behind it, of which none that a slash follows is "..": so it is a path below the base, or
-- it ends in a name ".." and is the directory above one that is reached from the base without "..".
pub check_file_access-IsBelow :
    (config : Config) (base file : List ℕ) (n : ℕ)
    → config.write_base_only ≡ true
    → config.base_dir ≡ some base
    → first base ≡ slash
    → config.path_max ≡ suc (suc n)
    → check_file_access config false (get_abs_path config file) ≡ true
    → IsBelow base (get_abs_path config file) ⊎ EndsUp base (get_abs_path config file)
unfolding check_file_access get_abs_path
check_file_access-IsBelow config base file n w b f m h =
    let path = if first file == slash then file else joined_path (suc (suc n)) base file in
    let e : get_abs_path config file ≡ path = rw (b, m) refl in
    let k : check_file_access config false path ≡ within_base base path = rw (b, w) refl in
    let g : check_file_access config false path ≡ true =
      ap (check_file_access config false) (sym e) ∙ h in
    let (rest, p) = within_base-IsBehind base path (abs-first n base file f) (sym k ∙ g) in
    rw e
      (elim (up_cases (last_name [] rest)) [ inl q ↦ inr (rest, p, q) | inr q ↦ inl (rest, p, q) ])
