-- ===== src/Daemon/Connection/Stream.antt =====
-- A client's stream of bytes, read in pieces by `connection_thread_main`
-- (rrdtool-1.4.5/src/rrd_daemon.c).
use mathlib.Core.List.{append_assoc, append-nil}
use administracion_servicios.Prelude.{
  ℕ, zero, suc, ◌+◌, ◌-◌, ◌≤◌, ◌<◌, take, ◌≡◌, refl, ap, sym, ◌∙◌, ◌⊎◌, inl, inr, Bool, true, false,
  Bool-cases, List, [], ◌∷◌, ◌++◌, leb, ◌==◌, length, arith,
}
use administracion_servicios.Daemon.Connection.{
  Reader, newline, rbuf_size, Connection, reading, closed, read_round, connection_thread_main,
}
use administracion_servicios.Daemon.Connection.Lines.{commands_loop-lines}
use administracion_servicios.Daemon.Connection.Split.{
  stripped, line_of, split, unless_ended, handle_lines, outcome,
}

abbrev pub joined : List (List ℕ) → List ℕ
joined [] = []
joined (c ∷ cs) = c ++ joined cs

-- the complete lines of two pieces, where the first has the lines and the rest given
abbrev pub together : List (List ℕ) × List ℕ → List ℕ → List (List ℕ) × List ℕ
together (ls, r) b = let (ls', r') = split (r ++ b) in (ls ++ ls', r')

line_of-together :
    (c : ℕ) (p : List (List ℕ) × List ℕ) (b : List ℕ)
    → (c == newline) ≡ false
    → line_of c (together p b) ≡ together (line_of c p) b
line_of-together c ([], r) b e = rw e refl
line_of-together c (l ∷ ls, r) b e = refl

pub split-append : (a b : List ℕ) → split (a ++ b) ≡ together (split a) b
split-append [] b = refl
split-append (c ∷ a) b = elim (Bool-cases (c == newline)) [
  | inl e ↦ rw (e, split-append a b) refl
  | inr e ↦ rw (e, split-append a b) (line_of-together c (split a) b e)
]

split-rest_line :
    (c : ℕ) (p : List (List ℕ) × List ℕ)
    → (c == newline) ≡ false
    → split p.1 ≡ ([], p.1)
    → split (line_of c p).1 ≡ ([], (line_of c p).1)
split-rest_line c ([], r) e h = rw (e, h) refl
split-rest_line c (l ∷ ls, r) e h = h

split-rest : (a : List ℕ) → split (split a).1 ≡ ([], (split a).1)
split-rest [] = refl
split-rest (c ∷ a) = elim (Bool-cases (c == newline)) [
  | inl e ↦ rw e (split-rest a)
  | inr e ↦ rw e (split-rest_line c (split a) e (split-rest a))
]

-- Each read returns something, and no more than the buffer has room for behind the incomplete line
-- that is kept in it.
abbrev pub AreReads : List ℕ → List (List ℕ) → Type 0
AreReads rest [] = Unit
AreReads rest (c ∷ cs) =
    (0 < length c) × (length rest + length c ≤ rbuf_size) × AreReads (split (rest ++ c)).1 cs

nil_taken : {A : Type 0} (n : ℕ) → take {A = A} n [] ≡ []
nil_taken zero = refl
nil_taken (suc n) = refl

take-all : {A : Type 0} (n : ℕ) (xs : List A) → length xs ≤ n → take n xs ≡ xs
take-all n [] l = nil_taken n
take-all zero (x ∷ xs) l = absurd (omega arith)
take-all (suc n) (x ∷ xs) l = ap (λ t. x ∷ t) (take-all n xs (omega arith))

module _ {S : Type 0} (h : List ℕ → S → Bool × S) where
  handle_lines-append :
      (ls ls' : List (List ℕ)) (s : S)
      → handle_lines h (ls ++ ls') s ≡ unless_ended h (handle_lines h ls') (handle_lines h ls s)
  handle_lines-append [] ls' s = refl
  handle_lines-append (l ∷ ls) ls' s = ended (λ t. handle_lines-append ls ls' t) (h (stripped l) s)
    where
      ended :
          ((t : S)
            → handle_lines h (ls ++ ls') t
              ≡ unless_ended h (handle_lines h ls') (handle_lines h ls t))
          → (p : Bool × S)
          → unless_ended h (handle_lines h (ls ++ ls')) p
            ≡ unless_ended h (handle_lines h ls') (unless_ended h (handle_lines h ls) p)
      ended ih (true, t) = ih t
      ended ih (false, t) = refl

  -- what becomes of a connection that has the text of its stream handled
  abbrev pub served : S → List ℕ → Connection S
  served s text = let (ls, r) = split text in outcome h r (handle_lines h ls s)

  read_round-served :
      (chunk rest : List ℕ) (s : S)
      → 0 < length chunk
      → length rest + length chunk ≤ rbuf_size
      → read_round h chunk s (record { rbuf = rest; next_at = 0 }) ≡ served s (rest ++ chunk)
  unfolding read_round
  read_round-served chunk rest s l k =
      let e : leb (length chunk) 0 ≡ false = ground arith in
      let t : take (rbuf_size - length rest) chunk ≡ chunk =
        take-all (rbuf_size - length rest) chunk (omega arith) in
      rw (t, e)
        (commands_loop-lines h (length (rest ++ chunk) + 1) s (rest ++ chunk) 0 (omega arith)
          (inl refl))

  abbrev continued : (S → Connection S) → Bool × S → Connection S
  continued f (true, t) = f t
  continued f (false, t) = closed t

  continued-eq :
      (f g : S → Connection S)
      → ((t : S) → f t ≡ g t)
      → (p : Bool × S) → continued f p ≡ continued g p
  continued-eq f g e (true, t) = e t
  continued-eq f g e (false, t) = refl

  served-append :
      (a b : List ℕ) (s : S)
      → served s (a ++ b)
        ≡ continued (λ t. served t ((split a).1 ++ b)) (handle_lines h (split a).0 s)
  served-append a b s =
      let (ls', r') = split ((split a).1 ++ b) in
      rw (split-append a b, handle_lines-append (split a).0 ls' s)
        (more ls' r' (handle_lines h (split a).0 s))
    where
      more :
          (ls' : List (List ℕ)) (r' : List ℕ) (p : Bool × S)
          → outcome h r' (unless_ended h (handle_lines h ls') p)
            ≡ continued (λ t. outcome h r' (handle_lines h ls' t)) p
      more ls' r' (true, t) = refl
      more ls' r' (false, t) = refl

  next_rounds :
      (cs : List (List ℕ)) (r : List ℕ) (p : Bool × S)
      → elim (outcome h r p) as (λ _. Connection S) [
        | reading t q ↦ connection_thread_main h cs t q
        | closed t ↦ closed t
      ]
        ≡ continued (λ t. connection_thread_main h cs t (record { rbuf = r; next_at = 0 })) p
  next_rounds cs r (true, t) = refl
  next_rounds cs r (false, t) = refl

  rounds-served :
      (chunks : List (List ℕ)) (rest : List ℕ) (s : S)
      → AreReads rest chunks
      → split rest ≡ ([], rest)
      → connection_thread_main h chunks s (record { rbuf = rest; next_at = 0 })
        ≡ served s (rest ++ joined chunks)
  unfolding connection_thread_main
  rounds-served [] rest s n e = rw (append-nil rest, e) refl
  rounds-served (c ∷ cs) rest s (l, k, n) e =
      let a = rest ++ c in
      rw (connection_thread_main, read_round-served c rest s l k)
        (next_rounds cs (split a).1 (handle_lines h (split a).0 s)
          ∙ continued-eq _ (λ t. served t ((split a).1 ++ joined cs))
              (λ t. rounds-served cs (split a).1 t n (split-rest a)) (handle_lines h (split a).0 s)
          ∙ sym (served-append a (joined cs) s)
          ∙ ap (served s) (append_assoc rest c (joined cs)))

  abbrev pub state_of : Connection S → S
  state_of (reading t q) = t
  state_of (closed t) = t

  -- the rounds of more reads, on a connection that has gone through some
  abbrev goes_on : List (List ℕ) → Connection S → Connection S
  goes_on chunks (reading t q) = connection_thread_main h chunks t q
  goes_on chunks (closed t) = closed t

  connection_thread_main-append :
      (cs ds : List (List ℕ)) (s : S) (r : Reader)
      → connection_thread_main h (cs ++ ds) s r ≡ goes_on ds (connection_thread_main h cs s r)
  unfolding connection_thread_main
  connection_thread_main-append [] ds s r = refl
  connection_thread_main-append (c ∷ cs) ds s r =
      go (λ t q. connection_thread_main-append cs ds t q) (read_round h c s r)
    where
      go :
          ((t : S) (q : Reader)
            → connection_thread_main h (cs ++ ds) t q
              ≡ goes_on ds (connection_thread_main h cs t q))
          → (x : Connection S)
          → elim x as (λ _. Connection S) [
            | reading t q ↦ connection_thread_main h (cs ++ ds) t q
            | closed t ↦ closed t
          ]
            ≡ goes_on ds (elim x as (λ _. Connection S) [
              | reading t q ↦ connection_thread_main h cs t q
              | closed t ↦ closed t
            ])
      go ih (reading t q) = ih t q
      go ih (closed t) = refl

  -- a round without a byte
  read_nothing :
      (chunk rest : List ℕ) (s : S)
      → (chunk ≡ []) ⊎ (length rest ≡ rbuf_size)
      → read_round h chunk s (record { rbuf = rest; next_at = 0 }) ≡ closed s
  unfolding read_round
  read_nothing chunk rest s (inl e) = rw (e, nil_taken (rbuf_size - length rest)) refl
  read_nothing chunk rest s (inr e) =
      let z : rbuf_size - length rest ≡ 0 = omega (arith, e) in rw (z) refl

  ended :
      (chunk : List ℕ) (more : List (List ℕ)) (r : List ℕ) (p : Bool × S)
      → (chunk ≡ []) ⊎ (length r ≡ rbuf_size)
      → goes_on (chunk ∷ more) (outcome h r p) ≡ closed (state_of (outcome h r p))
  unfolding connection_thread_main
  ended chunk more r (true, t) e =
      ap
        (λ (x : Connection S). elim x as (λ _. Connection S) [
          | reading u q ↦ connection_thread_main h more u q
          | closed u ↦ closed u
        ])
        (read_nothing chunk r t e)
  ended chunk more r (false, t) e = refl

  -- However the reads divide what the client has sent, where each returns something and no more than
  -- there is room for in the buffer of 8192 bytes: the thread of a connection handles exactly the
  -- complete lines of it, each once and in their order, without the line end, up to the first line
  -- whose handling ends the connection; and it keeps what is left for the next read. At the end of
  -- the stream, or where 8192 bytes without a line end are kept, which no line end can then
  -- complete, the next round closes the connection with those lines handled and nothing else,
  -- whatever the client has sent behind them.
  pub connection_thread_main-served :
      (chunks : List (List ℕ)) (s : S)
      → AreReads [] chunks
      → (connection_thread_main h chunks s (record { rbuf = []; next_at = 0 })
          ≡ served s (joined chunks))
        × ((chunk : List ℕ) (more : List (List ℕ))
            → (chunk ≡ []) ⊎ (length (split (joined chunks)).1 ≡ rbuf_size)
            → connection_thread_main h
                (chunks ++ (chunk ∷ more))
                s
                (record { rbuf = []; next_at = 0 })
              ≡ closed (state_of (served s (joined chunks))))
  connection_thread_main-served chunks s n =
      let r = rounds-served chunks [] s n refl in
      (
        r,
        λ chunk more e.
            connection_thread_main-append chunks (chunk ∷ more) s
              (record { rbuf = []; next_at = 0 })
            ∙ ap (goes_on (chunk ∷ more)) r
            ∙ ended chunk more (split (joined chunks)).1
                (handle_lines h (split (joined chunks)).0 s) e,
      )
