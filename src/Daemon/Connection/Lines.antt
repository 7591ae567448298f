-- ===== src/Daemon/Connection/Lines.antt =====
-- The commands that a connection (rrdtool-1.4.5/src/rrd_daemon.c) handles are the lines that the
-- client has sent, however the reads divide them.
use administracion_servicios.Prelude.{
  ℕ, zero, suc, ◌+◌, ◌-◌, ◌<◌, ◌≡◌, refl, ap, sym, ◌∙◌, ◌⊎◌, inl, inr, Bool, true, false, ◌&&◌,
  Bool-cases, Option, none, some, List, [], ◌∷◌, ltb, ◌==◌, length, get_or, set, take, drop,
  drop-set_lt, get_or-set_self, get_or-set_ne, drop-drop, length-drop, get_or-drop, get_or-take,
  take-take, length-take_le, take-drop-set, arith,
}
use administracion_servicios.Prelude.Int.{pos, sub_ℕ}
use administracion_servicios.Daemon.Connection.{
  newline, carriage_return, Reader, memchr, Found, command_before, at_eol, next_cmd, Connection,
  handled, after_handled, after_next, commands_loop,
}
use administracion_servicios.Daemon.Connection.Split.{
  stripped, split, unless_ended, handle_lines, outcome, split-none, split-some,
}

-- The byte before the next command, if there is one, is no carriage return: it has been
-- overwritten.
abbrev pub Clean : List ℕ → ℕ → Type 0
Clean buf n = (n ≡ 0) ⊎ ((0 < n) × (get_or buf (n - 1) 0 ≡ 0))

ends_in_return : List ℕ → Bool
ends_in_return line = ltb 0 (length line) && get_or line (length line - 1) 0 == carriage_return

before-eol :
    (buf : List ℕ) (n k : ℕ)
    → Clean buf n
    → n + k < length buf
    → (ltb 0 (n + k) && get_or (set buf (n + k) 0) (n + k - 1) 0 == carriage_return)
      ≡ ends_in_return (take k (drop n buf))
unfolding ends_in_return
before-eol buf n zero (inl e) l = ground (arith, e)
before-eol buf n zero (inr (p, e)) l =
    let q = get_or-set_ne buf (n + 0) (n - 1) 0 0 (λ z. absurd (omega (arith, z, p))) in
    let i : n + 0 - 1 ≡ n - 1 = omega arith in rw (i, q, e) (ground arith)
before-eol buf n (suc j) v l =
    let i : n + suc j - 1 ≡ n + j = omega arith in
    let q = get_or-set_ne buf (n + suc j) (n + j) 0 0 (λ z. absurd (omega (arith, z))) in
    let r = get_or-drop n j buf 0 in
    let t = get_or-take (suc j) j (drop n buf) 0 (omega arith) in
    let d = length-drop n buf in
    let m : length (take (suc j) (drop n buf)) ≡ suc j =
      length-take_le (suc j) (drop n buf) (omega (arith, d)) in
    let a : ltb 0 (n + suc j) ≡ true = ground arith in
    let b : ltb 0 (suc j) ≡ true = ground arith in
    let c : suc j - 1 ≡ j = omega arith in rw (i, q, m, c, t, r, a, b) refl

module _ {S : Type 0} (h : List ℕ → S → Bool × S) where
  -- what `next_cmd` finds is the line, and the reader then stands behind it
  IsLine : List ℕ → ℕ → ℕ → Found → Type 0
  IsLine buf n k f =
      ((s : S) → handled h f s ≡ h (stripped (take k (drop n buf))) s)
      × (drop f.left.next_at f.left.rbuf ≡ drop (suc k) (drop n buf))
      × Clean f.left.rbuf f.left.next_at

  none_returned : {A : Type 0} → ends_in_return [] ≡ true → A
  unfolding ends_in_return
  none_returned e = cc

  returned_line :
      (line : List ℕ) (k : ℕ)
      → length line ≡ suc k
      → ends_in_return line ≡ true
      → stripped line ≡ take k line
  unfolding ends_in_return
  returned_line line k e t = let c : suc k - 1 ≡ k = omega arith in rw (t, e, c) refl

  behind-drop :
      (buf b : List ℕ) (n k : ℕ)
      → drop (suc (n + k)) b ≡ drop (suc (n + k)) buf
      → drop (n + k + 1) b ≡ drop (suc k) (drop n buf)
  behind-drop buf b n k e =
      let i : n + k + 1 ≡ suc (n + k) = omega arith in
      let j : n + suc k ≡ suc (n + k) = omega arith in
      let dd : drop (n + suc k) buf ≡ drop (suc k) (drop n buf) = drop-drop n (suc k) buf in
      rw (i, e) (rw j at dd)

  Clean-eol : (b : List ℕ) (i : ℕ) → get_or b i 0 ≡ 0 → Clean b (i + 1)
  Clean-eol b i e = let c : i + 1 - 1 ≡ i = omega arith in inr (omega arith, rw c e)

  plain-IsLine :
      (buf : List ℕ) (n k : ℕ)
      → n + k < length buf
      → ends_in_return (take k (drop n buf)) ≡ false
      → IsLine buf n k (record {
        bytes = drop n (set buf (n + k) 0);
        len = sub_ℕ (n + k) n;
        left = record { rbuf = set buf (n + k) 0; next_at = n + k + 1 };
      })
  unfolding IsLine ends_in_return
  plain-IsLine buf n k l e =
      let z : sub_ℕ (n + k) n ≡ pos k = ground arith in
      let t = take-drop-set n k (n + k) buf 0 (omega arith) in
      (
        λ s. rw (z, t, e) refl,
        behind-drop buf (set buf (n + k) 0) n k
            (drop-set_lt (suc (n + k)) buf (n + k) 0 (omega arith)),
        Clean-eol (set buf (n + k) 0) (n + k) (get_or-set_self buf (n + k) 0 0 l),
      )

  trimmed-IsLine :
      (buf : List ℕ) (n k : ℕ)
      → n + k < length buf
      → ends_in_return (take k (drop n buf)) ≡ true
      → IsLine buf n k (record {
        bytes = drop n (set (set buf (n + k) 0) (n + k - 1) 0);
        len = sub_ℕ (n + k - 1) n;
        left = record { rbuf = set (set buf (n + k) 0) (n + k - 1) 0; next_at = n + k + 1 };
      })
  unfolding IsLine
  trimmed-IsLine buf n zero l e = none_returned e
  trimmed-IsLine buf n (suc j) l e =
      let buf' = set buf (n + suc j) 0 in
      let i : n + suc j - 1 ≡ n + j = omega arith in
      let z : sub_ℕ (n + j) n ≡ pos j = ground arith in
      let line = take (suc j) (drop n buf) in
      let len : length line ≡ suc j =
        length-take_le (suc j) (drop n buf) (omega (arith, length-drop n buf)) in
      let t : take j (drop n (set buf' (n + j) 0)) ≡ stripped line =
        take-drop-set n j (n + j) buf' 0 (omega arith)
        ∙ take-drop-set n j (n + suc j) buf 0 (omega arith)
        ∙ sym (take-take j (suc j) (drop n buf) (omega arith))
        ∙ sym (returned_line line j len e) in
      rw i (
        λ s. rw (z, t) refl,
        behind-drop buf (set buf' (n + j) 0) n (suc j) (
            drop-set_lt (suc (n + suc j)) buf' (n + j) 0 (omega arith)
            ∙ drop-set_lt (suc (n + suc j)) buf (n + suc j) 0 (omega arith)),
        Clean-eol (set buf' (n + j) 0) (n + suc j) (
            get_or-set_ne buf' (n + j) (n + suc j) 0 0 (λ q. absurd (omega (arith, q)))
            ∙ get_or-set_self buf (n + suc j) 0 0 l),
      )

  command_before-IsLine :
      (buf : List ℕ) (n k : ℕ)
      → Clean buf n
      → n + k < length buf
      → IsLine buf n k (command_before (n + k) (record { rbuf = buf; next_at = n }))
  command_before-IsLine buf n k v l =
      let b = before-eol buf n k v l in
      elim (Bool-cases (ends_in_return (take k (drop n buf)))) [
        | inl e ↦ rw (b, e) (trimmed-IsLine buf n k l e)
        | inr e ↦ rw (b, e) (plain-IsLine buf n k l e)
      ]

  handle_lines-step :
      (ls : List (List ℕ)) (l rest : List ℕ) (s : S) (t : List (List ℕ) × List ℕ)
      → t ≡ (l ∷ ls, rest)
      → outcome h t.1 (handle_lines h t.0 s)
        ≡ outcome h rest (unless_ended h (handle_lines h ls) (h (stripped l) s))
  handle_lines-step ls l rest s t e = rw e refl

  after-lines :
      (go_on : S → Reader → Connection S) (q : Reader) (ls : List (List ℕ)) (r : List ℕ)
      → ((t : S) → go_on t q ≡ outcome h r (handle_lines h ls t))
      → (p : Bool × S)
      → after_handled h go_on q p ≡ outcome h r (unless_ended h (handle_lines h ls) p)
  after-lines go_on q ls r e (true, t) = e t
  after-lines go_on q ls r e (false, t) = refl

  pub commands_loop-lines :
      (fuel : ℕ) (s : S) (buf : List ℕ) (n : ℕ)
      → length (drop n buf) < fuel
      → Clean buf n
      → let t = split (drop n buf) in
        commands_loop h fuel s (record { rbuf = buf; next_at = n })
        ≡ outcome h t.1 (handle_lines h t.0 s)
  unfolding commands_loop IsLine next_cmd
  commands_loop-lines zero s buf n l v = absurd (omega arith)
  commands_loop-lines (suc fuel) s buf n l v =
      go (commands_loop-lines fuel) (memchr newline (drop n buf)) refl
    where
      at : Reader
      at = record { rbuf = buf; next_at = n }

      Good : Connection S → Type 0
      Good c = c ≡ outcome h (split (drop n buf)).1 (handle_lines h (split (drop n buf)).0 s)

      shorter : (k : ℕ) → k < length (drop n buf) → length (drop (suc k) (drop n buf)) < fuel
      shorter k lk = omega (arith, length-drop (suc k) (drop n buf))

      go :
          ((s : S) (buf : List ℕ) (n : ℕ)
            → length (drop n buf) < fuel
            → Clean buf n
            → let t = split (drop n buf) in
              commands_loop h fuel s (record { rbuf = buf; next_at = n })
              ≡ outcome h t.1 (handle_lines h t.0 s))
          → (o : Option ℕ) → memchr newline (drop n buf) ≡ o
          → Good (after_next h (commands_loop h fuel) s at (at_eol at o))
      go ih none e = rw (split-none (drop n buf) e) refl
      go ih (some k) e =
          let (lk, p) = split-some (drop n buf) k e in
          let f = command_before (n + k) at in
          let (a, d, c) = command_before-IsLine buf n k v (omega (arith, lk, length-drop n buf)) in
          let left = drop (suc k) (drop n buf) in
          let next : (t : S)
              → commands_loop h fuel t f.left
                ≡ outcome h (split left).1 (handle_lines h (split left).0 t) =
            λ t. let w = ih t f.left.rbuf f.left.next_at (rw d (shorter k lk)) c in rw d at w in
          ap (after_handled h (commands_loop h fuel) f.left) (a s)
          ∙ after-lines (commands_loop h fuel) f.left (split left).0 (split left).1 next
              (h (stripped (take k (drop n buf))) s)
          ∙ sym (
              handle_lines-step (split left).0 (take k (drop n buf)) (split left).1 s
                (split (drop n buf)) p)
