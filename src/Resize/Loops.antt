-- ===== src/Resize/Loops.antt =====
-- The loops of `rrd_resize` in rrdtool-1.4.5/src/rrd_resize.c: what each reads, writes and counts.
use mathlib.Core.List.{append-nil, append_assoc}
use administracion_servicios.Prelude.{
  ℕ, zero, suc, ◌+◌, ◌-◌, ◌*◌, ◌%◌, ◌≤◌, ◌<◌, ◌≡◌, refl, ◌∙◌, ap, sym, true, false, List, [], ◌∷◌,
  ◌++◌, leb, length, drop, take, replicate, length-drop, length-take_le, arith,
}
use administracion_servicios.Resize.{
  Ring, Files, copy, copy_rows, pad, remove_front, remove_behind, shrink_rest,
}

pub ends_behind : (c j m : ℕ) → m ≤ j → 0 < m → leb ((c + m) % (c + 1 + j)) c ≡ false
ends_behind c j m l p = let e : (c + m) % (c + 1 + j) ≡ c + m = grind arith in rw e (ground arith)

pub ends_around : (c j k : ℕ) → k ≤ c → 0 < k → (c + (j + k)) % (c + 1 + j) + 1 ≡ k
ends_around c j k l p = grind arith

pub leb-around : (c j k : ℕ) → k ≤ c → 0 < k → leb ((c + (j + k)) % (c + 1 + j)) c ≡ true
leb-around c j k l p =
    let e : (c + (j + k)) % (c + 1 + j) + 1 ≡ k = ends_around c j k l p in ground arith

pub together : (j k ds : ℕ) → (j + k) * ds ≡ j * ds + k * ds
together j k ds = grind arith

pub apart : (d k ds : ℕ) → (d + k + 1) * ds ≡ (d + 1) * ds + k * ds
apart d k ds = grind arith

module _ {V : Type 0} where
  drop-append : (xs ys : List V) (n : ℕ) → n ≡ length xs → drop n (xs ++ ys) ≡ ys
  drop-append [] ys zero e = refl
  drop-append [] ys (suc n) e = absurd (omega arith)
  drop-append (x ∷ xs) ys zero e = absurd (omega arith)
  drop-append (x ∷ xs) ys (suc n) e = drop-append xs ys n (omega arith)

  pub drop-in_front : (n : ℕ) (xs ys : List V) → n ≤ length xs → drop n (xs ++ ys) ≡ drop n xs ++ ys
  drop-in_front zero xs ys l = refl
  drop-in_front (suc n) [] ys l = absurd (omega arith)
  drop-in_front (suc n) (x ∷ xs) ys l = drop-in_front n xs ys (omega arith)

  pub drop-past : (n : ℕ) (xs ys : List V) → drop (length xs + n) (xs ++ ys) ≡ drop n ys
  drop-past n [] ys = let e : 0 + n ≡ n = omega arith in rw e refl
  drop-past n (x ∷ xs) ys =
      let e : suc (length xs) + n ≡ suc (length xs + n) = omega arith in rw e (drop-past n xs ys)

  abbrev pub at : List V → List V → V → Ring → ℕ → Files V
  at old new b r l = record { old = old; new = new; buffer = b; ring = r; left = l }

  -- The files stand behind the values `ys`, with `new` written; what the buffer holds is left open.
  abbrev pub Stands : Files V → List V → List V → Ring → ℕ → Type 0
  Stands s ys new r l = (b : V) × (s ≡ at ys new b r l)

  pub copy_lem :
      (xs ys w : List V) (b : V) (r : Ring) (l n : ℕ)
      → n ≡ length xs
      → Stands (copy n (at (xs ++ ys) w b r l)) ys (w ++ xs) r l
  unfolding copy
  copy_lem [] ys w b r l zero e = (b, ap (λ (v : List V). at ys v b r l) (sym (append-nil w)))
  copy_lem [] ys w b r l (suc n) e = absurd (omega arith)
  copy_lem (x ∷ xs) ys w b r l zero e = absurd (omega arith)
  copy_lem (x ∷ xs) ys w b r l (suc n) e =
      let (c, h) = copy_lem xs ys (w ++ (x ∷ [])) x r l n (omega arith) in
      (c, h ∙ ap (λ (v : List V). at ys v c r l) (append_assoc w (x ∷ []) xs))

  pub pad_lem :
      (k : ℕ) (ys w : List V) (b : V) (r : Ring) (l : ℕ)
      → pad k (at ys w b r l) ≡ at ys (w ++ replicate k b) b r l
  unfolding pad
  pad_lem zero ys w b r l = ap (λ (v : List V). at ys v b r l) (sym (append-nil w))
  pad_lem (suc k) ys w b r l =
      pad_lem k ys (w ++ (b ∷ [])) b r l
      ∙ ap (λ (v : List V). at ys v b r l) (append_assoc w (b ∷ []) (replicate k b))

  pub take-drop : (n : ℕ) (xs : List V) → take n xs ++ drop n xs ≡ xs
  take-drop zero xs = refl
  take-drop (suc n) [] = refl
  take-drop (suc n) (x ∷ xs) = ap (λ (l : List V). x ∷ l) (take-drop n xs)

  -- a list of so many rows is taken apart after the first one
  pub first_row :
      (k ds : ℕ) (xs : List V)
      → length xs ≡ suc k * ds
      → (ds ≡ length (take ds xs)) × (length (drop ds xs) ≡ k * ds)
  first_row k ds xs e =
      (sym (length-take_le ds xs (grind arith)), omega (arith, length-drop ds xs, mul-suc k ds))
    where
      mul-suc : (k ds : ℕ) → suc k * ds ≡ ds + k * ds
      mul-suc k ds = grind arith

  -- behind the first row
  past_row :
      (k ds : ℕ) (xs ys : List V) → length xs ≡ suc k * ds → drop ds (xs ++ ys) ≡ drop ds xs ++ ys
  past_row k ds xs ys e = drop-in_front ds xs ys (grind arith)

  copy_rows_lem :
      (k ds : ℕ) (xs ys w : List V) (b : V) (r : Ring) (l : ℕ)
      → length xs ≡ k * ds
      → Stands (copy_rows k ds (at (xs ++ ys) w b r l)) ys (w ++ xs) r l
  unfolding copy_rows
  copy_rows_lem zero ds [] ys w b r l e =
      (b, ap (λ (v : List V). at ys v b r l) (sym (append-nil w)))
  copy_rows_lem zero ds (x ∷ xs) ys w b r l e = absurd (grind arith)
  copy_rows_lem (suc k) ds xs ys w b r l e =
      let (el, em) = first_row k ds xs e in
      let row = take ds xs in
      let more = drop ds xs in
      let (c, h) = copy_lem row (more ++ ys) w b r l ds el in
      let (d, h') = copy_rows_lem k ds more ys (w ++ row) c r l em in
      let split : xs ++ ys ≡ row ++ (more ++ ys) =
        ap (λ (v : List V). v ++ ys) (sym (take-drop ds xs)) ∙ append_assoc row more ys in
      (
        d,
        ap (λ (v : List V). copy_rows k ds (copy ds (at v w b r l))) split
            ∙ ap (λ (s : Files V). copy_rows k ds s) h
            ∙ h'
            ∙ ap (λ (v : List V). at ys v d r l)
                (append_assoc w row more ∙ ap (λ (v : List V). w ++ v) (take-drop ds xs)),
      )

  remove_behind_lem :
      (k ds : ℕ) (xs ys w : List V) (b : V) (n c m : ℕ)
      → length xs ≡ k * ds
      → remove_behind k ds (at (xs ++ ys) w b (record { row_cnt = n + k; cur_row = c }) (m + k))
        ≡ at ys w b (record { row_cnt = n; cur_row = c }) m
  unfolding remove_behind
  remove_behind_lem zero ds [] ys w b n c m e =
      let p : n + 0 ≡ n = omega arith in
      let q : m + 0 ≡ m = omega arith in
      ap (λ (x : ℕ). at ys w b (record { row_cnt = x; cur_row = c }) (m + 0)) p
      ∙ ap (λ (x : ℕ). at ys w b (record { row_cnt = n; cur_row = c }) x) q
  remove_behind_lem zero ds (x ∷ xs) ys w b n c m e = absurd (grind arith)
  remove_behind_lem (suc k) ds xs ys w b n c m e =
      let p : n + suc k - 1 ≡ n + k = omega arith in
      let q : m + suc k - 1 ≡ m + k = omega arith in
      ap
        (λ (v : List V).
          remove_behind k ds
            (at v w b (record { row_cnt = n + suc k - 1; cur_row = c }) (m + suc k - 1)))
        (past_row k ds xs ys e)
      ∙ ap
          (λ (x : ℕ).
            remove_behind k ds
              (at (drop ds xs ++ ys) w b (record { row_cnt = x; cur_row = c }) (m + suc k - 1)))
          p
      ∙ ap
          (λ (x : ℕ).
            remove_behind k ds
              (at (drop ds xs ++ ys) w b (record { row_cnt = n + k; cur_row = c }) x))
          q
      ∙ remove_behind_lem k ds (drop ds xs) ys w b n c m (first_row k ds xs e).1

  remove_front_lem :
      (k ds : ℕ) (xs ys w : List V) (b : V) (n c m : ℕ)
      → length xs ≡ k * ds
      → remove_front k ds (at (xs ++ ys) w b (record { row_cnt = n + k; cur_row = c + k }) (m + k))
        ≡ at ys w b (record { row_cnt = n; cur_row = c }) m
  unfolding remove_front
  remove_front_lem zero ds [] ys w b n c m e =
      let p : n + 0 ≡ n = omega arith in
      let o : c + 0 ≡ c = omega arith in
      let q : m + 0 ≡ m = omega arith in
      ap (λ (x : ℕ). at ys w b (record { row_cnt = x; cur_row = c + 0 }) (m + 0)) p
      ∙ ap (λ (x : ℕ). at ys w b (record { row_cnt = n; cur_row = x }) (m + 0)) o
      ∙ ap (λ (x : ℕ). at ys w b (record { row_cnt = n; cur_row = c }) x) q
  remove_front_lem zero ds (x ∷ xs) ys w b n c m e = absurd (grind arith)
  remove_front_lem (suc k) ds xs ys w b n c m e =
      let p : n + suc k - 1 ≡ n + k = omega arith in
      let o : c + suc k - 1 ≡ c + k = omega arith in
      let q : m + suc k - 1 ≡ m + k = omega arith in
      ap
        (λ (v : List V).
          remove_front k ds (
            at v w b (record { row_cnt = n + suc k - 1; cur_row = c + suc k - 1 }) (m + suc k - 1)))
        (past_row k ds xs ys e)
      ∙ ap
          (λ (x : ℕ). remove_front k ds (
            at (drop ds xs ++ ys) w b (record { row_cnt = x; cur_row = c + suc k - 1 })
              (m + suc k - 1)))
          p
      ∙ ap
          (λ (x : ℕ).
            remove_front k ds
              (at (drop ds xs ++ ys) w b (record { row_cnt = n + k; cur_row = x }) (m + suc k - 1)))
          o
      ∙ ap
          (λ (x : ℕ).
            remove_front k ds
              (at (drop ds xs ++ ys) w b (record { row_cnt = n + k; cur_row = c + k }) x))
          q
      ∙ remove_front_lem k ds (drop ds xs) ys w b n c m (first_row k ds xs e).1

  remove_left :
      (k ds : ℕ) (xs ys w : List V) (b : V) (n c : ℕ)
      → length xs ≡ k * ds
      → remove_behind k ds (at (xs ++ ys) w b (record { row_cnt = n + k; cur_row = c }) k)
        ≡ at ys w b (record { row_cnt = n; cur_row = c }) 0
  remove_left k ds xs ys w b n c e =
      let z : k ≡ 0 + k = omega arith in
      ap
        (λ (x : ℕ).
          remove_behind k ds (at (xs ++ ys) w b (record { row_cnt = n + k; cur_row = c }) x))
        z
      ∙ remove_behind_lem k ds xs ys w b n c 0 e

  -- no row in front of the current one is removed
  pub not_wrapped :
      (ds c m i : ℕ) (a b1 b2 post w : List V) (b : V)
      → length a ≡ (c + 1) * ds
      → length b1 ≡ m * ds
      → Stands
          (shrink_rest ds
            (at (a ++ ((b1 ++ b2) ++ post)) w b (record { row_cnt = i + m; cur_row = c }) m))
          (b2 ++ post)
          (w ++ a)
          (record { row_cnt = i; cur_row = c })
          0
  not_wrapped ds c m i a b1 b2 post w b ea eb =
      let r : Ring = record { row_cnt = i + m; cur_row = c } in
      let (d, h) = copy_rows_lem (c + 1) ds a ((b1 ++ b2) ++ post) w b r m ea in
      (
        d,
        ap (λ (t : Files V). remove_behind t.left ds t) h
            ∙ ap (λ (v : List V). remove_behind m ds (at v (w ++ a) d r m))
                (append_assoc b1 b2 post)
            ∙ remove_left m ds b1 (b2 ++ post) (w ++ a) d i c eb,
      )

  -- all rows behind the current one are removed, and `k` in front of it
  pub wrapped :
      (ds c k j i : ℕ) (a1 a2 b' post w : List V) (b : V)
      → length a1 ≡ k * ds
      → length a2 ≡ (c + 1) * ds
      → length b' ≡ j * ds
      → Stands
          (shrink_rest ds (
            remove_front k ds (
              at
                ((a1 ++ a2) ++ (b' ++ post))
                w
                b
                (record { row_cnt = i + j + k; cur_row = c + k })
                (j + k))))
          post
          (w ++ a2)
          (record { row_cnt = i; cur_row = c })
          0
  wrapped ds c k j i a1 a2 b' post w b e1 e2 eb =
      let r : Ring = record { row_cnt = i + j; cur_row = c } in
      let (d, h) = copy_rows_lem (c + 1) ds a2 (b' ++ post) w b r j e2 in
      (
        d,
        ap
              (λ (v : List V). shrink_rest ds (
                remove_front k ds
                  (at v w b (record { row_cnt = i + j + k; cur_row = c + k }) (j + k))))
              (append_assoc a1 a2 (b' ++ post))
            ∙ ap (λ (t : Files V). shrink_rest ds t)
                (remove_front_lem k ds a1 (a2 ++ (b' ++ post)) w b (i + j) c j e1)
            ∙ ap (λ (t : Files V). remove_behind t.left ds t) h
            ∙ remove_left j ds b' post (w ++ a2) d i c eb,
      )
