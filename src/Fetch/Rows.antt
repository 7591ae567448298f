-- ===== src/Fetch/Rows.antt =====
-- The copying loop of `rrd_fetch_fn` (rrdtool-1.4.5/src/rrd_fetch.c) on an archive that holds a
-- history of rows: each index of the archive yields the row of that age, each other index a row of
-- unknowns.
use mathlib.Core.List.{append-nil, append_assoc}
use administracion_servicios.Prelude.{
  ℕ, zero, suc, ◌+◌, ◌-◌, ◌*◌, ◌≤◌, ◌<◌, ◌≡◌, ◌⊎◌, inl, inr, refl, sym, ap, ◌∙◌, Bool-cases, some,
  List, [], ◌∷◌, ◌++◌, arith, leb, if◌then◌else◌, length, get_or, take, drop, replicate, drop_step,
}
use administracion_servicios.Prelude.Int.{ℤ, pos, negsuc, pos_part}
use administracion_servicios.Rrd.File.{rrd_seek, rrd_read-inside}
use administracion_servicios.Update.Rows.Ring.{History, slot, slot-lt, rows_apart}
use administracion_servicios.Fetch.{
  Reading, Source, suc_ℤ, wrap, read_row, unknown_row, fetch_row, fetch_rows,
}

abbrev pub tabulate : {A : Type 0} → ℕ → (ℕ → A) → List A
tabulate zero f = []
tabulate (suc n) f = f 0 ∷ tabulate n (λ i. f (suc i))

pub length-tabulate : {A : Type 0} (n : ℕ) (f : ℕ → A) → length (tabulate n f) ≡ n
length-tabulate zero f = refl
length-tabulate (suc n) f = ap suc (length-tabulate n (λ i. f (suc i)))

-- a stretch of a list, entry by entry
take-drop-tabulate :
    {A : Type 0} (n p : ℕ) (xs : List A) (d : A) (g : ℕ → A)
    → p + n ≤ length xs
    → ((j : ℕ) → j < n → get_or xs (p + j) d ≡ g j)
    → take n (drop p xs) ≡ tabulate n g
take-drop-tabulate zero p xs d g h e = refl
take-drop-tabulate (suc n) p xs d g h e =
    let here : get_or xs p d ≡ g 0 =
      (let z : p + 0 ≡ p = omega arith in rw z at (e 0 (omega arith))) in
    let rest =
      take-drop-tabulate n (suc p) xs d (λ i. g (suc i)) (omega arith)
        (λ j l. let z : suc p + j ≡ p + suc j = omega arith in rw z (e (suc j) (omega arith))) in
    rw (drop_step p xs d (omega arith)) (rw here (ap (λ t. g 0 ∷ t) rest))

module _ {V : Type 0} (a : Source V) (cur : ℕ) (values : List V) (h : History V) where
  -- The values of the archive that `a` names are the last rows of the history.
  pub record Archived : Type 0 where
    pub inside : a.rra_base + a.ds_cnt * a.row_cnt ≤ length values
    pub in_range : cur < a.row_cnt
    pub cells :
        (k ds : ℕ)
        → k < a.row_cnt
        → ds < a.ds_cnt
        → get_or values (a.rra_base + a.ds_cnt * slot a.row_cnt cur k + ds) a.dnan ≡ h k ds

  -- the row that index `i` is to yield
  abbrev pub row_at : ℤ → List V
  row_at (negsuc i) = replicate a.ds_cnt a.dnan
  row_at (pos i) =
      if leb a.row_cnt i
      then replicate a.ds_cnt a.dnan
      else tabulate a.ds_cnt (h (a.row_cnt - 1 - i))

  -- the rows of `n` indices from `i` on
  abbrev pub rows_from : ℕ → ℤ → List V
  rows_from zero i = []
  rows_from (suc n) i = row_at i ++ rows_from n (suc_ℤ i)

  -- The pointer and the file position are where index `i` is to be read from, if it is one of the
  -- archive; a negative index is not read, and leaves them for index 0.
  pub record Placed (i : ℤ) (r : Reading V) : Type 0 where
    pub same : r.file.values ≡ values
    pub at : pos_part i < a.row_cnt → r.file.pos ≡ a.rra_base + r.rra_pointer * a.ds_cnt
    pub pointer :
        pos_part i < a.row_cnt
        → (r.rra_pointer ≡ slot a.row_cnt cur (a.row_cnt - 1 - pos_part i))
          ⊎ ((r.rra_pointer ≡ a.row_cnt) × (slot a.row_cnt cur (a.row_cnt - 1 - pos_part i) ≡ 0))

  wrapped :
      (i : ℕ) (r : Reading V)
      → Archived
      → Placed (pos i) r
      → i < a.row_cnt
      → ((wrap a r).rra_pointer ≡ slot a.row_cnt cur (a.row_cnt - 1 - i))
        × ((wrap a r).file.pos ≡ a.rra_base + (wrap a r).rra_pointer * a.ds_cnt)
        × ((wrap a r).file.values ≡ values)
        × ((wrap a r).copied ≡ r.copied)
  unfolding rrd_seek
  wrapped i r v p l =
      ground
        (arith, p.pointer l, p.at l, p.same, slot-lt a.row_cnt cur (a.row_cnt - 1 - i) v.in_range)

  next_pointer :
      (i : ℕ)
      → cur < a.row_cnt
      → suc i < a.row_cnt
      → let p = slot a.row_cnt cur (a.row_cnt - 1 - i) + 1 in
        (p ≡ slot a.row_cnt cur (a.row_cnt - 1 - suc i))
        ⊎ ((p ≡ a.row_cnt) × (slot a.row_cnt cur (a.row_cnt - 1 - suc i) ≡ 0))
  next_pointer i l m = ground arith

  -- Reading a row of the archive yields the row of the history, and goes on to the next index.
  read_row-Placed :
      (i : ℕ) (r : Reading V)
      → Archived
      → Placed (pos i) r
      → i < a.row_cnt
      → (r' : Reading V) × (read_row a r ≡ some r')
        × (r'.copied ≡ r.copied ++ tabulate a.ds_cnt (h (a.row_cnt - 1 - i)))
        × Placed (pos (suc i)) r'
  unfolding read_row
  read_row-Placed i r v p l =
      let (x, y, z, c) = wrapped i r v p l in
      let w = wrap a r in
      let age = a.row_cnt - 1 - i in
      let s = slot a.row_cnt cur age in
      let inside =
        rows_apart a.ds_cnt s a.row_cnt (slot-lt a.row_cnt cur age v.in_range (omega arith)) in
      let start : w.file.pos ≡ a.rra_base + a.ds_cnt * s = rw y (rw x (omega arith)) in
      let got : take a.ds_cnt (drop w.file.pos w.file.values) ≡ tabulate a.ds_cnt (h age) =
        rw (start, z)
          (take-drop-tabulate a.ds_cnt (a.rra_base + a.ds_cnt * s) values a.dnan (h age)
            (omega (arith, v.inside)) (λ j m. v.cells age j (omega arith) m)) in
      let (e, n) =
        rrd_read-inside w.file a.ds_cnt (omega (arith, start, inside, v.inside, ap length z)) in
      (
        record {
          rra_pointer = w.rra_pointer + 1;
          file = record (w.file) { pos = w.file.pos + a.ds_cnt };
          copied = w.copied ++ take a.ds_cnt (drop w.file.pos w.file.values);
        },
        ground (arith, e, n),
        rw (c, got) refl,
        record {
          same = z;
          at = λ _. omega (arith, y);
          pointer = λ m. rw x (next_pointer i v.in_range m);
        },
      )

  unknown-Placed :
      (i : ℤ) (r : Reading V)
      → Placed i r
      → ((k : ℕ) → i ≡ pos k → a.row_cnt ≤ k)
      → Placed (suc_ℤ i) (unknown_row a r)
  unknown-Placed (pos i) r p out = record {
    same = p.same;
    at = λ m. absurd (omega (arith, out i refl));
    pointer = λ m. absurd (omega (arith, out i refl));
  }
  unknown-Placed (negsuc zero) r p out = record { same = p.same; at = p.at; pointer = p.pointer }
  unknown-Placed (negsuc (suc i)) r p out = record { same = p.same; at = p.at; pointer = p.pointer }

  -- One round of the loop, whatever the index.
  fetch_row-row_at :
      (i : ℤ) (r : Reading V)
      → Archived
      → Placed i r
      → (r' : Reading V) × (fetch_row a i r ≡ some r')
        × (r'.copied ≡ r.copied ++ row_at i)
        × Placed (suc_ℤ i) r'
  unfolding fetch_row
  fetch_row-row_at (negsuc i) r v p =
      (unknown_row a r, refl, refl, unknown-Placed (negsuc i) r p (λ k e. cc))
  fetch_row-row_at (pos i) r v p = elim (Bool-cases (leb a.row_cnt i)) [
    | inl t ↦ (
      unknown_row a r,
      rw t refl,
      rw t refl,
      unknown-Placed (pos i) r p (λ k e. ground (arith, t, e)),
    )
    | inr t ↦
        let (r', e, c, p') = read_row-Placed i r v p (ground (arith, t)) in (r', rw t e, rw t c, p')
  ]

  -- The loop copies out, in order, what each of its indices stands for.
  pub fetch_rows-rows_from :
      (n : ℕ) (i : ℤ) (r : Reading V)
      → Archived
      → Placed i r
      → (r' : Reading V) × (fetch_rows n a i r ≡ some r') × (r'.copied ≡ r.copied ++ rows_from n i)
  unfolding fetch_rows
  fetch_rows-rows_from zero i r v p = (r, refl, sym (append-nil r.copied))
  fetch_rows-rows_from (suc n) i r v p =
      let (r₁, e₁, c₁, p₁) = fetch_row-row_at i r v p in
      let (r₂, e₂, c₂) = fetch_rows-rows_from n (suc_ℤ i) r₁ v p₁ in
      (
        r₂,
        ground (arith, e₁, e₂),
        c₂ ∙ (rw c₁ (append_assoc r.copied (row_at i) (rows_from n (suc_ℤ i)))),
      )

  -- The loop over indices below 0 reads nothing, wherever the pointer is.
  pub fetch_rows-below :
      (n i : ℕ) (r : Reading V)
      → n ≤ suc i
      → (r' : Reading V) × (fetch_rows n a (negsuc i) r ≡ some r')
        × (r'.copied ≡ r.copied ++ rows_from n (negsuc i))
  unfolding fetch_rows fetch_row
  fetch_rows-below zero i r l = (r, refl, sym (append-nil r.copied))
  fetch_rows-below (suc zero) i r l = (unknown_row a r, refl, rw append-nil refl)
  fetch_rows-below (suc (suc n)) zero r l = absurd (omega arith)
  fetch_rows-below (suc (suc n)) (suc i) r l =
      let (r', e, c) = fetch_rows-below (suc n) i (unknown_row a r) (omega arith) in
      (r', e, c ∙ append_assoc r.copied (replicate a.ds_cnt a.dnan) (rows_from (suc n) (negsuc i)))
