-- ===== src/Rrd/File.antt =====
-- The value area of a database file and the access to it: `rrd_seek`, `rrd_read` and `rrd_write`
-- of rrdtool-1.4.5/src/rrd_open.c as they are built with `HAVE_MMAP`. Positions count values from
-- the end of the header (`rrd_file->header_len`), so the factor `sizeof(rrd_value_t)` of the source
-- is left out; every access of the update and of the fetch moves whole values.
use native.Mathlib.Decide.{dec_lt}
use administracion_servicios.Prelude.{
  ◌∙◌, sym, ℕ, zero, suc, ◌+◌, ◌-◌, ◌≤◌, ◌<◌, ◌≡◌, refl, Option, none, some, List, [], ◌∷◌, arith,
  ltb, if◌then◌else◌, length, get_or, set, length-set, get_or-set_self, get_or-set_ne, take, drop,
  ◌||◌, ◌==◌, ◌⊎◌, inl,
}

pub record RrdFile (V : Type 0) : Type 0 where
  pub values : List V
  pub pos : ℕ

module _ {V : Type 0} where
  -- `rrd_seek` with `SEEK_SET`, which under `HAVE_MMAP` only sets the position
  unfoldable pub rrd_seek : RrdFile V → ℕ → RrdFile V
  rrd_seek f off = record f { pos = off }

  -- `rrd_write` of one value: an attempt to write beyond the end of the file is an error.
  unfoldable pub rrd_write : RrdFile V → V → Option (RrdFile V)
  rrd_write f v =
      if ltb (length f.values) (f.pos + 1)
      then none
      else some (record { values = set f.values f.pos v; pos = f.pos + 1 })

  -- Writes the values one after the other, by a call of `rrd_write` for each.
  unfoldable pub write_all : RrdFile V → List V → Option (RrdFile V)
  write_all f [] = some f
  write_all f (v ∷ vs) = elim (rrd_write f v) [ none ↦ none | some g ↦ write_all g vs ]

  -- `rrd_read` of `count` values: what there is up to the end of the file, at most `count`.
  unfoldable pub rrd_read : RrdFile V → ℕ → List V × RrdFile V
  rrd_read f count =
      let got = take count (drop f.pos f.values) in
      if ltb (length f.values) f.pos || count == 0
      then ([], f)
      else (got, record f { pos = f.pos + length got })

  -- What `write_all` has done when it is through: the values stand from the old position on, and
  -- nothing else has changed.
  pub record Wrote (f : RrdFile V) (vs : List V) (g : RrdFile V) : Type 0 where
    pub file_len : length g.values ≡ length f.values
    pub end : g.pos ≡ f.pos + length vs
    pub put :
        (q : ℕ) (d : V)
        → f.pos ≤ q
        → q < f.pos + length vs
        → get_or g.values q d ≡ get_or vs (q - f.pos) d
    pub kept :
        (q : ℕ) (d : V)
        → (q < f.pos) ⊎ (f.pos + length vs ≤ q)
        → get_or g.values q d ≡ get_or f.values q d

  -- An entry behind the head of a list.
  get_or-cons :
      (v : V) (vs : List V) (q p : ℕ) (d : V)
      → p + 1 ≤ q
      → get_or (v ∷ vs) (q - p) d ≡ get_or vs (q - (p + 1)) d
  get_or-cons v vs q p d h = let e : q - p ≡ suc (q - (p + 1)) = omega arith in rw e refl

  Wrote-one :
      (f : RrdFile V) (v : V)
      → f.pos + 1 ≤ length f.values
      → (g : RrdFile V) × (rrd_write f v ≡ some g) × Wrote f (v ∷ []) g
  unfolding rrd_write
  Wrote-one f v h = (
    record { values = set f.values f.pos v; pos = f.pos + 1 },
    ground arith,
    record {
      file_len = length-set f.values f.pos v;
      end = refl;
      put = λ q d a b.
          let e : q ≡ f.pos = omega arith in
          let z : f.pos - f.pos ≡ 0 = omega arith in
          rw e (rw z (get_or-set_self f.values f.pos v d (omega arith)));
      kept = λ q d k. get_or-set_ne f.values f.pos q v d (λ e. omega arith);
    },
  )

  Wrote-cons :
      {f g h : RrdFile V} (v : V) (vs : List V)
      → Wrote f (v ∷ []) g
      → Wrote g vs h
      → Wrote f (v ∷ vs) h
  Wrote-cons {f} {g} {h} v vs a b = record {
    file_len = b.file_len ∙ a.file_len;
    end = omega (arith, a.end, b.end);
    put = λ q d l u. elim (dec_lt f.pos q) [
      | yes p ↦
          b.put q d (omega (arith, a.end)) (omega (arith, a.end))
          ∙ (rw a.end (sym (get_or-cons v vs q f.pos d (omega arith))))
      | no p ↦
          let e : q ≡ f.pos = omega arith in
          b.kept q d (inl (omega (arith, a.end)))
          ∙ (a.put q d l (omega arith) ∙ (let z : q - f.pos ≡ 0 = omega arith in rw z refl))
    ];
    kept = λ q d k. b.kept q d (omega (arith, a.end)) ∙ a.kept q d (omega (arith, a.end));
  }

  -- Values that fit behind the position are written, one after the other.
  pub write_all-Wrote :
      (f : RrdFile V) (vs : List V)
      → f.pos + length vs ≤ length f.values
      → (g : RrdFile V) × (write_all f vs ≡ some g) × Wrote f vs g
  unfolding write_all
  write_all-Wrote f [] h = (
    f,
    refl,
    record {
      file_len = refl;
      end = omega arith;
      put = λ q d l u. absurd (omega arith);
      kept = λ q d k. refl;
    },
  )
  write_all-Wrote f (v ∷ vs) h =
      let (g, e, a) = Wrote-one f v (omega arith) in
      let (k, e', b) = write_all-Wrote g vs (omega (arith, a.end, a.file_len)) in
      (k, rw (e, write_all) e', Wrote-cons v vs a b)

  -- Values that do not fit are an error.
  pub write_all-none :
      (f : RrdFile V) (vs : List V)
      → length f.values < f.pos + length vs
      → f.pos ≤ length f.values
      → write_all f vs ≡ none
  unfolding write_all rrd_write
  write_all-none f [] h l = absurd (omega arith)
  write_all-none f (v ∷ vs) h l = ground (
    arith,
    write_all-none (record { values = set f.values f.pos v; pos = f.pos + 1 }) vs,
    length-set f.values f.pos v,
  )

  length-take-drop : (n p : ℕ) (xs : List V) → p + n ≤ length xs → length (take n (drop p xs)) ≡ n
  length-take-drop zero p xs h = refl
  length-take-drop (suc n) zero [] h = absurd (omega arith)
  length-take-drop (suc n) zero (x ∷ xs) h = omega (arith, length-take-drop n 0 xs (omega arith))
  length-take-drop (suc n) (suc p) [] h = absurd (omega arith)
  length-take-drop (suc n) (suc p) (x ∷ xs) h = length-take-drop (suc n) p xs (omega arith)

  -- A read of values that are all there yields them and moves the position behind them.
  pub rrd_read-inside :
      (f : RrdFile V) (count : ℕ)
      → f.pos + count ≤ length f.values
      → (rrd_read f count ≡ (take count (drop f.pos f.values), record f { pos = f.pos + count }))
        × (length (take count (drop f.pos f.values)) ≡ count)
  unfolding rrd_read
  rrd_read-inside f zero h = (ground arith, refl)
  rrd_read-inside f (suc n) h =
      let e = length-take-drop (suc n) f.pos f.values h in (ground (arith, e), e)
