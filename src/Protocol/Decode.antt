-- ===== src/Protocol/Decode.antt =====
-- What `buffer_get_field` of rrdtool-1.4.5/src/rrd_daemon.c does in place, as a function on lists.
use administracion_servicios.Prelude.{
  ℕ, zero, suc, ◌+◌, ◌≤◌, ◌<◌, ◌≡◌, refl, ◌||◌, true, false, Option, none, some, List, [], ◌∷◌,
  ◌++◌, arith, ◌==◌, if◌then◌else◌, length, get_or, set, take, drop, max, drop-set_lt,
  take-set_self, take-set_self_same,
}
use mathlib.Core.List.{append_assoc, append-nil}
use native.Mathlib.Numerals.{add-one}
use administracion_servicios.Protocol.{space, backslash, Cursor, field_loop, buffer_get_field}

-- Puts a byte in front of a decoded field.
abbrev pub field_cons : ℕ → Option (List ℕ × List ℕ) → Option (List ℕ × List ℕ)
field_cons c none = none
field_cons c (some (w, r)) = some (c ∷ w, r)

-- the field at the head of a buffer, unescaped, and the buffer behind it
pub decode : List ℕ → Option (List ℕ × List ℕ)
decode [] = none
decode (c ∷ []) = if c == space || c == 0 then some ([], []) else none
decode (c ∷ d ∷ r) =
    let escaped = field_cons d (decode r) in
    let plain = field_cons c (decode (d ∷ r)) in
    if c == space || c == 0 then some ([], d ∷ r) else if c == backslash then escaped else plain

-- what the caller sees of a result: `*field_ret` and the buffer from `*buffer_ret` on
abbrev pub view : Option Cursor → Option (List ℕ × List ℕ)
view none = none
view (some s) = some (take s.field_size s.buf, drop s.buffer_pos s.buf)

abbrev pub behind : List ℕ → Option (List ℕ × List ℕ) → Option (List ℕ × List ℕ)
behind p none = none
behind p (some (w, r)) = some (p ++ w, r)

behind-nil : (o : Option (List ℕ × List ℕ)) → behind [] o ≡ o
behind-nil none = refl
behind-nil (some (w, r)) = refl

behind-snoc :
    (p : List ℕ) (c : ℕ) (o : Option (List ℕ × List ℕ))
    → behind (p ++ (c ∷ [])) o ≡ behind p (field_cons c o)
behind-snoc p c none = refl
behind-snoc p c (some (w, r)) = rw append_assoc

-- What it means that the rest of a list begins with `c`.
drop_cons :
    (n : ℕ) (xs : List ℕ) (c : ℕ) (r : List ℕ)
    → drop n xs ≡ c ∷ r
    → (n < length xs) × (get_or xs n 0 ≡ c) × (drop (n + 1) xs ≡ r)
drop_cons zero [] c r h = ground arith
drop_cons (suc n) [] c r h = ground arith
drop_cons zero (x ∷ xs) c r h = ground arith
drop_cons (suc n) (x ∷ xs) c r h =
    let (a, b, e) = drop_cons n xs c r h in (omega arith, b, rw add-one (rw add-one at e))

drop_nil : (n : ℕ) (xs : List ℕ) → drop n xs ≡ [] → length xs ≤ n
drop_nil zero [] h = omega arith
drop_nil zero (x ∷ xs) h = ground arith
drop_nil (suc n) [] h = omega arith
drop_nil (suc n) (x ∷ xs) h = omega (arith, drop_nil n xs h)

length-drop_le : (n : ℕ) (xs : List ℕ) → length (drop n xs) + n ≡ max n (length xs)
length-drop_le zero xs = omega arith
length-drop_le (suc n) [] = omega arith
length-drop_le (suc n) (x ∷ xs) = omega (arith, length-drop_le n xs)

-- A byte put at `k`, no further than `n`, where the reading has come to.
take-put :
    (buf : List ℕ) (k n : ℕ) (v : ℕ)
    → k ≤ n
    → n < length buf
    → take (k + 1) (set buf k v) ≡ take k buf ++ (v ∷ [])
take-put buf k n v h i = rw add-one (take-set_self k buf v (omega arith))

add-two : (n : ℕ) → n + 1 + 1 ≡ n + 2
add-two n = omega arith

-- the state after the loop has taken a byte `v`, `n` bytes of the buffer long
abbrev taken : Cursor → ℕ → ℕ → Cursor
taken s n v = record {
  buf = set s.buf s.field_size v;
  buffer_pos = s.buffer_pos + n;
  field_size = s.field_size + 1;
}

-- The loop decodes what is still to be read and puts it behind the field so far, the bytes it
-- overwrites having been read.
field_loop-decode :
    (f : ℕ) (s : Cursor) (l : List ℕ)
    → drop s.buffer_pos s.buf ≡ l
    → s.field_size ≤ s.buffer_pos
    → length l < f
    → view (field_loop f s) ≡ behind (take s.field_size s.buf) (decode l)
unfolding field_loop decode
field_loop-decode zero s l e k h = absurd (omega arith)
field_loop-decode (suc f) s [] e k h = ground (arith, drop_nil s.buffer_pos s.buf e)
field_loop-decode (suc f) s (c ∷ []) e k h = ground (
  arith,
  drop_cons s.buffer_pos s.buf c [] e,
  length-drop_le s.buffer_pos s.buf,
  drop_nil (s.buffer_pos + 1) s.buf,
  field_loop-decode f (taken s 1 c) [],
  drop-set_lt (s.buffer_pos + 1) s.buf s.field_size c,
  drop-set_lt (s.buffer_pos + 1) s.buf s.field_size 0,
  take-set_self_same s.field_size s.buf 0,
  append-nil (take s.field_size s.buf),
)
field_loop-decode (suc f) s (c ∷ d ∷ r) e k h = ground (
  arith,
  drop_cons s.buffer_pos s.buf c (d ∷ r) e,
  drop_cons (s.buffer_pos + 1) s.buf d r,
  add-two s.buffer_pos,
  field_loop-decode f (taken s 1 c) (d ∷ r),
  field_loop-decode f (taken s 2 d) r,
  drop-set_lt (s.buffer_pos + 1) s.buf s.field_size c,
  drop-set_lt (s.buffer_pos + 1) s.buf s.field_size 0,
  drop-set_lt (s.buffer_pos + 2) s.buf s.field_size d,
  take-set_self_same s.field_size s.buf 0,
  take-put s.buf s.field_size s.buffer_pos c,
  take-put s.buf s.field_size s.buffer_pos d,
  behind-snoc (take s.field_size s.buf) c (decode (d ∷ r)),
  behind-snoc (take s.field_size s.buf) d (decode r),
  append-nil (take s.field_size s.buf),
)

-- On any buffer `buffer_get_field`, which unescapes in place, yields the field and the remaining
-- buffer that `decode` yields, and fails exactly where `decode` fails.
pub buffer_get_field-decode : (buf : List ℕ) → view (buffer_get_field buf) ≡ decode buf
unfolding buffer_get_field decode
buffer_get_field-decode [] = refl
buffer_get_field-decode (c ∷ r) = ground (
  arith,
  field_loop-decode (length (c ∷ r) + 1) start (c ∷ r) refl (omega arith) (omega arith),
  behind-nil (decode (c ∷ r)),
)
  where
    start : Cursor
    start = record { buf = c ∷ r; buffer_pos = 0; field_size = 0 }

-- How `decode` reads an ordinary byte, an escaped byte and a terminator.
pub decode_plain :
    (c : ℕ) (l : List ℕ)
    → (c == space || c == 0) ≡ false
    → (c == backslash) ≡ false
    → decode (c ∷ l) ≡ field_cons c (decode l)
unfolding decode
decode_plain c [] h k = ground arith
decode_plain c (d ∷ l) h k = ground arith

pub decode_escaped : (d : ℕ) (l : List ℕ) → decode (backslash ∷ d ∷ l) ≡ field_cons d (decode l)
unfolding decode
decode_escaped d l = refl

pub decode_end :
    (t : ℕ) (l : List ℕ) → (t == space || t == 0) ≡ true → decode (t ∷ l) ≡ some ([], l)
unfolding decode
decode_end t [] h = ground arith
decode_end t (d ∷ l) h = ground arith
