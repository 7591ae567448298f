-- ===== src/Protocol/RoundTrip.antt =====
-- What the client's `buffer_add_string` writes, the daemon's `buffer_get_field` reads back.
use administracion_servicios.Prelude.{
  ℕ, ◌-◌, ◌≤◌, ◌≡◌, ◌≢◌, ◌||◌, true, length-append, refl, none, some, List, [], ◌∷◌, ◌++◌, arith,
  ltb, ◌==◌, if◌then◌else◌, All, length,
}
use mathlib.Core.List.{append_assoc}
use administracion_servicios.Protocol.{
  space, backslash, is_special, buffer_add_string, buffer_get_field,
}
use administracion_servicios.Protocol.Decode.{
  decode, decode_plain, decode_escaped, decode_end, view, buffer_get_field-decode,
}

-- a C string's bytes: none of them is the terminator
abbrev pub IsText : List ℕ → Type 0
IsText = All (λ c. c ≢ 0)

-- the bytes of a field on the wire, without the blank behind it
pub escape : List ℕ → List ℕ
escape [] = []
escape (c ∷ str) = if is_special c then backslash ∷ c ∷ escape str else c ∷ escape str

decode-escape :
    (str : List ℕ) (t : ℕ) (rest : List ℕ)
    → (t == space || t == 0) ≡ true
    → IsText str
    → decode (escape str ++ (t ∷ rest)) ≡ some (str, rest)
unfolding escape
decode-escape [] t rest h a = decode_end t rest h
decode-escape (c ∷ str) t rest h a = ground (
  arith,
  decode-escape str t rest h a.1,
  decode_escaped c (escape str ++ (t ∷ rest)),
  decode_plain c (escape str ++ (t ∷ rest)),
)

-- `buffer_add_string` writes the escaped field and a blank, and does so exactly if they fit.
add-escape :
    (str : List ℕ) (room : ℕ)
    → IsText str
    → buffer_add_string str room
      ≡ (if ltb (length (escape str)) room then some (escape str ++ (space ∷ [])) else none)
unfolding buffer_add_string escape
add-escape [] room a = ground arith
add-escape (c ∷ str) room a =
    ground (arith, add-escape str (room - 1) a.1, add-escape str (room - 2) a.1)

-- A text without zero bytes that the client has written into its request with `buffer_add_string`
-- is the field that the daemon's in-place `buffer_get_field` finds at that place, whatever follows
-- it, and the daemon goes on behind it.
pub get_field-add_string :
    (str : List ℕ) (room : ℕ) (w rest : List ℕ)
    → IsText str
    → buffer_add_string str room ≡ some w
    → view (buffer_get_field (w ++ rest)) ≡ some (str, rest)
get_field-add_string str room w rest a h = ground (
  arith,
  add-escape str room a,
  buffer_get_field-decode (w ++ rest),
  append_assoc (escape str) (space ∷ []) rest,
  decode-escape str space rest refl a,
)

-- The last field of a request, a text without zero bytes that is followed by the zero byte which
-- the daemon has put in place of the line feed, is read back too, and uses the buffer up.
pub get_field-last :
    (str : List ℕ) → IsText str → view (buffer_get_field (escape str ++ (0 ∷ []))) ≡ some (str, [])
get_field-last str a = rw buffer_get_field-decode (decode-escape str 0 [] refl a)

-- On any text without zero bytes `buffer_add_string` fails exactly when the escaped text with its
-- blank does not fit the room, and else writes exactly these bytes: it never writes beyond the
-- buffer.
pub buffer_add_string-fits :
    (str : List ℕ) (room : ℕ)
    → IsText str
    → (buffer_add_string str room ≡ none → room ≤ length (escape str))
      × ((w : List ℕ)
          → buffer_add_string str room ≡ some w
          → (w ≡ escape str ++ (space ∷ [])) × (length w ≤ room))
buffer_add_string-fits str room a = (
  λ h. ground (arith, add-escape str room a),
  λ w h. ground (arith, add-escape str room a, length-append (escape str) (space ∷ [])),
)
