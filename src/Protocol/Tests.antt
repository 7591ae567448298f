-- ===== src/Protocol/Tests.antt =====
-- The field encoding of rrdtool-1.4.5/src/rrd_client.c and rrdtool-1.4.5/src/rrd_daemon.c on the
-- text "a b", and a rest behind it.
use administracion_servicios.Prelude.{ℕ, ◌≡◌, refl, List, [], ◌∷◌, ◌++◌, some, arith}
use administracion_servicios.Protocol.{buffer_add_string, buffer_get_field}
use administracion_servicios.Protocol.Decode.{view, decode, buffer_get_field-decode}
use administracion_servicios.Protocol.RoundTrip.{get_field-add_string, IsText}

abbrev a_blank_b : List ℕ
a_blank_b = b'a' ∷ b' ' ∷ b'b' ∷ []

abbrev encoded : List ℕ
encoded = b'a' ∷ 92 ∷ b' ' ∷ b'b' ∷ b' ' ∷ []

abbrev rest : List ℕ
rest = b'1' ∷ 0 ∷ []

a_blank_b-IsText : IsText a_blank_b
a_blank_b-IsText = (omega arith, (omega arith, (omega arith, tt)))

a_blank_b-encoded : buffer_add_string a_blank_b 5 ≡ some encoded
unfolding buffer_add_string
a_blank_b-encoded = refl

get_field-add_string_example : view (buffer_get_field (encoded ++ rest)) ≡ some (a_blank_b, rest)
get_field-add_string_example =
    get_field-add_string a_blank_b 5 encoded rest a_blank_b-IsText a_blank_b-encoded

buffer_get_field-decode_example :
    view (buffer_get_field (encoded ++ rest)) ≡ decode (encoded ++ rest)
buffer_get_field-decode_example = buffer_get_field-decode (encoded ++ rest)
