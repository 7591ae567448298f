-- ===== src/Protocol.antt =====
-- The text protocol between rrdtool-1.4.5/src/rrd_client.c and rrdtool-1.4.5/src/rrd_daemon.c:
-- how the client writes a field into its request buffer, and how the daemon takes it out again.
-- A buffer is the list of its bytes, from the pointer that the C function is given up to the
-- size that it is given; a C string is the list of its bytes up to the terminating zero.
pub mod Decode
pub mod RoundTrip
mod Tests
use administracion_servicios.Prelude.{
  ℕ, zero, suc, ◌+◌, ◌-◌, Bool, true, false, ◌||◌, Option, none, some, List, [], ◌∷◌, ltb, leb,
  ◌==◌, if◌then◌else◌, length, get_or, set,
}

abbrev pub space : ℕ
space = b' '

abbrev pub backslash : ℕ
backslash = 92

-- the two bytes that the client escapes
abbrev pub is_special : ℕ → Bool
is_special c = c == space || c == backslash

-- Puts a byte in front of what a successful write has put down.
abbrev pub written : ℕ → Option (List ℕ) → Option (List ℕ)
written c none = none
written c (some w) = some (c ∷ w)

-- `buffer_add_string` with `room` = `buffer_size - buffer_pos`: the bytes written at
-- `*buffer_ret`, by whose number the pointer moves on and the size falls; `none` is -1, which
-- leaves pointer and size alone.
pub buffer_add_string : List ℕ → ℕ → Option (List ℕ)
buffer_add_string [] room = if ltb 0 room then some (space ∷ []) else none
buffer_add_string (c ∷ str) room =
    let escaped = written backslash (written c (buffer_add_string str (room - 2))) in
    let plain = written c (buffer_add_string str (room - 1)) in
    if ltb 0 room
    then (if c == 0
        then some (space ∷ [])
        else if is_special c
        then (if leb (room - 1) 0 then none else escaped)
        else plain)
    else none

-- the locals of `buffer_get_field`: the buffer, which is rewritten in place, and the positions
-- read and written
pub record Cursor : Type 0 where
  pub buf : List ℕ
  pub buffer_pos : ℕ
  pub field_size : ℕ

-- The loop of `buffer_get_field`. A success leaves `field_size` at the length of the field, where
-- the terminator stands.
unfoldable pub field_loop : ℕ → Cursor → Option Cursor
field_loop zero s = none
field_loop (suc fuel) s =
    let c = get_or s.buf s.buffer_pos 0 in
    let next = get_or s.buf (s.buffer_pos + 1) 0 in
    let escaped = field_loop fuel (record {
      buf = set s.buf s.field_size next;
      buffer_pos = s.buffer_pos + 2;
      field_size = s.field_size + 1;
    }) in
    let plain = field_loop fuel (record {
      buf = set s.buf s.field_size c;
      buffer_pos = s.buffer_pos + 1;
      field_size = s.field_size + 1;
    }) in
    if ltb s.buffer_pos (length s.buf)
    then (if c == space || c == 0
        then some (record s { buf = set s.buf s.field_size 0; buffer_pos = s.buffer_pos + 1 })
        else if c == backslash
        then (if leb (length s.buf - 1) s.buffer_pos then none else escaped)
        else plain)
    else none

-- `buffer_get_field`: the loop reads at least one byte a round, so one round more than there are
-- bytes is enough. The `assert` that the buffer ends in a zero byte, which
-- `handle_request` sees to, is left out: the model runs on any buffer.
unfoldable pub buffer_get_field : List ℕ → Option Cursor
buffer_get_field buf =
    if leb (length buf) 0
    then none
    else field_loop (length buf + 1) (record { buf = buf; buffer_pos = 0; field_size = 0 })
