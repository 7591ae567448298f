-- ===== src/Daemon/Command/Allowed.antt =====
-- Which commands reach a handler in `handle_request` of rrdtool-1.4.5/src/rrd_daemon.c.
use administracion_servicios.Prelude.{
  ℕ, ◌≡◌, refl, sym, ap, ◌∙◌, Bool, true, false, Bool-cases, inl, inr, Option, none, some, List, [],
  ◌∷◌, if◌then◌else◌, get_or, take, drop,
}
use administracion_servicios.Prelude.Int.{ℤ, pos}
use administracion_servicios.Protocol.{Cursor, buffer_get_field}
use administracion_servicios.Daemon.Response.{Sock, in_batch}
use administracion_servicios.Daemon.Command.{
  Command, update, wrote, flush, flushall, pending, forget, queue, stats, help, quit, cmd, Context,
  client, in_a_batch, journal, context, same_name, find_in, find_command, find_command_index,
  socket_permission_check, command_check_context, list_of_commands, responded, to_handler, counted,
  dispatch, found, parsed, handle_request,
}

-- the place of a command's permission in the bits of a socket; the dot ends what BATCH starts
abbrev pub bit_of : Command → ℕ
bit_of update = 0
bit_of wrote = 1
bit_of flush = 2
bit_of flushall = 3
bit_of pending = 4
bit_of forget = 5
bit_of queue = 6
bit_of stats = 7
bit_of help = 8
bit_of quit = 11
bit_of _ = 9

-- whether a client may give the command; all may ask for help, and quit
abbrev pub permits : List Bool → Command → Bool
permits p help = true
permits p quit = true
permits p c = get_or p (bit_of c) false

abbrev pub permitted : Option Sock → Command → Bool
permitted none c = true
permitted (some s) c = permits s.permissions c

-- where a command comes from
abbrev pub place_of : Option Sock → Context
place_of none = journal
place_of (some s) = if in_batch s then in_a_batch else client

check-permitted :
    (s : Option Sock) (c : Command)
    → socket_permission_check s (cmd c) ≡ (if permitted s c then pos 1 else pos 0)
unfolding socket_permission_check find_command_index
check-permitted none c = refl
check-permitted (some s) update = refl
check-permitted (some s) _ = refl

context-place_of :
    (s : Option Sock) (c : Command) → command_check_context s c ≡ context c (place_of s)
unfolding command_check_context
context-place_of none c = refl
context-place_of (some s) c = elim (Bool-cases (in_batch s)) [
  | inl e ↦ rw e refl
  | inr e ↦ rw e refl
]

permitted-counted : (s : Option Sock) (c : Command) → permitted (counted s) c ≡ permitted s c
permitted-counted none c = refl
permitted-counted (some s) c = elim (Bool-cases (in_batch s)) [
  | inl e ↦ rw e refl
  | inr e ↦ rw e refl
]

place_of-counted : (s : Option Sock) → place_of (counted s) ≡ place_of s
place_of-counted none = refl
place_of-counted (some s) = elim (Bool-cases (in_batch s)) [
  | inl e ↦ rw (e, e) refl
  | inr e ↦ rw (e, e) refl
]

find_in-name :
    (cs : List Command) (name : List ℕ) (c : Command)
    → find_in cs name ≡ some c
    → same_name name (cmd c) ≡ true
find_in-name [] name c e = cc
find_in-name (d ∷ cs) name c e = elim (Bool-cases (same_name name (cmd d))) [
  | inl k ↦ let f : some d ≡ some c = rw k at e in let g : d ≡ c = cc in rw (sym g) k
  | inr k ↦ find_in-name cs name c (rw k at e)
]

module _ (decimal : ℤ → List ℕ) where
  dispatch-Allowed :
      (c : Command) (cmd_str rest : List ℕ) (s : Option Sock) (d : Command) (t : Option Sock)
      (r : List ℕ)
      → dispatch decimal c cmd_str rest s ≡ to_handler d t r
      → (c ≡ d) × (s ≡ t) × (rest ≡ r) × (permitted s c ≡ true) × (context c (place_of s) ≡ true)
  unfolding dispatch
  dispatch-Allowed c cmd_str rest s d t r e = elim (Bool-cases (permitted s c)) [
    | inl p ↦ elim (Bool-cases (context c (place_of s))) [
      | inl k ↦
          let f : to_handler c s rest ≡ to_handler d t r =
            rw (dispatch, check-permitted s c, p, context-place_of s c, k) at e in
          (cc, cc, cc, p, k)
      | inr k ↦ refused (rw (dispatch, check-permitted s c, p, context-place_of s c, k) at e)
    ]
    | inr p ↦ refused (rw (dispatch, check-permitted s c, p) at e)
  ]
    where
      refused : {A : Type 0} {x : ℤ × Option Sock} → responded x ≡ to_handler d t r → A
      refused e = cc

  -- Where `handle_request` calls a handler, the client has written the name of the command, in
  -- letters of either case, as the first field; the socket has the permission for it, that for
  -- BATCH in case of the dot, or it is HELP or QUIT, or a journal is replayed; the command belongs
  -- where it comes from, the journal, a batch or neither; and the handler gets the rest of the
  -- buffer and the socket, with the command counted. In any other case no handler is called.
  pub handle_request-Allowed :
      (s : Option Sock) (buffer : List ℕ) (c : Command) (t : Option Sock) (rest : List ℕ)
      → handle_request decimal s buffer ≡ to_handler c t rest
      → (permitted s c ≡ true)
        × (context c (place_of s) ≡ true)
        × (t ≡ counted s)
        × ((cur : Cursor) × (buffer_get_field buffer ≡ some cur)
            × (same_name (take cur.field_size cur.buf) (cmd c) ≡ true)
            × (rest ≡ drop cur.buffer_pos cur.buf))
  unfolding handle_request
  handle_request-Allowed s buffer c t rest e = on_field (buffer_get_field buffer) refl e
    where
      Reached : Type 0
      Reached =
          (permitted s c ≡ true)
          × (context c (place_of s) ≡ true)
          × (t ≡ counted s)
          × ((cur : Cursor) × (buffer_get_field buffer ≡ some cur)
              × (same_name (take cur.field_size cur.buf) (cmd c) ≡ true)
              × (rest ≡ drop cur.buffer_pos cur.buf))

      on_command :
          (cur : Cursor)
          → buffer_get_field buffer ≡ some cur
          → (o : Option Command) → find_command (take cur.field_size cur.buf) ≡ o
          → found decimal (take cur.field_size cur.buf) (drop cur.buffer_pos cur.buf) (counted s) o
            ≡ to_handler c t rest
          → Reached
      on_command cur b none f e = cc
      on_command cur b (some d) f e =
          let (x, y, z, p, k) =
            dispatch-Allowed d (take cur.field_size cur.buf) (drop cur.buffer_pos cur.buf)
              (counted s) c t rest e in
          let n = find_in-name list_of_commands (take cur.field_size cur.buf) d f in
          (
            rw x at (sym (permitted-counted s d) ∙ p),
            ap (λ w. context c w) (sym (place_of-counted s)) ∙ (rw x at k),
            sym y,
            (cur, b, rw x at n, sym z),
          )

      on_field :
          (o : Option Cursor)
          → buffer_get_field buffer ≡ o
          → parsed decimal s o ≡ to_handler c t rest
          → Reached
      on_field none b e = cc
      on_field (some cur) b e = on_command cur b (find_command (take cur.field_size cur.buf)) refl e
