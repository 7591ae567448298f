-- ===== src/Daemon/Connection.antt =====
-- How the daemon cuts what it reads from a client into commands: `next_cmd` and the loop of
-- `connection_thread_main` in rrdtool-1.4.5/src/rrd_daemon.c. The handling of a command is a
-- parameter. It may write to the bytes of the command in the buffer, which are not read again;
-- that is left out.
pub mod Lines
pub mod Split
pub mod Stream
mod Tests
use administracion_servicios.Prelude.{
  ℕ, zero, suc, ◌+◌, ◌-◌, ◌*◌, Bool, true, false, ◌&&◌, Option, none, some, List, [], ◌∷◌, ◌++◌,
  ltb, leb, ◌==◌, if◌then◌else◌, length, get_or, set, take, drop,
}
use administracion_servicios.Prelude.Int.{ℤ, pos, negsuc, sub_ℕ}

abbrev pub newline : ℕ
newline = 10

abbrev pub carriage_return : ℕ
carriage_return = 13

-- CMD_MAX and RBUF_SIZE
abbrev pub cmd_max : ℕ
cmd_max = 4096

abbrev pub rbuf_size : ℕ
rbuf_size = cmd_max * 2

-- The read buffer of a `listen_socket_t`: `rbuf` is its bytes before `next_read`, which is their
-- number.
pub record Reader : Type 0 where
  pub rbuf : List ℕ
  pub next_at : ℕ

abbrev pub further : Option ℕ → Option ℕ
further none = none
further (some k) = some (suc k)

-- `memchr`: how far the first byte of that value is
abbrev pub memchr : ℕ → List ℕ → Option ℕ
memchr c [] = none
memchr c (x ∷ xs) = let rest = memchr c xs in if x == c then some 0 else further rest

-- a command: its bytes, from the pointer returned on, with its length; and the reader after it
pub record Found : Type 0 where
  pub bytes : List ℕ
  pub len : ℤ
  pub left : Reader

-- the case of `next_cmd` where `eol` is found
abbrev pub command_before : ℕ → Reader → Found
command_before eol r =
    let buf = set r.rbuf eol 0 in
    if ltb 0 eol && get_or buf (eol - 1) 0 == carriage_return
    then record {
      bytes = drop r.next_at (set buf (eol - 1) 0);
      len = sub_ℕ (eol - 1) r.next_at;
      left = record { rbuf = set buf (eol - 1) 0; next_at = eol + 1 };
    }
    else record {
      bytes = drop r.next_at buf;
      len = sub_ℕ eol r.next_at;
      left = record { rbuf = buf; next_at = eol + 1 };
    }

-- the case where there is none: the remainder goes to the front
abbrev pub moved_to_front : Reader → Reader
moved_to_front r = record { rbuf = drop r.next_at r.rbuf; next_at = 0 }

abbrev pub at_eol : Reader → Option ℕ → Option Found
at_eol r none = none
at_eol r (some k) = some (command_before (r.next_at + k) r)

-- `next_cmd`; where it returns NULL the reader is `moved_to_front`
unfoldable pub next_cmd : Reader → Option Found
next_cmd r = at_eol r (memchr newline (drop r.next_at r.rbuf))

-- a connection whose thread goes on reading, or one that is closed
pub data Connection (S : Type 0) : Type 0 where
  reading : S → Reader → Connection S
  closed : S → Connection S

module _ {S : Type 0} (handle : List ℕ → S → Bool × S) where
  -- the call of `handle_request` on a command, with whether its status is 0; a negative length
  -- cannot be handed over
  abbrev pub handled : Found → S → Bool × S
  handled f s = elim f.len [ pos n ↦ handle (take n f.bytes) s | negsuc _ ↦ (false, s) ]

  abbrev pub after_handled : (S → Reader → Connection S) → Reader → Bool × S → Connection S
  after_handled rest r (true, t) = rest t r
  after_handled rest r (false, t) = closed t

  abbrev pub after_next : (S → Reader → Connection S) → S → Reader → Option Found → Connection S
  after_next rest s r none = reading s (moved_to_front r)
  after_next rest s r (some f) = after_handled rest f.left (handled f s)

  -- the inner loop; each round uses a byte up
  unfoldable pub commands_loop : ℕ → S → Reader → Connection S
  commands_loop zero s r = closed s
  commands_loop (suc fuel) s r = after_next (commands_loop fuel) s r (next_cmd r)

  -- A round of `connection_thread_main`: `read` has room for the bytes that the buffer lacks, and
  -- returns as many of those that have come. None is the end of the stream, or a full buffer.
  unfoldable pub read_round : List ℕ → S → Reader → Connection S
  read_round chunk s r =
      let received = take (rbuf_size - length r.rbuf) chunk in
      let buf = r.rbuf ++ received in
      if leb (length received) 0
      then closed s
      else commands_loop (length buf + 1) s (record { rbuf = buf; next_at = r.next_at })

  -- the outer loop over what has come at each read
  unfoldable pub connection_thread_main : List (List ℕ) → S → Reader → Connection S
  connection_thread_main [] s r = reading s r
  connection_thread_main (chunk ∷ chunks) s r = elim (read_round chunk s r) [
    | reading t q ↦ connection_thread_main chunks t q
    | closed t ↦ closed t
  ]
