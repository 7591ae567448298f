-- ===== src/Daemon/Response.antt =====
-- The responses of the daemon to a client: `send_response`, `add_response_info` and the handlers of
-- BATCH in rrdtool-1.4.5/src/rrd_daemon.c. A text is the list of its bytes, none of which is zero;
-- it has fewer than CMD_MAX of them. `sprintf` of a number is a parameter.
pub mod Framing
pub mod Batch
mod Tests
use Prim.Native.Char.{code}
use Prim.Native.String.{String}
use administracion_servicios.Prelude.{
  ℕ, zero, suc, ◌+◌, ◌-◌, Bool, true, false, not, Option, none, some, List, [], ◌∷◌, ◌++◌, ltb,
  ◌==◌, if◌then◌else◌,
}
use administracion_servicios.Prelude.Int.{ℤ, pos, negsuc}
use administracion_servicios.Protocol.{space}
use administracion_servicios.Daemon.Connection.{newline}

-- the bytes of a text in ASCII
abbrev pub codes : String → List ℕ
codes String.[] = []
codes (String.◌∷◌ c s) = code c ∷ codes s

pub data ResponseCode : Type 0 where
  resp_err resp_ok : ResponseCode

abbrev pub value_of : ResponseCode → ℤ
value_of resp_err = negsuc 0
value_of resp_ok = pos 0

abbrev pub is_ok : ResponseCode → Bool
is_ok resp_ok = true
is_ok resp_err = false

-- `listen_socket_t`, as far as commands and responses concern it: whether the socket can be written
-- to, the state of a batch (the time of its start, or 0), the write buffer, the permitted commands;
-- and what has been written to the socket
pub record Sock : Type 0 where
  pub writable : Bool
  pub batch_start : ℕ
  pub batch_cmd : ℕ
  pub wbuf : List ℕ
  -- the bits of `permissions`, the lowest first
  pub permissions : List Bool
  pub sent : List ℕ

abbrev pub in_batch : Sock → Bool
in_batch s = not (s.batch_start == 0)

abbrev pub add_to_wbuf : List ℕ → Sock → Sock
add_to_wbuf str s = record s { wbuf = s.wbuf ++ str }

-- what `handle_request` does to the number of the command
abbrev pub count_command : Sock → Sock
count_command s = if in_batch s then record s { batch_cmd = s.batch_cmd + 1 } else s

-- `add_response_info`; there is no socket while a journal is replayed
unfoldable pub add_response_info : List ℕ → Option Sock → Option Sock
add_response_info text none = none
add_response_info text (some s) = if in_batch s then some s else some (add_to_wbuf text s)

abbrev pub count_lines : List ℕ → ℕ
count_lines [] = 0
count_lines (c ∷ str) = if c == newline then suc (count_lines str) else count_lines str

module _ (decimal : ℤ → List ℕ) where
  -- the status line
  abbrev pub response_line : ℤ → List ℕ → List ℕ
  response_line lines text = decimal lines ++ (space ∷ text)

  -- `send_response` outside of a batch, with the number of lines to announce
  abbrev pub write_response : ResponseCode → ℤ → List ℕ → Sock → ℤ × Option Sock
  write_response rc lines text s =
      if s.writable
      then (
        pos 0,
        some (record s {
          sent = s.sent ++ (response_line lines text ++ (if is_ok rc then s.wbuf else []));
          wbuf = [];
        }),
      )
      else (negsuc 0, some s)

  unfoldable pub send_response : ResponseCode → List ℕ → Option Sock → ℤ × Option Sock
  send_response rc text none = (value_of rc, none)
  send_response rc text (some s) =
      if in_batch s
      then (if is_ok rc
          then (value_of rc, some s)
          else (pos 0, some (add_to_wbuf (response_line (pos s.batch_cmd) text) s)))
      else if is_ok rc
      then write_response rc (pos (count_lines s.wbuf)) text s
      else write_response rc (negsuc 0) text s

  -- the assignments of `batch_start` and `batch_done`
  abbrev pub set_batch : ℕ → ℤ × Option Sock → ℤ × Option Sock
  set_batch now (status, none) = (status, none)
  set_batch now (status, some s) = (status, some (record s { batch_start = now; batch_cmd = 0 }))

  -- the handler of BATCH, at a time that is not 0
  unfoldable pub start_batch : ℕ → Sock → ℤ × Option Sock
  unfolding send_response
  start_batch now s =
      if in_batch s
      then send_response resp_err (codes "Already in BATCH\n") (some s)
      else set_batch now
          (send_response resp_ok (codes "Go ahead.  End with dot '.' on its own line.\n") (some s))

  -- the handler of the dot; none is a failed `assert`
  unfoldable pub batch_done : Sock → Option (ℤ × Option Sock)
  unfolding send_response
  batch_done s =
      if in_batch s
      then some (
          send_response resp_ok (codes "errors\n")
            (some (record s { batch_start = 0; batch_cmd = 0 })))
      else none
