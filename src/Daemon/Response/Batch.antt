-- ===== src/Daemon/Response/Batch.antt =====
-- What a client gets for a batch of commands from the daemon (rrdtool-1.4.5/src/rrd_daemon.c).
use administracion_servicios.Prelude.{ℕ, suc, ◌+◌, ◌≡◌, Option, none, some, List, [], ◌∷◌, ◌++◌}
use administracion_servicios.Prelude.Int.{ℤ, pos}
use administracion_servicios.Daemon.Response.{
  codes, ResponseCode, resp_err, resp_ok, Sock, count_command, count_lines, response_line,
  send_response,
}

-- the responses that the commands of a batch are answered with
abbrev pub Answers : Type 0
Answers = List (ResponseCode × List ℕ)

abbrev pub errors : Answers → ℕ
errors [] = 0
errors ((resp_ok, text) ∷ rest) = errors rest
errors ((resp_err, text) ∷ rest) = suc (errors rest)

-- The text of an error is one line.
abbrev pub EachOneLine : Answers → Type 0
EachOneLine [] = Unit
EachOneLine ((rc, text) ∷ rest) = (count_lines text ≡ 1) × EachOneLine rest

module _ (decimal : ℤ → List ℕ) where
  abbrev pub sock_of : Sock → ℤ × Option Sock → Sock
  sock_of s (status, none) = s
  sock_of s (status, some t) = t

  abbrev pub answered : ResponseCode → List ℕ → Sock → Sock
  answered rc text s = let t = count_command s in sock_of t (send_response decimal rc text (some t))

  -- the commands of a batch, one after the other
  abbrev pub answer_all : Answers → Sock → Sock
  answer_all [] s = s
  answer_all ((rc, text) ∷ rest) s = answer_all rest (answered rc text s)

  -- the lines of the failed commands, with their numbers, from the number given on
  abbrev pub error_lines : ℕ → Answers → List ℕ
  error_lines k [] = []
  error_lines k ((resp_ok, text) ∷ rest) = error_lines (k + 1) rest
  error_lines k ((resp_err, text) ∷ rest) =
      response_line decimal (pos k) text ++ error_lines (k + 1) rest

  -- the socket behind BATCH, and behind the dot
  abbrev started : ℕ → Sock → Sock
  started now s = record s {
    sent =
        s.sent
        ++ (response_line decimal (pos (count_lines s.wbuf))
              (codes "Go ahead.  End with dot '.' on its own line.\n")
            ++ s.wbuf);
    wbuf = [];
    batch_start = suc now;
    batch_cmd = 0;
  }

  abbrev ended : Sock → Sock
  ended s = record s {
    sent =
        s.sent ++ (response_line decimal (pos (count_lines s.wbuf)) (codes "errors\n") ++ s.wbuf);
    wbuf = [];
    batch_start = 0;
    batch_cmd = 0;
  }
