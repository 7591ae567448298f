-- ===== src/Daemon/Response/Tests.antt =====
-- Responses to a client, with numbers of one digit.
use administracion_servicios.Prelude.{ℕ, ◌+◌, ◌%◌, refl, true, List, [], ◌∷◌, arith}
use administracion_servicios.Prelude.Int.{ℤ, pos, negsuc}
use administracion_servicios.Daemon.Response.{codes, resp_ok, resp_err, Sock}
use administracion_servicios.Daemon.Response.Framing.{WithinLine}
use administracion_servicios.Daemon.Response.Batch.{Answers}

abbrev decimal : ℤ → List ℕ
decimal (pos n) = (b'0' + n % 10) ∷ []
decimal (negsuc n) = b'-' ∷ (b'1' + n % 9) ∷ []

digits : (z : ℤ) → WithinLine (decimal z)
digits (pos n) = (ground arith, tt)
digits (negsuc n) = (refl, (ground arith, tt))

abbrev client : Sock
client = record {
  writable = true;
  batch_start = 0;
  batch_cmd = 0;
  wbuf = codes "3 a.rrd\n1 b.rrd\n";
  permissions = [];
  sent = [];
}

abbrev answers : Answers
answers = (resp_ok, codes "Success\n") ∷ (resp_err, codes "No such file\n") ∷ []
