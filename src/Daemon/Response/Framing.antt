-- ===== src/Daemon/Response/Framing.antt =====
-- Responses of the daemon (rrdtool-1.4.5/src/rrd_daemon.c) announce their own length.
use administracion_servicios.Prelude.{
  ℕ, ◌+◌, ◌≡◌, refl, inl, inr, false, Bool-cases, All, List, [], ◌∷◌, ◌++◌, ◌==◌, arith,
}
use administracion_servicios.Daemon.Connection.{newline}
use administracion_servicios.Daemon.Response.{count_lines}

-- bytes within a line
abbrev pub WithinLine : List ℕ → Type 0
WithinLine = All (λ c. (c == newline) ≡ false)

pub count_lines-append : (a b : List ℕ) → count_lines (a ++ b) ≡ count_lines a + count_lines b
count_lines-append [] b = omega arith
count_lines-append (c ∷ a) b = elim (Bool-cases (c == newline)) [
  | inl e ↦ rw e (omega (arith, count_lines-append a b))
  | inr e ↦ rw e (count_lines-append a b)
]

pub count_lines-WithinLine : (p : List ℕ) → WithinLine p → count_lines p ≡ 0
count_lines-WithinLine [] w = refl
count_lines-WithinLine (c ∷ p) (n, w) = rw n (count_lines-WithinLine p w)
