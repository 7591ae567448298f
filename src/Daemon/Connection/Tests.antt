-- ===== src/Daemon/Connection/Tests.antt =====
-- Three reads of a stream with two lines, on a handler that collects commands and ends the
-- connection on an empty one.
use administracion_servicios.Prelude.{
  ℕ, ◌≡◌, ◌⊎◌, refl, Bool, true, false, List, [], ◌∷◌, ◌++◌, arith,
}
use administracion_servicios.Daemon.Connection.{
  newline, rbuf_size, carriage_return, reading, closed, connection_thread_main, read_round,
  commands_loop, next_cmd,
}
use administracion_servicios.Daemon.Connection.Stream.{connection_thread_main-served}

abbrev collect : List ℕ → List (List ℕ) → Bool × List (List ℕ)
collect [] seen = (false, seen)
collect (c ∷ cs) seen = (true, seen ++ ((c ∷ cs) ∷ []))

abbrev pieces : List (List ℕ)
pieces = (b'a' ∷ []) ∷ (b'b' ∷ carriage_return ∷ newline ∷ b'c' ∷ []) ∷ (newline ∷ b'd' ∷ []) ∷ []

connection_thread_main-served_example :
    (connection_thread_main collect pieces [] (record { rbuf = []; next_at = 0 })
      ≡ reading ((b'a' ∷ b'b' ∷ []) ∷ (b'c' ∷ []) ∷ []) (record { rbuf = b'd' ∷ []; next_at = 0 }))
    × ((chunk : List ℕ) (more : List (List ℕ))
        → (chunk ≡ []) ⊎ (1 ≡ rbuf_size)
        → connection_thread_main collect
            (pieces ++ (chunk ∷ more))
            []
            (record { rbuf = []; next_at = 0 })
          ≡ closed ((b'a' ∷ b'b' ∷ []) ∷ (b'c' ∷ []) ∷ []))
connection_thread_main-served_example =
    connection_thread_main-served collect pieces []
      (omega arith, omega arith, (omega arith, omega arith, (omega arith, omega arith, tt)))

empty_line_test :
    connection_thread_main collect
      ((newline ∷ b'x' ∷ newline ∷ []) ∷ [])
      []
      (record { rbuf = []; next_at = 0 })
    ≡ closed []
unfolding connection_thread_main read_round commands_loop next_cmd
empty_line_test = refl
