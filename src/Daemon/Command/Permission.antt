-- ===== src/Daemon/Command/Permission.antt =====
-- The permissions of a socket, as the options of rrdtool-1.4.5/src/rrd_daemon.c grant them.
use administracion_servicios.Prelude.{
  ℕ, ◌<◌, ◌≡◌, refl, sym, ap, ◌∙◌, Bool, true, false, ◌||◌, some, List, [], ◌∷◌, ◌==◌, length,
  get_or, set, replicate, length-set, get_or-set_self, get_or-set_ne, Bool-cases, inl, inr, arith,
}
use administracion_servicios.Daemon.Response.{Sock}
use administracion_servicios.Daemon.Command.{
  Command, update, help, dot, quit, cmd, find_command_index, with_bit, socket_permission_add,
  socket_permission_clear, socket_permission_set_all,
}
use administracion_servicios.Daemon.Command.Allowed.{bit_of, permits}

-- the bit that is set for a name; that for the dot is looked at nowhere
abbrev pub added_bit : Command → ℕ
added_bit dot = 10
added_bit c = bit_of c

abbrev pub needs_none : Command → Bool
needs_none help = true
needs_none quit = true
needs_none _ = false

abbrev pub granted : List Command → Command → Bool
granted [] d = false
granted (c ∷ cs) d = (added_bit c == bit_of d) || granted cs d

-- the options for a list of commands, one after the other
abbrev pub add_all : List Command → Sock → Sock
add_all [] s = s
add_all (c ∷ cs) s = add_all cs (socket_permission_add (cmd c) s).1

find_command_index-cmd : (c : Command) → find_command_index (cmd c) ≡ some (added_bit c)
unfolding find_command_index
find_command_index-cmd update = refl
find_command_index-cmd _ = refl

added_bit_less : (c : Command) → added_bit c < 32
added_bit_less update = omega arith
added_bit_less _ = omega arith

get_or-set :
    (p : List Bool) (i j : ℕ)
    → i < length p
    → get_or (set p i true) j false ≡ (i == j) || get_or p j false
get_or-set p i j l = elim (Bool-cases (i == j)) [
  | inl e ↦ let k : i ≡ j = ground (arith, e) in rw (e, sym k) (get_or-set_self p i true false l)
  | inr e ↦ rw e (get_or-set_ne p i j true false (λ k. absurd (ground (arith, e, k))))
]

permits-set :
    (p : List Bool) (i : ℕ) (d : Command)
    → i < length p
    → needs_none d ≡ false
    → permits (set p i true) d ≡ (i == bit_of d) || permits p d
permits-set p i update l e = get_or-set p i 0 l
permits-set p i help l e = cc
permits-set p i quit l e = cc
permits-set p i d l e = get_or-set p i (bit_of d) l

or_swap : (g a p : Bool) → g || (a || p) ≡ (a || g) || p
or_swap true true p = refl
or_swap true false p = refl
or_swap false true p = refl
or_swap false false p = refl

add_all-permits :
    (cs : List Command) (s : Sock) (d : Command)
    → length s.permissions ≡ 32
    → needs_none d ≡ false
    → permits (add_all cs s).permissions d ≡ granted cs d || permits s.permissions d
unfolding socket_permission_add
add_all-permits [] s d l e = refl
add_all-permits (c ∷ cs) s d l e =
    let i = added_bit c in
    let p = s.permissions in
    let t : Sock = record s { permissions = set p i true } in
    let less : i < length p = omega (arith, l, added_bit_less c) in
    let ih = add_all-permits cs t d (length-set p i true ∙ l) e in
    ap (λ o. permits (add_all cs (with_bit s o).1).permissions d) (find_command_index-cmd c)
    ∙ ih
    ∙ ap (λ b. granted cs d || b) (permits-set p i d less e)
    ∙ or_swap (granted cs d) (i == bit_of d) (permits p d)

cleared-permits : (d : Command) → permits (replicate 32 false) d ≡ needs_none d
cleared-permits update = refl
cleared-permits _ = refl

needs_none-permits : (p : List Bool) (d : Command) → needs_none d ≡ true → permits p d ≡ true
needs_none-permits p help e = refl
needs_none-permits p quit e = refl
needs_none-permits p update e = cc
needs_none-permits p _ e = cc

-- A socket that is configured with a list of commands permits these, HELP and QUIT, and the dot
-- where BATCH is one of them, and nothing else, not even where the dot is in the list. After
-- `socket_permission_set_all` it permits every command.
pub permissions_lem :
    (cs : List Command) (s : Sock) (d : Command)
    → (permits (add_all cs (socket_permission_clear s)).permissions d
        ≡ needs_none d || granted cs d)
      × (permits (socket_permission_set_all s).permissions d ≡ true)
unfolding socket_permission_clear socket_permission_set_all
permissions_lem cs s d = (configured, every d)
  where
    configured :
        permits (add_all cs (socket_permission_clear s)).permissions d
        ≡ needs_none d || granted cs d
    configured = elim (Bool-cases (needs_none d)) [
      | inl e ↦
          needs_none-permits (add_all cs (socket_permission_clear s)).permissions d e ∙ rw e refl
      | inr e ↦
          add_all-permits cs (socket_permission_clear s) d refl e
          ∙ ap (λ b. granted cs d || b) (cleared-permits d ∙ e)
          ∙ rw e (or_false (granted cs d))
    ]
      where
        or_false : (g : Bool) → g || false ≡ g
        or_false true = refl
        or_false false = refl

    every : (d : Command) → permits (socket_permission_set_all s).permissions d ≡ true
    every update = refl
    every _ = refl
