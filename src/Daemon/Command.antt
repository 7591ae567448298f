-- ===== src/Daemon/Command.antt =====
-- The commands of the daemon, rrdtool-1.4.5/src/rrd_daemon.c: their table, who may give them and
-- where, and `handle_request` up to the call of a handler. A command name is the list of its bytes.
pub mod Allowed
pub mod Permission
mod Tests
use administracion_servicios.Prelude.{
  ℕ, zero, suc, ◌+◌, Bool, true, false, not, ◌&&◌, Option, none, some, List, [], ◌∷◌, ◌++◌, leb,
  ◌==◌, if◌then◌else◌, get_or, set, take, drop, replicate,
}
use administracion_servicios.Prelude.Int.{ℤ, pos, negsuc}
use administracion_servicios.Protocol.{Cursor, buffer_get_field}
use administracion_servicios.Daemon.Connection.{newline}
use administracion_servicios.Daemon.Response.{
  codes, resp_err, Sock, in_batch, count_command, send_response,
}

-- the entries of `list_of_commands`
pub data Command : Type 0 where
  update wrote flush flushall pending forget queue stats help batch dot quit : Command

abbrev pub list_of_commands : List Command
list_of_commands =
    update ∷ wrote ∷ flush ∷ flushall ∷ pending ∷ forget ∷ queue ∷ stats ∷ help ∷ batch ∷ dot ∷ quit
    ∷ []

abbrev pub cmd : Command → List ℕ
cmd update = codes "UPDATE"
cmd wrote = codes "WROTE"
cmd flush = codes "FLUSH"
cmd flushall = codes "FLUSHALL"
cmd pending = codes "PENDING"
cmd forget = codes "FORGET"
cmd queue = codes "QUEUE"
cmd stats = codes "STATS"
cmd help = codes "HELP"
cmd batch = codes "BATCH"
cmd dot = codes "."
cmd quit = codes "QUIT"

-- the bits of `context`
pub data Context : Type 0 where
  client in_a_batch journal : Context

abbrev pub context : Command → Context → Bool
context update _ = true
context wrote journal = true
context wrote _ = false
context flush journal = false
context flush _ = true
context forget _ = true
context dot in_a_batch = true
context dot _ = false
context quit journal = false
context quit _ = true
context _ client = true
context _ _ = false

-- `strcasecmp` and `strcmp`, as far as they tell equal texts
abbrev pub tolower : ℕ → ℕ
tolower c = if leb b'A' c && leb c b'Z' then c + 32 else c

abbrev pub same_text : List ℕ → List ℕ → Bool
same_text [] [] = true
same_text (a ∷ s) (b ∷ t) = (a == b) && same_text s t
same_text _ _ = false

abbrev pub same_name : List ℕ → List ℕ → Bool
same_name [] [] = true
same_name (a ∷ s) (b ∷ t) = (tolower a == tolower b) && same_name s t
same_name _ _ = false

abbrev pub find_in : List Command → List ℕ → Option Command
find_in [] name = none
find_in (c ∷ cs) name =
    let rest = find_in cs name in if same_name name (cmd c) then some c else rest

unfoldable pub find_command : List ℕ → Option Command
find_command name = find_in list_of_commands name

abbrev pub index_in : ℕ → List Command → List ℕ → Option ℕ
index_in i [] name = none
index_in i (c ∷ cs) name =
    let rest = index_in (i + 1) cs name in if same_name name (cmd c) then some i else rest

unfoldable pub find_command_index : List ℕ → Option ℕ
find_command_index name = index_in 0 list_of_commands name

abbrev pub permission_bit : Sock → Option ℕ → ℤ
permission_bit s none = negsuc 0
permission_bit s (some i) = if get_or s.permissions i false then pos 1 else pos 0

-- `socket_permission_check` of a name; there is no socket while a journal is replayed
unfoldable pub socket_permission_check : Option Sock → List ℕ → ℤ
unfolding find_command_index
socket_permission_check none name = pos 1
socket_permission_check (some s) name =
    if same_name (codes "QUIT") name
    then pos 1
    else if same_name (codes "HELP") name
    then pos 1
    else permission_bit s
        (find_command_index (if same_text (codes ".") name then codes "BATCH" else name))

abbrev pub with_bit : Sock → Option ℕ → ℤ × Sock
with_bit s none = (negsuc 0, s)
with_bit s (some i) = (pos 0, record s { permissions = set s.permissions i true })

unfoldable pub socket_permission_add : List ℕ → Sock → ℤ × Sock
unfolding find_command_index
socket_permission_add name s = with_bit s (find_command_index name)

unfoldable pub socket_permission_clear : Sock → Sock
socket_permission_clear s = record s { permissions = replicate 32 false }

abbrev pub socket_permission_copy : Sock → Sock → Sock
socket_permission_copy dest src = record dest { permissions = src.permissions }

abbrev pub set_bits : ℕ → List Command → List Bool → List Bool
set_bits i [] p = p
set_bits i (c ∷ cs) p = set_bits (i + 1) cs (set p i true)

unfoldable pub socket_permission_set_all : Sock → Sock
socket_permission_set_all s = record s {
  permissions = set_bits 0 list_of_commands (replicate 32 false);
}

-- `command_check_context`
unfoldable pub command_check_context : Option Sock → Command → Bool
command_check_context none c = context c journal
command_check_context (some s) c = if in_batch s then context c in_a_batch else context c client

-- what `handle_request` does: it returns -1, it has sent a response, or it calls the handler of a
-- command with the rest of the buffer
pub data Dispatch : Type 0 where
  unparsable : Dispatch
  responded : ℤ × Option Sock → Dispatch
  to_handler : Command → Option Sock → List ℕ → Dispatch

abbrev pub counted : Option Sock → Option Sock
counted none = none
counted (some s) = some (count_command s)

module _ (decimal : ℤ → List ℕ) where
  abbrev pub respond_err : List ℕ → Option Sock → Dispatch
  respond_err text s = responded (send_response decimal resp_err text s)

  -- `handle_request` for a command that is found
  unfoldable pub dispatch : Command → List ℕ → List ℕ → Option Sock → Dispatch
  unfolding socket_permission_check command_check_context
  dispatch c cmd_str rest s =
      if is_zero (socket_permission_check s (cmd c))
      then respond_err (codes "Permission denied.\n") s
      else if not (command_check_context s c)
      then respond_err (codes "Can't use '" ++ (cmd_str ++ codes "' here.\n")) s
      else to_handler c s rest
    where
      is_zero : ℤ → Bool
      is_zero (pos n) = n == 0
      is_zero (negsuc n) = false

  abbrev pub found : List ℕ → List ℕ → Option Sock → Option Command → Dispatch
  found cmd_str rest s none =
      respond_err (codes "Unknown command: " ++ (cmd_str ++ (newline ∷ []))) s
  found cmd_str rest s (some c) = dispatch c cmd_str rest s

  abbrev pub parsed : Option Sock → Option Cursor → Dispatch
  parsed s none = unparsable
  parsed s (some c) =
      let cmd_str = take c.field_size c.buf in
      found cmd_str (drop c.buffer_pos c.buf) (counted s) (find_command cmd_str)

  unfoldable pub handle_request : Option Sock → List ℕ → Dispatch
  unfolding find_command dispatch
  handle_request s buffer = parsed s (buffer_get_field buffer)
