-- ===== src/Daemon/Command/Tests.antt =====
-- A client that may give UPDATE and BATCH.
use administracion_servicios.Prelude.{◌≡◌, refl, ℕ, true, some, List, [], ◌∷◌, ◌++◌, take, drop}
use administracion_servicios.Prelude.Int.{ℤ}
use administracion_servicios.Protocol.{Cursor, buffer_get_field, field_loop}
use administracion_servicios.Daemon.Response.{codes, Sock}
use administracion_servicios.Daemon.Command.{
  update, cmd, context, same_name, counted, handle_request, find_command, dispatch,
  socket_permission_check, find_command_index, command_check_context,
}
use administracion_servicios.Daemon.Command.Allowed.{permitted, place_of, handle_request-Allowed}

abbrev decimal : ℤ → List ℕ
decimal z = b'0' ∷ []

abbrev fresh : Sock
fresh = record {
  writable = true;
  batch_start = 0;
  batch_cmd = 0;
  wbuf = [];
  permissions = [];
  sent = [];
}

abbrev client : Sock
client = record fresh { permissions = true ∷ [] }

abbrev request : List ℕ
request = codes "update a.rrd" ++ (0 ∷ [])

handle_request-Allowed_example :
    (permitted (some client) update ≡ true)
    × (context update (place_of (some client)) ≡ true)
    × (some client ≡ counted (some client))
    × ((cur : Cursor) × (buffer_get_field request ≡ some cur)
        × (same_name (take cur.field_size cur.buf) (cmd update) ≡ true)
        × (codes "a.rrd" ++ (0 ∷ []) ≡ drop cur.buffer_pos cur.buf))
unfolding handle_request buffer_get_field field_loop find_command dispatch socket_permission_check
    find_command_index command_check_context
handle_request-Allowed_example =
    handle_request-Allowed decimal (some client) request update (some client)
      (codes "a.rrd" ++ (0 ∷ [])) refl
