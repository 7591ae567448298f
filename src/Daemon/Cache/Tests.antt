-- ===== src/Daemon/Cache/Tests.antt =====
-- Tests of the cache and its journal.
use administracion_servicios.Prelude.{
  ℕ, ◌+◌, ◌-◌, ◌*◌, ◌≡◌, refl, true, false, ◌&&◌, none, some, List, [], ◌∷◌, ◌++◌, leb,
  if◌then◌else◌,
}
use administracion_servicios.Prelude.Int.{ℤ, pos}
use administracion_servicios.Protocol.{buffer_get_field, field_loop}
use administracion_servicios.Daemon.Response.{codes}
use administracion_servicios.Daemon.Access.{Config, get_abs_path, check_file_access}
use administracion_servicios.Daemon.Cache.{
  update_request, Item, Cache, Env, enqueued, value_loop, handle_request_update,
  handle_request_pending, pending_values, illegal_time, note_written, journal_replay,
}
use administracion_servicios.Daemon.Cache.Follows.{empty}
use administracion_servicios.Daemon.Cache.Replay.{
  Event, update, forget, take_out, note, remove, NoneWait, note_written-forgets,
}
use administracion_servicios.Daemon.Cache.Values.{Accepted, value_loop-Accepted}

-- a number of digits
abbrev number_from : ℕ → List ℕ → ℤ × List ℕ
number_from n [] = (pos n, [])
number_from n (c ∷ s) =
    let more = number_from (n * 10 + (c - b'0')) s in
    if leb b'0' c && leb c b'9' then more else (pos n, c ∷ s)

abbrev env : Env
env = record { strtol = λ s. some (number_from 0 s); usable = λ _. true }

abbrev config : Config
config = record { write_base_only = false; base_dir = none; path_max = 100 }

abbrev line : List ℕ
line = codes "a.rrd 10:1 20:2" ++ (0 ∷ [])

abbrev waiting : Item
waiting = record { values = codes "10:1" ∷ codes "20:2" ∷ []; last_update_stamp = pos 20 }

update_test : (handle_request_update env config false line empty).1 ≡ enqueued 2
unfolding handle_request_update update_request buffer_get_field field_loop get_abs_path
    check_file_access value_loop
update_test = refl

pending_test :
    handle_request_pending env config
      (codes "a.rrd" ++ (0 ∷ []))
      (handle_request_update env config false line empty).0
    ≡ pending_values waiting.values
unfolding handle_request_pending handle_request_update update_request buffer_get_field field_loop
    get_abs_path check_file_access value_loop
pending_test = refl

illegal_test :
    (handle_request_update env config false (codes "a.rrd 20:2 10:1" ++ (0 ∷ [])) empty).1
    ≡ illegal_time (pos 10) (pos 20)
unfolding handle_request_update update_request buffer_get_field field_loop get_abs_path
    check_file_access value_loop
illegal_test = refl

abbrev other_line : List ℕ
other_line = codes "b.rrd 5:1" ++ (0 ∷ [])

abbrev b_line : List ℕ
b_line = codes "b.rrd" ++ (0 ∷ [])

abbrev events : List Event
events =
    update line
    ∷ take_out (codes "a.rrd")
    ∷ update other_line
    ∷ note (codes "a.rrd")
    ∷ update (codes "a.rrd 30:3" ++ (0 ∷ []))
    ∷ remove (codes "c.rrd")
    ∷ forget b_line
    ∷ []

-- values come in between the taking of the earlier ones and the entry "wrote"
abbrev late : Cache
late = record { cache_tree = λ _. some waiting; journal = [] }

late_values_lost_test :
    ((note_written env (codes "a.rrd") late).cache_tree (codes "a.rrd") ≡ some waiting)
    × NoneWait env config (
        (journal_replay env config (note_written env (codes "a.rrd") late).journal empty).cache_tree
          (codes "a.rrd"))
late_values_lost_test = note_written-forgets env config (codes "a.rrd") late waiting refl

value_loop-Accepted_example :
    Accepted env 0 waiting (value_loop env 20 (codes "30:1 40:2" ++ (0 ∷ [])) 0 waiting)
value_loop-Accepted_example = value_loop-Accepted env 20 (codes "30:1 40:2" ++ (0 ∷ [])) 0 waiting
