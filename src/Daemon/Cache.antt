-- ===== src/Daemon/Cache.antt =====
-- The items of the cache and its journal, rrdtool-1.4.5/src/rrd_daemon.c: what the handlers of
-- UPDATE, FORGET, PENDING and WROTE and the writing of a file do to them, and `journal_replay`. The
-- tree is a function of the file's path; the write queue, which the same sections change, is in
-- Threads. `strtol`, and what `stat` and `access` say of a file, are parameters. A buffer is the
-- list of its bytes, of which the last one alone is zero; the journal is the list of its entries, of
-- which each is a line that fits the buffer `entry` of its replay.
pub mod Local
pub mod Follows
pub mod Replay
pub mod Values
mod Tests
use administracion_servicios.Prelude.{
  ℕ, zero, suc, ◌+◌, Bool, true, false, not, ltb, ◌&&◌, Option, none, some, List, [], ◌∷◌, ◌++◌,
  ◌==◌, if◌then◌else◌, length, take, drop,
}
use administracion_servicios.Prelude.Int.{ℤ, pos, ltb_ℤ}
use administracion_servicios.Protocol.{Cursor, buffer_get_field}
use administracion_servicios.Daemon.Command.{same_text}
use administracion_servicios.Daemon.Connection.{cmd_max}
use administracion_servicios.Daemon.Access.{Config, get_abs_path, check_file_access}

-- `cache_item_t`: the values that wait, their number being the length, and the last time accepted
pub record Item : Type 0 where
  pub values : List (List ℕ)
  pub last_update_stamp : ℤ

-- what `journal_write` is called with
pub data Entry : Type 0 where
  -- "update" with the buffer behind the command, and "forget" and "wrote" with the path
  updated forgotten wrote_out : List ℕ → Entry

pub record Cache : Type 0 where
  pub cache_tree : List ℕ → Option Item
  pub journal : List Entry

-- the responses of the handlers; a refused access has its own, and "wrote" has none. An overrun is
-- no response: the stack is written over.
pub data Answer : Type 0 where
  usage refused_access unusable_file no_such_entry none_updated gone silent overrun : Answer
  no_timestamp : List ℕ → Answer
  illegal_time : ℤ → ℤ → Answer
  enqueued : ℕ → Answer
  pending_values : List (List ℕ) → Answer

-- the C library and the file system: the number at the start of a text with the text behind it, and
-- whether a path is a regular file that can be read and written
pub record Env : Type 0 where
  pub strtol : List ℕ → Option (ℤ × List ℕ)
  pub usable : List ℕ → Bool

-- `g_tree_replace` and `g_tree_remove`
abbrev pub replace : List ℕ → Option Item → (List ℕ → Option Item) → List ℕ → Option Item
replace file ci tree g = if same_text file g then ci else tree g

abbrev pub put : List ℕ → Option Item → Cache → Cache
put file ci c = record c { cache_tree = replace file ci c.cache_tree }

-- `journal_write`, which a replay does not call
abbrev pub journal_write : Bool → Entry → Cache → Cache
journal_write replay e c = if replay then c else record c { journal = c.journal ++ (e ∷ []) }

abbrev pub new_item : Item
new_item = record { values = []; last_update_stamp = pos 0 }

-- `wipe_ci_values`
abbrev pub wipe_ci_values : Item → Item
wipe_ci_values ci = record ci { values = [] }

-- the text of the field that `buffer_get_field` has found, and the buffer behind it
abbrev pub field_of : Cursor → List ℕ
field_of cur = take cur.field_size cur.buf

abbrev pub rest_of : Cursor → List ℕ
rest_of cur = drop cur.buffer_pos cur.buf

abbrev pub starts_with_colon : List ℕ → Bool
starts_with_colon [] = false
starts_with_colon (c ∷ s) = c == b':'

module _ (env : Env) where
  -- the timestamp in front of a value
  abbrev pub stamp_of : Option (ℤ × List ℕ) → Option ℤ
  stamp_of none = none
  stamp_of (some (stamp, eostamp)) = if starts_with_colon eostamp then some stamp else none

  abbrev pub accept : List ℕ → ℤ → Item → Item
  accept value stamp ci = record ci {
    values = ci.values ++ (value ∷ []);
    last_update_stamp = stamp;
  }

  -- the end of `handle_request_update`
  abbrev pub answer_for : ℕ → Answer
  answer_for zero = none_updated
  answer_for (suc n) = enqueued (suc n)

  -- The loop over the values, with the number accepted so far. Each round takes a byte or more off
  -- the buffer, so fuel for the bytes is enough.
  unfoldable pub value_loop : ℕ → List ℕ → ℕ → Item → Item × Answer
  unfolding buffer_get_field
  value_loop zero buffer n ci = (ci, answer_for n)
  value_loop (suc fuel) buffer n ci = elim (buffer_get_field buffer) [
    | none ↦ (ci, answer_for n)
    | some cur ↦
        let value = field_of cur in
        elim (stamp_of (env.strtol value)) [
          | none ↦ (ci, no_timestamp value)
          | some stamp ↦
              let rest = value_loop fuel (rest_of cur) (n + 1) (accept value stamp ci) in
              if not (ltb_ℤ ci.last_update_stamp stamp)
              then (ci, illegal_time stamp ci.last_update_stamp)
              else rest
        ]
  ]

  module _ (config : Config) (replay : Bool) where
    -- the section from the journal's entry on
    abbrev pub update_item : List ℕ → List ℕ → List ℕ → Item → Cache → Cache × Answer
    update_item orig_buf file buffer ci c =
        let (ci', answer) = value_loop (length buffer) buffer 0 ci in
        (put file (some ci') (journal_write replay (updated orig_buf) c), answer)

    abbrev pub find_item : List ℕ → Option Item → Option Item
    find_item file (some ci) = some ci
    find_item file none = if env.usable file then some new_item else none

    abbrev pub update_found : List ℕ → List ℕ → List ℕ → Cache → Option Item → Cache × Answer
    update_found orig_buf file buffer c none = (c, unusable_file)
    update_found orig_buf file buffer c (some ci) = update_item orig_buf file buffer ci c

    abbrev pub update_file : List ℕ → List ℕ → List ℕ → Cache → Cache × Answer
    update_file orig_buf file buffer c =
        if not (check_file_access config replay file)
        then (c, refused_access)
        else update_found orig_buf file buffer c (find_item file (c.cache_tree file))

    -- the handler behind the copy of its buffer
    unfoldable pub update_request : List ℕ → Cache → Cache × Answer
    unfolding buffer_get_field get_abs_path check_file_access value_loop
    update_request buffer c = elim (buffer_get_field buffer) [
      | none ↦ (c, usage)
      | some cur ↦ update_file buffer (get_abs_path config (field_of cur)) (rest_of cur) c
    ]

    -- A longer buffer is copied over the end of `orig_buf`, which has CMD_MAX bytes.
    unfoldable pub handle_request_update : List ℕ → Cache → Cache × Answer
    unfolding update_request
    handle_request_update buffer c =
        if not replay && ltb cmd_max (length buffer) then (c, overrun) else update_request buffer c

    abbrev pub forget_found : List ℕ → Cache → Option Item → Cache × Answer
    forget_found file c none = (c, no_such_entry)
    forget_found file c (some _) = (journal_write replay (forgotten file) (put file none c), gone)

    abbrev pub forget_file : List ℕ → Cache → Cache × Answer
    forget_file file c =
        if not (check_file_access config replay file)
        then (c, refused_access)
        else forget_found file c (c.cache_tree file)

    unfoldable pub handle_request_forget : List ℕ → Cache → Cache × Answer
    unfolding buffer_get_field get_abs_path check_file_access
    handle_request_forget buffer c = elim (buffer_get_field buffer) [
      | none ↦ (c, usage)
      | some cur ↦ forget_file (get_abs_path config (field_of cur)) c
    ]

  unfoldable pub handle_request_pending : Config → List ℕ → Cache → Answer
  unfolding buffer_get_field get_abs_path
  handle_request_pending config buffer c = elim (buffer_get_field buffer) [
    | none ↦ usage
    | some cur ↦ elim (c.cache_tree (get_abs_path config (field_of cur))) [
      | none ↦ no_such_entry
      | some ci ↦ pending_values ci.values
    ]
  ]

  abbrev pub wipe_found : List ℕ → Cache → Option Item → Cache
  wipe_found file c none = c
  wipe_found file c (some ci) = put file (some (wipe_ci_values ci)) c

  -- the handler of WROTE, and the section of `queue_thread_main` that takes the values of a file
  unfoldable pub handle_request_wrote : List ℕ → Cache → Cache
  handle_request_wrote file c = wipe_found file c (c.cache_tree file)

  abbrev pub take_values : List ℕ → Cache → Cache
  take_values file c = wipe_found file c (c.cache_tree file)

  -- `queue_thread_main` behind the write
  abbrev pub note_written : List ℕ → Cache → Cache
  note_written file c = journal_write false (wrote_out file) c

  -- `flush_old_values` on a file that `tree_callback_flush` has found untouched for long: only one that
  -- no values wait for is removed, and the journal is not told.
  unfoldable pub remove_idle : List ℕ → Cache → Cache
  remove_idle file c = elim (c.cache_tree file) [
    | none ↦ c
    | some ci ↦ if length ci.values == 0 then put file none c else c
  ]

  -- `journal_replay`: each entry goes to its handler, with a zero byte for the line end
  unfoldable pub replay_entry : Config → Entry → Cache → Cache
  unfolding handle_request_update handle_request_forget handle_request_wrote
  replay_entry config (updated buffer) c = (handle_request_update config true buffer c).0
  replay_entry config (forgotten file) c =
      (handle_request_forget config true (file ++ (0 ∷ [])) c).0
  replay_entry config (wrote_out file) c = handle_request_wrote file c

  unfoldable pub journal_replay : Config → List Entry → Cache → Cache
  unfolding replay_entry
  journal_replay config [] c = c
  journal_replay config (e ∷ l) c = journal_replay config l (replay_entry config e c)
