-- ===== src/Daemon/Threads.antt =====
-- The critical sections in which the threads of rrdtool-1.4.5/src/rrd_daemon.c change the write
-- queue. Each one holds `cache_lock` throughout, so that a run of the daemon is a list of them, in
-- any order that the threads fall into. Tests of the clock are left open: a section has the answer
-- as an argument. A failed `assert` is `none`.
pub mod Safety
mod Tests
use administracion_servicios.Prelude.{
  ℕ, ◌+◌, Bool, true, false, ◌&&◌, not, Option, none, some, List, [], ◌∷◌, ltb, if◌then◌else◌,
}
use administracion_servicios.Daemon.Queue.{
  Store, head, tail, update, remove_from_queue, enqueue_cache_item,
}

-- the sections, each for one item
pub data Section : Type 0 where
  -- `handle_request_update` that has accepted `n` values; `due` is whether the last flush is
  -- `config_write_interval` ago, and false where the request ends in an error
  accept : ℕ → ℕ → Bool → Section
  -- `flush_file`
  flush : ℕ → Section
  -- `tree_callback_flush`; the Bool is whether the item is older than the time-out or the daemon
  -- is shutting down
  expire : ℕ → Bool → Section
  -- `queue_thread_main`, between taking the lock and releasing it for the write
  take : Section
  -- `handle_request_wrote`
  wrote : ℕ → Section
  -- `free_cache_item`, when an item leaves the tree
  forget : ℕ → Section

-- an assignment to `values_num`
abbrev pub set_values : ℕ → ℕ → Store → Store
set_values ci n s = record s { item = update s.item ci (record (s.item ci) { values_num = n }) }

-- the section of `queue_thread_main` for the item at the head: `assert(ci->values_num > 0)`,
-- `wipe_ci_values` and `remove_from_queue`. The array `values` is allocated where `values_num` is
-- positive, so its own `assert` is that one.
unfoldable pub take_item : ℕ → Store → Option Store
take_item ci s =
    if ltb 0 (s.item ci).values_num then remove_from_queue ci (set_values ci 0 s) else none

-- `free_cache_item`, as far as it concerns the queue
abbrev pub free_cache_item : ℕ → Store → Option Store
free_cache_item ci s = remove_from_queue ci s

-- `handle_request_update` from the `assert` that there is an item on
unfoldable pub handle_request_update : ℕ → ℕ → Bool → Store → Option Store
handle_request_update ci n due s =
    let t = set_values ci ((s.item ci).values_num + n) s in
    if due && (not (t.item ci).in_queue && ltb 0 (t.item ci).values_num)
    then enqueue_cache_item ci tail t
    else some t

-- `flush_file`, up to the wait for the write
abbrev pub flush_file : ℕ → Store → Option Store
flush_file ci s = if ltb 0 (s.item ci).values_num then enqueue_cache_item ci head s else some s

abbrev pub tree_callback_flush : ℕ → Bool → Store → Option Store
tree_callback_flush ci due s =
    if (s.item ci).in_queue
    then some s
    else if ltb 0 (s.item ci).values_num && due
    then enqueue_cache_item ci tail s
    else some s

-- the section of `queue_thread_main`, which goes on waiting where the queue is empty
unfoldable pub queue_thread_main : Store → Option Store
queue_thread_main s = elim s.cache_queue_head [ none ↦ some s | some ci ↦ take_item ci s ]

-- `handle_request_wrote`, for a file that is in the tree
abbrev pub handle_request_wrote : ℕ → Store → Option Store
handle_request_wrote ci s = remove_from_queue ci (set_values ci 0 s)

unfoldable pub run_section : Section → Store → Option Store
run_section (accept ci n due) s = handle_request_update ci n due s
run_section (flush ci) s = flush_file ci s
run_section (expire ci due) s = tree_callback_flush ci due s
run_section take s = queue_thread_main s
run_section (wrote ci) s = handle_request_wrote ci s
run_section (forget ci) s = free_cache_item ci s

-- a run of the daemon
unfoldable pub run : List Section → Store → Option Store
run [] s = some s
run (x ∷ xs) s = elim (run_section x s) [ none ↦ none | some t ↦ run xs t ]
