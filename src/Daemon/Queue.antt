-- ===== src/Daemon/Queue.antt =====
-- The write queue of rrdtool-1.4.5/src/rrd_daemon.c: a list of `cache_item_t` linked both ways
-- through `prev` and `next`, between `cache_queue_head` and `cache_queue_tail`. An item is named by
-- a number in place of its address; all items live in one store, and every write through a pointer
-- is a write to the store. The functions run under `cache_lock`, so each is one step. A failed
-- `assert`, which aborts the daemon, is `none`.
pub mod Lists
pub mod Refine
mod Tests
use administracion_servicios.Prelude.{
  ℕ, ◌+◌, ◌-◌, Bool, true, false, not, Option, none, some, ltb, ◌==◌, if◌then◌else◌,
}

-- `cache_item_t`: the fields that the queue uses; `in_queue` is CI_FLAGS_IN_QUEUE in `flags`.
pub record CacheItem : Type 0 where
  pub values_num : ℕ
  pub in_queue : Bool
  pub prev : Option ℕ
  pub next : Option ℕ

pub record Store : Type 0 where
  pub item : ℕ → CacheItem
  pub cache_queue_head : Option ℕ
  pub cache_queue_tail : Option ℕ
  pub stats_queue_length : ℕ

-- `enum queue_side_e`
pub data QueueSide : Type 0 where
  head tail : QueueSide

abbrev pub update : (ℕ → CacheItem) → ℕ → CacheItem → ℕ → CacheItem
update items i x j = if i == j then x else items j

-- assignments `p->next = v` and `p->prev = v`, and to the flag
abbrev pub set_next : ℕ → Option ℕ → Store → Store
set_next i v s = record s { item = update s.item i (record (s.item i) { next = v }) }

abbrev pub set_prev : ℕ → Option ℕ → Store → Store
set_prev i v s = record s { item = update s.item i (record (s.item i) { prev = v }) }

abbrev pub set_in_queue : ℕ → Bool → Store → Store
set_in_queue i v s = record s { item = update s.item i (record (s.item i) { in_queue = v }) }

-- the first `if` of `remove_from_queue`: unlinks the item from the one before it
abbrev pub unlink_before : ℕ → Store → Store
unlink_before ci s = elim (s.item ci).prev [
  | none ↦ record s { cache_queue_head = (s.item ci).next }
  | some p ↦ set_next p (s.item ci).next s
]

-- the second: unlinks it from the one behind it
abbrev pub unlink_behind : ℕ → Store → Store
unlink_behind ci s = elim (s.item ci).next [
  | none ↦ record s { cache_queue_tail = (s.item ci).prev }
  | some n ↦ set_prev n (s.item ci).prev s
]

-- all that `remove_from_queue` does before it counts
abbrev pub unlinked : ℕ → Store → Store
unlinked ci s =
    set_in_queue ci false
      (set_prev ci none (set_next ci none (unlink_behind ci (unlink_before ci s))))

-- `stats_queue_length--`
abbrev pub counted_down : Store → Store
counted_down s = record s { stats_queue_length = s.stats_queue_length - 1 }

-- `remove_from_queue`, for an item that is not NULL
unfoldable pub remove_from_queue : ℕ → Store → Option Store
remove_from_queue ci s =
    if (s.item ci).in_queue
    then (if ltb 0 (unlinked ci s).stats_queue_length
        then some (counted_down (unlinked ci s))
        else none)
    else some s

-- the end of `enqueue_cache_item`, on both sides: the flag and the count
abbrev pub mark_queued : ℕ → Store → Store
mark_queued ci s =
    let t = set_in_queue ci true s in record t { stats_queue_length = t.stats_queue_length + 1 }

-- the insertion at the head, of an item that is not in the queue
abbrev pub link_head : ℕ → Store → Store
link_head ci s =
    let t = set_next ci s.cache_queue_head (set_prev ci none s) in
    let u : Store = elim (t.item ci).next [ none ↦ t | some n ↦ set_prev n (some ci) t ] in
    let w = record u { cache_queue_head = some ci } in
    elim w.cache_queue_tail [ none ↦ record w { cache_queue_tail = some ci } | some _ ↦ w ]

-- the insertion at the tail
abbrev pub link_tail : ℕ → Store → Store
link_tail ci s =
    let t = set_prev ci s.cache_queue_tail s in
    let u : Store = elim t.cache_queue_tail [
      | none ↦ record t { cache_queue_head = some ci }
      | some l ↦ set_next l (some ci) t
    ] in
    record u { cache_queue_tail = some ci }

-- whether `cache_queue_head == ci`
abbrev pub is_head : Option ℕ → ℕ → Bool
is_head none ci = false
is_head (some h) ci = h == ci

abbrev pub is_null : Option ℕ → Bool
is_null none = true
is_null (some _) = false

-- `enqueue_cache_item`, for an item that is not NULL; it returns 0 then.
unfoldable pub enqueue_cache_item : ℕ → QueueSide → Store → Option Store
unfolding remove_from_queue
enqueue_cache_item ci head s =
    if (s.item ci).values_num == 0
    then some s
    else if is_head s.cache_queue_head ci
    then some s
    else elim (remove_from_queue ci s) [
      | none ↦ none
      | some t ↦ some (mark_queued ci (link_head ci t))
    ]
enqueue_cache_item ci tail s =
    if (s.item ci).values_num == 0
    then some s
    else if (s.item ci).in_queue
    then some s
    else if is_null (s.item ci).next
    then (if is_null (s.item ci).prev then some (mark_queued ci (link_tail ci s)) else none)
    else none
