-- ===== src/Daemon/Queue/Tests.antt =====
-- The write queue of rrdtool-1.4.5/src/rrd_daemon.c with items 1 and 2, each with one value.
use administracion_servicios.Prelude.{
  ◌≡◌, refl, true, false, some, none, [], ◌∷◌, ◌==◌, if◌then◌else◌, arith,
}
use administracion_servicios.Daemon.Queue.{
  Store, CacheItem, head, remove_from_queue, enqueue_cache_item,
}
use administracion_servicios.Daemon.Queue.Refine.{
  IsQueue, SameValues, remove_from_queue-refines, enqueue_cache_item-refines,
}

abbrev first : CacheItem
first = record { values_num = 1; in_queue = true; prev = none; next = some 2 }

abbrev second : CacheItem
second = record { values_num = 1; in_queue = true; prev = some 1; next = none }

abbrev other : CacheItem
other = record { values_num = 1; in_queue = false; prev = none; next = none }

abbrev pub two_queued : Store
two_queued = record {
  item = λ j. if j == 1 then first else if j == 2 then second else other;
  cache_queue_head = some 1;
  cache_queue_tail = some 2;
  stats_queue_length = 2;
}

pub two_queued-IsQueue : IsQueue two_queued (1 ∷ 2 ∷ [])
two_queued-IsQueue = record {
  heads = refl;
  tails = refl;
  nexts = λ j. ground arith;
  prevs = λ j. ground arith;
  flags = λ j. ground arith;
  no_dup = (refl, (refl, tt));
  count = refl;
}

remove_from_queue-refines_example :
    (t : Store) × (remove_from_queue 1 two_queued ≡ some t)
    × IsQueue t (2 ∷ [])
    × SameValues two_queued t
remove_from_queue-refines_example =
    remove_from_queue-refines two_queued (1 ∷ 2 ∷ []) 1 two_queued-IsQueue

enqueue_cache_item-refines_example :
    (t : Store) × (enqueue_cache_item 2 head two_queued ≡ some t)
    × IsQueue t (2 ∷ 1 ∷ [])
    × SameValues two_queued t
enqueue_cache_item-refines_example =
    enqueue_cache_item-refines two_queued (1 ∷ 2 ∷ []) 2 head two_queued-IsQueue
