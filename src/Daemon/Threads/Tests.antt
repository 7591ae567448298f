-- ===== src/Daemon/Threads/Tests.antt =====
-- A run of the threads of rrdtool-1.4.5/src/rrd_daemon.c on a queue with one item: values for
-- another item arrive, both are flushed and written.
use administracion_servicios.Prelude.{
  ℕ, ◌≡◌, refl, true, false, some, none, List, [], ◌∷◌, ◌==◌, if◌then◌else◌, arith,
}
use administracion_servicios.Daemon.Queue.{Store, CacheItem}
use administracion_servicios.Daemon.Threads.{Section, accept, flush, take, wrote, run}
use administracion_servicios.Daemon.Threads.Safety.{IsSafe, run-IsSafe}

abbrev queued : CacheItem
queued = record { values_num = 1; in_queue = true; prev = none; next = none }

abbrev idle : CacheItem
idle = record { values_num = 0; in_queue = false; prev = none; next = none }

abbrev one_queued : Store
one_queued = record {
  item = λ j. if j == 1 then queued else idle;
  cache_queue_head = some 1;
  cache_queue_tail = some 1;
  stats_queue_length = 1;
}

one_queued-IsSafe : IsSafe one_queued (1 ∷ [])
one_queued-IsSafe = record {
  queue = record {
    heads = refl;
    tails = refl;
    nexts = λ j. ground arith;
    prevs = λ j. ground arith;
    flags = λ j. ground arith;
    no_dup = (refl, tt);
    count = refl;
  };
  filled = λ j h. ground (arith, h);
}

abbrev sections : List Section
sections = accept 2 3 true ∷ flush 2 ∷ take ∷ wrote 1 ∷ take ∷ []

run-IsSafe_example : (t : Store) × (run sections one_queued ≡ some t) × (ys : List ℕ) × IsSafe t ys
run-IsSafe_example = run-IsSafe sections one_queued (1 ∷ []) one_queued-IsSafe
