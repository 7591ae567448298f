-- ===== src/Daemon/Threads/Safety.antt =====
-- No interleaving of the threads of rrdtool-1.4.5/src/rrd_daemon.c breaks the write queue or fails
-- one of its `assert`s.
use administracion_servicios.Prelude.{
  ℕ, ◌+◌, ◌<◌, ◌≡◌, ◌∙◌, sym, refl, inl, inr, Bool, true, false, Option, some, Option-cases, List,
  [], ◌∷◌, arith, ltb, ◌==◌, ◌&&◌, not, if◌then◌else◌, head?,
}
use administracion_servicios.Daemon.Queue.{
  Store, QueueSide, head, tail, remove_from_queue, enqueue_cache_item,
}
use administracion_servicios.Daemon.Queue.Lists.{contains, remove, contains-remove, contains-append}
use administracion_servicios.Daemon.Queue.Refine.{
  IsQueue, enqueued, remove_from_queue-refines, enqueue_cache_item-refines,
}
use administracion_servicios.Daemon.Threads.{
  Section, accept, flush, expire, take, wrote, forget, set_values, take_item, queue_thread_main,
  handle_request_update, run_section, run,
}

-- The store holds a list of items, each of which has values to write.
pub record IsSafe (s : Store) (xs : List ℕ) : Type 0 where
  pub queue : IsQueue s xs
  pub filled : (j : ℕ) → contains xs j ≡ true → 0 < (s.item j).values_num

abbrev pub Succeeds : Option Store → Type 0
Succeeds o = (t : Store) × (o ≡ some t) × (xs : List ℕ) × IsSafe t xs

set_values-IsQueue :
    (ci n : ℕ) (s : Store) (xs : List ℕ) → IsQueue s xs → IsQueue (set_values ci n s) xs
set_values-IsQueue ci n s xs q = record {
  heads = q.heads;
  tails = q.tails;
  nexts = λ j. ground (arith, q.nexts j);
  prevs = λ j. ground (arith, q.prevs j);
  flags = λ j. ground (arith, q.flags j);
  no_dup = q.no_dup;
  count = q.count;
}

enqueue-Succeeds :
    (ci : ℕ) (side : QueueSide) (s : Store) (xs : List ℕ)
    → IsSafe s xs
    → Succeeds (enqueue_cache_item ci side s)
enqueue-Succeeds ci side s xs v =
    let (t, e, q, same) = enqueue_cache_item-refines s xs ci side v.queue in
    (
      t,
      e,
      enqueued ci side (s.item ci).values_num xs,
      record { queue = q; filled = λ j h. rw (same j) (stays side j h) },
    )
  where
    stays :
        (side : QueueSide) (j : ℕ)
        → contains (enqueued ci side (s.item ci).values_num xs) j ≡ true
        → 0 < (s.item j).values_num
    stays head j h = ground (arith, h, v.filled j, contains-remove xs ci j v.queue.no_dup)
    stays tail j h = ground (arith, h, v.filled j, contains-append xs ci j)

-- An item taken out may lose its values.
remove-Succeeds :
    (ci : ℕ) (s : Store) (xs : List ℕ)
    → IsQueue s xs
    → ((j : ℕ) → (ci == j) ≡ false → contains xs j ≡ true → 0 < (s.item j).values_num)
    → Succeeds (remove_from_queue ci s)
remove-Succeeds ci s xs q f =
    let (t, e, q', same) = remove_from_queue-refines s xs ci q in
    (
      t,
      e,
      remove ci xs,
      record {
        queue = q';
        filled = λ j h. rw (same j) (ground (arith, h, f j, contains-remove xs ci j q.no_dup));
      },
    )

wipe-Succeeds :
    (ci : ℕ) (s : Store) (xs : List ℕ)
    → IsSafe s xs
    → Succeeds (remove_from_queue ci (set_values ci 0 s))
wipe-Succeeds ci s xs v =
    remove-Succeeds ci (set_values ci 0 s) xs (set_values-IsQueue ci 0 s xs v.queue)
      (λ j e h. ground (arith, e, v.filled j h))

if_Succeeds :
    (b : Bool) {x y : Option Store} → Succeeds x → Succeeds y → Succeeds (if b then x else y)
if_Succeeds true a c = a
if_Succeeds false a c = c

accepted-IsSafe :
    (ci n : ℕ) (s : Store) (xs : List ℕ)
    → IsSafe s xs
    → IsSafe (set_values ci ((s.item ci).values_num + n) s) xs
accepted-IsSafe ci n s xs v = record {
  queue = set_values-IsQueue ci ((s.item ci).values_num + n) s xs v.queue;
  filled = λ j h. ground (arith, v.filled j h);
}

head-contains : (xs : List ℕ) (ci : ℕ) → head? xs ≡ some ci → contains xs ci ≡ true
head-contains [] ci h = cc
head-contains (x ∷ xs) ci h = ground (arith, h)

take_item-Succeeds :
    (ci : ℕ) (s : Store) (xs : List ℕ)
    → IsSafe s xs
    → s.cache_queue_head ≡ some ci
    → Succeeds (take_item ci s)
unfolding take_item
take_item-Succeeds ci s xs v e =
    let has : ltb 0 (s.item ci).values_num ≡ true =
      ground (arith, v.filled ci (head-contains xs ci (sym v.queue.heads ∙ e))) in
    rw has (wipe-Succeeds ci s xs v)

queue_thread-Succeeds : (s : Store) (xs : List ℕ) → IsSafe s xs → Succeeds (queue_thread_main s)
unfolding queue_thread_main
queue_thread-Succeeds s xs v = elim (Option-cases s.cache_queue_head) [
  | inl e ↦ (s, ground (arith, e), xs, v)
  | inr (ci, e) ↦
      let (t, e', ys, w) = take_item-Succeeds ci s xs v e in (t, ground (arith, e, e'), ys, w)
]

-- Each critical section leaves a safe store, and none of its `assert`s fails.
section-Succeeds :
    (x : Section) (s : Store) (xs : List ℕ) → IsSafe s xs → Succeeds (run_section x s)
unfolding run_section handle_request_update
section-Succeeds (accept ci n due) s xs v =
    let t = set_values ci ((s.item ci).values_num + n) s in
    let w = accepted-IsSafe ci n s xs v in
    if_Succeeds (due && (not (t.item ci).in_queue && ltb 0 (t.item ci).values_num))
      (enqueue-Succeeds ci tail t xs w) (t, refl, xs, w)
section-Succeeds (flush ci) s xs v =
    if_Succeeds (ltb 0 (s.item ci).values_num) (enqueue-Succeeds ci head s xs v) (s, refl, xs, v)
section-Succeeds (expire ci due) s xs v =
    if_Succeeds (s.item ci).in_queue (s, refl, xs, v)
      (if_Succeeds (ltb 0 (s.item ci).values_num && due) (enqueue-Succeeds ci tail s xs v)
        (s, refl, xs, v))
section-Succeeds take s xs v = queue_thread-Succeeds s xs v
section-Succeeds (wrote ci) s xs v = wipe-Succeeds ci s xs v
section-Succeeds (forget ci) s xs v = remove-Succeeds ci s xs v.queue (λ j e h. v.filled j h)

-- Whatever order the threads run their critical sections in, from a store that holds a list of
-- items with values every section succeeds, so that no `assert` of the queue fails, and the store
-- holds such a list at the end.
pub run-IsSafe :
    (sections : List Section) (s : Store) (xs : List ℕ)
    → IsSafe s xs
    → (t : Store) × (run sections s ≡ some t) × (ys : List ℕ) × IsSafe t ys
unfolding run
run-IsSafe [] s xs v = (s, refl, xs, v)
run-IsSafe (x ∷ sections) s xs v =
    let (t, e, ys, w) = section-Succeeds x s xs v in
    let (u, e', zs, w') = run-IsSafe sections t ys w in (u, ground (arith, e, e'), zs, w')
