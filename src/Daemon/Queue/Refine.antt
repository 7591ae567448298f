-- ===== src/Daemon/Queue/Refine.antt =====
-- The linked write queue of rrdtool-1.4.5/src/rrd_daemon.c holds a list of items, and its
-- operations are operations on that list.
use administracion_servicios.Prelude.{
  ℕ, suc, ◌≡◌, ◌∙◌, refl, inl, inr, true, false, Bool-cases, none, some, List, [], ◌∷◌, ◌++◌, arith,
  ◌==◌, if◌then◌else◌, length, length-append, head?,
}
use administracion_servicios.Daemon.Queue.{
  Store, QueueSide, head, tail, remove_from_queue, enqueue_cache_item, link_head, link_tail,
  mark_queued, is_head, unlinked, counted_down,
}
use administracion_servicios.Daemon.Queue.Lists.{
  contains, next_in, prev_in, last_or, remove, NoDup, next_in-remove, prev_in-remove, head-remove,
  last-remove, contains-remove, NoDup-remove, length-remove, remove-absent, prev_in-head,
  last-ne-none, last_or-absent, next_in-absent, prev_in-absent, next_in-append, prev_in-append,
  last-append, contains-append, NoDup-append,
}

-- The store holds the items of `xs`, in this order from the head, and no others: the links of every
-- item, the flags and the count agree with the list.
pub record IsQueue (s : Store) (xs : List ℕ) : Type 0 where
  pub heads : s.cache_queue_head ≡ head? xs
  pub tails : s.cache_queue_tail ≡ last_or none xs
  pub nexts : (j : ℕ) → (s.item j).next ≡ next_in xs j
  pub prevs : (j : ℕ) → (s.item j).prev ≡ prev_in none xs j
  pub flags : (j : ℕ) → (s.item j).in_queue ≡ contains xs j
  pub no_dup : NoDup xs
  pub count : s.stats_queue_length ≡ length xs

-- The values of the items are left alone.
abbrev pub SameValues : Store → Store → Type 0
SameValues s t = (j : ℕ) → (t.item j).values_num ≡ (s.item j).values_num

module _ (s : Store) (xs : List ℕ) (ci : ℕ) (q : IsQueue s xs) (h : contains xs ci ≡ true) where
  unlinked-next : (j : ℕ) → ((unlinked ci s).item j).next ≡ next_in (remove ci xs) j
  unlinked-next j =
      ground
        (arith, q.nexts ci, q.nexts j, q.prevs ci, q.prevs j, next_in-remove xs ci q.no_dup h j)

  unlinked-prev : (j : ℕ) → ((unlinked ci s).item j).prev ≡ prev_in none (remove ci xs) j
  unlinked-prev j =
      ground (
        arith,
        q.nexts ci,
        q.nexts j,
        q.prevs ci,
        q.prevs j,
        prev_in-remove none xs ci j q.no_dup h,
      )

  unlinked-flag : (j : ℕ) → ((unlinked ci s).item j).in_queue ≡ contains (remove ci xs) j
  unlinked-flag j = ground (arith, q.flags j, contains-remove xs ci j q.no_dup)

  unlinked-head : (unlinked ci s).cache_queue_head ≡ head? (remove ci xs)
  unlinked-head = ground (arith, q.heads, q.nexts ci, q.prevs ci, head-remove none xs ci h)

  unlinked-tail : (unlinked ci s).cache_queue_tail ≡ last_or none (remove ci xs)
  unlinked-tail = ground (arith, q.tails, q.nexts ci, q.prevs ci, last-remove none xs ci h)

  unlinked-values : SameValues s (unlinked ci s)
  unlinked-values j = ground (arith)

  unlinked-count : (unlinked ci s).stats_queue_length ≡ suc (length (remove ci xs))
  unlinked-count = ground (arith, q.count, length-remove xs ci h)

  remove_queued :
      (remove_from_queue ci s ≡ some (counted_down (unlinked ci s)))
      × IsQueue (counted_down (unlinked ci s)) (remove ci xs)
      × SameValues s (counted_down (unlinked ci s))
  unfolding remove_from_queue
  remove_queued = (
    ground (arith, q.flags ci, unlinked-count),
    record {
      heads = unlinked-head;
      tails = unlinked-tail;
      nexts = unlinked-next;
      prevs = unlinked-prev;
      flags = unlinked-flag;
      no_dup = NoDup-remove xs ci q.no_dup;
      count = omega (arith, unlinked-count);
    },
    unlinked-values,
  )

-- On a store that holds a list, `remove_from_queue` succeeds, its `assert` included, and leaves a
-- store that holds the list without the item, in the same order; an item that is not queued
-- changes nothing.
pub remove_from_queue-refines :
    (s : Store) (xs : List ℕ) (ci : ℕ)
    → IsQueue s xs
    → (t : Store) × (remove_from_queue ci s ≡ some t) × IsQueue t (remove ci xs) × SameValues s t
unfolding remove_from_queue
remove_from_queue-refines s xs ci q = elim (Bool-cases (contains xs ci)) [
  | inl h ↦ let (a, b, c) = remove_queued s xs ci q h in (counted_down (unlinked ci s), a, b, c)
  | inr h ↦ (s, ground (arith, h, q.flags ci), rw (remove-absent xs ci h) q, λ j. refl)
]

-- An item put in front of a list that does not have it.
module _ (s : Store) (xs : List ℕ) (ci : ℕ) (q : IsQueue s xs) (h : contains xs ci ≡ false) where
  link_head-IsQueue : IsQueue (mark_queued ci (link_head ci s)) (ci ∷ xs)
  link_head-IsQueue = record {
    heads = ground (arith, q.heads, q.tails);
    tails = tails xs q.heads q.tails;
    nexts = λ j. ground (arith, q.heads, q.tails, q.nexts j);
    prevs = λ j. ground (arith, q.heads, q.tails, q.prevs j, prev_in-head (some ci) xs j);
    flags = λ j. ground (arith, q.heads, q.tails, q.flags j);
    no_dup = (h, q.no_dup);
    count = ground (arith, q.heads, q.tails, q.count);
  }
    where
      tails :
          (ys : List ℕ)
          → s.cache_queue_head ≡ head? ys
          → s.cache_queue_tail ≡ last_or none ys
          → (mark_queued ci (link_head ci s)).cache_queue_tail ≡ last_or (some ci) ys
      tails [] a b = ground (arith, a, b)
      tails (y ∷ ys) a b = ground (arith, a, b, last-ne-none y ys)

  link_head-values : SameValues s (mark_queued ci (link_head ci s))
  link_head-values j = ground (arith, q.heads, q.tails)

  link_tail-IsQueue : IsQueue (mark_queued ci (link_tail ci s)) (xs ++ (ci ∷ []))
  link_tail-IsQueue = record {
    heads = heads xs q.heads q.tails;
    tails = ground (arith, q.tails, last-append none xs ci);
    nexts = λ j. ground (
      arith,
      q.tails,
      q.nexts j,
      next_in-append none xs ci j q.no_dup h refl,
      q.nexts ci,
      next_in-absent xs ci h,
      last_or-absent xs ci h,
    );
    prevs = λ j.
        ground (arith, q.tails, q.prevs j, prev_in-append none xs ci j h, last_or-absent xs ci h);
    flags =
        λ j. ground (arith, q.tails, q.flags j, contains-append xs ci j, last_or-absent xs ci h);
    no_dup = NoDup-append xs ci q.no_dup h;
    count = ground (arith, q.tails, q.count, length-append xs (ci ∷ []));
  }
    where
      heads :
          (ys : List ℕ)
          → s.cache_queue_head ≡ head? ys
          → s.cache_queue_tail ≡ last_or none ys
          → (mark_queued ci (link_tail ci s)).cache_queue_head ≡ head? (ys ++ (ci ∷ []))
      heads [] a b = ground (arith, a, b)
      heads (y ∷ ys) a b = ground (arith, a, b, last-ne-none y ys)

  link_tail-values : SameValues s (mark_queued ci (link_tail ci s))
  link_tail-values j = ground (arith, q.heads, q.tails)

-- what `enqueue_cache_item` is to do to the list: nothing for an item with no values; at the head
-- the item comes to the front, wherever it was; at the tail it comes to the end, unless it is queued
abbrev pub enqueued : ℕ → QueueSide → ℕ → List ℕ → List ℕ
enqueued ci head n xs = if n == 0 then xs else ci ∷ remove ci xs
enqueued ci tail n xs = if n == 0 then xs else if contains xs ci then xs else xs ++ (ci ∷ [])

module _ (s : Store) (xs : List ℕ) (ci : ℕ) (q : IsQueue s xs) where
  already_head : (ys : List ℕ) → is_head (head? ys) ci ≡ true → ci ∷ remove ci ys ≡ ys
  already_head [] h = cc
  already_head (y ∷ ys) h = ground (arith, h)

  to_head :
      ((s.item ci).values_num == 0) ≡ false
      → (t : Store) × (enqueue_cache_item ci head s ≡ some t)
        × IsQueue t (ci ∷ remove ci xs)
        × SameValues s t
  unfolding enqueue_cache_item
  to_head v = elim (Bool-cases (is_head s.cache_queue_head ci)) [
    | inl e ↦ (s, rw (v, e) refl, rw (already_head xs (rw q.heads at e)) q, λ j. refl)
    | inr e ↦
        let (t, r, q', same) = remove_from_queue-refines s xs ci q in
        let gone : contains (remove ci xs) ci ≡ false =
          ground (arith, contains-remove xs ci ci q.no_dup) in
        (
          mark_queued ci (link_head ci t),
          ground (arith, v, e, r),
          link_head-IsQueue t (remove ci xs) ci q' gone,
          λ j. link_head-values t (remove ci xs) ci q' gone j ∙ same j,
        )
  ]

  to_tail :
      ((s.item ci).values_num == 0) ≡ false
      → (t : Store) × (enqueue_cache_item ci tail s ≡ some t)
        × IsQueue t (if contains xs ci then xs else xs ++ (ci ∷ []))
        × SameValues s t
  unfolding enqueue_cache_item
  to_tail v = elim (Bool-cases (contains xs ci)) [
    | inl h ↦ (s, ground (arith, v, h, q.flags ci), rw h q, λ j. refl)
    | inr h ↦ (
      mark_queued ci (link_tail ci s),
      ground (
        arith,
        v,
        h,
        q.flags ci,
        q.nexts ci,
        q.prevs ci,
        next_in-absent xs ci h,
        prev_in-absent none xs ci h,
      ),
      rw h (link_tail-IsQueue s xs ci q h),
      link_tail-values s xs ci q h,
    )
  ]

-- On a store that holds a list, `enqueue_cache_item` succeeds, its `assert`s included, and leaves a
-- store that holds the list that `enqueued` gives, on every branch.
pub enqueue_cache_item-refines :
    (s : Store) (xs : List ℕ) (ci : ℕ) (side : QueueSide)
    → IsQueue s xs
    → (t : Store) × (enqueue_cache_item ci side s ≡ some t)
      × IsQueue t (enqueued ci side (s.item ci).values_num xs)
      × SameValues s t
unfolding enqueue_cache_item
enqueue_cache_item-refines s xs ci head q = elim (Bool-cases ((s.item ci).values_num == 0)) [
  | inl v ↦ (s, rw v refl, rw v q, λ j. refl)
  | inr v ↦ let (t, a, b, c) = to_head s xs ci q v in (t, a, rw v b, c)
]
enqueue_cache_item-refines s xs ci tail q = elim (Bool-cases ((s.item ci).values_num == 0)) [
  | inl v ↦ (s, rw v refl, rw v q, λ j. refl)
  | inr v ↦ let (t, a, b, c) = to_tail s xs ci q v in (t, a, rw v b, c)
]
