-- ===== src/Forecast/Fifo/Refine.antt =====
-- The ring of rrdtool-1.4.5/src/rrd_hw.c is a queue, first in, first out.
use native.Mathlib.Nat.{mod-eq_of_lt, mod-add-mod, add-mod_right, mod-lt}
use native.Mathlib.Decide.{dec_lt}
use administracion_servicios.Prelude.{
  ℕ, zero, suc, ◌+◌, ◌-◌, ◌%◌, ◌<◌, ◌≤◌, ◌≡◌, ◌≢◌, refl, sym, ap, ◌∙◌, true, List, [], ◌∷◌, ◌++◌,
  ◌==◌, length, get_or, set, length-set, length-append, get_or-set_self, get_or-set_ne, arith,
}
use administracion_servicios.Forecast.Fifo.{
  FifoQueue, queue_alloc, queue_isempty, queue_push, queue_pop,
}

module _ {V : Type 0} (d : V) where
  -- the places from `p` on hold the values of a list
  abbrev pub Holds : List V → ℕ → ℕ → List V → Type 0
  Holds queue capacity p [] = Unit
  Holds queue capacity p (x ∷ xs) =
      (get_or queue p d ≡ x) × Holds queue capacity ((p + 1) % capacity) xs

  -- The queue stands for a list, its front first.
  pub record Represents (q : FifoQueue V) (xs : List V) : Type 0 where
    pub some_room : 0 < q.capacity
    pub all_places : length q.queue ≡ q.capacity
    pub within : length xs ≤ q.capacity
    pub end_at : q.tail ≡ (q.head % q.capacity + length xs) % q.capacity
    pub holds : Holds q.queue q.capacity (q.head % q.capacity) xs

  not_back : (c p m : ℕ) → p < c → 0 < m → m < c → (p + m) % c ≢ p
  not_back c p m l k n e = elim (dec_lt (p + m) c) [
    | yes h ↦ let f : (p + m) % c ≡ p + m = mod-eq_of_lt h in absurd (omega (arith, e, f))
    | no h ↦
        let s : p + m ≡ p + m - c + c = omega (arith, h) in
        let f : (p + m) % c ≡ p + m - c =
          ap (λ z. z % c) s ∙ add-mod_right (p + m - c) c ∙ mod-eq_of_lt (omega (arith, h)) in
        absurd (omega (arith, e, f, h))
  ]

  one_on : (c p m : ℕ) → ((p + 1) % c + m) % c ≡ (p + suc m) % c
  one_on c p m =
      let e : p + 1 + m ≡ p + suc m = omega arith in mod-add-mod (p + 1) c m ∙ ap (λ z. z % c) e

  Holds-set :
      (queue : List V) (c p m : ℕ) (xs : List V) (v : V)
      → p < c
      → length xs ≤ m
      → m < c
      → Holds queue c p xs
      → Holds (set queue ((p + m) % c) v) c p xs
  Holds-set queue c p m [] v l k n h = tt
  Holds-set queue c p zero (x ∷ xs) v l k n h = absurd (omega arith)
  Holds-set queue c p (suc m) (x ∷ xs) v l k n (g, h) =
      let ih =
        Holds-set queue c ((p + 1) % c) m xs v (mod-lt (p + 1) (omega arith)) (omega arith)
          (omega arith) h in
      (
        get_or-set_ne queue ((p + suc m) % c) p v d (not_back c p (suc m) l (omega arith) n) ∙ g,
        rw (one_on c p m) at ih,
      )

  Holds-snoc :
      (queue : List V) (c p : ℕ) (xs : List V) (v : V)
      → p < c
      → Holds queue c p xs
      → get_or queue ((p + length xs) % c) d ≡ v
      → Holds queue c p (xs ++ (v ∷ []))
  Holds-snoc queue c p [] v l h g =
      let z : p + 0 ≡ p = omega arith in
      let e : (p + 0) % c ≡ p = ap (λ x. x % c) z ∙ mod-eq_of_lt l in (rw e at g, tt)
  Holds-snoc queue c p (x ∷ xs) v l (f, h) g = (
    f,
    Holds-snoc queue c ((p + 1) % c) xs v (mod-lt (p + 1) (omega arith)) h
        (rw (one_on c p (length xs)) g),
  )

  back_at_start : (n : ℕ) → 0 < n → 0 ≡ (n % n + 0) % n
  back_at_start n l =
      let z : n ≡ 0 + n = omega arith in
      let s : n % n ≡ 0 = ap (λ x. x % n) z ∙ add-mod_right 0 n ∙ mod-eq_of_lt l in
      let f : 0 % n ≡ 0 = mod-eq_of_lt l in sym (rw s f)

  empty_only :
      (p c t : ℕ) (xs : List V)
      → p < c
      → length xs < c
      → t ≡ (p + length xs) % c
      → ((p == t) ≡ true → xs ≡ []) × (xs ≡ [] → (p == t) ≡ true)
  empty_only p c t [] l k e =
      let z : p + 0 ≡ p = omega arith in
      let f : t ≡ p = e ∙ ap (λ x. x % c) z ∙ mod-eq_of_lt l in (λ h. refl, λ h. ground (arith, f))
  empty_only p c t (x ∷ xs) l k e =
      let n = not_back c p (suc (length xs)) l (omega arith) k in
      (λ h. let f : p ≡ t = ground (arith, h) in absurd (n (sym (f ∙ e))), λ h. cc)

  pushed_end :
      (p c t : ℕ) (xs : List V) (v : V)
      → t ≡ (p + length xs) % c
      → (t + 1) % c ≡ (p + length (xs ++ (v ∷ []))) % c
  pushed_end p c t xs v e =
      let z : p + length xs + 1 ≡ p + length (xs ++ (v ∷ [])) =
        omega (arith, length-append xs (v ∷ [])) in
      ap (λ x. (x + 1) % c) e ∙ mod-add-mod (p + length xs) c 1 ∙ ap (λ x. x % c) z

  pushed_holds :
      (queue : List V) (p c t : ℕ) (xs : List V) (v : V)
      → p < c
      → length queue ≡ c
      → length xs < c
      → t ≡ (p + length xs) % c
      → Holds queue c p xs
      → Holds (set queue t v) c p (xs ++ (v ∷ []))
  pushed_holds queue p c t xs v l m k e h =
      let b = (p + length xs) % c in
      let there : b < length queue =
        omega (arith, m, mod-lt (p + length xs) {m = c} (omega (arith, l))) in
      rw e (
        Holds-snoc (set queue b v) c p xs v l
          (Holds-set queue c p (length xs) xs v l (omega arith) k h)
          (get_or-set_self queue b v d there))

  -- A queue that is allocated with some room is empty. While fewer values are in it than it has
  -- places, `queue_isempty` tells whether there is one, and a value that is pushed goes to the
  -- back; where there is a value, `queue_pop` returns the front one and takes it out.
  pub queue_refines :
      ((memory : List V) → 0 < length memory → Represents (queue_alloc memory) [])
      × ((q : FifoQueue V) (xs : List V) (v : V)
          → Represents q xs
          → length xs < q.capacity
          → ((queue_isempty q ≡ true → xs ≡ []) × (xs ≡ [] → queue_isempty q ≡ true))
            × Represents (queue_push q v) (xs ++ (v ∷ [])))
      × ((q : FifoQueue V) (x : V) (xs : List V)
          → Represents q (x ∷ xs)
          → ((queue_pop d q).0 ≡ x) × Represents (queue_pop d q).1 xs)
  unfolding queue_alloc queue_isempty queue_push queue_pop
  queue_refines = (
    λ memory l. record {
      some_room = l;
      all_places = refl;
      within = omega arith;
      end_at = back_at_start (length memory) l;
      holds = tt;
    },
    λ q xs v r l. (
      empty_only (q.head % q.capacity) q.capacity q.tail xs (mod-lt q.head r.some_room) l r.end_at,
      record {
        some_room = r.some_room;
        all_places = length-set q.queue q.tail v ∙ r.all_places;
        within = omega (arith, l, length-append xs (v ∷ []));
        end_at = pushed_end (q.head % q.capacity) q.capacity q.tail xs v r.end_at;
        holds =
            pushed_holds q.queue (q.head % q.capacity) q.capacity q.tail xs v
              (mod-lt q.head r.some_room) r.all_places l r.end_at r.holds;
      },
    ),
    λ q x xs r. (
      r.holds.0,
      record {
        some_room = r.some_room;
        all_places = r.all_places;
        within = omega (arith, r.within);
        end_at = r.end_at ∙ sym (one_on q.capacity (q.head % q.capacity) (length xs));
        holds = r.holds.1;
      },
    ),
  )
