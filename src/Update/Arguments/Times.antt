-- ===== src/Update/Arguments/Times.antt =====
-- The times of the updates that `get_time_from_reading` (rrdtool-1.4.5/src/rrd_update.c) lets
-- through.
use native.Mathlib.Decide.{dec_lt}
use administracion_servicios.Prelude.{
  Bool-cases, sym, ℕ, ◌<◌, ◌≡◌, ◌⊎◌, inl, inr, refl, Bool, ◌&&◌, ◌||◌, Option, none, some, List, [],
  ◌∷◌, ltb, leb, ◌==◌, if◌then◌else◌, arith,
}
use administracion_servicios.Double.{Double}
use administracion_servicios.Rrd.{LiveHead}
use administracion_servicios.Update.Arguments.{
  Clock, time_read, later_than, checked, get_time_from_reading,
}

-- earlier, by the second and then by the microsecond
abbrev pub IsBefore : LiveHead → LiveHead → Type 0
IsBefore a b =
    (a.last_up < b.last_up) ⊎ ((a.last_up ≡ b.last_up) × (a.last_up_usec < b.last_up_usec))

abbrev pub AllLater : LiveHead → List LiveHead → Type 0
AllLater a [] = Unit
AllLater a (b ∷ bs) = IsBefore a b × AllLater a bs

abbrev pub Increasing : List LiveHead → Type 0
Increasing [] = Unit
Increasing (a ∷ as') = AllLater a as' × Increasing as'

IsBefore-trans : (a b c : LiveHead) → IsBefore a b → IsBefore b c → IsBefore a c
IsBefore-trans a b c (inl p) (inl q) = inl (omega (arith, p, q))
IsBefore-trans a b c (inl p) (inr (q, r)) = inl (omega (arith, p, q))
IsBefore-trans a b c (inr (p, r)) (inl q) = inl (omega (arith, p, q))
IsBefore-trans a b c (inr (p, r)) (inr (q, s)) = inr (omega (arith, p, q), omega (arith, r, s))

AllLater-trans :
    (a b : LiveHead) (cs : List LiveHead) → IsBefore a b → AllLater b cs → AllLater a cs
AllLater-trans a b [] p q = tt
AllLater-trans a b (c ∷ cs) p (q, qs) = (IsBefore-trans a b c p q, AllLater-trans a b cs p qs)

module _ (F : Double) where
  later_than-IsBefore :
      (h g : LiveHead) (sec usec : ℕ) → later_than F h (sec, usec) ≡ some g → IsBefore h g
  later_than-IsBefore h g sec usec e =
      elim (Bool-cases (ltb sec h.last_up || (sec == h.last_up && leb usec h.last_up_usec))) [
        | inl b ↦ refused (rw b at e)
        | inr b ↦
            let f : some (record { last_up = sec; last_up_usec = usec }) ≡ some g = rw b at e in
            let q : record { last_up = sec; last_up_usec = usec } ≡ g = cc in
            rw (sym q) (elim (dec_lt h.last_up sec) [
              | yes p ↦ inl p
              | no p ↦ inr (ground (arith, b, p), ground (arith, b, p))
            ])
      ]
    where
      refused : {A : Type 0} → none ≡ some g → A
      refused e = cc

  -- the times that an update with several arguments keeps: it stops at the first one refused
  abbrev pub kept : ℕ → List (Clock F × Bool × List ℕ) → LiveHead → List LiveHead
  kept version [] h = []
  kept version ((k, b, time) ∷ args) h = elim (get_time_from_reading F k b time version h) [
    | none ↦ []
    | some g ↦ g ∷ kept version args g
  ]

  get_time-IsBefore :
      (k : Clock F) (b : Bool) (time : List ℕ) (version : ℕ) (h g : LiveHead)
      → get_time_from_reading F k b time version h ≡ some g
      → IsBefore h g
  unfolding get_time_from_reading
  get_time-IsBefore k b time version h g e = read (time_read F k b time) e
    where
      read : (o : Option (ℕ × ℕ)) → checked F h version o ≡ some g → IsBefore h g
      read none e = cc
      read (some (sec, usec)) e = later_than-IsBefore h g sec (if ltb version 3 then 0 else usec) e

  -- Whatever the arguments of an update say, and however the clock moves between them, the times
  -- that are let through increase strictly, from the last update before on.
  pub get_time_from_reading-Increasing :
      (version : ℕ) (args : List (Clock F × Bool × List ℕ)) (h : LiveHead)
      → Increasing (h ∷ kept version args h)
  get_time_from_reading-Increasing version [] h = (tt, tt)
  get_time_from_reading-Increasing version ((k, b, time) ∷ args) h =
      go (λ g. get_time_from_reading-Increasing version args g)
        (get_time_from_reading F k b time version h) refl
    where
      go :
          ((g : LiveHead) → Increasing (g ∷ kept version args g))
          → (o : Option LiveHead) → get_time_from_reading F k b time version h ≡ o
          → Increasing (h ∷ elim o [ none ↦ [] | some g ↦ g ∷ kept version args g ])
      go ih none e = (tt, tt)
      go ih (some g) e =
          let p = get_time-IsBefore k b time version h g e in
          let (later, rest) = ih g in
          ((p, AllLater-trans h g (kept version args g) p later), (later, rest))
