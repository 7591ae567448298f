-- ===== src/Daemon/Cache/Values.antt =====
-- The values that an UPDATE of rrdtool-1.4.5/src/rrd_daemon.c puts into the cache.
use mathlib.Core.Path.{subst}
use mathlib.Core.List.{append-nil, append_assoc}
use administracion_servicios.Prelude.{
  ℕ, zero, suc, ◌+◌, ◌-◌, ◌≤◌, ◌<◌, ◌≡◌, refl, ◌∙◌, ap, sym, inl, inr, Bool, true, false, not,
  Option, none, some, List, [], ◌∷◌, ◌++◌, if◌then◌else◌, leb, ltb, ◌==◌, ◌||◌, length, length-drop,
  length-set, get_or, Bool-cases, Option-cases, arith,
}
use administracion_servicios.Prelude.Int.{ℤ, ltb_ℤ}
use administracion_servicios.Protocol.{space, backslash, Cursor, field_loop, buffer_get_field}
use administracion_servicios.Daemon.Cache.{
  Item, Env, Answer, none_updated, no_timestamp, illegal_time, enqueued, field_of, rest_of,
  stamp_of, answer_for, accept, value_loop,
}

-- What `buffer_get_field` finds lies in a buffer of the same length, and a byte at least is used.
data Used (pos size : ℕ) : Option Cursor → Type 0 where
  nothing : Used pos size none
  used : {c : Cursor} → pos < c.buffer_pos → length c.buf ≡ size → Used pos size (some c)

Used-if :
    {p n : ℕ} (b : Bool) {x y : Option Cursor}
    → Used p n x
    → Used p n y
    → Used p n (if b then x else y)
Used-if true x y = x
Used-if false x y = y

Used-later : {p q n m : ℕ} {o : Option Cursor} → p < q → n ≡ m → Used q n o → Used p m o
Used-later l e nothing = nothing
Used-later l e (used h k) = used (omega arith) (k ∙ e)

field_loop-Used : (fuel : ℕ) (s : Cursor) → Used s.buffer_pos (length s.buf) (field_loop fuel s)
unfolding field_loop
field_loop-Used zero s = nothing
field_loop-Used (suc fuel) s =
    let c = get_or s.buf s.buffer_pos 0 in
    let next = get_or s.buf (s.buffer_pos + 1) 0 in
    Used-if (ltb s.buffer_pos (length s.buf))
      (Used-if (c == space || c == 0) (used (omega arith) (length-set s.buf s.field_size 0)) (
        Used-if (c == backslash)
          (Used-if (leb (length s.buf - 1) s.buffer_pos) nothing (
            Used-later (omega arith) (length-set s.buf s.field_size next) (field_loop-Used fuel _)))
          (Used-later (omega arith) (length-set s.buf s.field_size c) (field_loop-Used fuel _))))
      nothing

Used-bytes :
    (p n : ℕ) (o : Option Cursor) (c : Cursor)
    → Used p n o
    → o ≡ some c
    → (p < c.buffer_pos) × (length c.buf ≡ n)
Used-bytes p n none c h e = cc
Used-bytes p n (some d) c (used h k) e =
    let same : d ≡ c = cc e in
    (
      subst (λ (x : Cursor). p < x.buffer_pos) same h,
      subst (λ (x : Cursor). length x.buf ≡ n) same k,
    )

buffer_get_field-Used : (buffer : List ℕ) → Used 0 (length buffer) (buffer_get_field buffer)
unfolding buffer_get_field
buffer_get_field-Used buffer =
    Used-if (leb (length buffer) 0) nothing (
      field_loop-Used (length buffer + 1) (record { buf = buffer; buffer_pos = 0; field_size = 0 }))

-- what is left behind a field is shorter
rest_shorter :
    (buffer : List ℕ) (c : Cursor)
    → buffer_get_field buffer ≡ some c
    → length (rest_of c) < length buffer
rest_shorter buffer c e =
    let (h, k) =
      Used-bytes 0 (length buffer) (buffer_get_field buffer) c (buffer_get_field-Used buffer) e in
    let l = some_byte buffer c e in omega (arith, length-drop c.buffer_pos c.buf)
  where
    some_byte : (b : List ℕ) (c : Cursor) → buffer_get_field b ≡ some c → 0 < length b
    some_byte [] c e = absurd (none-ne c e)
      where
        none-ne : (c : Cursor) → buffer_get_field [] ≡ some c → ⊥
        none-ne c e = unfold buffer_get_field in cc e
    some_byte (x ∷ b) c e = omega arith

module _ (env : Env) where
  -- Each value carries its time, and the times increase from the one before.
  abbrev pub Increasing : List (List ℕ) → ℤ → ℤ → Type 0
  Increasing [] a b = a ≡ b
  Increasing (v ∷ vs) a b =
      (t : ℤ) × (stamp_of env (env.strtol v) ≡ some t) × (ltb_ℤ a t ≡ true) × Increasing vs t b

  -- the number of values that a response tells of
  abbrev pub Counts : ℕ → Answer → Type 0
  Counts k none_updated = k ≡ 0
  Counts k (enqueued n) = k ≡ n
  Counts k _ = Unit {0}

  abbrev pub Accepted : ℕ → Item → Item × Answer → Type 0
  Accepted n ci (ci', answer) =
      (vs : List (List ℕ)) × (ci'.values ≡ ci.values ++ vs)
      × Increasing vs ci.last_update_stamp ci'.last_update_stamp
      × Counts (n + length vs) answer

  answer_for-Counts : (n : ℕ) → Counts (n + 0) (answer_for env n)
  answer_for-Counts zero = omega arith
  answer_for-Counts (suc n) = omega arith

  -- one round
  module _ (fuel : ℕ) (buffer : List ℕ) (n : ℕ) (ci : Item) where
    round_none :
        buffer_get_field buffer ≡ none
        → value_loop env (suc fuel) buffer n ci ≡ (ci, answer_for env n)
    unfolding value_loop
    round_none e = rw (e, value_loop) refl

    module _ (cur : Cursor) (e : buffer_get_field buffer ≡ some cur) where
      round_no_stamp :
          stamp_of env (env.strtol (field_of cur)) ≡ none
          → value_loop env (suc fuel) buffer n ci ≡ (ci, no_timestamp (field_of cur))
      unfolding value_loop
      round_no_stamp s = rw (e, s, value_loop) refl

      round_stamp :
          (t : ℤ)
          → stamp_of env (env.strtol (field_of cur)) ≡ some t
          → value_loop env (suc fuel) buffer n ci ≡ (
              if not (ltb_ℤ ci.last_update_stamp t)
              then (ci, illegal_time t ci.last_update_stamp)
              else value_loop env fuel (rest_of cur) (n + 1) (accept env (field_of cur) t ci))
      unfolding value_loop
      round_stamp t s = rw (e, s, value_loop) refl

  none-Accepted : (n : ℕ) (ci : Item) (a : Answer) → Counts (n + 0) a → Accepted n ci (ci, a)
  none-Accepted n ci a k = ([], sym (append-nil ci.values), refl, k)

  one-Accepted :
      (n : ℕ) (ci : Item) (v : List ℕ) (t : ℤ) (r : Item × Answer)
      → stamp_of env (env.strtol v) ≡ some t
      → ltb_ℤ ci.last_update_stamp t ≡ true
      → Accepted (n + 1) (accept env v t ci) r
      → Accepted n ci r
  one-Accepted n ci v t (ci', a) s l (vs, e, inc, k) = (
    v ∷ vs,
    e ∙ append_assoc ci.values (v ∷ []) vs,
    (t, s, l, inc),
    subst (λ (j : ℕ). Counts j a) (omega arith) k,
  )

  -- Of the values of an UPDATE, those that are accepted are put behind the ones that wait, in their
  -- order. Each of them carries its time, the times increase from the last one accepted before, and
  -- the last of them is the item's new last time. A response that tells of a number of values tells
  -- that of the accepted ones, and "No values updated" is said only where there is none.
  pub value_loop-Accepted :
      (fuel : ℕ) (buffer : List ℕ) (n : ℕ) (ci : Item)
      → Accepted n ci (value_loop env fuel buffer n ci)
  value_loop-Accepted zero buffer n ci =
      unfold value_loop in none-Accepted n ci (answer_for env n) (answer_for-Counts n)
  value_loop-Accepted (suc fuel) buffer n ci = elim (Option-cases (buffer_get_field buffer)) [
    | inl e ↦
        rw (round_none fuel buffer n ci e)
          (none-Accepted n ci (answer_for env n) (answer_for-Counts n))
    | inr (cur, e) ↦ elim (Option-cases (stamp_of env (env.strtol (field_of cur)))) [
      | inl s ↦
          rw (round_no_stamp fuel buffer n ci cur e s)
            (none-Accepted n ci (no_timestamp (field_of cur)) tt)
      | inr (t, s) ↦
          rw (round_stamp fuel buffer n ci cur e t s)
            (elim (Bool-cases (ltb_ℤ ci.last_update_stamp t)) [
              | inl l ↦ rw l (
                  one-Accepted n ci (field_of cur) t _ s l (
                    value_loop-Accepted fuel (rest_of cur) (n + 1)
                      (accept env (field_of cur) t ci)))
              | inr l ↦ rw l (none-Accepted n ci (illegal_time t ci.last_update_stamp) tt)
            ])
    ]
  ]

  -- Fuel for the bytes of the buffer is enough: one round more makes no difference.
  pub value_loop_enough :
      (fuel : ℕ) (buffer : List ℕ) (n : ℕ) (ci : Item)
      → length buffer ≤ fuel
      → value_loop env (suc fuel) buffer n ci ≡ value_loop env fuel buffer n ci
  value_loop_enough zero [] n ci l = unfold value_loop in unfold buffer_get_field in refl
  value_loop_enough zero (b ∷ buffer) n ci l = absurd (omega arith)
  value_loop_enough (suc fuel) buffer n ci l = elim (Option-cases (buffer_get_field buffer)) [
    | inl e ↦ round_none (suc fuel) buffer n ci e ∙ sym (round_none fuel buffer n ci e)
    | inr (cur, e) ↦ elim (Option-cases (stamp_of env (env.strtol (field_of cur)))) [
      | inl s ↦
          round_no_stamp (suc fuel) buffer n ci cur e s
          ∙ sym (round_no_stamp fuel buffer n ci cur e s)
      | inr (t, s) ↦
          round_stamp (suc fuel) buffer n ci cur e t s
          ∙ ap
              (λ (r : Item × Answer).
                if not (ltb_ℤ ci.last_update_stamp t)
                then (ci, illegal_time t ci.last_update_stamp)
                else r)
              (value_loop_enough fuel (rest_of cur) (n + 1) (accept env (field_of cur) t ci)
                (omega (arith, rest_shorter buffer cur e)))
          ∙ sym (round_stamp fuel buffer n ci cur e t s)
    ]
  ]
