-- ===== src/Forecast/Update/Failures.antt =====
-- When `update_failures` of rrdtool-1.4.5/src/rrd_hw_update.c reports a failure.
use administracion_servicios.Prelude.{
  ℕ, zero, suc, ◌+◌, ◌≤◌, ◌<◌, ◌≡◌, refl, sym, ap, ◌∙◌, true, List, [], ◌∷◌, ◌++◌, ltb, ◌==◌,
  if◌then◌else◌, length, get_or, set, take, length-set, get_or-set_self, get_or-set_ne, take-set,
  take-take, arith,
}
use administracion_servicios.Double.{Double}
use administracion_servicios.Rrd.{CdpPrep}
use administracion_servicios.Update.Rows.{ScratchIdx, primary, secondary}
use administracion_servicios.Forecast.{HwFunctions}
use administracion_servicios.Forecast.Update.{
  HwDef, scratch_of, with_scratch, store, shift, record_violation, violation_at, update_failures,
}

abbrev pub total : List ℕ → ℕ
total [] = 0
total (x ∷ xs) = x + total xs

take_snoc :
    (n : ℕ) (xs : List ℕ) → n < length xs → take (suc n) xs ≡ take n xs ++ (get_or xs n 0 ∷ [])
take_snoc n [] l = absurd (omega arith)
take_snoc zero (x ∷ xs) l = refl
take_snoc (suc n) (x ∷ xs) l = ap (λ t. x ∷ t) (take_snoc n xs (omega arith))

total-snoc : (xs : List ℕ) (y : ℕ) → total (xs ++ (y ∷ [])) ≡ total xs + y
total-snoc [] y = omega arith
total-snoc (x ∷ xs) y = omega (arith, total-snoc xs y)

module _ (F : Double) (f : HwFunctions F) (defs : ℕ → HwDef F) where
  open F use {V, of_ℕ}

  -- the entries of an array from a list, and those of the shifted one
  length-shift : (n : ℕ) (a : List ℕ) (cnt : ℕ) → length (shift F f defs n a cnt).0 ≡ length a
  length-shift zero a cnt = refl
  length-shift (suc zero) a cnt = refl
  length-shift (suc (suc i)) a cnt =
      let b = set a (suc i) (get_or a i 0) in
      length-shift (suc i) b (cnt + get_or b (suc i) 0) ∙ length-set a (suc i) (get_or a i 0)

  shift_above :
      (n : ℕ) (a : List ℕ) (cnt j : ℕ)
      → n ≤ j
      → get_or (shift F f defs n a cnt).0 j 0 ≡ get_or a j 0
  shift_above zero a cnt j l = refl
  shift_above (suc zero) a cnt j l = refl
  shift_above (suc (suc i)) a cnt j l =
      let b = set a (suc i) (get_or a i 0) in
      shift_above (suc i) b (cnt + get_or b (suc i) 0) j (omega arith)
      ∙ get_or-set_ne a (suc i) j (get_or a i 0) 0 (λ e. absurd (omega (arith, e)))

  shift-take :
      (n : ℕ) (a : List ℕ) (cnt v : ℕ)
      → suc n ≤ length a
      → (take (suc n) (set (shift F f defs (suc n) a cnt).0 0 v) ≡ v ∷ take n a)
        × ((shift F f defs (suc n) a cnt).1 ≡ cnt + total (take n a))
  shift-take zero [] cnt v l = absurd (omega arith)
  shift-take zero (x ∷ a) cnt v l = (refl, omega arith)
  shift-take (suc i) a cnt v l =
      let b = set a (suc i) (get_or a i 0) in
      let here : get_or b (suc i) 0 ≡ get_or a i 0 =
        get_or-set_self a (suc i) (get_or a i 0) 0 (omega arith) in
      let len : length b ≡ length a = length-set a (suc i) (get_or a i 0) in
      let same : take i b ≡ take i a = take-set i (suc i) a (get_or a i 0) (omega arith) in
      let cnt' = cnt + get_or b (suc i) 0 in
      let (t, c) = shift-take i b cnt' v (omega (arith, len, l)) in
      let s = (shift F f defs (suc i) b cnt').0 in
      let snoc : take (suc i) a ≡ take i a ++ (get_or a i 0 ∷ []) = take_snoc i a (omega arith) in
      let last : get_or (set s 0 v) (suc i) 0 ≡ get_or a i 0 =
        get_or-set_ne s 0 (suc i) v 0 (λ e. absurd (omega (arith, e)))
        ∙ shift_above (suc i) b cnt' (suc i) (omega arith)
        ∙ here in
      let lens : length (set s 0 v) ≡ length a =
        length-set s 0 v ∙ length-shift (suc i) b cnt' ∙ len in
      let u : total (take (suc i) a) ≡ total (take i a) + get_or a i 0 =
        ap total snoc ∙ total-snoc (take i a) (get_or a i 0) in
      let w : total (take i b) ≡ total (take i a) = ap total same in
      (
        take_snoc (suc i) (set s 0 v) (omega (arith, lens, l))
            ∙ ap (λ x. x ++ (get_or (set s 0 v) (suc i) 0 ∷ [])) (t ∙ ap (λ x. v ∷ x) same)
            ∙ ap (λ x. v ∷ (take i a ++ (x ∷ []))) last
            ∙ ap (λ x. v ∷ x) (sym snoc),
        c ∙ omega (arith, here, u, w),
      )

  -- 0, or 1 where the threshold is reached
  abbrev pub failure : ℕ → ℕ → V
  failure threshold violations = if ltb violations threshold then of_ℕ 0 else of_ℕ 1

  module _ (i : ℕ) (at : ScratchIdx) where
    -- the archives at one time, with what the FAILURES archive has recorded so far
    abbrev pub observed_with : List ℕ → (ℕ → CdpPrep V) → ℕ → CdpPrep V
    observed_with violations s = store F i (record (s i) { violations = violations }) s

    abbrev pub after_one : (ℕ → CdpPrep V) → CdpPrep V → CdpPrep V
    after_one s c = update_failures F f defs i at (observed_with c.violations s) i

    abbrev pub after_all : List (ℕ → CdpPrep V) → CdpPrep V → CdpPrep V
    after_all [] c = c
    after_all (s ∷ ss) c = after_all ss (after_one s c)

    -- the violations found, the latest first, in front of those of before
    abbrev pub found_violations : List (ℕ → CdpPrep V) → CdpPrep V → List ℕ → List ℕ
    found_violations [] c w = w
    found_violations (s ∷ ss) c w =
        found_violations ss (after_one s c)
          (violation_at F f defs i at (observed_with c.violations s) ∷ w)

    scratch-with_scratch :
        (at : ScratchIdx) (v : V) (c : CdpPrep V) → scratch_of F at (with_scratch F at v c) ≡ v
    scratch-with_scratch primary v c = refl
    scratch-with_scratch secondary v c = refl

    violations-with_scratch :
        (at : ScratchIdx) (v : V) (c : CdpPrep V)
        → (with_scratch F at v c).violations ≡ c.violations
    violations-with_scratch primary v c = refl
    violations-with_scratch secondary v c = refl

    store_at : (c : CdpPrep V) (s : ℕ → CdpPrep V) → store F i c s i ≡ c
    store_at c s = let e : (i == i) ≡ true = ground arith in rw e refl

    after_one-record :
        (s : ℕ → CdpPrep V) (c : CdpPrep V)
        → after_one s c
          ≡ record_violation F f defs
              (defs i)
              at
              (violation_at F f defs i at (observed_with c.violations s))
              (record (s i) { violations = c.violations })
    unfolding update_failures
    after_one-record s c =
        let o = observed_with c.violations s in
        store_at (record_violation F f defs (defs i) at (violation_at F f defs i at o) (o i)) o
        ∙ ap (record_violation F f defs (defs i) at (violation_at F f defs i at o)) (store_at _ s)

    record-window :
        (n v : ℕ) (c : CdpPrep V)
        → (defs i).window_len ≡ suc n
        → suc n ≤ length c.violations
        → let t = record_violation F f defs (defs i) at v c in
          (take (suc n) t.violations ≡ v ∷ take n c.violations)
          × (scratch_of F at t
              ≡ failure (defs i).failure_threshold (total (v ∷ take n c.violations)))
          × (length t.violations ≡ length c.violations)
    record-window n v c e l =
        let sh = shift F f defs (defs i).window_len c.violations v in
        let (t, k) = shift-take n c.violations v v l in
        let r = record c { violations = set sh.0 0 v } in
        let value = failure (defs i).failure_threshold sh.1 in
        let a : (with_scratch F at value r).violations ≡ set sh.0 0 v =
          violations-with_scratch at value r in
        (
          ap (take (suc n)) (a ∙ ap (λ w. set (shift F f defs w c.violations v).0 0 v) e) ∙ t,
          scratch-with_scratch at value r
              ∙ ap (failure (defs i).failure_threshold)
                  (ap (λ w. (shift F f defs w c.violations v).1) e ∙ k),
          ap length a ∙ length-set sh.0 0 v ∙ length-shift (defs i).window_len c.violations v,
        )

    take_less : (n : ℕ) (a b : List ℕ) → take (suc n) a ≡ take (suc n) b → take n a ≡ take n b
    take_less n a b e =
        sym (take-take n (suc n) a (omega arith))
        ∙ ap (take n) e
        ∙ take-take n (suc n) b (omega arith)

    found-window :
        (n : ℕ) (ss : List (ℕ → CdpPrep V)) (c : CdpPrep V) (w : List ℕ)
        → (defs i).window_len ≡ suc n
        → suc n ≤ length c.violations
        → take (suc n) c.violations ≡ take (suc n) w
        → take (suc n) (after_all ss c).violations ≡ take (suc n) (found_violations ss c w)
    found-window n [] c w e l p = p
    found-window n (s ∷ ss) c w e l p =
        let v = violation_at F f defs i at (observed_with c.violations s) in
        let (t, k, q) = record-window n v (record (s i) { violations = c.violations }) e l in
        let o = after_one-record s c in
        found-window n ss (after_one s c) (v ∷ w) e (rw (ap (λ x. length x.violations) o ∙ q) l) (
          ap (λ x. take (suc n) x.violations) o
          ∙ t
          ∙ ap (λ x. v ∷ x) (take_less n c.violations w p))

    length-after_all :
        (n : ℕ) (ss : List (ℕ → CdpPrep V)) (c : CdpPrep V)
        → (defs i).window_len ≡ suc n
        → suc n ≤ length c.violations
        → length (after_all ss c).violations ≡ length c.violations
    length-after_all n [] c e l = refl
    length-after_all n (s ∷ ss) c e l =
        let v = violation_at F f defs i at (observed_with c.violations s) in
        let (t, k, q) = record-window n v (record (s i) { violations = c.violations }) e l in
        let same : length (after_one s c).violations ≡ length c.violations =
          ap (λ x. length x.violations) (after_one-record s c) ∙ q in
        length-after_all n ss (after_one s c) e (rw same l) ∙ same

    -- However many updates there have been, a FAILURES archive has in its window the violations
    -- of the latest ones, as many as `window_len` says, and the value that it gets is 1 where their
    -- number reaches the threshold, and 0 otherwise. The window has at least one entry, and the
    -- array has room for it.
    pub update_failures-window :
        (n : ℕ) (ss : List (ℕ → CdpPrep V)) (s : ℕ → CdpPrep V) (c : CdpPrep V)
        → (defs i).window_len ≡ suc n
        → suc n ≤ length c.violations
        → let before = after_all ss c in
          let found =
            violation_at F f defs i at (observed_with before.violations s)
            ∷ found_violations ss c c.violations in
          (take (suc n) (after_one s before).violations ≡ take (suc n) found)
          × (scratch_of F at (after_one s before)
              ≡ failure (defs i).failure_threshold (total (take (suc n) found)))
    update_failures-window n ss s c e l =
        let before = after_all ss c in
        let v = violation_at F f defs i at (observed_with before.violations s) in
        let room = length-after_all n ss c e l in
        let (t, k, q) =
          record-window n v (record (s i) { violations = before.violations }) e (rw room l) in
        let o = after_one-record s before in
        let w = found_violations ss c c.violations in
        let same : take n before.violations ≡ take n w =
          take_less n before.violations w (found-window n ss c c.violations e l refl) in
        (
          ap (λ x. take (suc n) x.violations) o ∙ t ∙ ap (λ x. v ∷ x) same,
          ap (scratch_of F at) o
              ∙ k
              ∙ ap (λ x. failure (defs i).failure_threshold (v + total x)) same,
        )
