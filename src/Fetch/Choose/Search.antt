-- ===== src/Fetch/Choose/Search.antt =====
-- What the search for an archive in `rrd_fetch_fn` of rrdtool-1.4.5/src/rrd_fetch.c knows of the
-- archives it has seen.
use mathlib.Core.List.{append_assoc, append-nil}
use administracion_servicios.Prelude.{
  ℕ, ◌+◌, ◌≤◌, ◌<◌, ◌≡◌, inl, inr, refl, Bool, true, false, not, ◌&&◌, ◌||◌, Bool-cases, some, List,
  [], ◌∷◌, ◌++◌, ltb, if◌then◌else◌, length, get_elem?, length-append, get-snoc, get-keep, get-last,
  arith,
}
use administracion_servicios.Prelude.Int.{pos, sub_ℕ, ltb_ℤ, ◌-ℤ◌}
use administracion_servicios.Fetch.{
  Best, nothing_found, Candidate, consider, search_rras, labs_diff, leb_ℤ, eqb_ℤ,
}

module _ (start end step : ℕ) where
  -- An archive with the right function that goes back to the start of the request.
  abbrev pub IsFull : Candidate → Type 0
  IsFull c = (c.cf_matches ≡ true) × (leb_ℤ c.cal_start (pos start) ≡ true)

  -- `c` is the archive number `k`, goes back to the start, and no such archive has a step nearer to
  -- the one asked for.
  pub record IsBestFull (cs : List Candidate) (k : ℕ) : Type 0 where
    pub chosen : Candidate
    pub here : get_elem? cs k ≡ some chosen
    pub full : IsFull chosen
    pub least :
        (j : ℕ) (c : Candidate)
        → get_elem? cs j ≡ some c
        → IsFull c
        → labs_diff step chosen.rra_step ≤ labs_diff step c.rra_step

  abbrev pub NoFull : List Candidate → Type 0
  NoFull cs = (j : ℕ) (c : Candidate) → get_elem? cs j ≡ some c → IsFull c → ⊥

  -- what the search knows of the archives it has seen
  pub record Known (cs : List Candidate) (b : Best) : Type 0 where
    pub best :
        b.have_full ≡ true
        → (f : IsBestFull cs b.best_full_rra) × (b.best_full_step_diff
            ≡ labs_diff step f.chosen.rra_step)
    pub no_full : b.have_full ≡ false → NoFull cs
    pub part :
        b.have_part ≡ true
        → (c : Candidate) × (get_elem? cs b.best_part_rra ≡ some c) × (c.cf_matches ≡ true)
    pub no_part :
        b.have_part ≡ false
        → (j : ℕ) (c : Candidate) → get_elem? cs j ≡ some c
        → c.cf_matches ≡ true
        → IsFull c

  keep_best :
      (cs : List Candidate) (c : Candidate) (k d : ℕ)
      → (f : IsBestFull cs k) × (d ≡ labs_diff step f.chosen.rra_step)
      → (IsFull c → d ≤ labs_diff step c.rra_step)
      → (f : IsBestFull (cs ++ (c ∷ [])) k) × (d ≡ labs_diff step f.chosen.rra_step)
  keep_best cs c k d (f, e) h = (
    record {
      chosen = f.chosen;
      here = get-keep cs (c ∷ []) f.chosen k f.here;
      full = f.full;
      least = λ j x g i. elim (get-snoc cs c x j g) [
        | inl o ↦ f.least j x o i
        | inr o ↦ rw o (rw e at (h (rw o at i)))
      ];
    },
    e,
  )

  keep_none :
      (cs : List Candidate) (c : Candidate) → NoFull cs → (IsFull c → ⊥) → NoFull (cs ++ (c ∷ []))
  keep_none cs c n h j x g i = elim (get-snoc cs c x j g) [
    | inl o ↦ n j x o i
    | inr o ↦ h (rw o at i)
  ]

  new_best :
      (cs : List Candidate) (c : Candidate) (b : Best)
      → Known cs b
      → IsFull c
      → (not b.have_full || ltb (labs_diff step c.rra_step) b.best_full_step_diff) ≡ true
      → (f : IsBestFull (cs ++ (c ∷ [])) (length cs)) × (labs_diff step c.rra_step
          ≡ labs_diff step f.chosen.rra_step)
  new_best cs c b v full t = (
    record {
      chosen = c;
      here = get-last cs c;
      full = full;
      least = λ j x g i. elim (get-snoc cs c x j g) [
        | inl o ↦ elim (Bool-cases b.have_full) [
          | inl y ↦ let (f, e) = v.best y in omega (arith, f.least j x o i, e, lt_of y)
          | inr y ↦ absurd (v.no_full y j x o i)
        ]
        | inr o ↦ rw o (omega arith)
      ];
    },
    refl,
  )
    where
      lt_of : b.have_full ≡ true → labs_diff step c.rra_step < b.best_full_step_diff
      lt_of y = ground (arith, t, y)

  keep_part :
      (cs : List Candidate) (c : Candidate) (k : ℕ)
      → (x : Candidate) × (get_elem? cs k ≡ some x) × (x.cf_matches ≡ true)
      → (x : Candidate) × (get_elem? (cs ++ (c ∷ [])) k ≡ some x) × (x.cf_matches ≡ true)
  keep_part cs c k (x, e, m) = (x, get-keep cs (c ∷ []) x k e, m)

  keep_no_part :
      (cs : List Candidate) (c : Candidate)
      → ((j : ℕ) (x : Candidate) → get_elem? cs j ≡ some x → x.cf_matches ≡ true → IsFull x)
      → (c.cf_matches ≡ true → IsFull c)
      → (j : ℕ) (x : Candidate) → get_elem? (cs ++ (c ∷ [])) j ≡ some x
      → x.cf_matches ≡ true
      → IsFull x
  keep_no_part cs c n h j x g m = elim (get-snoc cs c x j g) [
    | inl o ↦ n j x o m
    | inr o ↦ rw o (h (rw o at m))
  ]

  -- an archive that changes nothing of what is known
  keep :
      (cs : List Candidate) (c : Candidate) (b : Best)
      → Known cs b
      → (b.have_full ≡ true → IsFull c → b.best_full_step_diff ≤ labs_diff step c.rra_step)
      → (b.have_full ≡ false → IsFull c → ⊥)
      → (b.have_part ≡ false → c.cf_matches ≡ true → IsFull c)
      → Known (cs ++ (c ∷ [])) b
  keep cs c b v h n m = record {
    best = λ y. keep_best cs c b.best_full_rra b.best_full_step_diff (v.best y) (h y);
    no_full = λ y. keep_none cs c (v.no_full y) (n y);
    part = λ y. keep_part cs c b.best_part_rra (v.part y);
    no_part = λ y. keep_no_part cs c (v.no_part y) (m y);
  }

  -- whether an archive that goes back less far is the best of its kind so far
  abbrev takes_part : Candidate → Best → Bool
  takes_part c b =
      let tmp_match = sub_ℕ end start -ℤ (c.cal_start -ℤ pos start) in
      not b.have_part
      || (ltb_ℤ b.best_match tmp_match
          || (eqb_ℤ b.best_match tmp_match
              && ltb (labs_diff step c.rra_step) b.best_part_step_diff))

  consider-Known :
      (cs : List Candidate) (c : Candidate) (b : Best)
      → Known cs b
      → c.cf_matches ≡ true
      → Known (cs ++ (c ∷ [])) (consider start end step (length cs) c b)
  unfolding consider
  consider-Known cs c b v m = elim (Bool-cases (leb_ℤ c.cal_start (pos start))) [
    | inl full ↦
        elim (Bool-cases
          (not b.have_full || ltb (labs_diff step c.rra_step) b.best_full_step_diff)) [
            | inl t ↦
                rw (full, t)
                  (record {
                    best = λ y. new_best cs c b v (m, full) t;
                    no_full = λ y. cc;
                    part = λ y. keep_part cs c b.best_part_rra (v.part y);
                    no_part = λ y. keep_no_part cs c (v.no_part y) (λ z. (m, full));
                  })
            | inr t ↦
                rw (full, t)
                  (keep cs c b v (λ y i. ground (arith, t, y)) (λ y i. ground (arith, t, y))
                    (λ y i. (m, full)))
          ]
    | inr part ↦ elim (Bool-cases (takes_part c b)) [
      | inl t ↦
          rw (part, t)
            (record {
              best = λ y.
                  keep_best cs c b.best_full_rra b.best_full_step_diff (v.best y)
                    (λ i. absurd (ground (arith, i, part)));
              no_full = λ y. keep_none cs c (v.no_full y) (λ i. ground (arith, i, part));
              part = λ y. (c, get-last cs c, m);
              no_part = λ y. cc;
            })
      | inr t ↦
          rw (part, t)
            (keep cs c b v (λ y i. ground (arith, i, part)) (λ y i. ground (arith, i, part))
              (λ y i. absurd (ground (arith, t, y))))
    ]
  ]

  skip-Known :
      (cs : List Candidate) (c : Candidate) (b : Best)
      → Known cs b
      → c.cf_matches ≡ false
      → Known (cs ++ (c ∷ [])) b
  skip-Known cs c b v m =
      keep cs c b v (λ y i. ground (arith, i, m)) (λ y i. ground (arith, i, m)) (λ y i. cc)

  matches_or_not :
      (cs : List Candidate) (c : Candidate) (b : Best)
      → Known cs b
      → (m : Bool) → c.cf_matches ≡ m
      → Known (cs ++ (c ∷ [])) (if m then consider start end step (length cs) c b else b)
  matches_or_not cs c b v true m = consider-Known cs c b v m
  matches_or_not cs c b v false m = skip-Known cs c b v m

  pub search_rras-Known :
      (seen cs : List Candidate) (b : Best)
      → Known seen b
      → Known (seen ++ cs) (search_rras start end step (length seen) cs b)
  unfolding search_rras
  search_rras-Known seen [] b v = rw append-nil v
  search_rras-Known seen (c ∷ cs) b v =
      let w : Known (seen ++ (c ∷ []))
          (if c.cf_matches then consider start end step (length seen) c b else b) =
        matches_or_not seen c b v c.cf_matches refl in
      let len : length (seen ++ (c ∷ [])) ≡ length seen + 1 = length-append seen (c ∷ []) in
      let assoc = append_assoc seen (c ∷ []) cs in
      rw (assoc, len) at (search_rras-Known (seen ++ (c ∷ [])) cs _ w)

  pub nothing-Known : Known [] nothing_found
  nothing-Known = record {
    best = λ y. cc;
    no_full = λ y j c e i. cc;
    part = λ y. cc;
    no_part = λ y j c e m. cc;
  }
