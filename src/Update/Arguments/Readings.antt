-- ===== src/Update/Arguments/Readings.antt =====
-- What `parse_ds` (rrdtool-1.4.5/src/rrd_update.c) makes of the text of an update.
use administracion_servicios.Prelude.{
  ℕ, zero, suc, ◌-◌, ◌<◌, ◌≡◌, ◌≢◌, refl, sym, ap, ◌∙◌, true, false, Bool-cases, inl, inr, All,
  none, some, List, [], ◌∷◌, ◌++◌, ◌==◌, if◌then◌else◌, length, get_or, set, replicate, length-set,
  length-replicate, get_or-set_self, get_or-set_ne, arith,
}
use administracion_servicios.Update.Arguments.{
  colon, at_sign, parsed, refused, fields, cut_at, assign, assign_first, unknown, timed, parse_ds,
}

-- the readings behind a time, with the colons between them
abbrev pub with_colons : List ℕ → List (List ℕ) → List ℕ
with_colons v [] = v
with_colons v (w ∷ ws) = v ++ (colon ∷ with_colons w ws)

abbrev pub Without : ℕ → List ℕ → Type 0
Without c = All (λ b. (b == c) ≡ false)

-- the reading for the data source `k`, if the template names it; where it does so twice, the later
abbrev pub reading_for : List ℕ → List (List ℕ) → ℕ → List ℕ → List ℕ
reading_for (t ∷ ts) (v ∷ vs) k other = reading_for ts vs k (if t - 1 == k then v else other)
reading_for _ _ k other = other

fields-text : (v : List ℕ) → Without colon v → fields v ≡ v ∷ []
fields-text [] w = refl
fields-text (c ∷ v) (n, w) = rw (n, fields-text v w) refl

fields-colon : (v rest : List ℕ) → Without colon v → fields (v ++ (colon ∷ rest)) ≡ v ∷ fields rest
fields-colon [] rest w = refl
fields-colon (c ∷ v) rest (n, w) = rw (n, fields-colon v rest w) refl

fields-with_colons :
    (v : List ℕ) (vs : List (List ℕ))
    → All (Without colon) (v ∷ vs)
    → fields (with_colons v vs) ≡ v ∷ vs
fields-with_colons v [] (w, ws) = fields-text v w
fields-with_colons v (x ∷ vs) (w, ws) =
    fields-colon v (with_colons x vs) w ∙ ap (λ l. v ∷ l) (fields-with_colons x vs ws)

cut_at-here : (c : ℕ) (s t : List ℕ) → Without c s → cut_at c (s ++ (c ∷ t)) ≡ some (s, t)
cut_at-here c [] t w = let e : (c == c) ≡ true = ground arith in rw e refl
cut_at-here c (d ∷ s) t (n, w) = rw (n, cut_at-here c s t w) refl

cut_at-nowhere : (c : ℕ) (s : List ℕ) → Without c s → cut_at c s ≡ none
cut_at-nowhere c [] w = refl
cut_at-nowhere c (d ∷ s) (n, w) = rw (n, cut_at-nowhere c s w) refl

Without-append : (c : ℕ) (s t : List ℕ) → Without c s → Without c t → Without c (s ++ t)
Without-append c [] t v w = w
Without-append c (d ∷ s) t (n, v) w = (n, Without-append c s t v w)

get_or-set :
    (u : List (List ℕ)) (i k : ℕ) (v : List ℕ)
    → i < length u
    → get_or (set u i v) k unknown ≡ (if i == k then v else get_or u k unknown)
get_or-set u i k v l = elim (Bool-cases (i == k)) [
  | inl e ↦
      let p : i ≡ k = ground (arith, e) in
      let g : get_or (set u i v) i unknown ≡ v = get_or-set_self u i v unknown l in
      rw e (ap (λ j. get_or (set u i v) j unknown) (sym p) ∙ g)
  | inr e ↦ rw e (get_or-set_ne u i k v unknown (λ p. absurd (ground (arith, e, p))))
]

assign-reading_for :
    (n : ℕ) (ts : List ℕ) (vs u : List (List ℕ))
    → length vs ≡ length ts
    → length u ≡ n
    → All (λ t. (0 < t) × (t - 1 < n)) ts
    → (r : List (List ℕ)) × (assign ts vs u ≡ parsed r)
      × ((k : ℕ) → get_or r k unknown ≡ reading_for ts vs k (get_or u k unknown))
assign-reading_for n [] [] u e m a = (u, refl, λ k. refl)
assign-reading_for n [] (v ∷ vs) u e m a = absurd (omega arith)
assign-reading_for n (t ∷ ts) [] u e m a = absurd (omega arith)
assign-reading_for n (t ∷ ts) (v ∷ vs) u e m ((p, l), a) =
    let (r, q, g) =
      assign-reading_for n ts vs (set u (t - 1) v) (omega arith) (length-set u (t - 1) v ∙ m) a in
    (r, q, λ k. g k ∙ ap (reading_for ts vs k) (get_or-set u (t - 1) k v (omega (arith, l, m))))

assign-refused :
    (ts : List ℕ) (vs u : List (List ℕ)) → length vs ≢ length ts → assign ts vs u ≡ refused
assign-refused [] [] u n = absurd (n refl)
assign-refused [] (v ∷ vs) u n = refl
assign-refused (t ∷ ts) [] u n = refl
assign-refused (t ∷ ts) (v ∷ vs) u n = assign-refused ts vs (set u (t - 1) v) (λ e. n (ap suc e))

Without-with_colons :
    (v : List ℕ) (vs : List (List ℕ))
    → All (Without at_sign) (v ∷ vs)
    → Without at_sign (with_colons v vs)
Without-with_colons v [] (w, ws) = w
Without-with_colons v (x ∷ vs) (w, ws) =
    Without-append at_sign v (colon ∷ with_colons x vs) w (refl, Without-with_colons x vs ws)

get_or-unknown : (n k : ℕ) → get_or (replicate n unknown) k unknown ≡ unknown
get_or-unknown zero k = refl
get_or-unknown (suc n) zero = refl
get_or-unknown (suc n) (suc k) = get_or-unknown n k

parse_ds-fields :
    (ds_cnt : ℕ) (idx : List ℕ) (time v : List ℕ) (vs : List (List ℕ))
    → Without colon time
    → Without at_sign time
    → All (Without colon) (v ∷ vs)
    → All (Without at_sign) (v ∷ vs)
    → parse_ds ds_cnt idx (time ++ (colon ∷ with_colons v vs))
      ≡ timed false time (assign_first idx (v ∷ vs) (replicate ds_cnt unknown))
unfolding parse_ds
parse_ds-fields ds_cnt idx time v vs c a cs as' =
    let none_at = cut_at-nowhere at_sign (time ++ (colon ∷ with_colons v vs)) (
      Without-append at_sign time (colon ∷ with_colons v vs) a
        (refl, Without-with_colons v vs as')) in
    rw (none_at, cut_at-here colon time (with_colons v vs) c, fields-with_colons v vs cs) refl

-- An update argument that is a time and readings with colons between them is taken apart as it was
-- put together: where there are as many readings as the template has entries, at least one, each
-- data source gets the reading at its place in the template, the later one if it stands there
-- twice, and all other sources get "U"; with any other number of readings the argument is refused.
-- Neither the time nor a reading has a colon or an at sign in it, and the entries of the template
-- are numbers of data sources, counted from 1.
pub parse_ds-with_colons :
    (ds_cnt t : ℕ) (ts time v : List ℕ) (vs : List (List ℕ))
    → Without colon time
    → Without at_sign time
    → All (Without colon) (v ∷ vs)
    → All (Without at_sign) (v ∷ vs)
    → All (λ i. (0 < i) × (i - 1 < ds_cnt)) (t ∷ ts)
    → (length vs ≡ length ts
        → (r : List (List ℕ)) × (parse_ds ds_cnt (t ∷ ts) (time ++ (colon ∷ with_colons v vs))
            ≡ parsed (false, time, r))
          × ((k : ℕ) → get_or r k unknown ≡ reading_for (t ∷ ts) (v ∷ vs) k unknown))
      × (length vs ≢ length ts
          → parse_ds ds_cnt (t ∷ ts) (time ++ (colon ∷ with_colons v vs)) ≡ refused)
parse_ds-with_colons ds_cnt t ts time v vs c a cs at' i =
    let u = replicate ds_cnt unknown in
    let f = parse_ds-fields ds_cnt (t ∷ ts) time v vs c a cs at' in
    (
      λ e.
          let (r, q, g) =
            assign-reading_for ds_cnt (t ∷ ts) (v ∷ vs) u (ap suc e)
              (length-replicate ds_cnt unknown) i in
          (
            r,
            f ∙ ap (timed false time) q,
            λ k. g k ∙ ap (reading_for (t ∷ ts) (v ∷ vs) k) (get_or-unknown ds_cnt k),
          ),
      λ n.
          f
          ∙ ap (timed false time) (assign-refused (t ∷ ts) (v ∷ vs) u (λ e. n (omega (arith, e)))),
    )
