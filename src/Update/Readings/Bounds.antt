-- ===== src/Update/Readings/Bounds.antt =====
-- What `update_pdp_prep` of rrdtool-1.4.5/src/rrd_update.c lets through.
use administracion_servicios.Prelude.{
  ℕ, ◌-◌, ◌≡◌, ◌⊎◌, inl, inr, true, false, not, ◌&&◌, Bool-cases, Option, none, some, Option-cases,
  List, [], ◌∷◌, if◌then◌else◌, take, arith,
}
use administracion_servicios.Double.{Double, HasNan}
use administracion_servicios.Rrd.{DsDef, PdpPrep, Dst, counter, derive, absolute, gauge, cdef}
use administracion_servicios.Diff.{last_ds_len}
use administracion_servicios.Update.Readings.{
  is_unknown, is_cdef, out_of_bounds, bounded, new_value, with_rate, from_difference,
  simple_integer, store_reading, update_pdp_prep_ds, update_pdp_prep,
}

module _ (F : Double) (strtod : List ℕ → Option F.V) where
  open F use {V, isnan, nan, div, lt, of_ℕ}

  -- A rate that is a number respects those bounds of the data source that are numbers.
  abbrev pub InBounds : DsDef V → V → Type 0
  InBounds d rate =
      isnan rate ≡ false
      → (isnan d.max_val ≡ false → lt d.max_val rate ≡ false)
        × (isnan d.min_val ≡ false → lt rate d.min_val ≡ false)

  -- A value is unknown, or comes from a known reading within the heartbeat, with a rate in bounds.
  abbrev pub IsChecked : V → DsDef V → List ℕ → V → Type 0
  IsChecked interval d u v =
      (isnan v ≡ true)
      ⊎ ((is_unknown u ≡ false)
          × (lt (of_ℕ d.mrhb_cnt) interval ≡ false)
          × InBounds d (div v interval))

  -- the entries for all data sources, and the readings kept for the next update
  abbrev pub AllChecked :
      V → List (DsDef V) → List (List ℕ) → List (PdpPrep V) → List V → List (PdpPrep V) → Type 0
  AllChecked interval (d ∷ ds) (u ∷ us) (p ∷ ps) (v ∷ vs) (q ∷ qs) =
      IsChecked interval d u v
      × (q ≡ record p { last_ds = take (last_ds_len - 1) u })
      × AllChecked interval ds us ps vs qs
  AllChecked interval (d ∷ ds) (u ∷ us) (p ∷ ps) _ _ = ⊥
  AllChecked interval _ _ _ vs qs = (vs ≡ []) × (qs ≡ [])

  module _ (hn : HasNan F) where
    stored :
        (u : List ℕ) (p q : PdpPrep V) (o : Option V) (v : V)
        → store_reading F strtod u p o ≡ some (v, q)
        → (o ≡ some v) × (q ≡ record p { last_ds = take (last_ds_len - 1) u })
    stored u p q none v e = cc
    stored u p q (some w) v e = (cc, cc)

    with_rate-div :
        (interval v rate : V) (o : Option V)
        → with_rate F strtod interval o ≡ some (v, rate)
        → rate ≡ div v interval
    with_rate-div interval v rate none e = cc
    with_rate-div interval v rate (some w) e = cc

    from_difference-rate :
        (k : Dst) (interval v rate : V) (u last_ds : List ℕ)
        → from_difference F strtod k interval u last_ds ≡ some (v, rate)
        → (isnan v ≡ true) ⊎ (rate ≡ div v interval)
    from_difference-rate k interval v rate u last_ds e = elim (Bool-cases (simple_integer k u)) [
      | inr i ↦ absurd (ground (arith, e, i))
      | inl i ↦ elim (Bool-cases (is_unknown last_ds)) [
        | inl j ↦ inl (ground (arith, e, i, j, hn.isnan-nan))
        | inr j ↦ inr (with_rate-div interval v rate _ (rw (i, j) at e))
      ]
    ]

    new_value-rate :
        (k : Dst) (interval v rate : V) (u last_ds : List ℕ)
        → new_value F strtod k interval u last_ds ≡ some (v, rate)
        → (isnan v ≡ true) ⊎ (rate ≡ div v interval)
    unfolding new_value
    new_value-rate counter interval v rate u last_ds e =
        from_difference-rate counter interval v rate u last_ds e
    new_value-rate derive interval v rate u last_ds e =
        from_difference-rate derive interval v rate u last_ds e
    new_value-rate absolute interval v rate u last_ds e = inr (with_rate-div interval v rate _ e)
    new_value-rate gauge interval v rate u last_ds e = inr (with_rate-div interval v rate _ e)
    new_value-rate cdef interval v rate u last_ds e = cc

    bounded-InBounds :
        (d : DsDef V) (interval v rate : V)
        → (isnan v ≡ true) ⊎ (rate ≡ div v interval)
        → let w = if out_of_bounds F strtod d rate then nan else v in
          (isnan w ≡ true) ⊎ InBounds d (div w interval)
    bounded-InBounds d interval v rate r = elim (Bool-cases (out_of_bounds F strtod d rate)) [
      | inl e ↦ rw e (inl hn.isnan-nan)
      | inr e ↦ elim r [
        | inl n ↦ rw e (inl n)
        | inr z ↦
            rw e (inr (λ k. (λ l. ground (arith, e, z, k, l), λ l. ground (arith, e, z, k, l))))
      ]
    ]

    update_ds-IsChecked :
        (interval : V) (d : DsDef V) (u : List ℕ) (p q : PdpPrep V) (v : V)
        → update_pdp_prep_ds F strtod d interval u p ≡ some (v, q)
        → IsChecked interval d u v × (q ≡ record p { last_ds = take (last_ds_len - 1) u })
    unfolding update_pdp_prep_ds
    update_ds-IsChecked interval d u p q v e =
        elim (Bool-cases
          (not (is_unknown u) && (not (is_cdef d.dst) && not (lt (of_ℕ d.mrhb_cnt) interval)))) [
            | inr n ↦
                let (x, y) = stored u p q (some nan) v (rw n at e) in
                (inl (ground (arith, x, hn.isnan-nan)), y)
            | inl k ↦
                let last_ds = if lt (of_ℕ d.mrhb_cnt) interval then b'U' ∷ [] else p.last_ds in
                let (x, y) =
                  stored u p q (bounded F strtod d (new_value F strtod d.dst interval u last_ds)) v
                    (rw k at e) in
                (
                  elim (Option-cases (new_value F strtod d.dst interval u last_ds)) [
                    | inl o ↦ absurd (ground (arith, x, o))
                    | inr ((w, rate), o) ↦
                        let z : (if out_of_bounds F strtod d rate then nan else w) ≡ v =
                          ground (arith, x, o) in
                        elim (rw z at (
                          bounded-InBounds d interval w rate
                            (new_value-rate d.dst interval w rate u last_ds o))) [
                              | inl m ↦ inl m
                              | inr m ↦ inr (ground (arith, k), ground (arith, k), m)
                            ]
                  ],
                  y,
                )
          ]

    -- When `update_pdp_prep` succeeds, where NaN is told apart from the numbers, each data source
    -- has got its entry: the new value is unknown, or the reading was known, the interval is
    -- within the heartbeat, and the rate that the value stands for, if it is a number, respects
    -- those of the minimum and the maximum of the data source that are numbers. The first 29 bytes
    -- of each reading are kept for the next update, whether it was used or not.
    pub update_pdp_prep-AllChecked :
        (interval : V) (ds : List (DsDef V)) (us : List (List ℕ)) (ps : List (PdpPrep V))
        (vs : List V) (qs : List (PdpPrep V))
        → update_pdp_prep F strtod interval ds us ps ≡ some (vs, qs)
        → AllChecked interval ds us ps vs qs
    unfolding update_pdp_prep
    update_pdp_prep-AllChecked interval [] us ps vs qs e = (cc, cc)
    update_pdp_prep-AllChecked interval (d ∷ ds) [] ps vs qs e = (cc, cc)
    update_pdp_prep-AllChecked interval (d ∷ ds) (u ∷ us) [] vs qs e = (cc, cc)
    update_pdp_prep-AllChecked interval (d ∷ ds) (u ∷ us) (p ∷ ps) vs qs e =
        elim (Option-cases (update_pdp_prep_ds F strtod d interval u p)) [
          | inl o ↦ absurd (ground (arith, e, o))
          | inr ((v, q), o) ↦ elim (Option-cases (update_pdp_prep F strtod interval ds us ps)) [
            | inl r ↦ absurd (ground (arith, e, o, r))
            | inr ((ws, rs), r) ↦
                let (x, y) = update_ds-IsChecked interval d u p q v o in
                let z : ◌≡◌ {A = Option (List V × List (PdpPrep V))} (some (v ∷ ws, q ∷ rs))
                    (some (vs, qs)) =
                  ground (arith, e, o, r) in
                let a : v ∷ ws ≡ vs = cc in
                let b : q ∷ rs ≡ qs = cc in
                rw⁻¹ (a, b) (x, y, update_pdp_prep-AllChecked interval ds us ps ws rs r)
          ]
        ]
