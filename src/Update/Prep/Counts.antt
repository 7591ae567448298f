-- ===== src/Update/Prep/Counts.antt =====
-- What `update_all_cdp_prep` of rrdtool-1.4.5/src/rrd_update.c hands over to `write_to_rras`.
use administracion_servicios.Prelude.{
  ℕ, suc, ◌+◌, ◌*◌, ◌/◌, ◌<◌, ◌≡◌, ◌↔◌, refl, ap, sym, ◌∙◌, Bool, true, false, Bool-cases, inl, inr,
  some, Option-cases, List, [], ◌∷◌, ltb, length, if◌then◌else◌, arith,
}
use administracion_servicios.Double.{Double}
use administracion_servicios.Rrd.{CdpPrep, Rra}
use administracion_servicios.Rrd.File.{RrdFile, rrd_seek, rrd_read}
use administracion_servicios.Update.Rows.{Pending}
use administracion_servicios.Update.Steps.{rra_step_cnt}
use administracion_servicios.Update.Steps.Count.{rra_step_cnt-eq-boundaries}
use administracion_servicios.Update.Cdp.{do_schedule_smooth}
use administracion_servicios.Update.Prep.{
  Elapsing, Season, lookup_seasonal, look_ahead, is_seasonal, update_cdp_prep, set_init_seasonal,
  seasonal_block, update_all_cdp_prep, init_seasonal, skips,
}

module _ (F : Double) where
  open F use {V}

  -- The archive is as before but for its entries, one for each data source as before; its rows due
  -- are the boundaries that the elapsed steps pass; and only a seasonal one with several rows due
  -- is skipped.
  abbrev pub IsPrepared : Elapsing F → Rra V → Pending V → Type 0
  IsPrepared e r p =
      (p.rra.def ≡ r.def)
      × (p.rra.cur_row ≡ r.cur_row)
      × (length p.rra.cdp_prep ≡ length r.cdp_prep)
      × (p.step_cnt + e.proc_pdp_cnt / r.def.pdp_cnt
          ≡ (e.proc_pdp_cnt + e.elapsed_pdp_st) / r.def.pdp_cnt)
      × ((p.skip_update ≡ true) ↔ ((is_seasonal r.def.cf ≡ true) × (1 < p.step_cnt)))

  abbrev pub ArePrepared : Elapsing F → List (Rra V) → List (Pending V) → Type 0
  ArePrepared e [] [] = Unit
  ArePrepared e (r ∷ rs) (p ∷ ps) = IsPrepared e r p × ArePrepared e rs ps
  ArePrepared e _ _ = ⊥

  -- every archive consolidates at least one primary data point
  abbrev pub HavePoints : List (Rra V) → Type 0
  HavePoints [] = Unit
  HavePoints (r ∷ rs) = (0 < r.def.pdp_cnt) × HavePoints rs

  length-update_cdp_prep :
      (e : Elapsing F) (s : Season F) (r : Rra V) (i : ℕ) (cs : List (CdpPrep V))
      → length (update_cdp_prep F e s r i cs) ≡ length cs
  unfolding update_cdp_prep
  length-update_cdp_prep e s r i [] = refl
  length-update_cdp_prep e s r i (c ∷ cs) = ap suc (length-update_cdp_prep e s r (i + 1) cs)

  length-set_init_seasonal :
      (n : ℕ) (cs : List (CdpPrep V)) → length (set_init_seasonal F n cs) ≡ length cs
  length-set_init_seasonal n [] = refl
  length-set_init_seasonal n (c ∷ cs) = refl

  lookup-values :
      (r : Rra V) (ds_cnt start offset : ℕ) (f g : RrdFile V) (vs : List V)
      → lookup_seasonal F r ds_cnt start offset f ≡ some (vs, g)
      → g.values ≡ f.values
  unfolding lookup_seasonal rrd_seek rrd_read
  lookup-values r ds_cnt start offset f g vs h = ground (arith, h)

  look_ahead-values :
      (e : Elapsing F) (start : ℕ) (r : Rra V) (s t : Season F)
      → look_ahead F e start r s ≡ some t
      → t.file.values ≡ s.file.values
  look_ahead-values e start r s t h =
      elim (Option-cases (lookup_seasonal F r e.ds_cnt start e.elapsed_pdp_st s.file)) [
        | inl o ↦ absurd (ground (arith, h, o))
        | inr ((last, f), o) ↦
            elim (Option-cases (lookup_seasonal F r e.ds_cnt start (e.elapsed_pdp_st + 1) f)) [
              | inl o' ↦ absurd (ground (arith, h, o, o'))
              | inr ((coef, g), o') ↦
                  let a = lookup-values r e.ds_cnt start e.elapsed_pdp_st s.file f last o in
                  let b = lookup-values r e.ds_cnt start (e.elapsed_pdp_st + 1) f g coef o' in
                  let same : record s { last_seasonal_coef = last; seasonal_coef = coef; file = g }
                      ≡ t =
                    ground (arith, h, o, o') in
                  ap (λ (x : Season F). x.file.values) (sym same) ∙ b ∙ a
            ]
      ]

  ahead-values :
      (b : Bool) (e : Elapsing F) (start : ℕ) (r : Rra V) (s t : Season F)
      → (if b then look_ahead F e start r s else some s) ≡ some t
      → t.file.values ≡ s.file.values
  ahead-values true e start r s t h = look_ahead-values e start r s t h
  ahead-values false e start r s t h = cc

  seasonal_block-keeps :
      (e : Elapsing F) (start : ℕ) (r : Rra V) (s t : Season F) (cs : List (CdpPrep V))
      → seasonal_block F e start r s ≡ some (cs, t)
      → (length cs ≡ length r.cdp_prep) × (t.file.values ≡ s.file.values)
  unfolding seasonal_block
  seasonal_block-keeps e start r s t cs h =
      let n = rra_step_cnt r.def.pdp_cnt e.proc_pdp_cnt e.elapsed_pdp_st in
      let init =
        (do_schedule_smooth r.cur_row r.def.row_cnt r.def.seasonal_smooth_idx
          (init_seasonal F r.cdp_prep) e.elapsed_pdp_st).1 in
      elim (Bool-cases (is_seasonal r.def.cf)) [
        | inr k ↦
            let a : r.cdp_prep ≡ cs = ground (arith, h, k) in
            let b : s ≡ t = ground (arith, h, k) in
            (ap length (sym a), ap (λ (x : Season F). x.file.values) (sym b))
        | inl k ↦ elim (Option-cases (if ltb 1 n then look_ahead F e start r s else some s)) [
          | inl o ↦ absurd (ground (arith, h, k, o))
          | inr (u, o) ↦
              let a : set_init_seasonal F init r.cdp_prep ≡ cs = ground (arith, h, k, o) in
              let b : u.file ≡ t.file = ground (arith, h, k, o) in
              (
                ap length (sym a) ∙ length-set_init_seasonal init r.cdp_prep,
                ap (λ (x : RrdFile V). x.values) (sym b) ∙ ahead-values (ltb 1 n) e start r s u o,
              )
        ]
      ]

  -- When `update_all_cdp_prep` succeeds on archives that each consolidate at least one point, every
  -- archive has an entry in the result, in order: its definition and its current row are as
  -- before, it still has one entry for each data source, its rows due are the consolidation
  -- boundaries that the elapsed steps pass, and it is to be skipped exactly if it is seasonal and
  -- has more than one row due. The values in the file are untouched.
  pub update_all_cdp_prep-ArePrepared :
      (e : Elapsing F) (start : ℕ) (rs : List (Rra V)) (s u : Season F) (ps : List (Pending V))
      → HavePoints rs
      → update_all_cdp_prep F e start rs s ≡ some (ps, u)
      → ArePrepared e rs ps × (u.file.values ≡ s.file.values)
  unfolding update_all_cdp_prep
  update_all_cdp_prep-ArePrepared e start [] s u ps v h =
      let a : [] ≡ ps = cc in let b : s ≡ u = cc in rw⁻¹ (a, b) (tt, refl)
  update_all_cdp_prep-ArePrepared e start (r ∷ rs) s u ps (v, vs) h =
      elim (Option-cases (seasonal_block F e start r s)) [
        | inl o ↦ absurd (ground (arith, h, o))
        | inr ((cs, t), o) ↦
            elim (Option-cases (update_all_cdp_prep F e (start + r.def.row_cnt * e.ds_cnt) rs t)) [
              | inl o' ↦ absurd (ground (arith, h, o, o'))
              | inr ((qs, w), o') ↦
                  let (x, y) = seasonal_block-keeps e start r s t cs o in
                  let (z, k) =
                    update_all_cdp_prep-ArePrepared e (start + r.def.row_cnt * e.ds_cnt) rs t w qs
                      vs o' in
                  let n = rra_step_cnt r.def.pdp_cnt e.proc_pdp_cnt e.elapsed_pdp_st in
                  let q : Pending V = record {
                    rra = record r { cdp_prep = update_cdp_prep F e t r 0 cs };
                    step_cnt = n;
                    skip_update = skips F r n;
                  } in
                  let a : q ∷ qs ≡ ps = ground (arith, h, o, o') in
                  let b : w ≡ u = ground (arith, h, o, o') in
                  rw⁻¹ (a, b)
                    (
                      (
                        (
                          refl,
                          refl,
                          length-update_cdp_prep e t r 0 cs ∙ x,
                          rra_step_cnt-eq-boundaries r.def.pdp_cnt e.proc_pdp_cnt e.elapsed_pdp_st
                              v,
                          ground arith,
                        ),
                        z,
                      ),
                      k ∙ y,
                    )
            ]
      ]
