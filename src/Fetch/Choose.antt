-- ===== src/Fetch/Choose.antt =====
-- The search for an archive in `rrd_fetch_fn` of rrdtool-1.4.5/src/rrd_fetch.c: the one it chooses.
mod Search
pub use Search.{IsBestFull, NoFull}
use Search.{search_rras-Known, nothing-Known}
use administracion_servicios.Prelude.{
  ℕ, ◌≡◌, ◌⊎◌, inl, inr, Bool, true, false, Bool-cases, some, none, List, [], ◌∷◌, get_elem?,
  if◌then◌else◌, arith,
}
use administracion_servicios.Fetch.{Best, nothing_found, Candidate, search_rras, choose}

module _ (start end step : ℕ) where
  -- If any archive with the consolidation function asked for goes back to the start of the request,
  -- the archive chosen is such a one, and none of them has a step that is nearer to the step asked
  -- for. If none goes back so far, the archive chosen has the right function. The search fails
  -- only if no archive has it.
  pub choose-IsBestFull :
      (cs : List Candidate)
      → ((k : ℕ)
          → choose start end step cs ≡ some k
          → IsBestFull start end step cs k
            ⊎ (NoFull start end step cs
                × ((c : Candidate) × (get_elem? cs k ≡ some c) × (c.cf_matches ≡ true))))
        × (choose start end step cs ≡ none
            → (j : ℕ) (c : Candidate) → get_elem? cs j ≡ some c
            → c.cf_matches ≡ false)
  unfolding choose
  choose-IsBestFull cs =
      let b = search_rras start end step 0 cs nothing_found in
      let v = search_rras-Known start end step [] cs nothing_found (nothing-Known start end step) in
      (
        λ k e. elim (Bool-cases b.have_full) [
          | inl y ↦
              let (f, _) = v.best y in
              let same : b.best_full_rra ≡ k = ground (arith, e, y) in inl (rw same at f)
          | inr y ↦ elim (Bool-cases b.have_part) [
            | inl z ↦
                let same : b.best_part_rra ≡ k = ground (arith, e, y, z) in
                inr (v.no_full y, rw same at (v.part z))
            | inr z ↦ absurd (ground (arith, e, y, z))
          ]
        ],
        λ e j c g. elim (Bool-cases c.cf_matches) [
          | inl m ↦
              absurd (v.no_full (ground (arith, e)) j c g (v.no_part (ground (arith, e)) j c g m))
          | inr m ↦ m
        ],
      )
