-- ===== src/Update/Readings/Tests.antt =====
-- Readings of rrdtool-1.4.5/src/rrd_update.c: a GAUGE with a maximum, and a COUNTER that wraps.
use administracion_servicios.Prelude.{ℕ, ◌≡◌, refl, ap, Option, some, List, [], ◌∷◌, arith}
use administracion_servicios.Prelude.Int.{ℤ, pos, negsuc, ltb_ℤ, ◌+ℤ◌, ◌-ℤ◌, ◌*ℤ◌}
use administracion_servicios.Double.Sample.{Number, int, nan, add, mul, sample, sample-HasNan}
use administracion_servicios.Rrd.{DsDef, PdpPrep, gauge, counter}
use administracion_servicios.Update.Readings.{update_pdp_prep, new_value, update_pdp_prep_ds, of_ℤ}
use administracion_servicios.Update.Readings.Bounds.{AllChecked, update_pdp_prep-AllChecked}
use administracion_servicios.Update.Readings.Counter.{ExactInts, counter-wraps}

-- reads "9" only
abbrev nine : List ℕ → Option Number
nine s = some (int (pos 9))

abbrev source : DsDef Number
source = record { ds_nam = []; dst = gauge; mrhb_cnt = 600; min_val = nan; max_val = int (pos 8) }

abbrev prep : PdpPrep Number
prep = record { last_ds = []; unkn_sec_cnt = 0; pdp_val = int (pos 0) }

abbrev reading : List ℕ
reading = b'9' ∷ []

too_great :
    update_pdp_prep sample nine (int (pos 300)) (source ∷ []) (reading ∷ []) (prep ∷ [])
    ≡ some (nan ∷ [], record prep { last_ds = reading } ∷ [])
unfolding update_pdp_prep update_pdp_prep_ds new_value mul ◌*ℤ◌
too_great = refl

update_pdp_prep-AllChecked_example :
    AllChecked sample nine
      (int (pos 300))
      (source ∷ [])
      (reading ∷ [])
      (prep ∷ [])
      (nan ∷ [])
      (record prep { last_ds = reading } ∷ [])
update_pdp_prep-AllChecked_example =
    update_pdp_prep-AllChecked sample nine sample-HasNan (int (pos 300)) (source ∷ [])
      (reading ∷ []) (prep ∷ []) (nan ∷ []) (record prep { last_ds = reading } ∷ []) too_great

of_ℤ-int : (z : ℤ) → of_ℤ sample nine z ≡ int z
unfolding ◌-ℤ◌
of_ℤ-int (pos n) = refl
of_ℤ-int (negsuc n) = ap int (ground arith)

sum_exact :
    (z : ℤ) (n : ℕ)
    → sample.add (of_ℤ sample nine z) (sample.of_ℕ n) ≡ of_ℤ sample nine (z +ℤ pos n)
unfolding add
sum_exact z n = rw (of_ℤ-int z, of_ℤ-int (z +ℤ pos n)) refl

below_exact : (z : ℤ) → sample.lt (of_ℤ sample nine z) (sample.of_ℕ 0) ≡ ltb_ℤ z (pos 0)
below_exact z = rw (of_ℤ-int z) refl

sample-ExactInts : ExactInts sample nine
sample-ExactInts = record { below = λ z l. below_exact z; plus = λ z n l m. sum_exact z n }

-- "4294967290" and then "4"
abbrev before : List ℕ
before = b'4' ∷ b'2' ∷ b'9' ∷ b'4' ∷ b'9' ∷ b'6' ∷ b'7' ∷ b'2' ∷ b'9' ∷ b'0' ∷ []

counter-wraps_example :
    new_value sample nine counter (int (pos 5)) (b'4' ∷ []) before
    ≡ some (int (pos 10), int (pos 2))
counter-wraps_example =
    counter-wraps sample nine sample-ExactInts (int (pos 5)) (b'4' ∷ []) before refl refl
      (omega arith) (omega arith) (omega arith) (omega arith) (omega arith) (omega arith)
