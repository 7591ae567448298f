-- ===== src/Diff/Tests.antt =====
-- `rrd_diff` of rrdtool-1.4.5/src/rrd_diff.c on short texts, and on one of 29 digits, where it
-- writes behind the end of its buffer.
use administracion_servicios.Prelude.{ℕ, zero, suc, ◌≡◌, refl, List, [], ◌∷◌, arith}
use administracion_servicios.Prelude.Int.{negsuc}
use administracion_servicios.Diff.{
  rrd_diff, value, overrun, skip_sign, digits, subtract, complement, difference,
}
use administracion_servicios.Diff.Correct.{rrd_diff-difference, digits_of}

-- "1005" and "2017;"
abbrev earlier : List ℕ
earlier = b'1' ∷ b'0' ∷ b'0' ∷ b'5' ∷ []

abbrev later : List ℕ
later = b'2' ∷ b'0' ∷ b'1' ∷ b'7' ∷ b';' ∷ []

earlier_digits : digits_of earlier ≡ earlier
unfolding skip_sign digits
earlier_digits = refl

rrd_diff-difference_example :
    unfold skip_sign digits in (rrd_diff earlier later ≡ value (negsuc 1011))
unfolding skip_sign digits
rrd_diff-difference_example =
    rrd_diff-difference earlier later refl (omega arith) (omega arith) (omega arith) (omega arith)

abbrev ones : ℕ → List ℕ
ones zero = []
ones (suc n) = b'1' ∷ ones n

too_long : rrd_diff (ones 29) (ones 1) ≡ overrun
unfolding rrd_diff skip_sign digits difference subtract complement
too_long = refl
