-- ===== src/ParseTime/Whole/Fuel.antt =====
-- The rounds of the loop over the offsets of `rrd_parsetime` in rrdtool-1.4.5/src/rrd_parsetime.c.
use administracion_servicios.Prelude.{
  ℕ, zero, suc, ◌≤◌, ◌<◌, ◌≡◌, refl, ◌⊎◌, inl, inr, Option, none, some, length, Option-cases, arith,
}
use administracion_servicios.ParseTime.{Symbol, TimeValue, Scanner, token, atoi, ok, ◌>>=◌}
use administracion_servicios.ParseTime.Ends.{Ends, holds, breaks, Ends-bind, Ends-if, Ends-weaken}
use administracion_servicios.ParseTime.Offset.{
  State, multiplier, add_delta, fits, with_unit, plus_minus, operation, advance, offset_loop,
}
use administracion_servicios.ParseTime.Whole.Within.{Within, token-Within, expect2-Within}

abbrev Leaves : ℕ → State → Type 0
Leaves n t = Within n t.scanner

with_unit-Leaves :
    (n : ℕ) (op : Symbol) (prev : Option Symbol) (v : TimeValue) (sc : Scanner)
    → Within n sc
    → Ends (Leaves n) (with_unit op prev v sc)
unfolding with_unit
with_unit-Leaves n op prev v sc w =
    let delta = atoi sc.sc_token in
    let unit = multiplier prev delta (token sc).sc_tokid in
    Ends-if (fits delta unit (add_delta op delta unit v)) (λ _. holds (token-Within n sc w).0)
      (λ _. breaks)

plus_minus-Leaves :
    (n : ℕ) (o : Option Symbol) (s : State) → Leaves n s → Ends (Leaves n) (plus_minus o s)
unfolding plus_minus
plus_minus-Leaves n none s w = with_unit-Leaves n s.op s.prev_multiplier s.ptv s.scanner w
plus_minus-Leaves n (some doop) s w =
    Ends-bind (expect2-Within n _ s.scanner w) (λ sc h. with_unit-Leaves n doop none s.ptv sc h)

offset_loop_last :
    (fuel : ℕ) (s : State) → operation s.scanner.sc_tokid ≡ none → offset_loop (suc fuel) s ≡ ok s
unfolding offset_loop
offset_loop_last fuel s e = rw (e, offset_loop) refl

pub offset_loop_more :
    (fuel : ℕ) (s : State) (doop : Option Symbol)
    → operation s.scanner.sc_tokid ≡ some doop
    → offset_loop (suc fuel) s ≡ (plus_minus doop s >>= λ t. offset_loop fuel (advance t))
unfolding offset_loop
offset_loop_more fuel s doop e = rw (e, offset_loop) refl

-- the next round, with a bound for less text
next_round :
    (fuel n : ℕ)
    → ((m : ℕ) (s : State) → Leaves m s → suc m < fuel → Ends (Leaves m) (offset_loop fuel s))
    → (t : State) → Leaves n t
    → n < fuel
    → Ends (Leaves n) (offset_loop fuel (advance t))
next_round zero n ih t w l = absurd (omega arith)
next_round (suc fuel) n ih t w l = go (token-Within n t.scanner w)
  where
    go :
        Within n (token t.scanner)
          × ((operation (token t.scanner).sc_tokid ≡ none)
              ⊎ (suc (length (token t.scanner).sct) ≤ n))
        → Ends (Leaves n) (offset_loop (suc fuel) (advance t))
    go (wa, inl stop) = rw (offset_loop_last fuel (advance t) stop) (holds wa)
    go (wa, inr lt) =
        let m = length (token t.scanner).sct in
        Ends-weaken (λ u h. (h.0, omega (arith, h.1)))
          (ih m (advance t) (wa.0, omega arith) (omega arith))

-- The loop needs a round for each byte that is left, and two more.
pub offset_loop-Ends :
    (fuel n : ℕ) (s : State) → Leaves n s → suc n < fuel → Ends (Leaves n) (offset_loop fuel s)
offset_loop-Ends zero n s w l = absurd (omega arith)
offset_loop-Ends (suc fuel) n s w l = elim (Option-cases (operation s.scanner.sc_tokid)) [
  | inl e ↦ rw (offset_loop_last fuel s e) (holds w)
  | inr (doop, e) ↦ rw (offset_loop_more fuel s doop e) (
      Ends-bind (plus_minus-Leaves n doop s w)
        (λ t wt. next_round fuel n (offset_loop-Ends fuel) t wt (omega arith)))
]
