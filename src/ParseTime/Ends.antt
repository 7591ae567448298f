-- ===== src/ParseTime/Ends.antt =====
-- Postconditions of the parsers of rrdtool-1.4.5/src/rrd_parsetime.c: the parser is not cut short,
-- and what it returns, if it returns a value, has a property.
use mathlib.Core.Path.{subst}
use administracion_servicios.Prelude.{◌≡◌, ◌≢◌, refl, Bool, true, false, if◌then◌else◌}
use administracion_servicios.ParseTime.{
  TimeError, Parsed, ok, failed, undefined, out_of_fuel, ◌>>=◌,
}

pub data Ends {A : Type 0} (P : A → Type 0) : Parsed A → Type 0 where
  holds : {a : A} → P a → Ends P (ok a)
  fails : {e : TimeError} → Ends P (failed e)
  breaks : Ends P undefined

pub Ends-bind :
    {A B : Type 0} {P : A → Type 0} {Q : B → Type 0} {r : Parsed A} {f : A → Parsed B}
    → Ends P r
    → ((a : A) → P a → Ends Q (f a))
    → Ends Q (r >>= f)
Ends-bind (holds {a} h) k = k a h
Ends-bind fails k = fails
Ends-bind breaks k = breaks

pub Ends-if :
    {A : Type 0} {P : A → Type 0} (b : Bool) {x y : Parsed A}
    → (b ≡ true → Ends P x)
    → (b ≡ false → Ends P y)
    → Ends P (if b then x else y)
Ends-if true hx hy = hx refl
Ends-if false hx hy = hy refl

pub Ends-weaken :
    {A : Type 0} {P Q : A → Type 0} {r : Parsed A} → ((a : A) → P a → Q a) → Ends P r → Ends Q r
Ends-weaken k (holds {a} h) = holds (k a h)
Ends-weaken k fails = fails
Ends-weaken k breaks = breaks

pub Ends-ok : {A : Type 0} {P : A → Type 0} {r : Parsed A} {a : A} → Ends P r → r ≡ ok a → P a
Ends-ok {P} (holds h) e = subst P (cc) h
Ends-ok fails e = cc
Ends-ok breaks e = cc

pub Ends-out_of_fuel : {A : Type 0} {P : A → Type 0} {r : Parsed A} → Ends P r → r ≢ out_of_fuel
Ends-out_of_fuel (holds h) = cc
Ends-out_of_fuel fails = cc
Ends-out_of_fuel breaks = cc
