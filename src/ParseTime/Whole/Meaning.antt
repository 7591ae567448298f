-- ===== src/ParseTime/Whole/Meaning.antt =====
-- What a number and a unit mean in an offset of rrdtool-1.4.5/src/rrd_parsetime.c.
use administracion_servicios.Prelude.{
  ℕ, ◌*◌, ◌≡◌, refl, Bool, true, false, Bool-cases, inl, inr, Option, none, some, ltb,
  if◌then◌else◌, arith,
}
use administracion_servicios.Prelude.Int.{ℤ, pos, ◌+ℤ◌, ◌-ℤ◌}
use administracion_servicios.ParseTime.{
  Symbol, seconds, minutes, hours, days, weeks, months, years, months_minutes, is_plus, TimeValue,
}
use administracion_servicios.ParseTime.Offset.{guess, multiplier, signed, add_delta}

-- What an offset by `n` units adds, before its sign: years, months, days and seconds.
abbrev years_in : Symbol → ℕ → ℕ
years_in years n = n
years_in _ n = 0

abbrev months_in : Symbol → ℕ → ℕ
months_in months n = n
months_in _ n = 0

abbrev days_in : Symbol → ℕ → ℕ
days_in days n = n
days_in weeks n = n * 7
days_in _ n = 0

abbrev seconds_in : Symbol → ℕ → ℕ
seconds_in years n = 0
seconds_in months n = 0
seconds_in weeks n = 0
seconds_in days n = 0
seconds_in hours n = n * 3600
seconds_in minutes n = n * 60
seconds_in _ n = n

abbrev towards : Symbol → ℤ → ℕ → ℤ
towards op a n = if is_plus op then a +ℤ pos n else a -ℤ pos n

abbrev pub moved_by : Symbol → ℕ → Symbol → TimeValue → TimeValue
moved_by op n unit v = record {
  kind = v.kind;
  offset = towards op v.offset (seconds_in unit n);
  tm = record v.tm {
    tm_year = towards op v.tm.tm_year (years_in unit n);
    tm_mon = towards op v.tm.tm_mon (months_in unit n);
    tm_mday = towards op v.tm.tm_mday (days_in unit n);
  };
}

-- whether a unit is a day or longer, or shorter than that; and what "m" stands for behind it
abbrev is_long : Symbol → Bool
is_long days = true
is_long weeks = true
is_long months = true
is_long years = true
is_long _ = false

abbrev is_short : Symbol → Bool
is_short seconds = true
is_short minutes = true
is_short hours = true
is_short _ = false

abbrev fresh_m : ℕ → Symbol
fresh_m n = if ltb n 6 then months else minutes

abbrev m_behind : Option Symbol → ℕ → Symbol
m_behind none n = fresh_m n
m_behind (some unit) n =
    if is_long unit then months else if is_short unit then minutes else fresh_m n

abbrev pub unit_meant : Symbol → Option Symbol → ℕ → Symbol
unit_meant months_minutes prev n = m_behind prev n
unit_meant other prev n = other

guess_lem : (prev : Option Symbol) (n : ℕ) → guess prev n ≡ m_behind prev n
guess_lem none n = refl
guess_lem (some days) n = refl
guess_lem (some weeks) n = refl
guess_lem (some months) n = refl
guess_lem (some years) n = refl
guess_lem (some seconds) n = refl
guess_lem (some minutes) n = refl
guess_lem (some hours) n = refl
guess_lem (some _) n = refl

pub multiplier_lem :
    (prev : Option Symbol) (n : ℕ) (k : Symbol) → multiplier prev n k ≡ unit_meant k prev n
multiplier_lem prev n months_minutes = guess_lem prev n
multiplier_lem prev n other = refl

add_zero : (a : ℤ) → (a +ℤ pos 0 ≡ a) × (a -ℤ pos 0 ≡ a)
unfolding ◌+ℤ◌ ◌-ℤ◌
add_zero a = (ground arith, ground arith)

towards-zero : (op : Symbol) (a : ℤ) → towards op a 0 ≡ a
towards-zero op a = elim (Bool-cases (is_plus op)) [
  | inl e ↦ rw e (add_zero a).0
  | inr e ↦ rw e (add_zero a).1
]

minus_lem : (a : ℤ) (n : ℕ) → a +ℤ (pos 0 -ℤ pos n) ≡ a -ℤ pos n
unfolding ◌+ℤ◌ ◌-ℤ◌
minus_lem a n = ground arith

signed_lem : (op : Symbol) (a : ℤ) (n : ℕ) → a +ℤ signed op n ≡ towards op a n
signed_lem op a n = elim (Bool-cases (is_plus op)) [
  | inl e ↦ rw e refl
  | inr e ↦ rw e (minus_lem a n)
]

hour_lem : (n : ℕ) → n * 60 * 60 ≡ n * 3600
hour_lem n = omega arith

-- The switch over the unit adds what the unit stands for.
pub add_delta-moved_by :
    (op : Symbol) (n : ℕ) (unit : Symbol) (v : TimeValue)
    → add_delta op n unit v ≡ moved_by op n unit v
unfolding add_delta
add_delta-moved_by op n years v =
    rw (signed_lem op v.tm.tm_year n) (
      rw (towards-zero op v.offset, towards-zero op v.tm.tm_mon, towards-zero op v.tm.tm_mday) refl)
add_delta-moved_by op n months v =
    rw (signed_lem op v.tm.tm_mon n) (
      rw (towards-zero op v.offset, towards-zero op v.tm.tm_year, towards-zero op v.tm.tm_mday)
        refl)
add_delta-moved_by op n weeks v =
    rw (signed_lem op v.tm.tm_mday (n * 7)) (
      rw (towards-zero op v.offset, towards-zero op v.tm.tm_mon, towards-zero op v.tm.tm_year) refl)
add_delta-moved_by op n days v =
    rw (signed_lem op v.tm.tm_mday n) (
      rw (towards-zero op v.offset, towards-zero op v.tm.tm_mon, towards-zero op v.tm.tm_year) refl)
add_delta-moved_by op n hours v = rw (hour_lem n) (
    rw (signed_lem op v.offset (n * 3600)) (
      rw (towards-zero op v.tm.tm_mday, towards-zero op v.tm.tm_mon, towards-zero op v.tm.tm_year)
        refl))
add_delta-moved_by op n minutes v = rw (signed_lem op v.offset (n * 60)) (
    rw (towards-zero op v.tm.tm_mday, towards-zero op v.tm.tm_mon, towards-zero op v.tm.tm_year)
      refl)
add_delta-moved_by op n _ v = rw (signed_lem op v.offset n) (
    rw (towards-zero op v.tm.tm_mday, towards-zero op v.tm.tm_mon, towards-zero op v.tm.tm_year)
      refl)
