-- ===== src/Prelude/Slices.antt =====
-- Parts of lists, cut out by `take` and `drop`, and writes outside of them.
use Prim.Native.Nat.{ℕ, zero, suc, ◌+◌, ◌-◌, ◌≤◌, ◌<◌}
use mathlib.Core.Path.{◌≡◌, refl, ap}
use mathlib.Core.List.{List, [], ◌∷◌}
use native.Mathlib.Omega.{arith}
use administracion_servicios.Prelude.Lists.{length, get_or, set, take, drop}

module _ {A : Type 0} where
  pub drop-drop : (n k : ℕ) (xs : List A) → drop (n + k) xs ≡ drop k (drop n xs)
  drop-drop zero k xs = let e : 0 + k ≡ k = omega arith in rw e refl
  drop-drop (suc n) zero [] = let e : suc n + 0 ≡ suc n = omega arith in rw e refl
  drop-drop (suc n) (suc k) [] = let e : suc n + suc k ≡ suc (n + suc k) = omega arith in rw e refl
  drop-drop (suc n) k (x ∷ xs) =
      let e : suc n + k ≡ suc (n + k) = omega arith in rw e (drop-drop n k xs)

  pub length-drop : (n : ℕ) (xs : List A) → length (drop n xs) ≡ length xs - n
  length-drop zero xs = omega arith
  length-drop (suc n) [] = omega arith
  length-drop (suc n) (x ∷ xs) = omega (arith, length-drop n xs)

  pub get_or-drop : (n j : ℕ) (xs : List A) (d : A) → get_or (drop n xs) j d ≡ get_or xs (n + j) d
  get_or-drop zero j xs d = let e : 0 + j ≡ j = omega arith in rw e refl
  get_or-drop (suc n) j [] d = refl
  get_or-drop (suc n) j (x ∷ xs) d =
      let e : suc n + j ≡ suc (n + j) = omega arith in rw e (get_or-drop n j xs d)

  pub get_or-take : (k j : ℕ) (xs : List A) (d : A) → j < k → get_or (take k xs) j d ≡ get_or xs j d
  get_or-take zero j xs d l = absurd (omega arith)
  get_or-take (suc k) j [] d l = refl
  get_or-take (suc k) zero (x ∷ xs) d l = refl
  get_or-take (suc k) (suc j) (x ∷ xs) d l = get_or-take k j xs d (omega arith)

  pub take-take : (j k : ℕ) (xs : List A) → j ≤ k → take j (take k xs) ≡ take j xs
  take-take zero k xs l = refl
  take-take (suc j) zero xs l = absurd (omega arith)
  take-take (suc j) (suc k) [] l = refl
  take-take (suc j) (suc k) (x ∷ xs) l = ap (λ t. x ∷ t) (take-take j k xs (omega arith))

  pub length-take_le : (k : ℕ) (xs : List A) → k ≤ length xs → length (take k xs) ≡ k
  length-take_le zero xs l = refl
  length-take_le (suc k) [] l = absurd (omega arith)
  length-take_le (suc k) (x ∷ xs) l = ap suc (length-take_le k xs (omega arith))

  pub take-set : (k i : ℕ) (xs : List A) (v : A) → k ≤ i → take k (set xs i v) ≡ take k xs
  take-set zero i xs v l = refl
  take-set (suc k) i [] v l = refl
  take-set (suc k) zero (x ∷ xs) v l = absurd (omega arith)
  take-set (suc k) (suc i) (x ∷ xs) v l = ap (λ t. x ∷ t) (take-set k i xs v (omega arith))

  pub take-drop-set :
      (n k i : ℕ) (xs : List A) (v : A)
      → n + k ≤ i
      → take k (drop n (set xs i v)) ≡ take k (drop n xs)
  take-drop-set zero k i xs v l = take-set k i xs v (omega arith)
  take-drop-set (suc n) k i [] v l = refl
  take-drop-set (suc n) k zero (x ∷ xs) v l = absurd (omega arith)
  take-drop-set (suc n) k (suc i) (x ∷ xs) v l = take-drop-set n k i xs v (omega arith)
