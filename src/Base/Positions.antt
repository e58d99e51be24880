-- ===== src/Base/Positions.antt =====
-- Positions in a list: reading one, and `Vec::swap_remove`.
use Prim.Native.Nat.{ℕ, zero, suc, ◌+◌}
use mathlib.Core.Path.{◌≡◌, refl, ap}
use mathlib.Core.List.{List, [], ◌∷◌, ◌++◌, map}
use mathlib.Core.List.{Perm}
use mathlib.Core.List.Perm
use mathlib.Core.Option.{Option, none, some}
use native.Mathlib.Omega.{arith}
use nwep_rs.Base.Tests.{◌==◌, if◌then◌else◌}
use nwep_rs.Base.Lists.{length}

module _ {ℓ} {A : Type ℓ} where
  abbrev pub get_elem? : List A → ℕ → Option A
  get_elem? [] i = none
  get_elem? (x ∷ xs) zero = some x
  get_elem? (x ∷ xs) (suc i) = get_elem? xs i

  -- The last element put in front of the others; what `swap_remove` leaves behind the place.
  unfoldable pub last_first : List A → List A
  last_first [] = []
  last_first (x ∷ []) = x ∷ []
  last_first (x ∷ y ∷ ys) = elim (last_first (y ∷ ys)) [ [] ↦ x ∷ [] | l ∷ r ↦ l ∷ x ∷ r ]

  -- `Vec::swap_remove`: the last element takes the removed one's place.
  unfoldable pub swap_remove : ℕ → List A → List A
  unfolding last_first
  swap_remove i [] = []
  swap_remove zero (x ∷ xs) = last_first xs
  swap_remove (suc i) (x ∷ xs) = x ∷ swap_remove i xs

  pub get_elem?-length_append :
      (xs ys : List A) (y : A) → get_elem? (xs ++ y ∷ ys) (length xs) ≡ some y
  get_elem?-length_append [] ys y = refl
  get_elem?-length_append (x ∷ xs) ys y = get_elem?-length_append xs ys y

  pub get_elem?-length : (xs : List A) → get_elem? xs (length xs) ≡ none
  get_elem?-length [] = refl
  get_elem?-length (x ∷ xs) = get_elem?-length xs

  pub swap_remove-length_append :
      (xs ys : List A) (y : A) → swap_remove (length xs) (xs ++ y ∷ ys) ≡ xs ++ last_first ys
  unfolding swap_remove
  swap_remove-length_append [] ys y = refl
  swap_remove-length_append (x ∷ xs) ys y = ap (◌∷◌ x) (swap_remove-length_append xs ys y)

  pub length-last_first : (xs : List A) → length (last_first xs) ≡ length xs
  unfolding last_first
  length-last_first [] = refl
  length-last_first (x ∷ []) = refl
  length-last_first (x ∷ y ∷ ys) = ground (arith, length-last_first (y ∷ ys))

-- How often a number stands in a list.
abbrev pub count : ℕ → List ℕ → ℕ
count t [] = 0
count t (x ∷ xs) = (if x == t then 1 else 0) + count t xs

pub count-append : (t : ℕ) (xs ys : List ℕ) → count t (xs ++ ys) ≡ count t xs + count t ys
count-append t [] ys = omega arith
count-append t (x ∷ xs) ys = ground (arith, count-append t xs ys)

pub count-map-last_first {ℓ} :
    {A : Type ℓ} (t : ℕ) (f : A → ℕ) (xs : List A)
    → count t (map f (last_first xs)) ≡ count t (map f xs)
unfolding last_first
count-map-last_first t f [] = refl
count-map-last_first t f (x ∷ []) = refl
count-map-last_first t f (x ∷ y ∷ ys) = ground (arith, count-map-last_first t f (y ∷ ys))

pub last_first-perm {ℓ} : {A : Type ℓ} (xs : List A) → Perm (last_first xs) xs
unfolding last_first
last_first-perm [] = Perm.refl []
last_first-perm (x ∷ []) = Perm.refl (x ∷ [])
last_first-perm {A} (x ∷ y ∷ ys) = put_second (last_first (y ∷ ys)) (last_first-perm (y ∷ ys))
  where
    put_second :
        (l : List A)
        → Perm l (y ∷ ys)
        → Perm (elim l [ [] ↦ x ∷ [] | h ∷ r ↦ h ∷ x ∷ r ]) (x ∷ y ∷ ys)
    put_second [] p = Perm.cons x p
    put_second (h ∷ r) p = Perm.trans (Perm.swap x h r) (Perm.cons x p)
