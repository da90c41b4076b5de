-- ===== src/Common/Sets.antt =====
-- Vectors of numbers that are searched by `std::find` and hold each number at most once.
use Prim.Native.Nat.{ℕ}
use mathlib.Core.Path.{◌≡◌, refl}
use mathlib.Core.Bool.{Bool, false, ◌&&◌, ◌||◌, not}
use mathlib.Core.List.{List, [], ◌∷◌, ◌++◌}
use native.Mathlib.Omega.{arith}
use otxserver.Common.Tests.{◌==◌, if◌then◌else◌}

-- `std::find(l.begin(), l.end(), x) != l.end()`
unfoldable pub mem : ℕ → List ℕ → Bool
mem x [] = false
mem x (y ∷ ys) = x == y || mem x ys

-- The first occurrence goes, as with `std::find` and `erase`.
unfoldable pub erase : ℕ → List ℕ → List ℕ
erase x [] = []
erase x (y ∷ ys) = if x == y then ys else y ∷ erase x ys

abbrev pub Distinct : List ℕ → Type 0
Distinct [] = Unit {0}
Distinct (x ∷ xs) = (mem x xs ≡ false) × Distinct xs

pub mem-append_one : (x y : ℕ) (xs : List ℕ) → mem x (xs ++ (y ∷ [])) ≡ (mem x xs || x == y)
unfolding mem
mem-append_one x y [] = ground arith
mem-append_one x y (z ∷ zs) = ground (arith, mem-append_one x y zs)

pub mem-erase :
    (x y : ℕ) (xs : List ℕ) → Distinct xs → mem x (erase y xs) ≡ (mem x xs && not (x == y))
unfolding mem erase
mem-erase x y [] d = refl
mem-erase x y (z ∷ zs) d = ground (arith, mem-erase x y zs d.1)

pub erase-Distinct : (y : ℕ) (xs : List ℕ) → Distinct xs → Distinct (erase y xs)
unfolding mem erase
erase-Distinct y [] d = tt
erase-Distinct y (z ∷ zs) d = ground (arith, erase-Distinct y zs d.1, mem-erase z y zs d.1)

pub append_one-Distinct :
    (y : ℕ) (xs : List ℕ) → Distinct xs → mem y xs ≡ false → Distinct (xs ++ (y ∷ []))
unfolding mem
append_one-Distinct y [] d h = (refl, tt)
append_one-Distinct y (z ∷ zs) d h =
    ground (arith, append_one-Distinct y zs d.1, mem-append_one z y zs)

-- What is not in the vector is not erased.
pub erase_absent : (x : ℕ) (xs : List ℕ) → mem x xs ≡ false → erase x xs ≡ xs
unfolding mem erase
erase_absent x [] h = refl
erase_absent x (y ∷ ys) h = ground (arith, erase_absent x ys)
