-- ===== src/Level/Curve.antt =====
-- The experience that a level needs, by `Player::getExpForLevel` of src/player.h.
use otxserver.Common.{
  ℕ, zero, suc, ◌+◌, ◌-◌, ◌*◌, ◌/◌, ◌%◌, ◌^◌, ◌≤◌, ◌<◌, ◌≡◌, refl, inl, inr, arith, ltb, ltb→lt,
  Bool-cases,
}
use native.Mathlib.Nat.{mul-le-mul}
use otxserver.Level.{get_exp_for_level}

-- The highest level of which the experience fits in 64 bits, rounded down.
abbrev pub cap : ℕ
cap = 1_000_000

-- The sum of the numbers below `n`.
unfoldable pub tri : ℕ → ℕ
tri zero = 0
tri (suc n) = tri n + n

twice_tri : (n : ℕ) → 2 * tri n + n ≡ n * n
unfolding tri
twice_tri zero = refl
twice_tri (suc n) = omega (arith, twice_tri n)

-- The experience for a level, in hundreds, by its steps from level 1: 1, 1, 2, 4, 7, 11 and so on.
unfoldable pub hundreds : ℕ → ℕ
hundreds zero = 0
hundreds (suc zero) = 0
hundreds (suc (suc n)) = hundreds (suc n) + (tri n + 1)

cube : (n : ℕ) → 6 * hundreds (suc n) + 3 * (n * n) ≡ n * n * n + 8 * n
unfolding hundreds tri
cube zero = refl
cube (suc n) = omega (arith, cube n, twice_tri n)

squares_small : (m : ℕ) → m ≤ cap → (m * m ≤ cap * cap) × (m * m * m ≤ cap * cap * cap)
squares_small m h = let a : m * m ≤ cap * cap = mul-le-mul h h in (a, mul-le-mul a h)

-- From level 6 on nothing wraps.
from_six : (m : ℕ) → m + 6 ≤ cap → get_exp_for_level (m + 6) ≡ 100 * hundreds (m + 6)
unfolding get_exp_for_level
from_six m h =
    let b = squares_small m (omega arith) in
    let c : 6 * hundreds (m + 6) + 3 * ((m + 5) * (m + 5))
        ≡ (m + 5) * (m + 5) * (m + 5) + 8 * (m + 5) =
      let n : m + 6 ≡ suc (m + 5) = omega arith in rw n (cube (m + 5)) in
    let e1 : (m + 6 + 2 ^ 64 - 6) % 2 ^ 64 ≡ m = omega arith in
    let e2 : m * (m + 6) % 2 ^ 64 ≡ m * (m + 6) = omega (arith, b.0) in
    let e3 : (m * (m + 6) + 17) % 2 ^ 64 ≡ m * (m + 6) + 17 = omega (arith, b.0) in
    let e4 : ((m * (m + 6) + 17) * (m + 6) + 2 ^ 64 - 12) % 2 ^ 64 ≡ 6 * hundreds (m + 6) =
      omega (arith, b.0, b.1, c) in
    let e5 : 6 * hundreds (m + 6) / 6 ≡ hundreds (m + 6) = omega arith in
    let e6 : hundreds (m + 6) * 100 % 2 ^ 64 ≡ 100 * hundreds (m + 6) =
      omega (arith, b.0, b.1, c) in
    rw (e1, e2, e3, e4, e5, e6)

low : (lv : ℕ) → 1 ≤ lv → lv < 6 → get_exp_for_level lv ≡ 100 * hundreds lv
unfolding get_exp_for_level hundreds tri
low zero h k = absurd (omega arith)
low (suc zero) h k = refl
low (suc (suc zero)) h k = refl
low (suc (suc (suc zero))) h k = refl
low (suc (suc (suc (suc zero)))) h k = refl
low (suc (suc (suc (suc (suc zero))))) h k = refl
low (suc (suc (suc (suc (suc (suc n)))))) h k = absurd (omega arith)

-- Up to level 1000000 nothing that `getExpForLevel` computes is too large, although what it computes on
-- the way is negative for low levels: it is the sum of the steps.
pub get_exp_for_level_lem : (lv : ℕ) → 1 ≤ lv → lv ≤ cap → get_exp_for_level lv ≡ 100 * hundreds lv
get_exp_for_level_lem lv h k = elim (Bool-cases (ltb lv 6)) [
  | inl e ↦ low lv h (ltb→lt lv 6 e)
  | inr e ↦ let n : lv ≡ lv - 6 + 6 = ground arith in rw n (from_six (lv - 6) (omega (arith, n)))
]

-- Each level needs more than the one before it.
pub hundreds_grows : (lv : ℕ) → 1 ≤ lv → hundreds lv < hundreds (lv + 1)
unfolding hundreds
hundreds_grows zero h = absurd (omega arith)
hundreds_grows (suc n) h = let e : suc n + 1 ≡ suc (suc n) = omega arith in rw e (omega arith)

pub cap_fits : 100 * hundreds cap < 2 ^ 64
cap_fits = omega (arith, cube 999_999)

pub hundreds_one : hundreds 1 ≡ 0
unfolding hundreds
hundreds_one = refl

pub hundreds-le : (a k : ℕ) → 1 ≤ a → hundreds a ≤ hundreds (a + k)
hundreds-le a zero h = let e : a + 0 ≡ a = omega arith in rw e (omega arith)
hundreds-le a (suc k) h =
    let e : a + suc k ≡ a + k + 1 = omega arith in
    rw e (omega (arith, hundreds-le a k h, hundreds_grows (a + k) (omega arith)))
