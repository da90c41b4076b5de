-- ===== src/Map/Sight/Line.antt =====
-- The distance from the line of a ray of src/map.cpp does not wrap between places less than 2 ^ 14 apart.
use otxserver.Common.{ℕ, ◌+◌, ◌-◌, ◌*◌, ◌^◌, ◌≤◌, ◌<◌, ◌≡◌, ◌⊎◌, inl, inr, arith, dist}
use native.Mathlib.Nat.{mul-le-mul_left, mul-le-mul_right}
use otxserver.Map.Sight.{Ray, plus, minus, abs_diff, off_line}

-- A coordinate lies between those of the start and of the end, on the side that the sign says.
abbrev pub Between : ℕ → ℕ → ℕ → Type 0
Between s d x = (s ≤ x) × (x ≤ d) ⊎ (d ≤ x) × (x ≤ s)

-- Coordinates of 16 bits.
abbrev pub Small : Ray → Type 0
Small r = (r.sx < 2 ^ 16) × (r.sy < 2 ^ 16) × (r.dx < 2 ^ 16) × (r.dy < 2 ^ 16)

-- The ends are less than 2 ^ 14 apart in x and in y.
abbrev pub Near : Ray → Type 0
Near r = (dist r.sx r.dx < 2 ^ 14) × (dist r.sy r.dy < 2 ^ 14)

abs_diff-exact : (p q : ℕ) → q ≤ 2 ^ 34 → p < q + 2 ^ 31 → q < p + 2 ^ 31 → abs_diff p q ≡ dist p q
unfolding abs_diff
abs_diff-exact p q h a b = ground arith

product : (a b m n : ℕ) → a ≤ m → b ≤ n → a * b ≤ m * n
product a b m n h k = omega (arith, mul-le-mul_right b h, mul-le-mul_left m k)

-- The two sides, by the parts into which a place cuts the way in x and in y.
up_up :
    (sx sy p i q j : ℕ)
    → (sy + q + j) * (sx + p) + sx * (sy + q) + sy * (sx + p + i) + q * i
      ≡ sy * (sx + p) + (sx + p + i) * (sy + q) + sx * (sy + q + j) + p * j
up_up sx sy p i q j = omega arith

down_up :
    (dx sy p i q j : ℕ)
    → (sy + q + j) * (dx + i) + (dx + i + p) * (sy + q) + sy * dx + p * j
      ≡ sy * (dx + i) + dx * (sy + q) + (dx + i + p) * (sy + q + j) + q * i
down_up dx sy p i q j = omega arith

up_down :
    (sx dy p i q j : ℕ)
    → dy * (sx + p) + sx * (dy + j) + (dy + j + q) * (sx + p + i) + p * j
      ≡ (dy + j + q) * (sx + p) + (sx + p + i) * (dy + j) + sx * dy + q * i
up_down sx dy p i q j = omega arith

down_down :
    (dx dy p i q j : ℕ)
    → dy * (dx + i) + (dx + i + p) * (dy + j) + (dy + j + q) * dx + q * i
      ≡ (dy + j + q) * (dx + i) + dx * (dy + j) + (dx + i + p) * dy + p * j
down_down dx dy p i q j = omega arith

exact_of :
    (a b p i q j : ℕ)
    → (a + q * i ≡ b + p * j) ⊎ (a + p * j ≡ b + q * i)
    → b ≤ 2 ^ 34
    → (p ≤ 2 ^ 14) × (i ≤ 2 ^ 14)
    → (q ≤ 2 ^ 14) × (j ≤ 2 ^ 14)
    → abs_diff a b ≡ dist a b
exact_of a b p i q j e h (hp, hi) (hq, hj) =
    let u = product q i (2 ^ 14) (2 ^ 14) hq hi in
    let v = product p j (2 ^ 14) (2 ^ 14) hp hj in
    elim e [
      | inl f ↦ abs_diff-exact a b h (omega (arith, u, v, f)) (omega (arith, u, v, f))
      | inr f ↦ abs_diff-exact a b h (omega (arith, u, v, f)) (omega (arith, u, v, f))
    ]

minus_bounded : (r : Ray) (x y : ℕ) → Small r → x < 2 ^ 16 → y < 2 ^ 16 → minus r x y ≤ 2 ^ 34
unfolding minus
minus_bounded r x y (a, b, c, d) h k =
    let top = 2 ^ 16 in
    omega (
      arith,
      product r.sy x top top (omega arith) (omega arith),
      product r.dx y top top (omega arith) (omega arith),
      product r.sx r.dy top top (omega arith) (omega arith),
    )

-- A place between the ends, at which nothing wraps.
pub off_line-exact :
    (r : Ray) (x y : ℕ)
    → Small r
    → Near r
    → Between r.sx r.dx x
    → Between r.sy r.dy y
    → off_line r x y ≡ dist (plus r x y) (minus r x y)
unfolding off_line plus minus
off_line-exact r x y s n (inl (a, b)) (inl (c, d)) =
    let e1 : r.sx + (x - r.sx) ≡ x = omega arith in
    let e2 : x + (r.dx - x) ≡ r.dx = omega arith in
    let e3 : r.sy + (y - r.sy) ≡ y = omega arith in
    let e4 : y + (r.dy - y) ≡ r.dy = omega arith in
    let e = up_up r.sx r.sy (x - r.sx) (r.dx - x) (y - r.sy) (r.dy - y) in
    exact_of _ _ (x - r.sx) (r.dx - x) (y - r.sy) (r.dy - y) (inl (rw (e1, e2, e3, e4) at e))
      (minus_bounded r x y s (omega arith) (omega arith)) (ground arith) (ground arith)
off_line-exact r x y s n (inr (a, b)) (inl (c, d)) =
    let e1 : r.dx + (x - r.dx) ≡ x = omega arith in
    let e2 : x + (r.sx - x) ≡ r.sx = omega arith in
    let e3 : r.sy + (y - r.sy) ≡ y = omega arith in
    let e4 : y + (r.dy - y) ≡ r.dy = omega arith in
    let e = down_up r.dx r.sy (r.sx - x) (x - r.dx) (y - r.sy) (r.dy - y) in
    exact_of _ _ (r.sx - x) (x - r.dx) (y - r.sy) (r.dy - y) (inr (rw (e1, e2, e3, e4) at e))
      (minus_bounded r x y s (omega arith) (omega arith)) (ground arith) (ground arith)
off_line-exact r x y s n (inl (a, b)) (inr (c, d)) =
    let e1 : r.sx + (x - r.sx) ≡ x = omega arith in
    let e2 : x + (r.dx - x) ≡ r.dx = omega arith in
    let e3 : r.dy + (y - r.dy) ≡ y = omega arith in
    let e4 : y + (r.sy - y) ≡ r.sy = omega arith in
    let e = up_down r.sx r.dy (x - r.sx) (r.dx - x) (r.sy - y) (y - r.dy) in
    exact_of _ _ (x - r.sx) (r.dx - x) (r.sy - y) (y - r.dy) (inr (rw (e1, e2, e3, e4) at e))
      (minus_bounded r x y s (omega arith) (omega arith)) (ground arith) (ground arith)
off_line-exact r x y s n (inr (a, b)) (inr (c, d)) =
    let e1 : r.dx + (x - r.dx) ≡ x = omega arith in
    let e2 : x + (r.sx - x) ≡ r.sx = omega arith in
    let e3 : r.dy + (y - r.dy) ≡ y = omega arith in
    let e4 : y + (r.sy - y) ≡ r.sy = omega arith in
    let e = down_down r.dx r.dy (r.sx - x) (x - r.dx) (r.sy - y) (y - r.dy) in
    exact_of _ _ (r.sx - x) (x - r.dx) (r.sy - y) (y - r.dy) (inl (rw (e1, e2, e3, e4) at e))
      (minus_bounded r x y s (omega arith) (omega arith)) (ground arith) (ground arith)
