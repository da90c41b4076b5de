-- ===== src/Map/Bits.antt =====
-- The bits of coordinates and the walks of `getLeaf` and `getLeafStatic` in src/map.h and src/map.cpp.
use otxserver.Common.{
  ℕ, zero, suc, ◌+◌, ◌*◌, ◌/◌, ◌%◌, ◌^◌, ◌<◌, ◌≡◌, refl, ap, ◌∙◌, Bool, true, false, ◌&&◌, arith,
  ◌==◌,
}
use otxserver.Map.{QTreeNode, null, node, leaf, high_bit, shift, get_leaf, descend, get_leaf_static}
use otxserver.Map.Paths.{same}

-- Two to the power of the number of bits.
pub pow2 : ℕ → ℕ
pow2 zero = 1
pow2 (suc n) = 2 * pow2 n

pow2_pos : (n : ℕ) → 0 < pow2 n
unfolding pow2
pow2_pos zero = omega arith
pow2_pos (suc n) = omega (arith, pow2_pos n)

high_or_not :
    (b c p w v : ℕ)
    → b < 2
    → c < 2
    → w < 2 ^ 16 * p
    → v < 2 ^ 16 * p
    → ((b * (2 ^ 16 * p) + w) / 2 ^ 16 == (c * (2 ^ 16 * p) + v) / 2 ^ 16)
      ≡ (b == c && (w / 2 ^ 16 == v / 2 ^ 16))
high_or_not zero zero p w v h k f g = ground arith
high_or_not zero (suc zero) p w v h k f g = ground arith
high_or_not (suc zero) zero p w v h k f g = ground arith
high_or_not (suc zero) (suc zero) p w v h k f g = ground arith
high_or_not (suc (suc b)) c p w v h k f g = absurd (omega arith)
high_or_not b (suc (suc c)) p w v h k f g = absurd (omega arith)

-- A coordinate is its high bit and the rest.
halves : (x p : ℕ) → x < 2 ^ 16 → x * (2 * p) ≡ high_bit x * (2 ^ 16 * p) + shift x * p
halves x p h =
    let two : x * 2 ≡ high_bit x * 2 ^ 16 + shift x = omega arith in
    omega (arith, ap (λ (t : ℕ). t * p) two)

below : (x p : ℕ) → 0 < p → shift x * p < 2 ^ 16 * p
below x p h = grind arith

-- Two places have the same path where their coordinates agree but for the bits that are left.
pub same_iff :
    (n x u : ℕ)
    → x < 2 ^ 16
    → u < 2 ^ 16
    → same n x u ≡ (x * pow2 n / 2 ^ 16 == u * pow2 n / 2 ^ 16)
unfolding same pow2
same_iff zero x u h k = ground arith
same_iff (suc n) x u h k =
    let p = pow2 n in
    rw (
      halves x p h,
      halves u p k,
      same_iff n (shift x) (shift u) (omega arith) (omega arith),
      high_or_not (high_bit x) (high_bit u) p (shift x * p) (shift u * p) (omega arith)
          (omega arith) (below x p (pow2_pos n)) (below u p (pow2_pos n)),
    )

pub same_leaf : (x u : ℕ) → x < 2 ^ 16 → u < 2 ^ 16 → same 13 x u ≡ (x / 8 == u / 8)
unfolding pow2
same_leaf x u h k =
    let e : x * 8192 / 2 ^ 16 ≡ x / 8 = omega arith in
    let f : u * 8192 / 2 ^ 16 ≡ u / 8 = omega arith in same_iff 13 x u h k ∙ rw (e, f)

-- The two walks to a leaf are the same, although one keeps the bits that are shifted out.
descend-eq :
    (x y u v : ℕ) (t : QTreeNode)
    → u % 2 ^ 16 ≡ x % 2 ^ 16
    → v % 2 ^ 16 ≡ y % 2 ^ 16
    → descend u v t ≡ get_leaf x y t
unfolding descend get_leaf
descend-eq x y u v null h k = refl
descend-eq x y u v (leaf l) h k = refl
descend-eq x y u v (node a b c d) h k =
    let bx : high_bit u ≡ high_bit x = omega arith in
    let by : high_bit v ≡ high_bit y = omega arith in
    rw (
      bx,
      by,
      descend-eq (shift x) (shift y) (u * 2 % 2 ^ 32) (v * 2 % 2 ^ 32) a (omega arith)
          (omega arith),
      descend-eq (shift x) (shift y) (u * 2 % 2 ^ 32) (v * 2 % 2 ^ 32) b (omega arith)
          (omega arith),
      descend-eq (shift x) (shift y) (u * 2 % 2 ^ 32) (v * 2 % 2 ^ 32) c (omega arith)
          (omega arith),
      descend-eq (shift x) (shift y) (u * 2 % 2 ^ 32) (v * 2 % 2 ^ 32) d (omega arith)
          (omega arith),
    )

abbrev pub is_node : QTreeNode → Bool
is_node null = false
is_node (leaf l) = false
is_node (node a b c d) = true

pub get_leaf_static-eq :
    (x y : ℕ) (t : QTreeNode) → is_node t ≡ true → get_leaf_static x y t ≡ get_leaf x y t
unfolding get_leaf_static
get_leaf_static-eq x y null h = cc
get_leaf_static-eq x y (leaf l) h = cc
get_leaf_static-eq x y (node a b c d) h = descend-eq x y x y (node a b c d) refl refl
