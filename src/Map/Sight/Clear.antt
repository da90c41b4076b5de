-- ===== src/Map/Sight/Clear.antt =====
-- What `checkSightLine` and `isSightClear` of src/map.cpp answer.
use otxserver.Common.{
  ℕ, zero, suc, ◌+◌, ◌-◌, ◌^◌, ◌≤◌, ◌<◌, ◌≡◌, refl, inl, inr, Bool, true, false, not, ◌&&◌, Option,
  none, some, List, [], ◌∷◌, ap, ◌∙◌, ==_iff, ◌⊎◌, arith, ltb, leb, ◌==◌, Bool-cases, dist,
  if_intro,
}
use otxserver.Position.{Position}
use otxserver.Map.{QTreeNode, get_tile}
use otxserver.Map.Sight.{
  Ray, next, has, walk, fall, same_position, then_fall, ray, ray_fuel, check_sight_line, or_else,
  is_sight_clear,
}
use otxserver.Map.Sight.Line.{Small, Near}
use otxserver.Map.Sight.Progress.{left, OnRay, next-OnRay, next_nearer}

abbrev pub is_some : Option Bool → Bool
is_some none = false
is_some (some b) = true

-- With more fuel than the ray has places to go, it ends, on floors at most 15 apart.
walk-is_some :
    (fuel : ℕ) (root : QTreeNode) (blocks : ℕ → Bool) (r : Ray) (z dz : ℕ) (p : ℕ × ℕ)
    → Small r
    → Near r
    → OnRay r p
    → dist z dz ≤ 15
    → left r p < fuel
    → is_some (walk fuel root blocks r z dz p) ≡ true
unfolding walk
walk-is_some zero root blocks r z dz p s n o k h = absurd (omega arith)
walk-is_some (suc fuel) root blocks r z dz p s n o k h =
    let l : leb (dist z dz) 15 ≡ true = ground arith in
    elim (Bool-cases (p.0 == r.dx && p.1 == r.dy)) [
      | inl e ↦ rw (e, l) refl
      | inr e ↦ rw e (
          if_intro (λ o. is_some o ≡ true) (has blocks (get_tile root (next r p).0 (next r p).1 z))
            refl
            (walk-is_some fuel root blocks r z dz (next r p) s n (next-OnRay r p s o) k
              (omega (arith, next_nearer r p s n o e, h))))
    ]

-- The places that a ray comes to after `p`, one step after another until it is at its end: each
-- lies in the box between its ends, and nearer to the end than the one before.
abbrev pub Leads : Ray → ℕ × ℕ → List (ℕ × ℕ) → Type 0
Leads r p [] = (p.0 ≡ r.dx) × (p.1 ≡ r.dy)
Leads r p (q ∷ qs) = (q ≡ next r p) × OnRay r q × (left r q < left r p) × Leads r q qs

-- A tile that blocks is on none of the places, on the floor `z`; or it is on one of them.
abbrev pub Free : QTreeNode → (ℕ → Bool) → ℕ → List (ℕ × ℕ) → Type 0
Free root blocks z [] = Unit
Free root blocks z (q ∷ qs) = (has blocks (get_tile root q.0 q.1 z) ≡ false) × Free root blocks z qs

abbrev pub Blocked : QTreeNode → (ℕ → Bool) → ℕ → List (ℕ × ℕ) → Type 0
Blocked root blocks z [] = ⊥
Blocked root blocks z (q ∷ qs) =
    (has blocks (get_tile root q.0 q.1 z) ≡ true) ⊎ Blocked root blocks z qs

walk-Leads :
    (fuel : ℕ) (root : QTreeNode) (blocks : ℕ → Bool) (r : Ray) (z dz : ℕ) (p : ℕ × ℕ)
    → Small r
    → Near r
    → OnRay r p
    → dist z dz ≤ 15
    → left r p < fuel
    → (qs : List (ℕ × ℕ)) × Leads r p qs
      × ((walk fuel root blocks r z dz p ≡ some true) × Free root blocks z qs
          ⊎ (walk fuel root blocks r z dz p ≡ some false) × Blocked root blocks z qs)
unfolding walk
walk-Leads zero root blocks r z dz p s n o k h = absurd (omega arith)
walk-Leads (suc fuel) root blocks r z dz p s n o k h =
    let l : leb (dist z dz) 15 ≡ true = ground arith in
    elim (Bool-cases (p.0 == r.dx && p.1 == r.dy)) [
      | inl e ↦ ([], (ground arith, ground arith), inl (rw (e, l) refl, tt))
      | inr e ↦
          let q = next r p in
          let o' = next-OnRay r p s o in
          let closer = next_nearer r p s n o e in
          let (qs, leads, answer) =
            walk-Leads fuel root blocks r z dz q s n o' k (omega (arith, closer, h)) in
          (
            q ∷ qs,
            (refl, o', closer, leads),
            elim (Bool-cases (has blocks (get_tile root q.0 q.1 z))) [
              | inl b ↦ inr (rw (e, b) refl, inl b)
              | inr b ↦ elim answer [
                | inl (w, free) ↦ inl (rw (e, b) w, (b, free))
                | inr (w, blocked) ↦ inr (rw (e, b) w, inr blocked)
              ]
            ],
          )
    ]

-- What the second loop finds above the destination.
fall-cases :
    (root : QTreeNode) (filled : ℕ → Bool) (n x y z : ℕ)
    → (fall root filled n x y z ≡ true)
        × ((w : ℕ) → z ≤ w → w < z + n → has filled (get_tile root x y w) ≡ false)
      ⊎ (fall root filled n x y z ≡ false)
        × ((w : ℕ) × (z ≤ w) × (w < z + n) × (has filled (get_tile root x y w) ≡ true))
unfolding fall
fall-cases root filled zero x y z = inl (refl, λ w a b. absurd (omega arith))
fall-cases root filled (suc n) x y z = elim (Bool-cases (has filled (get_tile root x y z))) [
  | inl e ↦ inr (rw e refl, (z, omega arith, omega arith, e))
  | inr e ↦ elim (fall-cases root filled n x y (z + 1)) [
    | inr (f, (w, a, b, c)) ↦ inr (rw e f, (w, omega arith, omega arith, c))
    | inl (f, all) ↦ inl (
      rw e f,
      λ w a b. elim (Bool-cases (w == z)) [
        | inl same ↦ ap (λ v. has filled (get_tile root x y v)) ((==_iff w z).0 same) ∙ e
        | inr other ↦ all w (ground arith) (omega arith)
      ],
    )
  ]
]

-- A place of the map.
abbrev pub OnMap : Position → Type 0
OnMap p = (p.x < 2 ^ 16) × (p.y < 2 ^ 16) × (p.z < 16)

abbrev pub ends : Position → Position → Ray
ends a b = record { sx = a.x; sy = a.y; dx = b.x; dy = b.y }

start-OnRay : (a b : Position) → OnRay (ends a b) (a.x, a.y)
start-OnRay a b = (ground arith, ground arith)

ray-is_some :
    (root : QTreeNode) (blocks filled : ℕ → Bool) (a b : Position)
    → OnMap a
    → OnMap b
    → Near (ends a b)
    → is_some (ray ray_fuel root blocks filled a b) ≡ true
ray-is_some root blocks filled a b (ax, ay, az) (bx, by, bz) n =
    go (walk ray_fuel root blocks (ends a b) a.z b.z (a.x, a.y)) (
      walk-is_some ray_fuel root blocks (ends a b) a.z b.z (a.x, a.y) (ax, ay, bx, by) n
        (start-OnRay a b) (omega arith) (omega arith))
  where
    go :
        (o : Option Bool)
        → is_some o ≡ true
        → is_some (then_fall o (fall root filled (b.z - a.z) b.x b.y a.z)) ≡ true
    go none h = cc
    go (some true) h = refl
    go (some false) h = refl

Near-swap : (a b : Position) → Near (ends a b) → Near (ends b a)
Near-swap a b n = (ground arith, ground arith)

check_sight_line-is_some :
    (root : QTreeNode) (blocks filled : ℕ → Bool) (a b : Position)
    → OnMap a
    → OnMap b
    → Near (ends a b)
    → is_some (check_sight_line ray_fuel root blocks filled a b) ≡ true
unfolding check_sight_line
check_sight_line-is_some root blocks filled a b h k n =
    if_intro (λ o. is_some o ≡ true) (same_position a b) refl
      (if_intro (λ o. is_some o ≡ true) (ltb b.z a.z)
        (ray-is_some root blocks filled b a k h (Near-swap a b n))
        (ray-is_some root blocks filled a b h k n))

or_else-is_some :
    (o p : Option Bool) → is_some o ≡ true → is_some p ≡ true → is_some (or_else o p) ≡ true
or_else-is_some none p h k = cc
or_else-is_some (some true) p h k = refl
or_else-is_some (some false) p h k = k

-- `isSightClear` ends between any two places of the map that are less than 2 ^ 14 apart in x and in y:
-- each step of its rays comes nearer to the end, so that 2 ^ 17 steps are enough.
pub is_sight_clear-is_some :
    (root : QTreeNode) (blocks filled : ℕ → Bool) (a b : Position) (floor_check : Bool)
    → OnMap a
    → OnMap b
    → Near (ends a b)
    → is_some (is_sight_clear ray_fuel root blocks filled a b floor_check) ≡ true
unfolding is_sight_clear
is_sight_clear-is_some root blocks filled a b floor_check h k n =
    if_intro (λ o. is_some o ≡ true) (floor_check && not (a.z == b.z)) refl
      (or_else-is_some _ _ (check_sight_line-is_some root blocks filled a b h k n)
        (check_sight_line-is_some root blocks filled b a k h (Near-swap a b n)))

-- The ray from `a` to `b` ends with the answer true, by its way and the tiles above `b`; or it ends
-- with the answer false.
abbrev pub Clear : QTreeNode → (ℕ → Bool) → (ℕ → Bool) → Position → Position → List (ℕ × ℕ) → Type 0
Clear root blocks filled a b qs =
    Free root blocks a.z qs
    × ((w : ℕ) → a.z ≤ w → w < b.z → has filled (get_tile root b.x b.y w) ≡ false)

abbrev pub Obstructed :
    QTreeNode → (ℕ → Bool) → (ℕ → Bool) → Position → Position → List (ℕ × ℕ) → Type 0
Obstructed root blocks filled a b qs =
    Blocked root blocks a.z qs
    ⊎ ((w : ℕ) × (a.z ≤ w) × (w < b.z) × (has filled (get_tile root b.x b.y w) ≡ true))

ray-cases :
    (root : QTreeNode) (blocks filled : ℕ → Bool) (a b : Position)
    → OnMap a
    → OnMap b
    → Near (ends a b)
    → a.z ≤ b.z
    → (qs : List (ℕ × ℕ)) × Leads (ends a b) (a.x, a.y) qs
      × ((ray ray_fuel root blocks filled a b ≡ some true) × Clear root blocks filled a b qs
          ⊎ (ray ray_fuel root blocks filled a b ≡ some false)
            × Obstructed root blocks filled a b qs)
ray-cases root blocks filled a b (ax, ay, az) (bx, by, bz) n z =
    let (qs, leads, answer) =
      walk-Leads ray_fuel root blocks (ends a b) a.z b.z (a.x, a.y) (ax, ay, bx, by) n
        (start-OnRay a b) (omega arith) (omega arith) in
    (
      qs,
      leads,
      elim answer [
        | inr (w, blocked) ↦ inr (rw w refl, inl blocked)
        | inl (w, free) ↦ elim (fall-cases root filled (b.z - a.z) b.x b.y a.z) [
          | inl (f, empty) ↦ inl (rw (w, f) refl, (free, λ v p q. empty v p (omega arith)))
          | inr (f, (v, p, q, full)) ↦ inr (rw (w, f) refl, inr (v, p, omega arith, full))
        ]
      ],
    )

-- Between two places of the map that are less than 2 ^ 14 apart in x and in y, the first not below the
-- second, `checkSightLine` ends. The ray comes to places in the box between the two, each nearer to the
-- second than the one before, until it is at its x and y. The answer is true where no tile at these
-- places on the floor of the first blocks, and no tile above the second, from that floor on, has
-- things; it is false where a tile at one of these places blocks or one above the second has things.
pub check_sight_line-cases :
    (root : QTreeNode) (blocks filled : ℕ → Bool) (a b : Position)
    → OnMap a
    → OnMap b
    → Near (ends a b)
    → a.z ≤ b.z
    → (qs : List (ℕ × ℕ)) × Leads (ends a b) (a.x, a.y) qs
      × ((check_sight_line ray_fuel root blocks filled a b ≡ some true)
            × Clear root blocks filled a b qs
          ⊎ (check_sight_line ray_fuel root blocks filled a b ≡ some false)
            × Obstructed root blocks filled a b qs)
unfolding check_sight_line
check_sight_line-cases root blocks filled a b h k n z =
    let upper : ltb b.z a.z ≡ false = ground arith in
    elim (Bool-cases (same_position a b)) [
      | inr e ↦ rw (e, upper) (ray-cases root blocks filled a b h k n z)
      | inl e ↦
          let x : a.x ≡ b.x = ground arith in
          let y : a.y ≡ b.y = ground arith in
          let floor : a.z ≡ b.z = ground arith in
          ([], (x, y), inl (rw e refl, (tt, λ w p q. absurd (omega arith))))
    ]
