-- ===== src/Map/Sight.antt =====
-- `Map::checkSightLine`, `Map::isSightClear` and `Map::canThrowObjectTo` of src/map.cpp: rays over the
-- map. A tile's properties are functions of its number. The distance from the line is an int32_t, which
-- wraps, as the source's does where its overflow is not undefined.

pub mod Progress
pub mod Line
pub mod Clear
use otxserver.Common.{
  ℕ, zero, suc, ◌+◌, ◌-◌, ◌*◌, ◌/◌, ◌%◌, ◌^◌, ◌≤◌, ◌<◌, min, max, ◌≡◌, refl, sym, ap, ◌∙◌, ◌≢◌, ◌↔◌,
  ◌⊎◌, inl, inr, Bool, true, false, not, ◌&&◌, ◌||◌, Option, none, some, List, [], ◌∷◌, ◌++◌, map,
  arith, ltb, leb, ◌==◌, if◌then◌else◌, ltb→lt, lt→ltb, leb→le, ==_iff, ==_refl, Bool-cases,
  Option-cases, dist, if_intro, length, get_elem?, get_or, set, take, drop, length-append,
  take-append, drop-append, All, All-append,
}
use otxserver.Position.{Position}
use otxserver.Map.{QTreeNode, get_tile}

-- `mx` and `my`: 1, 0 and -1.
pub data Sign : Type 0 where
  forth stay back : Sign

unfoldable pub sign : ℕ → ℕ → Sign
sign start destination =
    if ltb start destination then forth else (if start == destination then stay else back)

-- `start.x + mx`. It is -1 in the source only where the ray has reached the x of its destination, and
-- its value is then not read.
abbrev pub ahead : Sign → ℕ → ℕ
ahead forth x = x + 1
ahead stay x = x
ahead back x = x - 1

-- `start.x += mx`, of a uint16_t.
abbrev pub move : Sign → ℕ → ℕ
move forth x = (x + 1) % 2 ^ 16
move stay x = x
move back x = (x + 2 ^ 16 - 1) % 2 ^ 16

-- What does not change in the loop: where the ray starts and ends.
pub record Ray : Type 0 where
  pub sx : ℕ
  pub sy : ℕ
  pub dx : ℕ
  pub dy : ℕ

-- The two sides of A * x + B * y + C: A = dy - sy, B = sx - dx and C = -(A * dx + B * dy), with the
-- terms of either sign apart.
unfoldable pub plus : Ray → ℕ → ℕ → ℕ
plus r x y = r.dy * x + r.sx * y + r.sy * r.dx

unfoldable pub minus : Ray → ℕ → ℕ → ℕ
minus r x y = r.sy * x + r.dx * y + r.sx * r.dy

-- `std::abs` of an int32_t that is p - q, for q up to 2 ^ 34.
unfoldable pub abs_diff : ℕ → ℕ → ℕ
abs_diff p q = let w = (p + 2 ^ 34 - q) % 2 ^ 32 in if ltb w (2 ^ 31) then w else 2 ^ 32 - w

-- `std::abs(A * x + B * y + C)`
unfoldable pub off_line : Ray → ℕ → ℕ → ℕ
off_line r x y = abs_diff (plus r x y) (minus r x y)

-- The two tests of the loop, in order: y moves first, and x by the y that is reached.
abbrev pub next_y : Ray → ℕ → ℕ → ℕ
next_y r x y =
    let mx = sign r.sx r.dx in
    let my = sign r.sy r.dy in
    let hor = off_line r (ahead mx x) y in
    let ver = off_line r x (ahead my y) in
    let cross = off_line r (ahead mx x) (ahead my y) in
    if not (y == r.dy) && (x == r.dx || (ltb ver hor || ltb cross hor)) then move my y else y

abbrev pub next_x : Ray → ℕ → ℕ → ℕ → ℕ
next_x r x y y' =
    let mx = sign r.sx r.dx in
    let my = sign r.sy r.dy in
    let hor = off_line r (ahead mx x) y in
    let ver = off_line r x (ahead my y) in
    let cross = off_line r (ahead mx x) (ahead my y) in
    if not (x == r.dx) && (y' == r.dy || (ltb hor ver || ltb cross ver)) then move mx x else x

unfoldable pub next : Ray → ℕ × ℕ → ℕ × ℕ
next r (x, y) = let y' = next_y r x y in (next_x r x y y', y')

-- `tile && tile->hasProperty(BLOCKPROJECTILE)`, or another test of a tile.
abbrev pub has : (ℕ → Bool) → Option ℕ → Bool
has p none = false
has p (some tile) = p tile

-- The first loop, on fuel, at the floor `z` of the start and `dz` of the destination: whether it ends
-- with no tile that blocks; `none` where the fuel does not suffice.
unfoldable pub walk : ℕ → QTreeNode → (ℕ → Bool) → Ray → ℕ → ℕ → ℕ × ℕ → Option Bool
walk zero root blocks r z dz p = none
walk (suc fuel) root blocks r z dz p =
    let q = next r p in
    let rest = walk fuel root blocks r z dz q in
    if p.0 == r.dx && p.1 == r.dy && leb (dist z dz) 15
    then some true
    else (if has blocks (get_tile root q.0 q.1 z) then some false else rest)

-- The second loop, through `n` floors from `z` down.
unfoldable pub fall : QTreeNode → (ℕ → Bool) → ℕ → ℕ → ℕ → ℕ → Bool
fall root filled zero x y z = true
fall root filled (suc n) x y z =
    let rest = fall root filled n x y (z + 1) in
    if has filled (get_tile root x y z) then false else rest

abbrev pub same_position : Position → Position → Bool
same_position a b = a.x == b.x && (a.y == b.y && a.z == b.z)

-- Rays of 2 ^ 17 steps are longer than any between coordinates of 16 bits.
abbrev pub ray_fuel : ℕ
ray_fuel = 2 ^ 17

abbrev pub then_fall : Option Bool → Bool → Option Bool
then_fall none b = none
then_fall (some true) b = some b
then_fall (some false) b = some false

abbrev pub ray : ℕ → QTreeNode → (ℕ → Bool) → (ℕ → Bool) → Position → Position → Option Bool
ray fuel root blocks filled start destination =
    then_fall
      (walk fuel root blocks
        (record { sx = start.x; sy = start.y; dx = destination.x; dy = destination.y }) start.z
        destination.z (start.x, start.y))
      (fall root filled (destination.z - start.z) destination.x destination.y start.z)

-- `checkSightLine`: the ray starts on the upper floor.
unfoldable pub check_sight_line :
    ℕ → QTreeNode → (ℕ → Bool) → (ℕ → Bool) → Position → Position → Option Bool
check_sight_line fuel root blocks filled from to =
    if same_position from to
    then some true
    else (if ltb to.z from.z
        then ray fuel root blocks filled to from
        else ray fuel root blocks filled from to)

abbrev pub or_else : Option Bool → Option Bool → Option Bool
or_else none o = none
or_else (some true) o = some true
or_else (some false) o = o

-- `isSightClear`: either of the two rays.
unfoldable pub is_sight_clear :
    ℕ → QTreeNode → (ℕ → Bool) → (ℕ → Bool) → Position → Position → Bool → Option Bool
is_sight_clear fuel root blocks filled from to floor_check =
    if floor_check && not (from.z == to.z)
    then some false
    else or_else (check_sight_line fuel root blocks filled from to)
        (check_sight_line fuel root blocks filled to from)

-- `canThrowObjectTo`; `deltax - deltaz > rangex`, of numbers that may be negative.
unfoldable pub can_throw_object_to :
    ℕ → QTreeNode → (ℕ → Bool) → (ℕ → Bool) → Position → Position → Bool → ℕ → ℕ → Option Bool
can_throw_object_to fuel root blocks filled from to check_line_of_sight rangex rangey =
    let deltaz = dist from.z to.z in
    if (leb 8 from.z && ltb to.z 8) || (leb 8 to.z && ltb from.z 8)
    then some false
    else (if ltb 2 deltaz
        then some false
        else (if ltb (rangex + deltaz) (dist from.x to.x)
              || ltb (rangey + deltaz) (dist from.y to.y)
            then some false
            else (if not check_line_of_sight
                then some true
                else is_sight_clear fuel root blocks filled from to false)))
