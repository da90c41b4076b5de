-- ===== src/Position.antt =====
-- src/position.h: positions on the map, their order, their sum and the tests of nearness.
-- A coordinate is a uint16_t: a number whose range is a hypothesis where it matters. `int` holds
-- every difference of two of them, and `float` holds each such difference exactly.
pub mod Order
pub mod Range
mod Tests
use otxserver.Common.{
  ℕ, ◌+◌, ◌-◌, ◌%◌, ◌^◌, ◌<◌, Bool, true, false, not, ◌&&◌, ◌||◌, ltb, ◌==◌, if◌then◌else◌, dist,
}

pub data Direction : Type 0 where
  north east south west southwest southeast northwest northeast nodir : Direction

pub record Position : Type 0 where
  pub x : ℕ
  pub y : ℕ
  pub z : ℕ

-- `operator<`: by floor, then row, then column.
unfoldable pub lt : Position → Position → Bool
lt a p =
    if ltb a.z p.z
    then true
    else if ltb p.z a.z
    then false
    else if ltb a.y p.y
    then true
    else if ltb p.y a.y
    then false
    else if ltb a.x p.x
    then true
    else if ltb p.x a.x
    then false
    else false

-- `operator>`
unfoldable pub gt : Position → Position → Bool
unfolding lt
gt a p = not (lt a p)

-- `operator==`
unfoldable pub eq : Position → Position → Bool
eq a p = p.x == a.x && p.y == a.y && p.z == a.z

-- `operator!=`
unfoldable pub ne : Position → Position → Bool
unfolding eq
ne a p = not (eq a p)

-- `operator+` and `operator-`: the sums of `int` are narrowed to uint16_t.
unfoldable pub add : Position → Position → Position
add a p = record { x = (a.x + p.x) % 2 ^ 16; y = (a.y + p.y) % 2 ^ 16; z = (a.z + p.z) % 2 ^ 16 }

unfoldable pub sub : Position → Position → Position
sub a p = record {
  x = (a.x + 2 ^ 16 - p.x) % 2 ^ 16;
  y = (a.y + 2 ^ 16 - p.y) % 2 ^ 16;
  z = (a.z + 2 ^ 16 - p.z) % 2 ^ 16;
}

-- `areInRange<dx, dy, dz>(p1, p2)`
unfoldable pub are_in_range3 : ℕ → ℕ → ℕ → Position → Position → Bool
are_in_range3 dx dy dz p q =
    not (ltb dx (dist p.x q.x) || ltb dy (dist p.y q.y) || ltb dz (dist p.z q.z))

-- `areInRange<dx, dy>(p1, p2)`
unfoldable pub are_in_range2 : ℕ → ℕ → Position → Position → Bool
are_in_range2 dx dy p q = not (ltb dx (dist p.x q.x) || ltb dy (dist p.y q.y))

-- `areInRange(r, p1, p2)`
unfoldable pub are_in_range : Position → Position → Position → Bool
are_in_range r p q =
    not (ltb r.x (dist p.x q.x) || ltb r.y (dist p.y q.y) || ltb r.z (dist p.z q.z))

-- `getDistanceX`, `getDistanceY`, `getDistanceZ`
unfoldable pub get_distance_x : Position → Position → ℕ
get_distance_x p q = dist p.x q.x

unfoldable pub get_distance_y : Position → Position → ℕ
get_distance_y p q = dist p.y q.y

unfoldable pub get_distance_z : Position → Position → ℕ
get_distance_z p q = dist p.z q.z

-- `PositionEx`: a position and an int16_t stack position, of which only equality is used.
pub record PositionEx : Type 0 where
  pub base : Position
  pub stackpos : ℕ

-- `PositionEx::operator==`
unfoldable pub eq_ex : PositionEx → PositionEx → Bool
eq_ex a p =
    p.base.x == a.base.x && p.base.y == a.base.y && p.base.z == a.base.z && p.stackpos == a.stackpos

-- `PositionEx::operator!=`
unfoldable pub ne_ex : PositionEx → PositionEx → Bool
ne_ex a p = not (
    p.base.x == a.base.x
    && p.base.y == a.base.y
    && p.base.z == a.base.z
    && not (p.stackpos == a.stackpos))

-- Every coordinate is a uint16_t.
pub record InRange16 (p : Position) : Type 0 where
  pub x16 : p.x < 2 ^ 16
  pub y16 : p.y < 2 ^ 16
  pub z16 : p.z < 2 ^ 16
