-- ===== src/Map.antt =====
-- src/map.h and src/map.cpp: the tiles of the map, which a tree of four children per node keeps by
-- the bits of their coordinates. A null pointer is `null`; a tile and a leaf are named: a tile by a
-- number, a leaf by the coordinates of its corner, divided by FLOOR_SIZE.

pub mod Paths
pub mod Bits
pub mod Tiles
pub mod Refinement
pub mod Sight
mod Tests
use otxserver.Common.{
  ℕ, zero, suc, ◌+◌, ◌-◌, ◌*◌, ◌/◌, ◌%◌, ◌^◌, ◌≤◌, ◌<◌, min, max, ◌≡◌, refl, sym, ap, ◌∙◌, ◌≢◌, ◌↔◌,
  ◌⊎◌, inl, inr, Bool, true, false, not, ◌&&◌, ◌||◌, Option, none, some, List, [], ◌∷◌, ◌++◌, map,
  arith, ltb, leb, ◌==◌, if◌then◌else◌, ltb→lt, lt→ltb, leb→le, ==_iff, ==_refl, Bool-cases,
  Option-cases, dist, if_intro, length, get_elem?, get_or, set, take, drop, length-append,
  take-append, drop-append, All, All-append,
}

-- `Floor`: the tiles by `x & FLOOR_MASK` and `y & FLOOR_MASK`.
abbrev pub Floor : Type 0
Floor = ℕ → ℕ → Option ℕ

-- `QTreeLeafNode`: `m_array`, `m_leafS` and `m_leafE`.
pub record Leaf : Type 0 where
  pub floors : ℕ → Option Floor
  pub leaf_s : Option (ℕ × ℕ)
  pub leaf_e : Option (ℕ × ℕ)

-- `QTreeNode`, with its children by the bits of x and y: (0,0), (1,0), (0,1), (1,1).
pub data QTreeNode : Type 0 where
  null : QTreeNode
  node : QTreeNode → QTreeNode → QTreeNode → QTreeNode → QTreeNode
  leaf : Leaf → QTreeNode

abbrev pub new_leaf : Leaf
new_leaf = record { floors = λ z. none; leaf_s = none; leaf_e = none }

abbrev pub new_node : QTreeNode
new_node = node null null null null

-- `(x & 0x8000) >> 15`
abbrev pub high_bit : ℕ → ℕ
high_bit x = x / 2 ^ 15 % 2

-- `x << 1`, of a uint16_t.
abbrev pub shift : ℕ → ℕ
shift x = x * 2 % 2 ^ 16

-- `m_child[index]`
abbrev pub child : {A : Type 0} → ℕ → ℕ → A → A → A → A → A
child x y a b c d =
    if high_bit y == 0
    then (if high_bit x == 0 then a else b)
    else (if high_bit x == 0 then c else d)

-- `getLeaf`
unfoldable pub get_leaf : ℕ → ℕ → QTreeNode → Option Leaf
get_leaf x y null = none
get_leaf x y (leaf l) = some l
get_leaf x y (node a b c d) =
    child x y (get_leaf (shift x) (shift y) a) (get_leaf (shift x) (shift y) b)
      (get_leaf (shift x) (shift y) c) (get_leaf (shift x) (shift y) d)

-- The loop of `getLeafStatic` from a node that is reached; x and y are uint32_t.
unfoldable pub descend : ℕ → ℕ → QTreeNode → Option Leaf
descend x y null = none
descend x y (leaf l) = some l
descend x y (node a b c d) =
    child x y (descend (x * 2 % 2 ^ 32) (y * 2 % 2 ^ 32) a)
      (descend (x * 2 % 2 ^ 32) (y * 2 % 2 ^ 32) b) (descend (x * 2 % 2 ^ 32) (y * 2 % 2 ^ 32) c)
      (descend (x * 2 % 2 ^ 32) (y * 2 % 2 ^ 32) d)

-- `getLeafStatic`: its body runs before its test, so that a leaf as the root has no child.
unfoldable pub get_leaf_static : ℕ → ℕ → QTreeNode → Option Leaf
get_leaf_static x y null = none
get_leaf_static x y (leaf l) = none
get_leaf_static x y (node a b c d) = descend x y (node a b c d)

-- `m_child[index]`, made where it is null: a leaf at level FLOOR_BITS, else a node.
abbrev pub made : ℕ → QTreeNode → QTreeNode
made level null = if level == 3 then leaf new_leaf else new_node
made level (node a b c d) = node a b c d
made level (leaf l) = leaf l

-- A node with another child at the index of x and y.
abbrev pub set_child : ℕ → ℕ → QTreeNode → QTreeNode → QTreeNode → QTreeNode → QTreeNode → QTreeNode
set_child x y t a b c d = child x y (node t b c d) (node a t c d) (node a b t d) (node a b c t)

-- `createLeaf` on a node at `level`: the tree after it. At level 0, which no tree of this depth
-- reaches, the tree stays.
unfoldable pub create_leaf : ℕ → ℕ → ℕ → QTreeNode → QTreeNode
create_leaf level x y null = null
create_leaf level x y (leaf l) = leaf l
create_leaf zero x y (node a b c d) = node a b c d
create_leaf (suc level) x y (node a b c d) =
    set_child x y (create_leaf level (shift x) (shift y) (made (suc level) (child x y a b c d))) a b
      c d

-- What is done to the leaf that `getLeaf` answers, if any.
unfoldable pub with_leaf : (Leaf → Leaf) → ℕ → ℕ → QTreeNode → QTreeNode
with_leaf f x y null = null
with_leaf f x y (leaf l) = leaf (f l)
with_leaf f x y (node a b c d) =
    node (if high_bit y == 0 && high_bit x == 0 then with_leaf f (shift x) (shift y) a else a)
      (if high_bit y == 0 && not (high_bit x == 0) then with_leaf f (shift x) (shift y) b else b)
      (if not (high_bit y == 0) && high_bit x == 0 then with_leaf f (shift x) (shift y) c else c)
      (if not (high_bit y == 0) && not (high_bit x == 0)
        then with_leaf f (shift x) (shift y) d
        else d)

-- `Map::getTile`. Coordinates below 0, for which it answers null, are not modelled.
abbrev pub tile_in : ℕ → ℕ → Option Floor → Option ℕ
tile_in x y none = none
tile_in x y (some floor) = floor (x % 8) (y % 8)

abbrev pub tile_of : ℕ → ℕ → ℕ → Option Leaf → Option ℕ
tile_of x y z none = none
tile_of x y z (some l) = tile_in x y (l.floors z)

unfoldable pub get_tile : QTreeNode → ℕ → ℕ → ℕ → Option ℕ
get_tile root x y z =
    if ltb 0xFFFF x || ltb 0xFFFF y || leb 16 z
    then none
    else tile_of x y z (get_leaf_static x y root)

-- `createFloor`
abbrev pub floor_or_new : Option Floor → Floor
floor_or_new none = λ i j. none
floor_or_new (some floor) = floor

-- A tile is put in a floor where there is none yet.
abbrev pub keep : Option ℕ → ℕ → Option ℕ
keep none tile = some tile
keep (some old) tile = some old

unfoldable pub put_tile : ℕ → ℕ → ℕ → ℕ → Leaf → Leaf
put_tile x y z tile l = record l {
  floors = λ k.
      if k == z
      then some (λ i j.
        let old = floor_or_new (l.floors z) i j in
        if i == x % 8 && j == y % 8 then keep old tile else old)
      else l.floors k;
}

-- The name of the leaf of a place.
abbrev pub corner : ℕ → ℕ → ℕ × ℕ
corner x y = (x / 8, y / 8)

-- The pointer to the leaf of a place.
abbrev pub address : ℕ → ℕ → Option Leaf → Option (ℕ × ℕ)
address x y none = none
address x y (some l) = some (corner x y)

abbrev pub keep_link : Option (ℕ × ℕ) → Option (ℕ × ℕ) → Option (ℕ × ℕ)
keep_link none old = old
keep_link (some link) old = some link

-- The four updates where a leaf is new: the coordinates of the leaves beside it are uint16_t.
unfoldable pub link : ℕ → ℕ → QTreeNode → QTreeNode
link x y root =
    let north = (y + 2 ^ 16 - 8) % 2 ^ 16 in
    let south = (y + 8) % 2 ^ 16 in
    let west = (x + 2 ^ 16 - 8) % 2 ^ 16 in
    let east = (x + 8) % 2 ^ 16 in
    let r1 = with_leaf (λ l. record l { leaf_s = some (corner x y) }) x north root in
    let r2 = with_leaf (λ l. record l { leaf_e = some (corner x y) }) west y r1 in
    let r3 =
      with_leaf
        (λ l. record l { leaf_s = keep_link (address x south (get_leaf x south r2)) l.leaf_s }) x y
        r2 in
    with_leaf (λ l. record l { leaf_e = keep_link (address east y (get_leaf east y r3)) l.leaf_e })
      x y r3

abbrev pub is_none : {A : Type 0} → Option A → Bool
is_none none = true
is_none (some a) = false

-- `Map::setTile`, without the list of the tiles that are refreshed.
unfoldable pub set_tile : QTreeNode → ℕ → ℕ → ℕ → ℕ → QTreeNode
set_tile root x y z tile =
    let made = create_leaf 15 x y root in
    let linked = if is_none (get_leaf x y root) then link x y made else made in
    if leb 16 z then root else with_leaf (put_tile x y z tile) x y linked
