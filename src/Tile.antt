-- ===== src/Tile.antt =====
-- src/tile.cpp and `TileItemVector` of src/tile.h: the things on a tile and their order. A pointer to an
-- item is its address, and an item on the tile carries what is read of it; a creature is a number.
-- Flags of the tile, parents, notices to spectators and the freeing of things are not modelled, nor is
-- the new id that a waterball's splash takes.
pub mod Index
pub mod Changes
pub mod Order
pub mod Removal
pub mod Calls
pub mod Replacement
pub mod Slots
pub mod Queries
mod Tests
use otxserver.Common.{
  ℕ, zero, suc, ◌+◌, ◌-◌, ◌*◌, ◌/◌, ◌%◌, ◌^◌, ◌≤◌, ◌<◌, min, max, ◌≡◌, refl, sym, ap, ◌∙◌, ◌≢◌, ◌↔◌,
  ◌⊎◌, inl, inr, Bool, true, false, not, ◌&&◌, ◌||◌, Option, none, some, List, [], ◌∷◌, ◌++◌, map,
  arith, ltb, leb, ◌==◌, if◌then◌else◌, ltb→lt, lt→ltb, leb→le, ==_iff, ==_refl, Bool-cases,
  Option-cases, dist, if_intro, length, get_elem?, get_or, set, take, drop, length-append,
  take-append, drop-append, All, All-append,
}

-- `MagicField`: `isReplacable()`, for items that are magic fields.
pub record Item : Type 0 where
  pub address : ℕ
  pub count : ℕ
  pub is_ground_tile : Bool
  pub is_always_on_top : Bool
  pub always_on_top_order : ℕ
  pub is_splash : Bool
  pub is_stackable : Bool
  pub magic_field : Option Bool

pub data Thing : Type 0 where
  creature : ℕ → Thing
  object : Item → Thing

-- `TileItemVector`: the down items, of which `down_item_count` counts, and then the top items.
pub record TileItemVector : Type 0 where
  pub items : List Item
  pub down_item_count : ℕ

pub record Tile : Type 0 where
  pub ground : Option Item
  pub vec : TileItemVector
  pub creatures : List ℕ
  pub thing_count : ℕ

-- From `getBeginDownItem` to `getEndDownItem`, and from `getBeginTopItem` to `getEndTopItem`.
abbrev pub down_items : TileItemVector → List Item
down_items v = take v.down_item_count v.items

abbrev pub top_items : TileItemVector → List Item
top_items v = drop v.down_item_count v.items

abbrev pub get_top_item_count : TileItemVector → ℕ
get_top_item_count v = length v.items - v.down_item_count

-- `__getThing` below the ground.
abbrev pub object_at : List Item → ℕ → Option Thing
object_at [] i = none
object_at (x ∷ xs) zero = some (object x)
object_at (x ∷ xs) (suc i) = object_at xs i

abbrev pub creature_at : List ℕ → ℕ → Option Thing
creature_at [] i = none
creature_at (c ∷ cs) zero = some (creature c)
creature_at (c ∷ cs) (suc i) = creature_at cs i

unfoldable pub get_above : Tile → ℕ → Option Thing
get_above t index =
    let top = get_top_item_count t.vec in
    let n = length t.creatures in
    if ltb index top
    then object_at t.vec.items (t.vec.down_item_count + index)
    else (if ltb (index - top) n
        then creature_at t.creatures (index - top)
        else (if ltb (index - top - n) t.vec.down_item_count
            then object_at t.vec.items (index - top - n)
            else none))

-- `__getThing`
unfoldable pub get_thing : Tile → ℕ → Option Thing
get_thing t index = elim t.ground [
  | none ↦ get_above t index
  | some g ↦ if index == 0 then some (object g) else get_above t (index - 1)
]

-- `std::find` by the address: the position, or the length where there is none.
unfoldable pub position : ℕ → List Item → ℕ
position a [] = 0
position a (x ∷ xs) = let rest = position a xs in if x.address == a then 0 else suc rest

unfoldable pub position_of : ℕ → List ℕ → ℕ
position_of a [] = 0
position_of a (c ∷ cs) = let rest = position_of a cs in if c == a then 0 else suc rest

-- The index of the first thing above the ground, n + 1 in the source.
abbrev pub base : Option Item → ℕ
base none = 0
base (some g) = 1

abbrev pub is_at : Option Item → ℕ → Bool
is_at none a = false
is_at (some g) a = g.address == a

-- `__getIndexOfThing` of an item, and of a creature; `none` for -1.
unfoldable pub get_index_of_item : Tile → ℕ → Option ℕ
get_index_of_item t a =
    let n = base t.ground in
    let p = position a (top_items t.vec) in
    let q = position a (down_items t.vec) in
    if is_at t.ground a
    then some 0
    else (if ltb p (length (top_items t.vec))
        then some (n + p)
        else (if ltb q (length (down_items t.vec))
            then some (n + length (top_items t.vec) + length t.creatures + q)
            else none))

unfoldable pub get_index_of_creature : Tile → ℕ → Option ℕ
get_index_of_creature t c =
    let p = position_of c t.creatures in
    if ltb p (length t.creatures) then some (base t.ground + get_top_item_count t.vec + p) else none
