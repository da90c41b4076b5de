-- ===== src/Tile/Changes.antt =====
-- What changes the things on a tile, in src/tile.cpp.
use otxserver.Common.{
  ℕ, zero, suc, ◌+◌, ◌-◌, Bool, not, ◌&&◌, Option, none, some, List, [], ◌∷◌, ◌++◌, ltb, leb, ◌==◌,
  if◌then◌else◌, length,
}
use otxserver.Tile.{Item, Tile, down_items, top_items, position, position_of, is_at}

-- The element at a position, by what it becomes: `erase` leaves none.
unfoldable pub alter : ℕ → (Item → List Item) → List Item → List Item
alter n f [] = []
alter zero f (x ∷ xs) = f x ++ xs
alter (suc n) f (x ∷ xs) = x ∷ alter n f xs

abbrev pub gone : Item → List Item
gone x = []

abbrev pub with_count : ℕ → Item → List Item
with_count n x = record x { count = n } ∷ []

-- The item on the tile that has an address, in the order in which `__getIndexOfThing` searches.
abbrev pub or_item : Option Item → Option Item → Option Item
or_item none o = o
or_item (some x) o = some x

unfoldable pub lookup : ℕ → List Item → Option Item
lookup a [] = none
lookup a (x ∷ xs) = let rest = lookup a xs in if x.address == a then some x else rest

-- The end of `__removeThing`: an item that is always on top, and one that is not. The search among the
-- down items ends at the first top item, but is compared with the end of the vector.
unfoldable pub remove_top : ℕ → Tile → Tile
remove_top a t =
    let p = position a (top_items t.vec) in
    if t.vec.down_item_count + p == length t.vec.items then t else record t {
      vec = record t.vec { items = alter (t.vec.down_item_count + p) gone t.vec.items };
      thing_count = t.thing_count - 1;
    }

unfoldable pub remove_down : ℕ → ℕ → Item → Tile → Tile
remove_down a count x t =
    let p = position a (down_items t.vec) in
    if p == length t.vec.items
    then t
    else (if x.is_stackable && not (count == x.count)
        then record t {
          vec = record t.vec { items = alter p (with_count (x.count - count)) t.vec.items };
        }
        else record t {
          vec = record {
            items = alter p gone t.vec.items;
            down_item_count = t.vec.down_item_count - 1;
          };
          thing_count = t.thing_count - 1;
        })

unfoldable pub remove_above : ℕ → ℕ → Tile → Tile
remove_above a count t = elim (or_item (lookup a (top_items t.vec)) (lookup a (down_items t.vec))) [
  | none ↦ t
  | some x ↦ if x.is_always_on_top then remove_top a t else remove_down a count x t
]

-- `__removeThing` of an item.
unfoldable pub remove_item : ℕ → ℕ → Tile → Tile
remove_item a count t =
    if is_at t.ground a
    then record t { ground = none; thing_count = t.thing_count - 1 }
    else remove_above a count t

abbrev pub erase_creature : ℕ → List ℕ → List ℕ
erase_creature c [] = []
erase_creature c (d ∷ ds) = if d == c then ds else d ∷ erase_creature c ds

-- `__removeThing` of a creature.
unfoldable pub remove_creature : ℕ → Tile → Tile
remove_creature c t =
    if position_of c t.creatures == length t.creatures
    then t
    else record t { creatures = erase_creature c t.creatures; thing_count = t.thing_count - 1 }

-- `__addThing` and `__internalAddThing` of a creature.
unfoldable pub add_creature : ℕ → Tile → Tile
add_creature c t = record t { creatures = c ∷ t.creatures; thing_count = t.thing_count + 1 }

-- The loops over the top items: an item is inserted before the first that is not passed.
unfoldable pub insert_top : (Item → Bool) → Item → List Item → List Item
insert_top passes x [] = x ∷ []
insert_top passes x (y ∷ ys) = if passes y then y ∷ insert_top passes x ys else x ∷ y ∷ ys

abbrev pub add_top : (Item → Bool) → Item → Tile → Tile
add_top passes x t = record t {
  vec = record t.vec { items = down_items t.vec ++ insert_top passes x (top_items t.vec) };
  thing_count = t.thing_count + 1;
}

abbrev pub add_down : Item → Tile → Tile
add_down x t = record t {
  vec = record { items = x ∷ t.vec.items; down_item_count = t.vec.down_item_count + 1 };
  thing_count = t.thing_count + 1;
}

abbrev pub ground_or : Option Item → Item → Tile → Tile
ground_or none x t = record t { ground = some x; thing_count = t.thing_count + 1 }
ground_or (some g) x t = t

-- `__internalAddThing` of an item.
unfoldable pub internal_add_item : Item → Tile → Tile
internal_add_item x t =
    if leb 0xFFFF (length t.vec.items)
    then t
    else (if x.is_ground_tile
        then ground_or t.ground x t
        else (if x.is_always_on_top
            then add_top (λ y. leb y.always_on_top_order x.always_on_top_order) x t
            else add_down x t))

-- The first splash of the top items goes.
unfoldable pub remove_splash : List Item → Tile → Tile
remove_splash [] t = t
remove_splash (y ∷ ys) t = if y.is_splash then remove_item y.address 1 t else remove_splash ys t

-- The first magic field of the down items goes, or forbids the new one.
unfoldable pub replace_field : List Item → Tile → Option Tile
replace_field [] t = some t
replace_field (y ∷ ys) t =
    let rest = replace_field ys t in
    elim y.magic_field [
      | none ↦ rest
      | some replacable ↦ if replacable then some (remove_item y.address 1 t) else none
    ]

-- A new ground takes the place of the old one.
abbrev pub new_ground : Option Item → Item → Tile → Tile
new_ground none x t = record t { ground = some x; thing_count = t.thing_count + 1 }
new_ground (some g) x t = record t { ground = some x }

abbrev pub add_or : Option Tile → Item → Tile → Tile
add_or none x t = t
add_or (some u) x t = add_down x u

-- A down item, which may be a magic field.
abbrev pub add_field : Option Bool → Item → Tile → Tile
add_field none x t = add_down x t
add_field (some replacable) x t = add_or (replace_field (down_items t.vec) t) x t

-- `__addThing` of an item.
unfoldable pub add_item : Item → Tile → Tile
add_item x t =
    if leb 0xFFFF (length t.vec.items)
    then t
    else (if x.is_ground_tile
        then new_ground t.ground x t
        else (if x.is_always_on_top
            then add_top (λ y. ltb y.always_on_top_order x.always_on_top_order) x
                (if x.is_splash then remove_splash (top_items t.vec) t else t)
            else add_field x.magic_field x t))
