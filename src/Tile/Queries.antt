-- ===== src/Tile/Queries.antt =====
-- What is asked of the things on a tile in src/tile.cpp: properties, heights, counts and the outermost
-- items. A property of an item is a function of the item.
use otxserver.Common.{
  ℕ, ◌+◌, ◌<◌, ◌≡◌, ap, ◌∙◌, inl, inr, Bool, true, false, not, ◌&&◌, Option, none, some, List, [],
  ◌∷◌, arith, leb, ◌==◌, if◌then◌else◌, ==_iff, Bool-cases, length,
}
use otxserver.Tile.{Item, Tile, down_items, top_items}

abbrev pub of_ground : (Item → Bool) → Option Item → Bool
of_ground p none = false
of_ground p (some g) = p g

abbrev pub any : (Item → Bool) → List Item → Bool
any p [] = false
any p (x ∷ xs) = let rest = any p xs in if p x then true else rest

-- `hasProperty`
unfoldable pub has_property : (Item → Bool) → Tile → Bool
has_property p t = if of_ground p t.ground then true else any p t.vec.items

-- `hasProperty` of all but one item.
unfoldable pub has_property_but : ℕ → (Item → Bool) → Tile → Bool
has_property_but exclude p t =
    if of_ground (λ g. not (g.address == exclude) && p g) t.ground
    then true
    else any (λ x. not (x.address == exclude) && p x) t.vec.items

-- The loop of `hasHeight`, from the height that is reached.
abbrev pub add_height : (Item → Bool) → Item → ℕ → ℕ
add_height tall x height = if tall x then height + 1 else height

unfoldable pub reaches : (Item → Bool) → ℕ → ℕ → List Item → Bool
reaches tall n height [] = false
reaches tall n height (x ∷ xs) =
    let h = add_height tall x height in
    let rest = reaches tall n h xs in if n == h then true else rest

-- `hasHeight`: the ground, if any, comes first.
abbrev pub with_ground : Option Item → List Item → List Item
with_ground none xs = xs
with_ground (some g) xs = g ∷ xs

unfoldable pub has_height : (Item → Bool) → ℕ → Tile → Bool
has_height tall n t = reaches tall n 0 (with_ground t.ground t.vec.items)

-- `isFull`, with the limit of the configuration for the tile.
unfoldable pub is_full : ℕ → Tile → Bool
is_full limit t = leb (if limit == 0 then 0xFFFF else limit) (length t.vec.items)

abbrev pub first : List Item → Option Item
first [] = none
first (x ∷ xs) = some x

abbrev pub last : List Item → Option Item
last [] = none
last (x ∷ []) = some x
last (x ∷ y ∷ ys) = last (y ∷ ys)

-- `getTopDownItem`
unfoldable pub get_top_down_item : Tile → Option Item
get_top_down_item t = first (down_items t.vec)

-- `getTopTopItem`
unfoldable pub get_top_top_item : Tile → Option Item
get_top_top_item t = last (top_items t.vec)

-- `getItemByTopOrder`: the last of the top items that has the order.
abbrev pub or_this : Bool → Item → Option Item → Option Item
or_this b x (some y) = some y
or_this true x none = some x
or_this false x none = none

abbrev pub last_of_order : ℕ → List Item → Option Item
last_of_order n [] = none
last_of_order n (x ∷ xs) = or_this (x.always_on_top_order == n) x (last_of_order n xs)

unfoldable pub get_item_by_top_order : ℕ → Tile → Option Item
get_item_by_top_order n t = last_of_order n (top_items t.vec)

-- `__getItemTypeCount`: `count_by_type` answers `Item::countByType` for items of the id, and 0 for others.
abbrev pub sum_counts : (Item → ℕ) → List Item → ℕ
sum_counts count_by_type [] = 0
sum_counts count_by_type (x ∷ xs) = count_by_type x + sum_counts count_by_type xs

unfoldable pub get_item_type_count : (Item → ℕ) → Tile → ℕ
get_item_type_count count_by_type t = sum_counts count_by_type t.vec.items

-- How many items are tall.
abbrev pub height_of : (Item → Bool) → List Item → ℕ
height_of tall [] = 0
height_of tall (x ∷ xs) = add_height tall x (height_of tall xs)

reaches-leb :
    (tall : Item → Bool) (n height : ℕ) (xs : List Item)
    → height < n
    → reaches tall n height xs ≡ leb n (height + height_of tall xs)
unfolding reaches
reaches-leb tall n height [] h = ground arith
reaches-leb tall n height (x ∷ xs) h = elim (Bool-cases (tall x)) [
  | inl e ↦ rw e (elim (Bool-cases (n == height + 1)) [
    | inl f ↦ rw f (ground (arith, ==_iff n (height + 1)))
    | inr f ↦ rw (f, reaches-leb tall n (height + 1) xs (ground arith)) (ground arith)
  ])
  | inr e ↦
      let f : (n == height) ≡ false = ground arith in rw (e, f) (reaches-leb tall n height xs h)
]

-- For a positive height, `hasHeight` answers whether at least as many things on the tile, its ground and
-- its items, are tall.
pub has_height_lem :
    (tall : Item → Bool) (n : ℕ) (t : Tile)
    → 0 < n
    → has_height tall n t ≡ leb n (height_of tall (with_ground t.ground t.vec.items))
unfolding has_height
has_height_lem tall n t h =
    let e : 0 + height_of tall (with_ground t.ground t.vec.items)
        ≡ height_of tall (with_ground t.ground t.vec.items) =
      omega arith in
    reaches-leb tall n 0 (with_ground t.ground t.vec.items) h ∙ ap (leb n) e
