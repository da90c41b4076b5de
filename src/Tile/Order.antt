-- ===== src/Tile/Order.antt =====
-- The order of the things on a tile of src/tile.cpp, kept by what is added and removed.
use otxserver.Common.{
  ℕ, ◌+◌, ◌≤◌, ◌≡◌, refl, ap, ◌∙◌, ◌⊎◌, inl, inr, Bool, true, false, List, [], ◌∷◌, ◌++◌, arith,
  ltb, Bool-cases, if_intro, length, length-append, take-append, drop-append, All,
}
use otxserver.Tile.{Item, Tile, down_items, top_items, base, get_thing}
use otxserver.Tile.Index.{is_thing, is_thing-get_thing}
use otxserver.Tile.Changes.{insert_top, add_top, add_down}

abbrev pub IsTop : Item → Type 0
IsTop x = x.is_always_on_top ≡ true

abbrev pub IsDown : Item → Type 0
IsDown x = x.is_always_on_top ≡ false

abbrev pub AtLeast : ℕ → Item → Type 0
AtLeast n y = n ≤ y.always_on_top_order

-- The top items stand by their order.
abbrev pub Sorted : List Item → Type 0
Sorted [] = Unit
Sorted (x ∷ xs) = All (AtLeast x.always_on_top_order) xs × Sorted xs

-- A tile: down items and then top items, sorted, and all its things are counted.
pub record Ordered (t : Tile) : Type 0 where
  pub down : List Item
  pub top : List Item
  pub items : t.vec.items ≡ down ++ top
  pub counted : t.vec.down_item_count ≡ length down
  pub downs : All IsDown down
  pub tops : All IsTop top
  pub sorted : Sorted top
  pub things : t.thing_count ≡ base t.ground + (length down + length top) + length t.creatures

-- In a tile that is in order, `m_thingCount` bounds its indexes: `__getThing` answers a thing at each
-- index below it, and nothing at any other.
pub get_thing-thing_count :
    (t : Tile) (i : ℕ) → Ordered t → is_thing (get_thing t i) ≡ ltb i t.thing_count
get_thing-thing_count t i o =
    let l : length t.vec.items ≡ length o.down + length o.top =
      ap length o.items ∙ length-append o.down o.top in
    is_thing-get_thing t i (omega (arith, l, o.counted)) ∙ ap (ltb i) (omega (arith, l, o.things))

AtLeast-le : (m n : ℕ) (xs : List Item) → m ≤ n → All (AtLeast n) xs → All (AtLeast m) xs
AtLeast-le m n [] h a = tt
AtLeast-le m n (x ∷ xs) h a = (omega (arith, a.0), AtLeast-le m n xs h a.1)

All-insert_top :
    (P : Item → Type 0) (passes : Item → Bool) (x : Item) (ys : List Item)
    → P x
    → All P ys
    → All P (insert_top passes x ys)
unfolding insert_top
All-insert_top P passes x [] h a = (h, tt)
All-insert_top P passes x (y ∷ ys) h a =
    if_intro (All P) (passes y) (a.0, All-insert_top P passes x ys h a.1) (h, a)

-- A test that passes only items of no higher order, and all of lower order.
abbrev pub Fair : (Item → Bool) → Item → Type 0
Fair passes x =
    (y : Item)
    → ((passes y ≡ true) × (y.always_on_top_order ≤ x.always_on_top_order))
      ⊎ ((passes y ≡ false) × (x.always_on_top_order ≤ y.always_on_top_order))

insert_top-Sorted :
    (passes : Item → Bool) (x : Item) (ys : List Item)
    → Fair passes x
    → Sorted ys
    → Sorted (insert_top passes x ys)
unfolding insert_top
insert_top-Sorted passes x [] f s = (tt, tt)
insert_top-Sorted passes x (y ∷ ys) f s = elim (f y) [
  | inl (e, h) ↦ rw e (
    All-insert_top (AtLeast y.always_on_top_order) passes x ys h s.0,
    insert_top-Sorted passes x ys f s.1,
  )
  | inr (e, h) ↦ rw e ((h, AtLeast-le x.always_on_top_order y.always_on_top_order ys h s.0), s)
]

length-insert_top :
    (passes : Item → Bool) (x : Item) (ys : List Item)
    → length (insert_top passes x ys) ≡ length ys + 1
unfolding insert_top
length-insert_top passes x [] = omega arith
length-insert_top passes x (y ∷ ys) = elim (Bool-cases (passes y)) [
  | inl e ↦ rw e (omega (arith, length-insert_top passes x ys))
  | inr e ↦ rw e (omega arith)
]

pub down_part : (t : Tile) (o : Ordered t) → down_items t.vec ≡ o.down
down_part t o = rw (o.items, o.counted) (take-append o.down o.top)

pub top_part : (t : Tile) (o : Ordered t) → top_items t.vec ≡ o.top
top_part t o = rw (o.items, o.counted) (drop-append o.down o.top)

pub add_top-Ordered :
    (passes : Item → Bool) (x : Item) (t : Tile)
    → Fair passes x
    → IsTop x
    → Ordered t
    → Ordered (add_top passes x t)
add_top-Ordered passes x t f h o = record {
  down = o.down;
  top = insert_top passes x o.top;
  items = rw (down_part t o, top_part t o) refl;
  counted = o.counted;
  downs = o.downs;
  tops = All-insert_top IsTop passes x o.top h o.tops;
  sorted = insert_top-Sorted passes x o.top f o.sorted;
  things = omega (arith, o.things, length-insert_top passes x o.top);
}

pub add_down-Ordered : (x : Item) (t : Tile) → IsDown x → Ordered t → Ordered (add_down x t)
add_down-Ordered x t h o = record {
  down = x ∷ o.down;
  top = o.top;
  items = ap (◌∷◌ x) o.items;
  counted = omega (arith, o.counted);
  downs = (h, o.downs);
  tops = o.tops;
  sorted = o.sorted;
  things = omega (arith, o.things);
}
