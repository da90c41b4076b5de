-- ===== src/Tile/Calls.antt =====
-- What is added to a tile of src/tile.cpp keeps the order of its things, and so do all calls.
use otxserver.Common.{
  ℕ, ◌+◌, ◌≡◌, refl, ap, inl, inr, Bool, true, false, Option, none, some, List, [], ◌∷◌, arith, ltb,
  leb, Option-cases, if_intro, if_elim, length,
}
use otxserver.Tile.{Item, Tile, base, down_items, top_items}
use otxserver.Tile.Changes.{
  remove_item, remove_creature, add_creature, ground_or, internal_add_item, remove_splash,
  replace_field, new_ground, add_or, add_field, add_item,
}
use otxserver.Tile.Order.{Ordered, Fair, add_top-Ordered, add_down-Ordered}
use otxserver.Tile.Removal.{remove_item-Ordered, remove_creature-Ordered}

with_ground :
    (x : Item) (t : Tile)
    → Ordered t
    → base t.ground ≡ 0
    → Ordered (record t { ground = some x; thing_count = t.thing_count + 1 })
with_ground x t o h = record {
  down = o.down;
  top = o.top;
  items = o.items;
  counted = o.counted;
  downs = o.downs;
  tops = o.tops;
  sorted = o.sorted;
  things = omega (arith, o.things, h);
}

ground_or-Ordered :
    (g : Option Item) (x : Item) (t : Tile) → t.ground ≡ g → Ordered t → Ordered (ground_or g x t)
ground_or-Ordered none x t e o = with_ground x t o (ap base e)
ground_or-Ordered (some g) x t e o = o

new_ground-Ordered :
    (g : Option Item) (x : Item) (t : Tile) → t.ground ≡ g → Ordered t → Ordered (new_ground g x t)
new_ground-Ordered none x t e o = with_ground x t o (ap base e)
new_ground-Ordered (some g) x t e o = record {
  down = o.down;
  top = o.top;
  items = o.items;
  counted = o.counted;
  downs = o.downs;
  tops = o.tops;
  sorted = o.sorted;
  things = omega (arith, o.things, ap base e);
}

-- `__internalAddThing` goes past items of the same order, `__addThing` stays before them.
passes_same : (x : Item) → Fair (λ y. leb y.always_on_top_order x.always_on_top_order) x
passes_same x y = ground arith

stays_before : (x : Item) → Fair (λ y. ltb y.always_on_top_order x.always_on_top_order) x
stays_before x y = ground arith

internal_add_item-Ordered : (x : Item) (t : Tile) → Ordered t → Ordered (internal_add_item x t)
unfolding internal_add_item
internal_add_item-Ordered x t o = if_intro Ordered (leb 0xFFFF (length t.vec.items)) o (
    if_intro Ordered x.is_ground_tile (ground_or-Ordered t.ground x t refl o) (
      if_elim Ordered x.is_always_on_top
        (λ e.
          add_top-Ordered (λ y. leb y.always_on_top_order x.always_on_top_order) x t (passes_same x)
            e o)
        (λ e. add_down-Ordered x t e o)))

remove_splash-Ordered : (ys : List Item) (t : Tile) → Ordered t → Ordered (remove_splash ys t)
unfolding remove_splash
remove_splash-Ordered [] t o = o
remove_splash-Ordered (y ∷ ys) t o =
    if_intro Ordered y.is_splash (remove_item-Ordered y.address 1 t o)
      (remove_splash-Ordered ys t o)

replace_field-Ordered :
    (ys : List Item) (x : Item) (t : Tile)
    → x.is_always_on_top ≡ false
    → Ordered t
    → Ordered (add_or (replace_field ys t) x t)
unfolding replace_field
replace_field-Ordered [] x t h o = add_down-Ordered x t h o
replace_field-Ordered (y ∷ ys) x t h o = elim (Option-cases y.magic_field) [
  | inl e ↦ rw (e, replace_field) (replace_field-Ordered ys x t h o)
  | inr (true, e) ↦
      rw (e, replace_field) (add_down-Ordered x _ h (remove_item-Ordered y.address 1 t o))
  | inr (false, e) ↦ rw (e, replace_field) o
]

add_field-Ordered :
    (f : Option Bool) (x : Item) (t : Tile)
    → x.is_always_on_top ≡ false
    → Ordered t
    → Ordered (add_field f x t)
add_field-Ordered none x t h o = add_down-Ordered x t h o
add_field-Ordered (some b) x t h o = replace_field-Ordered (down_items t.vec) x t h o

add_item-Ordered : (x : Item) (t : Tile) → Ordered t → Ordered (add_item x t)
unfolding add_item
add_item-Ordered x t o = if_intro Ordered (leb 0xFFFF (length t.vec.items)) o (
    if_intro Ordered x.is_ground_tile (new_ground-Ordered t.ground x t refl o) (
      if_elim Ordered x.is_always_on_top
        (λ e.
          add_top-Ordered (λ y. ltb y.always_on_top_order x.always_on_top_order) x _
            (stays_before x) e
            (if_intro Ordered x.is_splash (remove_splash-Ordered (top_items t.vec) t o) o))
        (λ e. add_field-Ordered x.magic_field x t e o)))

add_creature-Ordered : (c : ℕ) (t : Tile) → Ordered t → Ordered (add_creature c t)
unfolding add_creature
add_creature-Ordered c t o = record {
  down = o.down;
  top = o.top;
  items = o.items;
  counted = o.counted;
  downs = o.downs;
  tops = o.tops;
  sorted = o.sorted;
  things = omega (arith, o.things);
}

-- The calls on a tile.
pub data Call : Type 0 where
  adds : Item → Call
  adds_internally : Item → Call
  removes : ℕ → ℕ → Call
  enters : ℕ → Call
  leaves : ℕ → Call

unfoldable pub call : Call → Tile → Tile
call (adds x) t = add_item x t
call (adds_internally x) t = internal_add_item x t
call (removes a count) t = remove_item a count t
call (enters c) t = add_creature c t
call (leaves c) t = remove_creature c t

unfoldable pub run : List Call → Tile → Tile
run [] t = t
run (c ∷ cs) t = run cs (call c t)

call-Ordered : (c : Call) (t : Tile) → Ordered t → Ordered (call c t)
unfolding call
call-Ordered (adds x) t o = add_item-Ordered x t o
call-Ordered (adds_internally x) t o = internal_add_item-Ordered x t o
call-Ordered (removes a count) t o = remove_item-Ordered a count t o
call-Ordered (enters c) t o = add_creature-Ordered c t o
call-Ordered (leaves c) t o = remove_creature-Ordered c t o

-- Through any sequence of calls that add and remove items and creatures, a tile keeps its items in
-- order: the down items first, as many as `downItemCount`, then the top items by their order, never
-- one of the other kind among them; and `m_thingCount` is the number of its things.
pub run-Ordered : (cs : List Call) (t : Tile) → Ordered t → Ordered (run cs t)
unfolding run
run-Ordered [] t o = o
run-Ordered (c ∷ cs) t o = run-Ordered cs (call c t) (call-Ordered c t o)
