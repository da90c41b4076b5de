-- ===== src/Tile/Tests.antt =====
-- The theorems on tiles at one with grass, two borders, a splash and a stack of coins.
use otxserver.Common.{
  ◌≡◌, refl, true, false, ◌&&◌, none, some, List, [], ◌∷◌, arith, ltb, ◌==◌, if◌then◌else◌,
}
use otxserver.Tile.{object, Item, Tile, get_thing, get_index_of_item, position}
use otxserver.Tile.Index.{is_thing, address_of, get_thing-get_index_of_item}
use otxserver.Tile.Replacement.{replace_thing, is_object}
use otxserver.Tile.Slots.{get_thing-replace_thing}
use otxserver.Tile.Order.{Ordered, get_thing-thing_count}
use otxserver.Tile.Calls.{Call, adds, adds_internally, removes, enters, run, run-Ordered}

abbrev plain : Item
plain = record {
  address = 0;
  count = 1;
  is_ground_tile = false;
  is_always_on_top = false;
  always_on_top_order = 0;
  is_splash = false;
  is_stackable = false;
  magic_field = none;
}

abbrev grass : Item
grass = record plain { address = 1; is_ground_tile = true }

abbrev border : Item
border = record plain { address = 2; is_always_on_top = true; always_on_top_order = 1 }

abbrev blood : Item
blood = record plain {
  address = 3;
  is_always_on_top = true;
  always_on_top_order = 2;
  is_splash = true;
}

abbrev door : Item
door = record plain { address = 4; is_always_on_top = true; always_on_top_order = 3 }

abbrev gold : Item
gold = record plain { address = 5; count = 50; is_stackable = true }

abbrev empty : Tile
empty = record {
  ground = none;
  vec = record { items = []; down_item_count = 0 };
  creatures = [];
  thing_count = 0;
}

abbrev calls : List Call
calls =
    adds grass
    ∷ adds door
    ∷ adds_internally border
    ∷ enters 7
    ∷ adds gold
    ∷ adds blood
    ∷ removes 5 20
    ∷ removes 2 1
    ∷ []

empty-Ordered : Ordered empty
empty-Ordered = record {
  down = [];
  top = [];
  items = refl;
  counted = refl;
  downs = tt;
  tops = tt;
  sorted = tt;
  things = omega arith;
}

run-Ordered_example : Ordered (run calls empty)
run-Ordered_example = run-Ordered calls empty empty-Ordered

abbrev field : Tile
field = record {
  ground = some grass;
  vec = record { items = gold ∷ border ∷ door ∷ []; down_item_count = 1 };
  creatures = 7 ∷ [];
  thing_count = 5;
}

gold_index : get_index_of_item field 5 ≡ some 4
unfolding get_index_of_item position
gold_index = refl

get_thing-get_index_of_item_example : address_of (get_thing field 4) ≡ some 5
get_thing-get_index_of_item_example = get_thing-get_index_of_item field 5 4 gold_index

field-Ordered : Ordered field
field-Ordered = record {
  down = gold ∷ [];
  top = border ∷ door ∷ [];
  items = refl;
  counted = refl;
  downs = (refl, tt);
  tops = (refl, (refl, tt));
  sorted = ((omega arith, tt), (tt, tt));
  things = omega arith;
}

get_thing-thing_count_example : is_thing (get_thing field 4) ≡ ltb 4 5
get_thing-thing_count_example = get_thing-thing_count field 4 field-Ordered

get_thing-replace_thing_example :
    get_thing (replace_thing 4 gold field) 2
    ≡ (if 2 == 4 && is_object (get_thing field 4) then some (object gold) else get_thing field 2)
get_thing-replace_thing_example = get_thing-replace_thing field 4 2 gold (omega arith) (omega arith)
