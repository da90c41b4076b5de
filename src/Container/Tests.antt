-- ===== src/Container/Tests.antt =====
-- The theorems on containers at a bag of gold coins in a backpack.
use otxserver.Common.{ℕ, ◌≤◌, ◌≡◌, refl, true, false, ◌&&◌, none, [], ◌∷◌, ◌==◌}
use otxserver.Container.{
  ItemType, Item, object, chest, other, Container, wherever, Flags, ReturnValue, no_error, size,
  is_parent, get_top_parent, is_container, query_add, query_add_item,
}
use otxserver.Container.Operations.{add_thing}
use otxserver.Container.Queries.{query_add-room}

abbrev coins : ℕ → ItemType
coins id = record {
  stackable = id == 2148;
  movable = true;
  pickupable = true;
  has_fluid = false;
  charges = false;
}

abbrev coin : ℕ → ℕ → Item
coin a n = record {
  address = a;
  id = 2148;
  count = n;
  fluid_type = 0;
  charge_count = 0;
  parent = none;
  holds = false;
}

abbrev sword : Item
sword = record {
  address = 9;
  id = 2376;
  count = 1;
  fluid_type = 0;
  charge_count = 0;
  parent = none;
  holds = false;
}

abbrev bag : Container
bag = record {
  address = 1;
  max_size = 8;
  itemlist = coin 5 30 ∷ coin 6 100 ∷ [];
  parents = chest 2 ∷ other 3 ∷ other 4 ∷ [];
}

abbrev plain : Flags
plain = record {
  no_limit = false;
  child_is_owner = false;
  ignore_not_movable = false;
  ignore_auto_stack = false;
}

abbrev agree : ℕ → Item → ℕ → ReturnValue
agree a it n = no_error

query_add-room_example :
    (true ≡ true)
    × (false ≡ false)
    × ((is_container sword && is_parent 9 bag.parents) ≡ false)
    × (size (add_thing coins wherever (object sword) bag) ≤ 8)
unfolding query_add query_add_item get_top_parent size
query_add-room_example = query_add-room coins agree bag sword 1 plain refl refl refl
