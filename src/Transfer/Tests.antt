-- ===== src/Transfer/Tests.antt =====
-- Coins that are moved between chests, put on a stack and made a new one; that come, and that go.
use otxserver.Common.{ℕ, ◌%◌, ◌≡◌, refl, inl, true, false, none, some, List, [], ◌∷◌, arith, ◌==◌}
use otxserver.Container.{
  ItemType, Item, Container, wherever, slot, ReturnValue, no_error, query_add, query_add_item,
  get_top_parent, size, get_item_by_index, get_index_of_thing, index_from, set_sub_type,
  set_item_count,
}
use otxserver.Container.Operations.{
  query_max_count, stack_room, stacks_with, query_remove, query_remove_at, remove_thing, add_thing,
  update_thing, internal_add_thing, push_item, change_at,
}
use otxserver.Container.Destination.{query_destination, settle_index, auto_stack, find_stack}
use otxserver.Transfer.{Move, no_flags, internal_move_item, settle, move_some}
use otxserver.Transfer.Adding.{internal_add_item, internal_remove_item}
use otxserver.Transfer.Additions.{Outcome, internal_add_item-Outcome}
use otxserver.Transfer.Removals.{Goes, internal_remove_item-Goes}
use otxserver.Transfer.Chests.{chests, total}
use otxserver.Transfer.Conservation.{internal_move_item-total}
use otxserver.Transfer.Promises.{chest_laws, internal_move_item-chests}
use otxserver.Transfer.Stays.{Plain, Good}

-- Even kinds stack.
abbrev kinds : ℕ → ItemType
kinds id = record {
  stackable = id % 2 == 0;
  movable = true;
  pickupable = true;
  has_fluid = false;
  charges = false;
}

abbrev coins : ℕ → ℕ → ℕ → Item
coins address count chest = record {
  address = address;
  id = 2148;
  count = count;
  fluid_type = 0;
  charge_count = 0;
  parent = some chest;
  holds = false;
}

abbrev box : ℕ → List Item → Container
box address its = record { address = address; max_size = 4; itemlist = its; parents = [] }

abbrev boxes : List Container
boxes = box 0 (coins 10 60 0 ∷ []) ∷ box 1 (coins 11 50 1 ∷ []) ∷ []

abbrev allow : ℕ → Item → ℕ → ReturnValue
allow a it n = no_error

abbrev all_coins : Move
all_coins = record {
  item = coins 10 60 0;
  count = 60;
  from = 0;
  new_address = 12;
  trade_item = none;
}

kinds-Plain : Plain kinds
kinds-Plain id s = (refl, refl)

boxes-Good : Good boxes
boxes-Good = (
  (omega arith, omega arith, (tt, tt), ((omega arith, λ h. cc), tt), tt),
  ((omega arith, omega arith, (tt, tt), ((omega arith, λ h. cc), tt), tt), tt),
)

internal_move_item-total_example :
    total kinds 2148
      (internal_move_item kinds (chests kinds allow) all_coins 1 wherever no_flags boxes).1
    ≡ total kinds 2148 boxes
internal_move_item-total_example =
    internal_move_item-total kinds (chests kinds allow) (chest_laws kinds allow kinds-Plain) 2148
      all_coins 1 wherever no_flags boxes boxes-Good (box 1 (coins 11 50 1 ∷ []), refl)
      (box 0 (coins 10 60 0 ∷ []), refl, inl refl) (omega arith)

internal_move_item-chests_example :
    total kinds 2148
      (internal_move_item kinds (chests kinds allow) all_coins 1 (slot 0) no_flags boxes).1
    ≡ total kinds 2148 boxes
internal_move_item-chests_example =
    internal_move_item-chests kinds allow 2148 all_coins 1 (slot 0) no_flags boxes kinds-Plain
      boxes-Good (box 1 (coins 11 50 1 ∷ []), refl) (box 0 (coins 10 60 0 ∷ []), refl, inl refl)

-- The stacks after it, in the order of the boxes.
abbrev counts : List Item → List ℕ
counts [] = []
counts (it ∷ its) = it.count ∷ counts its

abbrev all_counts : List Container → List (List ℕ)
all_counts [] = []
all_counts (c ∷ cs) = counts c.itemlist ∷ all_counts cs

merged_coins :
    all_counts (internal_move_item kinds (chests kinds allow) all_coins 1 wherever no_flags boxes).1
    ≡ [] ∷ (10 ∷ 100 ∷ []) ∷ []
unfolding internal_move_item settle move_some query_destination settle_index auto_stack find_stack
    stacks_with query_add query_add_item get_top_parent query_max_count stack_room size
    get_item_by_index query_remove query_remove_at get_index_of_thing index_from remove_thing
    add_thing update_thing set_sub_type internal_add_thing push_item change_at set_item_count
merged_coins = refl

-- Coins that come from nowhere.
abbrev found : Item
found = record (coins 13 80 0) { parent = none }

internal_add_item-Outcome_example :
    Outcome kinds
      (chests kinds allow)
      (chest_laws kinds allow kinds-Plain)
      2148
      80
      false
      boxes
      (internal_add_item kinds (chests kinds allow) 81 14 1 wherever found no_flags false boxes)
internal_add_item-Outcome_example =
    internal_add_item-Outcome kinds (chests kinds allow) (chest_laws kinds allow kinds-Plain) 2148
      81 14 1 wherever found no_flags false boxes boxes-Good (box 1 (coins 11 50 1 ∷ []), refl)
      (omega arith) (omega arith)

internal_remove_item-Goes_example :
    Goes kinds (chests kinds allow) (chest_laws kinds allow kinds-Plain) 2148 20 false boxes (
      internal_remove_item kinds
        (chests kinds allow)
        (coins 10 60 0)
        true
        (some 20)
        false
        no_flags
        boxes)
internal_remove_item-Goes_example =
    internal_remove_item-Goes kinds (chests kinds allow) (chest_laws kinds allow kinds-Plain) 2148 0
      (coins 10 60 0) true (some 20) false no_flags boxes refl
      (box 0 (coins 10 60 0 ∷ []), refl, inl refl) (omega arith)
