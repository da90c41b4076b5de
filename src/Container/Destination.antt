-- ===== src/Container/Destination.antt =====
-- `Container::__queryDestination` of src/container.cpp: which cylinder a thing goes to, at what index,
-- and the item there.
use otxserver.Common.{
  ℕ, ◌+◌, Bool, false, not, ◌&&◌, ◌||◌, Option, none, some, List, [], ◌∷◌, ltb, leb, ◌==◌,
  if◌then◌else◌,
}
use otxserver.Container.{
  ItemType, Item, Thing, creature, object, Cylinder, chest, other, Container, Index, wherever, slot,
  Flags, get_item_by_index, is_container,
}
use otxserver.Container.Operations.{stacks_with}

-- The answer: the container itself, its parent, or a container in it; the index and the item there.
pub data Target : Type 0 where
  this parent_container : Target
  sub_container : ℕ → Target

pub record Destination : Type 0 where
  pub target : Target
  pub index : Index
  pub dest_item : Option Item

-- The index after the tests of 255 and of the capacity, and the item with it.
unfoldable pub settle_index : ℕ → Index → Option Item → Index × Option Item
settle_index capacity wherever d = (wherever, d)
settle_index capacity (slot i) d =
    if i == 255 || leb capacity i then (wherever, none) else (slot i, d)

abbrev pub or_else : Option Item → Option Item → Option Item
or_else none d = d
or_else (some it) d = some it

-- The item at the index, where there is one.
abbrev pub item_there : Index → Option Item → Container → Option Item
item_there wherever d c = d
item_there (slot i) d c = or_else (get_item_by_index i c) d

-- The loop that looks for an item to stack with.
unfoldable pub find_stack : Item → List Item → ℕ → Option (ℕ × Item)
find_stack it [] n = none
find_stack it (d ∷ ds) n = if stacks_with it d then some (n, d) else find_stack it ds (n + 1)

abbrev pub stack_at : Index → Option Item → Option (ℕ × Item) → Destination
stack_at i d none = record { target = this; index = i; dest_item = d }
stack_at i d (some (n, it)) = record { target = this; index = slot n; dest_item = some it }

-- `(*destItem)->getID() == item->getID() && (*destItem)->getItemCount() < 100`
abbrev pub takes : Item → Option Item → Bool
takes it none = false
takes it (some d) = d.id == it.id && ltb d.count 100

abbrev pub is_here : Option ℕ → ℕ → Bool
is_here none a = false
is_here (some p) a = p == a

-- From `autoStack` to the end.
unfoldable pub auto_stack :
    (ℕ → ItemType) → Container → Index → Item → Option Item → Flags → Destination
auto_stack items c i it d flags =
    let here : Destination = record { target = this; index = i; dest_item = d } in
    if not flags.ignore_auto_stack && (items it.id).stackable && not (is_here it.parent c.address)
    then (if takes it d then here else stack_at i d (find_stack it c.itemlist 0))
    else here

-- A container at the index is the answer.
abbrev pub into : (ℕ → ItemType) → Container → ℕ → Item → Option Item → Flags → Destination
into items c i it none flags = auto_stack items c (slot i) it none flags
into items c i it (some d) flags =
    if is_container d
    then record { target = sub_container d.address; index = wherever; dest_item = none }
    else auto_stack items c (slot i) it (some d) flags

abbrev pub query_item :
    (ℕ → ItemType) → Container → Index → Item → Option Item → Flags → Destination
query_item items c wherever it d flags = auto_stack items c wherever it d flags
query_item items c (slot i) it d flags = into items c i it (item_there (slot i) d c) flags

abbrev pub query_thing :
    (ℕ → ItemType) → Container → Index → Thing → Option Item → Flags → Destination
query_thing items c i (creature a) d flags = record { target = this; index = i; dest_item = d }
query_thing items c i (object it) d flags = query_item items c i it d flags

-- 254, to move up: the parent, where it is a container.
abbrev pub move_up : List Cylinder → Destination
move_up [] = record { target = this; index = wherever; dest_item = none }
move_up (chest a ∷ ps) = record { target = parent_container; index = wherever; dest_item = none }
move_up (other a ∷ ps) = record { target = this; index = wherever; dest_item = none }

abbrev pub is_up : Index → Bool
is_up wherever = false
is_up (slot i) = i == 254

-- `__queryDestination`
unfoldable pub query_destination :
    (ℕ → ItemType) → Container → Index → Thing → Option Item → Flags → Destination
query_destination items c i thing d flags =
    let (i', d') = settle_index c.max_size i d in
    if is_up i then move_up c.parents else query_thing items c i' thing d' flags
