-- ===== src/Container/Operations.antt =====
-- The operations of src/container.cpp that count, look for a place, and change a container. What is
-- sent to the clients of the players nearby, and the weights, are not modelled.
use otxserver.Common.{
  ℕ, zero, suc, ◌+◌, ◌-◌, ◌*◌, ◌%◌, ◌^◌, max, Bool, false, not, ◌&&◌, ◌||◌, Option, none, some,
  List, [], ◌∷◌, ltb, leb, ◌==◌, if◌then◌else◌, get_elem?, set,
}
use otxserver.Container.{
  ItemType, Item, Thing, creature, object, Container, Index, wherever, slot, Flags, ReturnValue,
  no_error, not_possible, not_enough_room, not_movable, is_no_error, get_sub_type, set_sub_type,
  set_item_count, get_item, size, get_item_by_index, get_index_of_thing, query_add,
}

-- Another item of the same kind, with room left: the test of both loops.
unfoldable pub stacks_with : Item → Item → Bool
stacks_with it d = not (d.address == it.address) && (d.id == it.id && ltb d.count 100)

-- The loop of `__queryMaxCount`; `free` is whether `__queryAdd` answers no error.
unfoldable pub stack_room : Bool → Item → List Item → ℕ
stack_room free it [] = 0
stack_room free it (d ∷ ds) =
    (if stacks_with it d && free then 100 - d.count else 0) + stack_room free it ds

-- The stackable slots of `__queryMaxCount` at one index.
abbrev pub slot_room : Bool → Item → Option Item → ℕ
slot_room free it none = 0
slot_room free it (some d) = if d.id == it.id && ltb d.count 100 && free then 100 - d.count else 0

abbrev pub room_at : Bool → Item → Index → Container → ℕ
room_at free it wherever c = stack_room free it c.itemlist
room_at free it (slot i) c = slot_room free it (get_item_by_index i c)

-- The place of the query of a stack: an index, in the loop that of a counter.
abbrev pub asked : Index → Index
asked wherever = slot 0
asked (slot i) = slot i

-- `__queryMaxCount`: the answer and `maxQueryCount`.
unfoldable pub query_max_count :
    (ℕ → ItemType)
    → (ℕ → Item → ℕ → ReturnValue)
    → Container
    → Index
    → Thing
    → ℕ
    → Flags
    → ReturnValue × ℕ
query_max_count items ask c index (creature a) count flags = (not_possible, 0)
query_max_count items ask c index (object it) count flags =
    let free = is_no_error (query_add items ask c (asked index) (object it) count flags) in
    let n = ((c.max_size - size c) * 100 + room_at free it index c) % 2 ^ 32 in
    let f = c.max_size - size c in
    if flags.no_limit
    then (no_error, max 1 count)
    else (if (items it.id).stackable
        then (if ltb n count then not_enough_room else no_error, n)
        else (if f == 0 then not_enough_room else no_error, f))

-- `__queryRemove`, by the index that is found.
unfoldable pub query_remove_at : (ℕ → ItemType) → Option ℕ → Option Item → ℕ → Flags → ReturnValue
query_remove_at items none o count flags = not_possible
query_remove_at items (some i) none count flags = not_possible
query_remove_at items (some i) (some it) count flags =
    if count == 0 || ((items it.id).stackable && ltb it.count count)
    then not_possible
    else (if not (items it.id).movable && not flags.ignore_not_movable
        then not_movable
        else no_error)

unfoldable pub query_remove : (ℕ → ItemType) → Container → Thing → ℕ → Flags → ReturnValue
query_remove items c thing count flags =
    query_remove_at items (get_index_of_thing thing c) (get_item thing) count flags

-- `__internalAddThing`, and the end of `__addThing`.
unfoldable pub push_item : (ℕ → ItemType) → Item → Container → Container
push_item items it c =
    let it' : Item = record it { parent = some c.address } in
    record c { itemlist = it' ∷ c.itemlist }

unfoldable pub internal_add_thing : (ℕ → ItemType) → Thing → Container → Container
internal_add_thing items (creature a) c = c
internal_add_thing items (object it) c = push_item items it c

abbrev pub is_beyond : Index → Container → Bool
is_beyond wherever c = false
is_beyond (slot i) c = leb c.max_size i

-- `__addThing`: whatever the index, the item comes to the front.
unfoldable pub add_thing : (ℕ → ItemType) → Index → Thing → Container → Container
add_thing items index thing c = if is_beyond index c then c else internal_add_thing items thing c

-- The item at an index becomes another.
unfoldable pub change_at : (ℕ → ItemType) → ℕ → Item → Item → Container → Container
change_at items i old new c = record c { itemlist = set c.itemlist i new }

-- `__updateThing`: the thing is the item at its index. Of `setID` only the new id is modelled.
abbrev pub update_at : (ℕ → ItemType) → ℕ → ℕ → Option ℕ → Option Item → Container → Container
update_at items item_id count none o c = c
update_at items item_id count (some i) none c = c
update_at items item_id count (some i) (some it) c =
    change_at items i it (set_sub_type items count (record it { id = item_id })) c

abbrev pub item_at : Option ℕ → Container → Option Item
item_at none c = none
item_at (some i) c = get_elem? c.itemlist i

unfoldable pub update_thing : (ℕ → ItemType) → Thing → ℕ → ℕ → Container → Container
update_thing items thing item_id count c =
    let index = get_index_of_thing thing c in
    update_at items item_id count index (item_at index c) c

-- `__replaceThing`
abbrev pub replace_at : (ℕ → ItemType) → ℕ → Option Item → Option Item → Container → Container
replace_at items i none o c = c
replace_at items i (some it) none c = c
replace_at items i (some it) (some old) c =
    change_at items i old (record it { parent = some c.address }) c

unfoldable pub replace_thing : (ℕ → ItemType) → ℕ → Thing → Container → Container
replace_thing items i thing c = replace_at items i (get_item thing) (get_item_by_index i c) c

-- `itemlist.erase(itemlist.begin() + index)`
abbrev pub erase_at : ℕ → List Item → List Item
erase_at i [] = []
erase_at zero (it ∷ its) = its
erase_at (suc i) (it ∷ its) = it ∷ erase_at i its

-- `__removeThing`: the thing is the item at its index.
abbrev pub remove_at : (ℕ → ItemType) → ℕ → Option ℕ → Option Item → Container → Container
remove_at items count none o c = c
remove_at items count (some i) none c = c
remove_at items count (some i) (some it) c =
    if (items it.id).stackable && not (count == it.count)
    then change_at items i it (set_item_count (it.count - count) it) c
    else record c { itemlist = erase_at i c.itemlist }

unfoldable pub remove_thing : (ℕ → ItemType) → Thing → ℕ → Container → Container
remove_thing items thing count c =
    let index = get_index_of_thing thing c in remove_at items count index (item_at index c) c

-- `Item::countByType`; `none` is -1.
abbrev pub count_by_type : (ℕ → ItemType) → Item → Option ℕ → ℕ
count_by_type items it none = it.count
count_by_type items it (some n) = if get_sub_type items it == n then it.count else 0

-- What the loop of `__getItemTypeCount` adds for one item, and its sum before it wraps.
abbrev pub type_count : (ℕ → ItemType) → ℕ → Option ℕ → Item → ℕ
type_count items item_id sub_type it =
    if it.id == item_id then count_by_type items it sub_type else 0

unfoldable pub sum_by : (Item → ℕ) → List Item → ℕ
sum_by f [] = 0
sum_by f (it ∷ its) = f it + sum_by f its

unfoldable pub get_item_type_count : (ℕ → ItemType) → ℕ → Option ℕ → Container → ℕ
get_item_type_count items item_id sub_type c =
    sum_by (type_count items item_id sub_type) c.itemlist % 2 ^ 32
