-- ===== src/Container.antt =====
-- src/container.cpp: a container of items. An item and a cylinder are named by numbers, their
-- addresses. What encloses a container is the list of its parents, the nearest first: containers
-- and others (a player, a tile). Weights, which are doubles, are not modelled; a mask of flags is a
-- record of the bits that are read here.
pub mod Operations
pub mod Destination
pub mod Sums
pub mod Counting
pub mod Queries
mod Tests
use otxserver.Common.{
  ℕ, zero, suc, ◌+◌, ◌-◌, ◌*◌, ◌/◌, ◌%◌, ◌^◌, ◌≤◌, ◌<◌, min, max, ◌≡◌, refl, sym, ap, ◌∙◌, ◌≢◌, ◌↔◌,
  ◌⊎◌, inl, inr, Bool, true, false, not, ◌&&◌, ◌||◌, Option, none, some, List, [], ◌∷◌, ◌++◌, map,
  arith, ltb, leb, ◌==◌, if◌then◌else◌, ltb→lt, lt→ltb, leb→le, ==_iff, ==_refl, Bool-cases,
  Option-cases, dist, if_intro, length, get_elem?, get_or, set, take, drop, length-append,
  take-append, drop-append, All, All-append,
}

-- `ItemType`, in what is read of it; `has_fluid` stands for isFluidContainer() || isSplash().
pub record ItemType : Type 0 where
  pub stackable : Bool
  pub movable : Bool
  pub pickupable : Bool
  pub has_fluid : Bool
  pub charges : Bool

-- `Item`; `holds` is whether it is a container. A count is a uint8_t.
pub record Item : Type 0 where
  pub address : ℕ
  pub id : ℕ
  pub count : ℕ
  pub fluid_type : ℕ
  pub charge_count : ℕ
  pub parent : Option ℕ
  pub holds : Bool

-- A creature's `getItem` is null.
pub data Thing : Type 0 where
  creature : ℕ → Thing
  object : Item → Thing

pub data Cylinder : Type 0 where
  chest : ℕ → Cylinder
  other : ℕ → Cylinder

pub record Container : Type 0 where
  pub address : ℕ
  pub max_size : ℕ
  pub itemlist : List Item
  pub parents : List Cylinder

-- `INDEX_WHEREEVER`, or an index that is not negative.
pub data Index : Type 0 where
  wherever : Index
  slot : ℕ → Index

pub record Flags : Type 0 where
  pub no_limit : Bool
  pub child_is_owner : Bool
  pub ignore_not_movable : Bool
  pub ignore_auto_stack : Bool

pub data ReturnValue : Type 0 where
  no_error not_possible cannot_pickup this_is_impossible not_enough_room not_movable : ReturnValue
  code : ℕ → ReturnValue

abbrev pub is_no_error : ReturnValue → Bool
is_no_error no_error = true
is_no_error not_possible = false
is_no_error cannot_pickup = false
is_no_error this_is_impossible = false
is_no_error not_enough_room = false
is_no_error not_movable = false
is_no_error (code n) = false

-- `getSubType` and `setSubType`
unfoldable pub get_sub_type : (ℕ → ItemType) → Item → ℕ
get_sub_type items it =
    if (items it.id).has_fluid
    then it.fluid_type
    else (if (items it.id).charges then it.charge_count else it.count)

unfoldable pub set_sub_type : (ℕ → ItemType) → ℕ → Item → Item
set_sub_type items n it =
    if (items it.id).has_fluid
    then record it { fluid_type = n % 2 ^ 16 }
    else (if (items it.id).charges
        then record it { charge_count = n % 2 ^ 16 }
        else record it { count = n % 2 ^ 8 })

-- `setItemCount`
unfoldable pub set_item_count : ℕ → Item → Item
set_item_count n it = record it { count = max 1 (n % 2 ^ 16) % 2 ^ 8 }

abbrev pub get_item : Thing → Option Item
get_item (creature a) = none
get_item (object it) = some it

abbrev pub thing_address : Thing → ℕ
thing_address (creature a) = a
thing_address (object it) = it.address

unfoldable pub size : Container → ℕ
size c = length c.itemlist

-- `getItemByIndex`
unfoldable pub get_item_by_index : ℕ → Container → Option Item
get_item_by_index i c = if leb (size c) i then none else get_elem? c.itemlist i

-- The loop of `__getIndexOfThing`; `none` is -1.
unfoldable pub index_from : ℕ → List Item → ℕ → Option ℕ
index_from a [] index = none
index_from a (it ∷ its) index = if it.address == a then some index else index_from a its (index + 1)

unfoldable pub get_index_of_thing : Thing → Container → Option ℕ
get_index_of_thing thing c = index_from (thing_address thing) c.itemlist 0

abbrev pub cylinder_address : Cylinder → ℕ
cylinder_address (chest a) = a
cylinder_address (other a) = a

-- The loop of `__queryAdd` over the parents.
unfoldable pub is_parent : ℕ → List Cylinder → Bool
is_parent a [] = false
is_parent a (p ∷ ps) = cylinder_address p == a || is_parent a ps

-- `getTopParent`: the last but one of the chain that begins with the cylinder itself; `none` is
-- the container itself.
unfoldable pub get_top_parent : List Cylinder → Option Cylinder
get_top_parent [] = none
get_top_parent (p ∷ []) = none
get_top_parent (p ∷ q ∷ []) = some p
get_top_parent (p ∷ q ∷ r ∷ ps) = get_top_parent (q ∷ r ∷ ps)

-- The answer of the top parent: a container's is immediate for a child's query, `ask` is that of the
-- other kinds of cylinder.
abbrev pub ask_top : (ℕ → ReturnValue) → Option Cylinder → ReturnValue
ask_top ask none = no_error
ask_top ask (some (chest a)) = no_error
ask_top ask (some (other a)) = ask a

abbrev pub is_wherever : Index → Bool
is_wherever wherever = true
is_wherever (slot i) = false

abbrev pub is_container : Item → Bool
is_container it = it.holds

-- `__queryAdd`, for an item. `ask a it count` is what the cylinder `a` answers.
unfoldable pub query_add_item :
    (ℕ → ItemType)
    → (ℕ → Item → ℕ → ReturnValue)
    → Container
    → Index
    → Item
    → ℕ
    → Flags
    → ReturnValue
query_add_item items ask c index it count flags =
    if not (items it.id).pickupable
    then cannot_pickup
    else (if it.address == c.address
        then this_is_impossible
        else (if is_container it && is_parent it.address c.parents
            then this_is_impossible
            else (if not flags.no_limit && (is_wherever index && leb c.max_size (size c))
                then not_enough_room
                else ask_top (λ a. ask a it count) (get_top_parent c.parents))))

unfoldable pub query_add :
    (ℕ → ItemType)
    → (ℕ → Item → ℕ → ReturnValue)
    → Container
    → Index
    → Thing
    → ℕ
    → Flags
    → ReturnValue
query_add items ask c index (creature a) count flags =
    if flags.child_is_owner then no_error else not_possible
query_add items ask c index (object it) count flags =
    if flags.child_is_owner then no_error else query_add_item items ask c index it count flags
