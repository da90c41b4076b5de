-- ===== src/Transfer.antt =====
-- Items that go from one cylinder to another, in src/game.cpp: `internalMoveItem`, over any kinds of
-- cylinders (src/cylinder.h): a container, a tile, a player. A cylinder is named by a number; W is the
-- state of them all. The notifications after a change, which update clients and run scripts, are not
-- modelled. An item here is that of Container.
pub mod Laws
pub mod Amounts
pub mod Conservation
pub mod Chests
pub mod Finding
pub mod Places
pub mod Stays
pub mod Growth
pub mod Promises
pub mod Adding
pub mod Additions
pub mod Removals
mod Tests
use otxserver.Common.{
  ℕ, zero, suc, ◌+◌, ◌-◌, ◌*◌, ◌/◌, ◌%◌, ◌^◌, ◌≤◌, ◌<◌, min, max, ◌≡◌, refl, sym, ap, ◌∙◌, ◌≢◌, ◌↔◌,
  ◌⊎◌, inl, inr, Bool, true, false, not, ◌&&◌, ◌||◌, Option, none, some, List, [], ◌∷◌, ◌++◌, map,
  arith, ltb, leb, ◌==◌, if◌then◌else◌, ltb→lt, lt→ltb, leb→le, ==_iff, ==_refl, Bool-cases,
  Option-cases, dist, if_intro, length, get_elem?, get_or, set, take, drop, length-append,
  take-append, drop-append, All, All-append,
}
use otxserver.Container.{
  ItemType, Item, Index, wherever, slot, Flags, ReturnValue, no_error, not_possible,
  not_enough_room, code, cannot_pickup, this_is_impossible, not_movable, is_no_error,
}

-- What `__queryDestination` answers: a cylinder, an index in it and the item there.
pub record Place : Type 0 where
  pub cylinder : ℕ
  pub index : Index
  pub to_item : Option Item

-- The virtual functions of `Cylinder`. `is_blocked` is the test of the destination of a teleport, and
-- `lies_in` whether a cylinder, or one around it, is an item.
pub record Cylinders (W : Type 0) : Type 0 where
  pub query_destination : ℕ → Index → Item → Option Item → Flags → W → Place
  pub query_add : ℕ → Index → Item → ℕ → Flags → W → ReturnValue
  pub query_max_count : ℕ → Index → Item → ℕ → Flags → W → ReturnValue × ℕ
  pub query_remove : ℕ → Item → ℕ → Flags → W → ReturnValue
  pub get_index_of_thing : ℕ → Item → W → Index
  pub add_thing : ℕ → Index → Item → W → W
  pub remove_thing : ℕ → Item → ℕ → W → W
  pub update_thing : ℕ → Item → ℕ → ℕ → W → W
  pub is_blocked : ℕ → Item → W → Bool
  pub lies_in : ℕ → ℕ → W → Bool

-- `RET_NEEDEXCHANGE` and its test.
abbrev pub need_exchange : ReturnValue
need_exchange = code 13

abbrev pub is_need_exchange : ReturnValue → Bool
is_need_exchange no_error = false
is_need_exchange not_possible = false
is_need_exchange cannot_pickup = false
is_need_exchange this_is_impossible = false
is_need_exchange not_enough_room = false
is_need_exchange not_movable = false
is_need_exchange (code n) = n == 13

abbrev pub no_flags : Flags
no_flags = record {
  no_limit = false;
  child_is_owner = false;
  ignore_not_movable = false;
  ignore_auto_stack = false;
}

-- `Item::CreateItem` of a stackable kind, which is in no cylinder yet.
abbrev pub create_item : ℕ → ℕ → ℕ → Item
create_item new_address id amount = record {
  address = new_address;
  id = id;
  count = max 1 (amount % 2 ^ 16) % 2 ^ 8;
  fluid_type = 0;
  charge_count = 0;
  parent = none;
  holds = false;
}

-- An item, the place where it comes from and goes to, and the count that is asked for.
pub record Move : Type 0 where
  pub item : Item
  pub count : ℕ
  pub from : ℕ
  pub new_address : ℕ
  pub trade_item : Option ℕ

abbrev pub is_item : Item → Option Item → Bool
is_item it none = false
is_item it (some d) = d.address == it.address

module _ {W : Type 0} (items : ℕ → ItemType) (cylinders : Cylinders W) where
  -- The loop over `__queryDestination`, which passes on at most `floors` times.
  unfoldable pub settle : ℕ → Place → Item → Flags → W → Place × Flags
  settle zero p it flags w = (p, flags)
  settle (suc floors) p it flags w =
      let q = cylinders.query_destination p.cylinder p.index it p.to_item flags w in
      let rest = settle floors q it no_flags w in
      if q.cylinder == p.cylinder then (q, flags) else rest

  -- `std::min<uint32_t>(100 - toItem->getItemCount(), m)` as a uint8_t
  abbrev pub merged : Item → Option Item → ℕ → ℕ
  merged it none m = 0
  merged it (some d) m =
      if d.id == it.id then min ((100 + 2 ^ 32 - d.count) % 2 ^ 32) m % 2 ^ 8 else 0

  abbrev pub merge : ℕ → Item → Option Item → ℕ → W → W
  merge to it none n w = w
  merge to it (some d) n w =
      if d.id == it.id then cylinders.update_thing to d d.id (d.count + n) w else w

  -- The end of a move of m of a stack: n of them go to the item that is there, a new item is the rest.
  abbrev pub put_stack : Move → Place → ℕ → W → W
  put_stack mv p m w =
      let n = merged mv.item p.to_item m in
      let w1 = merge p.cylinder mv.item p.to_item n w in
      if ltb 0 (m - n)
      then cylinders.add_thing p.cylinder p.index (create_item mv.new_address mv.item.id (m - n)) w1
      else w1

  abbrev pub put_moved : Move → Place → ℕ → W → W
  put_moved mv p m w =
      if (items mv.item.id).stackable
      then put_stack mv p m w
      else cylinders.add_thing p.cylinder p.index mv.item w

  abbrev pub is_in_trade : Option ℕ → ℕ → W → Bool
  is_in_trade none to w = false
  is_in_trade (some a) to w = cylinders.lies_in to a w

  -- From the query of how much can be moved; `answer` is what `__queryAdd` answered.
  unfoldable pub move_some : Move → Place → Flags → ReturnValue → W → ReturnValue × W
  move_some mv p flags answer w =
      let (limited, limit) =
        cylinders.query_max_count p.cylinder p.index mv.item mv.count flags w in
      let m = if (items mv.item.id).stackable then min mv.count limit else limit in
      let removes = cylinders.query_remove mv.from mv.item m flags w in
      if not (is_no_error answer)
      then (answer, w)
      else (if not (is_no_error limited) && limit == 0
          then (answer, w)
          else (if not (is_no_error removes)
              then (removes, w)
              else (if is_in_trade mv.trade_item p.cylinder w then (not_enough_room, w) else (
                if (items mv.item.id).stackable && ltb limit mv.count then limited else removes,
                put_moved mv p m (cylinders.remove_thing mv.from mv.item m w),
              ))))

  -- Where the destination needs an exchange: its item, once `__queryAdd` of the source has answered.
  abbrev pub exchange_with :
      Move → Place → Flags → Item → ReturnValue → ReturnValue × ℕ → W → ReturnValue × W
  exchange_with mv p flags d answer (limited, limit) w =
      let w1 =
        cylinders.add_thing mv.from (slot 0) d (cylinders.remove_thing p.cylinder d d.count w) in
      let again = cylinders.query_add p.cylinder p.index mv.item mv.count flags w1 in
      if not (is_no_error answer)
      then move_some mv p flags answer w
      else (if not (is_no_error limited) && limit == 0
          then (limited, w)
          else (if is_no_error (cylinders.query_remove p.cylinder d d.count flags w)
              then move_some mv (record p { to_item = none }) flags again w1
              else move_some mv p flags answer w))

  -- Without an item there, which no cylinder that needs an exchange answers, the source is undefined.
  abbrev pub exchange : Move → Place → Flags → Option Item → W → ReturnValue × W
  exchange mv p flags none w = (need_exchange, w)
  exchange mv p flags (some d) w =
      exchange_with mv p flags d
        (cylinders.query_add mv.from (cylinders.get_index_of_thing mv.from mv.item w) d d.count
          no_flags w)
        (cylinders.query_max_count mv.from wherever d d.count no_flags w) w

  abbrev pub move_to : Move → Place × Flags → W → ReturnValue × W
  move_to mv (p, flags) w =
      let answer = cylinders.query_add p.cylinder p.index mv.item mv.count flags w in
      if is_item mv.item p.to_item
      then (no_error, w)
      else (if cylinders.is_blocked p.cylinder mv.item w
          then (not_possible, w)
          else (if is_need_exchange answer
              then exchange mv p flags p.to_item w
              else move_some mv p flags answer w))

  -- `internalMoveItem` of an item that is in a cylinder; `MAP_MAX_LAYERS` is 16.
  unfoldable pub internal_move_item : Move → ℕ → Index → Flags → W → ReturnValue × W
  internal_move_item mv to index flags w =
      move_to mv
        (settle 16 (record { cylinder = to; index = index; to_item = none }) mv.item flags w) w
