-- ===== src/Transfer/Adding.antt =====
-- Items that come into a cylinder from nowhere, in src/game.cpp: `internalAddItem`, over any kinds of
-- cylinders; and what is taken away, `internalRemoveItem`.
use otxserver.Common.{
  ℕ, zero, suc, ◌+◌, ◌-◌, ◌%◌, ◌^◌, min, Bool, true, false, not, Option, none, some, ltb, ◌==◌,
  if◌then◌else◌,
}
use otxserver.Container.{
  ItemType, Item, Index, wherever, Flags, ReturnValue, no_error, not_possible, is_no_error,
}
use otxserver.Transfer.{Place, Cylinders, create_item, merge}

-- The answer with `remainderCount` and `stackItem`, and the cylinders after it.
pub record Added (W : Type 0) : Type 0 where
  pub answer : ReturnValue
  pub remainder_count : ℕ
  pub stack_item : Option Item
  pub state : W

-- `item->getItemCount() != count`, once the rest of a stack is to be added: the answer of that call.
abbrev pub with_remainder : {W : Type 0} → ℕ → Option Item → Option (Added W) → Option (Added W)
with_remainder count d none = none
with_remainder count d (some r) =
    if is_no_error r.answer
    then some (record { answer = no_error; remainder_count = 0; stack_item = d; state = r.state })
    else some
        (record { answer = r.answer; remainder_count = count; stack_item = d; state = r.state })

-- A count of `none` is -1.
abbrev pub count_or_all : Item → Option ℕ → ℕ
count_or_all it none = it.count
count_or_all it (some n) = n

module _ {W : Type 0} (items : ℕ → ItemType) (cylinders : Cylinders W) where
  abbrev pub answered : Place → ReturnValue → W → Option (Added W)
  answered q r w =
      some (record { answer = r; remainder_count = 0; stack_item = q.to_item; state = w })

  -- The end of `internalAddItem`.
  abbrev pub put_item : Place → Item → W → Option (Added W)
  put_item q it w = answered q no_error (cylinders.add_thing q.cylinder q.index it w)

  -- `std::min<uint32_t>(100 - toItem->getItemCount(), m)`
  abbrev pub joined : Item → Item → ℕ → ℕ
  joined it d m = if d.id == it.id then min ((100 + 2 ^ 32 - d.count) % 2 ^ 32) m else 0

  -- A stack that comes where an item is; `again` adds a remainder.
  abbrev pub put_on :
      (Item → W → Option (Added W)) → ℕ → Place → Item → ℕ → Option Item → W → Option (Added W)
  put_on again new_address q it limit none w = put_item q it w
  put_on again new_address q it limit (some d) w =
      let m = min it.count limit in
      let n = joined it d m in
      let w1 = merge items cylinders q.cylinder it (some d) n w in
      let rest = again (create_item new_address it.id (m - n)) w1 in
      if ltb 0 (m - n)
      then (if not (it.count == m - n)
          then with_remainder (m - n) (some d) rest
          else put_item q it w1)
      else answered q no_error w1

  -- `internalAddItem`, on fuel: `none` is out of fuel. A remainder is not a test.
  unfoldable pub internal_add_item : ℕ → ℕ → ℕ → Index → Item → Flags → Bool → W → Option (Added W)
  internal_add_item zero new_address to index it flags test w = none
  internal_add_item (suc fuel) new_address to index it flags test w =
      let q = cylinders.query_destination to index it none flags w in
      let answer = cylinders.query_add q.cylinder q.index it it.count flags w in
      let (limited, limit) = cylinders.query_max_count to wherever it it.count flags w in
      let again =
        λ (r : Item) (w1 : W). internal_add_item fuel new_address to wherever r flags false w1 in
      if not (is_no_error answer)
      then answered q answer w
      else (if not (is_no_error limited)
          then answered q limited w
          else (if test
              then answered q no_error w
              else (if (items it.id).stackable
                  then put_on again new_address q it limit q.to_item w
                  else put_item q it w)))

  -- `internalRemoveItem`; `can_remove` is that of the item.
  abbrev pub remove_from : Option ℕ → Item → Bool → ℕ → Bool → Flags → W → ReturnValue × W
  remove_from none it can_remove n test flags w = (not_possible, w)
  remove_from (some k) it can_remove n test flags w =
      let answer = cylinders.query_remove k it n (record flags { ignore_not_movable = true }) w in
      if not (is_no_error answer)
      then (answer, w)
      else (if not can_remove
          then (not_possible, w)
          else (no_error, if test then w else cylinders.remove_thing k it n w))

  unfoldable pub internal_remove_item : Item → Bool → Option ℕ → Bool → Flags → W → ReturnValue × W
  internal_remove_item it can_remove count test flags w =
      remove_from it.parent it can_remove (count_or_all it count) test flags w
