-- ===== src/Container/Queries.antt =====
-- What the answers of src/container.cpp promise: `__queryAdd`, `__queryMaxCount` and
-- `__queryDestination`.
use otxserver.Common.{
  ℕ, suc, ◌+◌, ◌-◌, ◌*◌, ◌%◌, ◌^◌, ◌≤◌, ◌<◌, ◌≡◌, refl, sym, ap, ◌∙◌, ◌⊎◌, inl, inr, Bool, true,
  false, not, ◌&&◌, ◌||◌, Option, none, some, List, [], ◌∷◌, arith, ltb, leb, ◌==◌, if◌then◌else◌,
  ltb→lt, Bool-cases, Option-cases, if_intro, length, get_elem?, All,
}
use otxserver.Container.{
  ItemType, Item, object, Cylinder, chest, other, Container, Index, wherever, slot, Flags,
  ReturnValue, no_error, not_enough_room, is_no_error, size, get_item_by_index, is_parent,
  is_container, query_add_item, query_add,
}
use otxserver.Container.Operations.{
  stacks_with, stack_room, query_max_count, push_item, internal_add_thing, add_thing, sum_by,
}
use otxserver.Container.Destination.{
  Destination, settle_index, item_there, find_stack, stack_at, takes, is_here, auto_stack, into,
  query_item, query_thing, move_up, is_up, query_destination,
}

-- Where `__queryAdd` answers no error for an item that is to be put anywhere, with no flag that lifts
-- the limits: the item can be picked up, it is neither the container nor a container around it, and
-- when it is added the container holds no more items than its capacity.
pub query_add-room :
    (items : ℕ → ItemType) (ask : ℕ → Item → ℕ → ReturnValue) (c : Container) (it : Item)
    (count : ℕ) (flags : Flags)
    → flags.child_is_owner ≡ false
    → flags.no_limit ≡ false
    → query_add items ask c wherever (object it) count flags ≡ no_error
    → ((items it.id).pickupable ≡ true)
      × ((it.address == c.address) ≡ false)
      × ((is_container it && is_parent it.address c.parents) ≡ false)
      × (size (add_thing items wherever (object it) c) ≤ c.max_size)
unfolding query_add query_add_item size add_thing internal_add_thing push_item
query_add-room items ask c it count flags h k e = elim (Bool-cases (items it.id).pickupable) [
  | inr p ↦ absurd (cc (rw (h, p) at e))
  | inl p ↦ elim (Bool-cases (it.address == c.address)) [
    | inl q ↦ absurd (cc (rw (h, p, q) at e))
    | inr q ↦ elim (Bool-cases (is_container it && is_parent it.address c.parents)) [
      | inl r ↦ absurd (cc (rw (h, p, q, r) at e))
      | inr r ↦ elim (Bool-cases (leb c.max_size (length c.itemlist))) [
        | inl f ↦ absurd (cc (rw (h, p, q, r, k, f) at e))
        | inr f ↦ (p, q, r, ground arith)
      ]
    ]
  ]
]

-- The items that the given one stacks with, counted.
unfoldable pub same_kind : Item → Item → ℕ
same_kind it d = if not (d.address == it.address) && d.id == it.id then d.count else 0

abbrev pub Stacks : List Item → Type 0
Stacks its = All (λ d. d.count ≤ 100) its

stack_room-bound :
    (free : Bool) (it : Item) (its : List Item)
    → Stacks its
    → stack_room free it its + sum_by (same_kind it) its ≤ 100 * length its
unfolding stack_room sum_by same_kind stacks_with
stack_room-bound free it [] h = omega arith
stack_room-bound free it (d ∷ ds) h = ground (arith, stack_room-bound free it ds h.1)

mod_le : (n : ℕ) → n % 2 ^ 32 ≤ n
mod_le n = omega arith

-- For a stackable item that is to be put anywhere, within the limits, where no stack holds more than
-- 100 and the list is within its capacity: the maximum that `__queryMaxCount` names and what the other stacks of its kind already hold come to no more than 100
-- for each place of the container, and it answers no error only for a count within that maximum.
pub query_max_count-bound :
    (items : ℕ → ItemType) (ask : ℕ → Item → ℕ → ReturnValue) (c : Container) (it : Item)
    (count n : ℕ) (flags : Flags) (answer : ReturnValue)
    → flags.no_limit ≡ false
    → (items it.id).stackable ≡ true
    → Stacks c.itemlist
    → size c ≤ c.max_size
    → query_max_count items ask c wherever (object it) count flags ≡ (answer, n)
    → (n + sum_by (same_kind it) c.itemlist ≤ 100 * c.max_size)
      × ((answer ≡ no_error) × (count ≤ n) ⊎ (answer ≡ not_enough_room) × (n < count))
unfolding query_max_count size
query_max_count-bound items ask c it count n flags answer h s k b e =
    let free = is_no_error (query_add items ask c (slot 0) (object it) count flags) in
    let m = (c.max_size - size c) * 100 + stack_room free it c.itemlist in
    let q : query_max_count items ask c wherever (object it) count flags
        ≡ (if ltb (m % 2 ^ 32) count then not_enough_room else no_error, m % 2 ^ 32) =
      rw (h, s) in
    let e' = sym q ∙ e in
    let en : m % 2 ^ 32 ≡ n = ap (λ p. p.1) e' in
    let ea : (if ltb (m % 2 ^ 32) count then not_enough_room else no_error) ≡ answer =
      ap (λ p. p.0) e' in
    (
      omega (arith, en, mod_le m, stack_room-bound free it c.itemlist k),
      elim (Bool-cases (ltb (m % 2 ^ 32) count)) [
        | inl f ↦ inr (sym (rw f at ea), omega (arith, en, ltb→lt (m % 2 ^ 32) count f))
        | inr f ↦ inl (sym (rw f at ea), ground (arith, en))
      ],
    )

-- The item at an index.
abbrev pub item_of : Index → Container → Option Item
item_of wherever c = none
item_of (slot i) c = get_item_by_index i c

find_stack-at :
    (it d : Item) (its : List Item) (n j : ℕ)
    → find_stack it its n ≡ some (j, d)
    → (n ≤ j) × (j < n + length its) × (get_elem? its (j - n) ≡ some d)
unfolding find_stack
find_stack-at it d [] n j h = cc
find_stack-at it d (e ∷ es) n j h = elim (Bool-cases (stacks_with it e)) [
  | inl k ↦
      let q : some (n, e) ≡ some (j, d) = rw k at h in
      let qn : n ≡ j = cc in
      let qe : e ≡ d = cc in
      let z : n - n ≡ 0 = omega arith in rw (← qn) (omega arith, omega arith, rw (z, qe))
  | inr k ↦
      let r = find_stack-at it d es (n + 1) j (rw k at h) in
      let z : j - n ≡ suc (j - (n + 1)) = omega (arith, r.0) in
      (omega (arith, r.0), omega (arith, r.1), rw z r.2)
]

stack_at-item :
    (it : Item) (i : Index) (d : Option Item) (c : Container) (o : Option (ℕ × Item))
    → d ≡ item_of i c
    → find_stack it c.itemlist 0 ≡ o
    → (stack_at i d o).dest_item ≡ item_of (stack_at i d o).index c
unfolding get_item_by_index size
stack_at-item it i d c none h e = h
stack_at-item it i d c (some (j, k)) h e =
    let r = find_stack-at it k c.itemlist 0 j e in ground (arith, r.1, r.2)

auto_stack-item :
    (items : ℕ → ItemType) (c : Container) (i : Index) (it : Item) (d : Option Item) (flags : Flags)
    → d ≡ item_of i c
    → (auto_stack items c i it d flags).dest_item
      ≡ item_of (auto_stack items c i it d flags).index c
unfolding auto_stack
auto_stack-item items c i it d flags h =
    let Good : Destination → Type 0 = λ r. r.dest_item ≡ item_of r.index c in
    if_intro Good
      (not flags.ignore_auto_stack && (items it.id).stackable && not (is_here it.parent c.address))
      (if_intro Good (takes it d) h (stack_at-item it i d c (find_stack it c.itemlist 0) h refl)) h

into-item :
    (items : ℕ → ItemType) (c : Container) (i : ℕ) (it : Item) (d : Option Item) (flags : Flags)
    → d ≡ get_item_by_index i c
    → (into items c i it d flags).dest_item ≡ item_of (into items c i it d flags).index c
into-item items c i it none flags h = auto_stack-item items c (slot i) it none flags h
into-item items c i it (some d) flags h =
    if_intro (λ (r : Destination). r.dest_item ≡ item_of r.index c) (is_container d) refl
      (auto_stack-item items c (slot i) it (some d) flags h)

there : (i : ℕ) (c : Container) → item_there (slot i) none c ≡ get_item_by_index i c
there i c = elim (Option-cases (get_item_by_index i c)) [
  | inl e ↦ rw e refl
  | inr (it, e) ↦ rw e refl
]

query_item-item :
    (items : ℕ → ItemType) (c : Container) (i : Index) (it : Item) (flags : Flags)
    → (query_item items c i it none flags).dest_item
      ≡ item_of (query_item items c i it none flags).index c
query_item-item items c wherever it flags = auto_stack-item items c wherever it none flags refl
query_item-item items c (slot i) it flags =
    into-item items c i it (item_there (slot i) none c) flags (there i c)

move_up-item :
    (ps : List Cylinder) (c : Container) → (move_up ps).dest_item ≡ item_of (move_up ps).index c
move_up-item [] c = refl
move_up-item (chest a ∷ ps) c = refl
move_up-item (other a ∷ ps) c = refl

settled-item :
    (items : ℕ → ItemType) (c : Container) (i : Index) (it : Item) (flags : Flags)
    → (query_thing items c
        (settle_index c.max_size i none).0
        (object it)
        (settle_index c.max_size i none).1
        flags).dest_item
      ≡ item_of
          (query_thing items c
            (settle_index c.max_size i none).0
            (object it)
            (settle_index c.max_size i none).1
            flags).index
          c
unfolding settle_index
settled-item items c wherever it flags = query_item-item items c wherever it flags
settled-item items c (slot i) it flags = elim (Bool-cases (i == 255 || leb c.max_size i)) [
  | inl e ↦ rw e (query_item-item items c wherever it flags)
  | inr e ↦ rw e (query_item-item items c (slot i) it flags)
]

-- For an item and no item given beforehand, the item that `__queryDestination` answers is the one at
-- the index that it answers, if any.
pub query_destination-item :
    (items : ℕ → ItemType) (c : Container) (i : Index) (it : Item) (flags : Flags)
    → (query_destination items c i (object it) none flags).dest_item
      ≡ item_of (query_destination items c i (object it) none flags).index c
unfolding query_destination
query_destination-item items c i it flags =
    if_intro (λ (r : Destination). r.dest_item ≡ item_of r.index c) (is_up i)
      (move_up-item c.parents c) (settled-item items c i it flags)
