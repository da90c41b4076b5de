-- ===== src/Container/Counting.antt =====
-- What the operations of src/container.cpp do to the number of items of a kind.
use otxserver.Common.{
  ℕ, ◌+◌, ◌-◌, ◌%◌, ◌^◌, ◌≤◌, ◌<◌, max, ◌≡◌, refl, inl, inr, true, false, ◌&&◌, Option, none, some,
  List, ◌∷◌, arith, ltb, ◌==◌, if◌then◌else◌, ltb→lt, ==_iff, ==_refl, Bool-cases, get_elem?,
}
use otxserver.Container.{
  ItemType, Item, object, Container, Index, Flags, no_error, set_item_count, get_index_of_thing,
  index_from,
}
use otxserver.Container.Operations.{
  query_remove, query_remove_at, push_item, internal_add_thing, is_beyond, add_thing, change_at,
  remove_at, remove_thing, type_count, sum_by, get_item_type_count,
}
use otxserver.Container.Sums.{sum_by-set, sum_by-erase_at}

-- What a removal that is allowed asks for.
pub query_remove_count :
    (items : ℕ → ItemType) (o : Option ℕ) (it : Item) (count : ℕ) (flags : Flags)
    → query_remove_at items o (some it) count flags ≡ no_error
    → (items it.id).stackable ≡ true
    → count ≤ it.count
unfolding query_remove_at
query_remove_count items none it count flags h s = cc
query_remove_count items (some i) it count flags h s = elim (Bool-cases (ltb it.count count)) [
  | inl e ↦ absurd (elim (Bool-cases (count == 0)) [
    | inl z ↦ omega (arith, ltb→lt it.count count e, (==_iff count 0).0 z)
    | inr z ↦ cc (rw (z, s, e) at h)
  ])
  | inr e ↦ ground arith
]

count_set :
    (items : ℕ → ItemType) (item_id : ℕ) (it : Item) (n : ℕ)
    → type_count items item_id none (set_item_count n it)
      ≡ (if it.id == item_id then max 1 (n % 2 ^ 16) % 2 ^ 8 else 0)
unfolding set_item_count
count_set items item_id it n = refl

pub remove_stack-sum :
    (items : ℕ → ItemType) (item_id i count : ℕ) (it : Item) (c : Container)
    → get_elem? c.itemlist i ≡ some it
    → it.count < 2 ^ 8
    → count ≤ it.count
    → (items it.id).stackable ≡ true
    → sum_by (type_count items item_id none) (remove_at items count (some i) (some it) c).itemlist
        + (if it.id == item_id then count else 0)
      ≡ sum_by (type_count items item_id none) c.itemlist
unfolding change_at
remove_stack-sum items item_id i count it c e b h s = elim (Bool-cases (count == it.count)) [
  | inl k ↦
      rw (s, k)
        (ground (
          arith,
          sum_by-erase_at (type_count items item_id none) c.itemlist i it e,
          (==_iff count it.count).0 k,
        ))
  | inr k ↦
      rw (s, k)
        (ground (
          arith,
          sum_by-set (type_count items item_id none) c.itemlist i it
              (set_item_count (it.count - count) it) e,
          count_set items item_id it (it.count - count),
          ==_iff count it.count,
        ))
]

-- A removal from a stack that `__queryRemove` allows takes exactly `count` from the number of items of
-- that kind, as `__getItemTypeCount` counts them, and nothing from that of any other kind.
pub remove_thing-count :
    (items : ℕ → ItemType) (item_id i count : ℕ) (it : Item) (flags : Flags) (c : Container)
    → get_index_of_thing (object it) c ≡ some i
    → get_elem? c.itemlist i ≡ some it
    → it.count < 2 ^ 8
    → (items it.id).stackable ≡ true
    → query_remove items c (object it) count flags ≡ no_error
    → (get_item_type_count items item_id none (remove_thing items (object it) count c)
          + (if it.id == item_id then count else 0))
        % 2 ^ 32
      ≡ get_item_type_count items item_id none c
unfolding get_item_type_count remove_thing query_remove
remove_thing-count items item_id i count it flags c e k b s h =
    rw (e, k)
      (omega (
        arith,
        remove_stack-sum items item_id i count it c k b
            (query_remove_count items (get_index_of_thing (object it) c) it count flags h s) s,
      ))

first_at :
    (a : ℕ) (it : Item) (its : List Item) → it.address ≡ a → index_from a (it ∷ its) 0 ≡ some 0
unfolding index_from
first_at a it its h = ground (arith, ==_refl a)

-- An item that is added, at any index within the capacity, and then removed whole leaves the
-- container as it was.
pub remove_thing-add_thing :
    (items : ℕ → ItemType) (index : Index) (it : Item) (c : Container)
    → is_beyond index c ≡ false
    → remove_thing items (object it) it.count (add_thing items index (object it) c) ≡ c
unfolding remove_thing add_thing internal_add_thing push_item get_index_of_thing
remove_thing-add_thing items index it c h =
    let b : ((items it.id).stackable && false) ≡ false = ground arith in
    rw (
      h,
      first_at it.address (record it { parent = some c.address }) c.itemlist refl,
      ==_refl it.count,
      b,
    )
