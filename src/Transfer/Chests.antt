-- ===== src/Transfer/Chests.antt =====
-- Containers (src/container.cpp) as the cylinders of `internalMoveItem`: a list of them, each named by
-- its place in the list, which is its address.
use otxserver.Common.{
  ℕ, zero, suc, ◌+◌, ◌≡◌, refl, false, ◌||◌, Option, none, some, List, [], ◌∷◌, arith, ◌==◌,
  get_elem?,
}
use otxserver.Container.{
  ItemType, Item, object, Cylinder, chest, other, Container, Index, wherever, slot, ReturnValue,
  not_possible, get_index_of_thing, is_parent, query_add,
}
use otxserver.Container.Operations.{
  query_max_count, query_remove, add_thing, remove_thing, update_thing, type_count, sum_by,
}
use otxserver.Container.Destination.{
  Target, this, parent_container, sub_container, Destination, query_destination,
}
use otxserver.Transfer.{Place, Cylinders}

abbrev pub modify : ℕ → (Container → Container) → List Container → List Container
modify k f [] = []
modify zero f (c ∷ cs) = f c ∷ cs
modify (suc k) f (c ∷ cs) = c ∷ modify k f cs

-- The parent as the answer of a query: the first container around.
abbrev pub parent_of : ℕ → List Cylinder → ℕ
parent_of k [] = k
parent_of k (chest a ∷ ps) = a
parent_of k (other a ∷ ps) = k

abbrev pub target_of : ℕ → List Cylinder → Target → ℕ
target_of k ps this = k
target_of k ps parent_container = parent_of k ps
target_of k ps (sub_container a) = a

abbrev pub place_of : ℕ → List Cylinder → Destination → Place
place_of k ps d = record {
  cylinder = target_of k ps d.target;
  index = d.index;
  to_item = d.dest_item;
}

abbrev pub chest_index : Option ℕ → Index
chest_index none = wherever
chest_index (some i) = slot i

abbrev pub ask_chest : {A : Type 0} → A → (Container → A) → Option Container → A
ask_chest a f none = a
ask_chest a f (some c) = f c

abbrev pub chests : (ℕ → ItemType) → (ℕ → Item → ℕ → ReturnValue) → Cylinders (List Container)
chests items ask = record {
  query_destination = λ to index it d flags w.
      ask_chest (record { cylinder = to; index = index; to_item = d })
        (λ c. place_of to c.parents (query_destination items c index (object it) d flags))
        (get_elem? w to);
  query_add = λ to index it n flags w.
      ask_chest not_possible (λ c. query_add items ask c index (object it) n flags)
        (get_elem? w to);
  query_max_count = λ to index it n flags w.
      ask_chest (not_possible, 0) (λ c. query_max_count items ask c index (object it) n flags)
        (get_elem? w to);
  query_remove = λ k it n flags w.
      ask_chest not_possible (λ c. query_remove items c (object it) n flags) (get_elem? w k);
  get_index_of_thing = λ k it w.
      ask_chest wherever (λ c. chest_index (get_index_of_thing (object it) c)) (get_elem? w k);
  add_thing = λ k index it w. modify k (add_thing items index (object it)) w;
  remove_thing = λ k it n w. modify k (remove_thing items (object it) n) w;
  update_thing = λ k it id n w. modify k (update_thing items (object it) id n) w;
  is_blocked = λ k it w. false;
  lies_in = λ k a w. ask_chest false (λ c. c.address == a || is_parent a c.parents) (get_elem? w k);
}

-- How many items of a kind they hold.
abbrev pub held : (ℕ → ItemType) → ℕ → Container → ℕ
held items id c = sum_by (type_count items id none) c.itemlist

unfoldable pub total : (ℕ → ItemType) → ℕ → List Container → ℕ
total items id [] = 0
total items id (c ∷ cs) = held items id c + total items id cs

pub total-modify :
    (items : ℕ → ItemType) (id k : ℕ) (f : Container → Container) (c : Container)
    (w : List Container)
    → get_elem? w k ≡ some c
    → total items id (modify k f w) + held items id c ≡ total items id w + held items id (f c)
unfolding total
total-modify items id k f c [] h = cc
total-modify items id zero f c (b ∷ cs) h = let e : b ≡ c = cc in rw e (omega arith)
total-modify items id (suc k) f c (b ∷ cs) h = omega (arith, total-modify items id k f c cs h)

pub get-modify :
    (k : ℕ) (f : Container → Container) (c : Container) (w : List Container)
    → get_elem? w k ≡ some c
    → get_elem? (modify k f w) k ≡ some (f c)
get-modify k f c [] h = cc
get-modify zero f c (b ∷ cs) h = let e : b ≡ c = cc in rw e refl
get-modify (suc k) f c (b ∷ cs) h = get-modify k f c cs h

pub get-modify_other :
    (j k : ℕ) (f : Container → Container) (w : List Container)
    → (j == k) ≡ false
    → get_elem? (modify k f w) j ≡ get_elem? w j
get-modify_other j k f [] h = refl
get-modify_other zero zero f (b ∷ cs) h = cc
get-modify_other zero (suc k) f (b ∷ cs) h = refl
get-modify_other (suc j) zero f (b ∷ cs) h = refl
get-modify_other (suc j) (suc k) f (b ∷ cs) h = get-modify_other j k f cs (ground arith)
