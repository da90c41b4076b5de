-- ===== src/Transfer/Stays.antt =====
-- What the changes of a container (src/container.cpp) keep of the others and of its own items.
use otxserver.Common.{
  ℕ, zero, suc, ◌-◌, ◌<◌, ◌≡◌, refl, sym, ◌∙◌, inl, inr, true, false, not, ◌&&◌, Option, none, some,
  List, [], ◌∷◌, arith, ◌==◌, ==_iff, Bool-cases, if_intro, length, get_elem?, All,
}
use mathlib.Core.Path.{subst}
use otxserver.Container.{
  ItemType, Item, object, Container, Index, wherever, slot, set_item_count, get_index_of_thing,
  index_from,
}
use otxserver.Container.Operations.{
  push_item, internal_add_thing, is_beyond, add_thing, change_at, update_at, item_at, update_thing,
  remove_at, remove_thing,
}
use otxserver.Transfer.Chests.{modify, get-modify, get-modify_other}
use otxserver.Transfer.Finding.{First, AddressAt, index_from-AddressAt, First-set, First-erase_at}
use otxserver.Transfer.Places.{Fine}

-- Of the containers: all of them are fine.
abbrev pub Good : List Container → Type 0
Good w = All (Fine (length w)) w

abbrev pub Known : ℕ → List Container → Type 0
Known k w = (c : Container) × (get_elem? w k ≡ some c)

abbrev pub Has : ℕ → Item → List Container → Type 0
Has k d w = (c : Container) × (get_elem? w k ≡ some c) × First d c.itemlist

abbrev pub Accepts : ℕ → Index → List Container → Type 0
Accepts k i w = (c : Container) × (get_elem? w k ≡ some c) × (is_beyond i c ≡ false)

-- A stackable kind has no fluid and no charges.
abbrev pub Plain : (ℕ → ItemType) → Type 0
Plain items =
    (id : ℕ)
    → (items id).stackable ≡ true
    → ((items id).has_fluid ≡ false) × ((items id).charges ≡ false)

pub below-Known : (w : List Container) (k : ℕ) → k < length w → Known k w
below-Known [] k h = absurd (omega (arith, h))
below-Known (c ∷ cs) zero h = (c, refl)
below-Known (c ∷ cs) (suc k) h = below-Known cs k (omega (arith, h))

-- What a change of a container keeps.
pub modify-Has :
    (e k : ℕ) (f : Container → Container) (d : Item) (w : List Container)
    → ((c : Container) → First d c.itemlist → First d (f c).itemlist)
    → Has e d w
    → Has e d (modify k f w)
modify-Has e k f d w keeps (c, g, h) = elim (Bool-cases (e == k)) [
  | inl q ↦
      let same : k ≡ e = sym ((==_iff e k).0 q) in
      (
        f c,
        subst (λ j. get_elem? (modify j f w) e ≡ some (f c)) (sym same) (get-modify e f c w g),
        keeps c h,
      )
  | inr q ↦ (c, get-modify_other e k f w q ∙ g, h)
]

pub modify-Accepts :
    (e k : ℕ) (f : Container → Container) (i : Index) (w : List Container)
    → ((c : Container) → is_beyond i c ≡ false → is_beyond i (f c) ≡ false)
    → Accepts e i w
    → Accepts e i (modify k f w)
modify-Accepts e k f i w keeps (c, g, h) = elim (Bool-cases (e == k)) [
  | inl q ↦
      let same : k ≡ e = sym ((==_iff e k).0 q) in
      (
        f c,
        subst (λ j. get_elem? (modify j f w) e ≡ some (f c)) (sym same) (get-modify e f c w g),
        keeps c h,
      )
  | inr q ↦ (c, get-modify_other e k f w q ∙ g, h)
]

-- A removal of another item.
remove_at-First :
    (items : ℕ → ItemType) (n : ℕ) (it d : Item) (o : Option ℕ) (c : Container)
    → (d.address == it.address) ≡ false
    → AddressAt it.address 0 c.itemlist o
    → First d c.itemlist
    → First d (remove_at items n o (item_at o c) c).itemlist
unfolding change_at set_item_count
remove_at-First items n it d none c far a h = h
remove_at-First items n it d (some i) c far (l, (x, e, k)) h =
    let z : i - 0 ≡ i = omega arith in
    let g : get_elem? c.itemlist i ≡ some x = subst (λ j. get_elem? c.itemlist j ≡ some x) z e in
    let apart : (x.address == d.address) ≡ false =
      ground (arith, far, (==_iff x.address it.address).0 k) in
    rw g (
      if_intro (λ (u : Container). First d u.itemlist)
        ((items x.id).stackable && not (n == x.count))
        (First-set d (set_item_count (x.count - n) x) c.itemlist i x h g apart apart)
        (First-erase_at d c.itemlist i x h g apart))

pub remove_thing-First :
    (items : ℕ → ItemType) (n : ℕ) (it d : Item) (c : Container)
    → (d.address == it.address) ≡ false
    → First d c.itemlist
    → First d (remove_thing items (object it) n c).itemlist
unfolding remove_thing get_index_of_thing
remove_thing-First items n it d c far h =
    remove_at-First items n it d (index_from it.address c.itemlist 0) c far
      (index_from-AddressAt it.address c.itemlist 0) h

pub add_thing-First :
    (items : ℕ → ItemType) (i : Index) (it d : Item) (c : Container)
    → (d.address == it.address) ≡ false
    → First d c.itemlist
    → First d (add_thing items i (object it) c).itemlist
unfolding add_thing internal_add_thing push_item
add_thing-First items i it d c far h =
    if_intro (λ (u : Container). First d u.itemlist) (is_beyond i c) h
      (inr (ground (arith, far), h))

-- No change of the items changes the capacity.
remove_at-max_size :
    (items : ℕ → ItemType) (n : ℕ) (o : Option ℕ) (u : Option Item) (c : Container)
    → (remove_at items n o u c).max_size ≡ c.max_size
unfolding change_at
remove_at-max_size items n none u c = refl
remove_at-max_size items n (some i) none c = refl
remove_at-max_size items n (some i) (some it) c =
    if_intro (λ (b : Container). b.max_size ≡ c.max_size)
      ((items it.id).stackable && not (n == it.count)) refl refl

update_at-max_size :
    (items : ℕ → ItemType) (id n : ℕ) (o : Option ℕ) (u : Option Item) (c : Container)
    → (update_at items id n o u c).max_size ≡ c.max_size
unfolding change_at
update_at-max_size items id n none u c = refl
update_at-max_size items id n (some i) none c = refl
update_at-max_size items id n (some i) (some it) c = refl

pub add_thing-max_size :
    (items : ℕ → ItemType) (i : Index) (it : Item) (c : Container)
    → (add_thing items i (object it) c).max_size ≡ c.max_size
unfolding add_thing internal_add_thing push_item
add_thing-max_size items i it c =
    if_intro (λ (b : Container). b.max_size ≡ c.max_size) (is_beyond i c) refl refl

pub remove_thing-max_size :
    (items : ℕ → ItemType) (n : ℕ) (it : Item) (c : Container)
    → (remove_thing items (object it) n c).max_size ≡ c.max_size
unfolding remove_thing
remove_thing-max_size items n it c = remove_at-max_size items n _ _ c

pub update_thing-max_size :
    (items : ℕ → ItemType) (id n : ℕ) (it : Item) (c : Container)
    → (update_thing items (object it) id n c).max_size ≡ c.max_size
unfolding update_thing
update_thing-max_size items id n it c = update_at-max_size items id n _ _ c

pub is_beyond-max_size :
    (i : Index) (b c : Container)
    → b.max_size ≡ c.max_size
    → is_beyond i c ≡ false
    → is_beyond i b ≡ false
is_beyond-max_size wherever b c e h = refl
is_beyond-max_size (slot i) b c e h = rw e h
