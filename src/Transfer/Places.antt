-- ===== src/Transfer/Places.antt =====
-- Where the queries of containers (src/container.cpp) send an item that moves.
use otxserver.Common.{
  ℕ, ◌-◌, ◌≤◌, ◌<◌, ◌≡◌, refl, inl, inr, Bool, true, false, not, ◌&&◌, ◌||◌, Option, none, some,
  List, [], ◌∷◌, arith, leb, ◌==◌, Option-cases, if_intro, if_elim, length, get_elem?, All,
}
use mathlib.Core.Path.{subst}
use otxserver.Container.{
  ItemType, Item, object, Cylinder, chest, other, Container, Index, wherever, slot, Flags,
  get_item_by_index, size, is_container,
}
use otxserver.Container.Operations.{is_beyond}
use otxserver.Container.Destination.{
  this, parent_container, sub_container, Destination, settle_index, or_else, item_there, find_stack,
  stack_at, takes, is_here, auto_stack, into, query_item, move_up, is_up, query_destination,
}
use otxserver.Transfer.Laws.{Each}
use otxserver.Transfer.Chests.{parent_of}
use otxserver.Transfer.Finding.{
  First, Apart, Apart-First, All-get, FoundIn, find_stack-FoundIn, First-index_from,
}

-- Of an item: its count is that of a stack, and a container has a number below n.
abbrev pub Sane : ℕ → Item → Type 0
Sane n it = (it.count ≤ 100) × (is_container it ≡ true → it.address < n)

abbrev pub Inside : ℕ → List Cylinder → Type 0
Inside n [] = Unit {0}
Inside n (chest a ∷ ps) = a < n
Inside n (other a ∷ ps) = Unit {0}

-- Of a container: there is room for its items, which are apart, and those around and in it are among n.
abbrev pub Fine : ℕ → Container → Type 0
Fine n c =
    (length c.itemlist ≤ c.max_size)
    × (1 ≤ c.max_size)
    × Apart c.itemlist
    × All (Sane n) c.itemlist
    × Inside n c.parents

-- An item of a container.
abbrev pub Lies : Container → Item → Type 0
Lies c x = First x c.itemlist × (x.count ≤ 100)

-- An answer: an index that the container keeps, with an item of it; or another container.
abbrev pub Right : ℕ → ℕ → List Cylinder → Container → Destination → Type 0
Right n k ps c r = elim r.target [
  | this ↦ (is_beyond r.index c ≡ false) × Each (Lies c) r.dest_item
  | parent_container ↦ (parent_of k ps < n) × (r.index ≡ wherever) × (r.dest_item ≡ none)
  | sub_container a ↦ (a < n) × (r.index ≡ wherever) × (r.dest_item ≡ none)
]

or_false : (a b : Bool) → (a || b) ≡ false → b ≡ false
or_false true b h = cc
or_false false b h = h

module _ (items : ℕ → ItemType) (n k : ℕ) (c : Container) (fine : Fine n c) where
  get-Lies : (i : ℕ) (x : Item) → get_elem? c.itemlist i ≡ some x → Lies c x
  get-Lies i x e =
      (Apart-First c.itemlist i x fine.2 e, (All-get (Sane n) c.itemlist i x fine.3 e).0)

  below : (x : Item) → Lies c x → is_container x ≡ true → x.address < n
  below x l h =
      let (i, e, g) = First-index_from x c.itemlist 0 l.0 in
      (All-get (Sane n) c.itemlist i x fine.3 g).1 h

  stack_at-Right :
      (i : Index) (d : Option Item) (o : Option (ℕ × Item))
      → is_beyond i c ≡ false
      → Each (Lies c) d
      → FoundIn 0 c.itemlist o
      → Right n k c.parents c (stack_at i d o)
  stack_at-Right i d none b l f = (b, l)
  stack_at-Right i d (some (m, x)) b l f =
      let z : m - 0 ≡ m = omega arith in
      let e : get_elem? c.itemlist m ≡ some x =
        subst (λ j. get_elem? c.itemlist j ≡ some x) z f.2 in
      (ground (arith, f.1, fine.0), get-Lies m x e)

  auto_stack-Right :
      (i : Index) (it : Item) (d : Option Item) (flags : Flags)
      → is_beyond i c ≡ false
      → Each (Lies c) d
      → Right n k c.parents c (auto_stack items c i it d flags)
  unfolding auto_stack
  auto_stack-Right i it d flags b l =
      if_intro (Right n k c.parents c)
        (not flags.ignore_auto_stack
          && (items it.id).stackable
          && not (is_here it.parent c.address))
        (if_intro (Right n k c.parents c) (takes it d) (b, l)
          (stack_at-Right i d (find_stack it c.itemlist 0) b l
            (find_stack-FoundIn it c.itemlist 0)))
        (b, l)

  into-Right :
      (i : ℕ) (it : Item) (d : Option Item) (flags : Flags)
      → is_beyond (slot i) c ≡ false
      → Each (Lies c) d
      → Right n k c.parents c (into items c i it d flags)
  into-Right i it none flags b l = auto_stack-Right (slot i) it none flags b l
  into-Right i it (some d) flags b l =
      if_elim (Right n k c.parents c) (is_container d) (λ h. (below d l h, refl, refl))
        (λ h. auto_stack-Right (slot i) it (some d) flags b l)

  Each-or_else :
      (o d : Option Item) → Each (Lies c) o → Each (Lies c) d → Each (Lies c) (or_else o d)
  Each-or_else none d h l = l
  Each-or_else (some x) d h l = h

  get-Each : (i : ℕ) → Each (Lies c) (get_elem? c.itemlist i)
  get-Each i = elim (Option-cases (get_elem? c.itemlist i)) [
    | inl e ↦ rw e tt
    | inr (x, e) ↦ rw e (get-Lies i x e)
  ]

  query_item-Right :
      (i : Index) (it : Item) (d : Option Item) (flags : Flags)
      → is_beyond i c ≡ false
      → Each (Lies c) d
      → Right n k c.parents c (query_item items c i it d flags)
  unfolding get_item_by_index
  query_item-Right wherever it d flags b l = auto_stack-Right wherever it d flags b l
  query_item-Right (slot i) it d flags b l = into-Right i it (item_there (slot i) d c) flags b (
      Each-or_else (get_item_by_index i c) d
        (if_intro (Each (Lies c)) (leb (size c) i) tt (get-Each i)) l)

  settle_index-Right :
      (i : Index) (d : Option Item)
      → Each (Lies c) d
      → (is_beyond (settle_index c.max_size i d).0 c ≡ false)
        × Each (Lies c) (settle_index c.max_size i d).1
  unfolding settle_index
  settle_index-Right wherever d l = (refl, l)
  settle_index-Right (slot i) d l =
      if_elim (λ (p : Index × Option Item). (is_beyond p.0 c ≡ false) × Each (Lies c) p.1)
        (i == 255 || leb c.max_size i) (λ h. (refl, tt)) (λ h. (or_false (i == 255) _ h, l))

  move_up-Right : (ps : List Cylinder) → Inside n ps → Right n k ps c (move_up ps)
  move_up-Right [] h = (refl, tt)
  move_up-Right (chest a ∷ ps) h = (h, refl, refl)
  move_up-Right (other a ∷ ps) h = (refl, tt)

  pub query_destination-Right :
      (i : Index) (it : Item) (d : Option Item) (flags : Flags)
      → Each (Lies c) d
      → Right n k c.parents c (query_destination items c i (object it) d flags)
  unfolding query_destination
  query_destination-Right i it d flags l =
      let s = settle_index-Right i d l in
      if_intro (Right n k c.parents c) (is_up i) (move_up-Right c.parents fine.4)
        (query_item-Right _ it _ flags s.0 s.1)
