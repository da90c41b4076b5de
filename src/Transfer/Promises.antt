-- ===== src/Transfer/Promises.antt =====
-- The containers of src/container.cpp keep what `internalMoveItem` of src/game.cpp is promised.
use otxserver.Common.{
  ℕ, ◌+◌, ◌%◌, ◌^◌, ◌≤◌, ◌<◌, ◌≡◌, refl, sym, ap, ◌∙◌, inl, inr, true, false, Option, none, some,
  List, arith, if◌then◌else◌, Bool-cases, length, get_elem?,
}
use mathlib.Core.Path.{subst}
use otxserver.Container.{
  ItemType, Item, object, Container, Index, wherever, slot, Flags, ReturnValue, no_error,
  set_sub_type, get_index_of_thing, index_from,
}
use otxserver.Container.Operations.{
  query_remove, push_item, internal_add_thing, is_beyond, add_thing, change_at, update_thing,
  remove_thing, type_count, sum_by,
}
use otxserver.Container.Destination.{
  Target, this, parent_container, sub_container, query_destination,
}
use otxserver.Container.Sums.{sum_by-set, sum_by-erase_at}
use otxserver.Container.Counting.{remove_stack-sum, query_remove_count}
use otxserver.Transfer.{Place, Move, internal_move_item}
use otxserver.Transfer.Growth.{update_thing-Good, modify-Known, chests-enough}
use otxserver.Transfer.Laws.{Each, amount, Laws}
use otxserver.Transfer.Chests.{
  parent_of, target_of, place_of, ask_chest, chests, held, total, total-modify,
}
use otxserver.Transfer.Conservation.{internal_move_item-total}
use otxserver.Transfer.Finding.{First, All-get, First-index_from}
use otxserver.Transfer.Places.{Sane, Fine, Lies, Right, query_destination-Right}
use otxserver.Transfer.Stays.{
  Good, Known, Has, Accepts, Plain, below-Known, modify-Has, modify-Accepts, remove_thing-First,
  add_thing-First, remove_thing-max_size, add_thing-max_size, update_thing-max_size,
  is_beyond-max_size,
}

-- What each change of a container does to the items of a kind.
pub held-remove :
    (items : ℕ → ItemType) (id : ℕ) (it : Item) (n : ℕ) (flags : Flags) (c : Container)
    → First it c.itemlist
    → query_remove items c (object it) n flags ≡ no_error
    → it.count < 2 ^ 8
    → held items id (remove_thing items (object it) n c)
        + amount id it (if (items it.id).stackable then n else it.count)
      ≡ held items id c
unfolding remove_thing get_index_of_thing query_remove
held-remove items id it n flags c f h l =
    let (i, e, g) = First-index_from it c.itemlist 0 f in
    let z : 0 + i ≡ i = omega arith in
    let k : index_from it.address c.itemlist 0 ≡ some i = e ∙ ap some z in
    elim (Bool-cases (items it.id).stackable) [
      | inl s ↦
          let q : (if (items it.id).stackable then n else it.count) ≡ n = rw s refl in
          let m = query_remove_count items (index_from it.address c.itemlist 0) it n flags h s in
          rw (k, g, q) (remove_stack-sum items id i n it c g l m s)
      | inr s ↦ rw (k, g, s) (sum_by-erase_at (type_count items id none) c.itemlist i it g)
    ]

pub held-add :
    (items : ℕ → ItemType) (id : ℕ) (i : Index) (it : Item) (c : Container)
    → is_beyond i c ≡ false
    → held items id (add_thing items i (object it) c) ≡ held items id c + amount id it it.count
unfolding add_thing internal_add_thing push_item sum_by
held-add items id i it c b = rw b (omega arith)

pub held-update :
    (items : ℕ → ItemType) (id : ℕ) (d : Item) (n : ℕ) (c : Container)
    → Plain items
    → First d c.itemlist
    → (items d.id).stackable ≡ true
    → n < 2 ^ 8
    → held items id (update_thing items (object d) d.id n c) + amount id d d.count
      ≡ held items id c + amount id d n
unfolding update_thing get_index_of_thing change_at set_sub_type
held-update items id d n c plain f s l =
    let (i, e, g) = First-index_from d c.itemlist 0 f in
    let z : 0 + i ≡ i = omega arith in
    let k : index_from d.address c.itemlist 0 ≡ some i = e ∙ ap some z in
    let m : n % 2 ^ 8 ≡ n = omega (arith, l) in
    let p = plain d.id s in
    let new : Item = record d { count = n } in
    rw (k, g, p.0, p.1, m) (sum_by-set (type_count items id none) c.itemlist i d new g)

-- A place that keeps an item, and an item that lies there.
abbrev pub Answers : List Container → Place → Type 0
Answers w p =
    Accepts p.cylinder p.index w × Each (λ x. Has p.cylinder x w × (x.count ≤ 100)) p.to_item

some-same : (b c : Container) → some b ≡ some c → b ≡ c
some-same b c h = cc

Each-Has :
    (k : ℕ) (c : Container) (w : List Container) (d : Option Item)
    → get_elem? w k ≡ some c
    → Each (Lies c) d
    → Each (λ x. Has k x w × (x.count ≤ 100)) d
Each-Has k c w none g h = tt
Each-Has k c w (some x) g h = ((c, g, h.0), h.1)

Each-Lies :
    (k : ℕ) (c : Container) (w : List Container) (d : Option Item)
    → get_elem? w k ≡ some c
    → Each (λ x. Has k x w × (x.count ≤ 100)) d
    → Each (Lies c) d
Each-Lies k c w none g h = tt
Each-Lies k c w (some x) g ((b, e, f), h) =
    let q : b ≡ c = some-same b c (sym e ∙ g) in
    (subst (λ (u : Container). First x u.itemlist) q f, h)

-- The answer of a query as a place.
elsewhere :
    (a : ℕ) (w : List Container) (i : Index) (d : Option Item)
    → a < length w
    → i ≡ wherever
    → d ≡ none
    → Accepts a i w × Each (λ x. Has a x w × (x.count ≤ 100)) d
elsewhere a w i d h e n =
    let (b, g) = below-Known w a h in
    ((b, g, ap (λ j. is_beyond j b) e), subst (Each (λ x. Has a x w × (x.count ≤ 100))) (sym n) tt)

Right-place :
    (k : ℕ) (c : Container) (w : List Container) (t : Target) (i : Index) (d : Option Item)
    → get_elem? w k ≡ some c
    → Right (length w) k c.parents c (record { target = t; index = i; dest_item = d })
    → Accepts (target_of k c.parents t) i w
      × Each (λ x. Has (target_of k c.parents t) x w × (x.count ≤ 100)) d
Right-place k c w this i d g h = ((c, g, h.0), Each-Has k c w d g h.1)
Right-place k c w parent_container i d g h = elsewhere (parent_of k c.parents) w i d h.0 h.1 h.2
Right-place k c w (sub_container a) i d g h = elsewhere a w i d h.0 h.1 h.2

-- What the query of a container answers, where the container is there.
pub start-place :
    (items : ℕ → ItemType) (ask : ℕ → Item → ℕ → ReturnValue) (to : ℕ) (index : Index) (it : Item)
    (d : Option Item) (flags : Flags) (w : List Container) (c : Container)
    → Good w
    → get_elem? w to ≡ some c
    → Each (λ x. Has to x w × (x.count ≤ 100)) d
    → Answers w ((chests items ask).query_destination to index it d flags w)
start-place items ask to index it d flags w c g e l =
    let fine = All-get (Fine (length w)) w to c g e in
    let r = query_destination items c index (object it) d flags in
    let h =
      query_destination-Right items (length w) to c fine index it d flags
        (Each-Lies to c w d e l) in
    let o = λ (o : Option Container).
      ask_chest (record { cylinder = to; index = index; to_item = d })
        (λ c. place_of to c.parents (query_destination items c index (object it) d flags)) o in
    subst (λ (u : Option Container). Answers w (o u)) (sym e)
      (Right-place to c w r.target r.index r.dest_item e h)

pub capacity : (c : Container) → 1 ≤ c.max_size → is_beyond (slot 0) c ≡ false
capacity c h = ground arith

pub ask_remove :
    (items : ℕ → ItemType) (ask : ℕ → Item → ℕ → ReturnValue) (k : ℕ) (it : Item) (n : ℕ)
    (flags : Flags) (w : List Container) (c : Container)
    → get_elem? w k ≡ some c
    → (chests items ask).query_remove k it n flags w ≡ no_error
    → query_remove items c (object it) n flags ≡ no_error
ask_remove items ask k it n flags w c e h = rw e at h

pub within :
    (items : ℕ → ItemType) (it : Item) (n : ℕ) (flags : Flags) (c : Container)
    → query_remove items c (object it) n flags ≡ no_error
    → (items it.id).stackable ≡ true
    → n ≤ it.count
unfolding query_remove
within items it n flags c h s =
    query_remove_count items (get_index_of_thing (object it) c) it n flags h s

-- An item of a good container is a stack of no more than 100.
small : (k : ℕ) (it : Item) (w : List Container) → Good w → Has k it w → it.count < 2 ^ 8
small k it w g (c, e, f) =
    let (i, j, h) = First-index_from it c.itemlist 0 f in
    let fine = All-get (Fine (length w)) w k c g e in
    omega (arith, (All-get (Sane (length w)) c.itemlist i it fine.3 h).0)

abbrev pub chest_laws :
    (items : ℕ → ItemType) (ask : ℕ → Item → ℕ → ReturnValue)
    → Plain items
    → Laws items (chests items ask)
chest_laws items ask plain = record {
  Good = Good;
  Known = Known;
  Has = Has;
  Accepts = Accepts;
  total = total items;
  start = λ to index it d flags w g (c, e) l. start-place items ask to index it d flags w c g e l;
  accepts_known = λ c index w (b, e, h). (b, e);
  has_front = λ c it w g (b, e, f).
      let fine = All-get (Fine (length w)) w c b g e in (b, e, capacity b fine.1);
  removes_total = λ id c it n flags w (b, e, f) h l.
      let k = ask_remove items ask c it n flags w b e h in
      omega (
        arith,
        total-modify items id c (remove_thing items (object it) n) b w e,
        held-remove items id it n flags b f k l,
      );
  removes_within = λ c it n flags w (b, e, f) h s.
      within items it n flags b (ask_remove items ask c it n flags w b e h) s;
  removes_has = λ c e it d n w h far.
      modify-Has e c (remove_thing items (object it) n) d w
        (λ b f. remove_thing-First items n it d b far f) h;
  removes_accepts = λ c e it index n w h.
      modify-Accepts e c (remove_thing items (object it) n) index w
        (λ b k. is_beyond-max_size index _ b (remove_thing-max_size items n it b) k) h;
  adds_total = λ id c index it w (b, e, h). omega (
    arith,
    total-modify items id c (add_thing items index (object it)) b w e,
    held-add items id index it b h,
  );
  adds_has = λ c e index it d w h far.
      modify-Has e c (add_thing items index (object it)) d w
        (λ b f. add_thing-First items index it d b far f) h;
  adds_accepts = λ c e index i it w h.
      modify-Accepts e c (add_thing items index (object it)) i w
        (λ b k. is_beyond-max_size i _ b (add_thing-max_size items index it b) k) h;
  updates_total = λ id c d n w (b, e, f) s l. omega (
    arith,
    total-modify items id c (update_thing items (object d) d.id n) b w e,
    held-update items id d n b plain f s l,
  );
  updates_accepts = λ c e d index id n w h.
      modify-Accepts e c (update_thing items (object d) id n) index w
        (λ b k. is_beyond-max_size index _ b (update_thing-max_size items id n d b) k) h;
  updates_good = λ c d n w g h s l. update_thing-Good items c n d w plain g h s l;
  updates_known = λ c e d id n w h. modify-Known e c (update_thing items (object d) id n) w h;
  enough = λ c index it n flags w h s. chests-enough items ask c index it n flags w h s;
}

-- Between containers: whatever `internalMoveItem` answers, they hold as many items of each kind after it
-- as before. This holds where stackable kinds have no fluid and no charges, where each container has
-- room for its items, which have different addresses and counts up to 100, where the containers in
-- and around each are among those considered, for an item that is in its container; a player or a tile
-- around a container may answer anything.
pub internal_move_item-chests :
    (items : ℕ → ItemType) (ask : ℕ → Item → ℕ → ReturnValue) (id : ℕ) (mv : Move) (to : ℕ)
    (index : Index) (flags : Flags) (w : List Container)
    → Plain items
    → Good w
    → Known to w
    → Has mv.from mv.item w
    → total items id (internal_move_item items (chests items ask) mv to index flags w).1
      ≡ total items id w
internal_move_item-chests items ask id mv to index flags w plain g k f =
    internal_move_item-total items (chests items ask) (chest_laws items ask plain) id mv to index
      flags w g k f (small mv.from mv.item w g f)
