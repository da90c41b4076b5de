-- ===== src/Transfer/Amounts.antt =====
-- What the end of `internalMoveItem` of src/game.cpp adds to the items of a kind.
use otxserver.Common.{
  ℕ, ◌+◌, ◌-◌, ◌^◌, ◌≤◌, ◌<◌, ◌≡◌, refl, sym, ap, ◌∙◌, inl, inr, true, false, Option, none, some,
  arith, ltb, ◌==◌, if◌then◌else◌, ltb→lt, ==_iff, Bool-cases, if_intro, if_elim,
}
use mathlib.Core.Path.{subst}
use otxserver.Container.{ItemType, Item, Index}
use otxserver.Transfer.{Place, Cylinders, create_item, Move, merged, merge, put_stack, put_moved}
use otxserver.Transfer.Laws.{Each, amount, Laws}

module _ {W : Type 0} (items : ℕ → ItemType) (cylinders : Cylinders W)
    (laws : Laws items cylinders) where
  -- What is asked of an item, and of one at the destination.
  abbrev pub There : Place → Item → W → Item → Type 0
  There p it w d = laws.Has p.cylinder d w × (d.count ≤ 100) × ((d.address == it.address) ≡ false)

  abbrev pub Ready : Place → Item → W → Type 0
  Ready p it w = laws.Accepts p.cylinder p.index w × Each (There p it w) p.to_item

  merged_le : (it : Item) (d : Option Item) (m : ℕ) → merged items cylinders it d m ≤ m
  merged_le it none m = omega arith
  merged_le it (some d) m = ground arith

  merged_fits :
      (it d : Item) (m : ℕ) → d.count ≤ 100 → d.count + merged items cylinders it (some d) m < 2 ^ 8
  merged_fits it d m h = ground arith

  pub merge_same :
      (to n : ℕ) (it d : Item) (w : W)
      → (d.id == it.id) ≡ true
      → merge items cylinders to it (some d) n w ≡ cylinders.update_thing to d d.id (d.count + n) w
  merge_same to n it d w e = rw e refl

  amount_add : (id a b : ℕ) (it : Item) → amount id it (a + b) ≡ amount id it a + amount id it b
  amount_add id a b it = ground arith

  amount_same : (id n : ℕ) (it d : Item) → d.id ≡ it.id → amount id d n ≡ amount id it n
  amount_same id n it d h = ap (λ i. if i == id then n else 0) h

  pub updated :
      (id n : ℕ) (to : ℕ) (it d : Item) (w : W)
      → laws.Has to d w
      → d.id ≡ it.id
      → (items it.id).stackable ≡ true
      → d.count + n < 2 ^ 8
      → laws.total id (cylinders.update_thing to d d.id (d.count + n) w)
        ≡ laws.total id w + amount id it n
  updated id n to it d w h same s f =
      let stacks = subst (λ i. (items i).stackable ≡ true) (sym same) s in
      omega (
        arith,
        laws.updates_total id to d (d.count + n) w h stacks f,
        amount_add id d.count n d,
        amount_same id n it d same,
      )

  -- What is put on the item that is there is counted.
  pub merge-total :
      (id m : ℕ) (p : Place) (it : Item) (d : Option Item) (w : W)
      → Each (There p it w) d
      → (items it.id).stackable ≡ true
      → laws.total id (merge items cylinders p.cylinder it d (merged items cylinders it d m) w)
        ≡ laws.total id w + amount id it (merged items cylinders it d m)
  merge-total id m p it none w h s = ground arith
  merge-total id m p it (some d) w h s = elim (Bool-cases (d.id == it.id)) [
    | inl e ↦
        ap (laws.total id) (merge_same p.cylinder (merged items cylinders it (some d) m) it d w e)
        ∙ updated id (merged items cylinders it (some d) m) p.cylinder it d w h.0
            ((==_iff d.id it.id).0 e) s (merged_fits it d m h.1)
    | inr e ↦ rw e (ground arith)
  ]

  pub merge-Accepts :
      (c to n : ℕ) (index : Index) (it : Item) (d : Option Item) (w : W)
      → laws.Accepts c index w
      → laws.Accepts c index (merge items cylinders to it d n w)
  merge-Accepts c to n index it none w h = h
  merge-Accepts c to n index it (some d) w h =
      if_intro (laws.Accepts c index) (d.id == it.id)
        (laws.updates_accepts to c d index d.id (d.count + n) w h) h

  pub amount_split :
      (id m n : ℕ) (it : Item) → n ≤ m → amount id it n + amount id it (m - n) ≡ amount id it m
  amount_split id m n it h = ground arith

  put_whole : (m n : ℕ) → n ≤ m → ltb 0 (m - n) ≡ false → n ≡ m
  put_whole m n l c = ground arith

  put_stack-total :
      (id m : ℕ) (mv : Move) (p : Place) (w : W)
      → Ready p mv.item w
      → (items mv.item.id).stackable ≡ true
      → m < 2 ^ 8
      → laws.total id (put_stack items cylinders mv p m w) ≡ laws.total id w + amount id mv.item m
  put_stack-total id m mv p w h s b =
      let n = merged items cylinders mv.item p.to_item m in
      let w1 = merge items cylinders p.cylinder mv.item p.to_item n w in
      let e = merge-total id m p mv.item p.to_item w h.1 s in
      let l = merged_le mv.item p.to_item m in
      if_elim (λ u. laws.total id u ≡ laws.total id w + amount id mv.item m) (ltb 0 (m - n))
        (λ c.
          let a = merge-Accepts p.cylinder p.cylinder n p.index mv.item p.to_item w h.0 in
          let new = create_item mv.new_address mv.item.id (m - n) in
          let k : new.count ≡ m - n = omega (arith, ltb→lt 0 (m - n) c, b) in
          laws.adds_total id p.cylinder p.index new w1 a
          ∙ rw (k, e) (omega (arith, l, amount_split id m n mv.item l)))
        (λ c. e ∙ rw (put_whole m n l c) refl)

  pub put_moved-total :
      (id m : ℕ) (mv : Move) (p : Place) (w : W)
      → Ready p mv.item w
      → ((items mv.item.id).stackable ≡ true → m < 2 ^ 8)
      → laws.total id (put_moved items cylinders mv p m w)
        ≡ laws.total id w
          + amount id mv.item (if (items mv.item.id).stackable then m else mv.item.count)
  put_moved-total id m mv p w h b = elim (Bool-cases (items mv.item.id).stackable) [
    | inl s ↦ rw s (put_stack-total id m mv p w h s (b s))
    | inr s ↦ rw s (laws.adds_total id p.cylinder p.index mv.item w h.0)
  ]
