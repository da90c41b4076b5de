-- ===== src/Transfer/Laws.antt =====
-- What the cylinders of src/cylinder.h promise to `internalMoveItem` of src/game.cpp.
use otxserver.Common.{
  ℕ, ◌+◌, ◌^◌, ◌≤◌, ◌<◌, ◌≡◌, true, false, Option, none, some, ◌==◌, if◌then◌else◌,
}
use otxserver.Container.{ItemType, Item, Index, slot, Flags, no_error}
use otxserver.Transfer.{Cylinders}

-- Of an item, if there is one.
abbrev pub Each : (Item → Type 0) → Option Item → Type 0
Each P none = Unit {0}
Each P (some d) = P d

-- How many items of a kind an item is.
abbrev pub amount : ℕ → Item → ℕ → ℕ
amount id it n = if it.id == id then n else 0

-- `Good` states of the cylinders; `Known`, that a number names one; `Has`, that an item lies in a cylinder; `Accepts`, that a cylinder
-- keeps an item that is added at an index; `total`, how many items of a kind all of them hold.
pub record Laws {W : Type 0} (items : ℕ → ItemType) (cylinders : Cylinders W) : Type 1 where
  pub Good : W → Type 0
  pub Known : ℕ → W → Type 0
  pub Has : ℕ → Item → W → Type 0
  pub Accepts : ℕ → Index → W → Type 0
  pub total : ℕ → W → ℕ
  pub start :
      (to : ℕ) (index : Index) (it : Item) (d : Option Item) (flags : Flags) (w : W)
      → Good w
      → Known to w
      → Each (λ x. Has to x w × (x.count ≤ 100)) d
      → Accepts
          (cylinders.query_destination to index it d flags w).cylinder
          (cylinders.query_destination to index it d flags w).index
          w
        × Each
            (λ x.
              Has (cylinders.query_destination to index it d flags w).cylinder x w
              × (x.count ≤ 100))
            (cylinders.query_destination to index it d flags w).to_item
  pub accepts_known : (c : ℕ) (index : Index) (w : W) → Accepts c index w → Known c w
  pub has_front : (c : ℕ) (it : Item) (w : W) → Good w → Has c it w → Accepts c (slot 0) w
  pub removes_total :
      (id c : ℕ) (it : Item) (n : ℕ) (flags : Flags) (w : W)
      → Has c it w
      → cylinders.query_remove c it n flags w ≡ no_error
      → it.count < 2 ^ 8
      → total id (cylinders.remove_thing c it n w)
          + amount id it (if (items it.id).stackable then n else it.count)
        ≡ total id w
  pub removes_within :
      (c : ℕ) (it : Item) (n : ℕ) (flags : Flags) (w : W)
      → Has c it w
      → cylinders.query_remove c it n flags w ≡ no_error
      → (items it.id).stackable ≡ true
      → n ≤ it.count
  pub removes_has :
      (c e : ℕ) (it d : Item) (n : ℕ) (w : W)
      → Has e d w
      → (d.address == it.address) ≡ false
      → Has e d (cylinders.remove_thing c it n w)
  pub removes_accepts :
      (c e : ℕ) (it : Item) (index : Index) (n : ℕ) (w : W)
      → Accepts e index w
      → Accepts e index (cylinders.remove_thing c it n w)
  pub adds_total :
      (id c : ℕ) (index : Index) (it : Item) (w : W)
      → Accepts c index w
      → total id (cylinders.add_thing c index it w) ≡ total id w + amount id it it.count
  pub adds_has :
      (c e : ℕ) (index : Index) (it d : Item) (w : W)
      → Has e d w
      → (d.address == it.address) ≡ false
      → Has e d (cylinders.add_thing c index it w)
  pub adds_accepts :
      (c e : ℕ) (index i : Index) (it : Item) (w : W)
      → Accepts e i w
      → Accepts e i (cylinders.add_thing c index it w)
  pub updates_total :
      (id c : ℕ) (d : Item) (n : ℕ) (w : W)
      → Has c d w
      → (items d.id).stackable ≡ true
      → n < 2 ^ 8
      → total id (cylinders.update_thing c d d.id n w) + amount id d d.count
        ≡ total id w + amount id d n
  pub updates_accepts :
      (c e : ℕ) (d : Item) (index : Index) (id n : ℕ) (w : W)
      → Accepts e index w
      → Accepts e index (cylinders.update_thing c d id n w)
  pub updates_good :
      (c : ℕ) (d : Item) (n : ℕ) (w : W)
      → Good w
      → Has c d w
      → (items d.id).stackable ≡ true
      → n ≤ 100
      → Good (cylinders.update_thing c d d.id n w)
  pub updates_known :
      (c e : ℕ) (d : Item) (id n : ℕ) (w : W)
      → Known e w
      → Known e (cylinders.update_thing c d id n w)
  pub enough :
      (c : ℕ) (index : Index) (it : Item) (n : ℕ) (flags : Flags) (w : W)
      → (cylinders.query_max_count c index it n flags w).0 ≡ no_error
      → (items it.id).stackable ≡ true
      → n ≤ (cylinders.query_max_count c index it n flags w).1
