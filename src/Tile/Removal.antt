-- ===== src/Tile/Removal.antt =====
-- What is removed from a tile of src/tile.cpp leaves the order of the rest.
use otxserver.Common.{
  ℕ, zero, suc, ◌+◌, ◌-◌, ◌≤◌, ◌<◌, ◌≡◌, refl, sym, ap, ◌∙◌, ◌≢◌, inl, inr, true, false, not, ◌&&◌,
  Option, none, some, List, [], ◌∷◌, ◌++◌, arith, ◌==◌, ==→ne, Bool-cases, Option-cases, length,
  length-append, All, All-append,
}
use mathlib.Core.Path.{subst}
use otxserver.Tile.{Item, Tile, down_items, top_items, position, position_of, base, is_at}
use otxserver.Tile.Changes.{
  alter, gone, with_count, lookup, remove_top, remove_down, remove_above, remove_item,
  erase_creature, remove_creature,
}
use otxserver.Tile.Order.{IsTop, IsDown, AtLeast, Sorted, Ordered, down_part, top_part}

append_assoc : (xs ys zs : List Item) → (xs ++ ys) ++ zs ≡ xs ++ (ys ++ zs)
append_assoc [] ys zs = refl
append_assoc (x ∷ xs) ys zs = ap (◌∷◌ x) (append_assoc xs ys zs)

alter-left :
    (p : ℕ) (f : Item → List Item) (xs ys : List Item)
    → p < length xs
    → alter p f (xs ++ ys) ≡ alter p f xs ++ ys
unfolding alter
alter-left p f [] ys h = absurd (omega arith)
alter-left zero f (x ∷ xs) ys h = sym (append_assoc (f x) xs ys)
alter-left (suc p) f (x ∷ xs) ys h = ap (◌∷◌ x) (alter-left p f xs ys (omega arith))

alter-right :
    (p : ℕ) (f : Item → List Item) (xs ys : List Item)
    → alter (length xs + p) f (xs ++ ys) ≡ xs ++ alter p f ys
unfolding alter
alter-right p f [] ys = let e : 0 + p ≡ p = omega arith in rw e
alter-right p f (x ∷ xs) ys =
    let e : suc (length xs) + p ≡ suc (length xs + p) = omega arith in
    rw e (ap (◌∷◌ x) (alter-right p f xs ys))

All-alter :
    (P : Item → Type 0) (p : ℕ) (f : Item → List Item) (xs : List Item)
    → ((x : Item) → P x → All P (f x))
    → All P xs
    → All P (alter p f xs)
unfolding alter
All-alter P p f [] h a = tt
All-alter P zero f (x ∷ xs) h a = All-append P (f x) xs (h x a.0) a.1
All-alter P (suc p) f (x ∷ xs) h a = (a.0, All-alter P p f xs h a.1)

Sorted-alter : (p : ℕ) (xs : List Item) → Sorted xs → Sorted (alter p gone xs)
unfolding alter
Sorted-alter p [] s = tt
Sorted-alter zero (x ∷ xs) s = s.1
Sorted-alter (suc p) (x ∷ xs) s =
    (All-alter (AtLeast x.always_on_top_order) p gone xs (λ y h. tt) s.0, Sorted-alter p xs s.1)

length-gone : (p : ℕ) (xs : List Item) → p < length xs → length (alter p gone xs) + 1 ≡ length xs
unfolding alter
length-gone p [] h = absurd (omega arith)
length-gone zero (x ∷ xs) h = omega arith
length-gone (suc p) (x ∷ xs) h = omega (arith, length-gone p xs (omega arith))

length-with_count : (p n : ℕ) (xs : List Item) → length (alter p (with_count n) xs) ≡ length xs
unfolding alter
length-with_count p n [] = refl
length-with_count zero n (x ∷ xs) = refl
length-with_count (suc p) n (x ∷ xs) = ap suc (length-with_count p n xs)

position-le : (a : ℕ) (xs : List Item) → position a xs ≤ length xs
unfolding position
position-le a [] = omega arith
position-le a (x ∷ xs) = elim (Bool-cases (x.address == a)) [
  | inl e ↦ rw e (omega arith)
  | inr e ↦ rw e (omega (arith, position-le a xs))
]

-- An item that is found stands at its position, and has what all items of the list have.
lookup_found :
    (P : Item → Type 0) (a : ℕ) (xs : List Item) (x : Item)
    → All P xs
    → lookup a xs ≡ some x
    → P x × (position a xs < length xs)
unfolding lookup position
lookup_found P a [] x h e = cc
lookup_found P a (y ∷ ys) x h e = elim (Bool-cases (y.address == a)) [
  | inl f ↦ let same : y ≡ x = let k = rw f at e in cc in (subst P same h.0, rw f (omega arith))
  | inr f ↦ let r = lookup_found P a ys x h.1 (rw f at e) in (r.0, rw f (omega (arith, r.1)))
]

length_items : (t : Tile) (o : Ordered t) → length t.vec.items ≡ length o.down + length o.top
length_items t o = rw o.items (length-append o.down o.top)

remove_top-Ordered : (a : ℕ) (t : Tile) → Ordered t → Ordered (remove_top a t)
unfolding remove_top
remove_top-Ordered a t o =
    let p = position a (top_items t.vec) in
    let le : p ≤ length o.top = rw (top_part t o) (position-le a o.top) in
    let l = length_items t o in
    elim (Bool-cases (t.vec.down_item_count + p == length t.vec.items)) [
      | inl e ↦ rw e o
      | inr e ↦
          let ne = ==→ne (t.vec.down_item_count + p) (length t.vec.items) e in
          let lt : p < length o.top = omega (arith, ne, le, l, o.counted) in
          rw e (record {
            down = o.down;
            top = alter p gone o.top;
            items =
                ap (λ n. alter (n + p) gone t.vec.items) o.counted
                ∙ ap (alter (length o.down + p) gone) o.items
                ∙ alter-right p gone o.down o.top;
            counted = o.counted;
            downs = o.downs;
            tops = All-alter IsTop p gone o.top (λ x h. tt) o.tops;
            sorted = Sorted-alter p o.top o.sorted;
            things = omega (arith, o.things, length-gone p o.top lt);
          })
    ]

remove_down-Ordered :
    (a count : ℕ) (x : Item) (t : Tile) (o : Ordered t)
    → position a (down_items t.vec) < length o.down
    → Ordered (remove_down a count x t)
unfolding remove_down
remove_down-Ordered a count x t o h =
    let p = position a (down_items t.vec) in
    let l = length_items t o in
    let there : (p == length t.vec.items) ≡ false = ground arith in
    elim (Bool-cases (x.is_stackable && not (count == x.count))) [
      | inl e ↦
          rw (there, e)
            (record {
              down = alter p (with_count (x.count - count)) o.down;
              top = o.top;
              items =
                  ap (alter p (with_count (x.count - count))) o.items
                  ∙ alter-left p (with_count (x.count - count)) o.down o.top h;
              counted = o.counted ∙ sym (length-with_count p (x.count - count) o.down);
              downs =
                  All-alter IsDown p (with_count (x.count - count)) o.down (λ y k. (k, tt)) o.downs;
              tops = o.tops;
              sorted = o.sorted;
              things = omega (arith, o.things, length-with_count p (x.count - count) o.down);
            })
      | inr e ↦
          rw (there, e)
            (record {
              down = alter p gone o.down;
              top = o.top;
              items = ap (alter p gone) o.items ∙ alter-left p gone o.down o.top h;
              counted = omega (arith, o.counted, length-gone p o.down h);
              downs = All-alter IsDown p gone o.down (λ y k. tt) o.downs;
              tops = o.tops;
              sorted = o.sorted;
              things = omega (arith, o.things, length-gone p o.down h);
            })
    ]

-- The item that is found is removed from the part of the vector in which it stands.
remove_above-Ordered : (a count : ℕ) (t : Tile) → Ordered t → Ordered (remove_above a count t)
unfolding remove_above remove_down
remove_above-Ordered a count t o =
    let dp = down_part t o in
    let tp = top_part t o in
    elim (Option-cases (lookup a (top_items t.vec))) [
      | inr (x, e) ↦
          let is_top = (lookup_found IsTop a o.top x o.tops (rw tp at e)).0 in
          rw (e, remove_above) (rw is_top (remove_top-Ordered a t o))
      | inl e ↦ elim (Option-cases (lookup a (down_items t.vec))) [
        | inl f ↦ rw (e, remove_above) (rw f o)
        | inr (x, f) ↦
            let found = lookup_found IsDown a o.down x o.downs (rw dp at f) in
            rw (e, remove_above)
              (rw f (rw (found.0) (remove_down-Ordered a count x t o (rw dp found.1))))
      ]
    ]

ground_gone : (o : Option Item) (a : ℕ) → is_at o a ≡ true → base o ≡ 1
ground_gone none a h = cc
ground_gone (some g) a h = refl

pub remove_item-Ordered : (a count : ℕ) (t : Tile) → Ordered t → Ordered (remove_item a count t)
unfolding remove_item
remove_item-Ordered a count t o = elim (Bool-cases (is_at t.ground a)) [
  | inl e ↦ rw e (record {
    down = o.down;
    top = o.top;
    items = o.items;
    counted = o.counted;
    downs = o.downs;
    tops = o.tops;
    sorted = o.sorted;
    things = omega (arith, o.things, ground_gone t.ground a e);
  })
  | inr e ↦ rw e (remove_above-Ordered a count t o)
]

length-erase_creature :
    (c : ℕ) (cs : List ℕ)
    → position_of c cs ≢ length cs
    → length (erase_creature c cs) + 1 ≡ length cs
unfolding position_of
length-erase_creature c [] h = absurd (h refl)
length-erase_creature c (d ∷ ds) h = elim (Bool-cases (d == c)) [
  | inl e ↦ rw e (omega arith)
  | inr e ↦ rw e (omega (arith, length-erase_creature c ds (λ k. h (rw e (ap suc k)))))
]

pub remove_creature-Ordered : (c : ℕ) (t : Tile) → Ordered t → Ordered (remove_creature c t)
unfolding remove_creature
remove_creature-Ordered c t o =
    elim (Bool-cases (position_of c t.creatures == length t.creatures)) [
      | inl e ↦ rw e o
      | inr e ↦
          let ne = ==→ne (position_of c t.creatures) (length t.creatures) e in
          rw e (record {
            down = o.down;
            top = o.top;
            items = o.items;
            counted = o.counted;
            downs = o.downs;
            tops = o.tops;
            sorted = o.sorted;
            things = omega (arith, o.things, length-erase_creature c t.creatures ne);
          })
    ]
