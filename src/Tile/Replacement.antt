-- ===== src/Tile/Replacement.antt =====
-- `Tile::__replaceThing` of src/tile.cpp: an item in the place of another.
use otxserver.Common.{
  ℕ, zero, suc, ◌+◌, ◌-◌, ◌^◌, ◌≤◌, ◌<◌, ◌≡◌, refl, sym, ap, ◌∙◌, ◌≢◌, ◌⊎◌, inl, inr, Bool, true,
  false, ◌&&◌, Option, none, some, List, [], ◌∷◌, arith, ltb, leb, ◌==◌, if◌then◌else◌, ==→ne,
  ==_iff, Bool-cases, length, set,
}
use otxserver.Tile.{
  Item, Thing, creature, object, Tile, get_top_item_count, object_at, creature_at, get_above,
}

-- Below the ground; a creature is not replaced.
unfoldable pub replace_above : ℕ → Item → Tile → Tile
replace_above pos x t =
    let top = get_top_item_count t.vec in
    let n = length t.creatures in
    if ltb pos top
    then record t { vec = record t.vec { items = set t.vec.items (t.vec.down_item_count + pos) x } }
    else (if ltb (pos - top) n
        then t
        else (if ltb (pos - top - n) t.vec.down_item_count
            then record t { vec = record t.vec { items = set t.vec.items (pos - top - n) x } }
            else t))

-- By the ground.
abbrev pub replace_from : Option Item → ℕ → Item → Tile → Tile
replace_from none index x t = replace_above index x t
replace_from (some g) index x t =
    if index == 0 then record t { ground = some x } else replace_above (index - 1) x t

-- An index from 2 ^ 31 is negative as the int32_t `pos`, which the ground lowers by one more: so far
-- below 0 it is.
abbrev pub below_zero : Option Item → ℕ → ℕ
below_zero none index = 2 ^ 32 - index
below_zero (some g) index = 2 ^ 32 - index + 1

-- A negative `pos` is less than the number of top items, and counts from the first of them down: it is a
-- down item, or before the vector, where the source is undefined and nothing changes here.
unfoldable pub replace_below : ℕ → Item → Tile → Tile
replace_below n x t =
    if leb n t.vec.down_item_count
    then record t { vec = record t.vec { items = set t.vec.items (t.vec.down_item_count - n) x } }
    else t

-- `__replaceThing`, at an index of 32 bits.
unfoldable pub replace_thing : ℕ → Item → Tile → Tile
replace_thing index x t =
    if ltb index (2 ^ 31)
    then replace_from t.ground index x t
    else replace_below (below_zero t.ground index) x t

abbrev pub is_object : Option Thing → Bool
is_object none = false
is_object (some (creature c)) = false
is_object (some (object x)) = true

length-set : (xs : List Item) (i : ℕ) (x : Item) → length (set xs i x) ≡ length xs
length-set [] i x = refl
length-set (y ∷ ys) zero x = refl
length-set (y ∷ ys) (suc i) x = ap suc (length-set ys i x)

object_at-set_same :
    (xs : List Item) (i : ℕ) (x : Item) → i < length xs → object_at (set xs i x) i ≡ some (object x)
object_at-set_same [] i x h = absurd (omega arith)
object_at-set_same (y ∷ ys) zero x h = refl
object_at-set_same (y ∷ ys) (suc i) x h = object_at-set_same ys i x (omega arith)

object_at-set_other :
    (xs : List Item) (i j : ℕ) (x : Item) → i ≢ j → object_at (set xs i x) j ≡ object_at xs j
object_at-set_other [] i j x h = refl
object_at-set_other (y ∷ ys) zero zero x h = absurd (h refl)
object_at-set_other (y ∷ ys) zero (suc j) x h = refl
object_at-set_other (y ∷ ys) (suc i) zero x h = refl
object_at-set_other (y ∷ ys) (suc i) (suc j) x h = object_at-set_other ys i j x (λ e. h (ap suc e))

is_object-object_at : (xs : List Item) (i : ℕ) → i < length xs → is_object (object_at xs i) ≡ true
is_object-object_at [] i h = absurd (omega arith)
is_object-object_at (y ∷ ys) zero h = refl
is_object-object_at (y ∷ ys) (suc i) h = is_object-object_at ys i (omega arith)

is_object-creature_at : (cs : List ℕ) (i : ℕ) → is_object (creature_at cs i) ≡ false
is_object-creature_at [] i = refl
is_object-creature_at (c ∷ cs) zero = refl
is_object-creature_at (c ∷ cs) (suc i) = is_object-creature_at cs i

-- The tile with another vector of items, and the index of one of them.
abbrev with_items : List Item → Tile → Tile
with_items ys t = record t { vec = record t.vec { items = ys } }

abbrev index_at : Tile → ℕ → ℕ
index_at t k =
    if ltb k t.vec.down_item_count
    then length t.vec.items - t.vec.down_item_count + length t.creatures + k
    else k - t.vec.down_item_count

-- What an index above the ground is of: an item of the vector, or none.
record IsItem (t : Tile) (i : ℕ) : Type 0 where
  k : ℕ
  inside : k < length t.vec.items
  back : index_at t k ≡ i
  at :
      (ys : List Item)
      → length ys ≡ length t.vec.items
      → get_above (with_items ys t) i ≡ object_at ys k
  replaced : (x : Item) → replace_above i x t ≡ with_items (set t.vec.items k x) t

record NoItem (t : Tile) (i : ℕ) : Type 0 where
  other : is_object (get_above t i) ≡ false
  at :
      (ys : List Item)
      → length ys ≡ length t.vec.items
      → get_above (with_items ys t) i ≡ get_above t i
  replaced : (x : Item) → replace_above i x t ≡ t

place_cases :
    (t : Tile) (i : ℕ) → t.vec.down_item_count ≤ length t.vec.items → IsItem t i ⊎ NoItem t i
unfolding get_above replace_above
place_cases t i h =
    let d = t.vec.down_item_count in
    let top = length t.vec.items - d in
    let n = length t.creatures in
    elim (Bool-cases (ltb i top)) [
      | inl e ↦
          let not_down : ltb (d + i) d ≡ false = ground arith in
          inl (record {
            k = d + i;
            inside = ground arith;
            back = rw not_down (omega arith);
            at = λ ys l. rw (l, e) refl;
            replaced = λ x. rw e refl;
          })
      | inr e ↦ elim (Bool-cases (ltb (i - top) n)) [
        | inl f ↦ inr (record {
          other = rw (e, f) (is_object-creature_at t.creatures (i - top));
          at = λ ys l. rw (l, e, f) refl;
          replaced = λ x. rw (e, f) refl;
        })
        | inr f ↦ elim (Bool-cases (ltb (i - top - n) d)) [
          | inl g ↦ inl (record {
            k = i - top - n;
            inside = ground arith;
            back = rw g (ground arith);
            at = λ ys l. rw (l, e, f, g) refl;
            replaced = λ x. rw (e, f, g) refl;
          })
          | inr g ↦ inr (record {
            other = rw (e, f, g) refl;
            at = λ ys l. rw (l, e, f, g) refl;
            replaced = λ x. rw (e, f, g) refl;
          })
        ]
      ]
    ]

and_false : (b : Bool) → b && false ≡ false
and_false true = refl
and_false false = refl

pub get_above-replace_above :
    (t : Tile) (i j : ℕ) (x : Item)
    → t.vec.down_item_count ≤ length t.vec.items
    → get_above (replace_above i x t) j
      ≡ (if j == i && is_object (get_above t i) then some (object x) else get_above t j)
get_above-replace_above t i j x h = elim (place_cases t i h) [
  | inr p ↦ rw (p.replaced x, p.other, and_false (j == i)) refl
  | inl p ↦
      let here : is_object (get_above t i) ≡ true =
        ap is_object (p.at t.vec.items refl) ∙ is_object-object_at t.vec.items p.k p.inside in
      let l = length-set t.vec.items p.k x in
      let r = ap (λ (u : Tile). get_above u j) (p.replaced x) in
      elim (Bool-cases (j == i)) [
        | inl e ↦
            let same = (==_iff j i).0 e in
            rw (e, here)
              (r
                ∙ ap (get_above (with_items (set t.vec.items p.k x) t)) same
                ∙ p.at (set t.vec.items p.k x) l
                ∙ object_at-set_same t.vec.items p.k x p.inside)
        | inr e ↦ rw e (elim (place_cases t j h) [
          | inr q ↦ r ∙ q.at (set t.vec.items p.k x) l
          | inl q ↦
              let apart : p.k ≢ q.k =
                λ z. ==→ne j i e (sym q.back ∙ ap (index_at t) (sym z) ∙ p.back) in
              r
              ∙ q.at (set t.vec.items p.k x) l
              ∙ object_at-set_other t.vec.items p.k q.k x apart
              ∙ sym (q.at t.vec.items refl)
        ])
      ]
]
