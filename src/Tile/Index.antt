-- ===== src/Tile/Index.antt =====
-- The indexes of the things on a tile of src/tile.cpp: `__getIndexOfThing` and `__getThing`.
use otxserver.Common.{
  ℕ, zero, suc, ◌+◌, ◌-◌, ◌≤◌, ◌<◌, ◌≡◌, refl, sym, ap, ◌∙◌, inl, inr, Bool, true, false, Option,
  none, some, List, [], ◌∷◌, arith, ltb, ◌==◌, ltb→lt, ==_iff, Bool-cases, Option-cases, length,
  take, drop,
}
use otxserver.Tile.{
  Item, Thing, creature, object, Tile, down_items, top_items, object_at, creature_at, get_above,
  get_thing, position, position_of, base, is_at, get_index_of_item,
}

-- The address of an item.
abbrev pub address_of : Option Thing → Option ℕ
address_of none = none
address_of (some (creature c)) = none
address_of (some (object x)) = some x.address

object_at-position :
    (a : ℕ) (xs : List Item)
    → position a xs < length xs
    → address_of (object_at xs (position a xs)) ≡ some a
unfolding position
object_at-position a [] h = absurd (omega arith)
object_at-position a (x ∷ xs) h = elim (Bool-cases (x.address == a)) [
  | inl e ↦ rw e (ap some ((==_iff x.address a).0 e))
  | inr e ↦ rw e (object_at-position a xs (let k = rw e at h in omega (arith, k)))
]

creature_at-position_of :
    (c : ℕ) (cs : List ℕ)
    → position_of c cs < length cs
    → creature_at cs (position_of c cs) ≡ some (creature c)
unfolding position_of
creature_at-position_of c [] h = absurd (omega arith)
creature_at-position_of c (d ∷ ds) h = elim (Bool-cases (d == c)) [
  | inl e ↦ rw e (ap (λ n. some (creature n)) ((==_iff d c).0 e))
  | inr e ↦ rw e (creature_at-position_of c ds (let k = rw e at h in omega (arith, k)))
]

-- A part of the vector, and the vector.
object_at-drop : (n i : ℕ) (xs : List Item) → object_at (drop n xs) i ≡ object_at xs (n + i)
object_at-drop zero i xs = let e : 0 + i ≡ i = omega arith in rw e
object_at-drop (suc n) i [] = refl
object_at-drop (suc n) i (x ∷ xs) =
    let e : suc n + i ≡ suc (n + i) = omega arith in rw e (object_at-drop n i xs)

object_at-take : (n i : ℕ) (xs : List Item) → i < n → object_at (take n xs) i ≡ object_at xs i
object_at-take zero i xs h = absurd (omega arith)
object_at-take (suc n) i [] h = refl
object_at-take (suc n) zero (x ∷ xs) h = refl
object_at-take (suc n) (suc i) (x ∷ xs) h = object_at-take n i xs (omega arith)

length-drop : (n : ℕ) (xs : List Item) → length (drop n xs) ≡ length xs - n
length-drop zero xs = omega arith
length-drop (suc n) [] = omega arith
length-drop (suc n) (x ∷ xs) = omega (arith, length-drop n xs)

length-take : (n : ℕ) (xs : List Item) → length (take n xs) ≤ n
length-take zero xs = omega arith
length-take (suc n) [] = omega arith
length-take (suc n) (x ∷ xs) = omega (arith, length-take n xs)

past_ground : (t : Tile) (i : ℕ) → get_thing t (base t.ground + i) ≡ get_above t i
unfolding get_thing
past_ground t i = elim (Option-cases t.ground) [
  | inl e ↦ let z : 0 + i ≡ i = omega arith in rw (e, z)
  | inr (g, e) ↦
      let z : (1 + i == 0) ≡ false = ground arith in
      let s : 1 + i - 1 ≡ i = omega arith in rw e (rw (z, s))
]

at_ground : (t : Tile) (a : ℕ) → is_at t.ground a ≡ true → address_of (get_thing t 0) ≡ some a
unfolding get_thing
at_ground t a h = elim (Option-cases t.ground) [
  | inl e ↦ let k = rw e at h in cc
  | inr (g, e) ↦ rw e (ap some ((==_iff g.address a).0 (rw e at h)))
]

some_inj : (a b : ℕ) → some a ≡ some b → a ≡ b
some_inj a b h = cc

-- What `__getIndexOfThing` answers for an item is an index at which `__getThing` answers that item.
pub get_thing-get_index_of_item :
    (t : Tile) (a i : ℕ) → get_index_of_item t a ≡ some i → address_of (get_thing t i) ≡ some a
unfolding get_index_of_item get_above
get_thing-get_index_of_item t a i h =
    let v = t.vec in
    let p = position a (top_items v) in
    let q = position a (down_items v) in
    let lt = length-drop v.down_item_count v.items in
    let ld = length-take v.down_item_count v.items in
    elim (Bool-cases (is_at t.ground a)) [
      | inl e ↦ let z : 0 ≡ i = some_inj 0 i (rw e at h) in rw (sym z) (at_ground t a e)
      | inr e ↦ elim (Bool-cases (ltb p (length (top_items v)))) [
        | inl f ↦
            let z : base t.ground + p ≡ i = some_inj (base t.ground + p) i (rw f at (rw e at h)) in
            let top : ltb p (length v.items - v.down_item_count) ≡ true = ground (arith, lt) in
            rw (sym z, past_ground t p, top, sym (object_at-drop v.down_item_count p v.items))
              (object_at-position a (top_items v) (ltb→lt p (length (top_items v)) f))
        | inr f ↦ elim (Bool-cases (ltb q (length (down_items v)))) [
          | inl g ↦
              let n = length (top_items v) + length t.creatures + q in
              let z : base t.ground + n ≡ i = omega (
                arith,
                some_inj (base t.ground + length (top_items v) + length t.creatures + q) i
                    (rw g at (rw f at (rw e at h))),
              ) in
              let top = length v.items - v.down_item_count in
              let a1 : ltb n top ≡ false = ground (arith, lt) in
              let a2 : ltb (n - top) (length t.creatures) ≡ false = ground (arith, lt) in
              let s : n - top - length t.creatures ≡ q = omega (arith, lt) in
              let a3 : ltb q v.down_item_count ≡ true = ground (arith, ld) in
              rw
                (
                  sym z,
                  past_ground t n,
                  a1,
                  a2,
                  s,
                  a3,
                  sym (object_at-take v.down_item_count q v.items (ltb→lt q v.down_item_count a3)),
                )
                (object_at-position a (down_items v) (ltb→lt q (length (down_items v)) g))
          | inr g ↦ let k = rw g at (rw f at (rw e at h)) in cc
        ]
      ]
    ]

abbrev pub is_thing : Option Thing → Bool
is_thing none = false
is_thing (some x) = true

is_thing-object_at : (xs : List Item) (i : ℕ) → is_thing (object_at xs i) ≡ ltb i (length xs)
is_thing-object_at [] i = ground arith
is_thing-object_at (x ∷ xs) zero = ground arith
is_thing-object_at (x ∷ xs) (suc i) = ground (arith, is_thing-object_at xs i)

is_thing-creature_at : (cs : List ℕ) (i : ℕ) → is_thing (creature_at cs i) ≡ ltb i (length cs)
is_thing-creature_at [] i = ground arith
is_thing-creature_at (c ∷ cs) zero = ground arith
is_thing-creature_at (c ∷ cs) (suc i) = ground (arith, is_thing-creature_at cs i)

is_thing-get_above :
    (t : Tile) (i : ℕ)
    → t.vec.down_item_count ≤ length t.vec.items
    → is_thing (get_above t i) ≡ ltb i (length t.vec.items + length t.creatures)
unfolding get_above
is_thing-get_above t i h =
    let top = length t.vec.items - t.vec.down_item_count in
    let n = length t.creatures in
    let d = t.vec.down_item_count in
    elim (Bool-cases (ltb i top)) [
      | inl e ↦ rw (e, is_thing-object_at t.vec.items (d + i)) (ground arith)
      | inr e ↦ elim (Bool-cases (ltb (i - top) n)) [
        | inl f ↦ rw (e, f, is_thing-creature_at t.creatures (i - top)) (ground arith)
        | inr f ↦ elim (Bool-cases (ltb (i - top - n) d)) [
          | inl g ↦ rw (e, f, g, is_thing-object_at t.vec.items (i - top - n)) (ground arith)
          | inr g ↦ rw (e, f, g) (ground arith)
        ]
      ]
    ]

pub is_thing-get_thing :
    (t : Tile) (i : ℕ)
    → t.vec.down_item_count ≤ length t.vec.items
    → is_thing (get_thing t i) ≡ ltb i (base t.ground + length t.vec.items + length t.creatures)
unfolding get_thing
is_thing-get_thing t i h = elim (Option-cases t.ground) [
  | inl e ↦ rw e (is_thing-get_above (record t { ground = none }) i h ∙ ground arith)
  | inr (g, e) ↦ elim (Bool-cases (i == 0)) [
    | inl z ↦ rw e (rw z (ground arith))
    | inr z ↦
        rw e (rw z (is_thing-get_above (record t { ground = some g }) (i - 1) h ∙ ground arith))
  ]
]
