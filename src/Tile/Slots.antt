-- ===== src/Tile/Slots.antt =====
-- An index of a tile of src/tile.cpp as a place that `__getThing` reads and `__replaceThing` writes.
use otxserver.Common.{
  ℕ, ◌-◌, ◌^◌, ◌≤◌, ◌<◌, lt→ltb, ◌≡◌, refl, sym, ap, ◌∙◌, inl, inr, false, ◌&&◌, none, some, arith,
  ◌==◌, if◌then◌else◌, ==_iff, Bool-cases, Option-cases, length,
}
use otxserver.Tile.{Item, object, Tile, get_above, get_thing}
use otxserver.Tile.Replacement.{
  replace_above, replace_from, replace_thing, is_object, get_above-replace_above,
}

-- The two functions by the ground.
get_none : (t : Tile) (i : ℕ) → t.ground ≡ none → get_thing t i ≡ get_above t i
unfolding get_thing get_above
get_none t i e = rw (e, get_thing) refl

get_zero : (t : Tile) (g : Item) → t.ground ≡ some g → get_thing t 0 ≡ some (object g)
unfolding get_thing
get_zero t g e = rw (e, get_thing) refl

get_suc :
    (t : Tile) (g : Item) (i : ℕ)
    → t.ground ≡ some g
    → (i == 0) ≡ false
    → get_thing t i ≡ get_above t (i - 1)
unfolding get_thing get_above
get_suc t g i e z = rw (e, get_thing) (rw z refl)

replace_none :
    (t : Tile) (i : ℕ) (x : Item)
    → t.ground ≡ none
    → replace_from t.ground i x t ≡ replace_above i x t
replace_none t i x e = ap (λ g. replace_from g i x t) e

replace_zero :
    (t : Tile) (g x : Item)
    → t.ground ≡ some g
    → replace_from t.ground 0 x t ≡ record t { ground = some x }
replace_zero t g x e = ap (λ g. replace_from g 0 x t) e

replace_suc :
    (t : Tile) (g x : Item) (i : ℕ)
    → t.ground ≡ some g
    → (i == 0) ≡ false
    → replace_from t.ground i x t ≡ replace_above (i - 1) x t
replace_suc t g x i e z = ap (λ g. replace_from g i x t) e ∙ rw z refl

same_ground : (t : Tile) (i : ℕ) (x : Item) → (replace_above i x t).ground ≡ t.ground
unfolding replace_above
same_ground t i x = ground arith

get_above-ground :
    (t : Tile) (x : Item) (i : ℕ) → get_above (record t { ground = some x }) i ≡ get_above t i
unfolding get_above
get_above-ground t x i = refl

-- The first index, where there is a ground.
replace_ground :
    (t : Tile) (g x : Item) (j : ℕ)
    → t.ground ≡ some g
    → get_thing (replace_from t.ground 0 x t) j
      ≡ (if j == 0 && is_object (get_thing t 0) then some (object x) else get_thing t j)
replace_ground t g x j e =
    let u : Tile = record t { ground = some x } in
    rw (replace_zero t g x e, get_zero t g e)
      (elim (Bool-cases (j == 0)) [
        | inl z ↦ rw z (ap (get_thing u) ((==_iff j 0).0 z) ∙ get_zero u x refl)
        | inr z ↦
            rw z (get_suc u x j refl z ∙ get_above-ground t x (j - 1) ∙ sym (get_suc t g j e z))
      ])

-- The same of an index that is no negative number.
get_thing-replace_from :
    (t : Tile) (i j : ℕ) (x : Item)
    → t.vec.down_item_count ≤ length t.vec.items
    → get_thing (replace_from t.ground i x t) j
      ≡ (if j == i && is_object (get_thing t i) then some (object x) else get_thing t j)
get_thing-replace_from t i j x h = elim (Option-cases t.ground) [
  | inl e ↦
      ap (λ (u : Tile). get_thing u j) (replace_none t i x e)
      ∙ get_none (replace_above i x t) j (same_ground t i x ∙ e)
      ∙ rw (get_none t i e, get_none t j e) (get_above-replace_above t i j x h)
  | inr (g, e) ↦ elim (Bool-cases (i == 0)) [
    | inl z ↦ let zero_index = (==_iff i 0).0 z in rw zero_index (replace_ground t g x j e)
    | inr z ↦
        let u = replace_above (i - 1) x t in
        let k = same_ground t (i - 1) x ∙ e in
        ap (λ (u : Tile). get_thing u j) (replace_suc t g x i e z)
        ∙ rw (get_suc t g i e z) (elim (Bool-cases (j == 0)) [
          | inl y ↦
              let first = (==_iff j 0).0 y in
              let apart : (j == i) ≡ false = ground (arith, ==_iff j i) in
              rw apart (rw first (get_zero u g k ∙ sym (get_zero t g e)))
          | inr y ↦
              let both : (j - 1 == i - 1) ≡ (j == i) = ground (arith) in
              rw (get_suc u g j k y, get_suc t g j e y, ← both)
                (get_above-replace_above t (i - 1) (j - 1) x h)
        ])
  ]
]

-- At an index below 2 ^ 31 `__replaceThing` puts an item where there is one, and `__getThing` answers at
-- every other index what it answered before; at the index of a creature, or of nothing, it changes
-- nothing. The vector has at least as many items as it counts down items.
pub get_thing-replace_thing :
    (t : Tile) (i j : ℕ) (x : Item)
    → t.vec.down_item_count ≤ length t.vec.items
    → i < 2 ^ 31
    → get_thing (replace_thing i x t) j
      ≡ (if j == i && is_object (get_thing t i) then some (object x) else get_thing t j)
unfolding replace_thing
get_thing-replace_thing t i j x h b = rw (lt→ltb i (2 ^ 31) b) (get_thing-replace_from t i j x h)
