-- ===== src/Map/Tiles.antt =====
-- `Map::setTile` and `Map::getTile` of src/map.cpp against a map from coordinates to tiles.
use otxserver.Common.{
  ℕ, zero, suc, ◌*◌, ◌/◌, ◌%◌, ◌^◌, ◌<◌, ◌≡◌, refl, sym, ap, ◌∙◌, inl, inr, Bool, true, false, ◌&&◌,
  Option, none, some, arith, leb, ◌==◌, if◌then◌else◌, ==_iff, ==_refl, Bool-cases, if_intro,
}
use otxserver.Map.{
  Floor, Leaf, QTreeNode, null, node, leaf, get_leaf, create_leaf, with_leaf, tile_in, tile_of,
  floor_or_new, keep, put_tile, link, set_tile,
}
use otxserver.Map.Paths.{
  Shaped, same, map_leaf, leaf_or_new, is_null, get-same, get-with_leaf, get-create_leaf,
  create_leaf-Shaped, with_leaf-Shaped,
}
use otxserver.Map.Bits.{is_node, same_leaf}

-- The root is a node, and the leaves are 13 levels below it.
abbrev pub IsMap : QTreeNode → Type 0
IsMap root = (is_node root ≡ true) × Shaped 13 root

is_node-null : (t : QTreeNode) → is_node t ≡ true → is_null t ≡ false
is_node-null null h = cc
is_node-null (leaf l) h = refl
is_node-null (node a b c d) h = refl

with_leaf-IsMap : (f : Leaf → Leaf) (x y : ℕ) (t : QTreeNode) → IsMap t → IsMap (with_leaf f x y t)
unfolding with_leaf
with_leaf-IsMap f x y null h = h
with_leaf-IsMap f x y (leaf l) h = cc
with_leaf-IsMap f x y (node a b c d) h = (refl, with_leaf-Shaped f 13 x y (node a b c d) h.1)

create_leaf-node :
    (level x y : ℕ) (t : QTreeNode) → is_node t ≡ true → is_node (create_leaf level x y t) ≡ true
unfolding create_leaf
create_leaf-node level x y null h = cc
create_leaf-node level x y (leaf l) h = cc
create_leaf-node zero x y (node a b c d) h = refl
create_leaf-node (suc level) x y (node a b c d) h = ground arith

create_leaf-IsMap : (x y : ℕ) (t : QTreeNode) → IsMap t → IsMap (create_leaf 15 x y t)
create_leaf-IsMap x y t h = (create_leaf-node 15 x y t h.0, create_leaf-Shaped 13 x y t h.1)

link-IsMap : (x y : ℕ) (t : QTreeNode) → IsMap t → IsMap (link x y t)
unfolding link
link-IsMap x y t h =
    with_leaf-IsMap _ x y _
      (with_leaf-IsMap _ x y _ (with_leaf-IsMap _ _ y _ (with_leaf-IsMap _ x _ t h)))

pub linked-IsMap :
    (b : Bool) (x y : ℕ) (t : QTreeNode)
    → IsMap t
    → IsMap (if b then link x y (create_leaf 15 x y t) else create_leaf 15 x y t)
linked-IsMap b x y t h =
    let c = create_leaf-IsMap x y t h in if_intro IsMap b (link-IsMap x y _ c) c

pub set_tile-IsMap :
    (root : QTreeNode) (x y z tile : ℕ) → IsMap root → IsMap (set_tile root x y z tile)
unfolding set_tile
set_tile-IsMap root x y z tile h =
    if_intro IsMap (leb 16 z) h (with_leaf-IsMap _ x y _ (linked-IsMap _ x y root h))

-- What is changed in a leaf but its floors is not seen by `getTile`.
with_leaf-tile :
    (f : Leaf → Leaf) (x y u v w : ℕ) (t : QTreeNode)
    → ((l : Leaf) → (f l).floors ≡ l.floors)
    → IsMap t
    → tile_of u v w (get_leaf u v (with_leaf f x y t)) ≡ tile_of u v w (get_leaf u v t)
with_leaf-tile f x y u v w t k h =
    rw (get-with_leaf f 13 x y u v t h.1) (go (same 13 x u && same 13 y v) (get_leaf u v t))
  where
    go :
        (b : Bool) (o : Option Leaf)
        → tile_of u v w (if b then map_leaf f o else o) ≡ tile_of u v w o
    go false o = refl
    go true none = refl
    go true (some l) = ap (λ g. tile_in u v (g w)) (k l)

link-tile :
    (x y u v w : ℕ) (t : QTreeNode)
    → IsMap t
    → tile_of u v w (get_leaf u v (link x y t)) ≡ tile_of u v w (get_leaf u v t)
unfolding link
link-tile x y u v w t h =
    let h1 = with_leaf-IsMap _ x _ t h in
    let h2 = with_leaf-IsMap _ _ y _ h1 in
    let h3 = with_leaf-IsMap _ x y _ h2 in
    with_leaf-tile _ x y u v w _ (λ l. refl) h3
    ∙ with_leaf-tile _ x y u v w _ (λ l. refl) h2
    ∙ with_leaf-tile _ _ y u v w _ (λ l. refl) h1
    ∙ with_leaf-tile _ x _ u v w t (λ l. refl) h

create_leaf-tile :
    (x y u v w : ℕ) (t : QTreeNode)
    → IsMap t
    → tile_of u v w (get_leaf u v (create_leaf 15 x y t)) ≡ tile_of u v w (get_leaf u v t)
create_leaf-tile x y u v w t h =
    rw (get-create_leaf 13 x y t h.1 (is_node-null t h.0) u v)
      (go (same 13 x u && same 13 y v) (get_leaf u v t))
  where
    go :
        (b : Bool) (o : Option Leaf)
        → tile_of u v w (if b then some (leaf_or_new o) else o) ≡ tile_of u v w o
    go false o = refl
    go true none = refl
    go true (some l) = refl

-- The tree before the tile is put: with the leaf, and the leaf linked if it is new.
abbrev pub linked : Bool → ℕ → ℕ → QTreeNode → QTreeNode
linked b x y t = if b then link x y (create_leaf 15 x y t) else create_leaf 15 x y t

pub linked-tile :
    (b : Bool) (x y u v w : ℕ) (t : QTreeNode)
    → IsMap t
    → tile_of u v w (get_leaf u v (linked b x y t)) ≡ tile_of u v w (get_leaf u v t)
linked-tile b x y u v w t h =
    if_intro (λ (r : QTreeNode). tile_of u v w (get_leaf u v r) ≡ tile_of u v w (get_leaf u v t)) b
      (link-tile x y u v w _ (create_leaf-IsMap x y t h) ∙ create_leaf-tile x y u v w t h)
      (create_leaf-tile x y u v w t h)

abbrev pub is_some : {A : Type 0} → Option A → Bool
is_some none = false
is_some (some a) = true

with_leaf-there :
    (f : Leaf → Leaf) (x y u v : ℕ) (t : QTreeNode)
    → IsMap t
    → is_some (get_leaf u v t) ≡ true
    → is_some (get_leaf u v (with_leaf f x y t)) ≡ true
with_leaf-there f x y u v t h k =
    rw (get-with_leaf f 13 x y u v t h.1) (go (same 13 x u && same 13 y v) (get_leaf u v t) k)
  where
    go :
        (b : Bool) (o : Option Leaf)
        → is_some o ≡ true
        → is_some (if b then map_leaf f o else o) ≡ true
    go false o h = h
    go true none h = cc
    go true (some l) h = refl

same_self : (n x : ℕ) → same n x x ≡ true
unfolding same
same_self zero x = refl
same_self (suc n) x = ground (arith, same_self n (x * 2 % 2 ^ 16))

create_leaf-there :
    (x y : ℕ) (t : QTreeNode) → IsMap t → is_some (get_leaf x y (create_leaf 15 x y t)) ≡ true
create_leaf-there x y t h =
    rw (get-create_leaf 13 x y t h.1 (is_node-null t h.0) x y, same_self 13 x, same_self 13 y)

pub linked-there :
    (b : Bool) (x y : ℕ) (t : QTreeNode) → IsMap t → is_some (get_leaf x y (linked b x y t)) ≡ true
unfolding link
linked-there b x y t h =
    let c = create_leaf-IsMap x y t h in
    let k = create_leaf-there x y t h in
    let h1 = with_leaf-IsMap _ x _ _ c in
    let h2 = with_leaf-IsMap _ _ y _ h1 in
    let h3 = with_leaf-IsMap _ x y _ h2 in
    if_intro (λ (r : QTreeNode). is_some (get_leaf x y r) ≡ true) b
      (with_leaf-there _ x y x y _ h3 (
        with_leaf-there _ x y x y _ h2
          (with_leaf-there _ _ y x y _ h1 (with_leaf-there _ x _ x y _ c k))))
      k

floor-tile : (u v : ℕ) (o : Option Floor) → floor_or_new o (u % 8) (v % 8) ≡ tile_in u v o
floor-tile u v none = refl
floor-tile u v (some floor) = refl

same_place : (x u : ℕ) → x / 8 ≡ u / 8 → (u % 8 == x % 8) ≡ (u == x)
same_place x u h = ground arith

-- What a tile that is put in a leaf changes.
put-tile :
    (x y z u v w tile : ℕ) (o : Option Leaf)
    → is_some o ≡ true
    → x / 8 ≡ u / 8
    → y / 8 ≡ v / 8
    → tile_of u v w (map_leaf (put_tile x y z tile) o)
      ≡ (if u == x && (v == y && w == z) then keep (tile_of u v w o) tile else tile_of u v w o)
unfolding put_tile
put-tile x y z u v w tile none s h k = cc
put-tile x y z u v w tile (some l) s h k = elim (Bool-cases (w == z)) [
  | inl e ↦
      rw
        (
          (==_iff w z).0 e,
          ==_refl z,
          same_place x u h,
          same_place y v k,
          floor-tile u v (l.floors z),
        )
        (ground arith)
  | inr e ↦ rw e (ground arith)
]

pub put_with-tile :
    (x y z u v w tile : ℕ) (t : QTreeNode)
    → x < 2 ^ 16
    → y < 2 ^ 16
    → u < 2 ^ 16
    → v < 2 ^ 16
    → IsMap t
    → is_some (get_leaf x y t) ≡ true
    → tile_of u v w (get_leaf u v (with_leaf (put_tile x y z tile) x y t)) ≡ (
        if u == x && (v == y && w == z)
        then keep (tile_of u v w (get_leaf u v t)) tile
        else tile_of u v w (get_leaf u v t))
put_with-tile x y z u v w tile t hx hy hu hv m s =
    rw
      (
        get-with_leaf (put_tile x y z tile) 13 x y u v t m.1,
        same_leaf x u hx hu,
        same_leaf y v hy hv,
      )
      (elim (Bool-cases (x / 8 == u / 8 && y / 8 == v / 8)) [
        | inl e ↦
            let ex : x / 8 ≡ u / 8 = ground arith in
            let ey : y / 8 ≡ v / 8 = ground arith in
            let path =
              get-same 13 x y u v t m.1 (same_leaf x u hx hu ∙ rw ex (==_refl (u / 8)))
                (same_leaf y v hy hv ∙ rw ey (==_refl (v / 8))) in
            rw e (put-tile x y z u v w tile (get_leaf u v t) (ap is_some (sym path) ∙ s) ex ey)
        | inr e ↦
            let apart : (u == x && (v == y && w == z)) ≡ false =
              ground (arith, ==_iff u x, ==_iff v y, ==_refl (x / 8), ==_refl (y / 8)) in
            rw (e, apart)
      ])
