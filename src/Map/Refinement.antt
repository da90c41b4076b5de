-- ===== src/Map/Refinement.antt =====
-- `Map::setTile` and `Map::getTile` of src/map.cpp as a map from coordinates to tiles.
use otxserver.Common.{
  ℕ, ◌^◌, ◌<◌, ◌≡◌, refl, ap, ◌∙◌, inl, inr, true, false, ◌&&◌, ◌||◌, Option, none, some, List, [],
  ◌∷◌, arith, ltb, leb, ◌==◌, if◌then◌else◌, ==_iff, Bool-cases, All,
}
use otxserver.Map.{QTreeNode, get_leaf, tile_of, get_tile, keep, is_none, set_tile}
use otxserver.Map.Bits.{get_leaf_static-eq}
use otxserver.Map.Tiles.{
  IsMap, set_tile-IsMap, linked, linked-tile, linked-there, linked-IsMap, put_with-tile,
}

get_tile-tile_of :
    (root : QTreeNode) (u v w : ℕ)
    → IsMap root
    → u < 2 ^ 16
    → v < 2 ^ 16
    → get_tile root u v w ≡ (if leb 16 w then none else tile_of u v w (get_leaf u v root))
unfolding get_tile
get_tile-tile_of root u v w m h k =
    let in_range : (ltb 0xFFFF u || ltb 0xFFFF v || leb 16 w) ≡ leb 16 w = ground arith in
    rw (in_range, get_leaf_static-eq u v root m.0)

-- A tile that is there, or else a new one.
abbrev pub or_new : Option ℕ → ℕ → Option ℕ
or_new none tile = some tile
or_new (some old) tile = some old

keep_lem : (o : Option ℕ) (tile : ℕ) → keep o tile ≡ or_new o tile
keep_lem none tile = refl
keep_lem (some old) tile = refl

put_tile_keeps :
    (root : QTreeNode) (x y z tile u v w : ℕ)
    → IsMap root
    → x < 2 ^ 16
    → y < 2 ^ 16
    → u < 2 ^ 16
    → v < 2 ^ 16
    → get_tile (set_tile root x y z tile) u v w ≡ (
        if ltb z 16 && (u == x && (v == y && w == z))
        then keep (get_tile root u v w) tile
        else get_tile root u v w)
unfolding set_tile
put_tile_keeps root x y z tile u v w m hx hy hu hv = elim (Bool-cases (leb 16 z)) [
  | inl e ↦ let f : ltb z 16 ≡ false = ground arith in rw (e, f)
  | inr e ↦
      let f : ltb z 16 ≡ true = ground arith in
      let b = is_none (get_leaf x y root) in
      let p =
        put_with-tile x y z u v w tile (linked b x y root) hx hy hu hv (linked-IsMap b x y root m)
          (linked-there b x y root m) in
      let q =
        get_tile-tile_of (set_tile root x y z tile) u v w (set_tile-IsMap root x y z tile m) hu
          hv in
      let t = linked-tile b x y u v w root m in
      rw (q, get_tile-tile_of root u v w m hu hv, e, f, p, t)
        (elim (Bool-cases (leb 16 w)) [
          | inl g ↦
              let apart : (w == z) ≡ false = ground (arith, ==_iff w z) in
              rw (g, apart) (ground arith)
          | inr g ↦ rw g
        ])
]

-- For a tree whose leaves are all 13 levels below its root, and coordinates of 16 bits: `setTile` puts
-- the tile at its place if that is on a layer of the map and has none yet, and `getTile` answers the
-- same as before at every other place and in every other case.
pub get_tile-set_tile :
    (root : QTreeNode) (x y z tile u v w : ℕ)
    → IsMap root
    → x < 2 ^ 16
    → y < 2 ^ 16
    → u < 2 ^ 16
    → v < 2 ^ 16
    → get_tile (set_tile root x y z tile) u v w ≡ (
        if ltb z 16 && (u == x && (v == y && w == z))
        then or_new (get_tile root u v w) tile
        else get_tile root u v w)
get_tile-set_tile root x y z tile u v w m hx hy hu hv =
    put_tile_keeps root x y z tile u v w m hx hy hu hv
    ∙ ap (λ o. if ltb z 16 && (u == x && (v == y && w == z)) then o else get_tile root u v w)
        (keep_lem (get_tile root u v w) tile)

-- The calls of `setTile`, by the coordinates and the tile.
pub record Call : Type 0 where
  pub x : ℕ
  pub y : ℕ
  pub z : ℕ
  pub tile : ℕ

unfoldable pub run : List Call → QTreeNode → QTreeNode
run [] root = root
run (c ∷ cs) root = run cs (set_tile root c.x c.y c.z c.tile)

-- A map from coordinates to tiles, and the same calls on it: the first tile of a place stays.
abbrev pub Tiles : Type 0
Tiles = ℕ → ℕ → ℕ → Option ℕ

abbrev pub insert : Call → Tiles → Tiles
insert c m u v w =
    if ltb c.z 16 && (u == c.x && (v == c.y && w == c.z)) then or_new (m u v w) c.tile else m u v w

unfoldable pub replay : List Call → Tiles → Tiles
replay [] m = m
replay (c ∷ cs) m = replay cs (insert c m)

abbrev pub InRange : Call → Type 0
InRange c = (c.x < 2 ^ 16) × (c.y < 2 ^ 16)

replay-ext :
    (cs : List Call) (m n : Tiles) (u v w : ℕ)
    → ((u v w : ℕ) → u < 2 ^ 16 → v < 2 ^ 16 → m u v w ≡ n u v w)
    → u < 2 ^ 16
    → v < 2 ^ 16
    → replay cs m u v w ≡ replay cs n u v w
unfolding replay
replay-ext [] m n u v w h hu hv = h u v w hu hv
replay-ext (c ∷ cs) m n u v w h hu hv =
    replay-ext cs (insert c m) (insert c n) u v w
      (λ a b d ha hb.
        ap
          (λ (o : Option ℕ).
            if ltb c.z 16 && (a == c.x && (b == c.y && d == c.z)) then or_new o c.tile else o)
          (h a b d ha hb))
      hu hv

-- The tree refines the map from coordinates to tiles: after any calls of `setTile` with coordinates of
-- 16 bits, on a tree whose leaves are all 13 levels below its root, `getTile` answers what the map does
-- after the same insertions, in which the first tile of a place stays.
pub run_refines :
    (cs : List Call) (root : QTreeNode) (u v w : ℕ)
    → IsMap root
    → All InRange cs
    → u < 2 ^ 16
    → v < 2 ^ 16
    → get_tile (run cs root) u v w ≡ replay cs (get_tile root) u v w
unfolding run replay
run_refines [] root u v w m h hu hv = refl
run_refines (c ∷ cs) root u v w m h hu hv =
    run_refines cs (set_tile root c.x c.y c.z c.tile) u v w
      (set_tile-IsMap root c.x c.y c.z c.tile m) h.1 hu hv
    ∙ replay-ext cs (get_tile (set_tile root c.x c.y c.z c.tile)) (insert c (get_tile root)) u v w
        (λ a b d ha hb. get_tile-set_tile root c.x c.y c.z c.tile a b d m h.0.0 h.0.1 ha hb) hu hv
