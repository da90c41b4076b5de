-- ===== src/Map/Paths.antt =====
-- The tree of src/map.cpp by the paths of coordinates through it.
use otxserver.Common.{
  ℕ, zero, suc, ◌≡◌, refl, sym, ap, ◌∙◌, Bool, true, false, ◌&&◌, Option, none, some, arith, ◌==◌,
  if◌then◌else◌, if_intro,
}
use otxserver.Map.{
  Leaf, QTreeNode, null, node, leaf, new_leaf, high_bit, shift, child, get_leaf, made, set_child,
  create_leaf, with_leaf,
}

-- A tree whose leaves are `n` levels below it.
abbrev pub Shaped : ℕ → QTreeNode → Type 0
Shaped n null = Unit {0}
Shaped zero (leaf l) = Unit {0}
Shaped (suc n) (leaf l) = ⊥
Shaped zero (node a b c d) = ⊥
Shaped (suc n) (node a b c d) = Shaped n a × Shaped n b × Shaped n c × Shaped n d

-- Two places have the same `n` high bits.
unfoldable pub same : ℕ → ℕ → ℕ → Bool
same zero x u = true
same (suc n) x u = high_bit x == high_bit u && same n (shift x) (shift u)

abbrev pub map_leaf {ℓ} : {A : Type ℓ} → (Leaf → A) → Option Leaf → Option A
map_leaf f none = none
map_leaf f (some l) = some (f l)

abbrev pub leaf_or_new : Option Leaf → Leaf
leaf_or_new none = new_leaf
leaf_or_new (some l) = l

pub get-same :
    (n x y u v : ℕ) (t : QTreeNode)
    → Shaped n t
    → same n x u ≡ true
    → same n y v ≡ true
    → get_leaf x y t ≡ get_leaf u v t
unfolding same get_leaf
get-same n x y u v null s h k = refl
get-same zero x y u v (leaf l) s h k = refl
get-same (suc n) x y u v (leaf l) s h k = refl
get-same zero x y u v (node a b c d) s h k = absurd s
get-same (suc n) x y u v (node a b c d) s h k = ground (
  arith,
  get-same n (shift x) (shift y) (shift u) (shift v) a s.0,
  get-same n (shift x) (shift y) (shift u) (shift v) b s.1,
  get-same n (shift x) (shift y) (shift u) (shift v) c s.2,
  get-same n (shift x) (shift y) (shift u) (shift v) d s.3,
)

pub get-with_leaf :
    (f : Leaf → Leaf) (n x y u v : ℕ) (t : QTreeNode)
    → Shaped n t
    → get_leaf u v (with_leaf f x y t)
      ≡ (if same n x u && same n y v then map_leaf f (get_leaf u v t) else get_leaf u v t)
unfolding same get_leaf with_leaf
get-with_leaf f n x y u v null s = ground arith
get-with_leaf f zero x y u v (leaf l) s = refl
get-with_leaf f (suc n) x y u v (leaf l) s = absurd s
get-with_leaf f zero x y u v (node a b c d) s = absurd s
get-with_leaf f (suc n) x y u v (node a b c d) s = ground (
  arith,
  get-with_leaf f n (shift x) (shift y) (shift u) (shift v) a s.0,
  get-with_leaf f n (shift x) (shift y) (shift u) (shift v) b s.1,
  get-with_leaf f n (shift x) (shift y) (shift u) (shift v) c s.2,
  get-with_leaf f n (shift x) (shift y) (shift u) (shift v) d s.3,
)

made-Shaped : (n : ℕ) (t : QTreeNode) → Shaped n t → Shaped n (made (suc (suc (suc n))) t)
made-Shaped zero null s = tt
made-Shaped (suc n) null s =
    let e : (suc (suc (suc (suc n))) == 3) ≡ false = ground arith in rw e (tt, tt, tt, tt)
made-Shaped n (node a b c d) s = s
made-Shaped n (leaf l) s = s

get-made :
    (n u v : ℕ) (t : QTreeNode) → get_leaf u v (made (suc (suc (suc (suc n)))) t) ≡ get_leaf u v t
unfolding get_leaf
get-made n u v null =
    let e : (suc (suc (suc (suc n))) == 3) ≡ false = ground arith in rw e (ground arith)
get-made n u v (node a b c d) = refl
get-made n u v (leaf l) = refl

-- `createLeaf` below a node that is there: the leaf of its place is there, and the others as before.
abbrev pub Created : ℕ → ℕ → ℕ → QTreeNode → Type 0
Created n x y t =
    (u v : ℕ)
    → get_leaf u v (create_leaf (suc (suc n)) x y t)
      ≡ (if same n x u && same n y v then some (leaf_or_new (get_leaf u v t)) else get_leaf u v t)

abbrev pub is_null : QTreeNode → Bool
is_null null = true
is_null (leaf l) = false
is_null (node a b c d) = false

made-there : (n : ℕ) (t : QTreeNode) → is_null (made n t) ≡ false
made-there n null = ground arith
made-there n (leaf l) = refl
made-there n (node a b c d) = refl

enter :
    (n x y u v : ℕ) (t : QTreeNode)
    → Shaped n t
    → get_leaf u v (create_leaf (suc (suc n)) x y (made (suc (suc (suc n))) t)) ≡ (
        if same n x u && same n y v
        then some (leaf_or_new (get_leaf u v (made (suc (suc (suc n))) t)))
        else get_leaf u v (made (suc (suc (suc n))) t))
    → get_leaf u v (create_leaf (suc (suc n)) x y (made (suc (suc (suc n))) t))
      ≡ (if same n x u && same n y v then some (leaf_or_new (get_leaf u v t)) else get_leaf u v t)
unfolding same get_leaf create_leaf
enter zero x y u v null s h = refl
enter zero x y u v (leaf l) s h = refl
enter zero x y u v (node a b c d) s h = absurd s
enter (suc n) x y u v t s h = rw (get-made n u v t) at h

get-set_child :
    (x y u v : ℕ) (t a b c d : QTreeNode)
    → get_leaf u v (set_child x y t a b c d) ≡ (
        if high_bit x == high_bit u && high_bit y == high_bit v
        then get_leaf (shift u) (shift v) t
        else get_leaf u v (node a b c d))
unfolding get_leaf
get-set_child x y u v t a b c d = ground arith

get-child :
    (x y u v : ℕ) (a b c d : QTreeNode)
    → (high_bit x == high_bit u && high_bit y == high_bit v) ≡ true
    → get_leaf u v (node a b c d) ≡ get_leaf (shift u) (shift v) (child x y a b c d)
unfolding get_leaf
get-child x y u v a b c d h = ground arith

child-Shaped :
    (n x y : ℕ) (a b c d : QTreeNode) → Shaped (suc n) (node a b c d) → Shaped n (child x y a b c d)
child-Shaped n x y a b c d s =
    if_intro (Shaped n) (high_bit y == 0) (if_intro (Shaped n) (high_bit x == 0) s.0 s.1)
      (if_intro (Shaped n) (high_bit x == 0) s.2 s.3)

set_child-Shaped :
    (n x y : ℕ) (t a b c d : QTreeNode)
    → Shaped n t
    → Shaped (suc n) (node a b c d)
    → Shaped (suc n) (set_child x y t a b c d)
set_child-Shaped n x y t a b c d k s =
    if_intro (Shaped (suc n)) (high_bit y == 0)
      (if_intro (Shaped (suc n)) (high_bit x == 0) (k, s.1, s.2, s.3) (s.0, k, s.2, s.3))
      (if_intro (Shaped (suc n)) (high_bit x == 0) (s.0, s.1, k, s.3) (s.0, s.1, s.2, k))

-- The test of a child and that of the path below it.
combine :
    (a b p q : Bool) (l s g n : Option Leaf)
    → l ≡ (if a && b then s else g)
    → s ≡ (if p && q then some (leaf_or_new n) else n)
    → ((a && b) ≡ true → g ≡ n)
    → l ≡ (if (a && p) && (b && q) then some (leaf_or_new g) else g)
combine false b p q l s g n h k e = h
combine true false false q l s g n h k e = h
combine true false true q l s g n h k e = h
combine true true false q l s g n h k e = h ∙ k ∙ sym (e refl)
combine true true true false l s g n h k e = h ∙ k ∙ sym (e refl)
combine true true true true l s g n h k e = h ∙ k ∙ ap (λ o. some (leaf_or_new o)) (sym (e refl))

pub get-create_leaf : (n x y : ℕ) (t : QTreeNode) → Shaped n t → is_null t ≡ false → Created n x y t
unfolding same create_leaf
get-create_leaf n x y null s k u v = cc
get-create_leaf zero x y (leaf l) s k u v = unfold get_leaf in refl
get-create_leaf (suc n) x y (leaf l) s k u v = absurd s
get-create_leaf zero x y (node a b c d) s k u v = absurd s
get-create_leaf (suc n) x y (node a b c d) s k u v =
    let t = child x y a b c d in
    let st = child-Shaped n x y a b c d s in
    let ih = enter n (shift x) (shift y) (shift u) (shift v) t st (
      get-create_leaf n (shift x) (shift y) (made (suc (suc (suc n))) t) (made-Shaped n t st)
        (made-there (suc (suc (suc n))) t) (shift u) (shift v)) in
    let set =
      get-set_child x y u v
        (create_leaf (suc (suc n)) (shift x) (shift y) (made (suc (suc (suc n))) t)) a b c d in
    combine (high_bit x == high_bit u) (high_bit y == high_bit v) (same n (shift x) (shift u))
      (same n (shift y) (shift v)) _ _ _ _ set ih (get-child x y u v a b c d)

pub create_leaf-Shaped :
    (n x y : ℕ) (t : QTreeNode) → Shaped n t → Shaped n (create_leaf (suc (suc n)) x y t)
unfolding create_leaf
create_leaf-Shaped n x y null s = tt
create_leaf-Shaped n x y (leaf l) s = s
create_leaf-Shaped zero x y (node a b c d) s = absurd s
create_leaf-Shaped (suc n) x y (node a b c d) s =
    let st = child-Shaped n x y a b c d s in
    set_child-Shaped n x y _ a b c d
      (create_leaf-Shaped n (shift x) (shift y) _ (made-Shaped n (child x y a b c d) st)) s

pub with_leaf-Shaped :
    (f : Leaf → Leaf) (n x y : ℕ) (t : QTreeNode) → Shaped n t → Shaped n (with_leaf f x y t)
unfolding with_leaf
with_leaf-Shaped f n x y null s = tt
with_leaf-Shaped f zero x y (leaf l) s = tt
with_leaf-Shaped f (suc n) x y (leaf l) s = absurd s
with_leaf-Shaped f zero x y (node a b c d) s = absurd s
with_leaf-Shaped f (suc n) x y (node a b c d) s = (
  if_intro (Shaped n) _ (with_leaf-Shaped f n (shift x) (shift y) a s.0) s.0,
  if_intro (Shaped n) _ (with_leaf-Shaped f n (shift x) (shift y) b s.1) s.1,
  if_intro (Shaped n) _ (with_leaf-Shaped f n (shift x) (shift y) c s.2) s.2,
  if_intro (Shaped n) _ (with_leaf-Shaped f n (shift x) (shift y) d s.3) s.3,
)
