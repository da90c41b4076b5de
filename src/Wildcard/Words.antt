-- ===== src/Wildcard/Words.antt =====
-- The names that a tree of src/wildcardtree.cpp holds, and what `insert` does to them.
use otxserver.Common.{
  ℕ, ◌≡◌, refl, Bool, true, false, ◌&&◌, ◌||◌, Option, none, some, List, [], ◌∷◌, arith, ◌==◌,
  if◌then◌else◌, ==_iff,
}
use otxserver.Wildcard.{
  Node, node, Children, nil, cons, find, get_child, mark, add_child, insert_path, insert, on_child,
}

-- The name ends at a breakpoint of the tree.
unfoldable pub has : List ℕ → Node → Bool
has [] (node b cs) = b
has (c ∷ r) n = on_child false (has r) (get_child c n)

-- Equality of names.
abbrev pub same : List ℕ → List ℕ → Bool
same [] [] = true
same [] (c ∷ r) = false
same (c ∷ r) [] = false
same (c ∷ r) (d ∷ s) = c == d && same r s

pub same→eq : (w s : List ℕ) → same w s ≡ true → w ≡ s
same→eq [] [] h = refl
same→eq [] (c ∷ r) h = cc
same→eq (c ∷ r) [] h = cc
same→eq (c ∷ r) (d ∷ s) h = ground (arith, same→eq r s, ==_iff c d)

-- The child that `addChild` goes on with.
abbrev marked : Bool → Option Node → Node
marked breakpoint none = node breakpoint nil
marked breakpoint (some n) = mark breakpoint n

find-add_child :
    (d c : ℕ) (bp : Bool) (k : Node → Node) (cs : Children)
    → find d (add_child c bp k cs)
      ≡ (if d == c then some (k (marked bp (find c cs))) else find d cs)
unfolding find add_child
find-add_child d c bp k nil = refl
find-add_child d c bp k (cons e n cs) =
    ground (arith, find-add_child d c bp k cs, ==_iff d c, ==_iff c e, ==_iff d e)

has-marked :
    (r : List ℕ) (bp : Bool) (o : Option Node)
    → has r (marked bp o) ≡ ((bp && same r []) || on_child false (has r) o)
unfolding has mark get_child find
has-marked [] bp none = ground arith
has-marked [] bp (some (node b cs)) = ground arith
has-marked (c ∷ r) bp none = ground arith
has-marked (c ∷ r) bp (some (node b cs)) = ground arith

-- After `insert` the tree holds the new name and the names that it held, and no other.
pub has-insert_path :
    (c : ℕ) (s w : List ℕ) (n : Node) → has w (insert_path (c ∷ s) n) ≡ (same w (c ∷ s) || has w n)
unfolding has insert_path get_child
has-insert_path c [] [] (node b cs) = refl
has-insert_path c [] (d ∷ r) (node b cs) =
    rw (find-add_child d c true (λ m. m) cs)
      (ground (arith, has-marked r true (find c cs), ==_iff d c))
has-insert_path c (d ∷ s) [] (node b cs) = refl
has-insert_path c (d ∷ s) (e ∷ r) (node b cs) =
    rw (find-add_child e c false (insert_path (d ∷ s)) cs) (
      ground (
        arith,
        has-insert_path d s r (marked false (find c cs)),
        has-marked r false (find c cs),
        ==_iff e c,
      ))

-- `insert` of a name that is not empty succeeds, and the tree then holds that name and the names that
-- it held, and no other.
pub has-insert :
    (c : ℕ) (s w : List ℕ) (n : Node)
    → (m : Node) × (insert (c ∷ s) n ≡ some m) × (has w m ≡ (same w (c ∷ s) || has w n))
unfolding insert
has-insert c s w n = (insert_path (c ∷ s) n, refl, has-insert_path c s w n)
