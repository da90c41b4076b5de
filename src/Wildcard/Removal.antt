-- ===== src/Wildcard/Removal.antt =====
-- What `remove` of src/wildcardtree.cpp does to the names of a tree.
use otxserver.Common.{
  ℕ, ◌≡◌, refl, inl, inr, true, false, not, ◌&&◌, none, some, List, [], ◌∷◌, arith, ◌==◌,
  if◌then◌else◌, ==_iff, Bool-cases, Option-cases,
}
use otxserver.Wildcard.{
  Node, node, Children, nil, cons, find, get_child, walk, erase, replace, is_dead, put_back,
  remove_path, is_some, remove,
}
use otxserver.Wildcard.Words.{has, same, same→eq}

pub find-erase :
    (d c : ℕ) (cs : Children) → find d (erase c cs) ≡ (if d == c then none else find d cs)
unfolding find erase
find-erase d c nil = ground arith
find-erase d c (cons e n cs) = ground (arith, find-erase d c cs, ==_iff d c, ==_iff c e, ==_iff d e)

pub find-replace :
    (d c : ℕ) (m : Node) (cs : Children)
    → find d (replace c m cs) ≡ (if d == c && is_some (find c cs) then some m else find d cs)
unfolding find replace
find-replace d c m nil = ground arith
find-replace d c m (cons e n cs) =
    ground (arith, find-replace d c m cs, ==_iff d c, ==_iff c e, ==_iff d e)

has-dead : (r : List ℕ) (n : Node) → is_dead n ≡ true → has r n ≡ false
unfolding has is_dead get_child find
has-dead [] (node b nil) h = ground arith
has-dead (c ∷ r) (node b nil) h = refl
has-dead r (node b (cons d n cs)) h = cc

has-put_back :
    (c d : ℕ) (r : List ℕ) (m n : Node)
    → is_some (get_child c n) ≡ true
    → has (d ∷ r) (put_back c n m) ≡ (if d == c then has r m else has (d ∷ r) n)
unfolding has put_back get_child
has-put_back c d r m (node b cs) h =
    ground (arith, find-erase d c cs, find-replace d c m cs, has-dead r m)

has_nil-put_back : (c : ℕ) (m n : Node) → has [] (put_back c n m) ≡ has [] n
unfolding has put_back
has_nil-put_back c m (node b cs) = ground arith

same_cons : (c d : ℕ) (r s : List ℕ) → (c == d) ≡ false → same (c ∷ r) (d ∷ s) ≡ false
same_cons c d r s h = rw h

child_step :
    (s w : List ℕ) (c : ℕ) (n m : Node)
    → get_child c n ≡ some m
    → ((r : List ℕ) → has r (remove_path s m) ≡ (has r m && not (same r s)))
    → has w (remove_path (c ∷ s) n) ≡ (has w n && not (same w (c ∷ s)))
unfolding remove_path has
child_step s [] c n m e ih = rw e (ground (arith, has_nil-put_back c (remove_path s m) n))
child_step s (d ∷ r) c n m e ih =
    rw e (ground (arith, has-put_back c d r (remove_path s m) n, ih r, ==_iff d c))

childless :
    (s w : List ℕ) (c : ℕ) (n : Node)
    → get_child c n ≡ none
    → has w n ≡ (has w n && not (same w (c ∷ s)))
unfolding has
childless s [] c n e = ground arith
childless s (d ∷ r) c n e = elim (Bool-cases (d == c)) [
  | inl k ↦ rw ((==_iff d c).0 k, e)
  | inr k ↦ ground arith
]

has-remove_path : (s w : List ℕ) (n : Node) → has w (remove_path s n) ≡ (has w n && not (same w s))
unfolding has remove_path get_child
has-remove_path [] [] (node b cs) = ground arith
has-remove_path [] (d ∷ r) (node b cs) = ground arith
has-remove_path (c ∷ s) w n = elim (Option-cases (get_child c n)) [
  | inl e ↦ rw e (childless s w c n e)
  | inr (m, e) ↦ child_step s w c n m e (λ r. has-remove_path s r m)
]

has-walk : (s : List ℕ) (n : Node) → is_some (walk s n) ≡ false → has s n ≡ false
unfolding walk has
has-walk [] n h = cc
has-walk (c ∷ s) n h = elim (Option-cases (get_child c n)) [
  | inl e ↦ rw e
  | inr (m, e) ↦ rw e (has-walk s m (rw e at h))
]

-- `remove` takes exactly the given name from the names of the tree.
pub has-remove : (s w : List ℕ) (n : Node) → has w (remove s n) ≡ (has w n && not (same w s))
unfolding remove
has-remove s w n = elim (Bool-cases (is_some (walk s n))) [
  | inl e ↦ rw e (has-remove_path s w n)
  | inr e ↦ rw e (ground (arith, has-walk s n e, same→eq w s))
]
