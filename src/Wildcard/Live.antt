-- ===== src/Wildcard/Live.antt =====
-- The trees of src/wildcardtree.cpp without dead nodes below the root, and with each key once.
use mathlib.Core.Path.{subst}
use otxserver.Common.{
  ℕ, ◌≡◌, refl, ◌∙◌, inl, inr, Bool, true, false, none, some, List, [], ◌∷◌, arith, ◌==◌, ==_iff,
  Bool-cases, Option-cases, if_intro,
}
use otxserver.Wildcard.{
  Node, node, Children, nil, cons, find, get_child, mark, add_child, insert_path, walk, erase,
  replace, is_dead, put_back, remove_path, is_some, remove,
}
use otxserver.Wildcard.Removal.{find-erase, find-replace}

abbrev mutual
  pub Live : Node → Type 0
  Live (node b cs) = AllLive cs

  pub AllLive : Children → Type 0
  AllLive nil = Unit {0}
  AllLive (cons c n cs) = (is_dead n ≡ false) × Live n × (find c cs ≡ none) × AllLive cs

mark-Live : (bp : Bool) (n : Node) → Live n → Live (mark bp n)
unfolding mark
mark-Live bp (node b cs) l = l

is_dead-mark : (bp : Bool) (n : Node) → is_dead n ≡ false → is_dead (mark bp n) ≡ false
unfolding mark is_dead
is_dead-mark bp (node b nil) h = ground arith
is_dead-mark bp (node b (cons c n cs)) h = refl

-- What is done to the child keeps it live, and leaves it with a name.
record Keeps (k : Node → Node) (bp : Bool) : Type 0 where
  live : (n : Node) → Live n → Live (k n)
  fresh : is_dead (k (node bp nil)) ≡ false
  old : (n : Node) → is_dead n ≡ false → is_dead (k (mark bp n)) ≡ false

find-add_child-none :
    (d c : ℕ) (bp : Bool) (k : Node → Node) (cs : Children)
    → (d == c) ≡ false
    → find d cs ≡ none
    → find d (add_child c bp k cs) ≡ none
unfolding find add_child
find-add_child-none d c bp k nil h e = ground arith
find-add_child-none d c bp k (cons f n cs) h e = ground (arith, find-add_child-none d c bp k cs h)

add_child-AllLive :
    (c : ℕ) (bp : Bool) (k : Node → Node) (cs : Children)
    → Keeps k bp
    → AllLive cs
    → AllLive (add_child c bp k cs)
unfolding add_child find
add_child-AllLive c bp k nil h l = (h.fresh, h.live _ tt, refl, tt)
add_child-AllLive c bp k (cons d n cs) h l = elim (Bool-cases (c == d)) [
  | inl e ↦ rw e (h.old n l.0, h.live _ (mark-Live bp n l.1), l.2, l.3)
  | inr e ↦ rw e (
    l.0,
    l.1,
    find-add_child-none d c bp k cs (ground (arith, ==_iff d c, ==_iff c d)) l.2,
    add_child-AllLive c bp k cs h l.3,
  )
]

is_dead-add_child :
    (b : Bool) (c : ℕ) (bp : Bool) (k : Node → Node) (cs : Children)
    → is_dead (node b (add_child c bp k cs)) ≡ false
unfolding is_dead add_child
is_dead-add_child b c bp k nil = refl
is_dead-add_child b c bp k (cons d n cs) = ground arith

id-Keeps : Keeps (λ n. n) true
unfolding is_dead
id-Keeps = record { live = λ n l. l; fresh = refl; old = is_dead-mark true }

insert_path-dead : (c : ℕ) (s : List ℕ) (n : Node) → is_dead (insert_path (c ∷ s) n) ≡ false
unfolding insert_path
insert_path-dead c [] (node b cs) = is_dead-add_child b c true (λ n. n) cs
insert_path-dead c (d ∷ s) (node b cs) = is_dead-add_child b c false (insert_path (d ∷ s)) cs

insert_path-Live : (c : ℕ) (s : List ℕ) (n : Node) → Live n → Live (insert_path (c ∷ s) n)
unfolding insert_path
insert_path-Live c [] (node b cs) l = add_child-AllLive c true (λ n. n) cs id-Keeps l
insert_path-Live c (d ∷ s) (node b cs) l =
    add_child-AllLive c false (insert_path (d ∷ s)) cs
      (record {
        live = λ n. insert_path-Live d s n;
        fresh = insert_path-dead d s (node false nil);
        old = λ n h. insert_path-dead d s (mark false n);
      })
      l

erase-AllLive : (c : ℕ) (cs : Children) → AllLive cs → AllLive (erase c cs)
unfolding erase
erase-AllLive c nil l = tt
erase-AllLive c (cons d n cs) l =
    if_intro AllLive (c == d) (erase-AllLive c cs l.3)
      (l.0, l.1, find-erase d c cs ∙ ground (arith, l.2), erase-AllLive c cs l.3)

replace-AllLive :
    (c : ℕ) (m : Node) (cs : Children)
    → Live m
    → is_dead m ≡ false
    → AllLive cs
    → AllLive (replace c m cs)
unfolding replace
replace-AllLive c m nil k h l = tt
replace-AllLive c m (cons d n cs) k h l =
    if_intro AllLive (c == d) (h, k, l.2, l.3)
      (
        l.0,
        l.1,
        ground (arith, find-replace d c m cs, l.2, ==_iff d c),
        replace-AllLive c m cs k h l.3,
      )

find-Live :
    (c : ℕ) (cs : Children) (m : Node)
    → AllLive cs
    → find c cs ≡ some m
    → Live m × (is_dead m ≡ false)
unfolding find
find-Live c nil m l e = cc
find-Live c (cons d k cs) m l e = elim (Bool-cases (c == d)) [
  | inl h ↦
      let same_child : k ≡ m = ground (arith, h) in
      subst (λ x. Live x × (is_dead x ≡ false)) same_child (l.1, l.0)
  | inr h ↦ find-Live c cs m l.3 (rw h at e)
]

pub get_child-Live :
    (c : ℕ) (n m : Node) → Live n → get_child c n ≡ some m → Live m × (is_dead m ≡ false)
unfolding get_child
get_child-Live c (node b cs) m l e = find-Live c cs m l e

put_back-Live : (c : ℕ) (n m : Node) → Live n → Live m → Live (put_back c n m)
unfolding put_back
put_back-Live c (node b cs) m l k = elim (Bool-cases (is_dead m)) [
  | inl e ↦ rw e (erase-AllLive c cs l)
  | inr e ↦ rw e (replace-AllLive c m cs k e l)
]

remove_path-Live : (s : List ℕ) (n : Node) → Live n → Live (remove_path s n)
unfolding remove_path
remove_path-Live [] (node b cs) l = l
remove_path-Live (c ∷ s) n l = elim (Option-cases (get_child c n)) [
  | inl e ↦ rw e l
  | inr (m, e) ↦
      rw e
        (put_back-Live c n (remove_path s m) l (remove_path-Live s m (get_child-Live c n m l e).0))
]

-- The calls that change a tree: a name that is not empty comes, or a name goes.
pub data Op : Type 0 where
  adds : ℕ → List ℕ → Op
  drops : List ℕ → Op

unfoldable pub run : List Op → Node → Node
run [] n = n
run (adds c s ∷ ops) n = run ops (insert_path (c ∷ s) n)
run (drops s ∷ ops) n = run ops (remove s n)

-- Any sequence of insertions of names that are not empty and of removals keeps a tree without dead
-- nodes below the root, and with each key once.
pub run-Live : (ops : List Op) (n : Node) → Live n → Live (run ops n)
unfolding run remove
run-Live [] n l = l
run-Live (adds c s ∷ ops) n l = run-Live ops _ (insert_path-Live c s n l)
run-Live (drops s ∷ ops) n l =
    run-Live ops _ (if_intro Live (is_some (walk s n)) (remove_path-Live s n l) l)
