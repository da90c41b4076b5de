-- ===== src/Wildcard.antt =====
-- src/wildcardtree.cpp: the tree of the names of the players that are online, in which a name is
-- looked up by its beginning. A character is a number. The children of a node are a std::map: a list
-- with each key once, whose order nothing observes, since `findOne` takes the first child only where
-- there is no other. A walk by pointer with changes on the way is a recursion that rebuilds the path.
pub mod Words
pub mod Removal
pub mod Live
pub mod Lookup
pub mod Names
mod Tests
use otxserver.Common.{
  ℕ, zero, suc, ◌+◌, ◌-◌, ◌*◌, ◌/◌, ◌%◌, ◌^◌, ◌≤◌, ◌<◌, min, max, ◌≡◌, refl, sym, ap, ◌∙◌, ◌≢◌, ◌↔◌,
  ◌⊎◌, inl, inr, Bool, true, false, not, ◌&&◌, ◌||◌, Option, none, some, List, [], ◌∷◌, ◌++◌, map,
  arith, ltb, leb, ◌==◌, if◌then◌else◌, ltb→lt, lt→ltb, leb→le, ==_iff, ==_refl, Bool-cases,
  Option-cases, dist, if_intro, length, get_elem?, get_or, set, take, drop, length-append,
  take-append, drop-append, All, All-append,
}

mutual
  pub data Node : Type 0 where
    node : Bool → Children → Node

  pub data Children : Type 0 where
    nil : Children
    cons : ℕ → Node → Children → Children

-- `m_children.find(ch)`
unfoldable pub find : ℕ → Children → Option Node
find ch nil = none
find ch (cons c n cs) = if ch == c then some n else find ch cs

-- `getChild`
unfoldable pub get_child : ℕ → Node → Option Node
unfolding find
get_child ch (node b cs) = find ch cs

-- `addChild` on a child that is there: a breakpoint is added and never taken away.
unfoldable pub mark : Bool → Node → Node
mark breakpoint (node b cs) = node (if breakpoint && not b then true else b) cs

-- `addChild`, and what is done to the child that it answers.
unfoldable pub add_child : ℕ → Bool → (Node → Node) → Children → Children
unfolding mark
add_child ch breakpoint k nil = cons ch (k (node breakpoint nil)) nil
add_child ch breakpoint k (cons c n cs) =
    if ch == c then cons c (k (mark breakpoint n)) cs else cons c n (add_child ch breakpoint k cs)

-- The loop of `insert` and its last call, for a name that is not empty.
unfoldable pub insert_path : List ℕ → Node → Node
insert_path [] n = n
insert_path (c ∷ []) (node b cs) = node b (add_child c true (λ n. n) cs)
insert_path (c ∷ d ∷ r) (node b cs) = node b (add_child c false (insert_path (d ∷ r)) cs)

-- `insert`. For the empty name `str.length() - 1` wraps and the loop reads past the end: `none`.
unfoldable pub insert : List ℕ → Node → Option Node
insert [] n = none
insert (c ∷ r) n = some (insert_path (c ∷ r) n)

-- What is done with the answer of `getChild`.
abbrev pub on_child : {A : Type 0} → A → (Node → A) → Option Node → A
on_child missing f none = missing
on_child missing f (some m) = f m

-- The walk along a name.
unfoldable pub walk : List ℕ → Node → Option Node
walk [] n = some n
walk (c ∷ r) n = on_child none (walk r) (get_child c n)

-- `m_children.erase(it)` and the writing of a child in its place.
unfoldable pub erase : ℕ → Children → Children
erase ch nil = nil
erase ch (cons c n cs) = if ch == c then erase ch cs else cons c n (erase ch cs)

unfoldable pub replace : ℕ → Node → Children → Children
replace ch m nil = nil
replace ch m (cons c n cs) = if ch == c then cons c m cs else cons c n (replace ch m cs)

-- Neither children nor a breakpoint: `remove` takes such a node from its parent.
unfoldable pub is_dead : Node → Bool
is_dead (node b nil) = not b
is_dead (node b (cons c n cs)) = false

-- A parent, after its child `ch` has become `n`.
unfoldable pub put_back : ℕ → Node → Node → Node
put_back ch (node b cs) n = if is_dead n then node b (erase ch cs) else node b (replace ch n cs)

-- The end of `remove`, along a path that is there: the breakpoint goes, and dead nodes from below.
unfoldable pub remove_path : List ℕ → Node → Node
remove_path [] (node b cs) = node false cs
remove_path (c ∷ r) n = on_child n (λ m. put_back c n (remove_path r m)) (get_child c n)

abbrev pub is_some : Option Node → Bool
is_some none = false
is_some (some n) = true

-- `remove`: a name whose path is not there changes nothing.
unfoldable pub remove : List ℕ → Node → Node
remove str n = if is_some (walk str n) then remove_path str n else n

-- The values of ReturnValue that `findOne` answers, and its `result`.
pub data Found : Type 0 where
  no_error : List ℕ → Found
  too_ambiguous : Found
  not_online : Found

abbrev pub prepend : ℕ → Found → Found
prepend c (no_error r) = no_error (c ∷ r)
prepend c too_ambiguous = too_ambiguous
prepend c not_online = not_online

-- The loop of `findOne`: what it appends to the result.
unfoldable pub complete : Node → Found
complete (node b nil) = no_error []
complete (node b (cons c n nil)) =
    let rest = complete n in if b then too_ambiguous else prepend c rest
complete (node b (cons c n (cons d m cs))) = too_ambiguous

-- `findOne`
unfoldable pub find_one : List ℕ → Node → Found
find_one [] n = complete n
find_one (c ∷ r) n = on_child not_online (λ m. prepend c (find_one r m)) (get_child c n)
