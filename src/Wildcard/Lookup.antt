-- ===== src/Wildcard/Lookup.antt =====
-- What `findOne` of src/wildcardtree.cpp answers of a tree without dead nodes.
use otxserver.Common.{
  ℕ, ◌≡◌, refl, ◌⊎◌, inl, inr, Bool, true, false, not, ◌&&◌, none, some, List, [], ◌∷◌, arith, ◌==◌,
  ==_iff, ==_refl, Bool-cases, Option-cases,
}
use otxserver.Wildcard.{
  Node, node, nil, cons, find, get_child, is_dead, Found, no_error, too_ambiguous, not_online,
  prepend, complete, find_one,
}
use otxserver.Wildcard.Words.{has, same}
use otxserver.Wildcard.Live.{Live, get_child-Live}

abbrev pub starts : List ℕ → List ℕ → Bool
starts [] w = true
starts (c ∷ q) [] = false
starts (c ∷ q) (d ∷ w) = c == d && starts q w

-- A name of a live tree.
some_word : Node → List ℕ
some_word (node b nil) = []
some_word (node b (cons c m cs)) = c ∷ some_word m

has-some_word : (n : Node) → Live n → is_dead n ≡ false → has (some_word n) n ≡ true
unfolding has some_word get_child find is_dead
has-some_word (node b nil) l d = ground arith
has-some_word (node b (cons c m cs)) l d = ground (arith, has-some_word m l.1 l.0, ==_refl c)

abbrev Meaning : List ℕ → Node → Found → Type 0
Meaning q n (no_error r) =
    (has r n ≡ true)
    × (starts q r ≡ true)
    × ((w : List ℕ) → (has w n && starts q w && not (same w r)) ≡ false)
Meaning q n too_ambiguous =
    (v : List ℕ) × (w : List ℕ) × (has v n ≡ true)
    × (has w n ≡ true)
    × (starts q v ≡ true)
    × (starts q w ≡ true)
    × (same v w ≡ false)
Meaning q n not_online = (w : List ℕ) → (has w n && starts q w) ≡ false

at_child :
    (q w : List ℕ) (c d : ℕ) (n m : Node)
    → get_child c n ≡ some m
    → (has (d ∷ w) n && starts (c ∷ q) (d ∷ w)) ≡ (c == d && (has w m && starts q w))
unfolding has
at_child q w c d n m e = elim (Bool-cases (c == d)) [
  | inl k ↦ rw (← (==_iff c d).0 k, e, ==_refl c)
  | inr k ↦ ground arith
]

child_unique :
    (q w : List ℕ) (c : ℕ) (n m : Node) (r : List ℕ)
    → get_child c n ≡ some m
    → ((v : List ℕ) → (has v m && starts q v && not (same v r)) ≡ false)
    → (has w n && starts (c ∷ q) w && not (same w (c ∷ r))) ≡ false
child_unique q [] c n m r e u = ground arith
child_unique q (d ∷ w) c n m r e u =
    ground (arith, at_child q w c d n m e, u w, ==_iff c d, ==_iff d c)

child_missing :
    (q w : List ℕ) (c : ℕ) (n m : Node)
    → get_child c n ≡ some m
    → ((v : List ℕ) → (has v m && starts q v) ≡ false)
    → (has w n && starts (c ∷ q) w) ≡ false
child_missing q [] c n m e u = ground arith
child_missing q (d ∷ w) c n m e u = ground (arith, at_child q w c d n m e, u w)

only_unique :
    (w : List ℕ) (c : ℕ) (m : Node) (r : List ℕ)
    → ((v : List ℕ) → (has v m && true && not (same v r)) ≡ false)
    → (has w (node false (cons c m nil)) && true && not (same w (c ∷ r))) ≡ false
unfolding has get_child find
only_unique [] c m r u = refl
only_unique (d ∷ w) c m r u = ground (arith, u w)

only_missing :
    (w : List ℕ) (c : ℕ) (m : Node)
    → ((v : List ℕ) → (has v m && true) ≡ false)
    → (has w (node false (cons c m nil)) && true) ≡ false
unfolding has get_child find
only_missing [] c m u = refl
only_missing (d ∷ w) c m u = ground (arith, u w)

-- Through a child that the query asks for.
child-Meaning :
    (q : List ℕ) (c : ℕ) (n m : Node) (r : Found)
    → get_child c n ≡ some m
    → Meaning q m r
    → Meaning (c ∷ q) n (prepend c r)
unfolding has
child-Meaning q c n m (no_error r) e (h, s, u) =
    (rw e h, ground (arith, ==_refl c), λ w. child_unique q w c n m r e u)
child-Meaning q c n m too_ambiguous e (v, w, hv, hw, sv, sw, d) = (
  c ∷ v,
  c ∷ w,
  rw e hv,
  rw e hw,
  ground (arith, ==_refl c),
  ground (arith, ==_refl c),
  ground arith,
)
child-Meaning q c n m not_online e h = λ w. child_missing q w c n m e h

-- Through an only child below a node that is no breakpoint.
only-Meaning :
    (c : ℕ) (m : Node) (r : Found)
    → Meaning [] m r
    → Meaning [] (node false (cons c m nil)) (prepend c r)
unfolding has get_child find
only-Meaning c m (no_error r) (h, s, u) =
    (ground (arith, ==_refl c), refl, λ w. only_unique w c m r u)
only-Meaning c m too_ambiguous (v, w, hv, hw, sv, sw, d) =
    (c ∷ v, c ∷ w, ground (arith, ==_refl c), ground (arith, ==_refl c), refl, refl, ground arith)
only-Meaning c m not_online h = λ w. only_missing w c m h

complete-Meaning : (n : Node) → Live n → is_dead n ≡ false → Meaning [] n (complete n)
unfolding complete has get_child find is_dead
complete-Meaning (node b nil) l d = (
  ground arith,
  refl,
  λ w. elim w as (λ v. (has v (node b nil) && true && not (same v [])) ≡ false) [
    | [] ↦ ground arith
    | c ∷ r ↦ refl
  ],
)
complete-Meaning (node true (cons c m nil)) l d = (
  [],
  c ∷ some_word m,
  refl,
  ground (arith, ==_refl c, has-some_word m l.1 l.0),
  refl,
  refl,
  refl,
)
complete-Meaning (node false (cons c m nil)) l d =
    only-Meaning c m (complete m) (complete-Meaning m l.1 l.0)
complete-Meaning (node b (cons c m (cons e k cs))) l d = (
  c ∷ some_word m,
  e ∷ some_word k,
  ground (arith, ==_refl c, has-some_word m l.1 l.0),
  ground (arith, ==_refl e, has-some_word k l.3.1 l.3.0, ==_iff e c),
  refl,
  refl,
  ground arith,
)

missing-Meaning :
    (q w : List ℕ) (c : ℕ) (n : Node) → get_child c n ≡ none → (has w n && starts (c ∷ q) w) ≡ false
unfolding has
missing-Meaning q [] c n e = ground arith
missing-Meaning q (d ∷ w) c n e = elim (Bool-cases (c == d)) [
  | inl k ↦ rw (← (==_iff c d).0 k, e)
  | inr k ↦ ground arith
]

find_one-Meaning : (q : List ℕ) (n : Node) → Live n → is_dead n ≡ false → Meaning q n (find_one q n)
unfolding find_one
find_one-Meaning [] n l d = complete-Meaning n l d
find_one-Meaning (c ∷ q) n l d = elim (Option-cases (get_child c n)) [
  | inl e ↦ rw e (λ w. missing-Meaning q w c n e)
  | inr (m, e) ↦
      let h = get_child-Live c n m l e in
      rw e (child-Meaning q c n m (find_one q m) e (find_one-Meaning q m h.0 h.1))
]

-- In a live tree that holds a name: where `findOne` answers a name, that name is in the tree, begins
-- with the query, and is the only one that does.
pub find_one-no_error :
    (q r w : List ℕ) (n : Node)
    → Live n
    → is_dead n ≡ false
    → find_one q n ≡ no_error r
    → (has r n ≡ true) × (starts q r ≡ true) × ((has w n && starts q w && not (same w r)) ≡ false)
find_one-no_error q r w n l d e = let h = rw e at (find_one-Meaning q n l d) in (h.0, h.1, h.2 w)

-- In a live tree that holds a name: where `findOne` answers that the name is not online, no name of
-- the tree begins with the query; where it answers that the query is too ambiguous, two different
-- names do; otherwise it answers a name.
pub find_one_refusal :
    (q w : List ℕ) (n : Node) (refusal : Found)
    → Live n
    → is_dead n ≡ false
    → find_one q n ≡ refusal
    → ((refusal ≡ not_online) × ((has w n && starts q w) ≡ false))
      ⊎ ((refusal ≡ too_ambiguous)
          × ((u : List ℕ) × (v : List ℕ) × (has u n ≡ true)
              × (has v n ≡ true)
              × (starts q u ≡ true)
              × (starts q v ≡ true)
              × (same u v ≡ false)))
      ⊎ ((r : List ℕ) × (refusal ≡ no_error r))
find_one_refusal q w n (no_error r) l d e = inr (inr (r, refl))
find_one_refusal q w n too_ambiguous l d e = inr (inl (refl, rw e at (find_one-Meaning q n l d)))
find_one_refusal q w n not_online l d e = inl (refl, (rw e at (find_one-Meaning q n l d)) w)
