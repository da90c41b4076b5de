-- ===== src/Wildcard/Tests.antt =====
-- The theorems on the tree of names at the names "ann", "anna" and "bob".
use otxserver.Common.{ℕ, ◌≡◌, refl, true, false, not, ◌&&◌, List, [], ◌∷◌}
use otxserver.Wildcard.{
  Node, node, nil, find_one, no_error, too_ambiguous, is_dead, insert_path, add_child, mark,
  complete, get_child, find,
}
use otxserver.Wildcard.Words.{has, same}
use otxserver.Wildcard.Live.{Live, Op, run, run-Live}
use otxserver.Wildcard.Names.{replay, run-has}
use otxserver.Wildcard.Lookup.{starts, find_one-no_error}

abbrev ann : List ℕ
ann = b'a' ∷ b'n' ∷ b'n' ∷ []

abbrev bob : List ℕ
bob = b'b' ∷ b'o' ∷ b'b' ∷ []

abbrev empty : Node
empty = node false nil

abbrev names : List Op
names =
    Op.adds b'a' (b'n' ∷ b'n' ∷ [])
    ∷ Op.adds b'a' (b'n' ∷ b'n' ∷ b'a' ∷ [])
    ∷ Op.adds b'b' (b'o' ∷ b'b' ∷ [])
    ∷ []

abbrev tree : Node
tree = run names empty

run-has_example : has bob tree ≡ replay names (λ v. has v empty) bob
run-has_example = run-has names empty bob

run-Live_example : Live tree
run-Live_example = run-Live names empty tt

tree_holds : is_dead tree ≡ false
unfolding run is_dead insert_path add_child
tree_holds = refl

bob_found : find_one (b'b' ∷ []) tree ≡ no_error bob
unfolding run find_one get_child find insert_path add_child mark complete
bob_found = refl

ann_ambiguous : find_one ann tree ≡ too_ambiguous
unfolding run find_one get_child find insert_path add_child mark complete
ann_ambiguous = refl

find_one-no_error_example :
    (has bob tree ≡ true)
    × (starts (b'b' ∷ []) bob ≡ true)
    × ((has ann tree && starts (b'b' ∷ []) ann && not (same ann bob)) ≡ false)
find_one-no_error_example =
    find_one-no_error (b'b' ∷ []) bob ann tree (run-Live names empty tt) tree_holds bob_found
