-- ===== src/Wildcard/Names.antt =====
-- The tree of names of src/wildcardtree.cpp as a set of names.
use otxserver.Common.{ℕ, ◌≡◌, refl, ap, ◌∙◌, Bool, not, ◌&&◌, ◌||◌, List, [], ◌∷◌}
use otxserver.Wildcard.{Node, insert_path, remove}
use otxserver.Wildcard.Words.{has, same, has-insert_path}
use otxserver.Wildcard.Removal.{has-remove}
use otxserver.Wildcard.Live.{Op, run}

-- The same calls on a set of names.
unfoldable pub replay : List Op → (List ℕ → Bool) → List ℕ → Bool
replay [] names w = names w
replay (Op.adds c s ∷ ops) names w = replay ops (λ v. same v (c ∷ s) || names v) w
replay (Op.drops s ∷ ops) names w = replay ops (λ v. names v && not (same v s)) w

replay-ext :
    (ops : List Op) (m n : List ℕ → Bool) (w : List ℕ)
    → ((v : List ℕ) → m v ≡ n v)
    → replay ops m w ≡ replay ops n w
unfolding replay
replay-ext [] m n w h = h w
replay-ext (Op.adds c s ∷ ops) m n w h =
    replay-ext ops (λ v. same v (c ∷ s) || m v) (λ v. same v (c ∷ s) || n v) w
      (λ v. ap (λ b. same v (c ∷ s) || b) (h v))
replay-ext (Op.drops s ∷ ops) m n w h =
    replay-ext ops (λ v. m v && not (same v s)) (λ v. n v && not (same v s)) w
      (λ v. ap (λ b. b && not (same v s)) (h v))

-- The tree refines a set of names: after any insertions of names that are not empty, and removals, it
-- holds exactly the names that a set does after the same calls.
pub run-has :
    (ops : List Op) (n : Node) (w : List ℕ) → has w (run ops n) ≡ replay ops (λ v. has v n) w
unfolding run replay
run-has [] n w = refl
run-has (Op.adds c s ∷ ops) n w =
    run-has ops (insert_path (c ∷ s) n) w
    ∙ replay-ext ops (λ v. has v (insert_path (c ∷ s) n)) (λ v. same v (c ∷ s) || has v n) w
        (λ v. has-insert_path c s v n)
run-has (Op.drops s ∷ ops) n w =
    run-has ops (remove s n) w
    ∙ replay-ext ops (λ v. has v (remove s n)) (λ v. has v n && not (same v s)) w
        (λ v. has-remove s v n)
