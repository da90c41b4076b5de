-- ===== src/Map/Tests.antt =====
-- The theorems on the map, from the empty tree, with two calls of `setTile`.
use otxserver.Common.{◌⊎◌, ℕ, ◌≡◌, refl, true, false, some, List, [], ◌∷◌, arith, ◌==◌, All}
use otxserver.Position.{Position}
use otxserver.Map.{QTreeNode, new_node, get_tile, set_tile}
use otxserver.Map.Tiles.{IsMap}
use otxserver.Map.Refinement.{Call, run, replay, InRange, run_refines}
use otxserver.Map.Sight.{check_sight_line, is_sight_clear, ray_fuel}
use otxserver.Map.Sight.Clear.{
  is_some, OnMap, is_sight_clear-is_some, Leads, ends, Clear, Obstructed, check_sight_line-cases,
}

new_node-IsMap : IsMap new_node
new_node-IsMap = (refl, (tt, tt, tt, tt))

abbrev calls : List Call
calls =
    record { x = 100; y = 200; z = 7; tile = 1 }
    ∷ record { x = 65535; y = 0; z = 15; tile = 2 }
    ∷ []

calls-InRange : All InRange calls
calls-InRange = ((omega arith, omega arith), ((omega arith, omega arith), tt))

run_refines_example :
    get_tile (run calls new_node) 65535 0 15 ≡ replay calls (get_tile new_node) 65535 0 15
run_refines_example =
    run_refines calls new_node 65535 0 15 new_node-IsMap calls-InRange (omega arith) (omega arith)

abbrev here : Position
here = record { x = 100; y = 200; z = 7 }

abbrev there : Position
there = record { x = 103; y = 205; z = 8 }

here-OnMap : OnMap here
here-OnMap = (omega arith, omega arith, omega arith)

there-OnMap : OnMap there
there-OnMap = (omega arith, omega arith, omega arith)

is_sight_clear-is_some_example :
    is_some (is_sight_clear ray_fuel new_node (λ t. t == 1) (λ t. false) here there false) ≡ true
is_sight_clear-is_some_example =
    is_sight_clear-is_some new_node (λ t. t == 1) (λ t. false) here there false here-OnMap
      there-OnMap (omega arith, omega arith)

-- One tile, which blocks.
abbrev one_tile : QTreeNode
one_tile = set_tile new_node 101 202 7 1

check_sight_line-cases_example :
    (qs : List (ℕ × ℕ)) × Leads (ends here there) (100, 200) qs
    × ((check_sight_line ray_fuel one_tile (λ t. true) (λ t. false) here there ≡ some true)
          × Clear one_tile (λ t. true) (λ t. false) here there qs
        ⊎ (check_sight_line ray_fuel one_tile (λ t. true) (λ t. false) here there ≡ some false)
          × Obstructed one_tile (λ t. true) (λ t. false) here there qs)
check_sight_line-cases_example =
    check_sight_line-cases one_tile (λ t. true) (λ t. false) here there here-OnMap there-OnMap
      (omega arith, omega arith) (omega arith)
