-- ===== src/NodeFile/Tests.antt =====
-- A map of two tiles, written and read back, a node whose type is a mark, and a file that is cut off.
use otxserver.Common.{ℕ, ◌≡◌, refl, none, some, List, [], ◌∷◌, arith}
use otxserver.NodeFile.{
  new_file, end_node, write_data, set_props, start_node, parse_node, open_file, root_of, failed,
}
use otxserver.NodeFile.Reading.{Forest, nil, tree}
use otxserver.NodeFile.Ending.{Ended, open_file-Ended}
use otxserver.NodeFile.RoundTrip.{write_forest, load_root, load, load-write_forest}

abbrev otbm : List ℕ
otbm = b'O' ∷ b'T' ∷ b'B' ∷ b'M' ∷ []

abbrev tiles : Forest
tiles = tree 5 (0xFD ∷ 0xFE ∷ []) (tree 6 (0xFF ∷ []) nil nil) (tree 5 (1 ∷ []) nil nil)

load-write_forest_example :
    load_root 0
      (write_forest (tree 2 (7 ∷ []) tiles nil) new_file)
      (root_of (open_file 64 otbm (write_forest (tree 2 (7 ∷ []) tiles nil) new_file)))
    ≡ some (tree 2 (7 ∷ []) tiles nil)
unfolding write_forest end_node set_props start_node write_data
load-write_forest_example =
    load-write_forest 2 (7 ∷ []) tiles 64 0 otbm (ground arith) (ground arith) (ground arith)

-- `startNode` escapes a type that is a mark, and `parseNode` takes the escape character for the type and
-- the mark for the start of a child.
misread_type :
    load_root 0
      (write_forest (tree 0xFE (7 ∷ []) nil nil) new_file)
      (root_of (open_file 64 otbm (write_forest (tree 0xFE (7 ∷ []) nil nil) new_file)))
    ≡ none
unfolding write_forest open_file load end_node write_data set_props start_node parse_node
misread_type = refl

open_file-Ended_example : Ended 6 (open_file 6 otbm (0 ∷ 0 ∷ 0 ∷ 0 ∷ 0xFE ∷ 5 ∷ []))
open_file-Ended_example =
    open_file-Ended 6 otbm (0 ∷ 0 ∷ 0 ∷ 0 ∷ 0xFE ∷ 5 ∷ []) (omega arith) (omega arith)

cut_off : open_file 6 otbm (0 ∷ 0 ∷ 0 ∷ 0 ∷ 0xFE ∷ 5 ∷ []) ≡ failed
unfolding open_file parse_node
cut_off = refl
