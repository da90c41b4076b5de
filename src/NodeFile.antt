-- ===== src/NodeFile.antt =====
-- Node files, in src/fileloader.h and src/fileloader.cpp: trees of typed nodes with properties, written
-- with two marks and an escape character. A file is its bytes: the cache of blocks, which only reads
-- them sooner, and the failures of the disk are not modelled. Positions in a file are int32_t: what is read
-- of a file of 2 ^ 31 bytes or more is not modelled.
pub mod Escapes
pub mod Reading
pub mod Ending
pub mod RoundTrip
mod Tests
use otxserver.Common.{
  ℕ, zero, suc, ◌+◌, ◌-◌, ◌*◌, ◌/◌, ◌%◌, ◌^◌, ◌≤◌, ◌<◌, min, max, ◌≡◌, refl, sym, ap, ◌∙◌, ◌≢◌, ◌↔◌,
  ◌⊎◌, inl, inr, Bool, true, false, not, ◌&&◌, ◌||◌, Option, none, some, List, [], ◌∷◌, ◌++◌, map,
  arith, ltb, leb, ◌==◌, if◌then◌else◌, ltb→lt, lt→ltb, leb→le, ==_iff, ==_refl, Bool-cases,
  Option-cases, dist, if_intro, length, get_elem?, get_or, set, take, drop, length-append,
  take-append, drop-append, All, All-append,
}

abbrev pub node_start : ℕ
node_start = 0xFE

abbrev pub node_end : ℕ
node_end = 0xFF

abbrev pub escape_char : ℕ
escape_char = 0xFD

-- `writeData` at the end of a file: `unescape` writes an escape character before each mark.
abbrev pub is_mark : ℕ → Bool
is_mark c = c == node_start || (c == node_end || c == escape_char)

unfoldable pub write_data : List ℕ → Bool → List ℕ → List ℕ
write_data [] unescape file = file
write_data (c ∷ cs) unescape file =
    write_data cs unescape
      (if unescape && is_mark c then file ++ (escape_char ∷ c ∷ []) else file ++ (c ∷ []))

-- `setProps`, whose size is a uint16_t.
unfoldable pub set_props : List ℕ → List ℕ → List ℕ
set_props ps file = write_data (take (length ps % 2 ^ 16) ps) true file

-- `startNode` and `endNode`
unfoldable pub start_node : ℕ → List ℕ → List ℕ
start_node type file = write_data (type ∷ []) true (write_data (node_start ∷ []) false file)

unfoldable pub end_node : List ℕ → List ℕ
end_node file = write_data (node_end ∷ []) false file

-- `openFile` of a file that is to be written: the identifier 0.
abbrev pub new_file : List ℕ
new_file = write_data (0 ∷ 0 ∷ 0 ∷ 0 ∷ []) false []

-- `NodeStruct`: `start`, `propsSize`, `type`, `next` and `child`.
pub data NodeStruct : Type 0 where
  null : NodeStruct
  node : ℕ → ℕ → ℕ → NodeStruct → NodeStruct → NodeStruct

-- How `parseNode` ends: with the nodes, the position in the file and the bytes from there on. A file that
-- is too long for the model has an answer of its own.
pub data Parsed : Type 0 where
  out_of_fuel failed too_long : Parsed
  parsed : NodeStruct → ℕ → List ℕ → Parsed

-- A node whose properties are read.
pub record Current : Type 0 where
  pub start : ℕ
  pub type : ℕ
  pub props_size : ℕ
  pub is_set : Bool
  pub child : NodeStruct

-- The sizes are uint32_t and the positions int32_t, in a file of less than 2 ^ 31 bytes.
abbrev pub sized : Current → ℕ → Current
sized n pos = record n { props_size = pos - n.start - 2; is_set = true }

abbrev pub sized_once : Current → ℕ → Current
sized_once n pos = if n.is_set then n else sized n pos

abbrev pub finish : Current → NodeStruct → NodeStruct
finish n next = node n.start n.props_size n.type next n.child

abbrev pub with_next : Current → Parsed → Parsed
with_next n out_of_fuel = out_of_fuel
with_next n failed = failed
with_next n too_long = too_long
with_next n (parsed next pos bytes) = parsed (finish n next) pos bytes

-- After the end of a node: the end of the file, the next node, or the end of the parent, which is left
-- to be read again.
abbrev pub after_end : (List ℕ → Parsed) → Current → ℕ → List ℕ → Parsed
after_end next n pos [] = parsed (finish n null) pos []
after_end next n pos (b ∷ bytes) =
    if b == node_start
    then with_next n (next bytes)
    else (if b == node_end then parsed (finish n null) pos (b ∷ bytes) else failed)

abbrev pub with_child : (Current → ℕ → List ℕ → Parsed) → Current → Parsed → Parsed
with_child rest n out_of_fuel = out_of_fuel
with_child rest n failed = failed
with_child rest n too_long = too_long
with_child rest n (parsed child pos bytes) = rest (record n { child = child }) pos bytes

-- `readByte` after an escape character.
abbrev pub skip_one : (ℕ → List ℕ → Parsed) → ℕ → List ℕ → Parsed
skip_one rest pos [] = failed
skip_one rest pos (b ∷ bytes) = rest (pos + 1) bytes

-- `parseNode`, on fuel: a node that starts at `start`, read from its type on, with all its siblings; and
-- its inner loop. `pos` is the position of the first of the bytes.
unfoldable mutual
  pub parse_node : ℕ → ℕ → ℕ → List ℕ → Parsed
  parse_node zero start pos bytes = out_of_fuel
  parse_node (suc fuel) start pos [] = failed
  parse_node (suc fuel) start pos (b ∷ bytes) =
      parse_props fuel
        (record { start = start; type = b; props_size = 0; is_set = false; child = null }) (pos + 1)
        bytes

  pub parse_props : ℕ → Current → ℕ → List ℕ → Parsed
  parse_props zero n pos bytes = out_of_fuel
  parse_props (suc fuel) n pos [] = failed
  parse_props (suc fuel) n pos (b ∷ bytes) =
      let child = parse_node fuel pos (pos + 1) bytes in
      let siblings = parse_node fuel (pos + 1) (pos + 2) in
      let skipped = parse_props fuel n in
      let more = parse_props fuel n (pos + 1) bytes in
      if b == node_start
      then with_child (parse_props fuel) (sized n pos) child
      else (if b == node_end
          then after_end siblings (sized_once n pos) (pos + 1) bytes
          else (if b == escape_char then skip_one skipped (pos + 1) bytes else more))

-- The root, if there is one.
abbrev pub root_of : Parsed → Option NodeStruct
root_of out_of_fuel = none
root_of failed = none
root_of too_long = none
root_of (parsed n pos bytes) = some n

abbrev pub from_root : ℕ → List ℕ → Parsed
from_root fuel [] = failed
from_root fuel (b ∷ bytes) = if b == node_start then parse_node fuel 4 5 bytes else failed

abbrev pub same : List ℕ → List ℕ → Bool
same [] [] = true
same [] (d ∷ ds) = false
same (c ∷ cs) [] = false
same (c ∷ cs) (d ∷ ds) = c == d && same cs ds

-- `openFile` of a file that is to be read, with an identifier of four bytes that it accepts; the file
-- has less than 2 ^ 31 bytes.
unfoldable pub open_file : ℕ → List ℕ → List ℕ → Parsed
open_file fuel accept_identifier file =
    let identifier = take 4 file in
    let rest = from_root fuel (drop 4 file) in
    if leb (2 ^ 31) (length file)
    then too_long
    else (if ltb (length identifier) 4
        then failed
        else (if same identifier accept_identifier || same identifier (0 ∷ 0 ∷ 0 ∷ 0 ∷ [])
            then rest
            else failed))

-- The loop of `getProps` over the bytes of a node; an escape character at their end takes what the
-- buffer holds beyond, `beyond`.
unfoldable pub unescape : ℕ → List ℕ → List ℕ
unescape beyond [] = []
unescape beyond (b ∷ []) = if b == escape_char then beyond ∷ [] else b ∷ []
unescape beyond (b ∷ c ∷ bytes) =
    let skipped = c ∷ unescape beyond bytes in
    let kept = b ∷ unescape beyond (c ∷ bytes) in if b == escape_char then skipped else kept

-- `getProps`: none where the file is too short, or where the position is negative as an int32_t.
unfoldable pub get_props : ℕ → List ℕ → NodeStruct → Option (List ℕ)
get_props beyond file null = none
get_props beyond file (node start props_size type next child) =
    let pos = (start + 2) % 2 ^ 32 in
    let bytes = take props_size (drop pos file) in
    if leb (2 ^ 31) pos
    then none
    else (if length bytes == props_size then some (unescape beyond bytes) else none)
