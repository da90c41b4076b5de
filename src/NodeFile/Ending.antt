-- ===== src/NodeFile/Ending.antt =====
-- The end of `parseNode` of src/fileloader.cpp, on any bytes.
use otxserver.Common.{
  ℕ, zero, suc, ◌+◌, ◌^◌, ◌≤◌, ◌<◌, ◌≡◌, false, ◌||◌, leb, List, [], ◌∷◌, arith, ltb, ◌==◌,
  if_intro, length, take, drop,
}
use otxserver.NodeFile.{
  Current, Parsed, out_of_fuel, failed, too_long, parsed, sized, sized_once, after_end, with_next,
  with_child, skip_one, parse_node, parse_props, from_root, same, open_file, node_start, node_end,
  escape_char,
}

-- That it ended, with no more bytes than a number.
abbrev pub Ended : ℕ → Parsed → Type 0
Ended k out_of_fuel = ⊥
Ended k too_long = ⊥
Ended k failed = Unit {0}
Ended k (parsed n pos bs) = length bs ≤ k

more : (k m : ℕ) (p : Parsed) → k ≤ m → Ended k p → Ended m p
more k m out_of_fuel h e = e
more k m too_long h e = e
more k m failed h e = tt
more k m (parsed n pos bs) h e = omega arith

with_next-Ended : (k : ℕ) (n : Current) (p : Parsed) → Ended k p → Ended k (with_next n p)
with_next-Ended k n out_of_fuel e = e
with_next-Ended k n too_long e = e
with_next-Ended k n failed e = tt
with_next-Ended k n (parsed next pos bs) e = e

abbrev PropsEnd : ℕ → Type 0
PropsEnd fuel =
    (n : Current) (pos : ℕ) (bs : List ℕ)
    → length bs < fuel
    → Ended (length bs) (parse_props fuel n pos bs)

abbrev NodeEnd : ℕ → Type 0
NodeEnd fuel =
    (start pos : ℕ) (bs : List ℕ)
    → length bs < fuel
    → Ended (length bs) (parse_node fuel start pos bs)

after_end-Ended :
    (fuel start from : ℕ) (n : Current) (pos : ℕ) (bs : List ℕ)
    → NodeEnd fuel
    → length bs < fuel
    → Ended (length bs) (after_end (parse_node fuel start from) n pos bs)
after_end-Ended fuel start from n pos [] h k = omega arith
after_end-Ended fuel start from n pos (b ∷ bs) h k =
    if_intro (Ended (suc (length bs))) (b == node_start)
      (more (length bs) _ _ (omega arith)
        (with_next-Ended (length bs) n _ (h start from bs (omega arith))))
      (if_intro (Ended (suc (length bs))) (b == node_end) (omega arith) tt)

with_child-Ended :
    (fuel k : ℕ) (n : Current) (p : Parsed)
    → PropsEnd fuel
    → k < fuel
    → Ended k p
    → Ended k (with_child (parse_props fuel) n p)
with_child-Ended fuel k n out_of_fuel h l e = e
with_child-Ended fuel k n too_long h l e = e
with_child-Ended fuel k n failed h l e = tt
with_child-Ended fuel k n (parsed c pos bs) h l e =
    more (length bs) k _ e (h (record n { child = c }) pos bs (omega arith))

skip_one-Ended :
    (fuel : ℕ) (n : Current) (pos : ℕ) (bs : List ℕ)
    → PropsEnd fuel
    → length bs < fuel
    → Ended (length bs) (skip_one (parse_props fuel n) pos bs)
skip_one-Ended fuel n pos [] h l = tt
skip_one-Ended fuel n pos (b ∷ bs) h l =
    more (length bs) _ _ (omega arith) (h n (pos + 1) bs (omega arith))

props-Ended : (fuel : ℕ) → NodeEnd fuel → PropsEnd fuel → PropsEnd (suc fuel)
unfolding parse_node parse_props
props-Ended fuel u v n pos [] l = tt
props-Ended fuel u v n pos (b ∷ bs) l =
    let k : length bs ≤ suc (length bs) = omega arith in
    let P = Ended (suc (length bs)) in
    if_intro P (b == node_start)
      (more (length bs) _ _ k (
        with_child-Ended fuel (length bs) (sized n pos) _ v (omega arith)
          (u pos (pos + 1) bs (omega arith))))
      (if_intro P (b == node_end)
        (more (length bs) _ _ k (
          after_end-Ended fuel (pos + 1) (pos + 2) (sized_once n pos) (pos + 1) bs u (omega arith)))
        (if_intro P (b == escape_char)
          (more (length bs) _ _ k (skip_one-Ended fuel n (pos + 1) bs v (omega arith)))
          (more (length bs) _ _ k (v n (pos + 1) bs (omega arith)))))

node-Ended : (fuel : ℕ) → PropsEnd fuel → NodeEnd (suc fuel)
unfolding parse_node parse_props
node-Ended fuel v start pos [] l = tt
node-Ended fuel v start pos (b ∷ bs) l =
    more (length bs) _ _ (omega arith) (v _ (pos + 1) bs (omega arith))

both-Ended : (fuel : ℕ) → NodeEnd fuel × PropsEnd fuel
both-Ended zero = (λ start pos bs l. absurd (omega arith), λ n pos bs l. absurd (omega arith))
both-Ended (suc fuel) = let h = both-Ended fuel in (node-Ended fuel h.1, props-Ended fuel h.0 h.1)

from_root-Ended :
    (fuel : ℕ) (bs : List ℕ) → length bs ≤ fuel → Ended (length bs) (from_root fuel bs)
from_root-Ended fuel [] l = tt
from_root-Ended fuel (b ∷ bs) l =
    if_intro (Ended (suc (length bs))) (b == node_start)
      (more (length bs) _ _ (omega arith) ((both-Ended fuel).0 4 5 bs (omega arith))) tt

length-drop : (n : ℕ) (xs : List ℕ) → length (drop n xs) ≤ length xs
length-drop zero xs = omega arith
length-drop (suc n) [] = omega arith
length-drop (suc n) (x ∷ xs) = omega (arith, length-drop n xs)

-- The reading of a file of less than 2 ^ 31 bytes ends, whatever its bytes and the identifier that is
-- accepted: with fuel for as many steps as the file has bytes it never runs out of fuel, so it fails or
-- gives a root, and it leaves no more bytes than the file has.
pub open_file-Ended :
    (fuel : ℕ) (accept_identifier file : List ℕ)
    → length file < 2 ^ 31
    → length file ≤ fuel
    → Ended (length file) (open_file fuel accept_identifier file)
unfolding open_file
open_file-Ended fuel accept file b h =
    let short : leb (2 ^ 31) (length file) ≡ false = ground arith in
    let l = length-drop 4 file in
    let e =
      more (length (drop 4 file)) (length file) _ l
        (from_root-Ended fuel (drop 4 file) (omega (arith, l))) in
    rw short (
      if_intro (Ended (length file)) (ltb (length (take 4 file)) 4) tt (
        if_intro (Ended (length file))
          (same (take 4 file) accept || same (take 4 file) (0 ∷ 0 ∷ 0 ∷ 0 ∷ [])) e tt))
