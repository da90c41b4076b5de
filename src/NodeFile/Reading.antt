-- ===== src/NodeFile/Reading.antt =====
-- What `parseNode` of src/fileloader.cpp makes of the bytes of a tree.
use otxserver.Common.{
  ℕ, zero, suc, ◌+◌, ◌-◌, ◌≤◌, ◌≡◌, refl, sym, ap, ◌∙◌, inl, inr, true, false, List, [], ◌∷◌, ◌++◌,
  arith, ◌==◌, Bool-cases, length, length-append,
}
use mathlib.Core.Path.{subst}
use otxserver.NodeFile.{
  node_start, node_end, escape_char, is_mark, NodeStruct, null, node, parsed, Current, finish,
  sized, sized_once, with_next, with_child, parse_node, parse_props,
}
use otxserver.NodeFile.Escapes.{escape, append_assoc}

-- A node with its type, its properties and its children, and the nodes after it; or no node.
pub data Forest : Type 0 where
  nil : Forest
  tree : ℕ → List ℕ → Forest → Forest → Forest

abbrev pub bytes : Forest → List ℕ
bytes nil = []
bytes (tree type ps kids rest) =
    node_start ∷ type ∷ (escape ps ++ (bytes kids ++ (node_end ∷ bytes rest)))

-- The nodes of a forest whose bytes start at a position.
abbrev pub nodes : Forest → ℕ → NodeStruct
nodes nil start = null
nodes (tree type ps kids rest) start =
    let pos = start + 2 + length (escape ps) in
    node start (length (escape ps)) type (nodes rest (pos + length (bytes kids) + 1))
      (nodes kids pos)

-- The fuel that its reading takes.
abbrev pub cost : Forest → ℕ
cost nil = 0
cost (tree type ps kids rest) = 3 + length ps + cost kids + cost rest

-- What may stand after a forest: the end of the file, or that of the parent.
abbrev pub Closed : List ℕ → Type 0
Closed [] = Unit
Closed (b ∷ bs) = b ≡ node_end

-- Fuel for the properties, and more.
abbrev with_fuel : List ℕ → ℕ → ℕ
with_fuel [] fuel = fuel
with_fuel (c ∷ cs) fuel = suc (with_fuel cs fuel)

with_fuel_lem : (ps : List ℕ) (fuel : ℕ) → with_fuel ps fuel ≡ length ps + fuel
with_fuel_lem [] fuel = omega arith
with_fuel_lem (c ∷ cs) fuel = omega (arith, with_fuel_lem cs fuel)

parse_props-escape :
    (fuel : ℕ) (n : Current) (pos : ℕ) (ps post : List ℕ)
    → parse_props (with_fuel ps fuel) n pos (escape ps ++ post)
      ≡ parse_props fuel n (pos + length (escape ps)) post
unfolding parse_node parse_props escape
parse_props-escape fuel n pos [] post = ap (λ p. parse_props fuel n p post) (omega arith)
parse_props-escape fuel n pos (c ∷ cs) post = elim (Bool-cases (is_mark c)) [
  | inl e ↦ rw e (
      parse_props-escape fuel n (pos + 1 + 1) cs post
      ∙ ap (λ p. parse_props fuel n p post) (omega arith))
  | inr e ↦
      let a : (c == node_start) ≡ false = ground arith in
      let b : (c == node_end) ≡ false = ground arith in
      let d : (c == escape_char) ≡ false = ground arith in
      rw (e, a, b, d)
        (parse_props-escape fuel n (pos + 1) cs post
          ∙ ap (λ p. parse_props fuel n p post) (omega arith))
]

-- The same, with fuel counted.
pub parse_props-props :
    (k fuel : ℕ) (n : Current) (pos : ℕ) (ps post : List ℕ)
    → k ≡ length ps + fuel
    → parse_props k n pos (escape ps ++ post) ≡ parse_props fuel n (pos + length (escape ps)) post
parse_props-props k fuel n pos ps post h =
    subst
      (λ u.
        parse_props u n pos (escape ps ++ post)
        ≡ parse_props fuel n (pos + length (escape ps)) post)
      (sym (h ∙ sym (with_fuel_lem ps fuel))) (parse_props-escape fuel n pos ps post)

-- That a forest is read, after the mark of its first node, whatever may stand after it.
abbrev tail_of : Forest → List ℕ
tail_of nil = []
tail_of (tree type ps kids rest) = type ∷ (escape ps ++ (bytes kids ++ (node_end ∷ bytes rest)))

abbrev pub Reads : Forest → Type 0
Reads nil = Unit
Reads (tree type ps kids rest) =
    (fuel start : ℕ) (post : List ℕ)
    → cost (tree type ps kids rest) ≤ fuel
    → Closed post
    → parse_node fuel start (start + 1) (tail_of (tree type ps kids rest) ++ post)
      ≡ parsed (nodes (tree type ps kids rest) start)
          (start + length (bytes (tree type ps kids rest))) post

-- The end of a node, and its siblings.
close :
    (rest : Forest)
    → Reads rest
    → (fuel : ℕ) (n : Current) (pos : ℕ) (post : List ℕ) → cost rest ≤ fuel
    → Closed post
    → parse_props (suc fuel) n pos (node_end ∷ (bytes rest ++ post))
      ≡ parsed
          (finish (sized_once n pos) (nodes rest (pos + 1)))
          (pos + 1 + length (bytes rest))
          post
unfolding parse_node parse_props
close nil r fuel n pos [] h c = ap (λ p. parsed (finish (sized_once n pos) null) p []) (omega arith)
close nil r fuel n pos (b ∷ bs) h c =
    let a : (b == node_start) ≡ false = ground arith in
    let e : (b == node_end) ≡ true = ground arith in
    rw (a, e) (ap (λ p. parsed (finish (sized_once n pos) null) p (b ∷ bs)) (omega arith))
close (tree type ps kids rest) r fuel n pos post h c = ap (with_next (sized_once n pos)) (
    ap (λ p. parse_node fuel (pos + 1) p (tail_of (tree type ps kids rest) ++ post)) (omega arith)
    ∙ r fuel (pos + 1) post h c)

-- A node whose properties are read next.
abbrev opened : ℕ → ℕ → Current
opened start type = record {
  start = start;
  type = type;
  props_size = 0;
  is_set = false;
  child = null;
}

parse_kids :
    (kids rest : Forest)
    → Reads kids
    → Reads rest
    → (fuel start type pos : ℕ) (post : List ℕ) → cost kids + cost rest ≤ fuel
    → Closed post
    → parse_props
        (suc (suc fuel))
        (opened start type)
        pos
        (bytes kids ++ (node_end ∷ (bytes rest ++ post)))
      ≡ parsed
          (node start
            (pos - start - 2)
            type
            (nodes rest (pos + length (bytes kids) + 1))
            (nodes kids pos))
          (pos + length (bytes kids) + 1 + length (bytes rest))
          post
unfolding parse_node parse_props
parse_kids nil rest u r fuel start type pos post h c =
    close rest r (suc fuel) (opened start type) pos post (omega (arith, h)) c
    ∙ ap
        (λ p.
          parsed (node start (pos - start - 2) type (nodes rest (p + 1)) null)
            (p + 1 + length (bytes rest)) post)
        (omega arith)
parse_kids (tree t ps ks next) rest u r fuel start type pos post h c =
    let n : Current = sized (opened start type) pos in
    let kids = tree t ps ks next in
    ap (with_child (parse_props (suc fuel)) n)
      (u (suc fuel) pos (node_end ∷ (bytes rest ++ post)) (omega (arith, h)) refl)
    ∙ close rest r fuel (record n { child = nodes kids pos }) (pos + length (bytes kids)) post
        (omega (arith, h)) c

pub append_twice :
    (xs ys : List ℕ) (b : ℕ) (zs post : List ℕ)
    → (xs ++ (ys ++ (b ∷ zs))) ++ post ≡ xs ++ (ys ++ (b ∷ (zs ++ post)))
append_twice xs ys b zs post =
    append_assoc xs (ys ++ (b ∷ zs)) post ∙ ap (λ u. xs ++ u) (append_assoc ys (b ∷ zs) post)

pub length_twice :
    (xs ys : List ℕ) (b : ℕ) (zs : List ℕ)
    → length (xs ++ (ys ++ (b ∷ zs))) ≡ length xs + length ys + 1 + length zs
length_twice xs ys b zs =
    omega (arith, length-append xs (ys ++ (b ∷ zs)), length-append ys (b ∷ zs))

same_end :
    (start type size end pos stop : ℕ) (next child : NodeStruct) (post : List ℕ)
    → size ≡ pos
    → end ≡ stop
    → parsed (node start size type next child) end post
      ≡ parsed (node start pos type next child) stop post
same_end start type size end pos stop next child post h k =
    ap (λ u. parsed (node start u type next child) end post) h
    ∙ ap (λ u. parsed (node start pos type next child) u post) k

tree-Reads :
    (type : ℕ) (ps : List ℕ) (kids rest : Forest)
    → Reads kids
    → Reads rest
    → Reads (tree type ps kids rest)
unfolding parse_node
tree-Reads type ps kids rest u r zero start post h c = absurd (omega (arith, h))
tree-Reads type ps kids rest u r (suc fuel) start post h c =
    let e = length (escape ps) in
    let n = opened start type in
    let bs = bytes kids ++ (node_end ∷ (bytes rest ++ post)) in
    let next = nodes rest (start + 2 + e + length (bytes kids) + 1) in
    ap (parse_props fuel n (start + 1 + 1))
      (append_twice (escape ps) (bytes kids) node_end (bytes rest) post)
    ∙ parse_props-props fuel (suc (suc (fuel - length ps - 2))) n (start + 1 + 1) ps bs
        (omega (arith, h))
    ∙ ap (λ p. parse_props (suc (suc (fuel - length ps - 2))) n p bs) (omega arith)
    ∙ parse_kids kids rest u r (fuel - length ps - 2) start type (start + 2 + e) post
        (omega (arith, h)) c
    ∙ same_end start type _ _ _ _ next (nodes kids (start + 2 + e)) post (omega arith)
        (omega (arith, length_twice (escape ps) (bytes kids) node_end (bytes rest)))

pub parse_node-Reads : (fs : Forest) → Reads fs
parse_node-Reads nil = tt
parse_node-Reads (tree type ps kids rest) =
    tree-Reads type ps kids rest (parse_node-Reads kids) (parse_node-Reads rest)
