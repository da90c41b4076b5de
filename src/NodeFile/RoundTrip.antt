-- ===== src/NodeFile/RoundTrip.antt =====
-- A tree that is written with `startNode`, `setProps` and `endNode` and read back, in src/fileloader.cpp.
use otxserver.Common.{
  ℕ, zero, suc, ◌+◌, ◌%◌, ◌^◌, ◌≤◌, ◌<◌, ◌≡◌, refl, sym, ap, ◌∙◌, Bool, true, false, ◌||◌, Option,
  none, some, List, [], ◌∷◌, ◌++◌, arith, leb, ==_refl, length, drop, take-append, drop-append,
}
use otxserver.NodeFile.{
  new_file, node_start, node_end, escape_char, write_data, set_props, start_node, end_node,
  NodeStruct, null, node, root_of, same, open_file, get_props,
}
use otxserver.NodeFile.Escapes.{
  escape, append_nil, append_assoc, set_props-escape, start_node-bytes, end_node-bytes,
  length-escape, unescape-escape,
}
use otxserver.NodeFile.Reading.{
  Forest, nil, tree, bytes, nodes, cost, append_twice, length_twice, parse_node-Reads,
}

-- The calls that write a forest.
unfoldable pub write_forest : Forest → List ℕ → List ℕ
write_forest nil file = file
write_forest (tree type ps kids rest) file =
    write_forest rest (end_node (write_forest kids (set_props ps (start_node type file))))

-- What a loader finds from a node on: the types, the properties and the children.
abbrev with_rest : ℕ → List ℕ → Forest → Option Forest → Option Forest
with_rest type ps kids none = none
with_rest type ps kids (some rest) = some (tree type ps kids rest)

abbrev with_kids : ℕ → List ℕ → Option Forest → Option Forest → Option Forest
with_kids type ps none rest = none
with_kids type ps (some kids) rest = with_rest type ps kids rest

abbrev with_props : ℕ → Option (List ℕ) → Option Forest → Option Forest → Option Forest
with_props type none kids rest = none
with_props type (some ps) kids rest = with_kids type ps kids rest

unfoldable pub load : ℕ → List ℕ → NodeStruct → Option Forest
load beyond file null = some nil
load beyond file (node start size type next child) =
    with_props type (get_props beyond file (node start size type next child))
      (load beyond file child) (load beyond file next)

abbrev pub load_root : ℕ → List ℕ → Option NodeStruct → Option Forest
load_root beyond file none = none
load_root beyond file (some n) = load beyond file n

-- The types are not marks, and the sizes of the properties fit a uint16_t.
abbrev pub Writable : Forest → Type 0
Writable nil = Unit {0}
Writable (tree type ps kids rest) =
    (type < escape_char) × (length ps < 2 ^ 16) × Writable kids × Writable rest

append_four :
    (file xs ys : List ℕ) (b : ℕ) (zs : List ℕ)
    → (((file ++ xs) ++ ys) ++ (b ∷ [])) ++ zs ≡ file ++ (xs ++ (ys ++ (b ∷ zs)))
append_four file xs ys b zs =
    append_assoc ((file ++ xs) ++ ys) (b ∷ []) zs
    ∙ append_assoc (file ++ xs) ys (b ∷ zs)
    ∙ append_assoc file xs (ys ++ (b ∷ zs))

write_forest-bytes :
    (fs : Forest) (file : List ℕ) → Writable fs → write_forest fs file ≡ file ++ bytes fs
unfolding write_forest
write_forest-bytes nil file h = sym (append_nil file)
write_forest-bytes (tree type ps kids rest) file (t, p, k, r) =
    let after_props : set_props ps (start_node type file)
        ≡ file ++ (node_start ∷ type ∷ escape ps) =
      set_props-escape ps (start_node type file) p
      ∙ ap (λ u. u ++ escape ps) (start_node-bytes type file t)
      ∙ append_assoc file (node_start ∷ type ∷ []) (escape ps) in
    write_forest-bytes rest _ r
    ∙ ap (λ u. u ++ bytes rest)
        (end_node-bytes _
          ∙ ap (λ u. u ++ (node_end ∷ []))
              (write_forest-bytes kids _ k ∙ ap (λ u. u ++ bytes kids) after_props))
    ∙ append_four file (node_start ∷ type ∷ escape ps) (bytes kids) node_end (bytes rest)

drop_empty : (n : ℕ) → drop {A = ℕ} n [] ≡ []
drop_empty zero = refl
drop_empty (suc n) = refl

drop-drop : (m n : ℕ) (xs : List ℕ) → drop (m + n) xs ≡ drop n (drop m xs)
drop-drop zero n xs = let e : 0 + n ≡ n = omega arith in ap (λ k. drop k xs) e
drop-drop (suc m) n [] = drop_empty (suc m + n) ∙ sym (drop_empty n)
drop-drop (suc m) n (x ∷ xs) =
    let e : suc m + n ≡ suc (m + n) = omega arith in ap (λ k. drop k (x ∷ xs)) e ∙ drop-drop m n xs

-- What follows a part of the file.
drop_past :
    (m n : ℕ) (file xs ys : List ℕ) → drop m file ≡ xs ++ ys → n ≡ m + length xs → drop n file ≡ ys
drop_past m n file xs ys h e =
    ap (λ k. drop k file) e
    ∙ drop-drop m (length xs) file
    ∙ ap (drop (length xs)) h
    ∙ drop-append xs ys

get_props-escape :
    (beyond : ℕ) (file : List ℕ) (start type : ℕ) (next child : NodeStruct) (ps post : List ℕ)
    → start + 2 < 2 ^ 31
    → drop (start + 2) file ≡ escape ps ++ post
    → get_props beyond file (node start (length (escape ps)) type next child) ≡ some ps
unfolding get_props
get_props-escape beyond file start type next child ps post b h =
    let pos : (start + 2) % 2 ^ 32 ≡ start + 2 = omega arith in
    let low : leb (2 ^ 31) (start + 2) ≡ false = ground arith in
    rw
      (
        pos,
        low,
        h,
        take-append (escape ps) post,
        ==_refl (length (escape ps)),
        unescape-escape beyond ps,
      )
      refl

drop-inside : (n : ℕ) (xs ys : List ℕ) → drop n xs ≡ ys → 0 < length ys → n + length ys ≤ length xs
drop-inside zero xs ys h l = omega (arith, ap length h)
drop-inside (suc n) [] ys h l = absurd (omega (arith, ap length h, l))
drop-inside (suc n) (x ∷ xs) ys h l = omega (arith, drop-inside n xs ys h l)

load-nodes :
    (beyond : ℕ) (file : List ℕ) (fs : Forest) (start : ℕ) (post : List ℕ)
    → length file < 2 ^ 31
    → drop start file ≡ bytes fs ++ post
    → load beyond file (nodes fs start) ≡ some fs
unfolding load
load-nodes beyond file nil start post b h = refl
load-nodes beyond file (tree type ps kids rest) start post b h =
    let inside = drop-inside start file _ h (omega arith) in
    let e = length (escape ps) in
    let head = node_start ∷ type ∷ [] in
    let props : drop (start + 2) file
        ≡ escape ps ++ (bytes kids ++ (node_end ∷ (bytes rest ++ post))) =
      drop_past start (start + 2) file head _
        (h
          ∙ ap (λ u. node_start ∷ type ∷ u)
              (append_twice (escape ps) (bytes kids) node_end (bytes rest) post))
        (omega arith) in
    let child = drop_past (start + 2) (start + 2 + e) file (escape ps) _ props refl in
    let after =
      drop_past (start + 2 + e) (start + 2 + e + length (bytes kids)) file (bytes kids) _ child
        refl in
    let next =
      drop_past _ (start + 2 + e + length (bytes kids) + 1) file (node_end ∷ []) _ after
        (omega arith) in
    rw
      (
        get_props-escape beyond file start type
            (nodes rest (start + 2 + e + length (bytes kids) + 1)) (nodes kids (start + 2 + e)) ps _
            (omega (arith, inside, b)) props,
        load-nodes beyond file kids (start + 2 + e) (node_end ∷ (bytes rest ++ post)) b child,
        load-nodes beyond file rest (start + 2 + e + length (bytes kids) + 1) post b next,
      )
      refl

cost_bytes : (fs : Forest) → cost fs ≤ length (bytes fs)
cost_bytes nil = omega arith
cost_bytes (tree type ps kids rest) = omega (
  arith,
  length_twice (escape ps) (bytes kids) node_end (bytes rest),
  length-escape ps,
  cost_bytes kids,
  cost_bytes rest,
)

or_true : (b : Bool) → (b || true) ≡ true
or_true true = refl
or_true false = refl

open_file-bytes :
    (type : ℕ) (ps : List ℕ) (kids : Forest) (fuel : ℕ) (accept_identifier : List ℕ)
    → 4 + length (bytes (tree type ps kids nil)) ≤ fuel
    → length (0 ∷ 0 ∷ 0 ∷ 0 ∷ bytes (tree type ps kids nil)) < 2 ^ 31
    → root_of (open_file fuel accept_identifier (0 ∷ 0 ∷ 0 ∷ 0 ∷ bytes (tree type ps kids nil)))
      ≡ some (nodes (tree type ps kids nil) 4)
unfolding open_file
open_file-bytes type ps kids fuel accept h b =
    let short : leb (2 ^ 31) (length (0 ∷ 0 ∷ 0 ∷ 0 ∷ bytes (tree type ps kids nil))) ≡ false =
      ground arith in
    let l = cost_bytes (tree type ps kids nil) in
    let e = parse_node-Reads (tree type ps kids nil) fuel 4 [] (omega (arith, h, l)) tt in
    rw
      (
        short,
        or_true (same (0 ∷ 0 ∷ 0 ∷ 0 ∷ []) accept),
        ← append_nil (type ∷ (escape ps ++ (bytes kids ++ (node_end ∷ [])))),
        e,
      )
      refl

-- A tree of nodes, of types below the escape character and with fewer than 2 ^ 16 bytes of properties
-- each, that is written by `startNode`, `setProps` and `endNode` to a new file is what a loader finds in
-- that file: `openFile` accepts it whatever identifier it asks for, `parseNode` gives the same nodes in
-- the same order and depth, and `getProps` the properties that were set, marks and escape characters
-- among them included, if the file has less than 2 ^ 31 bytes. Fuel for as many steps as the file has
-- bytes is enough.
pub load-write_forest :
    (type : ℕ) (ps : List ℕ) (kids : Forest) (fuel beyond : ℕ) (accept_identifier : List ℕ)
    → Writable (tree type ps kids nil)
    → length (write_forest (tree type ps kids nil) new_file) ≤ fuel
    → length (write_forest (tree type ps kids nil) new_file) < 2 ^ 31
    → load_root beyond
        (write_forest (tree type ps kids nil) new_file)
        (root_of (open_file fuel accept_identifier (write_forest (tree type ps kids nil) new_file)))
      ≡ some (tree type ps kids nil)
unfolding write_data
load-write_forest type ps kids fuel beyond accept h l b =
    let whole = tree type ps kids nil in
    let e = write_forest-bytes whole new_file h in
    let k : 4 + length (bytes whole) ≤ fuel = omega (arith, l, ap length e) in
    let low : length (0 ∷ 0 ∷ 0 ∷ 0 ∷ bytes whole) < 2 ^ 31 = omega (arith, b, ap length e) in
    rw (e, open_file-bytes type ps kids fuel accept k low)
      (load-nodes beyond (0 ∷ 0 ∷ 0 ∷ 0 ∷ bytes whole) whole 4 [] low
        (sym (append_nil (bytes whole))))
