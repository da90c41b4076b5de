-- ===== src/NodeFile/Escapes.antt =====
-- The marks and the escape characters of src/fileloader.cpp: what `setProps` writes and `getProps` reads.
use otxserver.Common.{
  ℕ, ◌%◌, ◌^◌, ◌≤◌, ◌<◌, ◌≡◌, refl, sym, ap, ◌∙◌, inl, inr, true, false, List, [], ◌∷◌, ◌++◌, arith,
  ◌==◌, if◌then◌else◌, Bool-cases, length, take,
}
use otxserver.NodeFile.{
  escape_char, is_mark, write_data, set_props, start_node, end_node, node_start, node_end, unescape,
}

unfoldable pub escape : List ℕ → List ℕ
escape [] = []
escape (c ∷ cs) = if is_mark c then escape_char ∷ c ∷ escape cs else c ∷ escape cs

pub append_assoc : (xs ys zs : List ℕ) → (xs ++ ys) ++ zs ≡ xs ++ (ys ++ zs)
append_assoc [] ys zs = refl
append_assoc (x ∷ xs) ys zs = ap (◌∷◌ x) (append_assoc xs ys zs)

pub append_nil : (xs : List ℕ) → xs ++ [] ≡ xs
append_nil [] = refl
append_nil (x ∷ xs) = ap (◌∷◌ x) (append_nil xs)

pub take_whole : (xs : List ℕ) → take (length xs) xs ≡ xs
take_whole [] = refl
take_whole (x ∷ xs) = ap (◌∷◌ x) (take_whole xs)

write_data-escape : (cs file : List ℕ) → write_data cs true file ≡ file ++ escape cs
unfolding write_data escape
write_data-escape [] file = sym (append_nil file)
write_data-escape (c ∷ cs) file = elim (Bool-cases (is_mark c)) [
  | inl e ↦
      rw (e, write_data-escape cs (file ++ (escape_char ∷ c ∷ [])))
        (append_assoc file (escape_char ∷ c ∷ []) (escape cs))
  | inr e ↦ rw (e, write_data-escape cs (file ++ (c ∷ []))) (append_assoc file (c ∷ []) (escape cs))
]

pub set_props-escape :
    (ps file : List ℕ) → length ps < 2 ^ 16 → set_props ps file ≡ file ++ escape ps
unfolding set_props
set_props-escape ps file h =
    let e : length ps % 2 ^ 16 ≡ length ps = omega (arith, h) in
    rw (e, take_whole ps) (write_data-escape ps file)

pub start_node-bytes :
    (type : ℕ) (file : List ℕ)
    → type < escape_char
    → start_node type file ≡ file ++ (node_start ∷ type ∷ [])
unfolding start_node write_data
start_node-bytes type file h =
    let e : is_mark type ≡ false = ground arith in
    rw e (append_assoc file (node_start ∷ []) (type ∷ []))

pub end_node-bytes : (file : List ℕ) → end_node file ≡ file ++ (node_end ∷ [])
unfolding end_node write_data
end_node-bytes file = refl

pub length-escape : (ps : List ℕ) → length ps ≤ length (escape ps)
unfolding escape
length-escape [] = omega arith
length-escape (c ∷ cs) = elim (Bool-cases (is_mark c)) [
  | inl e ↦ rw e (omega (arith, length-escape cs))
  | inr e ↦ rw e (omega (arith, length-escape cs))
]

unescape-plain :
    (beyond c : ℕ) (cs : List ℕ)
    → is_mark c ≡ false
    → unescape beyond (c ∷ cs) ≡ c ∷ unescape beyond cs
unfolding unescape
unescape-plain beyond c [] h = let e : (c == escape_char) ≡ false = ground arith in rw e refl
unescape-plain beyond c (d ∷ cs) h = let e : (c == escape_char) ≡ false = ground arith in rw e refl

pub unescape-escape : (beyond : ℕ) (ps : List ℕ) → unescape beyond (escape ps) ≡ ps
unfolding unescape escape
unescape-escape beyond [] = refl
unescape-escape beyond (c ∷ cs) = elim (Bool-cases (is_mark c)) [
  | inl e ↦ rw e (ap (◌∷◌ c) (unescape-escape beyond cs))
  | inr e ↦ rw e (unescape-plain beyond c (escape cs) e ∙ ap (◌∷◌ c) (unescape-escape beyond cs))
]
