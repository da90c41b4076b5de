-- ===== src/Transfer/Growth.antt =====
-- A container (src/container.cpp) in which a stack grows is as fine as before.
use otxserver.Common.{
  ℕ, zero, suc, ◌+◌, ◌%◌, ◌^◌, ◌≤◌, ◌≡◌, refl, sym, ap, ◌∙◌, inl, inr, true, some, List, [], ◌∷◌,
  arith, ltb, ◌==◌, if◌then◌else◌, ==_iff, Bool-cases, Option-cases, if_intro, length, get_elem?,
  set, All,
}
use mathlib.Core.Path.{subst}
use otxserver.Container.{
  ItemType, Item, object, Container, Index, Flags, ReturnValue, no_error, not_enough_room,
  get_index_of_thing, index_from, set_sub_type,
}
use otxserver.Container.Operations.{query_max_count, change_at, update_thing}
use otxserver.Transfer.Chests.{modify, chests, get-modify, get-modify_other}
use otxserver.Transfer.Finding.{First, Apart, Differs, All-get, First-index_from}
use otxserver.Transfer.Places.{Fine, Sane}
use otxserver.Transfer.Stays.{Good, Known, Has, Plain}

length-set : (l : List Item) (i : ℕ) (x : Item) → length (set l i x) ≡ length l
length-set [] i x = refl
length-set (y ∷ ys) zero x = refl
length-set (y ∷ ys) (suc i) x = ap suc (length-set ys i x)

All-set : (P : Item → Type 0) (l : List Item) (i : ℕ) (x : Item) → All P l → P x → All P (set l i x)
All-set P [] i x h k = tt
All-set P (y ∷ ys) zero x h k = (k, h.1)
All-set P (y ∷ ys) (suc i) x h k = (h.0, All-set P ys i x h.1 k)

All-Differs :
    (d x : Item) (l : List Item) → x.address ≡ d.address → All (Differs d) l → All (Differs x) l
All-Differs d x [] e h = tt
All-Differs d x (y ∷ ys) e h = (ap (λ a. a == y.address) e ∙ h.0, All-Differs d x ys e h.1)

same_item : (y d : Item) → some y ≡ some d → y ≡ d
same_item y d h = cc

Apart-set :
    (l : List Item) (i : ℕ) (d x : Item)
    → Apart l
    → get_elem? l i ≡ some d
    → x.address ≡ d.address
    → Apart (set l i x)
Apart-set [] i d x a g e = cc
Apart-set (y ∷ ys) zero d x a g e =
    (All-Differs y x ys (e ∙ sym (ap (λ (u : Item). u.address) (same_item y d g))) a.0, a.1)
Apart-set (y ∷ ys) (suc i) d x a g e = (
  All-set (Differs y) ys i x a.0 (ap (λ j. y.address == j) e ∙ All-get (Differs y) ys i d a.0 g),
  Apart-set ys i d x a.1 g e,
)

update_thing-Fine :
    (items : ℕ → ItemType) (k n : ℕ) (d : Item) (c : Container)
    → Plain items
    → Fine k c
    → First d c.itemlist
    → (items d.id).stackable ≡ true
    → n ≤ 100
    → Fine k (update_thing items (object d) d.id n c)
unfolding update_thing get_index_of_thing change_at set_sub_type
update_thing-Fine items k n d c plain fine f s l =
    let (i, e, g) = First-index_from d c.itemlist 0 f in
    let z : 0 + i ≡ i = omega arith in
    let at : index_from d.address c.itemlist 0 ≡ some i = e ∙ ap some z in
    let m : n % 2 ^ 8 ≡ n = omega (arith, l) in
    let p = plain d.id s in
    let new : Item = record d { count = n } in
    let sane = All-get (Sane k) c.itemlist i d fine.3 g in
    rw (at, g, p.0, p.1, m)
      (
        omega (arith, fine.0, length-set c.itemlist i new),
        fine.1,
        Apart-set c.itemlist i d new fine.2 g refl,
        All-set (Sane k) c.itemlist i new fine.3 (l, sane.1),
        fine.4,
      )

length-modify :
    (k : ℕ) (f : Container → Container) (w : List Container) → length (modify k f w) ≡ length w
length-modify k f [] = refl
length-modify zero f (c ∷ cs) = refl
length-modify (suc k) f (c ∷ cs) = ap suc (length-modify k f cs)

All-modify :
    (P : Container → Type 0) (k : ℕ) (f : Container → Container) (c : Container)
    (w : List Container)
    → All P w
    → get_elem? w k ≡ some c
    → P (f c)
    → All P (modify k f w)
All-modify P k f c [] h g p = tt
All-modify P zero f c (b ∷ cs) h g p = let e : c ≡ b = cc in (subst (λ u. P (f u)) e p, h.1)
All-modify P (suc k) f c (b ∷ cs) h g p = (h.0, All-modify P k f c cs h.1 g p)

pub update_thing-Good :
    (items : ℕ → ItemType) (k n : ℕ) (d : Item) (w : List Container)
    → Plain items
    → Good w
    → Has k d w
    → (items d.id).stackable ≡ true
    → n ≤ 100
    → Good (modify k (update_thing items (object d) d.id n) w)
update_thing-Good items k n d w plain g (c, e, f) s l =
    let u = update_thing items (object d) d.id n in
    let fine =
      update_thing-Fine items (length w) n d c plain (All-get (Fine (length w)) w k c g e) f s l in
    subst (λ m. All (Fine m) (modify k u w)) (sym (length-modify k u w))
      (All-modify (Fine (length w)) k u c w g e fine)

pub modify-Known :
    (e k : ℕ) (f : Container → Container) (w : List Container) → Known e w → Known e (modify k f w)
modify-Known e k f w (c, g) = elim (Bool-cases (e == k)) [
  | inl q ↦
      let same : k ≡ e = sym ((==_iff e k).0 q) in
      (f c, subst (λ j. get_elem? (modify j f w) e ≡ some (f c)) (sym same) (get-modify e f c w g))
  | inr q ↦ (c, get-modify_other e k f w q ∙ g)
]

room_for : (a b : ℕ) → (if ltb a b then not_enough_room else no_error) ≡ no_error → b ≤ a
room_for a b h = elim (Bool-cases (ltb a b)) [ inl e ↦ cc (rw e at h) | inr e ↦ ground arith ]

stack_enough :
    (items : ℕ → ItemType) (ask : ℕ → Item → ℕ → ReturnValue) (c : Container) (index : Index)
    (it : Item) (n : ℕ) (flags : Flags)
    → (query_max_count items ask c index (object it) n flags).0 ≡ no_error
    → (items it.id).stackable ≡ true
    → n ≤ (query_max_count items ask c index (object it) n flags).1
unfolding query_max_count
stack_enough items ask c index it n flags h s =
    if_intro (λ (r : ReturnValue × ℕ). r.0 ≡ no_error → n ≤ r.1) flags.no_limit (λ k. omega arith)
      (rw s (λ k. room_for _ n k)) h

pub chests-enough :
    (items : ℕ → ItemType) (ask : ℕ → Item → ℕ → ReturnValue) (k : ℕ) (index : Index) (it : Item)
    (n : ℕ) (flags : Flags) (w : List Container)
    → ((chests items ask).query_max_count k index it n flags w).0 ≡ no_error
    → (items it.id).stackable ≡ true
    → n ≤ ((chests items ask).query_max_count k index it n flags w).1
chests-enough items ask k index it n flags w h s = elim (Option-cases (get_elem? w k)) [
  | inl e ↦ cc (rw e at h)
  | inr (c, e) ↦ rw e (stack_enough items ask c index it n flags (rw e at h) s)
]
