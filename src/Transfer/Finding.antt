-- ===== src/Transfer/Finding.antt =====
-- Where an item lies in the list of a container of src/container.cpp.
use otxserver.Common.{
  ℕ, zero, suc, ◌+◌, ◌-◌, ◌≤◌, ◌<◌, ◌≡◌, refl, ap, ◌∙◌, ◌⊎◌, inl, inr, true, false, Option, none,
  some, List, [], ◌∷◌, arith, ◌==◌, ==_refl, if_intro, if_elim, length, get_elem?, set, All,
}
use mathlib.Core.Path.{subst}
use otxserver.Container.{Item, index_from}
use otxserver.Container.Operations.{erase_at, stacks_with}
use otxserver.Container.Destination.{find_stack}

-- The first item with its address.
abbrev pub First : Item → List Item → Type 0
First d [] = ⊥
First d (x ∷ xs) = (x ≡ d) ⊎ (((x.address == d.address) ≡ false) × First d xs)

-- No two have one address.
abbrev pub Differs : Item → Item → Type 0
Differs x y = (x.address == y.address) ≡ false

abbrev pub Apart : List Item → Type 0
Apart [] = Unit {0}
Apart (x ∷ xs) = All (Differs x) xs × Apart xs

pub All-get {ℓ} :
    {A : Type ℓ} (P : A → Type 0) (l : List A) (i : ℕ) (x : A)
    → All P l
    → get_elem? l i ≡ some x
    → P x
All-get P [] i x h e = cc
All-get P (y ∷ ys) zero x h e = let k : y ≡ x = cc in subst P k h.0
All-get P (y ∷ ys) (suc i) x h e = All-get P ys i x h.1 e

pub Apart-First : (l : List Item) (i : ℕ) (x : Item) → Apart l → get_elem? l i ≡ some x → First x l
Apart-First [] i x a e = cc
Apart-First (y ∷ ys) zero x a e = inl (cc)
Apart-First (y ∷ ys) (suc i) x a e =
    inr (All-get (Differs y) ys i x a.0 e, Apart-First ys i x a.1 e)

-- What a search finds, from index n on.
abbrev pub FoundIn : ℕ → List Item → Option (ℕ × Item) → Type 0
FoundIn n l none = Unit {0}
FoundIn n l (some (m, x)) = (n ≤ m) × (m < n + length l) × (get_elem? l (m - n) ≡ some x)

later :
    (n m : ℕ) (x y : Item) (l : List Item)
    → n + 1 ≤ m
    → get_elem? l (m - (n + 1)) ≡ some x
    → get_elem? (y ∷ l) (m - n) ≡ some x
later n m x y l h e = let k : m - n ≡ suc (m - (n + 1)) = omega arith in rw k e

FoundIn-later :
    (n : ℕ) (y : Item) (l : List Item) (o : Option (ℕ × Item))
    → FoundIn (n + 1) l o
    → FoundIn n (y ∷ l) o
FoundIn-later n y l none h = tt
FoundIn-later n y l (some (m, x)) h =
    (omega (arith, h.0), omega (arith, h.1), later n m x y l h.0 h.2)

pub find_stack-FoundIn : (it : Item) (l : List Item) (n : ℕ) → FoundIn n l (find_stack it l n)
unfolding find_stack
find_stack-FoundIn it [] n = tt
find_stack-FoundIn it (y ∷ ys) n =
    let z : n - n ≡ 0 = omega arith in
    if_intro (FoundIn n (y ∷ ys)) (stacks_with it y) (omega arith, omega arith, rw z refl)
      (FoundIn-later n y ys (find_stack it ys (n + 1)) (find_stack-FoundIn it ys (n + 1)))

-- The item at the index of an address has it.
abbrev pub AddressAt : ℕ → ℕ → List Item → Option ℕ → Type 0
AddressAt a n l none = Unit {0}
AddressAt a n l (some m) =
    (n ≤ m) × ((x : Item) × (get_elem? l (m - n) ≡ some x) × ((x.address == a) ≡ true))

AddressAt-later :
    (a n : ℕ) (y : Item) (l : List Item) (o : Option ℕ)
    → AddressAt a (n + 1) l o
    → AddressAt a n (y ∷ l) o
AddressAt-later a n y l none h = tt
AddressAt-later a n y l (some m) (h, (x, e, k)) = (omega (arith, h), (x, later n m x y l h e, k))

pub index_from-AddressAt : (a : ℕ) (l : List Item) (n : ℕ) → AddressAt a n l (index_from a l n)
unfolding index_from
index_from-AddressAt a [] n = tt
index_from-AddressAt a (y ∷ ys) n =
    let z : n - n ≡ 0 = omega arith in
    if_elim (AddressAt a n (y ∷ ys)) (y.address == a) (λ c. (omega arith, (y, rw z refl, c)))
      (λ c. AddressAt-later a n y ys (index_from a ys (n + 1)) (index_from-AddressAt a ys (n + 1)))

same_address : (y d : Item) → y ≡ d → (y.address == d.address) ≡ true
same_address y d e = ap (λ (z : Item). z.address == d.address) e ∙ ==_refl d.address

clash : (y d x : Item) → y ≡ d → some y ≡ some x → (x.address == d.address) ≡ false → ⊥
clash y d x f e k = let g : x ≡ d = cc in let m = same_address x d g in cc

-- The index of the first item with its address.
pub First-index_from :
    (d : Item) (l : List Item) (n : ℕ)
    → First d l
    → (i : ℕ) × (index_from d.address l n ≡ some (n + i)) × (get_elem? l i ≡ some d)
unfolding index_from
First-index_from d [] n h = absurd h
First-index_from d (y ∷ ys) n (inl e) =
    let k : (y.address == d.address) ≡ true = same_address y d e in
    let z : n ≡ n + 0 = omega arith in (0, rw k (ap some z), ap some e)
First-index_from d (y ∷ ys) n (inr (e, h)) =
    let (i, k, g) = First-index_from d ys (n + 1) h in
    let z : n + 1 + i ≡ n + suc i = omega arith in (suc i, rw e (k ∙ ap some z), g)

pub First-set :
    (d new : Item) (l : List Item) (i : ℕ) (x : Item)
    → First d l
    → get_elem? l i ≡ some x
    → (x.address == d.address) ≡ false
    → (new.address == d.address) ≡ false
    → First d (set l i new)
First-set d new [] i x h e k m = absurd h
First-set d new (y ∷ ys) zero x (inl f) e k m = absurd (clash y d x f e k)
First-set d new (y ∷ ys) zero x (inr (f, h)) e k m = inr (m, h)
First-set d new (y ∷ ys) (suc i) x (inl f) e k m = inl f
First-set d new (y ∷ ys) (suc i) x (inr (f, h)) e k m = inr (f, First-set d new ys i x h e k m)

pub First-erase_at :
    (d : Item) (l : List Item) (i : ℕ) (x : Item)
    → First d l
    → get_elem? l i ≡ some x
    → (x.address == d.address) ≡ false
    → First d (erase_at i l)
First-erase_at d [] i x h e k = absurd h
First-erase_at d (y ∷ ys) zero x (inl f) e k = absurd (clash y d x f e k)
First-erase_at d (y ∷ ys) zero x (inr (f, h)) e k = h
First-erase_at d (y ∷ ys) (suc i) x (inl f) e k = inl f
First-erase_at d (y ∷ ys) (suc i) x (inr (f, h)) e k = inr (f, First-erase_at d ys i x h e k)
