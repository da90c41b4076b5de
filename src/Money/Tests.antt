-- ===== src/Money/Tests.antt =====
-- The theorems on money at a cylinder with a purse: 3 coins of 1, and a coin of 100 in the purse.
use otxserver.Common.{
  ℕ, ◌+◌, ◌-◌, ◌*◌, ◌^◌, ◌≤◌, ◌<◌, ◌≡◌, refl, sym, ap, ◌∙◌, ◌≢◌, ◌⊎◌, inl, inr, Bool-cases, Bool,
  true, false, Option, none, some, List, [], ◌∷◌, arith, leb, ◌==◌, if◌then◌else◌,
}
use otxserver.Money.{
  coin, box, Pieces, nil, cons, Stack, Outcome, remove_money, add_money, collect, scan, drain,
  notice, money_map, insert, pay, finish,
}
use otxserver.Money.Collect.{worth_all}
use otxserver.Money.Pay.{Paid, Failed, Refused, remove_money_lem}
use otxserver.Money.Change.{add_money_lem}

abbrev purse : Pieces
purse = cons (box 1 (cons (coin 2 100) nil)) (cons (coin 3 3) nil)

-- The cylinder has room for change of up to 10.
abbrev little_room : ℕ → Bool × ℕ
little_room n = if leb n 10 then (true, n) else (false, 10)

little_room-within : (n : ℕ) → (little_room n).1 ≤ n
little_room-within n = ground arith

remove_money_lem_example :
    (o : Outcome) × (remove_money little_room 3 purse (some 50) 60 ≡ some o)
    × (((60 ≤ worth_all purse + 50)
          × (Paid little_room 60 (some 50) o ⊎ Failed little_room 60 (some 50) o))
        ⊎ ((worth_all purse + 50 < 60) × Refused (some 50) o))
remove_money_lem_example =
    remove_money_lem little_room little_room-within 3 purse (some 50) 60 (omega arith)

-- The change of 43 does not fit: 103 are gone, and the player is to have back the 93 that are missing.
no_room_for_change :
    remove_money little_room 3 purse (some 50) 60
    ≡ some (record {
      answer = false;
      removed = (3, 3) ∷ (2, 100) ∷ [];
      change = 43;
      arrived = 10;
      returned = some 93;
      balance = some 50;
    })
unfolding remove_money collect scan drain notice money_map insert pay finish
no_room_for_change = refl

abbrev coins : List ℕ
coins = 10000 ∷ 100 ∷ 1 ∷ []

-- The worth that is held, by a cylinder with room for so many coins and by the tile.
abbrev Place : Type 0
Place = ℕ × ℕ

abbrev holding : Place → ℕ
holding w = w.0

abbrev fill : Stack → Place → Option ℕ × Place
fill s w =
    if leb s.1 w.1
    then (none, (w.0 + s.0 * s.1, w.1 - s.1))
    else (if w.1 == 0 then (some 0, w) else (some (s.1 - w.1), (w.0 + s.0 * w.1, 0)))

abbrev lay : Stack → Place → Bool × Place
lay s w = (true, (w.0 + s.0 * s.1, w.1))

fill-cases :
    (s : Stack) (w : Place)
    → (fill s w ≡ (none, (w.0 + s.0 * s.1, w.1 - s.1)))
      ⊎ (fill s w ≡ (some 0, w))
      ⊎ ((w.1 < s.1) × (fill s w ≡ (some (s.1 - w.1), (w.0 + s.0 * w.1, 0))))
fill-cases s w = elim (Bool-cases (leb s.1 w.1)) [
  | inl e ↦ inl (rw e refl)
  | inr e ↦ elim (Bool-cases (w.1 == 0)) [
    | inl z ↦ inr (inl (rw (e, z) refl))
    | inr z ↦ inr (inr (ground arith, rw (e, z) refl))
  ]
]

fill-fits :
    (s : Stack) (w : Place) → (fill s w).0 ≡ none → holding (fill s w).1 ≡ holding w + s.0 * s.1
fill-fits s w h = elim (fill-cases s w) [
  | inl e ↦ ap (λ (p : Option ℕ × Place). holding p.1) e
  | inr (inl e) ↦ absurd (cc (h, e))
  | inr (inr (l, e)) ↦ absurd (cc (h, e))
]

fill-part :
    (s : Stack) (w : Place) (r : ℕ)
    → (fill s w).0 ≡ some r
    → r ≢ 0
    → (r ≤ s.1) × (holding (fill s w).1 ≡ holding w + s.0 * (s.1 - r))
fill-part s w r h nz = elim (fill-cases s w) [
  | inl e ↦ absurd (cc (h, e))
  | inr (inl e) ↦ absurd (nz (cc (h, e)))
  | inr (inr (l, e)) ↦
      let same : r ≡ s.1 - w.1 = cc (h, e) in
      let room : s.1 - r ≡ w.1 = omega (arith, same, l) in
      (
        omega (arith, same),
        ap (λ (p : Option ℕ × Place). holding p.1) e ∙ ap (λ n. w.0 + s.0 * n) (sym room),
      )
]

fill-nothing : (s : Stack) (w : Place) → (fill s w).0 ≡ some 0 → holding (fill s w).1 ≡ holding w
fill-nothing s w h = elim (fill-cases s w) [
  | inl e ↦ absurd (cc (h, e))
  | inr (inl e) ↦ ap (λ (p : Option ℕ × Place). holding p.1) e
  | inr (inr (l, e)) ↦ let same : 0 ≡ s.1 - w.1 = cc (h, e) in absurd (omega (arith, same, l))
]

add_money_lem_example :
    ((add_money fill lay true coins 25360 (7, 12)).0 ≡ true)
    × (holding (add_money fill lay true coins 25360 (7, 12)).1 ≡ 7 + 25360)
add_money_lem_example =
    add_money_lem holding fill lay fill-fits fill-part fill-nothing (λ s w. (refl, refl)) coins
      (2 ^ 29) 25360 (7, 12)
      (
        omega arith,
        omega arith,
        (omega arith, omega arith, (omega arith, omega arith, omega arith)),
      )
      (omega arith)
