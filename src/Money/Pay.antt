-- ===== src/Money/Pay.antt =====
-- How `Game::removeMoney` of src/game.cpp pays, from the coins that it finds and from the bank.
use otxserver.Common.{
  ℕ, ◌+◌, ◌-◌, ◌≤◌, ◌<◌, ◌≡◌, refl, ap, ◌≢◌, ◌⊎◌, inl, inr, Bool, true, false, ◌||◌, Option, none,
  some, List, [], ◌∷◌, arith, ltb, ◌==◌, ltb→lt, leb→le, ltb→le, ==→ne, le→leb, ==_iff, Bool-cases,
}
use otxserver.Money.{
  Pieces, Coin, worth_of, balance_of, insert, money_map, pay, Outcome, untouched, from_bank,
  change_failed, finish, remove_money,
}
use otxserver.Money.Collect.{worth_all, boxes_all, collect_lem}

worth_of-insert : (c : Coin) (m : List Coin) → worth_of (insert c m) ≡ c.1 + worth_of m
unfolding insert
worth_of-insert c [] = refl
worth_of-insert c (d ∷ ds) = elim (Bool-cases (ltb c.1 d.1)) [
  | inl e ↦ rw e refl
  | inr e ↦ rw e (omega (arith, worth_of-insert c ds))
]

worth_of-money_map : (cs m : List Coin) → worth_of (money_map cs m) ≡ worth_of cs + worth_of m
unfolding money_map
worth_of-money_map [] m = omega arith
worth_of-money_map (c ∷ cs) m =
    omega (arith, worth_of-money_map cs (insert c m), worth_of-insert c m)

-- What the loop takes and leaves to pay is the price and the change; it leaves only what the coins
-- cannot pay.
pay_lem :
    (money : ℕ) (cs : List Coin)
    → (worth_of (pay money cs).removed + (pay money cs).rest ≡ money + (pay money cs).change)
      × ((pay money cs).rest ≡ money - worth_of cs)
unfolding pay
pay_lem money [] = (omega arith, omega arith)
pay_lem money (c ∷ cs) =
    let ih = pay_lem (money - c.1) cs in
    elim (Bool-cases (money == 0)) [
      | inl e ↦ rw e (omega (arith, (==_iff money 0).0 e), omega (arith, (==_iff money 0).0 e))
      | inr e ↦ elim (Bool-cases (ltb money c.1)) [
        | inl l ↦ rw (e, l) (omega (arith, ltb→lt money c.1 l), omega (arith, ltb→lt money c.1 l))
        | inr g ↦
            rw (e, g)
              (omega (arith, ltb→le money c.1 g, ih.0), omega (arith, ltb→le money c.1 g, ih.1))
      ]
    ]

-- Where change is due nothing remains to be paid, and no more is removed than there is.
pay-rest : (money : ℕ) (cs : List Coin) → (pay money cs).change ≡ 0 ⊎ (pay money cs).rest ≡ 0
unfolding pay
pay-rest money [] = inl refl
pay-rest money (c ∷ cs) =
    let ih = pay-rest (money - c.1) cs in
    elim (Bool-cases (money == 0)) [
      | inl e ↦ rw e (inr refl)
      | inr e ↦ elim (Bool-cases (ltb money c.1)) [
        | inl l ↦ rw (e, l) (inr refl)
        | inr g ↦ rw (e, g) ih
      ]
    ]

none_left : (money : ℕ) (cs : List Coin) → (pay money cs).change ≢ 0 → (pay money cs).rest ≡ 0
none_left money cs nz = elim (pay-rest money cs) [ inl z ↦ absurd (nz z) | inr z ↦ z ]

answer_pair : (p : Bool × ℕ) (b : Bool) → p.0 ≡ b → p ≡ (b, p.1)
answer_pair p b h = ap (λ c. (c, p.1)) h

removed_within : (money : ℕ) (cs : List Coin) → worth_of (pay money cs).removed ≤ worth_of cs
unfolding pay
removed_within money [] = omega arith
removed_within money (c ∷ cs) =
    let ih = removed_within (money - c.1) cs in
    elim (Bool-cases (money == 0)) [
      | inl e ↦ rw e (omega arith)
      | inr e ↦ elim (Bool-cases (ltb money c.1)) [
        | inl l ↦ rw (e, l) (omega arith)
        | inr g ↦ rw (e, g) (omega (arith, ih))
      ]
    ]

or_true : (b : Bool) → b || true ≡ true
or_true true = refl
or_true false = refl

-- A price that is paid, from the coins removed and the bank, with any change added.
abbrev pub Paid : (ℕ → Bool × ℕ) → ℕ → Option ℕ → Outcome → Type 0
Paid add money balance o =
    (o.answer ≡ true)
    × (worth_of o.removed + balance_of balance ≡ money + o.change + balance_of o.balance)
    × (o.returned ≡ none)
    × (o.change ≢ 0 → add o.change ≡ (true, o.arrived))

-- A price that is refused: nothing is removed or added, and the balance stays.
abbrev pub Refused : Option ℕ → Outcome → Type 0
Refused balance o = o ≡ untouched false balance

-- What a player is to have back.
abbrev pub Back : Option ℕ → Outcome → Type 0
Back none o = o.returned ≡ none
Back (some b) o = (n : ℕ) × (o.returned ≡ some n) × (n + o.arrived ≡ worth_of o.removed)

-- The change cannot be added: the coins for the price and the change are gone all the same.
abbrev pub Failed : (ℕ → Bool × ℕ) → ℕ → Option ℕ → Outcome → Type 0
Failed add money balance o =
    (o.answer ≡ false)
    × (add o.change ≡ (false, o.arrived))
    × (worth_of o.removed ≡ money + o.change)
    × Back balance o
    × (o.balance ≡ balance)

from_bank-Paid :
    (add : ℕ → Bool × ℕ) (money : ℕ) (cs : List Coin) (balance : Option ℕ) (arrived : ℕ)
    → money ≤ worth_of cs + balance_of balance
    → ((pay money cs).change ≢ 0 → add (pay money cs).change ≡ (true, arrived))
    → Paid add money balance (from_bank (pay money cs) arrived balance)
from_bank-Paid add money cs none arrived h a =
    let p = pay_lem money cs in
    let rest = (pay money cs).rest in
    ((==_iff rest 0).1 (omega (arith, p.1, h)), omega (arith, p.0, p.1, h), refl, a)
from_bank-Paid add money cs (some b) arrived h a =
    let p = pay_lem money cs in
    let rest = (pay money cs).rest in
    let e = le→leb rest b (omega (arith, p.1, h)) in
    (rw e (or_true (rest == 0)), rw e (omega (arith, p.0, p.1, h, leb→le rest b e)), refl, a)

module _ (add : ℕ → Bool × ℕ) (within : (n : ℕ) → (add n).1 ≤ n) where
  change_failed-Back :
      (money total : ℕ) (cs : List Coin) (balance : Option ℕ)
      → worth_of cs ≤ total
      → (pay money cs).change ≢ 0
      → Back balance (change_failed total (pay money cs) (add (pay money cs).change).1 balance)
  change_failed-Back money total cs none t nz = refl
  change_failed-Back money total cs (some b) t nz =
      let p = pay money cs in
      (
        total - (total - worth_of p.removed + (add p.change).1),
        refl,
        omega (
          arith,
          t,
          (pay_lem money cs).0,
          none_left money cs nz,
          removed_within money cs,
          within p.change,
        ),
      )

  finish_lem :
      (money total : ℕ) (cs : List Coin) (balance : Option ℕ)
      → worth_of cs ≤ total
      → money ≤ worth_of cs + balance_of balance
      → Paid add money balance (finish add total (pay money cs) balance)
        ⊎ Failed add money balance (finish add total (pay money cs) balance)
  unfolding finish
  finish_lem money total cs balance t h =
      let p = pay money cs in
      elim (Bool-cases (p.change == 0)) [
        | inl e ↦ rw e (
            inl (
              from_bank-Paid add money cs balance 0 h
                (λ nz. absurd (nz ((==_iff p.change 0).0 e)))))
        | inr e ↦ elim (Bool-cases (add p.change).0) [
          | inl a ↦
              rw (e, a)
                (inl (
                  from_bank-Paid add money cs balance (add p.change).1 h
                    (λ nz. answer_pair (add p.change) true a)))
          | inr a ↦
              let nz = ==→ne p.change 0 e in
              rw (e, a)
                (inr (
                  refl,
                  answer_pair (add p.change) false a,
                  omega (arith, (pay_lem money cs).0, none_left money cs nz),
                  change_failed-Back money total cs balance t nz,
                  refl,
                ))
        ]
      ]

  -- With more rounds than the cylinder holds containers, `removeMoney` ends. Where the money in the
  -- cylinder and in the bank is not enough it answers false, removes nothing, and the balance is as
  -- before. Where it is enough, either it answers true, the coins it removed and what it took from the
  -- bank are the price and the change, and `addMoney` added any change; or `addMoney` failed to add
  -- the change: then it answers false, the coins it removed are the price and the change, the balance
  -- is as before, and a player is to be given what was removed less what arrived of the change. This
  -- holds where no more arrives than the change.
  pub remove_money_lem :
      (fuel : ℕ) (ps : Pieces) (balance : Option ℕ) (money : ℕ)
      → boxes_all ps < fuel
      → (o : Outcome) × (remove_money add fuel ps balance money ≡ some o)
        × (((money ≤ worth_all ps + balance_of balance)
              × (Paid add money balance o ⊎ Failed add money balance o))
            ⊎ ((worth_all ps + balance_of balance < money) × Refused balance o))
  unfolding remove_money
  remove_money_lem fuel ps balance money h =
      let c = collect_lem fuel ps h in
      let cs = c.0 in
      let m = worth_of-money_map cs [] in
      elim (Bool-cases (money == 0)) [
        | inl e ↦
            let z = (==_iff money 0).0 e in
            (
              untouched true balance,
              rw e refl,
              inl (omega (arith, z), inl (refl, omega (arith, z), refl, λ nz. absurd (nz refl))),
            )
        | inr e ↦ elim (Bool-cases (ltb (worth_of cs + balance_of balance) money)) [
          | inl l ↦ (
            untouched false balance,
            rw (e, c.1) (rw l refl),
            inr (omega (arith, c.2, ltb→lt (worth_of cs + balance_of balance) money l), refl),
          )
          | inr g ↦
              let total = worth_of cs + balance_of balance in
              let enough = ltb→le total money g in
              (
                finish add total (pay money (money_map cs [])) balance,
                rw (e, c.1) (rw g refl),
                inl (
                  omega (arith, c.2, enough),
                  finish_lem money total (money_map cs []) balance (omega (arith, m))
                      (omega (arith, m, enough)),
                ),
              )
        ]
      ]
