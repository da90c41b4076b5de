-- ===== src/Money.antt =====
-- `Game::getMoney`, `removeMoney` and `addMoney` of src/game.cpp: the coins that a cylinder holds, deep
-- in its containers too, and the balance that a player has in the bank. What the cylinder and the tile
-- take of an item is a function of their state; numbers of 64 bits do not overflow here, and messages are not modelled.
pub mod Collect
pub mod Pay
pub mod Change
mod Tests
use otxserver.Common.{
  ℕ, zero, suc, ◌+◌, ◌-◌, ◌*◌, ◌/◌, ◌%◌, ◌^◌, ◌≤◌, ◌<◌, min, max, ◌≡◌, refl, sym, ap, ◌∙◌, ◌≢◌, ◌↔◌,
  ◌⊎◌, inl, inr, Bool, true, false, not, ◌&&◌, ◌||◌, Option, none, some, List, [], ◌∷◌, ◌++◌, map,
  arith, ltb, leb, ◌==◌, if◌then◌else◌, ltb→lt, lt→ltb, leb→le, ==_iff, ==_refl, Bool-cases,
  Option-cases, dist, if_intro, length, get_elem?, get_or, set, take, drop, length-append,
  take-append, drop-append, All, All-append,
}

-- An item by its address: a container with what it holds, or another with its worth, 0 if it is no money.
mutual
  pub data Piece : Type 0 where
    coin : ℕ → ℕ → Piece
    box : ℕ → Pieces → Piece

  pub data Pieces : Type 0 where
    nil : Pieces
    cons : Piece → Pieces → Pieces

-- An item of money: its address and `getWorth()`.
abbrev pub Coin : Type 0
Coin = ℕ × ℕ

-- `listContainer` and the money that is found.
pub record Found : Type 0 where
  pub containers : List Pieces
  pub coins : List Coin

-- One item that is no container.
unfoldable pub notice : ℕ → ℕ → Found → Found
notice a worth f = if worth == 0 then f else record f { coins = f.coins ++ ((a, worth) ∷ []) }

-- One loop over the items of a container.
unfoldable pub scan : Pieces → Found → Found
scan nil f = f
scan (cons (box a ps) rest) f = scan rest (record f { containers = f.containers ++ (ps ∷ []) })
scan (cons (coin a worth) rest) f = scan rest (notice a worth f)

-- The loop over `listContainer`, on fuel.
unfoldable pub drain : ℕ → List Pieces → List Coin → Option (List Coin)
drain zero cs found = none
drain (suc fuel) [] found = some found
drain (suc fuel) (ps ∷ cs) found =
    let f = scan ps (record { containers = cs; coins = found }) in drain fuel f.containers f.coins

-- The money in a cylinder: its own items, then the containers in the order in which they are met.
unfoldable pub collect : ℕ → Pieces → Option (List Coin)
collect fuel ps =
    let f = scan ps (record { containers = []; coins = [] }) in drain fuel f.containers f.coins

abbrev pub worth_of : List Coin → ℕ
worth_of [] = 0
worth_of (c ∷ cs) = c.1 + worth_of cs

-- The balance, of a player only.
abbrev pub balance_of : Option ℕ → ℕ
balance_of none = 0
balance_of (some balance) = balance

abbrev pub map_option {ℓ κ} : {A : Type ℓ} {B : Type κ} → (A → B) → Option A → Option B
map_option f none = none
map_option f (some a) = some (f a)

-- `getMoney`
unfoldable pub get_money : ℕ → Pieces → Option ℕ → Option ℕ
get_money fuel ps balance = map_option (λ cs. worth_of cs + balance_of balance) (collect fuel ps)

-- `moneyMap.insert`: among equal keys a new one comes last.
unfoldable pub insert : Coin → List Coin → List Coin
insert c [] = c ∷ []
insert c (d ∷ ds) = if ltb c.1 d.1 then c ∷ d ∷ ds else d ∷ insert c ds

unfoldable pub money_map : List Coin → List Coin → List Coin
money_map [] m = m
money_map (c ∷ cs) m = money_map cs (insert c m)

-- What the loop over `moneyMap` does: the coins that it removes, the change it adds (0 if none), and
-- what remains to be paid.
pub record Payment : Type 0 where
  pub removed : List Coin
  pub change : ℕ
  pub rest : ℕ

unfoldable pub pay : ℕ → List Coin → Payment
pay money [] = record { removed = []; change = 0; rest = money }
pay money (c ∷ cs) =
    let more = pay (money - c.1) cs in
    if money == 0
    then record { removed = []; change = 0; rest = 0 }
    else (if ltb money c.1
        then record { removed = c ∷ []; change = c.1 - money; rest = 0 }
        else record more { removed = c ∷ more.removed })

-- The outcome of `removeMoney`: its answer, the coins removed, the change it asks `addMoney` for, what
-- of it arrives, what it asks `addMoney` to give back to a player, and the balance.
pub record Outcome : Type 0 where
  pub answer : Bool
  pub removed : List Coin
  pub change : ℕ
  pub arrived : ℕ
  pub returned : Option ℕ
  pub balance : Option ℕ

-- An outcome that touches nothing.
abbrev pub untouched : Bool → Option ℕ → Outcome
untouched answer balance = record {
  answer = answer;
  removed = [];
  change = 0;
  arrived = 0;
  returned = none;
  balance = balance;
}

-- The end of `removeMoney`: the rest is paid from the balance.
abbrev pub from_bank : Payment → ℕ → Option ℕ → Outcome
from_bank p arrived none = record {
  answer = p.rest == 0;
  removed = p.removed;
  change = p.change;
  arrived = arrived;
  returned = none;
  balance = none;
}
from_bank p arrived (some balance) = record {
  answer = p.rest == 0 || leb p.rest balance;
  removed = p.removed;
  change = p.change;
  arrived = arrived;
  returned = none;
  balance = some (if leb p.rest balance then balance - p.rest else balance);
}

-- The change was not added: to a player `moneyCount - getMoney(player)` is given back.
abbrev pub give_back : ℕ → ℕ → Option ℕ → Option ℕ
give_back money_count now none = none
give_back money_count now (some balance) = some (money_count - now)

abbrev pub change_failed : ℕ → Payment → ℕ → Option ℕ → Outcome
change_failed money_count p arrived balance = record {
  answer = false;
  removed = p.removed;
  change = p.change;
  arrived = arrived;
  returned = give_back money_count (money_count - worth_of p.removed + arrived) balance;
  balance = balance;
}

-- The change, where there is any, is asked of `addMoney`.
unfoldable pub finish : (ℕ → Bool × ℕ) → ℕ → Payment → Option ℕ → Outcome
finish add money_count p balance =
    if p.change == 0
    then from_bank p 0 balance
    else (if (add p.change).0
        then from_bank p (add p.change).1 balance
        else change_failed money_count p (add p.change).1 balance)

-- `removeMoney`, where `money` is not negative; `add` is `addMoney` as it is called for the change: its
-- answer, and the worth that comes into the cylinder. Whether what is given back after a failure
-- comes too, the source does not ask.
unfoldable pub remove_money : (ℕ → Bool × ℕ) → ℕ → Pieces → Option ℕ → ℕ → Option Outcome
remove_money add fuel ps balance money =
    if money == 0
    then some (untouched true balance)
    else map_option
        (λ cs.
          let money_count = worth_of cs + balance_of balance in
          if ltb money_count money
          then untouched false balance
          else finish add money_count (pay money (money_map cs [])) balance)
        (collect fuel ps)

-- A stack of coins that `addMoney` creates: the worth of one, and how many.
abbrev pub Stack : Type 0
Stack = ℕ × ℕ

abbrev pub stacks_worth : List Stack → ℕ
stacks_worth [] = 0
stacks_worth (s ∷ ss) = s.0 * s.1 + stacks_worth ss

-- The inner loop of `addMoney`, for `n` hundreds and less: `std::min<uint16_t>(100, tmp)` takes `tmp`
-- modulo 2 ^ 16 first, and `CreateItem` gives an item that stacks the count 1 where 0 is asked for.
unfoldable pub stacks_of : ℕ → ℕ → ℕ → List Stack
stacks_of zero worth tmp = []
stacks_of (suc n) worth tmp =
    let rest = stacks_of n worth (tmp - min 100 tmp) in
    if tmp == 0 then [] else (worth, max 1 (min 100 (tmp % 2 ^ 16))) ∷ rest

-- The loop of `addMoney` over the kinds of money, from the most to the least worth: the stacks that it
-- creates.
unfoldable pub stacks_for : List ℕ → ℕ → List Stack
stacks_for [] money = []
stacks_for (worth ∷ ws) money =
    let tmp = money / worth in
    stacks_of (tmp / 100 + 1) worth tmp ++ stacks_for ws (money - tmp * worth)

-- One stack, in a state `W` of the cylinder and the tile: `add` is `internalAddItem` to the cylinder,
-- which answers none if all of the stack is added, else `remainderCount`; `drop` is `internalAddItem` to
-- the tile, with whether it took the stack. The answer is whether `addMoney` goes on.
unfoldable pub deliver :
    {W : Type 0} → (Stack → W → Option ℕ × W) → (Stack → W → Bool × W) → Bool → Stack → W → Bool × W
deliver add drop can_drop s w =
    let tried = add s w in
    elim tried.0 [
      | none ↦ (true, tried.1)
      | some remainder ↦
          if not can_drop
          then (false, tried.1)
          else (if remainder == 0
              then (true, (drop s tried.1).1)
              else (true, (drop (s.0, remainder) tried.1).1))
    ]

-- `addMoney`: its answer, and the state after it.
unfoldable pub deliver_all :
    {W : Type 0}
    → (Stack → W → Option ℕ × W)
    → (Stack → W → Bool × W)
    → Bool
    → List Stack
    → W
    → Bool × W
deliver_all add drop can_drop [] w = (true, w)
deliver_all add drop can_drop (s ∷ ss) w =
    let d = deliver add drop can_drop s w in
    let rest = deliver_all add drop can_drop ss d.1 in if d.0 then rest else d

unfoldable pub add_money :
    {W : Type 0}
    → (Stack → W → Option ℕ × W)
    → (Stack → W → Bool × W)
    → Bool
    → List ℕ
    → ℕ
    → W
    → Bool × W
add_money add drop can_drop kinds money w =
    if money == 0 then (true, w) else deliver_all add drop can_drop (stacks_for kinds money) w
