-- ===== src/Money/Collect.antt =====
-- The search for money in a cylinder of src/game.cpp ends and finds each coin once.
use otxserver.Common.{
  ℕ, zero, suc, ◌+◌, ◌<◌, ◌≡◌, refl, ap, ◌∙◌, inl, inr, Option, some, List, [], ◌∷◌, ◌++◌, arith,
  ◌==◌, ==_iff, Bool-cases,
}
use otxserver.Money.{
  Piece, coin, box, Pieces, nil, cons, Coin, Found, notice, scan, drain, collect, worth_of,
  balance_of, map_option, get_money,
}

-- The worth of what is in a cylinder, and the number of its containers.
abbrev mutual
  pub worth_in : Piece → ℕ
  worth_in (coin a worth) = worth
  worth_in (box a ps) = worth_all ps

  pub worth_all : Pieces → ℕ
  worth_all nil = 0
  worth_all (cons p ps) = worth_in p + worth_all ps

abbrev mutual
  pub boxes_in : Piece → ℕ
  boxes_in (coin a worth) = 0
  boxes_in (box a ps) = suc (boxes_all ps)

  pub boxes_all : Pieces → ℕ
  boxes_all nil = 0
  boxes_all (cons p ps) = boxes_in p + boxes_all ps

abbrev worth_queue : List Pieces → ℕ
worth_queue [] = 0
worth_queue (ps ∷ cs) = worth_all ps + worth_queue cs

abbrev boxes_queue : List Pieces → ℕ
boxes_queue [] = 0
boxes_queue (ps ∷ cs) = suc (boxes_all ps) + boxes_queue cs

worth_of-append : (xs ys : List Coin) → worth_of (xs ++ ys) ≡ worth_of xs + worth_of ys
worth_of-append [] ys = omega arith
worth_of-append (x ∷ xs) ys = omega (arith, worth_of-append xs ys)

worth_queue-append :
    (xs : List Pieces) (ps : Pieces) → worth_queue (xs ++ (ps ∷ [])) ≡ worth_queue xs + worth_all ps
worth_queue-append [] ps = omega arith
worth_queue-append (x ∷ xs) ps = omega (arith, worth_queue-append xs ps)

boxes_queue-append :
    (xs : List Pieces) (ps : Pieces)
    → boxes_queue (xs ++ (ps ∷ [])) ≡ boxes_queue xs + suc (boxes_all ps)
boxes_queue-append [] ps = omega arith
boxes_queue-append (x ∷ xs) ps = omega (arith, boxes_queue-append xs ps)

notice_lem :
    (a worth : ℕ) (f : Found)
    → (worth_of (notice a worth f).coins ≡ worth_of f.coins + worth)
      × ((notice a worth f).containers ≡ f.containers)
unfolding notice
notice_lem a worth f = elim (Bool-cases (worth == 0)) [
  | inl e ↦ rw e (omega (arith, (==_iff worth 0).0 e), refl)
  | inr e ↦ rw e (omega (arith, worth_of-append f.coins ((a, worth) ∷ [])), refl)
]

-- A scan keeps the worth of what is found and what waits, and the number of containers.
scan_lem :
    (ps : Pieces) (f : Found)
    → (worth_of (scan ps f).coins + worth_queue (scan ps f).containers
        ≡ worth_of f.coins + worth_queue f.containers + worth_all ps)
      × (boxes_queue (scan ps f).containers ≡ boxes_queue f.containers + boxes_all ps)
unfolding scan
scan_lem nil f = (omega arith, omega arith)
scan_lem (cons (box a ps) rest) f =
    let ih = scan_lem rest (record f { containers = f.containers ++ (ps ∷ []) }) in
    (
      omega (arith, ih.0, worth_queue-append f.containers ps),
      omega (arith, ih.1, boxes_queue-append f.containers ps),
    )
scan_lem (cons (coin a worth) rest) f =
    let ih = scan_lem rest (notice a worth f) in
    let n = notice_lem a worth f in
    (omega (arith, ih.0, n.0, ap worth_queue n.1), omega (arith, ih.1, ap boxes_queue n.1))

drain_lem :
    (fuel : ℕ) (cs : List Pieces) (found : List Coin)
    → boxes_queue cs < fuel
    → (coins : List Coin) × (drain fuel cs found ≡ some coins)
      × (worth_of coins ≡ worth_of found + worth_queue cs)
unfolding drain
drain_lem zero cs found h = absurd (omega arith)
drain_lem (suc fuel) [] found h = (found, refl, omega arith)
drain_lem (suc fuel) (ps ∷ cs) found h =
    let s = scan_lem ps (record { containers = cs; coins = found }) in
    let f = scan ps (record { containers = cs; coins = found }) in
    let r = drain_lem fuel f.containers f.coins (omega (arith, s.1, h)) in
    (r.0, r.1, omega (arith, r.2, s.0))

pub collect_lem :
    (fuel : ℕ) (ps : Pieces)
    → boxes_all ps < fuel
    → (coins : List Coin) × (collect fuel ps ≡ some coins) × (worth_of coins ≡ worth_all ps)
unfolding collect
collect_lem fuel ps h =
    let s = scan_lem ps (record { containers = []; coins = [] }) in
    let f = scan ps (record { containers = []; coins = [] }) in
    let r = drain_lem fuel f.containers f.coins (omega (arith, s.1, h)) in
    (r.0, r.1, omega (arith, r.2, s.0))

-- The search of `getMoney` ends, with more rounds than the cylinder holds containers, at any depth; it
-- answers the worth of all that the cylinder holds, and the balance.
pub get_money_lem :
    (fuel : ℕ) (ps : Pieces) (balance : Option ℕ)
    → boxes_all ps < fuel
    → get_money fuel ps balance ≡ some (worth_all ps + balance_of balance)
unfolding get_money
get_money_lem fuel ps balance h =
    let c = collect_lem fuel ps h in
    ap (map_option (λ cs. worth_of cs + balance_of balance)) c.1
    ∙ ap (λ n. some (n + balance_of balance)) c.2
