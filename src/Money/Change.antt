-- ===== src/Money/Change.antt =====
-- `Game::addMoney` of src/game.cpp: the stacks that it creates, and where they go.
use otxserver.Common.{
  ℕ, zero, suc, ◌+◌, ◌-◌, ◌*◌, ◌/◌, ◌%◌, ◌^◌, ◌≤◌, ◌<◌, min, max, ◌≡◌, refl, sym, ap, ◌∙◌, ◌≢◌, inl,
  inr, Bool, true, Option, none, some, List, [], ◌∷◌, ◌++◌, arith, ◌==◌, ==→ne, ==_iff, Bool-cases,
  Option-cases,
}
use native.Mathlib.Nat.{mod-lt, div-add-mod, div-lt_iff_lt-mul, mul-zero, mul-add}
use otxserver.Money.{Stack, stacks_worth, stacks_of, stacks_for, deliver, deliver_all, add_money}

stacks_worth-append :
    (xs ys : List Stack) → stacks_worth (xs ++ ys) ≡ stacks_worth xs + stacks_worth ys
stacks_worth-append [] ys = omega arith
stacks_worth-append (x ∷ xs) ys = omega (arith, stacks_worth-append xs ys)

some_coins : (tmp : ℕ) → tmp < 2 ^ 16 → tmp ≢ 0 → max 1 (min 100 (tmp % 2 ^ 16)) ≡ min 100 tmp
some_coins tmp h nz = omega arith

stacks_of_lem :
    (n worth tmp : ℕ)
    → tmp < 2 ^ 16
    → tmp ≤ 100 * n
    → stacks_worth (stacks_of n worth tmp) ≡ worth * tmp
unfolding stacks_of
stacks_of_lem zero worth tmp h b =
    let z : tmp ≡ 0 = omega arith in sym (ap (λ t. worth * t) z ∙ mul-zero worth)
stacks_of_lem (suc n) worth tmp h b = elim (Bool-cases (tmp == 0)) [
  | inl e ↦ rw e (sym (ap (λ t. worth * t) ((==_iff tmp 0).0 e) ∙ mul-zero worth))
  | inr e ↦
      let nz = ==→ne tmp 0 e in
      rw e (
        rw (some_coins tmp h nz) (
          ap (λ r. worth * min 100 tmp + r)
            (stacks_of_lem n worth (tmp - min 100 tmp) (omega arith) (omega arith))
          ∙ sym (mul-add worth (min 100 tmp) (tmp - min 100 tmp))
          ∙ ap (λ t. worth * t) (omega arith)))
]

-- The kinds of money, from the most worth: the last is worth 1, and less than 2 ^ 16 coins of each are
-- due for an amount below the bound.
abbrev pub Kinds : ℕ → List ℕ → Type 0
Kinds bound [] = bound ≤ 1
Kinds bound (worth ∷ ws) = (0 < worth) × (bound ≤ 2 ^ 16 * worth) × Kinds worth ws

div_parts :
    (money worth : ℕ)
    → 0 < worth
    → (money - money / worth * worth < worth)
      × (worth * (money / worth) + (money - money / worth * worth) ≡ money)
div_parts money worth h =
    let e = div-add-mod money worth in
    let m = mod-lt money h in (omega (arith, e, m), omega (arith, e))

pub stacks_for_lem :
    (kinds : List ℕ) (bound money : ℕ)
    → Kinds bound kinds
    → money < bound
    → stacks_worth (stacks_for kinds money) ≡ money
unfolding stacks_for
stacks_for_lem [] bound money k h = omega arith
stacks_for_lem (worth ∷ ws) bound money k h =
    let tmp = money / worth in
    let d = div_parts money worth k.0 in
    let small = (div-lt_iff_lt-mul k.0).1 (omega (arith, h, k.1)) in
    stacks_worth-append (stacks_of (tmp / 100 + 1) worth tmp) (stacks_for ws (money - tmp * worth))
    ∙ ap (λ a. a + stacks_worth (stacks_for ws (money - tmp * worth)))
        (stacks_of_lem (tmp / 100 + 1) worth tmp small (omega arith))
    ∙ ap (λ b. worth * tmp + b) (stacks_for_lem ws worth (money - tmp * worth) k.2 d.0)
    ∙ d.1

module _ {W : Type 0} (held : W → ℕ) (add : Stack → W → Option ℕ × W) (drop : Stack → W → Bool × W)
    (fits : (s : Stack) (w : W) → (add s w).0 ≡ none → held (add s w).1 ≡ held w + s.0 * s.1)
    (part : (s : Stack) (w : W) (r : ℕ)
      → (add s w).0 ≡ some r
      → r ≢ 0
      → (r ≤ s.1) × (held (add s w).1 ≡ held w + s.0 * (s.1 - r)))
    (nothing : (s : Stack) (w : W) → (add s w).0 ≡ some 0 → held (add s w).1 ≡ held w)
    (drops : (s : Stack) (w : W)
      → ((drop s w).0 ≡ true) × (held (drop s w).1 ≡ held w + s.0 * s.1)) where
  deliver_lem :
      (s : Stack) (w : W)
      → ((deliver add drop true s w).0 ≡ true)
        × (held (deliver add drop true s w).1 ≡ held w + s.0 * s.1)
  unfolding deliver
  deliver_lem s w = elim (Option-cases (add s w).0) [
    | inl e ↦ rw (e, deliver) (refl, fits s w e)
    | inr (r, e) ↦ elim (Bool-cases (r == 0)) [
      | inl z ↦
          rw (e, deliver)
            (rw z (
              refl,
              (drops s (add s w).1).1
                  ∙ ap (λ n. n + s.0 * s.1) (nothing s w (e ∙ ap some ((==_iff r 0).0 z))),
            ))
      | inr p ↦
          let k = part s w r e (==→ne r 0 p) in
          let split = mul-add s.0 (s.1 - r) r in
          let whole : s.1 - r + r ≡ s.1 = omega (arith, k.0) in
          rw (e, deliver)
            (rw p (
              refl,
              omega (arith, (drops (s.0, r) (add s w).1).1, k.1, split, ap (λ n. s.0 * n) whole),
            ))
    ]
  ]

  deliver_all_lem :
      (ss : List Stack) (w : W)
      → ((deliver_all add drop true ss w).0 ≡ true)
        × (held (deliver_all add drop true ss w).1 ≡ held w + stacks_worth ss)
  unfolding deliver_all
  deliver_all_lem [] w = (refl, omega arith)
  deliver_all_lem (s ∷ ss) w =
      let d = deliver_lem s w in
      let ih = deliver_all_lem ss (deliver add drop true s w).1 in
      rw (d.0, deliver_all) (ih.0, omega (arith, ih.1, d.1))

  -- `addMoney` with `canDrop` answers true, and the cylinder and the tile then hold exactly the amount
  -- more than before, whatever room they have and however it changes from one stack to the next, if
  -- the kinds of money end in one worth 1 and no more than 2 ^ 16 - 1 coins of a kind are due. This
  -- holds where the cylinder answers truly what of a stack does not fit, with 0 where nothing of it
  -- was added, and where the tile takes every stack.
  pub add_money_lem :
      (kinds : List ℕ) (bound money : ℕ) (w : W)
      → Kinds bound kinds
      → money < bound
      → ((add_money add drop true kinds money w).0 ≡ true)
        × (held (add_money add drop true kinds money w).1 ≡ held w + money)
  unfolding add_money
  add_money_lem kinds bound money w k h = elim (Bool-cases (money == 0)) [
    | inl e ↦ rw e (refl, omega (arith, (==_iff money 0).0 e))
    | inr e ↦
        let d = deliver_all_lem (stacks_for kinds money) w in
        rw e (d.0, omega (arith, d.1, stacks_for_lem kinds bound money k h))
  ]
