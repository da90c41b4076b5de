-- ===== src/Trade/Requests.antt =====
-- The calls of a trade in src/game.cpp keep who trades with whom, and move only what is offered.
use otxserver.Common.{
  ℕ, ◌≡◌, refl, sym, ap, ◌∙◌, ◌≢◌, ◌⊎◌, inl, inr, Bool, true, false, not, ◌&&◌, ◌||◌, Option, none,
  some, List, [], ◌∷◌, arith, ◌==◌, if◌then◌else◌, ==_iff, ==_refl, Bool-cases, Option-cases,
  if_intro, if_elim,
}
use mathlib.Core.Path.{subst}
use otxserver.Trade.{
  TradeState, trade_none, trade_initiated, trade_accept, trade_acknowledge, trade_transfer,
  is_trade_none, is_trade_acknowledge, Trader, no_trade, Trades, put, is_player, find_item,
  erase_item, put_item, erase_found, acknowledge, internal_start_trade, is_traded,
  player_request_trade,
}
use otxserver.Trade.Pairs.{is_open, Sound, is_player-some}
use otxserver.Trade.Start.{started-Sound}

find-erase :
    (j i : ℕ) (es : List (ℕ × ℕ))
    → find_item j (erase_item i es) ≡ (if i == j then none else find_item j es)
unfolding find_item erase_item
find-erase j i [] = if_intro (λ (o : Option ℕ). none ≡ o) (i == j) refl refl
find-erase j i (e ∷ es) = elim (Bool-cases (e.0 == i)) [
  | inl a ↦
      let z = (==_iff e.0 i).0 a in
      rw a (
        find-erase j i es ∙ (elim (Bool-cases (i == j)) [
          | inl b ↦ rw b refl
          | inr b ↦ let c : (e.0 == j) ≡ false = rw z b in rw (b, c) refl
        ]))
  | inr a ↦ rw a (elim (Bool-cases (e.0 == j)) [
    | inl c ↦ let d : (i == j) ≡ false = ground (arith, ==_iff e.0 j, ==_iff i j) in rw (c, d) refl
    | inr c ↦ rw c (find-erase j i es)
  ])
]

pub find-erase_found :
    (j : ℕ) (o : Option ℕ) (es : List (ℕ × ℕ))
    → find_item j (erase_found o es) ≡ (if is_player o j then none else find_item j es)
find-erase_found j none es = refl
find-erase_found j (some i) es = find-erase j i es

find-put :
    (j i p : ℕ) (es : List (ℕ × ℕ))
    → find_item j (put_item i p es) ≡ (if j == i then some p else find_item j es)
unfolding find_item
find-put j i p es = elim (Bool-cases (j == i)) [
  | inl a ↦ let b : (i == j) ≡ true = ground arith in rw (a, b) refl
  | inr a ↦ let b : (i == j) ≡ false = ground arith in rw (a, b) (find-erase j i es ∙ rw b refl)
]

-- An item that is not traded is not on the list.
untraded :
    (is_holding : ℕ → ℕ → Bool) (i : ℕ) (es : List (ℕ × ℕ))
    → is_traded is_holding i es ≡ false
    → find_item i es ≡ none
unfolding find_item
untraded is_holding i [] h = refl
untraded is_holding i (e ∷ es) h =
    let a : (e.0 == i) ≡ false = ground arith in rw a (untraded is_holding i es (ground arith))

-- What holds of the trades of the game.
abbrev pub AllSound : Trades → Type 0
AllSound w = Sound w.trader (λ i. find_item i w.trade_items)

pub none_state : (s : TradeState) → is_trade_none s ≡ true → is_open s ≡ false
none_state trade_none h = refl
none_state trade_initiated h = cc
none_state trade_accept h = cc
none_state trade_acknowledge h = cc
none_state trade_transfer h = cc

in_no_trade :
    (T : ℕ → Trader) (F : ℕ → Option ℕ) (p : ℕ)
    → Sound T F
    → is_trade_none (T p).state ≡ true
    → T p ≡ no_trade
in_no_trade T F p s h = elim (Option-cases (T p).partner) [
  | inl e ↦ s.idle p e
  | inr (q, e) ↦ let a = s.active p q e in let b = none_state (T p).state h in cc
]

not-true-false : (b : Bool) → not b ≡ false → b ≡ true
not-true-false true h = refl
not-true-false false h = cc

no_item :
    (T : ℕ → Trader) (F : ℕ → Option ℕ) (p q : ℕ)
    → Sound T F
    → (not (is_trade_none (T p).state)
        && not (is_trade_acknowledge (T p).state && is_player (T p).partner q))
      ≡ false
    → ((T p).item ≡ none) × ((x : ℕ) → (T p).partner ≡ some x → x ≡ q)
no_item T F p q s h = elim (Bool-cases (is_trade_none (T p).state)) [
  | inl e ↦
      let z = in_no_trade T F p s e in
      (ap (λ t. t.item) z, λ x k. let d = ap (λ t. t.partner) (sym z) ∙ k in cc)
  | inr e ↦ elim (Bool-cases (is_trade_acknowledge (T p).state)) [
    | inr f ↦ let k = rw (e, f) at h in cc
    | inl f ↦
        let d : is_player (T p).partner q ≡ true =
          (let k = rw (e, f) at h in not-true-false (is_player (T p).partner q) k) in
        (s.asked p f, λ x k. (==_iff x q).0 (rw k at d))
  ]
]

request_partner :
    (T : ℕ → Trader) (F : ℕ → Option ℕ) (p q : ℕ)
    → Sound T F
    → (not (is_trade_none (T q).state) && not (is_player (T q).partner p)) ≡ false
    → (T q ≡ no_trade) ⊎ ((is_trade_none (T q).state ≡ false) × ((T q).partner ≡ some p))
request_partner T F p q s h = elim (Bool-cases (is_trade_none (T q).state)) [
  | inl e ↦ inl (in_no_trade T F q s e)
  | inr e ↦
      let k = rw e at h in
      inr (e, is_player-some (T q).partner p (not-true-false (is_player (T q).partner p) k))
]

acknowledge-Sound :
    (p q i : ℕ) (w : Trades)
    → AllSound w
    → p ≢ q
    → find_item i w.trade_items ≡ none
    → ((w.trader p).item ≡ none) × ((x : ℕ) → (w.trader p).partner ≡ some x → x ≡ q)
    → (w.trader q ≡ no_trade)
      ⊎ ((is_trade_none (w.trader q).state ≡ false) × ((w.trader q).partner ≡ some p))
    → AllSound (
        acknowledge p q (record {
          trade_items = put_item i p w.trade_items;
          trader =
              put p (record { partner = some q; item = some i; state = trade_initiated }) w.trader;
        }))
acknowledge-Sound p q i w s ne new_item (empty, free) r =
    let T = w.trader in
    let F = λ (j : ℕ). find_item j w.trade_items in
    let P : Trader = record { partner = some q; item = some i; state = trade_initiated } in
    let w1 : Trades = record { trade_items = put_item i p w.trade_items; trader = put p P T } in
    let p_not_q : (p == q) ≡ false = ground (arith, ==_iff p q) in
    let q_not_p : (q == p) ≡ false = ground (arith, ==_iff q p) in
    let pp : (p == p) ≡ true = ==_refl p in
    let qq : (q == q) ≡ true = ==_refl q in
    let up : put p P T p ≡ P = rw pp refl in
    let at_q : put p P T q ≡ T q = rw q_not_p refl in
    let rest : (r : ℕ) → r ≢ p → put p P T r ≡ T r =
      λ r a. let n : (r == p) ≡ false = ground (arith, ==_iff r p) in rw n refl in
    elim r [
      | inl z ↦
          let Q : Trader = record (put p P T q) { state = trade_acknowledge; partner = some p } in
          let U = put q Q (put p P T) in
          let test : is_trade_none (put p P T q).state ≡ true =
            ap (λ t. is_trade_none t.state) (at_q ∙ z) in
          let e : acknowledge p q w1 ≡ record w1 { trader = U } = rw test refl in
          let uq : U q ≡ Q = rw qq refl in
          let none_q : (T q).item ≡ none = ap (λ t. t.item) z in
          let same_item : (U q).item ≡ (T q).item = ap (λ t. t.item) uq ∙ ap (λ t. t.item) at_q in
          subst (λ (u : Trades). AllSound u) (sym e)
            (started-Sound T U F (λ j. find_item j (put_item i p w.trade_items)) p q i s ne free
              (λ x k. let d = ap (λ t. t.partner) (sym z) ∙ k in cc) empty new_item
              (let u : U p ≡ put p P T p = rw p_not_q refl in u ∙ up) (ap (λ t. t.partner) uq)
              same_item (ap (λ t. is_open t.state) uq) (λ k. same_item ∙ none_q)
              (λ r a b.
                let n : (r == q) ≡ false = ground (arith, ==_iff r q) in
                let u : U r ≡ put p P T r = rw n refl in u ∙ rest r a)
              (λ j. find-put j i p w.trade_items))
      | inr (n, k) ↦
          let U = put p P T in
          let test : is_trade_none (put p P T q).state ≡ false =
            ap (λ t. is_trade_none t.state) at_q ∙ n in
          let e : acknowledge p q w1 ≡ w1 = rw test refl in
          let same_item : (U q).item ≡ (T q).item = ap (λ t. t.item) at_q in
          subst (λ (u : Trades). AllSound u) (sym e)
            (started-Sound T U F (λ j. find_item j (put_item i p w.trade_items)) p q i s ne free
              (λ x l. let d = sym k ∙ l in cc) empty new_item up (ap (λ t. t.partner) at_q ∙ k)
              same_item (ap (λ t. is_open t.state) at_q ∙ s.active q p k)
              (λ l. same_item ∙ s.asked q (ap (λ t. is_trade_acknowledge t.state) (sym at_q) ∙ l))
              (λ r a b. rest r a) (λ j. find-put j i p w.trade_items))
    ]

internal_start_trade-Sound :
    (p q i : ℕ) (w : Trades)
    → AllSound w
    → p ≢ q
    → find_item i w.trade_items ≡ none
    → AllSound (internal_start_trade p q i w).1
unfolding internal_start_trade
internal_start_trade-Sound p q i w s ne f =
    let tp = w.trader p in
    let tq = w.trader q in
    let F = λ (j : ℕ). find_item j w.trade_items in
    if_elim (λ (x : Bool × Trades). AllSound x.1)
      (not (is_trade_none tp.state)
        && not (is_trade_acknowledge tp.state && is_player tp.partner q))
      (λ a. s)
      (λ a.
        if_elim (λ (x : Bool × Trades). AllSound x.1)
          (not (is_trade_none tq.state) && not (is_player tq.partner p)) (λ b. s)
          (λ b.
            acknowledge-Sound p q i w s ne f (no_item w.trader F p q s a)
              (request_partner w.trader F p q s b)))

pub player_request_trade-Sound :
    (is_holding : ℕ → ℕ → Bool) (allowed : Bool) (p q i : ℕ) (w : Trades)
    → AllSound w
    → AllSound (player_request_trade is_holding allowed p q i w).1
unfolding player_request_trade
player_request_trade-Sound is_holding allowed p q i w s =
    if_elim (λ (x : Bool × Trades). AllSound x.1)
      (q == p || (not allowed || is_traded is_holding i w.trade_items)) (λ a. s)
      (λ a.
        internal_start_trade-Sound p q i w s (ground (arith, ==_iff q p))
          (untraded is_holding i w.trade_items (ground arith)))
