-- ===== src/Trade/Moves.antt =====
-- What the acceptance of a trade moves, in src/game.cpp.
use otxserver.Common.{
  ℕ, ◌≡◌, refl, sym, ap, ◌∙◌, ◌⊎◌, inl, inr, Bool, true, false, not, ◌&&◌, ◌||◌, Option, none, some,
  List, [], arith, ◌==◌, ==_iff, ==_refl, Bool-cases, if_intro, if_elim, length, All,
}
use otxserver.Trade.{
  trade_accept, is_trade_accept, is_trade_acknowledge, is_trade_initiated, Trades, Answers,
  transfers, set_state, accept_with, player_accept_trade,
}
use otxserver.Trade.Requests.{AllSound}

-- A move of an item that a player offers to that player's partner.
abbrev pub IsOffered : Trades → ℕ × ℕ → Type 0
IsOffered w m = (x : ℕ) × ((w.trader x).item ≡ some m.0) × ((w.trader x).partner ≡ some m.1)

transfers-IsOffered :
    (a : Answers) (p q : ℕ) (w : Trades) (o u : Option ℕ)
    → (w.trader p).item ≡ o
    → (w.trader q).item ≡ u
    → (w.trader p).partner ≡ some q
    → (w.trader q).partner ≡ some p
    → All (IsOffered w) (transfers a o u p q)
transfers-IsOffered a p q w none u e f h k = tt
transfers-IsOffered a p q w (some i) none e f h k = tt
transfers-IsOffered a p q w (some i) (some j) e f h k =
    if_intro (All (IsOffered w)) (a.adds && (a.removes && a.moves_first))
      ((p, e, h), if_intro (All (IsOffered w)) a.moves_second ((q, f, k), tt) tt) tt

abbrev pub Exchange : Answers → List (ℕ × ℕ) → Type 0
Exchange a ms = (ms ≡ []) ⊎ ((length ms ≡ 2) ⊎ ((length ms ≡ 1) × (a.moves_second ≡ false)))

transfers-Exchange : (a : Answers) (p q : ℕ) (o u : Option ℕ) → Exchange a (transfers a o u p q)
transfers-Exchange a p q none u = inl refl
transfers-Exchange a p q (some i) none = inl refl
transfers-Exchange a p q (some i) (some j) =
    if_intro (Exchange a) (a.adds && (a.removes && a.moves_first))
      (elim (Bool-cases a.moves_second) [
        | inl e ↦ rw e (inr (inl refl))
        | inr e ↦ rw e (inr (inr (refl, refl)))
      ])
      (inl refl)

-- What is proved of the moves, and of the states that they need.
abbrev pub Fair : Answers → ℕ → Trades → List (ℕ × ℕ) → Type 0
Fair a p w ms =
    All (IsOffered w) ms
    × Exchange a ms
    × ((ms ≡ [])
        ⊎ ((q : ℕ) × ((w.trader p).partner ≡ some q) × (is_trade_accept (w.trader q).state ≡ true)))

nothing : (a : Answers) (p : ℕ) (w : Trades) → Fair a p w []
nothing a p w = (tt, inl refl, inl refl)

not_or_false : (b c : Bool) → (not b || c) ≡ false → b ≡ true
not_or_false true c h = refl
not_or_false false c h = cc

accept_with-Fair :
    (a : Answers) (p : ℕ) (o : Option ℕ) (w : Trades)
    → AllSound w
    → (w.trader p).partner ≡ o
    → Fair a p w (accept_with a p o w).0
accept_with-Fair a p none w s e = nothing a p w
accept_with-Fair a p (some q) w s e =
    let b = s.both p q e in
    let n : (q == p) ≡ false = ground (arith, ==_iff q p) in
    let pp = ==_refl p in
    let w1 = set_state p trade_accept w in
    let at_p : (w1.trader p).item ≡ (w.trader p).item = rw pp refl in
    let at_q : w1.trader q ≡ w.trader q = rw n refl in
    if_intro (λ (x : List (ℕ × ℕ) × Trades). Fair a p w x.0) (not a.reachable) (nothing a p w)
      (if_elim (λ (x : List (ℕ × ℕ) × Trades). Fair a p w x.0)
        (not (is_trade_accept (w1.trader q).state) || a.denied) (λ c. nothing a p w)
        (λ c. (
          transfers-IsOffered a p q w (w1.trader p).item (w1.trader q).item (sym at_p)
              (sym (ap (λ t. t.item) at_q)) e b.1,
          transfers-Exchange a p q (w1.trader p).item (w1.trader q).item,
          inr (
            q,
            e,
            ap (λ t. is_trade_accept t.state) (sym at_q)
                ∙ not_or_false (is_trade_accept (w1.trader q).state) a.denied c,
          ),
        )))

-- Where the trades are sound, `playerAcceptTrade` moves nothing unless the partner has accepted before;
-- each item that it moves goes from the player who offers it to that player's partner; and it moves
-- both items or none, unless the second move, whose answer the code ignores, is refused.
pub player_accept_trade-Fair :
    (a : Answers) (p : ℕ) (w : Trades) → AllSound w → Fair a p w (player_accept_trade a p w).0
unfolding player_accept_trade
player_accept_trade-Fair a p w s =
    if_intro (λ (x : List (ℕ × ℕ) × Trades). Fair a p w x.0)
      (not (is_trade_acknowledge (w.trader p).state || is_trade_initiated (w.trader p).state))
      (nothing a p w) (accept_with-Fair a p (w.trader p).partner w s refl)
