-- ===== src/Trade/Ends.antt =====
-- The ends of a trade in src/game.cpp, and all its calls.
use otxserver.Common.{
  ℕ, ◌≡◌, refl, sym, ap, ◌∙◌, ◌≢◌, inl, inr, Bool, false, not, ◌||◌, Option, none, some, List, [],
  ◌∷◌, arith, ◌==◌, if◌then◌else◌, ==→ne, ==_iff, ==_refl, Bool-cases, if_intro,
}
use otxserver.Trade.{
  trade_accept, trade_transfer, is_trade_accept, is_trade_acknowledge, is_trade_initiated,
  is_trade_transfer, Trader, no_trade, Trades, put, is_player, find_item, erase_found,
  player_request_trade, Answers, set_state, transfer, accept_with, player_accept_trade, cancel,
  close_with, internal_close_trade,
}
use otxserver.Trade.Pairs.{same-Sound, ended-Sound, accepted-Sound}
use otxserver.Trade.Requests.{AllSound, find-erase_found, player_request_trade-Sound}

-- The two players are put last to no trade, whatever they were put to before.
put_twice :
    (T U : ℕ → Trader) (p q r : ℕ)
    → (r ≢ p → r ≢ q → U r ≡ T r)
    → put q no_trade (put p no_trade U) r
      ≡ (if r == q then no_trade else (if r == p then no_trade else T r))
put_twice T U p q r h = elim (Bool-cases (r == q)) [
  | inl a ↦ rw a refl
  | inr a ↦ elim (Bool-cases (r == p)) [
    | inl b ↦ rw (a, b) refl
    | inr b ↦ rw (a, b) (h (==→ne r p b) (==→ne r q a))
  ]
]

erase_both :
    (j : ℕ) (o u : Option ℕ) (es : List (ℕ × ℕ))
    → find_item j (erase_found u (erase_found o es))
      ≡ (if is_player o j || is_player u j then none else find_item j es)
erase_both j o u es =
    find-erase_found j u (erase_found o es)
    ∙ rw (find-erase_found j o es) (elim (Bool-cases (is_player o j)) [
      | inl a ↦ elim (Bool-cases (is_player u j)) [
        | inl b ↦ rw (a, b) refl
        | inr b ↦ rw (a, b) refl
      ]
      | inr a ↦ elim (Bool-cases (is_player u j)) [
        | inl b ↦ rw (a, b) refl
        | inr b ↦ rw (a, b) refl
      ]
    ])

transfer-Sound :
    (a : Answers) (p q : ℕ) (w : Trades)
    → AllSound w
    → (w.trader p).partner ≡ some q
    → AllSound (transfer a p q w).1
transfer-Sound a p q w s h =
    let T = w.trader in
    let w1 = set_state q trade_transfer (set_state p trade_transfer w) in
    let i = (T p).item in
    let j = (T q).item in
    ended-Sound T (put q no_trade (put p no_trade w1.trader)) (λ x. find_item x w.trade_items)
      (λ x. find_item x (erase_found j (erase_found i w.trade_items))) p q s h
      (λ r. put_twice T w1.trader p q r (λ b c.
        let bp : (r == p) ≡ false = ground (arith, ==_iff r p) in
        let bq : (r == q) ≡ false = ground (arith, ==_iff r q) in rw (bq, bp) refl))
      (λ x. erase_both x i j w.trade_items)

accept_with-Sound :
    (a : Answers) (p : ℕ) (o : Option ℕ) (w : Trades)
    → AllSound w
    → (w.trader p).partner ≡ o
    → AllSound (accept_with a p o w).1
accept_with-Sound a p none w s e = s
accept_with-Sound a p (some q) w s e =
    let AS = λ (x : List (ℕ × ℕ) × Trades). AllSound x.1 in
    let w1 = set_state p trade_accept w in
    let s1 =
      accepted-Sound w.trader w1.trader (λ x. find_item x w.trade_items) p q s e (λ r. refl) in
    let h1 : (w1.trader p).partner ≡ some q = (let pp = ==_refl p in rw pp e) in
    if_intro AS (not a.reachable) s (
      if_intro AS (not (is_trade_accept (w1.trader q).state) || a.denied) s1
        (transfer-Sound a p q w1 s1 h1))

player_accept_trade-Sound :
    (a : Answers) (p : ℕ) (w : Trades) → AllSound w → AllSound (player_accept_trade a p w).1
unfolding player_accept_trade
player_accept_trade-Sound a p w s =
    if_intro (λ (x : List (ℕ × ℕ) × Trades). AllSound x.1)
      (not (is_trade_acknowledge (w.trader p).state || is_trade_initiated (w.trader p).state)) s
      (accept_with-Sound a p (w.trader p).partner w s refl)

cancel-Sound :
    (p : ℕ) (w : Trades) → AllSound w → (w.trader p).partner ≡ none → AllSound (cancel p w)
cancel-Sound p w s h =
    let z = s.idle p h in
    same-Sound w.trader (put p no_trade w.trader) (λ x. find_item x w.trade_items)
      (λ x. find_item x (erase_found (w.trader p).item w.trade_items)) s
      (λ r. elim (Bool-cases (r == p)) [
        | inl a ↦ rw a (sym (ap w.trader ((==_iff r p).0 a) ∙ z))
        | inr a ↦ rw a refl
      ])
      (λ x. ap (λ (t : Trader). find_item x (erase_found t.item w.trade_items)) z)

close_both :
    (p q : ℕ) (w : Trades)
    → AllSound w
    → (w.trader p).partner ≡ some q
    → AllSound (cancel q (cancel p w))
close_both p q w s h =
    let T = w.trader in
    let apart = (s.both p q h).0 in
    let n : (q == p) ≡ false = ground (arith, ==_iff q p) in
    let j : (put p no_trade T q).item ≡ (T q).item = rw n refl in
    ended-Sound T (put q no_trade (put p no_trade T)) (λ x. find_item x w.trade_items)
      (λ x.
        find_item x (erase_found (put p no_trade T q).item (erase_found (T p).item w.trade_items)))
      p q s h (λ r. put_twice T T p q r (λ b c. refl))
      (λ x.
        ap (λ (o : Option ℕ). find_item x (erase_found o (erase_found (T p).item w.trade_items))) j
        ∙ erase_both x (T p).item (T q).item w.trade_items)

close_with-Sound :
    (p : ℕ) (o : Option ℕ) (w : Trades)
    → AllSound w
    → (w.trader p).partner ≡ o
    → AllSound (close_with p o w)
close_with-Sound p none w s e =
    if_intro (λ (x : Trades). AllSound x) (is_trade_transfer (w.trader p).state) s
      (cancel-Sound p w s e)
close_with-Sound p (some q) w s e =
    if_intro (λ (x : Trades). AllSound x)
      (is_trade_transfer (w.trader q).state || is_trade_transfer (w.trader p).state) s
      (close_both p q w s e)

internal_close_trade-Sound : (p : ℕ) (w : Trades) → AllSound w → AllSound (internal_close_trade p w)
unfolding internal_close_trade
internal_close_trade-Sound p w s = close_with-Sound p (w.trader p).partner w s refl

-- The calls of the trades of a game.
pub data Call : Type 0 where
  requests : Bool → ℕ → ℕ → ℕ → Call
  accepts : Answers → ℕ → Call
  closes : ℕ → Call

unfoldable pub call : (ℕ → ℕ → Bool) → Call → Trades → Trades
call is_holding (requests allowed p q i) w = (player_request_trade is_holding allowed p q i w).1
call is_holding (accepts a p) w = (player_accept_trade a p w).1
call is_holding (closes p) w = internal_close_trade p w

unfoldable pub run : (ℕ → ℕ → Bool) → List Call → Trades → Trades
run is_holding [] w = w
run is_holding (c ∷ cs) w = run is_holding cs (call is_holding c w)

-- Through any sequence of requests, acceptances and closings of trades, whatever is answered in them:
-- two players of a trade have each other as partners, and nobody else does; a player without a partner
-- is in no trade and offers nothing, and one who has only been asked offers nothing; and `tradeItems`
-- holds exactly the items that are offered, each with its player, so that no item is offered twice.
pub run-Sound :
    (is_holding : ℕ → ℕ → Bool) (cs : List Call) (w : Trades)
    → AllSound w
    → AllSound (run is_holding cs w)
unfolding run call
run-Sound is_holding [] w s = s
run-Sound is_holding (requests allowed p q i ∷ cs) w s =
    run-Sound is_holding cs _ (player_request_trade-Sound is_holding allowed p q i w s)
run-Sound is_holding (accepts a p ∷ cs) w s =
    run-Sound is_holding cs _ (player_accept_trade-Sound a p w s)
run-Sound is_holding (closes p ∷ cs) w s =
    run-Sound is_holding cs _ (internal_close_trade-Sound p w s)
