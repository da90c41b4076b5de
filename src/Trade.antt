-- ===== src/Trade.antt =====
-- Trades between players, in src/game.cpp: `playerRequestTrade`, `internalStartTrade`,
-- `playerAcceptTrade` and `internalCloseTrade`. Players and items are numbers. What the server asks of
-- the world, of scripts and of the inventories before and in a trade is an argument, and so is the
-- answer of each call that moves an item; messages and the delay between requests are not modelled.
pub mod Pairs
pub mod Start
pub mod Requests
pub mod Ends
pub mod Moves
mod Tests
use otxserver.Common.{
  ℕ, zero, suc, ◌+◌, ◌-◌, ◌*◌, ◌/◌, ◌%◌, ◌^◌, ◌≤◌, ◌<◌, min, max, ◌≡◌, refl, sym, ap, ◌∙◌, ◌≢◌, ◌↔◌,
  ◌⊎◌, inl, inr, Bool, true, false, not, ◌&&◌, ◌||◌, Option, none, some, List, [], ◌∷◌, ◌++◌, map,
  arith, ltb, leb, ◌==◌, if◌then◌else◌, ltb→lt, lt→ltb, leb→le, ==_iff, ==_refl, Bool-cases,
  Option-cases, dist, if_intro, length, get_elem?, get_or, set, take, drop, length-append,
  take-append, drop-append, All, All-append,
}

-- `TradeState_t`
pub data TradeState : Type 0 where
  trade_none trade_initiated trade_accept trade_acknowledge trade_transfer : TradeState

abbrev pub is_trade_none : TradeState → Bool
is_trade_none trade_none = true
is_trade_none trade_initiated = false
is_trade_none trade_accept = false
is_trade_none trade_acknowledge = false
is_trade_none trade_transfer = false

abbrev pub is_trade_accept : TradeState → Bool
is_trade_accept trade_none = false
is_trade_accept trade_initiated = false
is_trade_accept trade_accept = true
is_trade_accept trade_acknowledge = false
is_trade_accept trade_transfer = false

abbrev pub is_trade_acknowledge : TradeState → Bool
is_trade_acknowledge trade_none = false
is_trade_acknowledge trade_initiated = false
is_trade_acknowledge trade_accept = false
is_trade_acknowledge trade_acknowledge = true
is_trade_acknowledge trade_transfer = false

abbrev pub is_trade_initiated : TradeState → Bool
is_trade_initiated trade_none = false
is_trade_initiated trade_initiated = true
is_trade_initiated trade_accept = false
is_trade_initiated trade_acknowledge = false
is_trade_initiated trade_transfer = false

abbrev pub is_trade_transfer : TradeState → Bool
is_trade_transfer trade_none = false
is_trade_transfer trade_initiated = false
is_trade_transfer trade_accept = false
is_trade_transfer trade_acknowledge = false
is_trade_transfer trade_transfer = true

-- `m_tradePartner`, `m_tradeItem` and `m_tradeState` of a player.
pub record Trader : Type 0 where
  pub partner : Option ℕ
  pub item : Option ℕ
  pub state : TradeState

abbrev pub no_trade : Trader
no_trade = record { partner = none; item = none; state = trade_none }

-- `tradeItems`, and the players.
pub record Trades : Type 0 where
  pub trade_items : List (ℕ × ℕ)
  pub trader : ℕ → Trader

abbrev pub put : ℕ → Trader → (ℕ → Trader) → ℕ → Trader
put p t f r = if r == p then t else f r

abbrev pub is_player : Option ℕ → ℕ → Bool
is_player none q = false
is_player (some p) q = p == q

-- `tradeItems` is a std::map: `find`, `erase` and `tradeItems[item] = player`.
unfoldable pub find_item : ℕ → List (ℕ × ℕ) → Option ℕ
find_item i [] = none
find_item i (e ∷ es) = let rest = find_item i es in if e.0 == i then some e.1 else rest

unfoldable pub erase_item : ℕ → List (ℕ × ℕ) → List (ℕ × ℕ)
erase_item i [] = []
erase_item i (e ∷ es) = let rest = erase_item i es in if e.0 == i then rest else e ∷ rest

abbrev pub put_item : ℕ → ℕ → List (ℕ × ℕ) → List (ℕ × ℕ)
put_item i p es = (i, p) ∷ erase_item i es

abbrev pub erase_found : Option ℕ → List (ℕ × ℕ) → List (ℕ × ℕ)
erase_found none es = es
erase_found (some i) es = erase_item i es

-- The end of `internalStartTrade`: the partner, where it is not yet in a trade.
abbrev pub acknowledge : ℕ → ℕ → Trades → Trades
acknowledge p q w =
    if is_trade_none (w.trader q).state
    then record w {
      trader = put q (record (w.trader q) { state = trade_acknowledge; partner = some p }) w.trader;
    }
    else w

-- `internalStartTrade`
unfoldable pub internal_start_trade : ℕ → ℕ → ℕ → Trades → Bool × Trades
internal_start_trade p q i w =
    let tp = w.trader p in
    let tq = w.trader q in
    if not (is_trade_none tp.state) && not (is_trade_acknowledge tp.state && is_player tp.partner q)
    then (false, w)
    else (if not (is_trade_none tq.state) && not (is_player tq.partner p) then (false, w) else (
      true,
      acknowledge p q (record {
        trade_items = put_item i p w.trade_items;
        trader =
            put p (record { partner = some q; item = some i; state = trade_initiated }) w.trader;
      }),
    ))

-- The loop over `tradeItems`: the item, or one that it holds, or one that holds it, is in a trade.
abbrev pub is_traded : (ℕ → ℕ → Bool) → ℕ → List (ℕ × ℕ) → Bool
is_traded is_holding i [] = false
is_traded is_holding i (e ∷ es) =
    (i == e.0 || (is_holding i e.0 || is_holding e.0 i)) || is_traded is_holding i es

-- `playerRequestTrade`, where the item is found, at hand; `allowed` answers its other tests.
unfoldable pub player_request_trade : (ℕ → ℕ → Bool) → Bool → ℕ → ℕ → ℕ → Trades → Bool × Trades
player_request_trade is_holding allowed p q i w =
    if q == p || (not allowed || is_traded is_holding i w.trade_items)
    then (false, w)
    else internal_start_trade p q i w

-- What `playerAcceptTrade` is answered: whether the partner is within reach, whether a script denies,
-- the two tests of adding and of removing, and the two moves.
pub record Answers : Type 0 where
  pub reachable : Bool
  pub denied : Bool
  pub adds : Bool
  pub removes : Bool
  pub moves_first : Bool
  pub moves_second : Bool

-- The moves that are made: an item, and the player that gets it.
abbrev pub transfers : Answers → Option ℕ → Option ℕ → ℕ → ℕ → List (ℕ × ℕ)
transfers a none o p q = []
transfers a (some i) none p q = []
transfers a (some i) (some j) p q =
    if a.adds && (a.removes && a.moves_first)
    then (i, q) ∷ (if a.moves_second then (j, p) ∷ [] else [])
    else []

-- Both are done.
abbrev pub end_trade : ℕ → ℕ → Trades → Trades
end_trade p q w = record w { trader = put q no_trade (put p no_trade w.trader) }

abbrev pub set_state : ℕ → TradeState → Trades → Trades
set_state p s w = record w { trader = put p (record (w.trader p) { state = s }) w.trader }

-- From where both have accepted and no script denies.
abbrev pub transfer : Answers → ℕ → ℕ → Trades → List (ℕ × ℕ) × Trades
transfer a p q w =
    let i = (w.trader p).item in
    let j = (w.trader q).item in
    let w1 = set_state q trade_transfer (set_state p trade_transfer w) in
    let w2 = record w1 { trade_items = erase_found j (erase_found i w1.trade_items) } in
    (transfers a i j p q, end_trade p q w2)

abbrev pub accept_with : Answers → ℕ → Option ℕ → Trades → List (ℕ × ℕ) × Trades
accept_with a p none w = ([], w)
accept_with a p (some q) w =
    let w1 = set_state p trade_accept w in
    if not a.reachable
    then ([], w)
    else (if not (is_trade_accept (w1.trader q).state) || a.denied
        then ([], w1)
        else transfer a p q w1)

-- `playerAcceptTrade`: the moves that it makes, and the trades after it.
unfoldable pub player_accept_trade : Answers → ℕ → Trades → List (ℕ × ℕ) × Trades
player_accept_trade a p w =
    let t = w.trader p in
    if not (is_trade_acknowledge t.state || is_trade_initiated t.state)
    then ([], w)
    else accept_with a p t.partner w

-- A player of a trade that is closed.
abbrev pub cancel : ℕ → Trades → Trades
cancel p w = record {
  trade_items = erase_found (w.trader p).item w.trade_items;
  trader = put p no_trade w.trader;
}

abbrev pub close_with : ℕ → Option ℕ → Trades → Trades
close_with p none w = if is_trade_transfer (w.trader p).state then w else cancel p w
close_with p (some q) w =
    if is_trade_transfer (w.trader q).state || is_trade_transfer (w.trader p).state
    then w
    else cancel q (cancel p w)

-- `internalCloseTrade`
unfoldable pub internal_close_trade : ℕ → Trades → Trades
internal_close_trade p w = close_with p (w.trader p).partner w
