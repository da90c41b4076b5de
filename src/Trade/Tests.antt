-- ===== src/Trade/Tests.antt =====
-- The theorems on trades at three players.
use otxserver.Common.{ℕ, refl, Bool, true, false, List, [], ◌∷◌}
use otxserver.Trade.{no_trade, Trades, Answers, find_item, player_accept_trade}
use otxserver.Trade.Requests.{AllSound}
use otxserver.Trade.Ends.{Call, requests, accepts, run, run-Sound}
use otxserver.Trade.Moves.{Fair, player_accept_trade-Fair}

abbrev nobody : Trades
nobody = record { trade_items = []; trader = λ p. no_trade }

abbrev lacking : ℕ → ℕ → Bool
lacking i j = false

abbrev fine : Answers
fine = record {
  reachable = true;
  denied = false;
  adds = true;
  removes = true;
  moves_first = true;
  moves_second = true;
}

abbrev calls : List Call
calls = requests true 1 2 10 ∷ requests true 2 1 20 ∷ requests true 3 1 30 ∷ accepts fine 1 ∷ []

nobody-Sound : AllSound nobody
unfolding find_item
nobody-Sound = record {
  both = λ p q h. cc;
  idle = λ p h. refl;
  active = λ p q h. cc;
  asked = λ p h. refl;
  listed = λ p i h. cc;
  offered = λ p i h. cc;
}

run-Sound_example : AllSound (run lacking calls nobody)
run-Sound_example = run-Sound lacking calls nobody nobody-Sound

player_accept_trade-Fair_example :
    Fair fine 2 (run lacking calls nobody) (player_accept_trade fine 2 (run lacking calls nobody)).0
player_accept_trade-Fair_example =
    player_accept_trade-Fair fine 2 (run lacking calls nobody)
      (run-Sound lacking calls nobody nobody-Sound)
