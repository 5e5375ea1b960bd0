-- ===== src/Tests/Ticks.antt =====
-- Runs of the theorems on the server's ticks.
use cpp_matching_engine.Prelude.{ℕ, ◌≡◌, refl, [], ◌∷◌, some, none, arith, nat_eq, ◌<◌}
use cpp_matching_engine.Prelude.Map
use cpp_matching_engine.Prelude.Int.{ℤ, pos}
use cpp_matching_engine.Double.Whole.{whole, whole-IsOrdered}
use cpp_matching_engine.Types.{buy, limit, gtc}
use cpp_matching_engine.Exchange.{new_exchange, has_symbol, add_symbol}
use cpp_matching_engine.TradingAgent.{new_agent}
use cpp_matching_engine.Traders.MarketMaker
use cpp_matching_engine.Traders.MarketMaker.{new_market_maker}
use cpp_matching_engine.Traders.Random.{new_random_trader}
use cpp_matching_engine.MercuryServer.{MercuryServer, Inputs, new_mercury_server, run_tick}
use cpp_matching_engine.MercuryServer.Ticks.{IsSound, run_tick-IsSound}
use cpp_matching_engine.MercuryServer.Starting.{
  Reachable, starts, ticks, Reachable-IsSound, new_mercury_server-IsSound,
}
use cpp_matching_engine.Tests.Data.{order}
use cpp_matching_engine.Tests.Valid.{order-IsSized}
use cpp_matching_engine.Tests.Listed.{listed, listed-IsRouted}

abbrev clock : ℕ → ℕ
clock n = n

-- The server with a book that holds orders, whose ids are all from outside.
abbrev server : MercuryServer ℤ
server = record {
  ex = listed;
  mm = new_market_maker 1 MarketMaker.new_config;
  noise = new_random_trader 2;
  tick = 0;
}

abbrev inputs : Inputs ℤ
inputs = record {
  mm_acquired = λ k. order 0 buy limit gtc 0 0;
  noise_acquired = order 0 buy limit gtc 0 0;
  draw = record { qty = pos 40; side_prob = pos 0; type_prob = pos 1; noise = pos 0 };
  external = order 9 buy limit gtc 101 60 ∷ [];
}

unlisted : (k : ℕ) → 6 < k → Map.find k listed.global_order_index ≡ none
unfolding Map.find
unlisted k h = ground arith

server-IsSound : IsSound server
unfolding new_market_maker new_random_trader new_agent has_symbol Map.find
server-IsSound = record {
  routed = listed-IsRouted;
  listed = refl;
  mm_behind = (omega arith, λ k above below. unlisted k (omega arith));
  noise_behind = (omega arith, λ k above below. unlisted k (omega arith));
  apart = λ e. absurd (omega arith);
}

run_tick-IsSound_example :
    (z : MercuryServer ℤ) × (run_tick clock inputs server ≡ some z) × IsSound z
unfolding new_market_maker new_random_trader new_agent
run_tick-IsSound_example =
    run_tick-IsSound whole-IsOrdered clock inputs server server-IsSound (omega arith, omega arith)
      (omega arith, omega arith)
      (
        (order-IsSized 9 buy limit gtc 101 60 (omega arith), unlisted 9 (omega arith), tt, tt),
        (omega arith, tt),
      )

-- The first tick of a new server.
first_tick : (z : MercuryServer ℤ) × (run_tick clock inputs new_mercury_server ≡ some z) × IsSound z
unfolding new_mercury_server new_exchange add_symbol new_market_maker new_random_trader new_agent
    Map.find Map.insert
first_tick =
    run_tick-IsSound whole-IsOrdered clock inputs new_mercury_server new_mercury_server-IsSound
      (omega arith, omega arith) (omega arith, omega arith)
      ((order-IsSized 9 buy limit gtc 101 60 (omega arith), refl, tt, tt), (omega arith, tt))

first_tick-Reachable : Reachable clock first_tick.0
unfolding new_mercury_server new_exchange add_symbol new_market_maker new_random_trader new_agent
    Map.find Map.insert
first_tick-Reachable =
    ticks inputs new_mercury_server first_tick.0 starts (omega arith, omega arith)
      (omega arith, omega arith)
      ((order-IsSized 9 buy limit gtc 101 60 (omega arith), refl, tt, tt), (omega arith, tt))
      first_tick.1

Reachable-IsSound_example : IsSound first_tick.0
Reachable-IsSound_example =
    Reachable-IsSound whole-IsOrdered clock first_tick.0 first_tick-Reachable
