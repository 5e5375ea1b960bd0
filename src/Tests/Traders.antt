-- ===== src/Tests/Traders.antt =====
-- Runs of the theorems on the trading agents.
use cpp_matching_engine.Prelude.{
  ℕ, some, ◌-◌, ◌+◌, ◌≡◌, refl, List, [], ◌∷◌, ◌≤◌, length, All, arith,
}
use cpp_matching_engine.Prelude.Int.{ℤ, pos, ◌-ℤ◌, negsuc}
use cpp_matching_engine.Double.{Double, IsOrdered}
use cpp_matching_engine.Double.Whole.{whole, whole-IsOrdered}
use cpp_matching_engine.Types.{buy, sell, market, Order, limit, gtc, set_symbol}
use cpp_matching_engine.OrderBook.{mid_price, best_bid, best_ask, best}
use cpp_matching_engine.Exchange.Routing.{IsRouted}
use cpp_matching_engine.TradingAgent.{new_agent, record_pnl_sample, next_order_id}
use cpp_matching_engine.Traders.{make_order, push_price, u32_of_int}
use cpp_matching_engine.Traders.Positions.{IsWithin}
use cpp_matching_engine.Traders.MarketMaker
use cpp_matching_engine.Traders.MarketMaker.{MarketMaker, new_market_maker}
use cpp_matching_engine.Traders.MarketMaker.Position.{
  on_fills, Reaches, begins, trades, Reaches-IsWithin,
}
use cpp_matching_engine.Traders.MarketMaker.Withdrawing.{IsGone}
use cpp_matching_engine.Traders.MarketMaker.Quotes.{on_tick-replaces}
use cpp_matching_engine.Traders.Windows.{last}
use cpp_matching_engine.Traders.Momentum
use cpp_matching_engine.Traders.Momentum.{MomentumTrader, new_momentum_trader}
use cpp_matching_engine.Traders.Momentum.Signals.{Tick, run, mids, run-price_history}
use cpp_matching_engine.Traders.Momentum.Trends.{sides, trend}
use cpp_matching_engine.Traders.Momentum.Following.{run-FollowsTrend}
use cpp_matching_engine.Traders.MeanReversion
use cpp_matching_engine.Traders.MeanReversion.{MeanReversionTrader, new_mean_reversion_trader}
use cpp_matching_engine.Traders.MeanReversion.Trades.{Trades, on_tick-Trades}
use cpp_matching_engine.Traders.Random
use cpp_matching_engine.Traders.Random.{RandomTrader, Draw, new_random_trader}
use cpp_matching_engine.Traders.Random.Orders.{IsPriced, on_tick-IsPriced}
use cpp_matching_engine.Tests.Data.{order, two_sided, level}
use cpp_matching_engine.Tests.Listed.{listed, listed-IsRouted}
use cpp_matching_engine.Tests.Agents.{fill_report}

abbrev fresh : ℕ → Order ℤ
fresh k = order 0 buy limit gtc 0 0

abbrev maker : MarketMaker ℤ
maker = new_market_maker 1 MarketMaker.new_config

-- The middle of the book is 100.
two_sided_mid : mid_price two_sided ≡ pos 100
unfolding mid_price best_bid best_ask best
two_sided_mid = refl

on_tick-replaces_example :
    let (n, _, quotes) = MarketMaker.on_tick fresh two_sided 0 maker listed in
    let z = (MarketMaker.on_tick fresh two_sided 1 (on_fills [] n) listed).1 in
    IsRouted z × All (λ q. IsGone q.order_id z) quotes
unfolding new_market_maker new_agent mid_price best_bid best_ask best
on_tick-replaces_example =
    on_tick-replaces whole-IsOrdered fresh fresh two_sided two_sided 0 1 maker listed listed []
      (omega arith, omega arith) listed-IsRouted refl

-- A tick, and a fill of sixty shares of its bid.
abbrev sold_to : MarketMaker ℤ
sold_to =
    on_fills (fill_report buy 99 60 ∷ []) (MarketMaker.on_tick fresh two_sided 0 maker listed).0

sold_to-Reaches : Reaches maker sold_to
unfolding MarketMaker.on_tick MarketMaker.withdraw_quotes MarketMaker.post_quotes
    MarketMaker.post_bid MarketMaker.post_ask MarketMaker.quote_prices new_market_maker new_agent
    make_order next_order_id record_pnl_sample mid_price best_bid best_ask best ◌-ℤ◌ set_symbol
sold_to-Reaches =
    trades fresh two_sided 0 maker listed (fill_report buy 99 60 ∷ []) begins
      (omega arith, omega arith)

Reaches-IsWithin_example :
    (sold_to.cfg ≡ MarketMaker.new_config) × IsWithin 600 sold_to.agent.inventory
unfolding new_market_maker new_agent
Reaches-IsWithin_example = Reaches-IsWithin maker sold_to sold_to-Reaches (omega arith, omega arith)

abbrev ticks : List (Tick ℤ)
ticks =
    record { acquired = fresh 0; book = two_sided; ts = 0 }
    ∷ record { acquired = fresh 1; book = two_sided; ts = 1 }
    ∷ []

abbrev ticker : List ℕ
ticker = 65 ∷ 65 ∷ 80 ∷ 76 ∷ []

abbrev follower : MomentumTrader ℤ
follower =
    new_momentum_trader 3 (record (Momentum.new_config) { short_window = 1; long_window = 2 })

-- A tick on a book with one bid and one ask, and the middle between them.
abbrev at_price : ℕ → Tick ℤ
at_price mid = record {
  acquired = fresh 0;
  book = record two_sided {
    bids = level buy (mid - 1) ((1, 30) ∷ []) ∷ [];
    asks = level sell (mid + 1) ((4, 30) ∷ []) ∷ [];
  };
  ts = 0;
}

-- A trader that has seen a price of 100, and falls with the next.
abbrev seen_one : MomentumTrader ℤ
seen_one = record (follower) { price_history = pos 100 ∷ [] }

abbrev sale : Order ℤ
sale = (make_order (fresh 0) sell market (pos 0) 50 0 ticker seen_one.agent).1

abbrev fallen : MomentumTrader ℤ
fallen = (Momentum.on_tick (fresh 0) (at_price 90).book 0 seen_one).0

run-FollowsTrend_example :
    (trend seen_one.cfg (pos 100 ∷ pos 90 ∷ []) ≡ some sell)
    × (sides (run (at_price 90 ∷ at_price 120 ∷ at_price 130 ∷ at_price 100 ∷ []) fallen).1
        ≡ buy ∷ sell ∷ [])
unfolding new_momentum_trader Momentum.on_tick Momentum.act Momentum.follow_signal
    Momentum.compute_ma make_order next_order_id new_agent set_symbol mid_price best_bid best_ask
    best push_price u32_of_int
run-FollowsTrend_example =
    run-FollowsTrend (at_price 90) (at_price 90 ∷ at_price 120 ∷ at_price 130 ∷ at_price 100 ∷ [])
      seen_one fallen sale (pos 100 ∷ []) (omega arith) refl refl

-- A new trader makes no order when the first trend that it meets is up.
first_rise : (run (at_price 100 ∷ at_price 120 ∷ []) follower).1 ≡ []
unfolding run new_momentum_trader Momentum.on_tick Momentum.act Momentum.follow_signal
    Momentum.compute_ma mid_price best_bid best_ask best push_price
first_rise = refl

run-price_history_example : (run ticks follower).0.price_history ≡ last 2 (mids ticks)
unfolding new_momentum_trader
run-price_history_example = run-price_history ticks follower [] refl

abbrev reverter : MeanReversionTrader ℤ
reverter = new_mean_reversion_trader 4 MeanReversion.new_config

on_tick-Trades_example : Trades reverter (MeanReversion.on_tick (fresh 0) two_sided 0 reverter)
unfolding new_mean_reversion_trader
on_tick-Trades_example = on_tick-Trades (fresh 0) two_sided 0 25 reverter refl (omega arith)

-- Whole numbers of hundredths.
abbrev hundredths : Double ℤ
hundredths = record (whole) {
  of_int = λ a. whole.mul (pos 100) a;
  mul = λ a b. whole.div (whole.mul a b) (pos 100);
  div = λ a b. whole.div (whole.mul (pos 100) a) b;
}

hundredths-IsOrdered : IsOrdered ℤ ⦃d = hundredths⦄
hundredths-IsOrdered = record {
  lt_irrefl = whole-IsOrdered.lt_irrefl;
  lt_trans = whole-IsOrdered.lt_trans;
  lt_total = whole-IsOrdered.lt_total;
  le_iff = whole-IsOrdered.le_iff;
  eq_iff = whole-IsOrdered.eq_iff;
}

abbrev drawn : Draw ℤ
drawn = record { qty = pos 40; side_prob = pos 20; type_prob = pos 80; noise = negsuc 9 }

on_tick-IsPriced_example :
    let (n, os) =
      Random.on_tick ⦃d = hundredths⦄
        (fresh 0)
        drawn
        two_sided
        0
        (new_random_trader ⦃d = hundredths⦄ 2) in
    (length os ≤ 1) × All (λ r. IsPriced ⦃d = hundredths⦄ r.type r.price × (r.quantity ≡ 40)) os
on_tick-IsPriced_example =
    on_tick-IsPriced ⦃d = hundredths⦄ hundredths-IsOrdered (fresh 0) drawn two_sided 0
      (new_random_trader ⦃d = hundredths⦄ 2) refl
