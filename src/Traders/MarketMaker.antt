-- ===== src/Traders/MarketMaker.antt =====
-- traders/market_maker.h. The exchange that the agent cancels on is passed in and given back; the
-- objects `acquired 0` and `acquired 1` are those that the pool hands out in a call.
pub mod Quotes
pub mod Position
pub mod Withdrawing
use cpp_matching_engine.Prelude.{ℕ, Bool, List, [], ◌∷◌, ◌++◌, length, if◌then◌else◌, ◌==◌, nat_eq}
use cpp_matching_engine.Prelude.Int.{ℤ, pos, ◌-ℤ◌, ltb_ℤ}
use cpp_matching_engine.Double.{Double}
use cpp_matching_engine.Types.{buy, sell, Order, limit, ExecutionReport}
use cpp_matching_engine.OrderBook.{OrderBook, mid_price}
use cpp_matching_engine.Exchange.{Exchange, cancel_order}
use cpp_matching_engine.TradingAgent.{
  TradingAgent, new_agent, number, record_pnl_sample, record_fill,
}
use cpp_matching_engine.Traders.{make_order, u32_of_int, cent, to_cents}

pub record Config (F : Type 0) : Type 0 where
  pub half_spread : F
  pub quote_qty : ℤ
  pub max_position : ℤ
  pub skew_factor : F

pub record MarketMaker (F : Type 0) : Type 0 where
  pub agent : TradingAgent F
  pub cfg : Config F
  pub symbol : List ℕ
  pub active_bid_id : ℕ
  pub active_ask_id : ℕ

module _ {F : Type 0} ⦃d : Double F⦄ where
  abbrev pub new_config : Config F
  new_config = record {
    half_spread = d.div (number 5) (number 100);
    quote_qty = pos 100;
    max_position = pos 500;
    skew_factor = d.div (number 1) (number 100);
  }

  -- The symbol is "AAPL".
  unfoldable pub new_market_maker : ℕ → Config F → MarketMaker F
  new_market_maker id cfg = record {
    agent = new_agent id;
    cfg = cfg;
    symbol = 65 ∷ 65 ∷ 80 ∷ 76 ∷ [];
    active_bid_id = 0;
    active_ask_id = 0;
  }

  unfoldable pub cancel_quote : ℕ → Exchange F → Exchange F
  cancel_quote id x = if id == 0 then x else (cancel_order id x).0

  -- The cancels at the start of a tick, after which neither id is active.
  unfoldable pub withdraw_quotes : MarketMaker F → Exchange F → MarketMaker F × Exchange F
  withdraw_quotes m x = (
    record m { active_bid_id = 0; active_ask_id = 0 },
    cancel_quote m.active_ask_id (cancel_quote m.active_bid_id x),
  )

  -- Quotes that would cross go to a cent on either side of the middle.
  abbrev pub uncross : F → F → F → F × F
  uncross mid bid ask = if d.le ask bid then (d.sub mid cent, d.add mid cent) else (bid, ask)

  abbrev pub at_least_cent : F → F
  at_least_cent bid = if d.le bid (number 0) then cent else bid

  -- The prices of bid and ask.
  unfoldable pub quote_prices : F → ℤ → Config F → F × F
  quote_prices mid inventory cfg =
      let skew = d.mul (d.neg (d.div (d.of_int inventory) (number 100))) cfg.skew_factor in
      let bid = to_cents (d.add (d.sub mid cfg.half_spread) skew) in
      let ask = to_cents (d.add (d.add mid cfg.half_spread) skew) in
      let (b, a) = uncross mid bid ask in (at_least_cent b, a)

  unfoldable pub post_bid : Order F → F → ℕ → MarketMaker F → MarketMaker F × List (Order F)
  post_bid o price ts m =
      let (a, bid) =
        make_order o buy limit price (u32_of_int m.cfg.quote_qty) ts m.symbol m.agent in
      if ltb_ℤ m.agent.inventory m.cfg.max_position
      then (record m { agent = a; active_bid_id = bid.order_id }, bid ∷ [])
      else (m, [])

  unfoldable pub post_ask : Order F → F → ℕ → MarketMaker F → MarketMaker F × List (Order F)
  post_ask o price ts m =
      let (a, ask) =
        make_order o sell limit price (u32_of_int m.cfg.quote_qty) ts m.symbol m.agent in
      if ltb_ℤ (pos 0 -ℤ m.cfg.max_position) m.agent.inventory
      then (record m { agent = a; active_ask_id = ask.order_id }, ask ∷ [])
      else (m, [])

  -- The bid and then the ask, as far as the position allows them.
  unfoldable pub post_quotes :
      (ℕ → Order F) → F → ℕ → MarketMaker F → MarketMaker F × List (Order F)
  post_quotes acquired mid ts m =
      let (bid_price, ask_price) = quote_prices mid m.agent.inventory m.cfg in
      let (with_bid, bids) = post_bid (acquired 0) bid_price ts m in
      let (with_ask, asks) = post_ask (acquired (length bids)) ask_price ts with_bid in
      (with_ask, bids ++ asks)

  unfoldable pub on_tick :
      (ℕ → Order F)
      → OrderBook F
      → ℕ
      → MarketMaker F
      → Exchange F
      → MarketMaker F × Exchange F × List (Order F)
  on_tick acquired book ts m x =
      let mid = mid_price book in
      let sampled = record m { agent = record_pnl_sample mid m.agent } in
      let (idle, y) = withdraw_quotes sampled x in
      let (quoting, quotes) = post_quotes acquired mid ts idle in
      if d.le mid (number 0) then (m, x, []) else (quoting, y, quotes)

  unfoldable pub on_fill : ExecutionReport F → MarketMaker F → MarketMaker F
  on_fill r m = record m { agent = record_fill r m.agent }
