-- ===== src/Traders/Momentum.antt =====
-- traders/momentum_trader.h.
pub mod Signals
pub mod Trends
pub mod Following
use cpp_matching_engine.Prelude.{
  ℕ, Bool, true, false, List, [], ◌∷◌, length, if◌then◌else◌, ltb, not, ◌&&◌, ◌-◌, drop,
}
use cpp_matching_engine.Prelude.Int.{ℤ, pos}
use cpp_matching_engine.Double.{Double}
use cpp_matching_engine.Types.{Side, buy, sell, Order, market, ExecutionReport}
use cpp_matching_engine.OrderBook.{OrderBook, mid_price}
use cpp_matching_engine.TradingAgent.{TradingAgent, new_agent, number, record_fill}
use cpp_matching_engine.Traders.{make_order, u32_of_int, push_price, total_from}

pub record Config (F : Type 0) : Type 0 where
  pub short_window : ℕ
  pub long_window : ℕ
  pub threshold : F
  pub trade_qty : ℤ

-- `has_signal_` is never read.
pub record MomentumTrader (F : Type 0) : Type 0 where
  pub agent : TradingAgent F
  pub cfg : Config F
  pub symbol : List ℕ
  pub price_history : List F
  pub last_signal : Side

abbrev pub side_eq : Side → Side → Bool
side_eq buy buy = true
side_eq sell sell = true
side_eq _ _ = false

module _ {F : Type 0} ⦃d : Double F⦄ where
  abbrev pub new_config : Config F
  new_config = record {
    short_window = 5;
    long_window = 20;
    threshold = d.div (number 1) (number 1000);
    trade_qty = pos 50;
  }

  unfoldable pub new_momentum_trader : ℕ → Config F → MomentumTrader F
  new_momentum_trader id cfg = record {
    agent = new_agent id;
    cfg = cfg;
    symbol = 65 ∷ 65 ∷ 80 ∷ 76 ∷ [];
    price_history = [];
    last_signal = buy;
  }

  -- The average of the last `window` prices, of which there are as many.
  unfoldable pub compute_ma : ℕ → List F → F
  compute_ma window history =
      d.div (total_from (number 0) (drop (length history - window) history)) (number window)

  unfoldable pub fast_ma_last : MomentumTrader F → F
  fast_ma_last m =
      if ltb (length m.price_history) m.cfg.short_window
      then number 0
      else compute_ma m.cfg.short_window m.price_history

  unfoldable pub slow_ma_last : MomentumTrader F → F
  slow_ma_last m =
      if ltb (length m.price_history) m.cfg.long_window
      then number 0
      else compute_ma m.cfg.long_window m.price_history

  abbrev pub is_bullish : MomentumTrader F → Bool
  is_bullish m =
      d.lt (d.mul (compute_ma m.cfg.long_window m.price_history) (d.add (number 1) m.cfg.threshold))
        (compute_ma m.cfg.short_window m.price_history)

  abbrev pub is_bearish : MomentumTrader F → Bool
  is_bearish m =
      d.lt (compute_ma m.cfg.short_window m.price_history)
        (d.mul (compute_ma m.cfg.long_window m.price_history) (d.sub (number 1) m.cfg.threshold))

  -- An order for a signal that differs from the last one.
  unfoldable pub follow_signal :
      Order F → ℕ → Side → MomentumTrader F → MomentumTrader F × List (Order F)
  follow_signal o ts signal_side m =
      let (a, made) =
        make_order o signal_side market (number 0) (u32_of_int m.cfg.trade_qty) ts m.symbol
          m.agent in
      if side_eq signal_side m.last_signal
      then (m, [])
      else (record m { agent = a; last_signal = signal_side }, made ∷ [])

  -- The part of a tick after the price is stored.
  unfoldable pub act : Order F → ℕ → MomentumTrader F → MomentumTrader F × List (Order F)
  act o ts m =
      if ltb (length m.price_history) m.cfg.long_window
      then (m, [])
      else if not (is_bullish m) && not (is_bearish m)
      then (m, [])
      else follow_signal o ts (if is_bullish m then buy else sell) m

  unfoldable pub on_tick :
      Order F → OrderBook F → ℕ → MomentumTrader F → MomentumTrader F × List (Order F)
  on_tick o book ts m =
      let mid = mid_price book in
      let history = push_price m.cfg.long_window mid m.price_history in
      if d.le mid (number 0) then (m, []) else act o ts (record m { price_history = history })

  unfoldable pub on_fill : ExecutionReport F → MomentumTrader F → MomentumTrader F
  on_fill r m = record m { agent = record_fill r m.agent }
