-- ===== src/Traders/MeanReversion.antt =====
-- traders/mean_reversion_trader.h.
pub mod Trades
use cpp_matching_engine.Prelude.{
  ℕ, Bool, List, [], ◌∷◌, length, if◌then◌else◌, ltb, not, ◌&&◌, ◌==◌, nat_eq, min, ◌+◌,
}
use cpp_matching_engine.Prelude.Int.{ℤ, pos, negsuc, pos_part, neg_part, ◌-ℤ◌, ltb_ℤ}
use cpp_matching_engine.Double.{Double}
use cpp_matching_engine.Types.{Side, buy, sell, Order, limit, market, ExecutionReport}
use cpp_matching_engine.OrderBook.{OrderBook, mid_price}
use cpp_matching_engine.TradingAgent.{
  TradingAgent, new_agent, number, record_fill, is_zero, is_positive,
}
use cpp_matching_engine.Traders.{make_order, u32_of_int, push_price, cent, to_cents, total_from}

pub record Config (F : Type 0) : Type 0 where
  pub window : ℕ
  pub entry_z : F
  pub exit_z : F
  pub trade_qty : ℤ
  pub max_pos : ℤ

pub record MeanReversionTrader (F : Type 0) : Type 0 where
  pub agent : TradingAgent F
  pub cfg : Config F
  pub price_history : List F
  pub symbol : List ℕ
  pub last_z : F

-- `std::min(trade_qty, std::abs(inventory()))` as a `uint32_t`.
abbrev pub magnitude : ℤ → ℕ
magnitude z = pos_part z + neg_part z

abbrev pub min_ℤ : ℤ → ℕ → ℤ
min_ℤ (pos n) m = pos (min n m)
min_ℤ (negsuc n) m = negsuc n

abbrev pub exit_quantity : ℤ → ℤ → ℕ
exit_quantity trade_qty inventory = u32_of_int (min_ℤ trade_qty (magnitude inventory))

module _ {F : Type 0} ⦃d : Double F⦄ where
  abbrev pub new_config : Config F
  new_config = record {
    window = 30;
    entry_z = d.div (number 15) (number 10);
    exit_z = d.div (number 5) (number 10);
    trade_qty = pos 25;
    max_pos = pos 200;
  }

  unfoldable pub new_mean_reversion_trader : ℕ → Config F → MeanReversionTrader F
  new_mean_reversion_trader id cfg = record {
    agent = new_agent id;
    cfg = cfg;
    price_history = [];
    symbol = 65 ∷ 65 ∷ 80 ∷ 76 ∷ [];
    last_z = number 0;
  }

  unfoldable pub compute_mean : List F → F
  compute_mean history = d.div (total_from (number 0) history) (number (length history))

  abbrev pub squares_from : F → F → List F → F
  squares_from mean var [] = var
  squares_from mean var (p ∷ ps) =
      squares_from mean (d.add var (d.mul (d.sub p mean) (d.sub p mean))) ps

  unfoldable pub compute_stddev : F → List F → F
  compute_stddev mean history =
      d.sqrt (d.div (squares_from mean (number 0) history) (number (length history)))

  -- `std::abs`
  abbrev pub absolute : F → F
  absolute z = if d.lt z (number 0) then d.neg z else z

  unfoldable pub enter :
      Order F → Side → ℕ → F → MeanReversionTrader F → MeanReversionTrader F × List (Order F)
  enter o side ts price m =
      let (a, made) =
        make_order o side limit (to_cents price) (u32_of_int m.cfg.trade_qty) ts m.symbol m.agent in
      (record m { agent = a }, made ∷ [])

  unfoldable pub exit_position :
      Order F → ℕ → MeanReversionTrader F → MeanReversionTrader F × List (Order F)
  exit_position o ts m =
      let exit_side = if is_positive m.agent.inventory then sell else buy in
      let exit_qty = exit_quantity m.cfg.trade_qty m.agent.inventory in
      let (a, made) = make_order o exit_side market (number 0) exit_qty ts m.symbol m.agent in
      if ltb 0 exit_qty then (record m { agent = a }, made ∷ []) else (m, [])

  -- The branches for the distance `z` of the price from its mean.
  unfoldable pub trade :
      Order F → ℕ → F → F → MeanReversionTrader F → MeanReversionTrader F × List (Order F)
  trade o ts mid z m =
      let position = m.agent.inventory in
      if d.lt m.cfg.entry_z z && ltb_ℤ (pos 0 -ℤ m.cfg.max_pos) position
      then enter o sell ts (d.sub mid cent) m
      else if d.lt z (d.neg m.cfg.entry_z) && ltb_ℤ position m.cfg.max_pos
      then enter o buy ts (d.add mid cent) m
      else if d.lt (absolute z) m.cfg.exit_z && not (is_zero position)
      then exit_position o ts m
      else (m, [])

  -- The part of a tick after the price is stored.
  unfoldable pub act :
      Order F → ℕ → F → MeanReversionTrader F → MeanReversionTrader F × List (Order F)
  act o ts mid m =
      let mean = compute_mean m.price_history in
      let stddev = compute_stddev mean m.price_history in
      let z = d.div (d.sub mid mean) stddev in
      if ltb (length m.price_history) m.cfg.window
      then (m, [])
      else if d.lt stddev (d.div (number 1) (number 1000000))
      then (m, [])
      else trade o ts mid z (record m { last_z = z })

  unfoldable pub on_tick :
      Order F → OrderBook F → ℕ → MeanReversionTrader F → MeanReversionTrader F × List (Order F)
  on_tick o book ts m =
      let mid = mid_price book in
      let history = push_price m.cfg.window mid m.price_history in
      if d.le mid (number 0) then (m, []) else act o ts mid (record m { price_history = history })

  unfoldable pub on_fill : ExecutionReport F → MeanReversionTrader F → MeanReversionTrader F
  on_fill r m = record m { agent = record_fill r m.agent }
