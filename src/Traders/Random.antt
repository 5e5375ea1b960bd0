-- ===== src/Traders/Random.antt =====
-- traders/random_trader.h. What the generator and its distributions give is passed in: the quantity,
-- the two numbers from 0 to 1, and the noise on the price.
pub mod Orders
use cpp_matching_engine.Prelude.{ℕ, List, [], ◌∷◌, if◌then◌else◌}
use cpp_matching_engine.Prelude.Int.{ℤ}
use cpp_matching_engine.Double.{Double}
use cpp_matching_engine.Types.{Side, buy, sell, Order, OrderType, limit, market, ExecutionReport}
use cpp_matching_engine.OrderBook.{OrderBook, mid_price}
use cpp_matching_engine.TradingAgent.{TradingAgent, new_agent, number, record_fill}
use cpp_matching_engine.Traders.{make_order, u32_of_int, cent, to_cents}

pub record Draw (F : Type 0) : Type 0 where
  pub qty : ℤ
  pub side_prob : F
  pub type_prob : F
  pub noise : F

pub record RandomTrader (F : Type 0) : Type 0 where
  pub agent : TradingAgent F
  pub symbol : List ℕ

module _ {F : Type 0} ⦃d : Double F⦄ where
  unfoldable pub new_random_trader : ℕ → RandomTrader F
  new_random_trader id = record { agent = new_agent id; symbol = 65 ∷ 65 ∷ 80 ∷ 76 ∷ [] }

  -- Type and price of the order: 30 % are market orders.
  unfoldable pub choose : F → Draw F → OrderType × F
  choose mid draw =
      let price = to_cents (d.add mid draw.noise) in
      if d.lt draw.type_prob (d.div (number 30) (number 100))
      then (market, number 0)
      else (limit, if d.le price (number 0) then cent else price)

  unfoldable pub on_tick :
      Order F → Draw F → OrderBook F → ℕ → RandomTrader F → RandomTrader F × List (Order F)
  on_tick o draw book ts m =
      let mid = mid_price book in
      let side = if d.lt draw.side_prob (d.div (number 5) (number 10)) then buy else sell in
      let (type, price) = choose mid draw in
      let (a, made) = make_order o side type price (u32_of_int draw.qty) ts m.symbol m.agent in
      if d.le mid (number 0) then (m, []) else (record m { agent = a }, made ∷ [])

  unfoldable pub on_fill : ExecutionReport F → RandomTrader F → RandomTrader F
  on_fill r m = record m { agent = record_fill r m.agent }
