-- ===== src/Tests/Data.antt =====
-- The orders and books that the tests share. Prices are whole numbers.
use cpp_matching_engine.Prelude.{ℕ, List, [], ◌∷◌, ◌+◌, take}
use cpp_matching_engine.Prelude.Int.{ℤ, pos}
use cpp_matching_engine.Double.Whole.{whole}
use cpp_matching_engine.Types.{Side, buy, sell, Order, OrderType, limit, new, TimeInForce, gtc}
use cpp_matching_engine.Types.{remaining}
use cpp_matching_engine.Prelude.Map
use cpp_matching_engine.Levels
use cpp_matching_engine.OrderBook.{
  OrderBook, PriceLevel, OrderLocation, update_qty, add_limit_order,
}
use cpp_matching_engine.MatchingEngine.{
  fill_order, set_front, pop_front, best_orders, report, record_fill, fill_book, execute_fill,
  match_level, drop_empty, drop_best, match_side, match_limit_order, match_market_order,
  fill_needed, can_fill_completely, rest_or_cancel, finish_market, finish_limit, submit_order,
  new_engine,
}

-- "AAPL" in its eight bytes.
abbrev pub aapl : List ℕ
aapl = 65 ∷ 65 ∷ 80 ∷ 76 ∷ 0 ∷ 0 ∷ 0 ∷ 0 ∷ []

abbrev pub order : ℕ → Side → OrderType → TimeInForce → ℕ → ℕ → Order ℤ
order id side type tif price quantity = record {
  order_id = id;
  trader_id = 7;
  timestamp_ns = 0;
  price = pos price;
  quantity = quantity;
  filled_qty = 0;
  symbol = aapl;
  side = side;
  type = type;
  status = new;
  tif = tif;
}

abbrev pub resting : ℕ → Side → ℕ → ℕ → Order ℤ
resting id side price quantity = order id side limit gtc price quantity

abbrev pub level : Side → ℕ → List (ℕ × ℕ) → ℤ × PriceLevel ℤ
level side price [] = (pos price, record { price = pos price; total_qty = 0; orders = [] })
level side price ((id, q) ∷ rest) =
    let (_, l) = level side price rest in
    (
      pos price,
      record l { total_qty = q + l.total_qty; orders = resting id side price q ∷ l.orders },
    )

abbrev pub location : Side → ℕ → OrderLocation ℤ
location side price = record { side = side; price = pos price }

-- Bids 99 (30, 20) and 98 (10); asks 101 (10, 40) and 103 (50).
abbrev pub two_sided : OrderBook ℤ
two_sided = record {
  symbol = take 4 aapl;
  bids = level buy 99 ((1, 30) ∷ (2, 20) ∷ []) ∷ level buy 98 ((3, 10) ∷ []) ∷ [];
  asks = level sell 101 ((4, 10) ∷ (5, 40) ∷ []) ∷ level sell 103 ((6, 50) ∷ []) ∷ [];
  order_index =
      (1, location buy 99)
      ∷ (2, location buy 99)
      ∷ (3, location buy 98)
      ∷ (4, location sell 101)
      ∷ (5, location sell 101)
      ∷ (6, location sell 103)
      ∷ [];
}

-- A test that unfolds this runs the matching engine.
unfoldable pub engine_code : Unit {0}
unfolding remaining update_qty add_limit_order fill_order set_front pop_front best_orders report
    record_fill fill_book execute_fill match_level drop_empty drop_best match_side match_limit_order
    match_market_order fill_needed can_fill_completely rest_or_cancel finish_market finish_limit
    submit_order new_engine Levels.adjust Map.erase Map.find
engine_code = tt
