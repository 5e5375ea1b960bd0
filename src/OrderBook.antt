-- ===== src/OrderBook.antt =====
-- orderbook/order_book.h and orderbook/order_book.cpp. The book holds the orders themselves where the
-- source holds shared pointers: an order rests at one place, and what a caller still sees of it
-- through its own pointer is outside the model.
pub mod Valid
pub mod Sides
pub mod Adding
pub mod Removing
pub mod Cancelling
pub mod Depth
use cpp_matching_engine.Prelude.{
  ℕ, zero, suc, Bool, true, false, List, [], ◌∷◌, ◌++◌, Option, none, some, if◌then◌else◌, add64,
  sub64, length, ◌==◌, nat_eq, ◌||◌, leb, ◌+◌,
}
use cpp_matching_engine.Prelude.Int.{ℤ, pos, negsuc}
use cpp_matching_engine.Prelude.Map
use cpp_matching_engine.Prelude.Map.{Map}
use cpp_matching_engine.Double.{Double}
use cpp_matching_engine.Types.{Side, buy, sell, Order, remaining}
use cpp_matching_engine.Levels

pub record PriceLevel (F : Type 0) : Type 0 where
  pub price : F
  pub total_qty : ℕ
  pub orders : List (Order F)

pub record OrderLocation (F : Type 0) : Type 0 where
  pub side : Side
  pub price : F

abbrev pub LevelMap : Type 0 → Type 0
LevelMap F = List (F × PriceLevel F)

pub record OrderBook (F : Type 0) : Type 0 where
  pub symbol : List ℕ
  pub bids : LevelMap F
  pub asks : LevelMap F
  pub order_index : Map ℕ (OrderLocation F)

-- The map of one side, and the book with another in its place.
abbrev pub levels : {F : Type 0} → Side → OrderBook F → LevelMap F
levels buy b = b.bids
levels sell b = b.asks

abbrev pub with_levels : {F : Type 0} → Side → OrderBook F → LevelMap F → OrderBook F
with_levels buy b m = record b { bids = m }
with_levels sell b m = record b { asks = m }

abbrev pub is_empty {ℓ} : {A : Type ℓ} → List A → Bool
is_empty [] = true
is_empty (_ ∷ _) = false

module _ {F : Type 0} where
  unfoldable pub add_order : PriceLevel F → Order F → PriceLevel F
  add_order l o = record l {
    total_qty = add64 l.total_qty (remaining o);
    orders = l.orders ++ o ∷ [];
  }

  -- `remove_order` on the deque: the remaining quantity to take off the total, and the orders left.
  unfoldable pub remove_from : ℕ → List (Order F) → Option (ℕ × List (Order F))
  remove_from id [] = none
  remove_from id (o ∷ os) =
      let rest = remove_from id os in
      if o.order_id == id
      then some (remaining o, os)
      else elim rest [ none ↦ none | some (q, left) ↦ some (q, o ∷ left) ]

  unfoldable pub remove_order : PriceLevel F → ℕ → PriceLevel F × Bool
  remove_order l id = elim (remove_from id l.orders) [
    | none ↦ (l, false)
    | some (q, left) ↦ (record l { total_qty = sub64 l.total_qty q; orders = left }, true)
  ]

  -- `delta` is the bit pattern of an `int64_t`.
  unfoldable pub update_qty : ℕ → PriceLevel F → PriceLevel F
  update_qty delta l = record l { total_qty = add64 l.total_qty delta }

  unfoldable pub new_book : List ℕ → OrderBook F
  new_book symbol = record { symbol = symbol; bids = []; asks = []; order_index = [] }

  unfoldable pub resting_order_count : OrderBook F → ℕ
  resting_order_count b = length b.order_index

  unfoldable pub depth_from : ℕ → ℕ → LevelMap F → List (F × ℕ)
  depth_from count n [] = []
  depth_from count n ((k, l) ∷ m) =
      let rest = depth_from (count + 1) n m in if leb n count then [] else (k, l.total_qty) ∷ rest

  -- `bid_depth` and `ask_depth`. `none`: `reserve` throws on a negative number.
  unfoldable pub depth : Side → OrderBook F → ℤ → Option (List (F × ℕ))
  unfolding depth_from
  depth side b (pos n) = some (depth_from 0 n (levels side b))
  depth side b (negsuc n) = none

module _ {F : Type 0} ⦃d : Double F⦄ where
  abbrev pub zero_price : F
  zero_price = d.of_int (pos 0)

  -- The two branches of `add_limit_order`: `level.price = price; level.add_order(order)` on the level
  -- that `operator[]` gives, and the entry of the index.
  unfoldable pub add_on : Side → OrderBook F → Order F → OrderBook F
  unfolding Levels.update add_order Map.insert
  add_on side b o =
      record (with_levels side b (
        Levels.update side o.price (record { price = zero_price; total_qty = 0; orders = [] })
          (λ l. add_order (record l { price = o.price }) o) (levels side b))) {
            order_index =
                Map.insert o.order_id (record { side = side; price = o.price }) b.order_index;
          }

  unfoldable pub add_limit_order : OrderBook F → Order F → OrderBook F
  unfolding add_on
  add_limit_order b o = add_on o.side b o

  -- The body of `cancel_order` on the map of one side.
  unfoldable pub cancel_in : Side → F → ℕ → LevelMap F → LevelMap F
  unfolding Levels.find Levels.adjust Levels.erase remove_order remove_from
  cancel_in side price id m = elim (Levels.find side price m) [
    | none ↦ m
    | some l ↦
        if is_empty (remove_order l id).0.orders
        then Levels.erase side price m
        else Levels.adjust side price (λ l. (remove_order l id).0) m
  ]

  unfoldable pub cancel_at : Side → F → ℕ → OrderBook F → OrderBook F
  unfolding cancel_in Map.erase
  cancel_at side price id b =
      record (with_levels side b (cancel_in side price id (levels side b))) {
        order_index = Map.erase id b.order_index;
      }

  unfoldable pub cancel_order : OrderBook F → ℕ → OrderBook F × Bool
  unfolding cancel_at Map.find
  cancel_order b id = elim (Map.find id b.order_index) [
    | none ↦ (b, false)
    | some loc ↦ (cancel_at loc.side loc.price id b, true)
  ]

  unfoldable pub best : LevelMap F → F
  best [] = zero_price
  best ((k, _) ∷ _) = k

  unfoldable pub best_bid : OrderBook F → F
  unfolding best
  best_bid b = best b.bids

  unfoldable pub best_ask : OrderBook F → F
  unfolding best
  best_ask b = best b.asks

  unfoldable pub mid_price : OrderBook F → F
  unfolding best_bid best_ask
  mid_price b =
      if is_empty b.bids || is_empty b.asks
      then zero_price
      else d.div (d.add (best_bid b) (best_ask b)) (d.of_int (pos 2))

  unfoldable pub spread : OrderBook F → F
  unfolding best_bid best_ask
  spread b =
      if is_empty b.bids || is_empty b.asks then zero_price else d.sub (best_ask b) (best_bid b)
