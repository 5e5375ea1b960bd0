-- ===== src/MatchingEngine.antt =====
-- matching/matching_engine.h and matching/matching_engine.cpp.
-- `now_ns n` is what the n-th call of `now_ns()` returns. The calls of `on_fill` are recorded in `sent`,
-- in their order. `none` stands for a loop whose fuel ran out.
pub mod Sweep
pub mod Trading
pub mod Quantities
pub mod Reports
pub mod Filling
pub mod Loops
pub mod Rounds
pub mod Sides
pub mod Submitting
pub mod Finishing
pub mod Outcomes
pub mod FillOrKill
pub mod Crossing
use cpp_matching_engine.Prelude.{
  ℕ, zero, suc, Bool, true, false, List, [], ◌∷◌, ◌++◌, Option, none, some, if◌then◌else◌, add32,
  add64, sub32, neg64, u32_mod, length, ◌==◌, nat_eq, ◌&&◌, ltb, min, not, ◌+◌, ◌%◌, ◌>>=◌,
}
use cpp_matching_engine.Prelude.Int.{pos}
use cpp_matching_engine.Prelude.Map
use cpp_matching_engine.Double.{Double}
use cpp_matching_engine.Types.{
  Side, buy, sell, Order, OrderType, limit, market, OrderStatus, new, partially_filled, filled,
  cancelled, TimeInForce, gtc, ioc, fok, ExecutionReport, remaining, is_active, is_fok, opposite,
}
use cpp_matching_engine.Levels
use cpp_matching_engine.OrderBook.{
  OrderBook, PriceLevel, LevelMap, levels, with_levels, is_empty, update_qty, add_limit_order,
  zero_price,
}
use cpp_matching_engine.OrderBook

pub record MatchingEngine (F : Type 0) : Type 0 where
  pub next_exec_id : ℕ
  pub orders_processed : ℕ
  pub fills_generated : ℕ
  pub volume_traded : ℕ
  pub total_value_traded : F
  pub clock_reads : ℕ
  pub sent : List (ExecutionReport F)

-- What a matching loop works on: `order`, `book` and the engine itself.
pub record Match (F : Type 0) : Type 0 where
  pub order : Order F
  pub book : OrderBook F
  pub engine : MatchingEngine F

-- The break test of a loop: a limit order stops at a level whose price is beyond its own.
abbrev pub beyond : {F : Type 0} ⦃d : Double F⦄ → Side → F → F → Bool
beyond ⦃d⦄ buy limit_price level_price = d.lt limit_price level_price
beyond ⦃d⦄ sell limit_price level_price = d.lt level_price limit_price

module _ {F : Type 0} where
  -- `filled_qty += fill_qty` and the status that follows, on either order.
  unfoldable pub fill_order : ℕ → Order F → Order F
  unfolding remaining
  fill_order q o =
      let o' = record o { filled_qty = add32 o.filled_qty q } in
      record o' { status = if remaining o' == 0 then filled else partially_filled }

  -- The level after a write through the pointer at its front.
  unfoldable pub set_front : Order F → PriceLevel F → PriceLevel F
  set_front o l = record l { orders = elim l.orders [ [] ↦ [] | _ ∷ os ↦ o ∷ os ] }

  unfoldable pub pop_front : PriceLevel F → PriceLevel F
  pop_front l = record l { orders = elim l.orders [ [] ↦ [] | _ ∷ os ↦ os ] }

  unfoldable pub best_orders : LevelMap F → List (Order F)
  best_orders [] = []
  best_orders ((_, l) ∷ _) = l.orders

  unfoldable pub report : ℕ → Order F → Order F → ℕ → F → ℕ → ExecutionReport F
  report exec_id party aggressor ts price q = record {
    exec_id = exec_id;
    order_id = party.order_id;
    aggressor_order_id = aggressor.order_id;
    trader_id = party.trader_id;
    timestamp_ns = ts;
    exec_price = price;
    exec_qty = q;
    side = party.side;
    symbol = party.symbol;
  }

  -- `if (best_level.empty()) erase(begin())`
  unfoldable pub drop_empty : LevelMap F → LevelMap F
  drop_empty [] = []
  drop_empty ((k, l) ∷ m) = if is_empty l.orders then m else (k, l) ∷ m

  unfoldable pub drop_best : Side → Match F → Match F
  drop_best side s = record s { book = with_levels side s.book (drop_empty (levels side s.book)) }

  -- The fuel of the two loops.
  abbrev pub level_fuel : LevelMap F → ℕ
  level_fuel [] = 1
  level_fuel ((_, l) ∷ m) = length l.orders + level_fuel m + 1

module _ {F : Type 0} ⦃d : Double F⦄ where
  -- The counters and the two reports of a fill.
  unfoldable pub record_fill :
      (ℕ → ℕ) → Order F → Order F → ℕ → F → MatchingEngine F → MatchingEngine F
  record_fill now_ns aggressor resting q price e =
      let ts = now_ns e.clock_reads in
      record e {
        next_exec_id = add64 e.next_exec_id 1;
        fills_generated = add64 e.fills_generated 1;
        volume_traded = add64 e.volume_traded q;
        total_value_traded = d.add e.total_value_traded (d.mul (d.of_int (pos q)) price);
        clock_reads = suc e.clock_reads;
        sent =
            e.sent
            ++ report e.next_exec_id resting aggressor ts price q
              ∷ report e.next_exec_id aggressor aggressor ts price q
              ∷ [];
      }

  -- The book after a fill: the write through `resting`, the level's total, and the removal of an
  -- order that is done. After `pop_front` the source still reads the order through a reference into
  -- the deque; it is read here as it stood.
  unfoldable pub fill_book : Side → Order F → F → ℕ → OrderBook F → OrderBook F
  fill_book side resting price q b =
      let m =
        Levels.adjust side price (update_qty (neg64 q))
          (Levels.adjust side price (set_front resting) (levels side b)) in
      if remaining resting == 0
      then record (with_levels side b (Levels.adjust side price pop_front m)) {
        order_index = Map.erase resting.order_id b.order_index;
      }
      else with_levels side b m

  unfoldable pub execute_fill : (ℕ → ℕ) → Order F → F → Match F → Match F
  execute_fill now_ns resting price s =
      let q = min (remaining s.order) (remaining resting) in
      let aggressor' = fill_order q s.order in
      let resting' = fill_order q resting in
      record {
        order = aggressor';
        book = fill_book resting.side resting' price q s.book;
        engine = record_fill now_ns aggressor' resting' q price s.engine;
      }

  -- The inner loop, over the front of the best level.
  unfoldable pub match_level : (ℕ → ℕ) → ℕ → Side → F → Match F → Option (Match F)
  match_level now_ns zero side price s = none
  match_level now_ns (suc fuel) side price s = elim (best_orders (levels side s.book)) [
    | [] ↦ some s
    | resting ∷ _ ↦
        let rest = match_level now_ns fuel side price (execute_fill now_ns resting price s) in
        if ltb 0 (remaining s.order) then rest else some s
  ]

  -- The outer loop, over the best level of the opposite side: one text for the four loops of
  -- `match_limit_order` and `match_market_order`, which differ in the side and in the break test.
  unfoldable pub match_side : (ℕ → ℕ) → ℕ → ℕ → Side → (F → Bool) → Match F → Option (Match F)
  match_side now_ns inner zero side stop s = none
  match_side now_ns inner (suc fuel) side stop s = elim (levels side s.book) [
    | [] ↦ some s
    | (_, l) ∷ _ ↦
        let rest =
          match_level now_ns inner side l.price s
          >>= (λ t. match_side now_ns inner fuel side stop (drop_best side t)) in
        if ltb 0 (remaining s.order) && not (stop l.price) then rest else some s
  ]

  unfoldable pub match_limit_order : (ℕ → ℕ) → Match F → Option (Match F)
  match_limit_order now_ns s =
      let side = opposite s.order.side in
      let fuel = level_fuel (levels side s.book) in
      match_side now_ns fuel fuel side (beyond s.order.side s.order.price) s

  unfoldable pub match_market_order : (ℕ → ℕ) → Match F → Option (Match F)
  match_market_order now_ns s =
      let side = opposite s.order.side in
      let fuel = level_fuel (levels side s.book) in match_side now_ns fuel fuel side (λ _. false) s

  -- The loop of `can_fill_completely`, with the `uint32_t` cast of each level's total.
  unfoldable pub fill_needed : (F → Bool) → ℕ → LevelMap F → Bool
  fill_needed stop needed [] = needed == 0
  fill_needed stop needed ((k, l) ∷ m) =
      let left = sub32 needed (min needed (l.total_qty % u32_mod)) in
      let rest = fill_needed stop left m in
      if stop k then needed == 0 else if left == 0 then true else rest

  -- `type == LIMIT && beyond`
  abbrev pub stop_test : OrderType → Side → F → F → Bool
  stop_test limit side p = beyond side p
  stop_test market side p = λ _. false

  unfoldable pub can_fill_completely : Order F → OrderBook F → Bool
  can_fill_completely o b =
      if remaining o == 0
      then true
      else fill_needed (stop_test o.type o.side o.price) (remaining o) (levels (opposite o.side) b)

  -- Posting of what a limit order left open.
  unfoldable pub rest_or_cancel : TimeInForce → Match F → Match F
  rest_or_cancel gtc s = record s { book = add_limit_order s.book s.order }
  rest_or_cancel _ s = record s { order = record (s.order) { status = cancelled } }

  unfoldable pub finish_market : Match F → Match F
  finish_market s =
      if ltb 0 (remaining s.order)
      then record s { order = record (s.order) { status = cancelled } }
      else s

  unfoldable pub finish_limit : Match F → Match F
  finish_limit s =
      if is_active s.order && ltb 0 (remaining s.order) then rest_or_cancel s.order.tif s else s

  abbrev pub match_order : (ℕ → ℕ) → OrderType → Match F → Option (Match F)
  match_order now_ns market s = do t ← match_market_order now_ns s; some (finish_market t)
  match_order now_ns limit s = do t ← match_limit_order now_ns s; some (finish_limit t)

  -- The order after the call, the book and the engine.
  unfoldable pub submit_order :
      (ℕ → ℕ) → MatchingEngine F → Order F → OrderBook F → Option (Match F)
  submit_order now_ns e o b =
      let s : Match F = record {
        order = record o { status = new };
        book = b;
        engine = record e { orders_processed = add64 e.orders_processed 1 };
      } in
      let matched = match_order now_ns o.type s in
      if is_fok o.tif && not (can_fill_completely s.order b)
      then some (record s { order = record (s.order) { status = cancelled } })
      else matched

  unfoldable pub cancel_order : OrderBook F → ℕ → OrderBook F × Bool
  unfolding OrderBook.cancel_order
  cancel_order b id = OrderBook.cancel_order b id

  unfoldable pub get_vwap : MatchingEngine F → F
  get_vwap e =
      if ltb 0 e.volume_traded
      then d.div e.total_value_traded (d.of_int (pos e.volume_traded))
      else zero_price

unfoldable pub new_engine : {F : Type 0} ⦃d : Double F⦄ → MatchingEngine F
new_engine = record {
  next_exec_id = 1;
  orders_processed = 0;
  fills_generated = 0;
  volume_traded = 0;
  total_value_traded = zero_price;
  clock_reads = 0;
  sent = [];
}
