-- ===== src/Exchange.antt =====
-- exchange/exchange.h and exchange/exchange.cpp. Listing of the symbols and printing are left out. The
-- engine runs with an empty list of reports, so that those of a call can be counted; the exchange
-- keeps them all in its engine's `sent`, in the order in which the caller's callback gets them.
pub mod Routing
pub mod Posting
pub mod Submitting
pub mod ReducingQueue
pub mod Reducing
pub mod Modifying
use cpp_matching_engine.Prelude.{
  ℕ, suc, Bool, true, false, not, ◌&&◌, ◌||◌, List, [], ◌∷◌, ◌++◌, Option, none, some, ◌>>=◌,
  if◌then◌else◌, ltb, ◌==◌, nat_eq, list_eq, add64, sub32, neg64,
}
use cpp_matching_engine.Prelude.Map
use cpp_matching_engine.Prelude.Map.{Map}
use cpp_matching_engine.Double.{Double}
use cpp_matching_engine.Levels
use cpp_matching_engine.Types.{
  Side, buy, sell, Order, ExecutionReport, limit, new, filled, rejected, remaining, is_limit,
  is_filled, symbol_string,
}
use cpp_matching_engine.OrderBook.{
  OrderBook, PriceLevel, OrderLocation, levels, with_levels, new_book, update_qty, zero_price,
}
use cpp_matching_engine.MatchingEngine.{MatchingEngine, Match, new_engine}
use cpp_matching_engine.MatchingEngine

pub record ExchangeStats (F : Type 0) : Type 0 where
  pub total_orders_submitted : ℕ
  pub total_orders_cancelled : ℕ
  pub total_orders_modified : ℕ
  pub total_fills : ℕ
  pub total_volume : ℕ
  pub total_rejects : ℕ
  pub total_notional : F

pub record Exchange (F : Type 0) : Type 0 where
  pub books : Map (List ℕ) (OrderBook F)
  pub global_order_index : Map ℕ (List ℕ)
  pub engine : MatchingEngine F
  pub stats : ExchangeStats F

module _ {F : Type 0} where
  -- The callback that the constructor gives to the engine, on the reports of a call.
  unfoldable pub count_reports : List (ExecutionReport F) → ExchangeStats F → ExchangeStats F
  count_reports [] st = st
  count_reports (r ∷ rs) st = count_reports rs (record st {
    total_fills = add64 st.total_fills 1;
    total_volume = add64 st.total_volume r.exec_qty;
  })

  unfoldable pub add_symbol : List ℕ → Exchange F → Exchange F × Bool
  add_symbol symbol x = elim (Map.find symbol x.books) [
    | some b ↦ (x, false)
    | none ↦ (record x { books = Map.insert symbol (new_book symbol) x.books }, true)
  ]

  unfoldable pub has_symbol : List ℕ → Exchange F → Bool
  has_symbol symbol x = elim (Map.find symbol x.books) [ some b ↦ true | none ↦ false ]

  unfoldable pub get_book : List ℕ → Exchange F → Option (OrderBook F)
  get_book symbol x = Map.find symbol x.books

  -- The symbol and the book that the global index leads to.
  unfoldable pub find_book_for_order : ℕ → Exchange F → Option (List ℕ × OrderBook F)
  find_book_for_order id x =
      Map.find id x.global_order_index
      >>= (λ symbol. Map.find symbol x.books >>= (λ b. some (symbol, b)))

  -- The first order with an id, and the orders with that one's quantity reduced.
  unfoldable pub find_order : ℕ → List (Order F) → Option (Order F)
  find_order id [] = none
  find_order id (o ∷ os) = if o.order_id == id then some o else find_order id os

  unfoldable pub reduce_order : ℕ → ℕ → List (Order F) → List (Order F)
  reduce_order id reduction [] = []
  reduce_order id reduction (o ∷ os) =
      if o.order_id == id
      then record o { quantity = sub32 o.quantity reduction } ∷ os
      else o ∷ reduce_order id reduction os

module _ {F : Type 0} ⦃d : Double F⦄ where
  unfoldable pub new_exchange : Exchange F
  new_exchange = record {
    books = [];
    global_order_index = [];
    engine = new_engine;
    stats = record {
      total_orders_submitted = 0;
      total_orders_cancelled = 0;
      total_orders_modified = 0;
      total_fills = 0;
      total_volume = 0;
      total_rejects = 0;
      total_notional = zero_price;
    };
  }

  -- `engine_.submit_order(order, book)`, with the callbacks it makes.
  unfoldable pub run_engine :
      (ℕ → ℕ) → List ℕ → OrderBook F → Order F → Exchange F → Option (Exchange F × Order F)
  run_engine now_ns symbol b o x =
      MatchingEngine.submit_order now_ns (record (x.engine) { sent = [] }) o b >>= (λ t. some (
        record x {
          books = Map.insert symbol t.book x.books;
          engine = record (t.engine) { sent = x.engine.sent ++ t.engine.sent };
          stats = count_reports t.engine.sent x.stats;
        },
        t.order,
      ))

  -- The exchange as the engine finds it: the order counted, and a limit order in the index.
  unfoldable pub register_order : List ℕ → Order F → Exchange F → Exchange F
  register_order symbol o x = record x {
    global_order_index =
        if is_limit o.type
        then Map.insert o.order_id symbol x.global_order_index
        else x.global_order_index;
    stats = record (x.stats) { total_orders_submitted = add64 x.stats.total_orders_submitted 1 };
  }

  unfoldable pub drop_filled : Order F → Exchange F → Exchange F
  drop_filled o x =
      if is_limit o.type && is_filled o.status
      then record x { global_order_index = Map.erase o.order_id x.global_order_index }
      else x

  unfoldable pub submit_order :
      (ℕ → ℕ) → Order F → Exchange F → Option (Exchange F × Order F × Bool)
  submit_order now_ns o x =
      let symbol = symbol_string o.symbol in
      elim (Map.find symbol x.books) [
        | none ↦ some (
          record x { stats = record (x.stats) { total_rejects = add64 x.stats.total_rejects 1 } },
          record o { status = rejected },
          false,
        )
        | some b ↦
            run_engine now_ns symbol b o (register_order symbol o x)
            >>= (λ r. some (drop_filled r.1 r.0, r.1, true))
      ]

  unfoldable pub cancel_order : ℕ → Exchange F → Exchange F × Bool
  cancel_order id x = elim (find_book_for_order id x) [
    | none ↦ (x, false)
    | some (symbol, b) ↦
        let (b', removed) = MatchingEngine.cancel_order b id in
        let x' = record x { books = Map.insert symbol b' x.books } in
        if removed
        then (
          record x' {
            global_order_index = Map.erase id x.global_order_index;
            stats = record (x.stats) {
              total_orders_cancelled = add64 x.stats.total_orders_cancelled 1;
            };
          },
          true,
        )
        else (x', false)
  ]

  -- The order that `modify_order` works on, found through the book's index and the level.
  unfoldable pub find_target : ℕ → OrderBook F → Option (OrderLocation F × Order F)
  find_target id b = Map.find id b.order_index >>= (λ at_place.
      Levels.find at_place.side at_place.price (levels at_place.side b)
      >>= (λ l. find_order id l.orders >>= (λ o. some (at_place, o))))

  -- Case A: cancel and insert again.
  unfoldable pub reinsert :
      (ℕ → ℕ) → List ℕ → OrderBook F → Order F → F → ℕ → Exchange F → Option (Exchange F)
  reinsert now_ns symbol b target new_price new_qty x =
      let b' = (MatchingEngine.cancel_order b target.order_id).0 in
      let o = record target {
        price = new_price;
        filled_qty = 0;
        quantity = new_qty;
        timestamp_ns = now_ns x.engine.clock_reads;
        status = new;
      } in
      let x' = record x {
        engine = record (x.engine) { clock_reads = suc x.engine.clock_reads };
        global_order_index =
            Map.insert target.order_id (symbol_string target.symbol) x.global_order_index;
      } in
      run_engine now_ns symbol b' o x' >>= (λ r. some r.0)

  -- Case B: the quantity is reduced in place, through the shared order and its level.
  unfoldable pub reduce_in_place : Side → F → ℕ → ℕ → OrderBook F → OrderBook F
  reduce_in_place side price id reduction b = with_levels side b (
      Levels.adjust side price
        (λ l.
          update_qty (neg64 reduction) (record l { orders = reduce_order id reduction l.orders }))
        (levels side b))

  -- The exchange after the three cases of a modification that is accepted.
  unfoldable pub modify_target :
      (ℕ → ℕ)
      → List ℕ
      → OrderBook F
      → OrderLocation F
      → Order F
      → F
      → ℕ
      → Exchange F
      → Option (Exchange F)
  modify_target now_ns symbol b at_place target new_price new_qty x =
      let current = remaining target in
      let b' =
        reduce_in_place at_place.side at_place.price target.order_id (sub32 current new_qty) b in
      if not (d.eq new_price at_place.price) || ltb current new_qty
      then reinsert now_ns symbol b target new_price new_qty x
      else if ltb new_qty current
      then some (record x { books = Map.insert symbol b' x.books })
      else some x

  unfoldable pub modify_order : (ℕ → ℕ) → ℕ → F → ℕ → Exchange F → Option (Exchange F × Bool)
  modify_order now_ns id new_price new_qty x = elim (find_book_for_order id x) [
    | none ↦ some (x, false)
    | some (symbol, b) ↦ elim (find_target id b) [
      | none ↦ some (x, false)
      | some (at_place, target) ↦
          let modified = modify_target now_ns symbol b at_place target new_price new_qty x >>= (λ y.
            some (
              record y {
                stats = record (y.stats) {
                  total_orders_modified = add64 y.stats.total_orders_modified 1;
                };
              },
              true,
            )) in
          if new_qty == 0 then some (x, false) else modified
    ]
  ]
