-- ===== src/Tests/Book.antt =====
-- The theorems on the book and on the loops, on the shared book.
use cpp_matching_engine.OrderBook.Depth.{on_offer, depth_lem}
use cpp_matching_engine.OrderBook.{depth}
use cpp_matching_engine.Types.{c_string, set_symbol, symbol_string}
use cpp_matching_engine.Types.Symbol.{symbol_string-set_symbol}
use cpp_matching_engine.Prelude.{ℕ, take, map, some, List, [], ◌∷◌}
use cpp_matching_engine.Prelude.Int.{pos}
use cpp_matching_engine.Prelude.{◌≡◌, ◌↔◌, ◌+◌, refl, none, arith, nat_eq, true}
use cpp_matching_engine.Prelude.Map
use cpp_matching_engine.Prelude.Int.{ℤ}
use cpp_matching_engine.Double.Whole.{whole, whole-IsOrdered}
use cpp_matching_engine.Types.{Order, buy, sell, limit, gtc}
use cpp_matching_engine.OrderBook.{cancel_order, add_limit_order, levels}
use cpp_matching_engine.OrderBook.Valid.{queue, IsValid}
use cpp_matching_engine.OrderBook.Sides.{side_queue}
use cpp_matching_engine.OrderBook.Adding.{add_limit_order-enqueue}
use cpp_matching_engine.OrderBook.Cancelling.{cancel_order-withdraw}
use cpp_matching_engine.PriceTime.{enqueue, withdraw, count}
use cpp_matching_engine.MatchingEngine.{Match, new_engine, level_fuel, beyond}
use cpp_matching_engine.MatchingEngine.Rounds.{SideRun}
use cpp_matching_engine.MatchingEngine.Sides.{match_side_ends}
use cpp_matching_engine.Tests.Data.{two_sided, resting, order}
use cpp_matching_engine.Tests.Valid.{two_sided-IsValid, resting-IsResting, order-IsSized}

cancel_order-withdraw_example :
    let (b', removed) = cancel_order two_sided 2 in
    IsValid b'
    × (queue b'.bids ≡ withdraw 2 (queue two_sided.bids))
    × (queue b'.asks ≡ withdraw 2 (queue two_sided.asks))
    × ((removed ≡ true) ↔ (count 2 (queue two_sided.bids) + count 2 (queue two_sided.asks) ≡ 1))
cancel_order-withdraw_example = cancel_order-withdraw whole-IsOrdered 2 two_sided two_sided-IsValid

new_bid_absent : Map.find 8 two_sided.order_index ≡ none
unfolding Map.find
new_bid_absent = refl

add_limit_order-enqueue_example :
    let o = resting 8 buy 99 15 in
    let b' = add_limit_order two_sided o in
    IsValid b'
    × (side_queue buy b' ≡ enqueue buy o (side_queue buy two_sided))
    × (side_queue sell b' ≡ side_queue sell two_sided)
add_limit_order-enqueue_example =
    add_limit_order-enqueue whole-IsOrdered (resting 8 buy 99 15) two_sided two_sided-IsValid
      (resting-IsResting 8 buy 99 15 (omega arith) (omega arith)) new_bid_absent

abbrev seller : Order ℤ
seller = order 9 sell limit gtc 98 100

abbrev selling : Match ℤ
selling = record { order = seller; book = two_sided; engine = new_engine }

match_side_ends_example :
    let fuel = level_fuel (levels buy two_sided) in
    SideRun whole-IsOrdered (λ n. n) buy (beyond sell seller.price) fuel fuel selling
match_side_ends_example =
    match_side_ends whole-IsOrdered (λ n. n) buy (beyond sell seller.price) selling
      two_sided-IsValid.bid_levels (order-IsSized 9 sell limit gtc 98 100 (omega arith))

depth_lem_example :
    depth buy two_sided (pos 1) ≡ some (take 1 (map on_offer (levels buy two_sided)))
depth_lem_example = depth_lem buy two_sided 1 two_sided-IsValid

-- "AAPL" with a second string behind its end.
abbrev long_symbol : List ℕ
long_symbol = 65 ∷ 65 ∷ 80 ∷ 76 ∷ 0 ∷ 66 ∷ []

symbol_string-set_symbol_example :
    symbol_string (set_symbol seller long_symbol).symbol ≡ take 7 (c_string long_symbol)
symbol_string-set_symbol_example = symbol_string-set_symbol seller long_symbol
