-- ===== src/Tests/Submitting.antt =====
-- The theorems on submissions, on the shared book.
use cpp_matching_engine.Prelude.{
  ◌≡◌, ◌⊎◌, ◌-◌, ◌+◌, ◌<◌, ◌≤◌, refl, none, some, arith, nat_eq, List, ◌++◌, ◌*◌, ◌%◌, u64_mod,
  add64, leb,
}
use cpp_matching_engine.Prelude.Map
use cpp_matching_engine.Prelude.Int.{ℤ}
use cpp_matching_engine.Double.Whole.{whole, whole-IsOrdered}
use cpp_matching_engine.Types.{Order, buy, sell, limit, gtc, fok, remaining, ExecutionReport}
use cpp_matching_engine.OrderBook.Valid.{queue, IsValid}
use cpp_matching_engine.OrderBook.Sides.{side_queue}
use cpp_matching_engine.PriceTime.{open_qty}
use cpp_matching_engine.MatchingEngine.{
  MatchingEngine, Match, submit_order, new_engine, can_fill_completely,
}
use cpp_matching_engine.MatchingEngine.Sweep.{eligible}
use cpp_matching_engine.MatchingEngine.Submitting.{outcome, submit_spec, accepted}
use cpp_matching_engine.MatchingEngine.Finishing.{submit_order_refines}
use cpp_matching_engine.MatchingEngine.Outcomes.{
  facing_queue, price_stop, submit_order-amount, submit_order-FillLog,
}
use cpp_matching_engine.MatchingEngine.Reports.{FillLog, reported}
use cpp_matching_engine.MatchingEngine.FillOrKill.{
  SmallLevels, killed, submit_order-fok, can_fill_completely-eligible,
}
use cpp_matching_engine.MatchingEngine.Crossing.{IsUncrossed, submit_order-IsUncrossed}
use cpp_matching_engine.Tests.Data.{engine_code, order, two_sided}
use cpp_matching_engine.Tests.Valid.{two_sided-IsValid, order-IsSized}

abbrev start : MatchingEngine ℤ
start = new_engine

abbrev taker : Order ℤ
taker = order 9 buy limit gtc 101 60

abbrev refused : Order ℤ
refused = order 9 buy limit fok 101 60

abbrev result : Order ℤ → Match ℤ
result o = elim (submit_order (λ n. n) start o two_sided) [
  | none ↦ record { order = o; book = two_sided; engine = start }
  | some t ↦ t
]

taker_returns : submit_order (λ n. n) start taker two_sided ≡ some (result taker)
unfolding engine_code
taker_returns = refl

refused_returns : submit_order (λ n. n) start refused two_sided ≡ some (result refused)
unfolding engine_code
refused_returns = refl

absent_id : Map.find 9 two_sided.order_index ≡ none
unfolding Map.find
absent_id = refl

small_asks : SmallLevels two_sided.asks
unfolding open_qty remaining
small_asks = (omega arith, (omega arith, tt))

two_sided-IsUncrossed : IsUncrossed two_sided
unfolding queue
two_sided-IsUncrossed =
    ((refl, (refl, (refl, tt))), ((refl, (refl, (refl, tt))), ((refl, (refl, (refl, tt))), tt)))

submit_order_refines_example :
    (t : Match ℤ) × (submit_order (λ n. n) start taker two_sided ≡ some t)
    × IsValid t.book
    × (outcome buy t
        ≡ submit_spec
            (λ n. n)
            start
            taker
            (side_queue buy two_sided)
            (side_queue sell two_sided)
            (can_fill_completely (accepted taker) two_sided))
submit_order_refines_example =
    submit_order_refines whole-IsOrdered (λ n. n) start taker two_sided two_sided-IsValid
      (order-IsSized 9 buy limit gtc 101 60 (omega arith)) absent_id

submit_order-IsUncrossed_example : IsUncrossed (result taker).book
submit_order-IsUncrossed_example =
    submit_order-IsUncrossed whole-IsOrdered (λ n. n) start taker two_sided two_sided-IsValid
      (order-IsSized 9 buy limit gtc 101 60 (omega arith)) absent_id two_sided-IsUncrossed
      (result taker) taker_returns

submit_order-fok_example :
    let offered = eligible (price_stop refused) (side_queue sell two_sided) in
    ((60 ≤ offered) × (remaining (result refused).order ≡ 0))
    ⊎ ((offered < 60) × (result refused ≡ killed start refused two_sided))
unfolding remaining
submit_order-fok_example =
    submit_order-fok whole-IsOrdered (λ n. n) start refused two_sided two_sided-IsValid
      (order-IsSized 9 buy limit fok 101 60 (omega arith)) absent_id small_asks refl
      (result refused) refused_returns

submit_order-amount_example :
    (remaining (result taker).order
      ≡ remaining taker - eligible (price_stop taker) (facing_queue taker two_sided))
    × (open_qty (side_queue sell (result taker).book) + remaining taker
        ≡ open_qty (facing_queue taker two_sided) + remaining (result taker).order)
submit_order-amount_example =
    submit_order-amount whole-IsOrdered (λ n. n) start taker two_sided two_sided-IsValid
      (order-IsSized 9 buy limit gtc 101 60 (omega arith)) absent_id refl taker_returns

submit_order-FillLog_example :
    (log : List (ExecutionReport ℤ)) × ((result taker).engine.sent ≡ start.sent ++ log)
    × FillLog (price_stop taker) taker start.next_exec_id (facing_queue taker two_sided) log
    × (reported log + 2 * remaining (result taker).order ≡ 2 * remaining taker)
    × (((result taker).engine.volume_traded + remaining (result taker).order) % u64_mod
        ≡ (start.volume_traded + remaining taker) % u64_mod)
    × ((result taker).engine.orders_processed ≡ add64 start.orders_processed 1)
submit_order-FillLog_example =
    submit_order-FillLog whole-IsOrdered (λ n. n) start taker two_sided two_sided-IsValid
      (order-IsSized 9 buy limit gtc 101 60 (omega arith)) absent_id refl taker_returns

can_fill_completely-eligible_example :
    can_fill_completely refused two_sided
    ≡ leb (remaining refused) (eligible (price_stop refused) (side_queue sell two_sided))
can_fill_completely-eligible_example =
    can_fill_completely-eligible refused two_sided two_sided-IsValid small_asks
