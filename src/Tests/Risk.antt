-- ===== src/Tests/Risk.antt =====
-- The theorems on the risk engine, on a short day of one trader.
use cpp_matching_engine.Prelude.{
  some_injective, ◌≡◌, refl, List, [], ◌∷◌, nat_eq, list_eq, arith, subst,
}
use cpp_matching_engine.Prelude.Map
use cpp_matching_engine.Prelude.Int.{ℤ, pos, ◌+ℤ◌, ◌-ℤ◌}
use cpp_matching_engine.Types.{buy, limit, gtc, ExecutionReport, symbol_string}
use cpp_matching_engine.RiskEngine.{
  new_risk_engine, check_order, on_fill, on_cancel, state_of, symbols_of, put_state, exposure_of,
  use_exposure,
}
use cpp_matching_engine.RiskEngine.Limits.{
  Event, checks, fills, cancels, handle_all, WithinLimits, handle_all-WithinLimits,
  new_risk_engine-WithinLimits,
}
use cpp_matching_engine.RiskEngine.Shares.{IsAccounted}
use cpp_matching_engine.RiskEngine.Exposure.{
  Belongs, KeepsAll, handle_all-IsAccounted, new_risk_engine-IsAccounted,
}
use cpp_matching_engine.Tests.Data.{order, aapl}

abbrev filled_part : ExecutionReport ℤ
filled_part = record {
  exec_id = 1;
  order_id = 1;
  aggressor_order_id = 1;
  trader_id = 7;
  timestamp_ns = 0;
  exec_price = pos 100;
  exec_qty = 400;
  side = buy;
  symbol = aapl;
}

-- 900 to buy, of which 400 are filled; 200 more would be beyond the limit; the rest is cancelled.
abbrev day : List (Event ℤ)
day =
    checks (order 1 buy limit gtc 100 900)
    ∷ fills filled_part
    ∷ checks (order 2 buy limit gtc 100 200)
    ∷ cancels 1
    ∷ []

unfoldable risk_code : Unit {0}
unfolding check_order on_fill on_cancel state_of symbols_of put_state exposure_of use_exposure
    symbol_string ◌+ℤ◌ ◌-ℤ◌ Map.find Map.insert Map.erase
risk_code = tt

day_position :
    (state_of 7 (65 ∷ 65 ∷ 80 ∷ 76 ∷ []) (handle_all day new_risk_engine)).position ≡ pos 400
unfolding risk_code
day_position = refl

handle_all-WithinLimits_example : WithinLimits (handle_all day new_risk_engine)
handle_all-WithinLimits_example =
    handle_all-WithinLimits day new_risk_engine new_risk_engine-WithinLimits

day-KeepsAll : KeepsAll day new_risk_engine
unfolding risk_code
day-KeepsAll = (
  (omega arith, refl),
  (
    λ x h.
        subst (Belongs filled_part) (some_injective h)
          (record { side = refl; trader_id = refl; symbol = refl; covered = omega arith }),
    ((omega arith, refl), (tt, tt)),
  ),
)

handle_all-IsAccounted_example : IsAccounted (handle_all day new_risk_engine)
handle_all-IsAccounted_example =
    handle_all-IsAccounted day new_risk_engine day-KeepsAll new_risk_engine-IsAccounted
