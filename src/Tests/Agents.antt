-- ===== src/Tests/Agents.antt =====
-- Runs of the theorems on agents.
use cpp_matching_engine.Prelude.{ℕ, ◌≡◌, List, [], ◌∷◌, ◌*◌, ◌+◌, ◌≤◌, ◌^◌, arith}
use cpp_matching_engine.Prelude.Int.{ℤ, pos, pos_part, ◌+ℤ◌}
use cpp_matching_engine.Double.Whole.{whole, whole-IsOrdered}
use cpp_matching_engine.Types.{Side, buy, sell, ExecutionReport}
use cpp_matching_engine.Tests.Data.{aapl}
use cpp_matching_engine.TradingAgent.{TradingAgent, new_agent}
use cpp_matching_engine.TradingAgent.Ids.{order_ids, order_ids-AreIdsOf, AreIdsOf}
use cpp_matching_engine.TradingAgent.Inventory.{
  record_fills, record_fills-inventory, record_fills-fill_count,
}
use cpp_matching_engine.TradingAgent.Drawdown.{
  AgentEvent, fill, sample, run, sampled, HasFall, IsMonotone, run-max_drawdown,
}

abbrev pub fill_report : Side → ℕ → ℕ → ExecutionReport ℤ
fill_report side price q = record {
  exec_id = 1;
  order_id = 1;
  aggressor_order_id = 2;
  trader_id = 3;
  timestamp_ns = 0;
  exec_price = pos price;
  exec_qty = q;
  side = side;
  symbol = aapl;
}

-- Ten shares bought and fifteen sold.
abbrev two_fills : List (ExecutionReport ℤ)
two_fills = fill_report buy 100 10 ∷ fill_report sell 104 15 ∷ []

abbrev agent : TradingAgent ℤ
agent = new_agent 3

order_ids-AreIdsOf_example : AreIdsOf 3 (3 * 2 ^ 32) (order_ids 2 agent)
unfolding new_agent
order_ids-AreIdsOf_example = order_ids-AreIdsOf 2 agent (omega arith, omega arith)

record_fills-inventory_example :
    let b = record_fills two_fills agent in
    (b.inventory +ℤ pos 15 ≡ pos 10)
    × (b.closing_trades ≤ 15)
    × (b.closing_trades + pos_part b.inventory ≤ 10)
unfolding new_agent ◌+ℤ◌
record_fills-inventory_example = record_fills-inventory two_fills agent (omega arith)

record_fills-fill_count_example : (record_fills two_fills agent).fill_count ≡ 2
unfolding new_agent
record_fills-fill_count_example = record_fills-fill_count two_fills agent (omega arith)

whole-IsMonotone : IsMonotone ℤ
whole-IsMonotone = record { sub_mono = λ a b c h. ground arith }

abbrev rise_and_fall : List (AgentEvent ℤ)
rise_and_fall =
    fill (fill_report buy 100 10)
    ∷ sample (pos 110)
    ∷ sample (pos 103)
    ∷ fill (fill_report sell 104 15)
    ∷ sample (pos 120)
    ∷ []

run-max_drawdown_example :
    HasFall (run rise_and_fall agent).max_drawdown (sampled rise_and_fall agent)
run-max_drawdown_example = run-max_drawdown whole-IsOrdered whole-IsMonotone rise_and_fall agent
