-- ===== src/TradingAgent.antt =====
-- traders/trading_agent.h: the accounts that every agent keeps, and its order ids. The `int64_t`
-- inventory is an integer without bounds, since its overflow is undefined.
pub mod Ids
pub mod Inventory
pub mod Drawdown
use cpp_matching_engine.Prelude.{
  ℕ, Bool, ◌||◌, List, [], ◌∷◌, ◌++◌, length, if◌then◌else◌, ◌==◌, nat_eq, ltb, add64, u64_mod, ◌+◌,
  ◌*◌, ◌%◌, ◌^◌, min,
}
use cpp_matching_engine.Prelude.Int.{ℤ, pos, negsuc, pos_part, neg_part, ◌+ℤ◌, ◌-ℤ◌, ltb_ℤ}
use cpp_matching_engine.Double.{Double}
use cpp_matching_engine.Types.{Side, buy, sell, ExecutionReport}
use Prim.Native.Nat.{bit_or}

pub record TradingAgent (F : Type 0) : Type 0 where
  pub trader_id : ℕ
  pub inventory : ℤ
  pub realized_pnl : F
  pub avg_cost : F
  pub fill_count : ℕ
  pub order_count : ℕ
  pub id_counter : ℕ
  pub peak_pnl : F
  pub max_drawdown : F
  pub last_pnl_sample : F
  pub closing_trades : ℕ
  pub pnl_returns : List F

-- `inventory_ == 0` and `inventory_ > 0`.
abbrev pub is_zero : ℤ → Bool
is_zero z = pos_part z + neg_part z == 0

abbrev pub is_positive : ℤ → Bool
is_positive z = ltb_ℤ (pos 0) z

module _ {F : Type 0} where
  -- `(trader_id << 32) | ++id_counter_`
  unfoldable pub next_order_id : TradingAgent F → TradingAgent F × ℕ
  next_order_id a =
      let id_counter = add64 a.id_counter 1 in
      (
        record a { order_count = add64 a.order_count 1; id_counter = id_counter },
        bit_or ((a.trader_id * 2 ^ 32) % u64_mod) id_counter,
      )

module _ {F : Type 0} ⦃d : Double F⦄ where
  abbrev pub number : ℕ → F
  number n = d.of_int (pos n)

  unfoldable pub new_agent : ℕ → TradingAgent F
  new_agent trader_id = record {
    trader_id = trader_id;
    inventory = pos 0;
    realized_pnl = number 0;
    avg_cost = number 0;
    fill_count = 0;
    order_count = 0;
    id_counter = 0;
    peak_pnl = number 0;
    max_drawdown = number 0;
    last_pnl_sample = number 0;
    closing_trades = 0;
    pnl_returns = [];
  }

  unfoldable pub unrealized_pnl : TradingAgent F → F → F
  unrealized_pnl a current_mid =
      if is_zero a.inventory || d.eq a.avg_cost (number 0)
      then number 0
      else d.mul (d.of_int a.inventory) (d.sub current_mid a.avg_cost)

  unfoldable pub total_pnl : TradingAgent F → F → F
  total_pnl a current_mid = d.add a.realized_pnl (unrealized_pnl a current_mid)

  -- The sum and the sum of squares that the loop over the returns leaves.
  abbrev pub return_sums : List F → F → F → F × F
  return_sums [] total sq_sum = (total, sq_sum)
  return_sums (r ∷ rs) total sq_sum = return_sums rs (d.add total r) (d.add sq_sum (d.mul r r))

  unfoldable pub sharpe_ratio : TradingAgent F → F
  sharpe_ratio a =
      let n = length a.pnl_returns in
      let (total, sq_sum) = return_sums a.pnl_returns (number 0) (number 0) in
      let mean = d.div total (number n) in
      let variance = d.sub (d.div sq_sum (number n)) (d.mul mean mean) in
      if ltb n 2
      then number 0
      else if d.le variance (number 0)
      then number 0
      else d.div mean (d.sqrt variance)

  unfoldable pub avg_spread_captured : TradingAgent F → F
  avg_spread_captured a =
      if a.closing_trades == 0 then number 0 else d.div a.realized_pnl (number a.closing_trades)

  abbrev pub larger : F → F → F
  larger a b = if d.lt b a then a else b

  unfoldable pub record_pnl_sample : F → TradingAgent F → TradingAgent F
  record_pnl_sample current_mid a =
      let current_pnl = total_pnl a current_mid in
      let peak = larger current_pnl a.peak_pnl in
      record a {
        pnl_returns = a.pnl_returns ++ d.sub current_pnl a.last_pnl_sample ∷ [];
        last_pnl_sample = current_pnl;
        peak_pnl = peak;
        max_drawdown = larger (d.sub peak current_pnl) a.max_drawdown;
      }

  -- The two branches of `record_fill`.
  unfoldable pub record_buy : F → ℕ → TradingAgent F → TradingAgent F
  record_buy price qty a =
      let old_cost = d.mul a.avg_cost (number (pos_part a.inventory)) in
      let inventory = a.inventory +ℤ pos qty in
      let cost = d.add old_cost (d.mul price (number qty)) in
      record a {
        inventory = inventory;
        avg_cost = if is_positive inventory then d.div cost (d.of_int inventory) else a.avg_cost;
      }

  unfoldable pub close_long : F → ℕ → TradingAgent F → TradingAgent F
  close_long price qty a =
      let closing = min qty (pos_part a.inventory) in
      if is_positive a.inventory
      then record a {
        realized_pnl = d.add a.realized_pnl (d.mul (number closing) (d.sub price a.avg_cost));
        closing_trades = add64 a.closing_trades closing;
      }
      else a

  abbrev pub record_sell : F → ℕ → TradingAgent F → TradingAgent F
  record_sell price qty a =
      let b = close_long price qty a in record b { inventory = b.inventory -ℤ pos qty }

  abbrev pub record_side : Side → F → ℕ → TradingAgent F → TradingAgent F
  record_side buy = record_buy
  record_side sell = record_sell

  unfoldable pub record_fill : ExecutionReport F → TradingAgent F → TradingAgent F
  record_fill r a =
      record_side r.side r.exec_price r.exec_qty (record a { fill_count = add64 a.fill_count 1 })
