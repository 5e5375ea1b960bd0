-- ===== src/RiskEngine.antt =====
-- risk/risk_engine.h: limits, positions and open exposure. The `int64_t` quantities are integers without
-- bounds, since their overflow is undefined; the 32-bit quantity of an exposure wraps.
pub mod State
pub mod Limits
pub mod Shares
pub mod Exposure
use cpp_matching_engine.Prelude.{
  ℕ, Bool, true, false, List, [], Option, none, some, if◌then◌else◌, ◌==◌, nat_eq, list_eq, sub32,
}
use cpp_matching_engine.Prelude.Int.{ℤ, pos, ◌+ℤ◌, ◌-ℤ◌, ltb_ℤ}
use cpp_matching_engine.Prelude.Map
use cpp_matching_engine.Prelude.Map.{Map}
use cpp_matching_engine.Types.{Side, buy, sell, Order, ExecutionReport, rejected, symbol_string}

pub record RiskLimits : Type 0 where
  pub max_long_position : ℤ
  pub max_short_position : ℤ

pub record TraderRiskState : Type 0 where
  pub position : ℤ
  pub open_buy_qty : ℤ
  pub open_sell_qty : ℤ
  pub limits : RiskLimits

pub record OrderExposure : Type 0 where
  pub qty : ℕ
  pub side : Side
  pub trader_id : ℕ
  pub symbol : List ℕ

-- `state` maps a trader and a symbol to the state of the two.
pub record RiskEngine : Type 0 where
  pub state : Map ℕ (Map (List ℕ) TraderRiskState)
  pub order_exposures : Map ℕ OrderExposure

abbrev pub new_limits : RiskLimits
new_limits = record { max_long_position = pos 1000; max_short_position = pos 1000 }

abbrev pub new_state : TraderRiskState
new_state = record {
  position = pos 0;
  open_buy_qty = pos 0;
  open_sell_qty = pos 0;
  limits = new_limits;
}

abbrev pub new_risk_engine : RiskEngine
new_risk_engine = record { state = []; order_exposures = [] }

-- `state_[trader_id]`, and `state_[trader_id][symbol]` as it is read and as it is written.
unfoldable pub symbols_of : ℕ → RiskEngine → Map (List ℕ) TraderRiskState
symbols_of trader_id e = elim (Map.find trader_id e.state) [ none ↦ [] | some m ↦ m ]

unfoldable pub state_of : ℕ → List ℕ → RiskEngine → TraderRiskState
state_of trader_id symbol e = elim (Map.find symbol (symbols_of trader_id e)) [
  | none ↦ new_state
  | some x ↦ x
]

unfoldable pub put_state : ℕ → List ℕ → TraderRiskState → RiskEngine → RiskEngine
put_state trader_id symbol x e = record e {
  state = Map.insert trader_id (Map.insert symbol x (symbols_of trader_id e)) e.state;
}

unfoldable pub set_limits : ℕ → List ℕ → RiskLimits → RiskEngine → RiskEngine
set_limits trader_id symbol limits e =
    put_state trader_id symbol (record (state_of trader_id symbol e) { limits = limits }) e

-- The two sums that are held against the limits.
abbrev pub potential_long : TraderRiskState → ℕ → ℤ
potential_long s quantity = s.position +ℤ s.open_buy_qty +ℤ pos quantity

abbrev pub potential_short : TraderRiskState → ℕ → ℤ
potential_short s quantity = s.position -ℤ s.open_sell_qty -ℤ pos quantity

-- The test of `check_order`, and what an order of a side adds to the open exposure.
abbrev pub over_limit : Side → ℕ → TraderRiskState → Bool
over_limit buy quantity s = ltb_ℤ s.limits.max_long_position (potential_long s quantity)
over_limit sell quantity s =
    ltb_ℤ (potential_short s quantity) (pos 0 -ℤ s.limits.max_short_position)

abbrev pub open_more : Side → ℕ → TraderRiskState → TraderRiskState
open_more buy q s = record s { open_buy_qty = s.open_buy_qty +ℤ pos q }
open_more sell q s = record s { open_sell_qty = s.open_sell_qty +ℤ pos q }

abbrev pub open_less : Side → ℕ → TraderRiskState → TraderRiskState
open_less buy q s = record s { open_buy_qty = s.open_buy_qty -ℤ pos q }
open_less sell q s = record s { open_sell_qty = s.open_sell_qty -ℤ pos q }

-- A fill moves shares from the exposure to the position.
abbrev pub fill_state : Side → ℕ → TraderRiskState → TraderRiskState
fill_state buy q s = record (open_less buy q s) { position = s.position +ℤ pos q }
fill_state sell q s = record (open_less sell q s) { position = s.position -ℤ pos q }

-- `it->second.qty -= exec_qty`, and the removal of an exposure that is used up.
unfoldable pub use_exposure : ℕ → OrderExposure → ℕ → Map ℕ OrderExposure → Map ℕ OrderExposure
use_exposure id x q m =
    let left = sub32 x.qty q in
    if left == 0 then Map.erase id m else Map.insert id (record x { qty = left }) m

module _ {F : Type 0} where
  unfoldable pub exposure_of : Order F → OrderExposure
  exposure_of o = record {
    qty = o.quantity;
    side = o.side;
    trader_id = o.trader_id;
    symbol = symbol_string o.symbol;
  }

  -- The order with its status, the engine, and whether the order is approved. The reference to the
  -- trader's state makes an entry for it in either case.
  unfoldable pub check_order : Order F → RiskEngine → Order F × RiskEngine × Bool
  check_order o e =
      let sym = symbol_string o.symbol in
      let s = state_of o.trader_id sym e in
      if over_limit o.side o.quantity s
      then (record o { status = rejected }, put_state o.trader_id sym s e, false)
      else (
        o,
        record (put_state o.trader_id sym (open_more o.side o.quantity s) e) {
          order_exposures = Map.insert o.order_id (exposure_of o) e.order_exposures;
        },
        true,
      )

  unfoldable pub on_fill : ExecutionReport F → RiskEngine → RiskEngine
  on_fill r e = elim (Map.find r.order_id e.order_exposures) [
    | none ↦ e
    | some x ↦
        let sym = symbol_string r.symbol in
        let s = state_of r.trader_id sym e in
        record (put_state r.trader_id sym (fill_state r.side r.exec_qty s) e) {
          order_exposures = use_exposure r.order_id x r.exec_qty e.order_exposures;
        }
  ]

unfoldable pub on_cancel : ℕ → RiskEngine → RiskEngine
on_cancel order_id e = elim (Map.find order_id e.order_exposures) [
  | none ↦ e
  | some x ↦
      let s = state_of x.trader_id x.symbol e in
      record (put_state x.trader_id x.symbol (open_less x.side x.qty s) e) {
        order_exposures = Map.erase order_id e.order_exposures;
      }
]
