-- ===== src/RiskEngine/Limits.antt =====
-- risk/risk_engine.h: positions and limits through checks, fills and cancels.
use cpp_matching_engine.Prelude.{
  ℕ, ◌≡◌, refl, false, ◌&&◌, List, [], ◌∷◌, inl, inr, ◌==◌, nat_eq, list_eq, Bool-cases,
  Option-cases, subst, sym, ◌∙◌,
}
use cpp_matching_engine.Prelude.Int.{pos, ◌+ℤ◌, ◌-ℤ◌, ◌≤ℤ◌, int_laws}
use cpp_matching_engine.Prelude.Map
use cpp_matching_engine.Prelude.Map.{Map}
use cpp_matching_engine.Types.{Side, buy, sell, Order, ExecutionReport, symbol_string}
use cpp_matching_engine.RiskEngine.{
  RiskEngine, TraderRiskState, OrderExposure, state_of, symbols_of, put_state, over_limit,
  open_more, open_less, fill_state, check_order, on_fill, on_cancel, new_risk_engine,
}
use cpp_matching_engine.RiskEngine.State.{state_of-write}

-- If all open buys fill, the position is within the long limit; if all open sells do, it is within
-- the short one.
abbrev pub Within : TraderRiskState → Type 0
Within s =
    (s.position +ℤ s.open_buy_qty ≤ℤ s.limits.max_long_position)
    × (pos 0 -ℤ s.limits.max_short_position ≤ℤ s.position -ℤ s.open_sell_qty)

-- Every trader in every symbol.
abbrev pub WithinLimits : RiskEngine → Type 0
WithinLimits e = (trader_id : ℕ) (symbol : List ℕ) → Within (state_of trader_id symbol e)

open_more-Within :
    (side : Side) (q : ℕ) (s : TraderRiskState)
    → over_limit side q s ≡ false
    → Within s
    → Within (open_more side q s)
open_more-Within buy q s h v = (grind int_laws, v.1)
open_more-Within sell q s h v = (v.0, grind int_laws)

open_less-Within :
    (side : Side) (q : ℕ) (s : TraderRiskState) → Within s → Within (open_less side q s)
open_less-Within buy q s v = (grind int_laws, v.1)
open_less-Within sell q s v = (v.0, grind int_laws)

fill_state-Within :
    (side : Side) (q : ℕ) (s : TraderRiskState) → Within s → Within (fill_state side q s)
fill_state-Within buy q s v = (grind int_laws, grind int_laws)
fill_state-Within sell q s v = (grind int_laws, grind int_laws)

put_state-WithinLimits :
    (t : ℕ) (symbol : List ℕ) (x : TraderRiskState) (e : RiskEngine) (m : Map ℕ OrderExposure)
    → Within x
    → WithinLimits e
    → WithinLimits (record (put_state t symbol x e) { order_exposures = m })
put_state-WithinLimits t symbol x e m h v u symbol' =
    elim (Bool-cases (t == u && symbol == symbol')) [
      | inl k ↦ subst Within (sym (state_of-write t u symbol symbol' x e m ∙ rw k refl)) h
      | inr k ↦
          subst Within (sym (state_of-write t u symbol symbol' x e m ∙ rw k refl)) (v u symbol')
    ]

-- What is told to the risk engine.
pub data Event (F : Type 0) : Type 0 where
  checks : Order F → Event F
  fills : ExecutionReport F → Event F
  cancels : ℕ → Event F

module _ {F : Type 0} where
  abbrev pub handle : Event F → RiskEngine → RiskEngine
  handle (checks o) e = (check_order o e).1
  handle (fills r) e = on_fill r e
  handle (cancels id) e = on_cancel id e

  abbrev pub handle_all : List (Event F) → RiskEngine → RiskEngine
  handle_all [] e = e
  handle_all (x ∷ xs) e = handle_all xs (handle x e)

  check_order-WithinLimits :
      (o : Order F) (e : RiskEngine) → WithinLimits e → WithinLimits (check_order o e).1
  unfolding check_order put_state
  check_order-WithinLimits o e v =
      let symbol = symbol_string o.symbol in
      let s = state_of o.trader_id symbol e in
      let old = v o.trader_id symbol in
      elim (Bool-cases (over_limit o.side o.quantity s)) [
        | inl h ↦
            rw (check_order, h)
              (put_state-WithinLimits o.trader_id symbol s e e.order_exposures old v)
        | inr h ↦
            rw (check_order, h)
              (put_state-WithinLimits o.trader_id symbol (open_more o.side o.quantity s) e _
                (open_more-Within o.side o.quantity s h old) v)
      ]

  on_fill-WithinLimits :
      (r : ExecutionReport F) (e : RiskEngine) → WithinLimits e → WithinLimits (on_fill r e)
  unfolding on_fill
  on_fill-WithinLimits r e v = elim (Option-cases (Map.find r.order_id e.order_exposures)) [
    | inl h ↦ rw (on_fill, h) v
    | inr (x, h) ↦
        let symbol = symbol_string r.symbol in
        let s = state_of r.trader_id symbol e in
        rw (on_fill, h)
          (put_state-WithinLimits r.trader_id symbol (fill_state r.side r.exec_qty s) e _
            (fill_state-Within r.side r.exec_qty s (v r.trader_id symbol)) v)
  ]

on_cancel-WithinLimits : (id : ℕ) (e : RiskEngine) → WithinLimits e → WithinLimits (on_cancel id e)
unfolding on_cancel
on_cancel-WithinLimits id e v = elim (Option-cases (Map.find id e.order_exposures)) [
  | inl h ↦ rw (on_cancel, h) v
  | inr (x, h) ↦
      let s = state_of x.trader_id x.symbol e in
      rw (on_cancel, h)
        (put_state-WithinLimits x.trader_id x.symbol (open_less x.side x.qty s) e _
          (open_less-Within x.side x.qty s (v x.trader_id x.symbol)) v)
]

module _ {F : Type 0} where
  handle-WithinLimits : (x : Event F) (e : RiskEngine) → WithinLimits e → WithinLimits (handle x e)
  handle-WithinLimits (checks o) e v = check_order-WithinLimits o e v
  handle-WithinLimits (fills r) e v = on_fill-WithinLimits r e v
  handle-WithinLimits (cancels id) e v = on_cancel-WithinLimits id e v

  -- If every trader is within its limits in every symbol, all open orders counted as filled, it
  -- stays so through any sequence of checks, fills and cancels.
  pub handle_all-WithinLimits :
      (xs : List (Event F)) (e : RiskEngine) → WithinLimits e → WithinLimits (handle_all xs e)
  handle_all-WithinLimits [] e v = v
  handle_all-WithinLimits (x ∷ xs) e v =
      handle_all-WithinLimits xs (handle x e) (handle-WithinLimits x e v)

-- Every trader starts within the limits.
pub new_risk_engine-WithinLimits : WithinLimits new_risk_engine
unfolding state_of symbols_of Map.find
new_risk_engine-WithinLimits t symbol = (grind int_laws, grind int_laws)
