-- ===== src/Traders.antt =====
-- What the agents of traders/ share: the orders that they make, and the windows of prices that they
-- keep. Sizes of windows are natural numbers, other `int` settings are integers.
pub mod Windows
pub mod Making
pub mod Positions
pub mod MarketMaker
pub mod Momentum
pub mod MeanReversion
pub mod Random
use cpp_matching_engine.Prelude.{
  ℕ, suc, Bool, List, [], ◌∷◌, ◌++◌, length, if◌then◌else◌, ltb, u32_mod, ◌-◌, ◌%◌,
}
use cpp_matching_engine.Prelude.Int.{ℤ, pos, negsuc}
use cpp_matching_engine.Double.{Double}
use cpp_matching_engine.Types.{Side, Order, OrderType, new, set_symbol}
use cpp_matching_engine.TradingAgent.{TradingAgent, next_order_id, number}

-- `static_cast<uint32_t>` of a signed number.
abbrev pub u32_of_int : ℤ → ℕ
u32_of_int (pos n) = n % u32_mod
u32_of_int (negsuc n) = u32_mod - 1 - n % u32_mod

module _ {F : Type 0} where
  -- The fields that every agent sets, in an object `o` from the pool; `tif` stays as it was there.
  unfoldable pub make_order :
      Order F → Side → OrderType → F → ℕ → ℕ → List ℕ → TradingAgent F → TradingAgent F × Order F
  make_order o side type price quantity ts symbol a =
      let (b, id) = next_order_id a in
      (
        b,
        set_symbol
            (record o {
              order_id = id;
              trader_id = a.trader_id;
              timestamp_ns = ts;
              side = side;
              type = type;
              price = price;
              quantity = quantity;
              filled_qty = 0;
              status = new;
            })
            symbol,
      )

  -- `push_back`, and `pop_front` beyond the size of the window.
  abbrev pub tail : List F → List F
  tail [] = []
  tail (x ∷ xs) = xs

  unfoldable pub push_price : ℕ → F → List F → List F
  push_price window mid history =
      let longer = history ++ mid ∷ [] in if ltb window (length longer) then tail longer else longer

module _ {F : Type 0} ⦃d : Double F⦄ where
  abbrev pub cent : F
  cent = d.div (number 1) (number 100)

  -- `std::round(price * 100.0) / 100.0`
  abbrev pub to_cents : F → F
  to_cents price = d.div (d.round (d.mul price (number 100))) (number 100)

  abbrev pub total_from : F → List F → F
  total_from total [] = total
  total_from total (p ∷ ps) = total_from (d.add total p) ps
