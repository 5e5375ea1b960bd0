-- ===== src/Traders/Positions.antt =====
-- What fills can do to a position, if they are fills of given orders.
use cpp_matching_engine.Prelude.{ℕ, List, [], ◌∷◌, ◌+◌, ◌≤◌, ◌<◌}
use cpp_matching_engine.Prelude.Int.{ℤ, pos, pos_part, neg_part, ◌+ℤ◌, ◌-ℤ◌, int_laws}
use cpp_matching_engine.Double.{Double}
use cpp_matching_engine.Types.{Side, buy, sell, Order, ExecutionReport}
use cpp_matching_engine.TradingAgent.{TradingAgent}
use cpp_matching_engine.TradingAgent.Inventory.{
  traded, shares_if, record_fills, record_fills-balance,
}

module _ {F : Type 0} where
  -- The shares that orders of a side ask for.
  abbrev pub ordered : Side → List (Order F) → ℕ
  ordered side [] = 0
  ordered side (o ∷ os) = shares_if side o.side o.quantity + ordered side os

  -- The fills take no more than the orders ask for.
  abbrev pub AreFillsOf : List (ExecutionReport F) → List (Order F) → Type 0
  AreFillsOf rs os = (traded buy rs ≤ ordered buy os) × (traded sell rs ≤ ordered sell os)

-- The position is above `-b` and below `b`.
abbrev pub IsWithin : ℕ → ℤ → Type 0
IsWithin b z = (pos_part z < b) × (neg_part z < b)

module _ {F : Type 0} ⦃d : Double F⦄ where
  -- If neither all buys nor all sells can leave the bounds, no fills of the orders can.
  pub record_fills-IsWithin :
      (b : ℕ) (rs : List (ExecutionReport F)) (os : List (Order F)) (a : TradingAgent F)
      → AreFillsOf rs os
      → IsWithin b (a.inventory)
      → pos_part (a.inventory +ℤ pos (ordered buy os)) < b
      → neg_part (a.inventory -ℤ pos (ordered sell os)) < b
      → IsWithin b (record_fills rs a).inventory
  record_fills-IsWithin b rs os a (h, k) within up down =
      let balance = record_fills-balance rs a in (grind int_laws, grind int_laws)
