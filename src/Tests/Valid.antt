-- ===== src/Tests/Valid.antt =====
-- The shared book is valid.
use cpp_matching_engine.Prelude.{ℕ, ◌+◌, ◌≤◌, ◌<◌, ◌≡◌, arith, refl, nat_eq, [], ◌∷◌, u32_mod}
use cpp_matching_engine.Prelude.Int.{pos}
use cpp_matching_engine.Prelude.Map
use cpp_matching_engine.Double.Whole.{whole}
use cpp_matching_engine.Types.{Side, remaining, buy, sell, OrderType, TimeInForce}
use cpp_matching_engine.OrderBook.Valid.{queue, IsResting, IsLevel, AreLevels, IsValid}
use cpp_matching_engine.PriceTime.{count, locate, first_some, open_qty}
use cpp_matching_engine.Tests.Data.{two_sided, level, resting, order}
use cpp_matching_engine.MatchingEngine.Sweep.{IsSized}

pub resting-IsResting :
    (id : ℕ) (side : Side) (price q : ℕ)
    → 0 < q
    → q < u32_mod
    → IsResting side (pos price) (resting id side price q)
resting-IsResting id side price q h k = record {
  on_side = refl;
  at_price = refl;
  is_limit = refl;
  is_open = h;
  fits = k;
}

one_order-IsLevel :
    (id : ℕ) (side : Side) (price q : ℕ)
    → 0 < q
    → q < u32_mod
    → IsLevel side (pos price) (level side price ((id, q) ∷ [])).1
unfolding open_qty remaining
one_order-IsLevel id side price q h k = record {
  keyed = refl;
  totalled = omega arith;
  resting = (resting-IsResting id side price q h k, tt);
}

two_orders-IsLevel :
    (id id' : ℕ) (side : Side) (price q q' : ℕ)
    → (0 < q) × (0 < q') × (q + q' < u32_mod)
    → IsLevel side (pos price) (level side price ((id, q) ∷ (id', q') ∷ [])).1
unfolding open_qty remaining
two_orders-IsLevel id id' side price q q' h = record {
  keyed = refl;
  totalled = omega arith;
  resting = (
    resting-IsResting id side price q h.0 (omega arith),
    (resting-IsResting id' side price q' h.1 (omega arith), tt),
  );
}

two_sided-bids : AreLevels buy two_sided.bids
two_sided-bids = (
  two_orders-IsLevel 1 2 buy 99 30 20 (omega arith),
  refl,
  (refl, tt),
  (one_order-IsLevel 3 buy 98 10 (omega arith) (omega arith), refl, tt, tt),
)

two_sided-asks : AreLevels sell two_sided.asks
two_sided-asks = (
  two_orders-IsLevel 4 5 sell 101 10 40 (omega arith),
  refl,
  (refl, tt),
  (one_order-IsLevel 6 sell 103 50 (omega arith) (omega arith), refl, tt, tt),
)

two_sided_unique : (id : ℕ) → count id (queue two_sided.bids) + count id (queue two_sided.asks) ≤ 1
unfolding queue count
two_sided_unique id = ground arith

two_sided_indexed :
    (id : ℕ)
    → Map.find id two_sided.order_index
      ≡ first_some (locate id (queue two_sided.bids)) (locate id (queue two_sided.asks))
unfolding queue locate Map.find
two_sided_indexed id = ground arith

pub two_sided-IsValid : IsValid two_sided
two_sided-IsValid = record {
  bid_levels = two_sided-bids;
  ask_levels = two_sided-asks;
  unique = two_sided_unique;
  indexed = two_sided_indexed;
}

pub order-IsSized :
    (id : ℕ) (side : Side) (type : OrderType) (tif : TimeInForce) (price q : ℕ)
    → q < u32_mod
    → IsSized (order id side type tif price q)
order-IsSized id side type tif price q h = record { filled_le = omega arith; fits = h }
