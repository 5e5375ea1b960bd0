-- ===== src/Traders/Making.antt =====
-- The orders that the agents make.
use cpp_matching_engine.Prelude.{
  ℕ, ◌≡◌, refl, ◌∙◌, subst, List, [], ◌∷◌, ◌++◌, length, length-append, ◌+◌, ◌*◌, ◌<◌, ◌≤◌, ◌^◌,
  arith, u32_mod,
}
use cpp_matching_engine.Prelude.Int.{ℤ, pos, negsuc}
use cpp_matching_engine.Types.{Side, Order, OrderType, new, set_symbol}
use cpp_matching_engine.MatchingEngine.Sweep.{IsSized}
use cpp_matching_engine.TradingAgent.{TradingAgent, next_order_id}
use cpp_matching_engine.TradingAgent.Ids.{CanNumber, next_order_id-value}
use cpp_matching_engine.Traders.{make_order, u32_of_int}

pub u32_of_int-bound : (z : ℤ) → u32_of_int z < u32_mod
u32_of_int-bound (pos n) = omega arith
u32_of_int-bound (negsuc n) = omega arith

module _ {F : Type 0} where
  -- A new order of an agent, and one that the engine takes as it is.
  abbrev pub IsNew : Side → TradingAgent F → Order F → Type 0
  IsNew side a o = (o.side ≡ side) × (o.trader_id ≡ a.trader_id) × (o.status ≡ new) × IsSized o

  pub make_order-IsNew :
      (o : Order F) (side : Side) (type : OrderType) (price : F) (quantity ts : ℕ) (symbol : List ℕ)
      (a : TradingAgent F)
      → quantity < u32_mod
      → IsNew side a (make_order o side type price quantity ts symbol a).1
  unfolding make_order next_order_id set_symbol
  make_order-IsNew o side type price quantity ts symbol a h =
      (refl, refl, refl, record { filled_le = omega arith; fits = h })

  make_order-id :
      (o : Order F) (side : Side) (type : OrderType) (price : F) (quantity ts : ℕ) (symbol : List ℕ)
      (a : TradingAgent F)
      → CanNumber 1 a
      → let (b, made) = make_order o side type price quantity ts symbol a in
        (b.trader_id ≡ a.trader_id)
        × (b.id_counter ≡ a.id_counter + 1)
        × (made.order_id ≡ a.trader_id * 2 ^ 32 + (a.id_counter + 1))
  unfolding make_order next_order_id set_symbol
  make_order-id o side type price quantity ts symbol a h =
      (refl, omega arith, next_order_id-value a h)

  -- Orders that the engine takes, with the ids that follow the first `counter` of a trader.
  abbrev pub AreIssued : ℕ → ℕ → List (Order F) → Type 0
  AreIssued trader_id counter [] = Unit
  AreIssued trader_id counter (o ∷ os) =
      (o.order_id ≡ trader_id * 2 ^ 32 + (counter + 1))
      × IsSized o
      × AreIssued trader_id (counter + 1) os

  -- What the agents promise of a tick: the orders, and the agent before and after.
  pub record Issues (a : TradingAgent F) (os : List (Order F)) (b : TradingAgent F) : Type 0 where
    pub same_trader : b.trader_id ≡ a.trader_id
    pub counted : b.id_counter ≡ a.id_counter + length os
    pub issued : AreIssued a.trader_id a.id_counter os

  pub none-Issues :
      (a b : TradingAgent F)
      → b.trader_id ≡ a.trader_id
      → b.id_counter ≡ a.id_counter
      → Issues a [] b
  none-Issues a b h k = record { same_trader = h; counted = omega (arith, k); issued = tt }

  pub make_order-Issues :
      (o : Order F) (side : Side) (type : OrderType) (price : F) (quantity ts : ℕ) (symbol : List ℕ)
      (a : TradingAgent F)
      → CanNumber 1 a
      → quantity < u32_mod
      → let (b, made) = make_order o side type price quantity ts symbol a in Issues a (made ∷ []) b
  make_order-Issues o side type price quantity ts symbol a h k =
      let (same, counted, id) = make_order-id o side type price quantity ts symbol a h in
      let (_, _, _, sized) = make_order-IsNew o side type price quantity ts symbol a k in
      record { same_trader = same; counted = counted; issued = (id, sized, tt) }

  AreIssued-append :
      (t c : ℕ) (os ps : List (Order F))
      → AreIssued t c os
      → AreIssued t (c + length os) ps
      → AreIssued t c (os ++ ps)
  AreIssued-append t c [] ps h k = subst (λ n. AreIssued t n ps) (omega arith) k
  AreIssued-append t c (o ∷ os) ps (e, s, h) k =
      (e, s, AreIssued-append t (c + 1) os ps h (subst (λ n. AreIssued t n ps) (omega arith) k))

  pub Issues-append :
      (a b c : TradingAgent F) (os ps : List (Order F))
      → Issues a os b
      → Issues b ps c
      → Issues a (os ++ ps) c
  Issues-append a b c os ps h k = record {
    same_trader = k.same_trader ∙ h.same_trader;
    counted = omega (arith, h.counted, k.counted, length-append os ps);
    issued = AreIssued-append a.trader_id a.id_counter os ps h.issued (
        subst (λ n. AreIssued a.trader_id n ps) h.counted
          (subst (λ t. AreIssued t b.id_counter ps) h.same_trader k.issued));
  }

  pub Issues-CanNumber :
      (n m : ℕ) (a b : TradingAgent F) (os : List (Order F))
      → Issues a os b
      → length os ≤ m
      → CanNumber (m + n) a
      → CanNumber n b
  Issues-CanNumber n m a b os h k (p, q) = (omega (arith, h.same_trader), omega (arith, h.counted))
