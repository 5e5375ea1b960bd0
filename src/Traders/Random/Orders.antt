-- ===== src/Traders/Random/Orders.antt =====
-- The order of a tick of the random trader.
use cpp_matching_engine.Prelude.{
  ℕ, ◌≡◌, refl, true, false, length, ◌≤◌, Bool-cases, inl, inr, All, if◌then◌else◌, arith,
}
use mathlib.Core.Bool.{true≢false}
use cpp_matching_engine.Double.{Double, IsOrdered}
use cpp_matching_engine.Types.{buy, sell, Order, OrderType, limit, market, set_symbol}
use cpp_matching_engine.OrderBook.{OrderBook, mid_price}
use cpp_matching_engine.TradingAgent.{number, next_order_id}
use cpp_matching_engine.TradingAgent.Ids.{CanNumber}
use cpp_matching_engine.Traders.{make_order, u32_of_int, cent, to_cents}
use cpp_matching_engine.Traders.Making.{Issues, make_order-Issues, none-Issues, u32_of_int-bound}
use cpp_matching_engine.Traders.Random.{RandomTrader, Draw, choose, on_tick}

module _ {F : Type 0} ⦃d : Double F⦄ where
  pub on_tick-Issues :
      (o : Order F) (draw : Draw F) (book : OrderBook F) (ts : ℕ) (m : RandomTrader F)
      → CanNumber 1 m.agent
      → let (n, os) = on_tick o draw book ts m in Issues m.agent os n.agent × (length os ≤ 1)
  unfolding on_tick
  on_tick-Issues o draw book ts m h =
      let side = if d.lt draw.side_prob (d.div (number 5) (number 10)) then buy else sell in
      let (type, price) = choose (mid_price book) draw in
      elim (Bool-cases (d.le (mid_price book) (number 0))) [
        | inl e ↦ rw (on_tick, e) (none-Issues m.agent m.agent refl refl, omega arith)
        | inr e ↦
            rw (on_tick, e)
              (
                make_order-Issues o side type price (u32_of_int draw.qty) ts m.symbol m.agent h
                    (u32_of_int-bound draw.qty),
                omega arith,
              )
      ]

  -- A market order has no price, and a limit order a positive one.
  abbrev pub IsPriced : OrderType → F → Type 0
  IsPriced market price = price ≡ number 0
  IsPriced limit price = d.lt (number 0) price ≡ true

  not_le-lt : (ord : IsOrdered F) (a b : F) → d.le a b ≡ false → d.lt b a ≡ true
  not_le-lt ord a b h = elim (Bool-cases (d.lt b a)) [
    | inl e ↦ e
    | inr e ↦ let p : true ≡ false = (rw (ord.le_iff a b, e) at h) in absurd (true≢false p)
  ]

  choose-IsPriced :
      (ord : IsOrdered F) (mid : F) (draw : Draw F)
      → d.lt (number 0) cent ≡ true
      → let (type, price) = choose mid draw in IsPriced type price
  unfolding choose
  choose-IsPriced ord mid draw h =
      let price = to_cents (d.add mid draw.noise) in
      elim (Bool-cases (d.lt draw.type_prob (d.div (number 30) (number 100)))) [
        | inl e ↦ rw (choose, e) refl
        | inr e ↦ elim (Bool-cases (d.le price (number 0))) [
          | inl f ↦ rw (choose, e, f) h
          | inr f ↦ rw (choose, e, f) (not_le-lt ord price (number 0) f)
        ]
      ]

  -- If a hundredth is above zero and no value is NaN, a tick of the random trader makes at most
  -- one order, with the drawn quantity; a limit order of it has a price above zero, a market
  -- order the price zero.
  pub on_tick-IsPriced :
      (ord : IsOrdered F) (o : Order F) (draw : Draw F) (book : OrderBook F) (ts : ℕ)
      (m : RandomTrader F)
      → d.lt (number 0) cent ≡ true
      → let (n, os) = on_tick o draw book ts m in
        (length os ≤ 1) × All (λ r. IsPriced r.type r.price × (r.quantity ≡ u32_of_int draw.qty)) os
  unfolding on_tick make_order next_order_id set_symbol
  on_tick-IsPriced ord o draw book ts m h = elim (Bool-cases (d.le (mid_price book) (number 0))) [
    | inl e ↦ rw (on_tick, e) (omega arith, tt)
    | inr e ↦
        rw (on_tick, e) (omega arith, ((choose-IsPriced ord (mid_price book) draw h, refl), tt))
  ]
