-- ===== src/Traders/MeanReversion/Trades.antt =====
-- What a tick of the mean-reversion trader may trade at its position.
use cpp_matching_engine.Prelude.{
  ℕ, ◌≡◌, refl, sym, subst, List, [], ◌∷◌, Bool, true, false, not, ◌&&◌, ltb, length, Bool-cases,
  inl, inr, ◌⊎◌, ◌≤◌, ◌<◌, arith, u32_mod,
}
use cpp_matching_engine.Prelude.Int.{ℤ, pos, negsuc, pos_part, neg_part, ◌-ℤ◌, ltb_ℤ}
use cpp_matching_engine.Double.{Double}
use cpp_matching_engine.Types.{Side, buy, sell, Order, limit, market, set_symbol}
use cpp_matching_engine.OrderBook.{OrderBook, mid_price}
use cpp_matching_engine.TradingAgent.{number, next_order_id, is_zero, is_positive}
use cpp_matching_engine.Traders.{make_order, push_price, u32_of_int, cent}
use cpp_matching_engine.Traders.MeanReversion.{
  MeanReversionTrader, enter, exit_position, exit_quantity, trade, act, on_tick, absolute,
  compute_mean, compute_stddev, magnitude,
}

exit_quantity-bound : (t z : ℤ) (q : ℕ) → t ≡ pos q → q < u32_mod → exit_quantity t z ≤ magnitude z
exit_quantity-bound t z q e h = subst (λ r. exit_quantity r z ≤ magnitude z) (sym e) (omega arith)

long_part : (z : ℤ) → is_positive z ≡ true → magnitude z ≡ pos_part z
long_part (pos n) h = omega arith
long_part (negsuc n) h = absurd (ground arith)

short_part : (z : ℤ) → is_positive z ≡ false → magnitude z ≡ neg_part z
short_part (pos n) h = ground arith
short_part (negsuc n) h = omega arith

both : (a b : Bool) → (a && b) ≡ true → b ≡ true
both true b h = h
both false b h = absurd cc

module _ {F : Type 0} ⦃d : Double F⦄ where
  -- A limit order while the position has not reached the maximum on its side.
  abbrev pub IsEntry : MeanReversionTrader F → Order F → Type 0
  IsEntry m o =
      (o.type ≡ limit)
      × (o.quantity ≡ u32_of_int m.cfg.trade_qty)
      × (((o.side ≡ sell) × (ltb_ℤ (pos 0 -ℤ m.cfg.max_pos) m.agent.inventory ≡ true))
          ⊎ ((o.side ≡ buy) × (ltb_ℤ m.agent.inventory m.cfg.max_pos ≡ true)))

  -- A market order that closes some of the position, and opens none on the other side.
  abbrev pub IsExit : MeanReversionTrader F → Order F → Type 0
  IsExit m o =
      (o.type ≡ market)
      × (0 < o.quantity)
      × (((o.side ≡ sell) × (o.quantity ≤ pos_part m.agent.inventory))
          ⊎ ((o.side ≡ buy) × (o.quantity ≤ neg_part m.agent.inventory)))

  abbrev pub Trades : MeanReversionTrader F → MeanReversionTrader F × List (Order F) → Type 0
  Trades m r =
      (r.0.agent.inventory ≡ m.agent.inventory)
      × ((r.1 ≡ []) ⊎ ((o : Order F) × (r.1 ≡ o ∷ []) × (IsEntry m o ⊎ IsExit m o)))

  exit_position-Trades :
      (o : Order F) (ts q : ℕ) (m : MeanReversionTrader F)
      → m.cfg.trade_qty ≡ pos q
      → q < u32_mod
      → Trades m (exit_position o ts m)
  unfolding exit_position make_order next_order_id set_symbol
  exit_position-Trades o ts q m e h =
      let z = m.agent.inventory in
      let exit_qty = exit_quantity m.cfg.trade_qty z in
      let most = exit_quantity-bound m.cfg.trade_qty z q e h in
      elim (Bool-cases (ltb 0 exit_qty)) [
        | inr f ↦ rw (exit_position, f) (refl, inl refl)
        | inl f ↦
            let more : 0 < exit_qty = ground arith in
            elim (Bool-cases (is_positive z)) [
              | inl g ↦
                  rw (exit_position, f, g)
                    (
                      refl,
                      inr (_, refl, inr (refl, more, inl (refl, omega (arith, long_part z g)))),
                    )
              | inr g ↦
                  rw (exit_position, f, g)
                    (
                      refl,
                      inr (_, refl, inr (refl, more, inr (refl, omega (arith, short_part z g)))),
                    )
            ]
      ]

  enter-Trades :
      (o : Order F) (side : Side) (ts : ℕ) (price : F) (m : MeanReversionTrader F)
      → ((side ≡ sell) × (ltb_ℤ (pos 0 -ℤ m.cfg.max_pos) m.agent.inventory ≡ true))
        ⊎ ((side ≡ buy) × (ltb_ℤ m.agent.inventory m.cfg.max_pos ≡ true))
      → Trades m (enter o side ts price m)
  unfolding enter make_order next_order_id set_symbol
  enter-Trades o side ts price m h = (refl, inr (_, refl, inl (refl, refl, h)))

  trade-Trades :
      (o : Order F) (ts q : ℕ) (mid z : F) (m : MeanReversionTrader F)
      → m.cfg.trade_qty ≡ pos q
      → q < u32_mod
      → Trades m (trade o ts mid z m)
  unfolding trade
  trade-Trades o ts q mid z m e h =
      let position = m.agent.inventory in
      let high = d.lt m.cfg.entry_z z in
      let low = d.lt z (d.neg m.cfg.entry_z) in
      let near = d.lt (absolute z) m.cfg.exit_z in
      let may_sell = ltb_ℤ (pos 0 -ℤ m.cfg.max_pos) position in
      let may_buy = ltb_ℤ position m.cfg.max_pos in
      elim (Bool-cases (high && may_sell)) [
        | inl a ↦
            rw (trade, a)
              (enter-Trades o sell ts (d.sub mid cent) m (inl (refl, both high may_sell a)))
        | inr a ↦ elim (Bool-cases (low && may_buy)) [
          | inl b ↦
              rw (trade, a, b)
                (enter-Trades o buy ts (d.add mid cent) m (inr (refl, both low may_buy b)))
          | inr b ↦ elim (Bool-cases (near && not (is_zero position))) [
            | inl c ↦ rw (trade, a, b, c) (exit_position-Trades o ts q m e h)
            | inr c ↦ rw (trade, a, b, c) (refl, inl refl)
          ]
        ]
      ]

  act-Trades :
      (o : Order F) (ts q : ℕ) (mid : F) (m : MeanReversionTrader F)
      → m.cfg.trade_qty ≡ pos q
      → q < u32_mod
      → Trades m (act o ts mid m)
  unfolding act
  act-Trades o ts q mid m e h =
      let mean = compute_mean m.price_history in
      let stddev = compute_stddev mean m.price_history in
      let z = d.div (d.sub mid mean) stddev in
      elim (Bool-cases (ltb (length m.price_history) m.cfg.window)) [
        | inl a ↦ rw (act, a) (refl, inl refl)
        | inr a ↦ elim (Bool-cases (d.lt stddev (d.div (number 1) (number 1000000)))) [
          | inl b ↦ rw (act, a, b) (refl, inl refl)
          | inr b ↦ rw (act, a, b) (trade-Trades o ts q mid z (record m { last_z = z }) e h)
        ]
      ]

  -- With a trade quantity from 0 to below 2^32, a tick of the mean-reversion trader leaves its
  -- position, and makes no order or one: a limit order of the trade quantity on a side on which
  -- the position has not reached the maximum, or a market order for at least one share and for no
  -- more than the position, against it.
  pub on_tick-Trades :
      (o : Order F) (book : OrderBook F) (ts q : ℕ) (m : MeanReversionTrader F)
      → m.cfg.trade_qty ≡ pos q
      → q < u32_mod
      → Trades m (on_tick o book ts m)
  unfolding on_tick
  on_tick-Trades o book ts q m e h =
      let mid = mid_price book in
      let history = push_price m.cfg.window mid m.price_history in
      elim (Bool-cases (d.le mid (number 0))) [
        | inl a ↦ rw (on_tick, a) (refl, inl refl)
        | inr a ↦ rw (on_tick, a) (act-Trades o ts q mid (record m { price_history = history }) e h)
      ]
