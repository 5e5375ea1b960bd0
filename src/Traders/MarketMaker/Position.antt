-- ===== src/Traders/MarketMaker/Position.antt =====
-- The bounds of the market maker's position, when its fills are those of its quotes.
use cpp_matching_engine.Prelude.{
  subst, ℕ, if◌then◌else◌, ◌∙◌, sym, ap₂, ◌≡◌, refl, List, [], ◌∷◌, ◌++◌, length, ◌+◌, ◌≤◌, ◌<◌,
  arith, Bool-cases, inl, inr,
}
use cpp_matching_engine.Prelude.Int.{ℤ, pos, pos_part, neg_part, ◌+ℤ◌, ◌-ℤ◌, ltb_ℤ, int_laws}
use cpp_matching_engine.Double.{Double}
use cpp_matching_engine.Types.{Side, buy, sell, Order, ExecutionReport, set_symbol}
use cpp_matching_engine.OrderBook.{OrderBook, mid_price}
use cpp_matching_engine.Exchange.{Exchange}
use cpp_matching_engine.TradingAgent.{next_order_id, number, record_pnl_sample}
use cpp_matching_engine.TradingAgent.Inventory.{record_fills}
use cpp_matching_engine.Traders.{make_order, u32_of_int}
use cpp_matching_engine.Traders.Positions.{ordered, AreFillsOf, IsWithin, record_fills-IsWithin}
use cpp_matching_engine.Traders.MarketMaker.{
  Config, MarketMaker, post_bid, post_ask, post_quotes, withdraw_quotes, on_tick, on_fill,
  quote_prices,
}

module _ {F : Type 0} ⦃d : Double F⦄ where
  -- What a bid and an ask may ask for at a position.
  abbrev pub bid_room : Config F → ℤ → ℕ
  bid_room cfg z = if ltb_ℤ z cfg.max_position then u32_of_int cfg.quote_qty else 0

  abbrev pub ask_room : Config F → ℤ → ℕ
  ask_room cfg z = if ltb_ℤ (pos 0 -ℤ cfg.max_position) z then u32_of_int cfg.quote_qty else 0

  -- A step of posting: it keeps position and settings, and its orders are known.
  abbrev Posts : MarketMaker F → ℕ → ℕ → MarketMaker F × List (Order F) → Type 0
  Posts m bids asks (n, os) =
      (n.agent.inventory ≡ m.agent.inventory)
      × (n.cfg ≡ m.cfg)
      × (ordered buy os ≡ bids)
      × (ordered sell os ≡ asks)

  post_bid-Posts :
      (o : Order F) (price : F) (ts : ℕ) (m : MarketMaker F)
      → Posts m (bid_room m.cfg m.agent.inventory) 0 (post_bid o price ts m)
  unfolding post_bid make_order next_order_id set_symbol
  post_bid-Posts o price ts m = elim (Bool-cases (ltb_ℤ m.agent.inventory m.cfg.max_position)) [
    | inl e ↦ rw e (refl, refl, omega arith, refl)
    | inr e ↦ rw e (refl, refl, refl, refl)
  ]

  post_ask-Posts :
      (o : Order F) (price : F) (ts : ℕ) (m : MarketMaker F)
      → Posts m 0 (ask_room m.cfg m.agent.inventory) (post_ask o price ts m)
  unfolding post_ask make_order next_order_id set_symbol
  post_ask-Posts o price ts m =
      elim (Bool-cases (ltb_ℤ (pos 0 -ℤ m.cfg.max_position) m.agent.inventory)) [
        | inl e ↦ rw e (refl, refl, refl, omega arith)
        | inr e ↦ rw e (refl, refl, refl, refl)
      ]

  ordered-append :
      (side : Side) (os more : List (Order F))
      → ordered side (os ++ more) ≡ ordered side os + ordered side more
  ordered-append side [] more = omega arith
  ordered-append side (o ∷ os) more = omega (arith, ordered-append side os more)

  post_quotes-Posts :
      (acquired : ℕ → Order F) (mid : F) (ts : ℕ) (m : MarketMaker F)
      → Posts m
          (bid_room m.cfg m.agent.inventory)
          (ask_room m.cfg m.agent.inventory)
          (post_quotes acquired mid ts m)
  unfolding post_quotes
  post_quotes-Posts acquired mid ts m =
      let (bid_price, ask_price) = quote_prices mid m.agent.inventory m.cfg in
      let first = post_bid (acquired 0) bid_price ts m in
      let second = post_ask (acquired (length first.1)) ask_price ts first.0 in
      let (z, c, b, s) = post_bid-Posts (acquired 0) bid_price ts m in
      let (z', c', b', s') = post_ask-Posts (acquired (length first.1)) ask_price ts first.0 in
      let asks = s' ∙ ap₂ ask_room c z in
      (
        z' ∙ z,
        c' ∙ c,
        omega (arith, ordered-append buy first.1 second.1),
        omega (arith, ordered-append sell first.1 second.1, s, asks),
      )

  abbrev pub bound : Config F → ℕ
  bound cfg = pos_part cfg.max_position + u32_of_int cfg.quote_qty

  bid_room-bound :
      (cfg : Config F) (z : ℤ)
      → pos_part z < bound cfg
      → pos_part (z +ℤ pos (bid_room cfg z)) < bound cfg
  bid_room-bound cfg z h = elim (Bool-cases (ltb_ℤ z cfg.max_position)) [
    | inl e ↦ rw e (grind int_laws)
    | inr e ↦ rw e (grind int_laws)
  ]

  ask_room-bound :
      (cfg : Config F) (z : ℤ)
      → neg_part z < bound cfg
      → neg_part (z -ℤ pos (ask_room cfg z)) < bound cfg
  ask_room-bound cfg z h = elim (Bool-cases (ltb_ℤ (pos 0 -ℤ cfg.max_position) z)) [
    | inl e ↦ rw e (grind int_laws)
    | inr e ↦ rw e (grind int_laws)
  ]

  -- A tick keeps position and settings, and asks for what the position has room for or for nothing.
  on_tick-Posts :
      (acquired : ℕ → Order F) (book : OrderBook F) (ts : ℕ) (m : MarketMaker F) (x : Exchange F)
      → let (n, y, os) = on_tick acquired book ts m x in
        (n.agent.inventory ≡ m.agent.inventory)
        × (n.cfg ≡ m.cfg)
        × (ordered buy os ≤ bid_room m.cfg m.agent.inventory)
        × (ordered sell os ≤ ask_room m.cfg m.agent.inventory)
  unfolding on_tick withdraw_quotes record_pnl_sample
  on_tick-Posts acquired book ts m x =
      let mid = mid_price book in
      let idle = record m {
        agent = record_pnl_sample mid m.agent;
        active_bid_id = 0;
        active_ask_id = 0;
      } in
      let (z, c, b, s) = post_quotes-Posts acquired mid ts idle in
      elim (Bool-cases (d.le mid (number 0))) [
        | inl e ↦ rw (on_tick, e) (refl, refl, omega arith, omega arith)
        | inr e ↦ rw (on_tick, e) (z, c, omega (arith, b), omega (arith, s))
      ]

  unfoldable pub on_fills : List (ExecutionReport F) → MarketMaker F → MarketMaker F
  on_fills [] m = m
  on_fills (r ∷ rs) m = on_fills rs (on_fill r m)

  on_fills-agent :
      (rs : List (ExecutionReport F)) (m : MarketMaker F)
      → ((on_fills rs m).agent ≡ record_fills rs m.agent) × ((on_fills rs m).cfg ≡ m.cfg)
  unfolding on_fills on_fill record_fills
  on_fills-agent [] m = (refl, refl)
  on_fills-agent (r ∷ rs) m = on_fills-agent rs (on_fill r m)

  trade-IsWithin :
      (acquired : ℕ → Order F) (book : OrderBook F) (ts : ℕ) (m : MarketMaker F) (x : Exchange F)
      (rs : List (ExecutionReport F))
      → AreFillsOf rs (on_tick acquired book ts m x).2
      → IsWithin (bound m.cfg) m.agent.inventory
      → IsWithin (bound m.cfg) (on_fills rs (on_tick acquired book ts m x).0).agent.inventory
  trade-IsWithin acquired book ts m x rs fills (h, k) =
      let (z, c, b, s) = on_tick-Posts acquired book ts m x in
      let n = (on_tick acquired book ts m x).0 in
      let up = bid_room-bound m.cfg m.agent.inventory h in
      let down = ask_room-bound m.cfg m.agent.inventory k in
      rw ((on_fills-agent rs n).0) (
        record_fills-IsWithin (bound m.cfg) rs (on_tick acquired book ts m x).2 n.agent fills
          (rw z (h, k)) (rw z (grind int_laws)) (rw z (grind int_laws)))

  -- Ticks with books and exchanges of any kind, each followed by fills of the tick's quotes.
  pub data Reaches (start : MarketMaker F) : MarketMaker F → Type 0 where
    begins : Reaches start start
    trades :
        (acquired : ℕ → Order F) (book : OrderBook F) (ts : ℕ) (m : MarketMaker F) (x : Exchange F)
        (rs : List (ExecutionReport F))
        → Reaches start m
        → AreFillsOf rs (on_tick acquired book ts m x).2
        → Reaches start (on_fills rs (on_tick acquired book ts m x).0)

  -- A market maker that starts with a position strictly between minus and plus its bound, the
  -- maximal position, if positive, and one quote, and then goes through ticks on any books and
  -- exchanges, each followed by fills of no more than the quotes of the tick on each side, keeps
  -- its settings and has a position strictly within the same bound.
  pub Reaches-IsWithin :
      (start m : MarketMaker F)
      → Reaches start m
      → IsWithin (bound start.cfg) start.agent.inventory
      → (m.cfg ≡ start.cfg) × IsWithin (bound start.cfg) m.agent.inventory
  Reaches-IsWithin start _ begins h = (refl, h)
  Reaches-IsWithin start _ (trades acquired book ts m x rs reached fills) h =
      let (same, within) = Reaches-IsWithin start m reached h in
      let (z, c, b, s) = on_tick-Posts acquired book ts m x in
      let (agent, cfg) = on_fills-agent rs (on_tick acquired book ts m x).0 in
      let n = on_fills rs (on_tick acquired book ts m x).0 in
      (
        cfg ∙ c ∙ same,
        subst (λ k. IsWithin (bound k) n.agent.inventory) same
            (trade-IsWithin acquired book ts m x rs fills
              (subst (λ k. IsWithin (bound k) m.agent.inventory) (sym same) within)),
      )
