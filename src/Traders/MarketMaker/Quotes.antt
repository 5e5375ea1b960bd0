-- ===== src/Traders/MarketMaker/Quotes.antt =====
-- The quotes of a tick, and the tick after it.
use cpp_matching_engine.Prelude.{
  ℕ, ◌≡◌, ◌≢◌, refl, sym, ◌∙◌, List, [], ◌∷◌, length, length-append, ◌+◌, ◌≤◌, arith, Bool-cases,
  inl, inr, ◌⊎◌, false, All, All-append, All-impl, All-both,
}
use cpp_matching_engine.Prelude.Int.{pos, ◌-ℤ◌, ltb_ℤ}
use cpp_matching_engine.Double.{Double, IsOrdered}
use cpp_matching_engine.Types.{buy, sell, limit, Order, ExecutionReport}
use cpp_matching_engine.OrderBook.{OrderBook, mid_price}
use cpp_matching_engine.Exchange.{Exchange}
use cpp_matching_engine.Exchange.Routing.{IsRouted}
use cpp_matching_engine.TradingAgent.{number, record_pnl_sample}
use cpp_matching_engine.TradingAgent.Ids.{CanNumber}
use cpp_matching_engine.Traders.{u32_of_int}
use cpp_matching_engine.Traders.Making.{
  AreIssued, Issues, make_order-Issues, none-Issues, Issues-append, Issues-CanNumber,
  u32_of_int-bound,
}
use cpp_matching_engine.Traders.MarketMaker.{
  MarketMaker, post_bid, post_ask, post_quotes, withdraw_quotes, quote_prices, on_tick, on_fill,
}
use cpp_matching_engine.Traders.MarketMaker.Position.{on_fills}
use cpp_matching_engine.Traders.MarketMaker.Withdrawing.{
  IsGone, on_tick-IsRouted, on_tick-withdraws,
}

module _ {F : Type 0} ⦃d : Double F⦄ where
  -- What the two steps of posting promise, with the active id that they set.
  abbrev Quotes : (MarketMaker F → ℕ) → MarketMaker F → MarketMaker F × List (Order F) → Type 0
  Quotes active m (n, os) =
      Issues m.agent os n.agent × (length os ≤ 1) × All (λ q. q.order_id ≡ active n) os

  post_bid-Quotes :
      (o : Order F) (price : F) (ts : ℕ) (m : MarketMaker F)
      → CanNumber 1 m.agent
      → Quotes (λ n. n.active_bid_id) m (post_bid o price ts m)
  unfolding post_bid
  post_bid-Quotes o price ts m h =
      let q = u32_of_int m.cfg.quote_qty in
      let issues =
        make_order-Issues o buy limit price q ts m.symbol m.agent h
          (u32_of_int-bound m.cfg.quote_qty) in
      elim (Bool-cases (ltb_ℤ m.agent.inventory m.cfg.max_position)) [
        | inl e ↦ rw (post_bid, e) (issues, omega arith, (refl, tt))
        | inr e ↦ rw (post_bid, e) (none-Issues m.agent m.agent refl refl, omega arith, tt)
      ]

  post_ask-Quotes :
      (o : Order F) (price : F) (ts : ℕ) (m : MarketMaker F)
      → CanNumber 1 m.agent
      → let (n, os) = post_ask o price ts m in
        (n.active_bid_id ≡ m.active_bid_id) × Quotes (λ k. k.active_ask_id) m (n, os)
  unfolding post_ask
  post_ask-Quotes o price ts m h =
      let q = u32_of_int m.cfg.quote_qty in
      let issues =
        make_order-Issues o sell limit price q ts m.symbol m.agent h
          (u32_of_int-bound m.cfg.quote_qty) in
      elim (Bool-cases (ltb_ℤ (pos 0 -ℤ m.cfg.max_position) m.agent.inventory)) [
        | inl e ↦ rw (post_ask, e) (refl, (issues, omega arith, (refl, tt)))
        | inr e ↦ rw (post_ask, e) (refl, (none-Issues m.agent m.agent refl refl, omega arith, tt))
      ]

  abbrev pub AreActive : MarketMaker F → List (Order F) → Type 0
  AreActive n os = All (λ q. (q.order_id ≡ n.active_bid_id) ⊎ (q.order_id ≡ n.active_ask_id)) os

  post_quotes-AreActive :
      (acquired : ℕ → Order F) (mid : F) (ts : ℕ) (m : MarketMaker F)
      → CanNumber 2 m.agent
      → let (n, os) = post_quotes acquired mid ts m in
        Issues m.agent os n.agent × (length os ≤ 2) × AreActive n os
  unfolding post_quotes
  post_quotes-AreActive acquired mid ts m h =
      let (bid_price, ask_price) = quote_prices mid m.agent.inventory m.cfg in
      let first = post_bid (acquired 0) bid_price ts m in
      let second = post_ask (acquired (length first.1)) ask_price ts first.0 in
      let (issues, few, bids) = post_bid-Quotes (acquired 0) bid_price ts m (h.0, omega arith) in
      let (kept, (issues', few', asks)) =
        post_ask-Quotes (acquired (length first.1)) ask_price ts first.0
          (Issues-CanNumber 1 1 m.agent first.0.agent first.1 issues few h) in
      (
        Issues-append m.agent first.0.agent second.0.agent first.1 second.1 issues issues',
        omega (arith, length-append first.1 second.1),
        All-append _ first.1 second.1 (All-impl first.1 (λ q r. inl (r ∙ sym kept)) bids)
            (All-impl second.1 (λ q r. inr r) asks),
      )

  pub on_tick-Issues :
      (acquired : ℕ → Order F) (book : OrderBook F) (ts : ℕ) (m : MarketMaker F) (x : Exchange F)
      → CanNumber 2 m.agent
      → let (n, y, os) = on_tick acquired book ts m x in
        Issues m.agent os n.agent × (length os ≤ 2) × AreActive n os
  unfolding on_tick withdraw_quotes record_pnl_sample
  on_tick-Issues acquired book ts m x h =
      let mid = mid_price book in
      let idle = record m {
        agent = record_pnl_sample mid m.agent;
        active_bid_id = 0;
        active_ask_id = 0;
      } in
      let (issues, few, active) = post_quotes-AreActive acquired mid ts idle h in
      elim (Bool-cases (d.le mid (number 0))) [
        | inl e ↦ rw (on_tick, e) (none-Issues m.agent m.agent refl refl, omega arith, tt)
        | inr e ↦
            rw (on_tick, e)
              (
                record {
                  same_trader = issues.same_trader;
                  counted = issues.counted;
                  issued = issues.issued;
                },
                few,
                active,
              )
      ]

  AreIssued-positive :
      (t c : ℕ) (os : List (Order F)) → AreIssued t c os → All (λ q. q.order_id ≢ 0) os
  AreIssued-positive t c [] h = tt
  AreIssued-positive t c (o ∷ os) (id, sized, h) =
      ((λ z. omega (arith, id, z)), AreIssued-positive t (c + 1) os h)

  on_fills-active :
      (rs : List (ExecutionReport F)) (m : MarketMaker F)
      → ((on_fills rs m).active_bid_id ≡ m.active_bid_id)
        × ((on_fills rs m).active_ask_id ≡ m.active_ask_id)
  unfolding on_fills on_fill
  on_fills-active [] m = (refl, refl)
  on_fills-active (r ∷ rs) m = on_fills-active rs (on_fill r m)

  -- A market maker whose trader id and next two order numbers are below 2^32 makes a tick,
  -- receives any fills, and makes another tick on a book with a positive middle price, with an
  -- exchange that has valid books and an index that knows the book of every order that rests: the
  -- exchange is left so, and no book of it holds a quote of the first tick.
  pub on_tick-replaces :
      (ord : IsOrdered F) (acquired next : ℕ → Order F) (first second : OrderBook F) (ts later : ℕ)
      (m : MarketMaker F) (x y : Exchange F) (rs : List (ExecutionReport F))
      → CanNumber 2 m.agent
      → IsRouted y
      → d.le (mid_price second) (number 0) ≡ false
      → let (n, _, quotes) = on_tick acquired first ts m x in
        let z = (on_tick next second later (on_fills rs n) y).1 in
        IsRouted z × All (λ q. IsGone q.order_id z) quotes
  on_tick-replaces ord acquired next first second ts later m x y rs h v mid =
      let (issues, few, active) = on_tick-Issues acquired first ts m x h in
      let n = (on_tick acquired first ts m x).0 in
      let quotes = (on_tick acquired first ts m x).2 in
      let (bid, ask) = on_fills-active rs n in
      (
        on_tick-IsRouted ord next second later (on_fills rs n) y v,
        All-impl quotes
            (λ q (some_id, quoted).
              on_tick-withdraws ord next second later (on_fills rs n) y q.order_id v mid some_id
                (elim quoted [ inl e ↦ inl (e ∙ sym bid) | inr e ↦ inr (e ∙ sym ask) ]))
            (All-both _ _ quotes
              (AreIssued-positive m.agent.trader_id m.agent.id_counter quotes issues.issued)
              active),
      )
