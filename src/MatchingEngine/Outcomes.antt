-- ===== src/MatchingEngine/Outcomes.antt =====
-- What a submission does to quantities, and what it reports.
use cpp_matching_engine.Prelude.{
  some_injective, ℕ, ◌+◌, ◌-◌, ◌≡◌, refl, Bool, false, not, ◌&&◌, List, ◌++◌, arith, nat_eq, ap,
  ◌∙◌, sym, add64, none, some, subst, u64_mod, ◌%◌, ◌*◌,
}
use cpp_matching_engine.Prelude.Map
use cpp_matching_engine.Double.{Double, IsOrdered}
use cpp_matching_engine.Types.{
  ExecutionReport, opposite, Order, OrderType, limit, market, TimeInForce, gtc, ioc, fok, is_fok,
  remaining,
}
use cpp_matching_engine.OrderBook.{OrderBook}
use cpp_matching_engine.OrderBook.Valid.{IsValid}
use cpp_matching_engine.OrderBook.Sides.{side_queue, side-AreLevels}
use cpp_matching_engine.PriceTime.{Queue}
use cpp_matching_engine.MatchingEngine.{
  MatchingEngine, Match, stop_test, can_fill_completely, submit_order,
}
use cpp_matching_engine.MatchingEngine.Sweep.{Sweep, IsSized, sweep}
use cpp_matching_engine.MatchingEngine.Trading.{SameTerms, Trades, sweep-Trades}
use cpp_matching_engine.MatchingEngine.Quantities.{Trades-remaining}
use cpp_matching_engine.MatchingEngine.Submitting.{
  Outcome, settle, accepted, counted, submit_spec, outcome, queue-IsOpen,
}
use cpp_matching_engine.MatchingEngine.Finishing.{submit_order_refines}
use cpp_matching_engine.MatchingEngine.Sweep.{eligible}
use cpp_matching_engine.MatchingEngine.Quantities.{Trades-open_qty}
use cpp_matching_engine.MatchingEngine.Reports.{FillLog, reported, sweep-Logged}
use cpp_matching_engine.PriceTime.{open_qty}

module _ {F : Type 0} ⦃d : Double F⦄ where
  pub accepted-remaining : (o : Order F) → remaining (accepted o) ≡ remaining o
  unfolding remaining
  accepted-remaining o = refl

  pub settle-remaining :
      (type : OrderType) (tif : TimeInForce) (t : Sweep F) (own : Queue F)
      → let u = settle type tif t own in
        (remaining u.order ≡ remaining t.order) × (u.facing ≡ t.queue) × (u.engine ≡ t.engine)
  unfolding remaining
  settle-remaining market tif t own = ground arith
  settle-remaining limit gtc t own = ground arith
  settle-remaining limit ioc t own = ground arith
  settle-remaining limit fok t own = ground arith

module _ {F : Type 0} ⦃d : Double F⦄ where
  -- The orders that a submission meets, and the price test of its sweep.
  abbrev pub facing_queue : Order F → OrderBook F → Queue F
  facing_queue o b = side_queue (opposite o.side) b

  abbrev pub price_stop : Order F → F → Bool
  price_stop o = stop_test o.type o.side o.price

module _ {F : Type 0} ⦃d : Double F⦄ (ord : IsOrdered F) (now_ns : ℕ → ℕ) (e : MatchingEngine F)
    (o : Order F) (b : OrderBook F) (v : IsValid b) (sized : IsSized o)
    (absent : Map.find o.order_id b.order_index ≡ none) where
  -- What the function returns is what the specification says.
  pub submit_order-outcome :
      {t : Match F}
      → submit_order now_ns e o b ≡ some t
      → IsValid t.book
        × (outcome o.side t
            ≡ submit_spec now_ns e o
                (side_queue o.side b)
                (facing_queue o b)
                (can_fill_completely (accepted o) b))
  submit_order-outcome {t} h =
      let (u, run, valid, same) = submit_order_refines ord now_ns e o b v sized absent in
      let p : u ≡ t = some_injective (sym run ∙ h) in
      (subst (λ x. IsValid x.book) p valid, ap (outcome o.side) (sym p) ∙ same)

  pub accepted-Trades :
      Trades now_ns
        (price_stop o)
        (accepted o)
        (facing_queue o b)
        (counted e)
        (sweep now_ns (price_stop o) (accepted o) (facing_queue o b) (counted e))
  accepted-Trades =
      sweep-Trades now_ns (price_stop o) (accepted o) (facing_queue o b) (counted e)
        (record { filled_le = sized.filled_le; fits = sized.fits })
        (queue-IsOpen (opposite o.side) _ (side-AreLevels (opposite o.side) b v))

  -- The sweep behind a submission that was not killed.
  pub submit_order-swept :
      {t : Match F}
      → is_fok o.tif && not (can_fill_completely (accepted o) b) ≡ false
      → submit_order now_ns e o b ≡ some t
      → let swept = sweep now_ns (price_stop o) (accepted o) (facing_queue o b) (counted e) in
        outcome o.side t ≡ settle o.type o.tif swept (side_queue o.side b)
  submit_order-swept {t} go h = let (_, same) = submit_order-outcome h in same ∙ rw go refl

  -- For an order that is not overfilled and whose id does not rest in a valid book: a submission
  -- that is not killed as fill-or-kill and returns takes exactly what the facing queue offers
  -- within its limit, up to its own remaining quantity, and the facing queue loses just what the
  -- order takes.
  pub submit_order-amount :
      {t : Match F}
      → is_fok o.tif && not (can_fill_completely (accepted o) b) ≡ false
      → submit_order now_ns e o b ≡ some t
      → (remaining t.order ≡ remaining o - eligible (price_stop o) (facing_queue o b))
        × (open_qty (side_queue (opposite o.side) t.book) + remaining o
            ≡ open_qty (facing_queue o b) + remaining t.order)
  submit_order-amount {t} go h =
      let same = submit_order-swept go h in
      let swept = sweep now_ns (price_stop o) (accepted o) (facing_queue o b) (counted e) in
      let (left, facing, _) = settle-remaining o.type o.tif swept (side_queue o.side b) in
      let left' = ap (λ (x : Outcome F). remaining x.order) same ∙ left in
      let facing' = ap (λ (x : Outcome F). open_qty x.facing) same ∙ ap open_qty facing in
      let taken = Trades-remaining accepted-Trades in
      let conserved = Trades-open_qty accepted-Trades in omega (arith, accepted-remaining o)

  accepted-SameTerms : SameTerms o (accepted o)
  accepted-SameTerms = record {
    order_id = refl;
    trader_id = refl;
    price = refl;
    quantity = refl;
    side = refl;
    type = refl;
    tif = refl;
    symbol = refl;
  }

  -- For an order that is not overfilled and whose id does not rest in a valid book, and a
  -- submission that is not killed as fill-or-kill and returns: the reports that it appends are
  -- those of a fill log over the facing queue; the reported quantities add up to twice what the
  -- order took, the engine's volume grows by what it took modulo 2^64, and the count of orders
  -- grows by one.
  pub submit_order-FillLog :
      {t : Match F}
      → is_fok o.tif && not (can_fill_completely (accepted o) b) ≡ false
      → submit_order now_ns e o b ≡ some t
      → (log : List (ExecutionReport F)) × (t.engine.sent ≡ e.sent ++ log)
        × FillLog (price_stop o) o e.next_exec_id (facing_queue o b) log
        × (reported log + 2 * remaining t.order ≡ 2 * remaining o)
        × ((t.engine.volume_traded + remaining t.order) % u64_mod
            ≡ (e.volume_traded + remaining o) % u64_mod)
        × (t.engine.orders_processed ≡ add64 e.orders_processed 1)
  submit_order-FillLog {t} go h =
      let same = submit_order-swept go h in
      let swept = sweep now_ns (price_stop o) (accepted o) (facing_queue o b) (counted e) in
      let (left, _, engine) = settle-remaining o.type o.tif swept (side_queue o.side b) in
      let left' = ap (λ (x : Outcome F). remaining x.order) same ∙ left in
      let engine' = ap (λ (x : Outcome F). x.engine) same ∙ engine in
      let l = sweep-Logged now_ns (price_stop o) o accepted-SameTerms accepted-Trades in
      let volume = ap (λ (x : MatchingEngine F). x.volume_traded) engine' in
      (
        l.log,
        ap (λ (x : MatchingEngine F). x.sent) engine' ∙ l.sent,
        l.fills,
        omega (arith, l.amount, accepted-remaining o),
        omega (arith, l.volume, accepted-remaining o),
        ap (λ (x : MatchingEngine F). x.orders_processed) engine' ∙ l.processed,
      )
