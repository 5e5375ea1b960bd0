-- ===== src/Exchange/Posting.antt =====
-- exchange/exchange.cpp: what a submission to the engine leaves resting in the book.
use cpp_matching_engine.Prelude.{
  ℕ, ◌+◌, ◌<◌, ◌≤◌, ◌≡◌, ◌≢◌, inl, inr, refl, true, false, not, ◌&&◌, none, some, nat_eq, arith,
  Bool-cases, some_injective, ap, sym, ◌∙◌, subst, zero-cases, lt→ltb,
}
use cpp_matching_engine.Prelude.Map
use cpp_matching_engine.Double.{Double, IsOrdered}
use cpp_matching_engine.Types.{
  Side, buy, sell, opposite, Order, OrderType, limit, market, OrderStatus, new, partially_filled,
  filled, cancelled, rejected, TimeInForce, gtc, ioc, fok, remaining, status_active, is_filled,
  is_fok,
}
use cpp_matching_engine.OrderBook.{OrderBook}
use cpp_matching_engine.OrderBook.Valid.{IsValid}
use cpp_matching_engine.OrderBook.Sides.{side_queue, absent-count}
use cpp_matching_engine.PriceTime.{Queue, count, enqueue, count-enqueue}
use cpp_matching_engine.MatchingEngine.{MatchingEngine, Match, submit_order, can_fill_completely}
use cpp_matching_engine.MatchingEngine.Sweep.{Sweep, IsSized, sweep}
use cpp_matching_engine.MatchingEngine.Quantities.{
  Settled, Trades-Settled, Trades-SameTerms, Trades-count, Trades-remaining,
}
use cpp_matching_engine.MatchingEngine.Submitting.{Outcome, settle, leave, accepted, counted}
use cpp_matching_engine.MatchingEngine.Outcomes.{
  facing_queue, price_stop, submit_order-swept, accepted-Trades, settle-remaining,
}
use cpp_matching_engine.MatchingEngine.FillOrKill.{submit_order-killed}
use cpp_matching_engine.Exchange.Routing.{resting}

active-filled : (s : OrderStatus) → status_active s ≡ true → is_filled s ≡ false
active-filled new h = refl
active-filled partially_filled h = refl
active-filled filled h = cc
active-filled cancelled h = refl
active-filled rejected h = refl

module _ {F : Type 0} ⦃d : Double F⦄ where
  pub resting-sides :
      (side : Side) (b : OrderBook F) (k : ℕ)
      → resting k b ≡ count k (side_queue side b) + count k (side_queue (opposite side) b)
  resting-sides buy b k = refl
  resting-sides sell b k = omega arith

  -- What becomes of the own queue: the order itself may be posted, if it is an open limit order, and
  -- then it is as the sweep left it.
  record Posted (type : OrderType) (t : Sweep F) (own : Queue F) (u : Outcome F) : Type 0 where
    id : u.order.order_id ≡ t.order.order_id
    others : (k : ℕ) → t.order.order_id ≢ k → count k u.own ≡ count k own
    posted :
        (count t.order.order_id own ≡ 0)
        → (0 < count t.order.order_id u.own)
        → (type ≡ limit) × (0 < remaining t.order) × (u.order ≡ t.order)

  count_other :
      (side : Side) (o : Order F) (own : Queue F) (k : ℕ)
      → o.order_id ≢ k
      → count k (enqueue side o own) ≡ count k own
  unfolding count
  count_other side o own k h = count-enqueue side k o own ∙ ground (arith, h)

  settle-Posted :
      (type : OrderType) (tif : TimeInForce) (t : Sweep F) (own : Queue F)
      → Posted type t own (settle type tif t own)
  settle-Posted type tif t own = elim (zero-cases (remaining t.order)) [
    | inl e ↦ rw e (stays type)
    | inr more ↦ rw (lt→ltb _ _ more) (left type tif more)
  ]
    where
      keeps :
          (type : OrderType) (o : Order F)
          → o.order_id ≡ t.order.order_id
          → Posted type t own (record { order = o; own = own; facing = t.queue; engine = t.engine })
      keeps type o e = record {
        id = e;
        others = λ k h. refl;
        posted = λ none_yet some_now. absurd (omega arith);
      }

      stays :
          (type : OrderType)
          → Posted type t own
              (record { order = t.order; own = own; facing = t.queue; engine = t.engine })
      stays type = keeps type t.order refl

      left :
          (type : OrderType) (tif : TimeInForce)
          → 0 < remaining t.order
          → let (o, own') = leave type tif t.order own in
            Posted type t own
              (record { order = o; own = own'; facing = t.queue; engine = t.engine })
      left market tif more = keeps market _ refl
      left limit gtc more = record {
        id = refl;
        others = λ k h. count_other t.order.side t.order own k h;
        posted = λ none_yet some_now. (refl, more, refl);
      }
      left limit ioc more = keeps limit _ refl
      left limit fok more = keeps limit _ refl

-- The ids that rest after a submission.
pub record Rests {F : Type 0} (o : Order F) (b : OrderBook F) (t : Match F) : Type 0 where
  pub id : t.order.order_id ≡ o.order_id
  pub others : (k : ℕ) → o.order_id ≢ k → resting k t.book ≤ resting k b
  pub posted :
      (0 < resting o.order_id t.book) → (o.type ≡ limit) × (is_filled t.order.status ≡ false)

module _ {F : Type 0} ⦃d : Double F⦄ (ord : IsOrdered F) (now_ns : ℕ → ℕ) (e : MatchingEngine F)
    (o : Order F) (b : OrderBook F) (v : IsValid b) (sized : IsSized o)
    (absent : Map.find o.order_id b.order_index ≡ none) where
  swept-Rests :
      (t : Match F)
      → is_fok o.tif && not (can_fill_completely (accepted o) b) ≡ false
      → submit_order now_ns e o b ≡ some t
      → Rests o b t
  swept-Rests t go h =
      let own = side_queue o.side b in
      let own' = side_queue o.side t.book in
      let facing' = side_queue (opposite o.side) t.book in
      let same = submit_order-swept ord now_ns e o b v sized absent go h in
      let trades = accepted-Trades ord now_ns e o b v sized absent in
      let swept = sweep now_ns (price_stop o) (accepted o) (facing_queue o b) (counted e) in
      let p = subst (Posted o.type swept own) (sym same) (settle-Posted o.type o.tif swept own) in
      let id_eq : swept.order.order_id ≡ o.order_id = (Trades-SameTerms trades).0.order_id in
      let facing_eq : facing' ≡ swept.queue =
        ap (λ (x : Outcome F). x.facing) same ∙ (settle-remaining o.type o.tif swept own).1 in
      let fewer : (k : ℕ) → count k facing' ≤ count k (facing_queue o b) =
        λ k. rw facing_eq (Trades-count k trades) in
      record {
        id = p.id ∙ id_eq;
        others = λ k other. omega (
          arith,
          p.others k (λ q. other (sym id_eq ∙ q)),
          fewer k,
          resting-sides o.side b k,
          resting-sides o.side t.book k,
        );
        posted = λ more.
            let none_yet = absent-count o.side b o.order_id v absent in
            let gone = fewer o.order_id in
            let sides = resting-sides o.side t.book o.order_id in
            let (is, left_open, order_eq) =
              p.posted (rw id_eq (omega arith)) (rw id_eq (omega arith)) in
            let settled : Settled (accepted o) = record {
              when_open = λ m. refl;
              when_done = λ z. absurd (omega (arith, Trades-remaining trades));
            } in
            (
              is,
              ap (λ (x : Order F). is_filled x.status) order_eq
                  ∙ active-filled _ ((Trades-Settled trades settled).when_open left_open),
            );
      }

  -- Only the order itself may come to rest, and it is a limit order that is not filled.
  pub submit_order-Rests : (t : Match F) → submit_order now_ns e o b ≡ some t → Rests o b t
  submit_order-Rests t h =
      elim (Bool-cases (is_fok o.tif && not (can_fill_completely (accepted o) b))) [
        | inl stopped ↦
            let same = some_injective (sym (submit_order-killed ord now_ns e o b stopped) ∙ h) in
            subst (Rests o b) same (record {
              id = refl;
              others = λ k other. omega arith;
              posted = λ more. absurd (
                  omega (
                    arith,
                    resting-sides o.side b o.order_id,
                    absent-count o.side b o.order_id v absent,
                  ));
            })
        | inr go ↦ swept-Rests t go h
      ]
