-- ===== src/MatchingEngine/Finishing.antt =====
-- The two ends of `submit_order`: an order that is left open is posted or cancelled.
use cpp_matching_engine.Prelude.{
  ℕ, ◌<◌, ◌≤◌, ◌≡◌, inl, inr, refl, Bool, true, not, ◌&&◌, arith, nat_eq, Bool-cases, ap, ◌∙◌, sym,
  zero-cases, none, some, ◌>>=◌, subst, lt→ltb, ap₂,
}
use cpp_matching_engine.Prelude.Map
use cpp_matching_engine.Double.{Double, IsOrdered}
use cpp_matching_engine.Types.{
  Side, opposite, Order, OrderType, limit, market, new, TimeInForce, gtc, ioc, fok, is_fok,
  is_active, remaining,
}
use cpp_matching_engine.OrderBook.{OrderBook, add_limit_order}
use cpp_matching_engine.OrderBook.Valid.{queue, IsResting, IsValid}
use cpp_matching_engine.OrderBook.Sides.{side_queue, absent-count, side_indexed}
use cpp_matching_engine.OrderBook.Adding.{add_limit_order-enqueue}
use cpp_matching_engine.PriceTime.{count, locate-eq-none, enqueue}
use cpp_matching_engine.MatchingEngine.{
  MatchingEngine, Match, match_limit_order, match_market_order, match_order, stop_test,
  can_fill_completely, rest_or_cancel, finish_market, finish_limit, submit_order,
}
use cpp_matching_engine.MatchingEngine.Sweep.{IsSized}
use cpp_matching_engine.MatchingEngine.Trading.{SameTerms}
use cpp_matching_engine.MatchingEngine.Quantities.{
  Trades-SameTerms, Trades-remaining, Trades-count, Trades-Settled,
}
use cpp_matching_engine.MatchingEngine.Submitting.{
  kill, settle, accepted, counted, submit_spec, outcome, Matched, match_run,
}

module _ {F : Type 0} where
  -- The order of a match that its loop has left.
  record Left (o : Order F) (t : Match F) : Type 0 where
    same : SameTerms o t.order
    sized : IsSized t.order
    less : remaining t.order ≤ remaining o
    settled : (0 < remaining t.order) → is_active t.order ≡ true
    absent : Map.find o.order_id t.book.order_index ≡ none

module _ {F : Type 0} ⦃d : Double F⦄ (ord : IsOrdered F) (now_ns : ℕ → ℕ) (stop : F → Bool) where
  Matched-Left :
      (side : Side) (s t : Match F)
      → Matched ord now_ns stop side s t
      → s.order.status ≡ new
      → IsValid s.book
      → Map.find s.order.order_id s.book.order_index ≡ none
      → Left s.order t
  Matched-Left side s t m fresh v h =
      let id = s.order.order_id in
      let (same, sized) = Trades-SameTerms m.trades in
      let less = Trades-remaining m.trades in
      let absent_before = absent-count side s.book id v h in
      let own = ap (λ x. count id (queue x)) m.own in
      let absent_after = side_indexed side t.book id m.valid in
      record {
        same = same;
        sized = sized;
        less = omega (arith, less);
        settled = λ open_order.
            (Trades-Settled m.trades (record {
              when_open = λ _. rw fresh refl;
              when_done = λ z. absurd (omega (arith, less));
            })).when_open
              open_order;
        absent = ground (
          arith,
          absent_after,
          Trades-count id m.trades,
          locate-eq-none id (side_queue side t.book),
          locate-eq-none id (side_queue (opposite side) t.book),
        );
      }

module _ {F : Type 0} ⦃d : Double F⦄ (ord : IsOrdered F) where
  left-IsResting :
      (o : Order F) (t : Match F)
      → Left o t
      → 0 < remaining t.order
      → t.order.type ≡ limit
      → IsResting t.order.side t.order.price t.order
  unfolding remaining
  left-IsResting o t l h e =
      let sized = l.sized in
      record {
        on_side = refl;
        at_price = refl;
        is_limit = e;
        is_open = omega arith;
        fits = sized.fits;
      }

  -- The state that a finished submission shall have, from the match that the loop left.
  abbrev pub Finished : Side → OrderType → TimeInForce → Match F → Match F → Type 0
  Finished side type tif t u =
      IsValid u.book
      × (outcome side u
          ≡ settle type tif
              (record {
                order = t.order;
                queue = side_queue (opposite side) t.book;
                engine = t.engine;
              })
              (side_queue side t.book))

  post-Finished :
      (o : Order F) (side : Side) (t : Match F)
      → IsValid t.book
      → Left o t
      → 0 < remaining t.order
      → t.order.type ≡ limit
      → t.order.side ≡ side
      → (tif : TimeInForce) → Finished side limit tif t (rest_or_cancel tif t)
  unfolding rest_or_cancel
  post-Finished o side t v l h type same_side gtc =
      let b' = add_limit_order t.book t.order in
      let absent =
        subst (λ k. Map.find k t.book.order_index ≡ none) (sym l.same.order_id) l.absent in
      let (valid, own, facing) =
        add_limit_order-enqueue ord t.order t.book v (left-IsResting o t l h type) absent in
      let own_side =
        subst (λ x. side_queue x b' ≡ enqueue t.order.side t.order (side_queue x t.book)) same_side
          own in
      let facing_side =
        subst (λ x. side_queue (opposite x) b' ≡ side_queue (opposite x) t.book) same_side facing in
      (valid, rw (lt→ltb _ _ h, own_side, facing_side) refl)
  post-Finished o side t v l h type same_side ioc = (v, rw (lt→ltb _ _ h) refl)
  post-Finished o side t v l h type same_side fok = (v, rw (lt→ltb _ _ h) refl)

  finish_limit-open :
      (t : Match F)
      → is_active t.order ≡ true
      → 0 < remaining t.order
      → finish_limit t ≡ rest_or_cancel t.order.tif t
  unfolding finish_limit
  finish_limit-open t h k = ground arith

  finish_limit-done : (t : Match F) → remaining t.order ≡ 0 → finish_limit t ≡ t
  unfolding finish_limit
  finish_limit-done t h = ground arith

  done-Finished :
      (side : Side) (type : OrderType) (tif : TimeInForce) (t : Match F)
      → IsValid t.book
      → remaining t.order ≡ 0
      → Finished side type tif t t
  done-Finished side type tif t v h = (v, rw h refl)

  finish_limit-Finished :
      (o : Order F) (side : Side) (t : Match F)
      → IsValid t.book
      → Left o t
      → o.type ≡ limit
      → o.side ≡ side
      → Finished side limit o.tif t (finish_limit t)
  finish_limit-Finished o side t v l type on_side = elim (zero-cases (remaining t.order)) [
    | inl e ↦
        subst (Finished side limit o.tif t) (sym (finish_limit-done t e))
          (done-Finished side limit o.tif t v e)
    | inr more ↦
        subst (Finished side limit o.tif t)
          (ap (λ x. rest_or_cancel x t) (sym l.same.tif)
            ∙ sym (finish_limit-open t (l.settled more) more))
          (post-Finished o side t v l more (l.same.type ∙ type) (l.same.side ∙ on_side) o.tif)
  ]

  finish_market-Finished :
      (o : Order F) (side : Side) (t : Match F)
      → IsValid t.book
      → Finished side market o.tif t (finish_market t)
  unfolding finish_market
  finish_market-Finished o side t v = elim (zero-cases (remaining t.order)) [
    | inl e ↦ rw e (v, refl)
    | inr more ↦ rw (lt→ltb _ _ more) (v, refl)
  ]

  -- Matching and finishing, as `match_order` joins them.
  pub match_order-Finished :
      (now_ns : ℕ → ℕ) (s : Match F) (type : OrderType)
      → IsValid s.book
      → IsSized s.order
      → s.order.status ≡ new
      → s.order.type ≡ type
      → Map.find s.order.order_id s.book.order_index ≡ none
      → (t u : Match F) × (match_order now_ns type s ≡ some u)
        × Matched ord now_ns (stop_test type s.order.side s.order.price) s.order.side s t
        × Finished s.order.side type s.order.tif t u
  unfolding match_limit_order match_market_order
  match_order-Finished now_ns s limit v sized fresh type h =
      let side = s.order.side in
      let stop = stop_test limit side s.order.price in
      let (t, run, m) = match_run ord now_ns stop side s v sized in
      let l = Matched-Left ord now_ns stop side s t m fresh v h in
      (
        t,
        finish_limit t,
        ap (λ r. r >>= λ x. some (finish_limit x)) run,
        m,
        finish_limit-Finished s.order side t m.valid l type refl,
      )
  match_order-Finished now_ns s market v sized fresh type h =
      let side = s.order.side in
      let stop = stop_test market side s.order.price in
      let (t, run, m) = match_run ord now_ns stop side s v sized in
      (
        t,
        finish_market t,
        ap (λ r. r >>= λ x. some (finish_market x)) run,
        m,
        finish_market-Finished s.order side t m.valid,
      )

  -- On a valid book, for an order that is not overfilled and whose id does not rest there,
  -- submit_order returns a match with a valid book. Order, queues and engine of that match are
  -- those of the specification on queues, submit_spec: a fill-or-kill order that the check
  -- refuses is killed; any other order sweeps the facing queue from its front within its limit,
  -- and an open remainder is posted or cancelled.
  pub submit_order_refines :
      (now_ns : ℕ → ℕ) (e : MatchingEngine F) (o : Order F) (b : OrderBook F)
      → IsValid b
      → IsSized o
      → Map.find o.order_id b.order_index ≡ none
      → (t : Match F) × (submit_order now_ns e o b ≡ some t)
        × IsValid t.book
        × (outcome o.side t
            ≡ submit_spec now_ns e o
                (side_queue o.side b)
                (side_queue (opposite o.side) b)
                (can_fill_completely (accepted o) b))
  unfolding submit_order
  submit_order_refines now_ns e o b v sized h =
      let s : Match F = record { order = accepted o; book = b; engine = counted e } in
      let (t, u, run, m, (valid, result)) =
        match_order-Finished now_ns s o.type v
          (record { filled_le = sized.filled_le; fits = sized.fits }) refl refl h in
      elim (Bool-cases (is_fok o.tif && not (can_fill_completely (accepted o) b))) [
        | inl killed ↦ (record s { order = kill o }, rw killed refl, v, rw killed refl)
        | inr go ↦ (
          u,
          rw go run,
          valid,
          rw go (result ∙ ap₂ (settle o.type o.tif) (sym m.swept) (ap queue m.own)),
        )
      ]
