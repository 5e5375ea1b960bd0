-- ===== src/OrderBook/Cancelling.antt =====
-- `cancel_order` against the queues.
use cpp_matching_engine.Prelude.{
  ℕ, ◌+◌, ◌≡◌, refl, true, [], ◌∷◌, arith, All, All-append, All-impl, nat_eq, inl, inr, ap, ◌≢◌,
  ◌↔◌, none, some, ◌∙◌, sym, Option-cases,
}
use cpp_matching_engine.Prelude.Map
use cpp_matching_engine.Double.{Double, IsOrdered}
use cpp_matching_engine.Types.{Side, buy, sell, opposite}
use cpp_matching_engine.OrderBook.{
  OrderBook, LevelMap, OrderLocation, levels, cancel_in, cancel_at, cancel_order,
}
use cpp_matching_engine.OrderBook.Valid.{queue, AreLevels, IsValid}
use cpp_matching_engine.OrderBook.Sides.{
  side_queue, absent-count, side-AreLevels, side_unique, side_indexed, rebuild-IsValid,
}
use cpp_matching_engine.PriceTime.{
  count, locate, withdraw, locate-withdraw, count-withdraw, locate-eq-none, withdraw_absent,
}
use cpp_matching_engine.OrderBook.Removing.{All-locate, cancel_in-Cancelled}

module _ {F : Type 0} ⦃d : Double F⦄ (ord : IsOrdered F) (id : ℕ) where
  located-side :
      (side : Side) (m : LevelMap F) {loc : OrderLocation F}
      → AreLevels side m
      → locate id (queue m) ≡ some loc
      → loc.side ≡ side
  unfolding queue
  located-side side m v e = All-locate (λ x. x.side ≡ side) id (queue m) (sided m v) e
    where
      sided : (m : LevelMap F) → AreLevels side m → All (λ o. o.side ≡ side) (queue m)
      sided [] v = tt
      sided ((j, l) ∷ m) v =
          All-append _ l.orders (queue m) (All-impl l.orders (λ o r. r.on_side) v.0.resting)
            (sided m v.3)

  opposite-ne : (side : Side) → opposite side ≢ side
  opposite-ne buy e = cc
  opposite-ne sell e = cc

  -- The index sends an id to the side whose queue holds it.
  found-locate :
      (side : Side) (b : OrderBook F) {loc : OrderLocation F}
      → IsValid b
      → Map.find id b.order_index ≡ some loc
      → loc.side ≡ side
      → locate id (side_queue side b) ≡ some loc
  found-locate side b {loc} v h s = elim (Option-cases (locate id (side_queue side b))) [
    | inr (loc', e) ↦ ground (arith, side_indexed side b id v)
    | inl e ↦
        let other : locate id (side_queue (opposite side) b) ≡ some loc =
          ground (arith, side_indexed side b id v) in
        absurd (
          opposite-ne side
            (sym (located-side (opposite side) _ (side-AreLevels (opposite side) b v) other) ∙ s))
  ]

  cancel_at-parts :
      (side : Side) (p : F) (b : OrderBook F)
      → let b' = cancel_at side p id b in
        (levels side b' ≡ cancel_in side p id (levels side b))
        × (levels (opposite side) b' ≡ levels (opposite side) b)
        × (b'.order_index ≡ Map.erase id b.order_index)
  unfolding cancel_at
  cancel_at-parts buy p b = (refl, refl, refl)
  cancel_at-parts sell p b = (refl, refl, refl)

  -- Both queues lose the order, and nothing else.
  abbrev IsWithdrawn : OrderBook F → OrderBook F → Type 0
  IsWithdrawn b b' =
      IsValid b'
      × (queue b'.bids ≡ withdraw id (queue b.bids))
      × (queue b'.asks ≡ withdraw id (queue b.asks))

  both_queues :
      (side : Side) (b b' : OrderBook F)
      → (side_queue side b' ≡ withdraw id (side_queue side b))
      → (side_queue (opposite side) b' ≡ withdraw id (side_queue (opposite side) b))
      → (queue b'.bids ≡ withdraw id (queue b.bids)) × (queue b'.asks ≡ withdraw id (queue b.asks))
  both_queues buy b b' h k = (h, k)
  both_queues sell b b' h k = (k, h)

  cancel_at-IsWithdrawn :
      (side : Side) (b : OrderBook F) {loc : OrderLocation F}
      → IsValid b
      → locate id (side_queue side b) ≡ some loc
      → IsWithdrawn b (cancel_at side loc.price id b)
  cancel_at-IsWithdrawn side b {loc} v e =
      let q = side_queue side b in
      let r = side_queue (opposite side) b in
      let unique = side_unique side b id v in
      let found : locate id q ≢ none = λ p. cc in
      let one : count id q ≡ 1 = ground (arith, unique, found, locate-eq-none id q) in
      let c =
        cancel_in-Cancelled ord side id (levels side b) (side-AreLevels side b v) e (omega arith) in
      let (at_side, same, index) = cancel_at-parts side loc.price b in
      let taken : side_queue side (cancel_at side loc.price id b) ≡ withdraw id q =
        ap queue at_side ∙ c.withdrawn in
      let (bids, asks) =
        both_queues side b (cancel_at side loc.price id b) taken
          (ap queue same ∙ sym (withdraw_absent id r (omega arith))) in
      let valid =
        rebuild-IsValid side b (cancel_at side loc.price id b) v (rw at_side c.sound) same (λ k.
          rw
            (taken, index, count-withdraw, locate-withdraw, Map.find-erase, side_indexed side b k v)
            (ground (arith, side_unique side b k v, locate-eq-none id r, one))) in
      (valid, bids, asks)

  -- On a valid book, cancel_order leaves a valid book whose two queues are the old ones without
  -- the orders of the id, in their order, and it returns true exactly if the id rested in the
  -- book.
  pub cancel_order-withdraw :
      (b : OrderBook F)
      → IsValid b
      → let (b', removed) = cancel_order b id in
        IsValid b'
        × (queue b'.bids ≡ withdraw id (queue b.bids))
        × (queue b'.asks ≡ withdraw id (queue b.asks))
        × ((removed ≡ true) ↔ (count id (queue b.bids) + count id (queue b.asks) ≡ 1))
  unfolding cancel_order
  cancel_order-withdraw b v =
      let q = queue b.bids in
      let r = queue b.asks in
      elim (Option-cases (Map.find id b.order_index)) [
        | inl e ↦
            let absent = absent-count buy b id v e in
            rw (e, cancel_order)
              (
                v,
                sym (withdraw_absent id q (omega arith)),
                sym (withdraw_absent id r (omega arith)),
                (λ h. cc, λ h. absurd (omega arith)),
              )
        | inr (loc, e) ↦
            let (valid, bids, asks) =
              cancel_at-IsWithdrawn loc.side b v (found-locate loc.side b v e refl) in
            rw (e, cancel_order)
              (
                valid,
                bids,
                asks,
                (
                  λ _.
                      ground (
                        arith,
                        v.indexed id,
                        v.unique id,
                        locate-eq-none id q,
                        locate-eq-none id r,
                      ),
                  λ _. refl,
                ),
              )
      ]
