-- ===== src/OrderBook/Adding.antt =====
-- `add_limit_order` against the queues.
use cpp_matching_engine.Prelude.{
  ℕ, ◌+◌, ◌%◌, ◌≤◌, ◌≡◌, refl, true, false, List, [], ◌∷◌, ◌++◌, arith, All, All-append, All-impl,
  u64_mod, nat_eq, Bool-cases, inl, inr, ap, append_assoc, ◌∙◌, none, sym,
}
use cpp_matching_engine.Prelude.Map
use cpp_matching_engine.Double.{Double, IsOrdered}
use cpp_matching_engine.Types.{Side, buy, sell, opposite, Order}
use cpp_matching_engine.Levels
use cpp_matching_engine.Levels.{before}
use cpp_matching_engine.OrderBook.{
  OrderBook, PriceLevel, LevelMap, levels, is_empty, add_order, add_on, add_limit_order, zero_price,
}
use cpp_matching_engine.OrderBook.Valid.{
  queue, IsResting, IsLevel, Follows, AreLevels, IsValid, before_total, before_asymm, Follows-trans,
  Follows-queue,
}
use cpp_matching_engine.OrderBook.Sides.{
  side_queue, absent-count, side_unique, side_indexed, rebuild-IsValid,
}
use cpp_matching_engine.PriceTime.{
  first_some, count, locate, open_qty, open_qty-append, enqueue, enqueue_behind, enqueue_ahead,
  count-enqueue, locate-enqueue,
}

module _ {F : Type 0} where
  abbrev put : Order F → PriceLevel F → PriceLevel F
  put o l = add_order (record l { price = o.price }) o

  occupied : (os : List (Order F)) (o : Order F) → is_empty (os ++ o ∷ []) ≡ false
  occupied [] o = refl
  occupied (_ ∷ _) o = refl

  put-IsLevel :
      (side : Side) (key : F) (o : Order F) (l : PriceLevel F)
      → IsResting side key o
      → All (IsResting side key) l.orders
      → l.total_qty ≡ open_qty l.orders % u64_mod
      → IsLevel side key (put o l) × (is_empty (put o l).orders ≡ false)
  unfolding add_order open_qty
  put-IsLevel side key o l r rs t = (
    record {
      keyed = r.at_price;
      totalled = omega (arith, open_qty-append l.orders (o ∷ []));
      resting = All-append _ l.orders (o ∷ []) rs (r, tt);
    },
    occupied l.orders o,
  )

module _ {F : Type 0} ⦃d : Double F⦄ (ord : IsOrdered F) (side : Side) (o : Order F) where
  abbrev fresh : PriceLevel F
  fresh = record { price = zero_price; total_qty = 0; orders = [] }

  abbrev added : LevelMap F → LevelMap F
  added m = Levels.update side o.price fresh (put o) m

  added-Follows :
      (key : F) (m : LevelMap F)
      → before side key o.price ≡ true
      → Follows side key m
      → Follows side key (added m)
  unfolding Levels.update
  added-Follows key [] h f = (h, tt)
  added-Follows key ((j, l) ∷ m) h f = ground (arith, added-Follows key m h f.1)

  -- The three places at which a price can stand to the best level of a map.
  module _ (j : F) (l : PriceLevel F) (m : LevelMap F) where
    update_past : before side j o.price ≡ true → added ((j, l) ∷ m) ≡ (j, l) ∷ added m
    unfolding Levels.update
    update_past h = rw h

    update_at :
        before side j o.price ≡ false
        → before side o.price j ≡ false
        → added ((j, l) ∷ m) ≡ (j, put o l) ∷ m
    unfolding Levels.update
    update_at h k = rw (h, k)

    update_before :
        before side j o.price ≡ false
        → before side o.price j ≡ true
        → added ((j, l) ∷ m) ≡ (o.price, put o fresh) ∷ (j, l) ∷ m
    unfolding Levels.update
    update_before h k = rw (h, k)

  fresh_total : fresh.total_qty ≡ open_qty fresh.orders % u64_mod
  unfolding open_qty
  fresh_total = refl

  pub added-AreLevels :
      (m : LevelMap F) → IsResting side o.price o → AreLevels side m → AreLevels side (added m)
  unfolding Levels.update
  added-AreLevels [] r v =
      let (p, q) = put-IsLevel side o.price o fresh r tt fresh_total in (p, q, tt, tt)
  added-AreLevels ((j, l) ∷ m) r v = elim (Bool-cases (before side j o.price)) [
    | inl h ↦ rw (update_past j l m h) (v.0, v.1, added-Follows j m h v.2, added-AreLevels m r v.3)
    | inr h ↦ elim (Bool-cases (before side o.price j)) [
      | inl k ↦ rw (update_before j l m h k) (
          let (p, q) = put-IsLevel side o.price o fresh r tt fresh_total in
          (p, q, (k, Follows-trans ord side o.price j m k v.2), v))
      | inr k ↦ rw (update_at j l m h k) (
          let e = before_total ord side j o.price h k in
          let (p, q) = put-IsLevel side j o l (rw e r) v.0.resting v.0.totalled in (p, q, v.2, v.3))
    ]
  ]

  -- On the queue the new level, or the new place in a level, is that of `enqueue`.
  pub queue-added : (m : LevelMap F) → AreLevels side m → queue (added m) ≡ enqueue side o (queue m)
  unfolding Levels.update queue enqueue add_order
  queue-added [] v = refl
  queue-added ((j, l) ∷ m) v = elim (Bool-cases (before side j o.price)) [
    | inl h ↦
        rw (update_past j l m h) (
          ap (◌++◌ l.orders) (queue-added m v.3) ∙ sym (behind (before_asymm ord side j o.price h)))
    | inr h ↦ elim (Bool-cases (before side o.price j)) [
      | inl k ↦ rw (update_before j l m h k) (
          sym (
            enqueue_ahead side o (l.orders ++ queue m) (
              All-append _ l.orders (queue m)
                (All-impl l.orders (λ x r. rw r.at_price k) v.0.resting)
                (Follows-queue ord side o.price m v.3 (Follows-trans ord side o.price j m k v.2)))))
      | inr k ↦ rw (update_at j l m h k) (
          let e = before_total ord side j o.price h k in
          let ahead =
            enqueue_ahead side o (queue m) (Follows-queue ord side o.price m v.3 (rw e at v.2)) in
          append_assoc l.orders (o ∷ []) (queue m)
          ∙ ap (◌++◌ l.orders) (sym ahead)
          ∙ sym (behind k))
    ]
  ]
    where
      behind :
          before side o.price j ≡ false
          → enqueue side o (l.orders ++ queue m) ≡ l.orders ++ enqueue side o (queue m)
      behind k =
          enqueue_behind side o l.orders (queue m)
            (All-impl l.orders (λ x r. rw r.at_price k) v.0.resting)

module _ {F : Type 0} ⦃d : Double F⦄ (ord : IsOrdered F) (o : Order F) where
  -- A new resting order takes its place by price and then by time, and the other side stays.
  add_on-sides :
      (side : Side) (b : OrderBook F)
      → IsValid b
      → let b' = add_on side b o in
        (side_queue side b' ≡ enqueue side o (side_queue side b))
        × (levels (opposite side) b' ≡ levels (opposite side) b)
  unfolding add_on
  add_on-sides buy b v = (queue-added ord buy o b.bids v.bid_levels, refl)
  add_on-sides sell b v = (queue-added ord sell o b.asks v.ask_levels, refl)

  add_on-AreLevels :
      (side : Side) (b : OrderBook F)
      → IsValid b
      → IsResting side o.price o
      → AreLevels side (levels side (add_on side b o))
  unfolding add_on
  add_on-AreLevels buy b v r = added-AreLevels ord buy o b.bids r v.bid_levels
  add_on-AreLevels sell b v r = added-AreLevels ord sell o b.asks r v.ask_levels

  add_on-index :
      (side : Side) (b : OrderBook F)
      → (add_on side b o).order_index
        ≡ Map.insert o.order_id (record { side = side; price = o.price }) b.order_index
  unfolding add_on
  add_on-index buy b = refl
  add_on-index sell b = refl

  enqueue_ids :
      (side : Side) (b : OrderBook F) (id : ℕ)
      → IsValid b
      → o.side ≡ side
      → count o.order_id (side_queue side b) + count o.order_id (side_queue (opposite side) b) ≡ 0
      → let q = side_queue side b in
        let r = side_queue (opposite side) b in
        (count id (enqueue side o q) + count id r ≤ 1)
        × (Map.find id
              (Map.insert o.order_id (record { side = side; price = o.price }) b.order_index)
            ≡ first_some (locate id (enqueue side o q)) (locate id r))
  unfolding count locate
  enqueue_ids side b id v e h =
      let q = side_queue side b in
      let r = side_queue (opposite side) b in
      rw
        (
          count-enqueue side id o q,
          locate-enqueue side id o q (omega arith),
          Map.find-insert,
          side_indexed side b id v,
        )
        (ground (arith, side_unique side b id v))

  add_on-IsValid :
      (side : Side) (b : OrderBook F)
      → IsValid b
      → IsResting side o.price o
      → count o.order_id (side_queue side b) + count o.order_id (side_queue (opposite side) b) ≡ 0
      → IsValid (add_on side b o)
  add_on-IsValid side b v r fresh_id =
      let (q, same) = add_on-sides side b v in
      rebuild-IsValid side b (add_on side b o) v (add_on-AreLevels side b v r) same
        λ id. rw (q, add_on-index side b) (enqueue_ids side b id v r.on_side fresh_id)

  -- On a valid book, add_limit_order of an open limit order with a new id leaves a valid book in
  -- which the order stands on its side behind all orders with a price as good as its own and in
  -- front of the others, and the other side is unchanged.
  pub add_limit_order-enqueue :
      (b : OrderBook F)
      → IsValid b
      → IsResting o.side o.price o
      → Map.find o.order_id b.order_index ≡ none
      → let b' = add_limit_order b o in
        IsValid b'
        × (side_queue o.side b' ≡ enqueue o.side o (side_queue o.side b))
        × (side_queue (opposite o.side) b' ≡ side_queue (opposite o.side) b)
  unfolding add_limit_order
  add_limit_order-enqueue b v r h =
      let (q, same) = add_on-sides o.side b v in
      (add_on-IsValid o.side b v r (absent-count o.side b o.order_id v h), q, ap queue same)
