-- ===== src/Exchange/Reducing.antt =====
-- exchange/exchange.cpp: the reduction of a quantity in place, on a book.
use cpp_matching_engine.Prelude.{
  ℕ, ◌+◌, ◌<◌, ◌≤◌, ◌≡◌, inl, inr, refl, [], ◌∷◌, ◌++◌, some, nat_eq, arith, Bool-cases,
  some_injective, ap, sym, ◌∙◌, subst, neg64,
}
use cpp_matching_engine.Double.{Double, IsOrdered}
use cpp_matching_engine.Levels.{before}
use cpp_matching_engine.Levels
use cpp_matching_engine.Types.{Side, buy, sell, opposite, Order, remaining}
use cpp_matching_engine.OrderBook.{OrderBook, PriceLevel, LevelMap, levels, update_qty, is_empty}
use cpp_matching_engine.OrderBook.Valid.{queue, IsLevel, AreLevels, Follows, IsValid, remaining-lt}
use cpp_matching_engine.OrderBook.Sides.{
  side_queue, side-AreLevels, side_unique, side_indexed, rebuild-IsValid,
}
use cpp_matching_engine.PriceTime.{count, open_qty, count-append, open_qty-append}
use cpp_matching_engine.Exchange.{find_order, reduce_order, reduce_in_place}
use cpp_matching_engine.Exchange.ReducingQueue.{
  count-reduce_order, locate-reduce_order, find_order-count, reduce_order-found,
  reduce_order_absent, reduce_order-IsResting,
}

module _ {F : Type 0} (id n : ℕ) where
  abbrev reduce_level : PriceLevel F → PriceLevel F
  reduce_level l = update_qty (neg64 n) (record l { orders = reduce_order id n l.orders })

module _ {F : Type 0} ⦃d : Double F⦄ where
  reduce_in_place-parts :
      (side : Side) (id n : ℕ) (price : F) (b : OrderBook F)
      → let b' = reduce_in_place side price id n b in
        (levels side b' ≡ Levels.adjust side price (reduce_level id n) (levels side b))
        × (levels (opposite side) b' ≡ levels (opposite side) b)
        × (b'.order_index ≡ b.order_index)
  unfolding reduce_in_place
  reduce_in_place-parts buy id n price b = (refl, refl, refl)
  reduce_in_place-parts sell id n price b = (refl, refl, refl)

module _ {F : Type 0} ⦃d : Double F⦄ (ord : IsOrdered F) (side : Side) (id n : ℕ) where
  reduce_level-IsLevel :
      (k : F) (l : PriceLevel F) (t : Order F)
      → IsLevel side k l
      → find_order id l.orders ≡ some t
      → n < remaining t
      → IsLevel side k (reduce_level id n l)
        × (is_empty (reduce_level id n l).orders ≡ is_empty l.orders)
        × ((reduce_level id n l).orders ≡ reduce_order id n l.orders)
        × (open_qty (reduce_order id n l.orders) + n ≡ open_qty l.orders)
  unfolding update_qty
  reduce_level-IsLevel k l t v h less =
      let (resting, sum, same) = reduce_order-IsResting id n side k l.orders t h less v.resting in
      let small = remaining-lt t in
      (
        record { keyed = v.keyed; totalled = omega (arith, v.totalled); resting = resting },
        same,
        refl,
        sum,
      )

  found-count :
      (price : F) (m : LevelMap F) (l : PriceLevel F) (t : Order F)
      → Levels.find side price m ≡ some l
      → find_order id l.orders ≡ some t
      → 0 < count id (queue m)
  unfolding queue Levels.find
  found-count price [] l t e h = cc
  found-count price ((j, x) ∷ m) l t e h =
      let apart = count-append id x.orders (queue m) in
      elim (Bool-cases (before side j price)) [
        | inl past ↦ omega (arith, found-count price m l t (rw past at e) h)
        | inr not_past ↦ elim (Bool-cases (before side price j)) [
          | inl missing ↦ let p = (rw (not_past, missing) at e) in cc
          | inr hit ↦
              let p : some x ≡ some l = (rw (not_past, hit) at e) in
              let q : x ≡ l = some_injective p in
              let here =
                find_order-count id n x.orders t
                  (subst (λ r. find_order id r.orders ≡ some t) (sym q) h) in
              omega arith
        ]
      ]

  record Reduced (m m' : LevelMap F) : Type 0 where
    sound : AreLevels side m'
    in_place : queue m' ≡ reduce_order id n (queue m)
    follows : (k : F) → Follows side k m → Follows side k m'
    taken : open_qty (queue m') + n ≡ open_qty (queue m)

  adjust-Reduced :
      (price : F) (m : LevelMap F) (l : PriceLevel F) (t : Order F)
      → AreLevels side m
      → Levels.find side price m ≡ some l
      → find_order id l.orders ≡ some t
      → n < remaining t
      → count id (queue m) ≤ 1
      → Reduced m (Levels.adjust side price (reduce_level id n) m)
  unfolding queue Levels.find Levels.adjust
  adjust-Reduced price [] l t v e h less one = cc
  adjust-Reduced price ((j, x) ∷ m) l t v e h less one =
      let apart = count-append id x.orders (queue m) in
      elim (Bool-cases (before side j price)) [
        | inl past ↦
            let e' : Levels.find side price m ≡ some l = (rw past at e) in
            let later = found-count price m l t e' h in
            let r = adjust-Reduced price m l t v.3 e' h less (omega arith) in
            rw past (record {
              sound = (v.0, v.1, r.follows j v.2, r.sound);
              in_place =
                  ap (λ q. x.orders ++ q) r.in_place
                  ∙ sym (reduce_order_absent id n x.orders (queue m) (omega arith));
              follows = λ k f. (f.0, r.follows k f.1);
              taken = omega (
                arith,
                r.taken,
                open_qty-append x.orders (queue m),
                open_qty-append x.orders (queue (Levels.adjust side price (reduce_level id n) m)),
              );
            })
        | inr not_past ↦ elim (Bool-cases (before side price j)) [
          | inl missing ↦ let p = (rw (not_past, missing) at e) in cc
          | inr hit ↦
              let p : some x ≡ some l = (rw (not_past, hit) at e) in
              let q : x ≡ l = some_injective p in
              let here : find_order id x.orders ≡ some t =
                subst (λ r. find_order id r.orders ≡ some t) (sym q) h in
              let (level, same, orders, sum) = reduce_level-IsLevel j x t v.0 here less in
              rw (not_past, hit)
                (record {
                  sound = (level, same ∙ v.1, v.2, v.3);
                  in_place =
                      ap (λ os. os ++ queue m) orders
                      ∙ sym (reduce_order-found id n x.orders (queue m) t here);
                  follows = λ k f. (f.0, f.1);
                  taken = omega (
                    arith,
                    sum,
                    open_qty-append x.orders (queue m),
                    open_qty-append (reduce_order id n x.orders) (queue m),
                    ap (λ os. open_qty (os ++ queue m)) orders,
                  );
                })
        ]
      ]

  -- On a valid book, the reduction of an order by less than it has open leaves a valid book, in which
  -- the order stands in its queue where it stood, with what it has open reduced; the other side and
  -- the index are unchanged.
  pub reduce_in_place-IsValid :
      (price : F) (b : OrderBook F) (l : PriceLevel F) (t : Order F)
      → IsValid b
      → Levels.find side price (levels side b) ≡ some l
      → find_order id l.orders ≡ some t
      → n < remaining t
      → let b' = reduce_in_place side price id n b in
        IsValid b'
        × (side_queue side b' ≡ reduce_order id n (side_queue side b))
        × (levels (opposite side) b' ≡ levels (opposite side) b)
        × (b'.order_index ≡ b.order_index)
        × (open_qty (side_queue side b') + n ≡ open_qty (side_queue side b))
  reduce_in_place-IsValid price b l t v e h less =
      let (at_side, same, index) = reduce_in_place-parts side id n price b in
      let b' = reduce_in_place side price id n b in
      let r =
        adjust-Reduced price (levels side b) l t (side-AreLevels side b v) e h less
          (omega (arith, side_unique side b id v)) in
      let moved : side_queue side b' ≡ reduce_order id n (side_queue side b) =
        ap queue at_side ∙ r.in_place in
      let valid =
        rebuild-IsValid side b b' v (subst (AreLevels side) (sym at_side) r.sound) same (λ k.
          rw (moved, index, count-reduce_order, locate-reduce_order)
            (side_unique side b k v, side_indexed side b k v)) in
      (valid, moved, same, index, ap (λ m. open_qty (queue m) + n) at_side ∙ r.taken)
