-- ===== src/Exchange/Modifying.antt =====
-- exchange/exchange.cpp: `modify_order` with the price as it is and a smaller quantity.
use cpp_matching_engine.Prelude.{
  ℕ, ◌+◌, ◌-◌, ◌<◌, ◌≡◌, inl, inr, refl, true, false, not, ◌||◌, List, [], ◌∷◌, some, ltb, ◌==◌,
  nat_eq, list_eq, arith, Bool-cases, Option-cases, some_injective, ap, ap₂, sym, ◌∙◌, subst, sub32,
  add64,
}
use cpp_matching_engine.Prelude.Map
use cpp_matching_engine.Double.{Double, IsOrdered}
use cpp_matching_engine.Levels
use cpp_matching_engine.Types.{opposite, Order, remaining}
use cpp_matching_engine.OrderBook.{OrderBook, PriceLevel, OrderLocation, levels}
use cpp_matching_engine.OrderBook.Valid.{queue, remaining-lt}
use cpp_matching_engine.OrderBook.Sides.{side_queue}
use cpp_matching_engine.PriceTime.{count, open_qty}
use cpp_matching_engine.Exchange.{
  Exchange, find_book_for_order, find_order, find_target, reduce_order, reduce_in_place,
  modify_target, modify_order,
}
use cpp_matching_engine.Exchange.Routing.{resting, IsRouted, found_book, replace-IsRouted}
use cpp_matching_engine.Exchange.Posting.{resting-sides}
use cpp_matching_engine.Exchange.ReducingQueue.{count-reduce_order}
use cpp_matching_engine.Exchange.Reducing.{reduce_in_place-IsValid}

module _ {F : Type 0} where
  find_order-id :
      (id : ℕ) (os : List (Order F)) (t : Order F) → find_order id os ≡ some t → t.order_id ≡ id
  unfolding find_order
  find_order-id id [] t h = cc
  find_order-id id (o ∷ os) t h = elim (Bool-cases (o.order_id == id)) [
    | inl e ↦
        let p : o ≡ t = some_injective (rw e at h) in
        ap (λ (r : Order F). r.order_id) (sym p) ∙ (nat_eq.same_iff o.order_id id).0 e
    | inr e ↦ find_order-id id os t (rw e at h)
  ]

module _ {F : Type 0} ⦃d : Double F⦄ where
  -- Where `modify_order` finds the order.
  found_target :
      (id : ℕ) (b : OrderBook F) (place : OrderLocation F) (t : Order F)
      → find_target id b ≡ some (place, t)
      → (l : PriceLevel F) × (Levels.find place.side place.price (levels place.side b) ≡ some l)
        × (find_order id l.orders ≡ some t)
  unfolding find_target
  found_target id b place t h = elim (Option-cases (Map.find id b.order_index)) [
    | inl e ↦ let p = (rw e at h) in cc
    | inr (loc, e) ↦ elim (Option-cases (Levels.find loc.side loc.price (levels loc.side b))) [
      | inl k ↦ let p = (rw (e, k) at h) in cc
      | inr (l, k) ↦ elim (Option-cases (find_order id l.orders)) [
        | inl f ↦ let p = (rw (e, k, f) at h) in cc
        | inr (o, f) ↦
            let p : some (loc, o) ≡ some (place, t) = (rw (e, k, f) at h) in
            let q = some_injective p in
            (
              l,
              subst (λ (r : OrderLocation F). Levels.find r.side r.price (levels r.side b) ≡ some l)
                  (ap (λ r. r.0) q) k,
              f ∙ ap (λ r. some r.1) q,
            )
      ]
    ]
  ]

-- The book after the reduction.
abbrev pub smaller :
    {F : Type 0} ⦃d : Double F⦄ → ℕ → OrderBook F → OrderLocation F → Order F → ℕ → OrderBook F
smaller id b place t new_qty = reduce_in_place place.side place.price id (remaining t - new_qty) b

module _ {F : Type 0} ⦃d : Double F⦄ (ord : IsOrdered F) (now_ns : ℕ → ℕ) (x : Exchange F) (id : ℕ)
    (symbol : List ℕ) (b : OrderBook F) (place : OrderLocation F) (t : Order F) where
  modify_order_runs :
      (new_price : F) (new_qty : ℕ)
      → find_book_for_order id x ≡ some (symbol, b)
      → find_target id b ≡ some (place, t)
      → d.eq new_price place.price ≡ true
      → 0 < new_qty
      → new_qty < remaining t
      → modify_order now_ns id new_price new_qty x
        ≡ some (
          record x {
            books = Map.insert symbol (smaller id b place t new_qty) x.books;
            stats = record (x.stats) {
              total_orders_modified = add64 x.stats.total_orders_modified 1;
            };
          },
          true,
        )
  unfolding modify_order modify_target
  modify_order_runs new_price new_qty h g same more less =
      let (l, _, at_order) = found_target id b place t g in
      let is_id : t.order_id ≡ id = find_order-id id l.orders t at_order in
      let positive : (new_qty == 0) ≡ false = ground arith in
      let stays : (not (d.eq new_price place.price) || ltb (remaining t) new_qty) ≡ false =
        rw same (ground arith) in
      let shrinks : ltb new_qty (remaining t) ≡ true = ground arith in
      let amount : sub32 (remaining t) new_qty ≡ remaining t - new_qty =
        omega (arith, remaining-lt t) in
      rw (modify_order, h, g, positive, modify_target, stays, shrinks, amount, is_id) refl

  -- On an exchange with valid books whose global index knows the book of every order that rests,
  -- modify_order of an order that it finds, with an equal price and a smaller quantity above
  -- zero, is accepted and leaves such an exchange: the order stands in its queue where it stood,
  -- its side has just the difference less open, the other side of its book is unchanged and no
  -- other book is touched.
  pub modify_order-in_place :
      (new_price : F) (new_qty : ℕ)
      → IsRouted x
      → find_book_for_order id x ≡ some (symbol, b)
      → find_target id b ≡ some (place, t)
      → d.eq new_price place.price ≡ true
      → 0 < new_qty
      → new_qty < remaining t
      → (y : Exchange F) × (modify_order now_ns id new_price new_qty x ≡ some (y, true))
        × IsRouted y
        × (y.books ≡ Map.insert symbol (smaller id b place t new_qty) x.books)
        × (side_queue place.side (smaller id b place t new_qty)
            ≡ reduce_order id (remaining t - new_qty) (side_queue place.side b))
        × (levels (opposite place.side) (smaller id b place t new_qty)
            ≡ levels (opposite place.side) b)
        × (open_qty (side_queue place.side (smaller id b place t new_qty)) + (remaining t - new_qty)
            ≡ open_qty (side_queue place.side b))
  modify_order-in_place new_price new_qty v h g same more less =
      let (_, at_symbol) = found_book id x symbol b h in
      let (l, at_level, at_order) = found_target id b place t g in
      let (valid, moved, other, index, taken) =
        reduce_in_place-IsValid ord place.side id (remaining t - new_qty) place.price b l t
          (v.books_valid symbol b at_symbol) at_level at_order (omega arith) in
      let y : Exchange F = record x {
        books = Map.insert symbol (smaller id b place t new_qty) x.books;
        stats = record (x.stats) { total_orders_modified = add64 x.stats.total_orders_modified 1 };
      } in
      let counts : (k : ℕ) → resting k (smaller id b place t new_qty) ≡ resting k b = λ k.
        resting-sides place.side (smaller id b place t new_qty) k
        ∙ ap₂ (λ u w. u + w)
            (ap (count k) moved
              ∙ count-reduce_order id (remaining t - new_qty) k (side_queue place.side b))
            (ap (λ m. count k (queue m)) other)
        ∙ sym (resting-sides place.side b k) in
      (
        y,
        modify_order_runs new_price new_qty h g same more less,
        replace-IsRouted symbol (smaller id b place t new_qty) x y v valid refl
            (λ k held. v.routed symbol b k at_symbol (subst (λ r. 0 < r) (counts k) held))
            (λ k s differs old. old),
        refl,
        moved,
        other,
        taken,
      )
