-- ===== src/Exchange/Submitting.antt =====
-- exchange/exchange.cpp: `submit_order` and the routing of ids.
use cpp_matching_engine.Prelude.{
  ℕ, ◌<◌, ◌≡◌, ◌≢◌, inl, inr, refl, Bool, true, false, ◌&&◌, List, [], ◌++◌, none, some, ◌==◌,
  nat_eq, list_eq, arith, add64, Bool-cases, Option-cases, sym, ◌∙◌, subst, zero-cases,
}
use cpp_matching_engine.Prelude.Map
use cpp_matching_engine.Double.{Double, IsOrdered}
use cpp_matching_engine.Types.{Order, limit, symbol_string, is_limit, is_filled, rejected}
use cpp_matching_engine.OrderBook.{OrderBook}
use cpp_matching_engine.OrderBook.Valid.{queue, IsValid}
use cpp_matching_engine.PriceTime.{locate-eq-none}
use cpp_matching_engine.MatchingEngine.{MatchingEngine, Match}
use cpp_matching_engine.MatchingEngine
use cpp_matching_engine.MatchingEngine.Sweep.{IsSized}
use cpp_matching_engine.MatchingEngine.Finishing.{submit_order_refines}
use cpp_matching_engine.Exchange.{
  Exchange, has_symbol, run_engine, register_order, drop_filled, count_reports, submit_order,
}
use cpp_matching_engine.Exchange.Routing.{resting, IsRouted, replace-IsRouted}
use cpp_matching_engine.Exchange.Posting.{Rests, submit_order-Rests}

-- An id that does not rest in a valid book is not in its index.
unrested-find :
    {F : Type 0} ⦃d : Double F⦄ (b : OrderBook F) (id : ℕ)
    → IsValid b
    → resting id b ≡ 0
    → Map.find id b.order_index ≡ none
unrested-find b id v h =
    ground (arith, v.indexed id, locate-eq-none id (queue b.bids), locate-eq-none id (queue b.asks))

module _ {F : Type 0} ⦃d : Double F⦄ (ord : IsOrdered F) (now_ns : ℕ → ℕ) (o : Order F)
    (x : Exchange F) (v : IsRouted x) (sized : IsSized o)
    (fresh : Map.find o.order_id x.global_order_index ≡ none) where
  fresh-resting :
      (symbol : List ℕ) (b : OrderBook F)
      → Map.find symbol x.books ≡ some b
      → resting o.order_id b ≡ 0
  fresh-resting symbol b k = elim (zero-cases (resting o.order_id b)) [
    | inl e ↦ e
    | inr more ↦ let p = sym fresh ∙ v.routed symbol b o.order_id k more in absurd cc
  ]

  -- The exchange after the engine has run on a book.
  abbrev after : List ℕ → Match F → Exchange F
  after symbol t =
      let y = register_order symbol o x in
      drop_filled t.order (record y {
        books = Map.insert symbol t.book x.books;
        engine = record (t.engine) { sent = x.engine.sent ++ t.engine.sent };
        stats = count_reports t.engine.sent y.stats;
      })

  -- The index after a submission, for other ids and for its own.
  after-other :
      (symbol : List ℕ) (t : Match F) (k : ℕ)
      → t.order.order_id ≡ o.order_id
      → o.order_id ≢ k
      → Map.find k (after symbol t).global_order_index ≡ Map.find k x.global_order_index
  unfolding drop_filled register_order
  after-other symbol t k same other =
      let differs : (o.order_id == k) ≡ false = ground (arith, other) in
      elim (Bool-cases (is_limit o.type)) [
        | inl e ↦ elim (Bool-cases (is_limit t.order.type && is_filled t.order.status)) [
          | inl f ↦
              rw
                (
                  drop_filled, f, register_order, e, Map.find-erase, same, differs, Map.find-insert,
                  differs,
                )
                refl
          | inr f ↦ rw (drop_filled, f, register_order, e, Map.find-insert, differs) refl
        ]
        | inr e ↦ elim (Bool-cases (is_limit t.order.type && is_filled t.order.status)) [
          | inl f ↦ rw (drop_filled, f, register_order, e, Map.find-erase, same, differs) refl
          | inr f ↦ rw (drop_filled, f, register_order, e) refl
        ]
      ]

  after-books :
      (symbol : List ℕ) (t : Match F) → (after symbol t).books ≡ Map.insert symbol t.book x.books
  unfolding drop_filled register_order
  after-books symbol t = elim (Bool-cases (is_limit t.order.type && is_filled t.order.status)) [
    | inl f ↦ rw (drop_filled, f) refl
    | inr f ↦ rw (drop_filled, f) refl
  ]

  submit_order_runs :
      (b : OrderBook F) (t : Match F)
      → Map.find (symbol_string o.symbol) x.books ≡ some b
      → MatchingEngine.submit_order now_ns (record (x.engine) { sent = [] }) o b ≡ some t
      → submit_order now_ns o x ≡ some (after (symbol_string o.symbol) t, t.order, true)
  unfolding submit_order run_engine register_order
  submit_order_runs b t k run = rw (submit_order, k, run_engine, run) refl

  after-own :
      (symbol : List ℕ) (t : Match F)
      → o.type ≡ limit
      → is_filled t.order.status ≡ false
      → Map.find o.order_id (after symbol t).global_order_index ≡ some symbol
  unfolding drop_filled register_order
  after-own symbol t is open_status =
      let f : (is_limit t.order.type && is_filled t.order.status) ≡ false = ground arith in
      rw (drop_filled, f, register_order, is, Map.find-insert, Map.eq_refl o.order_id) refl

  after-IsRouted :
      (symbol : List ℕ) (b : OrderBook F) (t : Match F)
      → Map.find symbol x.books ≡ some b
      → IsValid t.book
      → Rests o b t
      → IsRouted (after symbol t)
  after-IsRouted symbol b t k valid rests =
      replace-IsRouted symbol t.book x (after symbol t) v valid (after-books symbol t)
        (λ id more. elim (Bool-cases (o.order_id == id)) [
          | inl e ↦
              let same : o.order_id ≡ id = (nat_eq.same_iff o.order_id id).0 e in
              let (is, left_open) =
                rests.posted (subst (λ r. 0 < resting r t.book) (sym same) more) in
              subst (λ r. Map.find r (after symbol t).global_order_index ≡ some symbol) same
                (after-own symbol t is left_open)
          | inr e ↦
              let other : o.order_id ≢ id =
                λ q. let r = sym e ∙ (nat_eq.same_iff o.order_id id).1 q in cc in
              after-other symbol t id rests.id other
              ∙ v.routed symbol b id k (omega (arith, rests.others id other))
        ])
        (λ id s other old.
          after-other symbol t id rests.id (λ q.
            let r = sym fresh ∙ subst (λ u. Map.find u x.global_order_index ≡ some s) (sym q) old in
            cc)
          ∙ old)

  -- On an exchange with valid books whose global index knows the book of every order that rests,
  -- for an order that is not overfilled and whose id the index does not hold, submit_order
  -- returns, accepts the order exactly if its symbol is listed, and leaves such an exchange.
  pub submit_order-IsRouted :
      (r : Exchange F × Order F × Bool) × (submit_order now_ns o x ≡ some r)
      × IsRouted r.0
      × (r.2 ≡ has_symbol (symbol_string o.symbol) x)
  unfolding submit_order has_symbol
  submit_order-IsRouted =
      let symbol = symbol_string o.symbol in
      elim (Option-cases (Map.find symbol x.books)) [
        | inl k ↦ (
          (
            record x { stats = record (x.stats) { total_rejects = add64 x.stats.total_rejects 1 } },
            record o { status = rejected },
            false,
          ),
          rw (submit_order, k) refl,
          record { books_valid = v.books_valid; routed = v.routed },
          rw (has_symbol, k) refl,
        )
        | inr (b, k) ↦
            let w = v.books_valid symbol b k in
            let absent = unrested-find b o.order_id w (fresh-resting symbol b k) in
            let e = record (x.engine) { sent = [] } in
            let (t, run, valid, _) = submit_order_refines ord now_ns e o b w sized absent in
            let rests = submit_order-Rests ord now_ns e o b w sized absent t run in
            (
              (after symbol t, t.order, true),
              submit_order_runs b t k run,
              after-IsRouted symbol b t k valid rests,
              rw (has_symbol, k) refl,
            )
      ]

  -- A submission leaves the books' symbols, and the index at other ids.
  abbrev pub Keeps : Exchange F → Type 0
  Keeps y =
      ((k : ℕ) → o.order_id ≢ k → Map.find k y.global_order_index ≡ Map.find k x.global_order_index)
      × ((s : List ℕ) → has_symbol s x ≡ true → has_symbol s y ≡ true)

  has_symbol-after :
      (symbol s : List ℕ) (t : Match F)
      → has_symbol s x ≡ true
      → has_symbol s (after symbol t) ≡ true
  unfolding has_symbol
  has_symbol-after symbol s t h = elim (Bool-cases (symbol == s)) [
    | inl e ↦ rw (after-books symbol t, has_symbol, Map.find-insert, e) refl
    | inr e ↦ rw (after-books symbol t, has_symbol, Map.find-insert, e) h
  ]

  pub submit_order-Keeps :
      (r : Exchange F × Order F × Bool) × (submit_order now_ns o x ≡ some r)
      × IsRouted r.0
      × Keeps r.0
  unfolding submit_order has_symbol
  submit_order-Keeps =
      let symbol = symbol_string o.symbol in
      elim (Option-cases (Map.find symbol x.books)) [
        | inl k ↦ (
          (
            record x { stats = record (x.stats) { total_rejects = add64 x.stats.total_rejects 1 } },
            record o { status = rejected },
            false,
          ),
          rw (submit_order, k) refl,
          record { books_valid = v.books_valid; routed = v.routed },
          ((λ k other. refl), (λ s h. h)),
        )
        | inr (b, k) ↦
            let w = v.books_valid symbol b k in
            let absent = unrested-find b o.order_id w (fresh-resting symbol b k) in
            let e = record (x.engine) { sent = [] } in
            let (t, run, valid, _) = submit_order_refines ord now_ns e o b w sized absent in
            let rests = submit_order-Rests ord now_ns e o b w sized absent t run in
            (
              (after symbol t, t.order, true),
              submit_order_runs b t k run,
              after-IsRouted symbol b t k valid rests,
              (
                (λ k other. after-other symbol t k rests.id other),
                (λ s h. has_symbol-after symbol s t h),
              ),
            )
      ]
