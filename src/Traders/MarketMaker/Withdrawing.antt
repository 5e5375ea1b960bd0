-- ===== src/Traders/MarketMaker/Withdrawing.antt =====
-- The cancels of a tick: the exchange stays well routed and holds no earlier quote.
use cpp_matching_engine.Prelude.{
  ℕ, ◌≡◌, ◌≢◌, sym, ap, ◌∙◌, List, some, false, arith, ◌==◌, nat_eq, list_eq, ◌⊎◌, subst,
  Bool-cases, Option-cases, inl, inr,
}
use cpp_matching_engine.Prelude.Map
use cpp_matching_engine.Double.{Double, IsOrdered}
use cpp_matching_engine.Types.{Order}
use cpp_matching_engine.OrderBook.{OrderBook, mid_price}
use cpp_matching_engine.MatchingEngine
use cpp_matching_engine.Exchange.{Exchange, cancel_order, find_book_for_order}
use cpp_matching_engine.Exchange.Routing.{
  IsRouted, resting, found_book, replaced_book, cancel_order-IsRouted, cancel_order-removed,
  cancelled-resting,
}
use cpp_matching_engine.TradingAgent.{number}
use cpp_matching_engine.Traders.MarketMaker.{MarketMaker, cancel_quote, withdraw_quotes, on_tick}

module _ {F : Type 0} where
  -- No book of the exchange holds the id.
  abbrev pub IsGone : ℕ → Exchange F → Type 0
  IsGone id x =
      (symbol : List ℕ) (b : OrderBook F) → Map.find symbol x.books ≡ some b → resting id b ≡ 0

module _ {F : Type 0} ⦃d : Double F⦄ (ord : IsOrdered F) where
  -- A cancel does not bring back what is gone.
  cancel_order-IsGone :
      (id k : ℕ) (x : Exchange F) → IsRouted x → IsGone k x → IsGone k (cancel_order id x).0
  unfolding cancel_order
  cancel_order-IsGone id k x v gone s c h = elim (Option-cases (find_book_for_order id x)) [
    | inl e ↦ gone s c (rw (cancel_order, e) at h)
    | inr ((symbol, b), e) ↦
        let (at_id, at_symbol) = found_book id x symbol b e in
        let (valid, left, said) =
          cancelled-resting ord id x v b (v.books_valid symbol b at_symbol) in
        let (books, answer, index) = cancel_order-removed ord id x v symbol b e in
        let b' = (MatchingEngine.cancel_order b id).0 in
        let none_left : resting k b' ≡ 0 = ground (arith, left k, gone symbol b at_symbol) in
        elim (replaced_book symbol s b' c x (sym (ap (λ m. Map.find s m) books) ∙ h)) [
          | inl (p, q) ↦ sym (ap (resting k) q) ∙ none_left
          | inr (p, q) ↦ gone s c q
        ]
  ]

  cancel_quote-IsRouted : (id : ℕ) (x : Exchange F) → IsRouted x → IsRouted (cancel_quote id x)
  unfolding cancel_quote
  cancel_quote-IsRouted id x v = elim (Bool-cases (id == 0)) [
    | inl e ↦ rw (cancel_quote, e) v
    | inr e ↦ rw (cancel_quote, e) ((cancel_order-IsRouted ord id x v).0)
  ]

  cancel_quote-IsGone_other :
      (id k : ℕ) (x : Exchange F) → IsRouted x → IsGone k x → IsGone k (cancel_quote id x)
  unfolding cancel_quote
  cancel_quote-IsGone_other id k x v gone = elim (Bool-cases (id == 0)) [
    | inl e ↦ rw (cancel_quote, e) gone
    | inr e ↦ rw (cancel_quote, e) (cancel_order-IsGone id k x v gone)
  ]

  cancel_quote-IsGone :
      (id : ℕ) (x : Exchange F) → IsRouted x → id ≢ 0 → IsGone id (cancel_quote id x)
  unfolding cancel_quote
  cancel_quote-IsGone id x v h =
      let e : (id == 0) ≡ false = ground (arith, h) in
      rw (cancel_quote, e) ((cancel_order-IsRouted ord id x v).1)

  pub on_tick-IsRouted :
      (acquired : ℕ → Order F) (book : OrderBook F) (ts : ℕ) (m : MarketMaker F) (x : Exchange F)
      → IsRouted x
      → IsRouted (on_tick acquired book ts m x).1
  unfolding on_tick withdraw_quotes
  on_tick-IsRouted acquired book ts m x v =
      let y = cancel_quote m.active_bid_id x in
      elim (Bool-cases (d.le (mid_price book) (number 0))) [
        | inl e ↦ rw (on_tick, e) v
        | inr e ↦
            rw (on_tick, e)
              (cancel_quote-IsRouted m.active_ask_id y (cancel_quote-IsRouted m.active_bid_id x v))
      ]

  pub on_tick-withdraws :
      (acquired : ℕ → Order F) (book : OrderBook F) (ts : ℕ) (m : MarketMaker F) (x : Exchange F)
      (id : ℕ)
      → IsRouted x
      → d.le (mid_price book) (number 0) ≡ false
      → id ≢ 0
      → (id ≡ m.active_bid_id) ⊎ (id ≡ m.active_ask_id)
      → let y = (on_tick acquired book ts m x).1 in IsGone id y
  unfolding on_tick withdraw_quotes
  on_tick-withdraws acquired book ts m x id v mid h quoted =
      let x1 = cancel_quote m.active_bid_id x in
      let v1 = cancel_quote-IsRouted m.active_bid_id x v in
      rw (on_tick, mid)
        (elim quoted [
          | inl e ↦
              cancel_quote-IsGone_other m.active_ask_id id x1 v1
                (subst (λ k. IsGone id (cancel_quote k x)) e (cancel_quote-IsGone id x v h))
          | inr e ↦ subst (λ k. IsGone id (cancel_quote k x1)) e (cancel_quote-IsGone id x1 v1 h)
        ])
