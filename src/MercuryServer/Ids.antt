-- ===== src/MercuryServer/Ids.antt =====
-- The ids that an exchange does not know yet: those that an agent has not reached, and those of
-- orders from outside.
use cpp_matching_engine.Prelude.{
  ℕ, ◌≡◌, ◌≢◌, refl, ◌∙◌, List, [], ◌∷◌, some, none, Bool, true, false, inl, inr, ◌⊎◌, Bool-cases,
  All, All-impl, ◌+◌, ◌*◌, ◌<◌, ◌≤◌, ◌^◌, arith, length, nat_eq, list_eq, Option-cases, ◌==◌,
}
use cpp_matching_engine.Prelude.Map
use cpp_matching_engine.Double.{Double}
use cpp_matching_engine.Types.{Order}
use cpp_matching_engine.MatchingEngine
use cpp_matching_engine.OrderBook.{OrderBook, mid_price}
use cpp_matching_engine.Exchange.{Exchange, has_symbol, cancel_order, find_book_for_order}
use cpp_matching_engine.TradingAgent.{number}
use cpp_matching_engine.Traders.Making.{AreIssued}
use cpp_matching_engine.Traders.MarketMaker.{MarketMaker, cancel_quote, withdraw_quotes, on_tick}
use cpp_matching_engine.MercuryServer.Submissions.{IsUnknown, AreFresh, Grows}

outside_range : (low high id k : ℕ) → (low < id) × (id ≤ high) → (k ≤ low) ⊎ (high < k) → id ≢ k
outside_range low high id k h (inl below) e = omega arith
outside_range low high id k h (inr above) e = omega arith

module _ {F : Type 0} where
  -- No id of the trader above its first `counter` is known.
  abbrev pub IsAhead : ℕ → ℕ → Exchange F → Type 0
  IsAhead trader_id counter x =
      (k : ℕ) → trader_id * 2 ^ 32 + counter < k → k < (trader_id + 1) * 2 ^ 32 → IsUnknown x k

  -- The ids of orders lie between two numbers, the upper one included.
  abbrev pub AreBetween : ℕ → ℕ → List (Order F) → Type 0
  AreBetween low high os = All (λ o. (low < o.order_id) × (o.order_id ≤ high)) os

  pub AreIssued-AreBetween :
      (t c : ℕ) (os : List (Order F))
      → AreIssued t c os
      → AreBetween (t * 2 ^ 32 + c) (t * 2 ^ 32 + c + length os) os
  AreIssued-AreBetween t c [] h = tt
  AreIssued-AreBetween t c (o ∷ os) (id, sized, h) = (
    (omega (arith, id), omega (arith, id)),
    All-impl os (λ p (low, high). (omega arith, omega arith)) (AreIssued-AreBetween t (c + 1) os h),
  )

  pub AreIssued-AreFresh :
      (t c : ℕ) (os : List (Order F)) (x : Exchange F)
      → c + length os < 2 ^ 32
      → IsAhead t c x
      → AreIssued t c os
      → AreFresh x os
  AreIssued-AreFresh t c [] x small ahead h = tt
  AreIssued-AreFresh t c (o ∷ os) x small ahead (id, sized, h) = (
    sized,
    ahead o.order_id (omega (arith, id)) (omega (arith, id)),
    All-impl os (λ p (low, high) e. omega (arith, id, e)) (AreIssued-AreBetween t (c + 1) os h),
    AreIssued-AreFresh t (c + 1) os x (omega arith) (λ k above below. ahead k (omega arith) below)
        h,
  )

  -- Ids outside a range are known after submissions as they were before.
  pub Grows-IsUnknown :
      (low high k : ℕ) (os : List (Order F)) (x y : Exchange F)
      → Grows x os y
      → AreBetween low high os
      → (k ≤ low) ⊎ (high < k)
      → IsUnknown x k
      → IsUnknown y k
  Grows-IsUnknown low high k os x y grows between outside unknown =
      let apart = λ (o : Order F) (between : (low < o.order_id) × (o.order_id ≤ high)).
        outside_range low high o.order_id k between outside in
      grows.others k (All-impl os apart between) ∙ unknown

  pub AreFresh-IsUnknown :
      (os : List (Order F)) (x y : Exchange F)
      → All (λ o. IsUnknown x o.order_id → IsUnknown y o.order_id) os
      → AreFresh x os
      → AreFresh y os
  AreFresh-IsUnknown [] x y keeps h = tt
  AreFresh-IsUnknown (o ∷ os) x y (keep, keeps) (sized, unknown, apart, h) =
      (sized, keep unknown, apart, AreFresh-IsUnknown os x y keeps h)

erase-unknown :
    (id k : ℕ) (m : Map.Map ℕ (List ℕ)) → Map.find k m ≡ none → Map.find k (Map.erase id m) ≡ none
erase-unknown id k m h = elim (Bool-cases (id == k)) [
  | inl e ↦ rw (Map.find-erase, e) refl
  | inr e ↦ rw (Map.find-erase, e) h
]

module _ {F : Type 0} where
  abbrev is_listed : List ℕ → Map.Map (List ℕ) (OrderBook F) → Bool
  is_listed symbol books = elim (Map.find symbol books) [ none ↦ false | some b ↦ true ]

  insert-listed :
      (symbol s : List ℕ) (b : OrderBook F) (books : Map.Map (List ℕ) (OrderBook F))
      → is_listed s books ≡ true
      → is_listed s (Map.insert symbol b books) ≡ true
  insert-listed symbol s b books h = elim (Bool-cases (symbol == s)) [
    | inl e ↦ rw (is_listed, Map.find-insert, e) refl
    | inr e ↦ rw (is_listed, Map.find-insert, e) h
  ]

module _ {F : Type 0} ⦃d : Double F⦄ where
  -- Cancels leave ids unknown and symbols listed.
  abbrev pub Forgets : Exchange F → Exchange F → Type 0
  Forgets x y =
      ((k : ℕ) → IsUnknown x k → IsUnknown y k)
      × ((s : List ℕ) → has_symbol s x ≡ true → has_symbol s y ≡ true)

  cancel_order-Forgets : (id : ℕ) (x : Exchange F) → Forgets x (cancel_order id x).0
  unfolding cancel_order has_symbol
  cancel_order-Forgets id x = elim (Option-cases (find_book_for_order id x)) [
    | inl e ↦ rw (cancel_order, e) ((λ k h. h), (λ s h. h))
    | inr ((symbol, b), e) ↦
        let b' = (MatchingEngine.cancel_order b id).0 in
        elim (Bool-cases (MatchingEngine.cancel_order b id).1) [
          | inl f ↦
              rw (cancel_order, e, f)
                (
                  (λ k h. erase-unknown id k x.global_order_index h),
                  (λ s h. insert-listed symbol s b' x.books h),
                )
          | inr f ↦
              rw (cancel_order, e, f) ((λ k h. h), (λ s h. insert-listed symbol s b' x.books h))
        ]
  ]

  Forgets-trans : (x y z : Exchange F) → Forgets x y → Forgets y z → Forgets x z
  Forgets-trans x y z h k = ((λ i p. k.0 i (h.0 i p)), (λ s p. k.1 s (h.1 s p)))

  cancel_quote-Forgets : (id : ℕ) (x : Exchange F) → Forgets x (cancel_quote id x)
  unfolding cancel_quote
  cancel_quote-Forgets id x = elim (Bool-cases (id == 0)) [
    | inl e ↦ rw (cancel_quote, e) ((λ k h. h), (λ s h. h))
    | inr e ↦ rw (cancel_quote, e) (cancel_order-Forgets id x)
  ]

  pub on_tick-Forgets :
      (acquired : ℕ → Order F) (book : OrderBook F) (ts : ℕ) (m : MarketMaker F) (x : Exchange F)
      → Forgets x (on_tick acquired book ts m x).1
  unfolding on_tick withdraw_quotes
  on_tick-Forgets acquired book ts m x = elim (Bool-cases (d.le (mid_price book) (number 0))) [
    | inl e ↦ rw (on_tick, e) ((λ k h. h), (λ s h. h))
    | inr e ↦
        let y = cancel_quote m.active_bid_id x in
        rw (on_tick, e)
          (Forgets-trans x y (cancel_quote m.active_ask_id y)
            (cancel_quote-Forgets m.active_bid_id x) (cancel_quote-Forgets m.active_ask_id y))
  ]
