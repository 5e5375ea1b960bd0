-- ===== src/MatchingEngine/Crossing.antt =====
-- matching/matching_engine.cpp: submissions and books in which no bid meets an ask.
use cpp_matching_engine.Prelude.{
  some_injective, ℕ, ◌<◌, ◌≡◌, inl, inr, refl, Bool, true, false, not, ◌&&◌, List, [], ◌∷◌, nat_eq,
  All, All-append, All-impl, Bool-cases, ap, ◌∙◌, sym, zero-cases, none, some, subst, lt→ltb,
  List-cases,
}
use cpp_matching_engine.Prelude.Map
use cpp_matching_engine.Double.{Double, IsOrdered}
use cpp_matching_engine.Types.{
  Side, buy, sell, opposite, Order, OrderType, limit, market, TimeInForce, gtc, ioc, fok, is_fok,
  remaining,
}
use cpp_matching_engine.OrderBook.{OrderBook, LevelMap, levels}
use cpp_matching_engine.OrderBook.Valid.{queue, IsResting, AreLevels, IsValid}
use cpp_matching_engine.OrderBook.Sides.{side_queue, side-AreLevels}
use cpp_matching_engine.PriceTime.{Queue, enqueue}
use cpp_matching_engine.MatchingEngine.{
  MatchingEngine, Match, stop_test, can_fill_completely, submit_order,
}
use cpp_matching_engine.MatchingEngine.Sweep.{Sweep, IsSized, sweep}
use cpp_matching_engine.MatchingEngine.Trading.{Trades}
use cpp_matching_engine.MatchingEngine.Quantities.{Trades-SameTerms}
use cpp_matching_engine.MatchingEngine.Submitting.{Outcome, leave, settle, accepted, counted}
use cpp_matching_engine.Levels.{before}
use cpp_matching_engine.MatchingEngine.{beyond}
use cpp_matching_engine.MatchingEngine.Trading.{
  done, exhausted, beyond_limit, takes, takes_part, traded, fill_order-SameTerms,
}
use cpp_matching_engine.MatchingEngine.Quantities.{StopsAt, Trades-StopsAt}
use cpp_matching_engine.MatchingEngine.Outcomes.{
  facing_queue, price_stop, submit_order-outcome, accepted-Trades, submit_order-swept,
  settle-remaining,
}
use cpp_matching_engine.MatchingEngine.FillOrKill.{submit_order-killed}
use cpp_matching_engine.OrderBook.Valid.{Follows-queue}

-- Every order of one queue is priced short of every order of the other.
abbrev pub Apart : {F : Type 0} ⦃d : Double F⦄ → Side → Queue F → Queue F → Type 0
Apart side own facing = All (λ x. All (λ y. beyond side x.price y.price ≡ true) facing) own

-- Each bid is below each ask.
abbrev pub IsUncrossed : {F : Type 0} ⦃d : Double F⦄ → OrderBook F → Type 0
IsUncrossed b = Apart buy (queue b.bids) (queue b.asks)

All-unit {ℓ κ} : {A : Type ℓ} (ys : List A) → All (λ y. Unit {κ}) ys
All-unit [] = tt
All-unit (y ∷ ys) = (tt, All-unit ys)

All-zip {ℓ κ μ} :
    {A : Type ℓ} (P : A → Type κ) (Q : A → Type μ) (ys : List A)
    → All P ys
    → All Q ys
    → All (λ y. P y × Q y) ys
All-zip P Q [] p q = tt
All-zip P Q (y ∷ ys) p q = ((p.0, q.0), All-zip P Q ys p.1 q.1)

All-swap {ℓ} :
    {A B : Type ℓ} (R : A → B → Type ℓ) (xs : List A) (ys : List B)
    → All (λ x. All (R x) ys) xs
    → All (λ y. All (λ x. R x y) xs) ys
All-swap R [] ys h = All-unit ys
All-swap R (x ∷ xs) ys h = All-zip (R x) (λ y. All (λ z. R z y) xs) ys h.0 (All-swap R xs ys h.1)

module _ {F : Type 0} ⦃d : Double F⦄ where
  Apart-side :
      (side : Side) (b : OrderBook F)
      → IsUncrossed b
      → Apart side (side_queue side b) (side_queue (opposite side) b)
  Apart-side buy b h = h
  Apart-side sell b h = All-swap _ (queue b.bids) (queue b.asks) h

  Apart-book :
      (side : Side) (b : OrderBook F)
      → Apart side (side_queue side b) (side_queue (opposite side) b)
      → IsUncrossed b
  Apart-book buy b h = h
  Apart-book sell b h = All-swap _ (queue b.asks) (queue b.bids) h

  -- A sweep keeps what holds of the prices.
  Trades-All :
      {now_ns : ℕ → ℕ} {stop : F → Bool} {o : Order F} {q : Queue F} {e : MatchingEngine F}
      {t : Sweep F} (P : F → Type 0)
      → Trades now_ns stop o q e t
      → All (λ y. P y.price) q
      → All (λ y. P y.price) t.queue
  Trades-All P (done o q e t so h p) a = rw p a
  Trades-All P (exhausted o e t so p) a = rw p tt
  Trades-All P (beyond_limit o r q e t so h p) a = rw p a
  Trades-All P (takes o r q e t so sr more go fits rest) a = Trades-All P rest a.1
  Trades-All P (takes_part o r q e t so sr more go part p) a =
      rw p (subst P (sym (fill_order-SameTerms (traded o r) r).price) a.0, a.1)

  enqueue-All :
      (P : Order F → Type 0) (side : Side) (o : Order F) (q : Queue F)
      → P o
      → All P q
      → All P (enqueue side o q)
  unfolding enqueue
  enqueue-All P side o [] p a = (p, tt)
  enqueue-All P side o (x ∷ q) p a = elim (Bool-cases (before side o.price x.price)) [
    | inl e ↦ rw e (p, a)
    | inr e ↦ rw e (a.0, enqueue-All P side o q p a.1)
  ]

  settle-All :
      (P : Order F → Type 0) (type : OrderType) (tif : TimeInForce) (t : Sweep F) (own : Queue F)
      → All P own
      → (type ≡ limit → (0 < remaining t.order) → P t.order)
      → All P (settle type tif t own).own
  settle-All P type tif t own a p = elim (zero-cases (remaining t.order)) [
    | inl e ↦ rw e a
    | inr more ↦ rw (lt→ltb _ _ more) (left type tif (λ e. p e more))
  ]
    where
      left :
          (type : OrderType) (tif : TimeInForce)
          → (type ≡ limit → P t.order)
          → All P (leave type tif t.order own).1
      left market tif p = a
      left limit gtc p = enqueue-All P t.order.side t.order own (p refl) a
      left limit ioc p = a
      left limit fok p = a

module _ {F : Type 0} ⦃d : Double F⦄ (ord : IsOrdered F) where
  beyond_further :
      (side : Side) (p j k : F)
      → beyond side p j ≡ true
      → before (opposite side) j k ≡ true
      → beyond side p k ≡ true
  beyond_further buy p j k h f = ord.lt_trans p j k h f
  beyond_further sell p j k h f = ord.lt_trans k j p f h

  -- Where the best order is beyond a limit, the whole queue is.
  StopsAt-All :
      (side : Side) (p : F) (m : LevelMap F)
      → AreLevels (opposite side) m
      → StopsAt (beyond side p) (queue m)
      → All (λ y. beyond side p y.price ≡ true) (queue m)
  unfolding queue
  StopsAt-All side p [] v h = tt
  StopsAt-All side p ((k, l) ∷ m) v h = elim (List-cases l.orders) [
    | inl none_left ↦ let p = (rw none_left at v.1) in cc
    | inr (r, rs, e) ↦
        let first : beyond side p r.price ≡ true = (rw e at h) in
        let resting : IsResting (opposite side) k r × All (IsResting (opposite side) k) rs =
          (rw e at v.0.resting) in
        let here : beyond side p k ≡ true =
          subst (λ x. beyond side p x ≡ true) resting.0.at_price first in
        All-append _ l.orders (queue m)
          (All-impl l.orders (λ o i. subst (λ x. beyond side p x ≡ true) (sym i.at_price) here)
            v.0.resting)
          (All-impl (queue m) (λ o f. beyond_further side p k o.price here f)
            (Follows-queue ord (opposite side) k m v.3 v.2))
  ]

module _ {F : Type 0} ⦃d : Double F⦄ (ord : IsOrdered F) (now_ns : ℕ → ℕ) (e : MatchingEngine F)
    (o : Order F) (b : OrderBook F) (v : IsValid b) (sized : IsSized o)
    (absent : Map.find o.order_id b.order_index ≡ none) where
  swept-Apart :
      (t : Match F)
      → is_fok o.tif && not (can_fill_completely (accepted o) b) ≡ false
      → submit_order now_ns e o b ≡ some t
      → Apart o.side (side_queue o.side b) (side_queue (opposite o.side) b)
      → Apart o.side (side_queue o.side t.book) (side_queue (opposite o.side) t.book)
  swept-Apart t go h apart =
      let (valid, _) = submit_order-outcome ord now_ns e o b v sized absent h in
      let same = submit_order-swept ord now_ns e o b v sized absent go h in
      let swept = sweep now_ns (price_stop o) (accepted o) (facing_queue o b) (counted e) in
      let trades = accepted-Trades ord now_ns e o b v sized absent in
      let facing_eq : side_queue (opposite o.side) t.book ≡ swept.queue =
        ap (λ (x : Outcome F). x.facing) same
        ∙ (settle-remaining o.type o.tif swept (side_queue o.side b)).1 in
      let own_eq = ap (λ (x : Outcome F). x.own) same in
      let Below : Order F → Type 0 =
        λ x. All (λ y. beyond o.side x.price y.price ≡ true) swept.queue in
      let kept : All Below (side_queue o.side b) =
        All-impl (side_queue o.side b)
          (λ x a. Trades-All (λ p. beyond o.side x.price p ≡ true) trades a) apart in
      let posted : o.type ≡ limit → (0 < remaining swept.order) → Below swept.order = λ is more.
        let stops : StopsAt (beyond o.side o.price) swept.queue =
          subst (λ x. StopsAt (stop_test x o.side o.price) swept.queue) is
            (Trades-StopsAt trades more) in
        let above : All (λ y. beyond o.side o.price y.price ≡ true) swept.queue =
          subst (λ q. All (λ y. beyond o.side o.price y.price ≡ true) q) facing_eq
            (StopsAt-All ord o.side o.price (levels (opposite o.side) t.book)
              (side-AreLevels (opposite o.side) t.book valid)
              (subst (StopsAt (beyond o.side o.price)) (sym facing_eq) stops)) in
        subst (λ p. All (λ y. beyond o.side p y.price ≡ true) swept.queue)
          (sym (Trades-SameTerms trades).0.price) above in
      subst (λ q. Apart o.side q (side_queue (opposite o.side) t.book)) (sym own_eq)
        (subst (λ q. Apart o.side (settle o.type o.tif swept (side_queue o.side b)).own q)
          (sym facing_eq) (settle-All Below o.type o.tif swept (side_queue o.side b) kept posted))

  -- Whatever submit_order returns for an order that is not overfilled, with an id that does not
  -- rest in the valid and uncrossed book it starts from, has a book in which every bid is priced
  -- below every ask.
  pub submit_order-IsUncrossed :
      IsUncrossed b → (t : Match F) → submit_order now_ns e o b ≡ some t → IsUncrossed t.book
  submit_order-IsUncrossed uncrossed t h =
      let apart = Apart-side o.side b uncrossed in
      Apart-book o.side t.book
        (elim (Bool-cases (is_fok o.tif && not (can_fill_completely (accepted o) b))) [
          | inl stopped ↦
              let same = some_injective (sym h ∙ submit_order-killed ord now_ns e o b stopped) in
              subst
                (λ (x : Match F).
                  Apart o.side (side_queue o.side x.book) (side_queue (opposite o.side) x.book))
                (sym same) apart
          | inr go ↦ swept-Apart t go h apart
        ])
