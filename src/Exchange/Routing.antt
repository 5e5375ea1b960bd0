-- ===== src/Exchange/Routing.antt =====
-- exchange/exchange.cpp: the global index, the books and `cancel_order`.
use cpp_matching_engine.Prelude.{
  ℕ, ◌+◌, ◌<◌, ◌≡◌, ◌≢◌, refl, true, false, List, none, some, ◌⊎◌, inl, inr, if◌then◌else◌, ◌==◌,
  nat_eq, list_eq, arith, Bool-cases, Option-cases, some_injective, ap, sym, ◌∙◌, subst, zero-cases,
}
use cpp_matching_engine.Prelude.Map
use cpp_matching_engine.Double.{Double, IsOrdered}
use cpp_matching_engine.OrderBook.{OrderBook}
use cpp_matching_engine.OrderBook.Valid.{queue, IsValid}
use cpp_matching_engine.OrderBook.Cancelling.{cancel_order-withdraw}
use cpp_matching_engine.PriceTime.{count, count-withdraw}
use cpp_matching_engine.MatchingEngine
use cpp_matching_engine.Exchange.{Exchange, find_book_for_order, cancel_order}

module _ {F : Type 0} where
  -- How often an id rests in a book.
  abbrev pub resting : ℕ → OrderBook F → ℕ
  resting id b = count id (queue b.bids) + count id (queue b.asks)

  pub found_book :
      (id : ℕ) (x : Exchange F) (symbol : List ℕ) (b : OrderBook F)
      → find_book_for_order id x ≡ some (symbol, b)
      → (Map.find id x.global_order_index ≡ some symbol) × (Map.find symbol x.books ≡ some b)
  unfolding find_book_for_order
  found_book id x symbol b h = elim (Option-cases (Map.find id x.global_order_index)) [
    | inl e ↦ let p = (rw e at h) in cc
    | inr (s, e) ↦ elim (Option-cases (Map.find s x.books)) [
      | inl k ↦ let p = (rw (e, k) at h) in cc
      | inr (c, k) ↦
          let p : some (s, c) ≡ some (symbol, b) = (rw (e, k) at h) in
          let q = some_injective p in
          let q0 : s ≡ symbol = ap (λ r. r.0) q in
          let q1 : c ≡ b = ap (λ r. r.1) q in
          (
            e ∙ ap (λ r. some r) q0,
            subst (λ r. Map.find r x.books ≡ some b) q0 (k ∙ ap (λ r. some r) q1),
          )
    ]
  ]

  pub finds_book :
      (id : ℕ) (x : Exchange F) (symbol : List ℕ) (b : OrderBook F)
      → Map.find id x.global_order_index ≡ some symbol
      → Map.find symbol x.books ≡ some b
      → find_book_for_order id x ≡ some (symbol, b)
  unfolding find_book_for_order
  finds_book id x symbol b h k = rw (find_book_for_order, h, k) refl

module _ {F : Type 0} ⦃d : Double F⦄ where
  pub record IsRouted (x : Exchange F) : Type 0 where
    pub books_valid :
        (symbol : List ℕ) (b : OrderBook F) → Map.find symbol x.books ≡ some b → IsValid b
    pub routed :
        (symbol : List ℕ) (b : OrderBook F) (id : ℕ)
        → Map.find symbol x.books ≡ some b
        → 0 < resting id b
        → Map.find id x.global_order_index ≡ some symbol

  -- A book put in the place of another.
  pub replaced_book :
      (s s' : List ℕ) (b c : OrderBook F) (x : Exchange F)
      → Map.find s' (Map.insert s b x.books) ≡ some c
      → ((s ≡ s') × (b ≡ c)) ⊎ ((s ≢ s') × (Map.find s' x.books ≡ some c))
  replaced_book s s' b c x h = elim (Bool-cases (s == s')) [
    | inl e ↦
        let p : some b ≡ some c = (rw e at (sym (Map.find-insert s s' b x.books) ∙ h)) in
        inl ((list_eq.same_iff s s').0 e, some_injective p)
    | inr e ↦
        let p : Map.find s' x.books ≡ some c =
          (rw e at (sym (Map.find-insert s s' b x.books) ∙ h)) in
        inr (λ q. let r = sym e ∙ (list_eq.same_iff s s').1 q in cc, p)
  ]

  -- A book in the place of another keeps the routing, if the index knows its orders and has kept the
  -- entries of the other books.
  pub replace-IsRouted :
      (s : List ℕ) (b : OrderBook F) (x y : Exchange F)
      → IsRouted x
      → IsValid b
      → y.books ≡ Map.insert s b x.books
      → ((id : ℕ) → (0 < resting id b) → Map.find id y.global_order_index ≡ some s)
      → ((id : ℕ) (s' : List ℕ)
          → s ≢ s'
          → Map.find id x.global_order_index ≡ some s'
          → Map.find id y.global_order_index ≡ some s')
      → IsRouted y
  replace-IsRouted s b x y v valid same here others = record {
    books_valid = λ s' c h.
        elim (replaced_book s s' b c x (sym (ap (λ m. Map.find s' m) same) ∙ h)) [
          | inl (p, q) ↦ subst IsValid q valid
          | inr (p, q) ↦ v.books_valid s' c q
        ];
    routed = λ s' c id h more.
        elim (replaced_book s s' b c x (sym (ap (λ m. Map.find s' m) same) ∙ h)) [
          | inl (p, q) ↦ here id (subst (λ r. 0 < resting id r) (sym q) more) ∙ ap (λ r. some r) p
          | inr (p, q) ↦ others id s' p (v.routed s' c id q more)
        ];
  }

  module _ (ord : IsOrdered F) (id : ℕ) (x : Exchange F) (v : IsRouted x) where
    -- A cancel that the index cannot route concerns no order that rests.
    unrouted-resting :
        find_book_for_order id x ≡ none
        → (symbol : List ℕ) (b : OrderBook F) → Map.find symbol x.books ≡ some b
        → resting id b ≡ 0
    unrouted-resting h symbol b k = elim (zero-cases (resting id b)) [
      | inl e ↦ e
      | inr more ↦
          let p = sym h ∙ finds_book id x symbol b (v.routed symbol b id k more) k in absurd cc
    ]

    pub cancel_order-removed :
        (symbol : List ℕ) (b : OrderBook F)
        → find_book_for_order id x ≡ some (symbol, b)
        → let (b', removed) = MatchingEngine.cancel_order b id in
          let y = (cancel_order id x).0 in
          (y.books ≡ Map.insert symbol b' x.books)
          × ((cancel_order id x).1 ≡ removed)
          × (y.global_order_index
              ≡ (if removed then Map.erase id x.global_order_index else x.global_order_index))
    unfolding cancel_order
    cancel_order-removed symbol b h = elim (Bool-cases (MatchingEngine.cancel_order b id).1) [
      | inl e ↦ rw (cancel_order, h, e) (refl, refl, refl)
      | inr e ↦ rw (cancel_order, h, e) (refl, refl, refl)
    ]

    -- The entries of a routed cancel's index, before and after.
    cancel_order-index :
        (symbol : List ℕ) (b : OrderBook F)
        → find_book_for_order id x ≡ some (symbol, b)
        → (k : ℕ) (s : List ℕ) → k ≢ id
        → Map.find k x.global_order_index ≡ some s
        → Map.find k (cancel_order id x).0.global_order_index ≡ some s
    cancel_order-index symbol b h k s other old =
        let (_, _, index) = cancel_order-removed symbol b h in
        let differs : (id == k) ≡ false = ground (arith, other) in
        elim (Bool-cases (MatchingEngine.cancel_order b id).1) [
          | inl e ↦
              ap (λ m. Map.find k m) (index ∙ rw e refl)
              ∙ Map.find-erase id k x.global_order_index
              ∙ rw differs old
          | inr e ↦ ap (λ m. Map.find k m) (index ∙ rw e refl) ∙ old
        ]

    -- What the engine's cancel does to a book, by counts.
    pub cancelled-resting :
        (b : OrderBook F)
        → IsValid b
        → let (b', removed) = MatchingEngine.cancel_order b id in
          IsValid b'
          × ((k : ℕ) → resting k b' ≡ (if id == k then 0 else resting k b))
          × ((0 < resting id b) → removed ≡ true)
    unfolding MatchingEngine.cancel_order
    cancelled-resting b w =
        let (valid, bids, asks, said) = cancel_order-withdraw ord id b w in
        (
          valid,
          λ k.
              let at_bids = ap (count k) bids ∙ count-withdraw id k (queue b.bids) in
              let at_asks = ap (count k) asks ∙ count-withdraw id k (queue b.asks) in ground arith,
          λ more. said.1 (omega (arith, w.unique id)),
        )

    -- On an exchange with valid books whose global index knows the book of every order that
    -- rests, cancel_order leaves such an exchange, no book of which holds the order, and it
    -- returns true if the order rested in a book.
    pub cancel_order-IsRouted :
        let (y, removed) = cancel_order id x in
        IsRouted y
        × ((symbol : List ℕ) (b : OrderBook F)
            → Map.find symbol y.books ≡ some b
            → resting id b ≡ 0)
        × ((symbol : List ℕ) (b : OrderBook F)
            → Map.find symbol x.books ≡ some b
            → 0 < resting id b
            → removed ≡ true)
    unfolding cancel_order
    cancel_order-IsRouted = elim (Option-cases (find_book_for_order id x)) [
      | inl h ↦
          rw (cancel_order, h)
            (v, unrouted-resting h, λ s b k more. absurd (omega (arith, unrouted-resting h s b k)))
      | inr ((symbol, b), h) ↦
          let (at_id, at_symbol) = found_book id x symbol b h in
          let (valid, left, said) = cancelled-resting b (v.books_valid symbol b at_symbol) in
          let (books, answer, _) = cancel_order-removed symbol b h in
          let b' = (MatchingEngine.cancel_order b id).0 in
          let gone : resting id b' ≡ 0 = left id ∙ rw (Map.eq_refl id) refl in
          let one : (s : List ℕ) → Map.find id x.global_order_index ≡ some s → symbol ≡ s =
            λ s k. some_injective (sym at_id ∙ k) in
          (
            replace-IsRouted symbol b' x (cancel_order id x).0 v valid books
                (λ k more.
                  let known = v.routed symbol b k at_symbol (ground (arith, left k)) in
                  cancel_order-index symbol b h k symbol
                    (λ e. absurd (omega (arith, subst (λ r. 0 < resting r b') e more, gone))) known)
                (λ k s other old.
                  cancel_order-index symbol b h k s
                    (λ e.
                      other (one s (subst (λ r. Map.find r x.global_order_index ≡ some s) e old)))
                    old),
            λ s c k. elim (replaced_book symbol s b' c x (sym (ap (λ m. Map.find s m) books) ∙ k)) [
              | inl (p, q) ↦ sym (ap (resting id) q) ∙ gone
              | inr (p, q) ↦ elim (zero-cases (resting id c)) [
                | inl e ↦ e
                | inr more ↦ absurd (p (one s (v.routed s c id q more)))
              ]
            ],
            λ s c k more.
                let same = one s (v.routed s c id k more) in
                let here : b ≡ c =
                  some_injective
                    (sym at_symbol ∙ subst (λ r. Map.find r x.books ≡ some c) (sym same) k) in
                answer ∙ said (subst (λ r. 0 < resting id r) (sym here) more),
          )
    ]
