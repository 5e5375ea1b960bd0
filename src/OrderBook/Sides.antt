-- ===== src/OrderBook/Sides.antt =====
-- The book seen from one of its sides, so that what holds on both is proved once.
use cpp_matching_engine.Prelude.{ℕ, ◌+◌, ◌≤◌, ◌≡◌, ◌∙◌, sym, subst, arith, nat_eq, none}
use cpp_matching_engine.Prelude.Map
use cpp_matching_engine.Double.{Double}
use cpp_matching_engine.Types.{Side, buy, sell, opposite}
use cpp_matching_engine.OrderBook.{OrderBook, levels}
use cpp_matching_engine.OrderBook.Valid.{queue, AreLevels, IsValid}
use cpp_matching_engine.PriceTime.{first_some, count, locate, locate-eq-none, count-eq-zero, Queue}

module _ {F : Type 0} where
  abbrev pub side_queue : Side → OrderBook F → Queue F
  side_queue side b = queue (levels side b)

  first_some_swap :
      (id : ℕ) (q r : Queue F)
      → count id q + count id r ≤ 1
      → first_some (locate id q) (locate id r) ≡ first_some (locate id r) (locate id q)
  first_some_swap id q r h = ground (arith, locate-eq-none id q, locate-eq-none id r)

module _ {F : Type 0} ⦃d : Double F⦄ where
  pub side-AreLevels : (side : Side) (b : OrderBook F) → IsValid b → AreLevels side (levels side b)
  side-AreLevels buy b v = v.bid_levels
  side-AreLevels sell b v = v.ask_levels

  pub side_unique :
      (side : Side) (b : OrderBook F) (id : ℕ)
      → IsValid b
      → count id (side_queue side b) + count id (side_queue (opposite side) b) ≤ 1
  side_unique buy b id v = v.unique id
  side_unique sell b id v = omega (arith, v.unique id)

  pub side_indexed :
      (side : Side) (b : OrderBook F) (id : ℕ)
      → IsValid b
      → Map.find id b.order_index
        ≡ first_some (locate id (side_queue side b)) (locate id (side_queue (opposite side) b))
  side_indexed buy b id v = v.indexed id
  side_indexed sell b id v =
      v.indexed id ∙ first_some_swap id (queue b.bids) (queue b.asks) (v.unique id)

  -- An id that the index does not hold is in neither queue.
  pub absent-count :
      (side : Side) (b : OrderBook F) (id : ℕ)
      → IsValid b
      → Map.find id b.order_index ≡ none
      → count id (side_queue side b) + count id (side_queue (opposite side) b) ≡ 0
  absent-count side b id v h =
      let q = side_queue side b in
      let r = side_queue (opposite side) b in
      ground (arith, side_indexed side b id v, count-eq-zero id q, count-eq-zero id r)

  -- A book is valid if one of its sides is sound, the other is that of a valid book, and the ids and
  -- the index fit the two.
  pub rebuild-IsValid :
      (side : Side) (b b' : OrderBook F)
      → IsValid b
      → AreLevels side (levels side b')
      → levels (opposite side) b' ≡ levels (opposite side) b
      → ((id : ℕ)
          → (count id (side_queue side b') + count id (side_queue (opposite side) b) ≤ 1)
            × (Map.find id b'.order_index
                ≡ first_some
                    (locate id (side_queue side b'))
                    (locate id (side_queue (opposite side) b))))
      → IsValid b'
  rebuild-IsValid buy b b' v s e ids = record {
    bid_levels = s;
    ask_levels = subst (AreLevels sell) (sym e) v.ask_levels;
    unique =
        λ id. subst (λ m. count id (queue b'.bids) + count id (queue m) ≤ 1) (sym e) (ids id).0;
    indexed = λ id.
        subst
          (λ m.
            Map.find id b'.order_index
            ≡ first_some (locate id (queue b'.bids)) (locate id (queue m)))
          (sym e) (ids id).1;
  }
  rebuild-IsValid sell b b' v s e ids = record {
    bid_levels = subst (AreLevels buy) (sym e) v.bid_levels;
    ask_levels = s;
    unique = λ id.
        subst (λ m. count id (queue m) + count id (queue b'.asks) ≤ 1) (sym e)
          (omega (arith, (ids id).0));
    indexed = λ id.
        subst
          (λ m.
            Map.find id b'.order_index
            ≡ first_some (locate id (queue m)) (locate id (queue b'.asks)))
          (sym e) ((ids id).1 ∙ first_some_swap id (queue b'.asks) (queue b.bids) (ids id).0);
  }
