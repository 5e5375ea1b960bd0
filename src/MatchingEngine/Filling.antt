-- ===== src/MatchingEngine/Filling.antt =====
-- One `execute_fill` at the front of the best level.
use cpp_matching_engine.Prelude.{
  ℕ, ◌+◌, ◌≤◌, ◌≡◌, inl, inr, false, List, ◌∷◌, ◌++◌, arith, if◌then◌else◌, min, ◌==◌, nat_eq, All,
  Bool-cases, add64, neg64, ap,
}
use cpp_matching_engine.Prelude.Map
use cpp_matching_engine.Prelude.Map.{Map}
use cpp_matching_engine.Double.{Double, IsOrdered}
use cpp_matching_engine.Types.{Side, buy, sell, opposite, Order, remaining}
use cpp_matching_engine.Levels
use cpp_matching_engine.OrderBook.{
  OrderBook, PriceLevel, LevelMap, OrderLocation, levels, update_qty,
}
use cpp_matching_engine.OrderBook.Valid.{IsResting, remaining-lt, IsLevel, before_irrefl}
use cpp_matching_engine.PriceTime.{Queue, first_some, count, locate, open_qty, locate-eq-none}
use cpp_matching_engine.MatchingEngine.{
  Match, fill_order, set_front, pop_front, fill_book, execute_fill, record_fill,
}
use cpp_matching_engine.MatchingEngine.Sweep.{IsSized, fill_order-remaining}

-- The ids and the index fit two queues, those of the side in hand and of the other.
abbrev pub Fits : {F : Type 0} → Map ℕ (OrderLocation F) → Queue F → Queue F → Type 0
Fits index q r =
    (id : ℕ)
    → (count id q + count id r ≤ 1) × (Map.find id index ≡ first_some (locate id q) (locate id r))

module _ {F : Type 0} where
  -- The orders and the level that a fill of `n` leaves, for `resting` after the fill.
  abbrev pub left_over : Order F → List (Order F) → List (Order F)
  left_over resting rs = if remaining resting == 0 then rs else resting ∷ rs

  pub left_over-append :
      (resting : Order F) (rs q : List (Order F))
      → (if remaining resting == 0 then rs ++ q else resting ∷ (rs ++ q))
        ≡ left_over resting rs ++ q
  left_over-append resting rs q = ground arith

  abbrev pub filled_level : ℕ → Order F → List (Order F) → PriceLevel F → PriceLevel F
  filled_level n resting rs l = record l {
    total_qty = add64 l.total_qty (neg64 n);
    orders = left_over resting rs;
  }

  abbrev pub filled_index : Order F → Map ℕ (OrderLocation F) → Map ℕ (OrderLocation F)
  filled_index resting index =
      if remaining resting == 0 then Map.erase resting.order_id index else index

module _ {F : Type 0} ⦃d : Double F⦄ (ord : IsOrdered F) where
  adjust_best :
      (side : Side) (k : F) (f : PriceLevel F → PriceLevel F) (l : PriceLevel F) (m : LevelMap F)
      → Levels.adjust side k f ((k, l) ∷ m) ≡ (k, f l) ∷ m
  unfolding Levels.adjust
  adjust_best side k f l m = ground (arith, before_irrefl ord side k)

  pub fill_book-parts :
      (side : Side) (k : F) (n : ℕ) (r x : Order F) (rs : List (Order F)) (l : PriceLevel F)
      (m : LevelMap F) (b : OrderBook F)
      → levels side b ≡ (k, l) ∷ m
      → l.orders ≡ x ∷ rs
      → let b' = fill_book side r k n b in
        (levels side b' ≡ (k, filled_level n r rs l) ∷ m)
        × (levels (opposite side) b' ≡ levels (opposite side) b)
        × (b'.order_index ≡ filled_index r b.order_index)
  unfolding fill_book update_qty set_front pop_front Levels.adjust
  fill_book-parts buy k n r x rs l m b h e = ground (arith, before_irrefl ord buy k)
  fill_book-parts sell k n r x rs l m b h e = ground (arith, before_irrefl ord sell k)

module _ {F : Type 0} ⦃d : Double F⦄ (now_ns : ℕ → ℕ) (side : Side) where
  -- The match after a fill of an order of the side at the price `k`.
  abbrev pub filled_match : Match F → Order F → F → Match F
  filled_match s r k =
      let n = min (remaining s.order) (remaining r) in
      record {
        order = fill_order n s.order;
        book = fill_book side (fill_order n r) k n s.book;
        engine = record_fill now_ns (fill_order n s.order) (fill_order n r) n k s.engine;
      }

  pub execute_fill-eq :
      (s : Match F) (r : Order F) (k : F)
      → r.side ≡ side
      → execute_fill now_ns r k s ≡ filled_match s r k
  unfolding execute_fill
  execute_fill-eq s r k e =
      let n = min (remaining s.order) (remaining r) in
      ap
        (λ (x : Side). record {
          order = fill_order n s.order;
          book = fill_book x (fill_order n r) k n s.book;
          engine = record_fill now_ns (fill_order n s.order) (fill_order n r) n k s.engine;
        })
        e

module _ {F : Type 0} where
  pub resting-IsSized : (side : Side) (k : F) (r : Order F) → IsResting side k r → IsSized r
  resting-IsSized side k r v = omega arith

  filled-IsResting :
      (side : Side) (k : F) (n : ℕ) (r : Order F)
      → IsResting side k r
      → n ≤ remaining r
      → (remaining (fill_order n r) == 0) ≡ false
      → IsResting side k (fill_order n r)
  filled-IsResting side k n r v h more =
      let (sized, left, _, _) = fill_order-remaining n r (resting-IsSized side k r v) h in
      unfold fill_order remaining in
      record {
        on_side = v.on_side;
        at_price = v.at_price;
        is_limit = v.is_limit;
        is_open = ground (arith, left, sized, more);
        fits = v.fits;
      }

  left_over-IsLevel :
      (side : Side) (k : F) (n : ℕ) (r : Order F) (rs : List (Order F))
      → All (IsResting side k) (r ∷ rs)
      → n ≤ remaining r
      → All (IsResting side k) (left_over (fill_order n r) rs)
        × (open_qty (left_over (fill_order n r) rs) + n ≡ open_qty (r ∷ rs))
  unfolding open_qty
  left_over-IsLevel side k n r rs v h =
      let (sized, left, _, _) = fill_order-remaining n r (resting-IsSized side k r v.0) h in
      elim (Bool-cases (remaining (fill_order n r) == 0)) [
        | inl e ↦ rw e (v.1, ground arith)
        | inr e ↦ rw e ((filled-IsResting side k n r v.0 h e, v.1), ground arith)
      ]

  -- The total of the level stays that of its orders.
  pub filled_level-IsLevel :
      (side : Side) (k : F) (n : ℕ) (r : Order F) (rs : List (Order F)) (l : PriceLevel F)
      → IsLevel side k l
      → l.orders ≡ r ∷ rs
      → n ≤ remaining r
      → IsLevel side k (filled_level n (fill_order n r) rs l)
  filled_level-IsLevel side k n r rs l v e h =
      let (resting, sum) = left_over-IsLevel side k n r rs (rw e at v.resting) h in
      let small = remaining-lt r in
      record {
        keyed = v.keyed;
        totalled = omega (arith, v.totalled, ap open_qty e);
        resting = resting;
      }

  pub filled-Fits :
      (n : ℕ) (r : Order F) (rs q other : Queue F) (index : Map ℕ (OrderLocation F))
      → Fits index ((r ∷ rs) ++ q) other
      → Fits (filled_index (fill_order n r) index) (left_over (fill_order n r) rs ++ q) other
  filled-Fits n r rs q other index f id = elim (Bool-cases (remaining (fill_order n r) == 0)) [
    | inl e ↦
        rw (e, Map.find-erase)
          (unfold fill_order count locate in
            ground (arith, f id, locate-eq-none id (rs ++ q), locate-eq-none id other))
    | inr e ↦ rw e (unfold fill_order count locate in ground (arith, f id))
  ]
