-- ===== src/Exchange/ReducingQueue.antt =====
-- exchange/exchange.cpp: the reduction of a quantity, on a queue of orders.
use cpp_matching_engine.Prelude.{
  ℕ, ◌+◌, ◌-◌, ◌<◌, ◌≡◌, inl, inr, refl, [], ◌∷◌, ◌++◌, some, ◌==◌, nat_eq, arith, Bool-cases,
  some_injective, ap, sym, subst, All, sub32,
}
use cpp_matching_engine.Types.{Side, Order, remaining}
use cpp_matching_engine.OrderBook.{is_empty}
use cpp_matching_engine.OrderBook.Valid.{IsResting, IsResting-remaining}
use cpp_matching_engine.PriceTime.{Queue, count, locate, open_qty}
use cpp_matching_engine.Exchange.{find_order, reduce_order}

module _ {F : Type 0} (id n : ℕ) where
  abbrev reduced : Order F → Order F
  reduced o = record o { quantity = sub32 o.quantity n }

  reduced-IsResting :
      (side : Side) (k : F) (o : Order F)
      → IsResting side k o
      → n < remaining o
      → IsResting side k (reduced o) × (remaining (reduced o) + n ≡ remaining o)
  unfolding remaining
  reduced-IsResting side k o v h =
      let (left, _, _) = IsResting-remaining side k o v in
      let quantity : sub32 o.quantity n ≡ o.quantity - n = omega (arith, v.fits) in
      let started = v.is_open in
      (
        record {
          on_side = v.on_side;
          at_price = v.at_price;
          is_limit = v.is_limit;
          is_open = omega (arith, v.fits);
          fits = omega (arith, v.fits);
        },
        omega (arith, v.fits),
      )

  pub count-reduce_order : (k : ℕ) (q : Queue F) → count k (reduce_order id n q) ≡ count k q
  unfolding count reduce_order
  count-reduce_order k [] = refl
  count-reduce_order k (o ∷ q) = ground (arith, count-reduce_order k q)

  pub locate-reduce_order : (k : ℕ) (q : Queue F) → locate k (reduce_order id n q) ≡ locate k q
  unfolding locate reduce_order
  locate-reduce_order k [] = refl
  locate-reduce_order k (o ∷ q) = ground (arith, locate-reduce_order k q)

  pub find_order-count : (q : Queue F) (t : Order F) → find_order id q ≡ some t → 0 < count id q
  unfolding find_order count
  find_order-count [] t h = cc
  find_order-count (o ∷ q) t h = elim (Bool-cases (o.order_id == id)) [
    | inl e ↦ ground arith
    | inr e ↦ let later = find_order-count q t (rw e at h) in ground arith
  ]

  pub reduce_order-found :
      (xs ys : Queue F) (t : Order F)
      → find_order id xs ≡ some t
      → reduce_order id n (xs ++ ys) ≡ reduce_order id n xs ++ ys
  unfolding find_order reduce_order
  reduce_order-found [] ys t h = cc
  reduce_order-found (o ∷ xs) ys t h = elim (Bool-cases (o.order_id == id)) [
    | inl e ↦ rw e refl
    | inr e ↦ rw e (ap (λ r. o ∷ r) (reduce_order-found xs ys t (rw e at h)))
  ]

  pub reduce_order_absent :
      (xs ys : Queue F)
      → count id xs ≡ 0
      → reduce_order id n (xs ++ ys) ≡ xs ++ reduce_order id n ys
  unfolding count reduce_order
  reduce_order_absent [] ys h = refl
  reduce_order_absent (o ∷ xs) ys h = elim (Bool-cases (o.order_id == id)) [
    | inl e ↦ absurd (ground arith)
    | inr e ↦ rw e (ap (λ r. o ∷ r) (reduce_order_absent xs ys (ground arith)))
  ]

  -- A reduction by less than what is open keeps the order resting, and takes just that off.
  pub reduce_order-IsResting :
      (side : Side) (k : F) (xs : Queue F) (t : Order F)
      → find_order id xs ≡ some t
      → n < remaining t
      → All (IsResting side k) xs
      → All (IsResting side k) (reduce_order id n xs)
        × (open_qty (reduce_order id n xs) + n ≡ open_qty xs)
        × (is_empty (reduce_order id n xs) ≡ is_empty xs)
  unfolding find_order reduce_order open_qty
  reduce_order-IsResting side k [] t h less v = cc
  reduce_order-IsResting side k (o ∷ xs) t h less v = elim (Bool-cases (o.order_id == id)) [
    | inl e ↦
        let p : o ≡ t = some_injective (rw e at h) in
        let less' : n < remaining o = subst (λ r. n < remaining r) (sym p) less in
        let (sound, sum) = reduced-IsResting side k o v.0 less' in
        rw e ((sound, v.1), omega (arith, sum), refl)
    | inr e ↦
        let (all, sum, _) = reduce_order-IsResting side k xs t (rw e at h) less v.1 in
        rw e ((v.0, all), omega (arith, sum), refl)
  ]
