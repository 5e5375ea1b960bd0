-- ===== src/PriceTime.antt =====
-- The rule of matching/matching_engine.h, price-time priority, on plain queues: a side of the book is
-- the list of its orders, the next one to trade first. No levels, no totals and no index.
use cpp_matching_engine.Prelude.{
  ℕ, ◌+◌, ◌≡◌, refl, true, false, List, [], ◌∷◌, ◌++◌, Option, none, some, arith, if◌then◌else◌,
  All, ◌==◌, nat_eq,
}
use cpp_matching_engine.Double.{Double}
use cpp_matching_engine.Types.{Side, Order, remaining}
use cpp_matching_engine.Levels.{before}
use cpp_matching_engine.OrderBook.{OrderLocation}

abbrev pub Queue : Type 0 → Type 0
Queue F = List (Order F)

abbrev pub first_some {ℓ} : {A : Type ℓ} → Option A → Option A → Option A
first_some none y = y
first_some (some x) y = some x

module _ {F : Type 0} where
  abbrev pub location : Order F → OrderLocation F
  location o = record { side = o.side; price = o.price }

  -- Where an order id rests.
  unfoldable pub locate : ℕ → Queue F → Option (OrderLocation F)
  locate id [] = none
  locate id (o ∷ q) = if o.order_id == id then some (location o) else locate id q

  unfoldable pub count : ℕ → Queue F → ℕ
  count id [] = 0
  count id (o ∷ q) = (if o.order_id == id then 1 else 0) + count id q

  -- The queue without the orders of an id.
  unfoldable pub withdraw : ℕ → Queue F → Queue F
  withdraw id [] = []
  withdraw id (o ∷ q) = if o.order_id == id then withdraw id q else o ∷ withdraw id q

  -- The quantity on offer.
  unfoldable pub open_qty : Queue F → ℕ
  open_qty [] = 0
  open_qty (o ∷ q) = remaining o + open_qty q

  pub locate-withdraw :
      (k id : ℕ) (q : Queue F) → locate id (withdraw k q) ≡ (if k == id then none else locate id q)
  unfolding locate withdraw
  locate-withdraw k id [] = ground arith
  locate-withdraw k id (o ∷ q) = ground (arith, locate-withdraw k id q)

  pub count-withdraw :
      (k id : ℕ) (q : Queue F) → count id (withdraw k q) ≡ (if k == id then 0 else count id q)
  unfolding count withdraw
  count-withdraw k id [] = ground arith
  count-withdraw k id (o ∷ q) = ground (arith, count-withdraw k id q)

  pub locate-append :
      (id : ℕ) (xs ys : Queue F) → locate id (xs ++ ys) ≡ first_some (locate id xs) (locate id ys)
  unfolding locate
  locate-append id [] ys = refl
  locate-append id (x ∷ xs) ys = ground (arith, locate-append id xs ys)

  pub count-append : (id : ℕ) (xs ys : Queue F) → count id (xs ++ ys) ≡ count id xs + count id ys
  unfolding count
  count-append id [] ys = omega arith
  count-append id (x ∷ xs) ys = omega (arith, count-append id xs ys)

  pub locate-eq-none : (id : ℕ) (q : Queue F) → count id q ≡ 0 → locate id q ≡ none
  unfolding locate count
  locate-eq-none id [] h = refl
  locate-eq-none id (o ∷ q) h = ground (arith, locate-eq-none id q)

  pub count-eq-zero : (id : ℕ) (q : Queue F) → locate id q ≡ none → count id q ≡ 0
  unfolding locate count
  count-eq-zero id [] h = refl
  count-eq-zero id (o ∷ q) h = ground (arith, count-eq-zero id q)

  pub withdraw_absent : (id : ℕ) (q : Queue F) → count id q ≡ 0 → withdraw id q ≡ q
  unfolding withdraw count
  withdraw_absent id [] h = refl
  withdraw_absent id (o ∷ q) h = ground (arith, withdraw_absent id q)

  pub withdraw-append :
      (id : ℕ) (xs ys : Queue F) → withdraw id (xs ++ ys) ≡ withdraw id xs ++ withdraw id ys
  unfolding withdraw
  withdraw-append id [] ys = refl
  withdraw-append id (x ∷ xs) ys = ground (arith, withdraw-append id xs ys)

  pub open_qty-append : (xs ys : Queue F) → open_qty (xs ++ ys) ≡ open_qty xs + open_qty ys
  unfolding open_qty
  open_qty-append [] ys = omega arith
  open_qty-append (x ∷ xs) ys = omega (arith, open_qty-append xs ys)

module _ {F : Type 0} ⦃d : Double F⦄ (side : Side) where
  -- A new order goes behind every order whose price is as good as its own.
  unfoldable pub enqueue : Order F → Queue F → Queue F
  enqueue o [] = o ∷ []
  enqueue o (x ∷ q) = if before side o.price x.price then o ∷ x ∷ q else x ∷ enqueue o q

  pub count-enqueue :
      (id : ℕ) (o : Order F) (q : Queue F) → count id (enqueue o q) ≡ count id (o ∷ q)
  unfolding enqueue count
  count-enqueue id o [] = refl
  count-enqueue id o (x ∷ q) = ground (arith, count-enqueue id o q)

  pub locate-enqueue :
      (id : ℕ) (o : Order F) (q : Queue F)
      → count o.order_id q ≡ 0
      → locate id (enqueue o q) ≡ locate id (o ∷ q)
  unfolding enqueue locate count
  locate-enqueue id o [] h = refl
  locate-enqueue id o (x ∷ q) h = ground (arith, locate-enqueue id o q)

  pub open_qty-enqueue :
      (o : Order F) (q : Queue F) → open_qty (enqueue o q) ≡ remaining o + open_qty q
  unfolding enqueue open_qty
  open_qty-enqueue o [] = refl
  open_qty-enqueue o (x ∷ q) = ground (arith, open_qty-enqueue o q)

  -- Past orders that are as good, and in front of orders that are worse.
  pub enqueue_behind :
      (o : Order F) (xs q : Queue F)
      → All (λ x. before side o.price x.price ≡ false) xs
      → enqueue o (xs ++ q) ≡ xs ++ enqueue o q
  unfolding enqueue
  enqueue_behind o [] q h = refl
  enqueue_behind o (x ∷ xs) q h = ground (arith, enqueue_behind o xs q h.1)

  pub enqueue_ahead :
      (o : Order F) (q : Queue F)
      → All (λ x. before side o.price x.price ≡ true) q
      → enqueue o q ≡ o ∷ q
  unfolding enqueue
  enqueue_ahead o [] h = refl
  enqueue_ahead o (x ∷ q) h = ground arith
