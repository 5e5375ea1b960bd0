-- ===== src/MatchingEngine/FillOrKill.antt =====
-- matching/matching_engine.cpp: `can_fill_completely` and fill-or-kill orders.
use cpp_matching_engine.Prelude.{
  some_injective, ℕ, ◌+◌, ◌-◌, ◌<◌, ◌≤◌, ◌≡◌, ◌⊎◌, inl, inr, refl, Bool, true, false, not, ◌&&◌, [],
  ◌∷◌, ◌++◌, arith, nat_eq, All, All-impl, Bool-cases, ap, ◌∙◌, sym, none, some, u32_mod, leb, min,
  sub32, leb→le, ◌%◌,
}
use cpp_matching_engine.Prelude.Map
use cpp_matching_engine.Double.{Double, IsOrdered}
use cpp_matching_engine.Types.{Side, opposite, Order, fok, is_fok, remaining}
use cpp_matching_engine.OrderBook.{OrderBook, LevelMap, levels}
use cpp_matching_engine.OrderBook.Valid.{queue, AreLevels, IsValid}
use cpp_matching_engine.OrderBook.Sides.{side_queue, side-AreLevels}
use cpp_matching_engine.PriceTime.{Queue}
use cpp_matching_engine.MatchingEngine.{
  MatchingEngine, Match, stop_test, can_fill_completely, submit_order,
}
use cpp_matching_engine.MatchingEngine.Sweep.{IsSized}
use cpp_matching_engine.MatchingEngine.Submitting.{kill, accepted, counted}
use cpp_matching_engine.MatchingEngine.Sweep.{eligible}
use cpp_matching_engine.MatchingEngine.{fill_needed}
use cpp_matching_engine.MatchingEngine.Outcomes.{submit_order-amount, accepted-remaining}
use cpp_matching_engine.OrderBook.{is_empty}
use cpp_matching_engine.OrderBook.Valid.{remaining-lt}
use cpp_matching_engine.PriceTime.{open_qty}

-- No level holds 2 ^ 32 shares or more, so that the cast of its total loses nothing.
abbrev pub SmallLevels : {F : Type 0} → LevelMap F → Type 0
SmallLevels m = All (λ e. open_qty e.1.orders < u32_mod) m

module _ {F : Type 0} (stop : F → Bool) where
  eligible-append :
      (xs q : Queue F)
      → All (λ o. stop o.price ≡ false) xs
      → eligible stop (xs ++ q) ≡ open_qty xs + eligible stop q
  unfolding eligible open_qty
  eligible-append [] q h = omega arith
  eligible-append (x ∷ xs) q h = rw h.0 (omega (arith, eligible-append xs q h.1))

  eligible-stopped :
      (k : F) (xs q : Queue F)
      → is_empty xs ≡ false
      → All (λ o. o.price ≡ k) xs
      → stop k ≡ true
      → eligible stop (xs ++ q) ≡ 0
  unfolding eligible
  eligible-stopped k [] q h a at_stop = cc
  eligible-stopped k (x ∷ xs) q h a at_stop = rw (a.0, at_stop) refl

module _ {F : Type 0} ⦃d : Double F⦄ (stop : F → Bool) (side : Side) where
  -- The loop compares the needed quantity with what is within the limit.
  fill_needed-eligible :
      (n : ℕ) (m : LevelMap F)
      → AreLevels side m
      → SmallLevels m
      → n < u32_mod
      → fill_needed stop n m ≡ leb n (eligible stop (queue m))
  unfolding fill_needed queue eligible
  fill_needed-eligible n [] v small h = ground arith
  fill_needed-eligible n ((k, l) ∷ m) v small h = elim (Bool-cases (stop k)) [
    | inl e ↦
        let at_key = All-impl l.orders (λ o r. r.at_price) v.0.resting in
        rw (e, eligible-stopped stop k l.orders (queue m) v.1 at_key e) (ground arith)
    | inr e ↦
        let going = All-impl l.orders (λ o r. ap stop r.at_price ∙ e) v.0.resting in
        let total : l.total_qty ≡ open_qty l.orders = omega (arith, v.0.totalled, small.0) in
        let left = sub32 n (min n (l.total_qty % u32_mod)) in
        let left_eq : left ≡ n - open_qty l.orders = omega (arith, total, small.0) in
        rw (e, eligible-append stop l.orders (queue m) going)
          (ground (arith, left_eq, fill_needed-eligible left m v.3 small.1 (omega arith)))
  ]

module _ {F : Type 0} ⦃d : Double F⦄ (o : Order F) (b : OrderBook F) (v : IsValid b)
    (small : SmallLevels (levels (opposite o.side) b)) where
  -- On a valid book whose facing levels are below 2^32 shares, can_fill_completely answers
  -- whether the quantity on offer within the order's limit covers its remaining quantity.
  pub can_fill_completely-eligible :
      can_fill_completely o b
      ≡ leb
          (remaining o)
          (eligible (stop_test o.type o.side o.price) (side_queue (opposite o.side) b))
  unfolding can_fill_completely
  can_fill_completely-eligible =
      let n = remaining o in
      let stop = stop_test o.type o.side o.price in
      let facing = levels (opposite o.side) b in
      let checked =
        fill_needed-eligible stop (opposite o.side) n facing (side-AreLevels (opposite o.side) b v)
          small (remaining-lt o) in
      ground (arith, checked)

-- What a killed submission returns.
abbrev pub killed : {F : Type 0} ⦃d : Double F⦄ → MatchingEngine F → Order F → OrderBook F → Match F
killed e o b = record { order = kill (accepted o); book = b; engine = counted e }

module _ {F : Type 0} ⦃d : Double F⦄ (ord : IsOrdered F) (now_ns : ℕ → ℕ) (e : MatchingEngine F)
    (o : Order F) (b : OrderBook F) where
  pub submit_order-killed :
      is_fok o.tif && not (can_fill_completely (accepted o) b) ≡ true
      → submit_order now_ns e o b ≡ some (killed e o b)
  unfolding submit_order
  submit_order-killed h = rw h refl

  -- On a valid book whose facing levels are below 2^32 shares, a submission that returns, of a
  -- fill-or-kill order that is not overfilled and whose id does not rest there: the order is
  -- either covered by the quantity on offer within its limit and then filled to the last share,
  -- or not covered and then cancelled with book and engine as they were but for the count of
  -- orders.
  pub submit_order-fok :
      IsValid b
      → IsSized o
      → Map.find o.order_id b.order_index ≡ none
      → SmallLevels (levels (opposite o.side) b)
      → o.tif ≡ fok
      → (t : Match F) → submit_order now_ns e o b ≡ some t
      → let offered = eligible (stop_test o.type o.side o.price) (side_queue (opposite o.side) b) in
        ((remaining o ≤ offered) × (remaining t.order ≡ 0))
        ⊎ ((offered < remaining o) × (t ≡ killed e o b))
  submit_order-fok v sized absent small at_fok t h =
      let is : is_fok o.tif ≡ true = ap is_fok at_fok in
      let check = can_fill_completely-eligible (accepted o) b v small in
      elim (Bool-cases (can_fill_completely (accepted o) b)) [
        | inl can ↦
            let go : is_fok o.tif && not (can_fill_completely (accepted o) b) ≡ false =
              rw (is, can) refl in
            let (left, _) = submit_order-amount ord now_ns e o b v sized absent go h in
            let covered = leb→le _ _ (sym check ∙ can) in
            inl (omega (arith, accepted-remaining o), omega (arith, accepted-remaining o))
        | inr cannot ↦
            let stopped : is_fok o.tif && not (can_fill_completely (accepted o) b) ≡ true =
              rw (is, cannot) refl in
            inr (
              ground (arith, check, accepted-remaining o),
              some_injective (sym h ∙ submit_order-killed stopped),
            )
      ]
