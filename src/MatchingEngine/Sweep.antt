-- ===== src/MatchingEngine/Sweep.antt =====
-- What a matching loop is to do, on a queue: the order takes from the front as long as it is open and
-- the price is within its limit, and an order that is left with nothing leaves the queue.
use cpp_matching_engine.Prelude.{
  ℕ, ◌+◌, ◌-◌, ◌<◌, ◌≤◌, ◌≡◌, inl, inr, refl, Bool, true, false, not, ◌&&◌, [], ◌∷◌, arith,
  if◌then◌else◌, ltb, min, ◌==◌, nat_eq, u32_mod, Bool-cases, ap, ◌∙◌,
}
use cpp_matching_engine.Double.{Double}
use cpp_matching_engine.Types.{Order, remaining}
use cpp_matching_engine.PriceTime.{Queue}
use cpp_matching_engine.MatchingEngine.{MatchingEngine, fill_order, record_fill}

pub record Sweep (F : Type 0) : Type 0 where
  pub order : Order F
  pub queue : Queue F
  pub engine : MatchingEngine F

module _ {F : Type 0} where
  -- An order that is not overfilled.
  pub record IsSized (o : Order F) : Type 0 where
    pub filled_le : o.filled_qty ≤ o.quantity
    pub fits : o.quantity < u32_mod

  -- An order that has something to give.
  pub record IsOpen (o : Order F) : Type 0 where
    pub filled_lt : o.filled_qty < o.quantity
    pub fits : o.quantity < u32_mod

  pub IsOpen-IsSized : (o : Order F) → IsOpen o → IsSized o × (0 < remaining o)
  unfolding remaining
  IsOpen-IsSized o v = omega arith

  -- A fill moves its quantity from what is open to what is filled, without wrap-around.
  pub fill_order-remaining :
      (q : ℕ) (o : Order F)
      → IsSized o
      → q ≤ remaining o
      → IsSized (fill_order q o)
        × (remaining (fill_order q o) ≡ remaining o - q)
        × ((fill_order q o).filled_qty ≡ o.filled_qty + q)
        × (remaining o ≡ o.quantity - o.filled_qty)
  unfolding fill_order remaining
  fill_order-remaining q o s h = ground arith

  -- The quantity on offer in front of the first order at which the sweep stops.
  unfoldable pub eligible : (F → Bool) → Queue F → ℕ
  eligible stop [] = 0
  eligible stop (r ∷ q) = if stop r.price then 0 else remaining r + eligible stop q

module _ {F : Type 0} ⦃d : Double F⦄ (now_ns : ℕ → ℕ) (stop : F → Bool) where
  unfoldable pub sweep : Order F → Queue F → MatchingEngine F → Sweep F
  sweep o [] e = record { order = o; queue = []; engine = e }
  sweep o (r ∷ q) e =
      let n = min (remaining o) (remaining r) in
      let o' = fill_order n o in
      let r' = fill_order n r in
      let e' = record_fill now_ns o' r' n r.price e in
      let rest = sweep o' q e' in
      if ltb 0 (remaining o) && not (stop r.price)
      then if remaining r' == 0 then rest else record { order = o'; queue = r' ∷ q; engine = e' }
      else record { order = o; queue = r ∷ q; engine = e }

  pub sweep_done :
      (o : Order F) (q : Queue F) (e : MatchingEngine F)
      → remaining o ≡ 0
      → sweep o q e ≡ record { order = o; queue = q; engine = e }
  unfolding sweep
  sweep_done o [] e h = refl
  sweep_done o (r ∷ q) e h = ground arith

  pub sweep_stopped :
      (o r : Order F) (q : Queue F) (e : MatchingEngine F)
      → stop r.price ≡ true
      → sweep o (r ∷ q) e ≡ record { order = o; queue = r ∷ q; engine = e }
  unfolding sweep
  sweep_stopped o r q e h = ground arith

  -- A sweep goes on from what its first fill leaves.
  pub sweep_step :
      (o r : Order F) (q : Queue F) (e : MatchingEngine F)
      → IsSized o
      → IsSized r
      → 0 < remaining o
      → stop r.price ≡ false
      → let n = min (remaining o) (remaining r) in
        let o' = fill_order n o in
        let r' = fill_order n r in
        sweep o (r ∷ q) e
        ≡ sweep o' (if remaining r' == 0 then q else r' ∷ q) (record_fill now_ns o' r' n r.price e)
  unfolding sweep
  sweep_step o r q e so sr h go =
      let n = min (remaining o) (remaining r) in
      let o' = fill_order n o in
      let r' = fill_order n r in
      let e' = record_fill now_ns o' r' n r.price e in
      let fo = fill_order-remaining n o so (omega arith) in
      let fr = fill_order-remaining n r sr (omega arith) in
      elim (Bool-cases (remaining r' == 0)) [
        | inl gone ↦ ground arith
        | inr more ↦ ground (arith, sweep_done o' (r' ∷ q) e')
      ]

  pub sweep_step_at :
      (k : F) (o r : Order F) (q : Queue F) (e : MatchingEngine F)
      → r.price ≡ k
      → IsSized o
      → IsSized r
      → 0 < remaining o
      → stop k ≡ false
      → let n = min (remaining o) (remaining r) in
        let o' = fill_order n o in
        let r' = fill_order n r in
        sweep o (r ∷ q) e
        ≡ sweep o' (if remaining r' == 0 then q else r' ∷ q) (record_fill now_ns o' r' n k e)
  sweep_step_at k o r q e at_k so sr h go =
      let n = min (remaining o) (remaining r) in
      let o' = fill_order n o in
      let r' = fill_order n r in
      sweep_step o r q e so sr h (ap stop at_k ∙ go)
      ∙ ap
          (λ p. sweep o' (if remaining r' == 0 then q else r' ∷ q) (record_fill now_ns o' r' n p e))
          at_k
