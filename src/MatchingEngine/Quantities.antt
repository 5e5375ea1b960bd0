-- ===== src/MatchingEngine/Quantities.antt =====
-- The quantities that a sweep moves, and what it leaves of the order and of the queue.
use cpp_matching_engine.Prelude.{
  ℕ, ◌+◌, ◌-◌, ◌<◌, ◌≤◌, ◌≡◌, refl, Bool, true, [], ◌∷◌, arith, if◌then◌else◌, ◌==◌, nat_eq, ap,
}
use cpp_matching_engine.Double.{Double}
use cpp_matching_engine.Types.{Order, remaining, filled, partially_filled, is_active}
use cpp_matching_engine.PriceTime.{Queue, open_qty, count}
use cpp_matching_engine.MatchingEngine.{MatchingEngine, fill_order}
use cpp_matching_engine.MatchingEngine.Sweep.{
  Sweep, IsSized, IsOpen, IsOpen-IsSized, fill_order-remaining, eligible,
}
use cpp_matching_engine.MatchingEngine.Trading.{
  SameTerms, SameTerms-refl, SameTerms-trans, fill_order-SameTerms, Trades, done, exhausted,
  beyond_limit, takes, takes_part, traded, taker_after, maker_after,
}

module _ {F : Type 0} where
  -- Both sides of a fill, without wrap-around.
  pub fill_amounts :
      (o r : Order F)
      → IsSized o
      → IsOpen r
      → IsSized (taker_after o r)
        × (remaining (taker_after o r) ≡ remaining o - remaining r)
        × (remaining (maker_after o r) ≡ remaining r - remaining o)
  fill_amounts o r so sr =
      let (small, left, _, _) = fill_order-remaining (traded o r) o so (omega arith) in
      let (_, left_r, _, _) =
        fill_order-remaining (traded o r) r (IsOpen-IsSized r sr).0 (omega arith) in
      (small, omega arith, omega arith)

  fill_order-status :
      (n : ℕ) (o : Order F)
      → (fill_order n o).status
        ≡ (if remaining (fill_order n o) == 0 then filled else partially_filled)
  unfolding fill_order remaining
  fill_order-status n o = refl

  -- The status follows the quantity: an open order is active, and one that is done is filled.
  pub record Settled (o : Order F) : Type 0 where
    pub when_open : (0 < remaining o) → is_active o ≡ true
    pub when_done : remaining o ≡ 0 → o.status ≡ filled

  fill_order-Settled : (n : ℕ) (o : Order F) → Settled (fill_order n o)
  fill_order-Settled n o = record {
    when_open = λ h. rw fill_order-status (ground arith);
    when_done = λ h. rw (fill_order-status, h) refl;
  }

  -- Every order at which the sweep could go on is gone.
  abbrev pub StopsAt : (F → Bool) → Queue F → Type 0
  StopsAt stop [] = Unit
  StopsAt stop (r ∷ q) = stop r.price ≡ true

module _ {F : Type 0} ⦃d : Double F⦄ {now_ns : ℕ → ℕ} {stop : F → Bool} where
  pub Trades-SameTerms :
      {o : Order F} {q : Queue F} {e : MatchingEngine F} {t : Sweep F}
      → Trades now_ns stop o q e t
      → SameTerms o t.order × IsSized t.order
  Trades-SameTerms (done o q e t so h p) = rw p (SameTerms-refl o, so)
  Trades-SameTerms (exhausted o e t so p) = rw p (SameTerms-refl o, so)
  Trades-SameTerms (beyond_limit o r q e t so h p) = rw p (SameTerms-refl o, so)
  Trades-SameTerms (takes o r q e t so sr more go fits rest) =
      let (same, sized) = Trades-SameTerms rest in
      (SameTerms-trans (fill_order-SameTerms (traded o r) o) same, sized)
  Trades-SameTerms (takes_part o r q e t so sr more go part p) =
      rw p (fill_order-SameTerms (traded o r) o, (fill_amounts o r so sr).0)

  -- The order takes what is within its limit, up to its own quantity.
  pub Trades-remaining :
      {o : Order F} {q : Queue F} {e : MatchingEngine F} {t : Sweep F}
      → Trades now_ns stop o q e t
      → remaining t.order ≡ remaining o - eligible stop q
  unfolding eligible
  Trades-remaining (done o q e t so h p) = rw p (omega arith)
  Trades-remaining (exhausted o e t so p) = rw p (omega arith)
  Trades-remaining (beyond_limit o r q e t so h p) = rw (p, h) (omega arith)
  Trades-remaining (takes o r q e t so sr more go fits rest) =
      let (_, left, _) = fill_amounts o r so sr in rw go (omega (arith, Trades-remaining rest))
  Trades-remaining (takes_part o r q e t so sr more go part p) =
      let (_, left, _) = fill_amounts o r so sr in rw (p, go) (omega arith)

  -- What the order takes is what the queue loses.
  pub Trades-open_qty :
      {o : Order F} {q : Queue F} {e : MatchingEngine F} {t : Sweep F}
      → Trades now_ns stop o q e t
      → open_qty t.queue + remaining o ≡ open_qty q + remaining t.order
  unfolding open_qty
  Trades-open_qty (done o q e t so h p) = rw p refl
  Trades-open_qty (exhausted o e t so p) = rw p refl
  Trades-open_qty (beyond_limit o r q e t so h p) = rw p refl
  Trades-open_qty (takes o r q e t so sr more go fits rest) =
      let (_, left, _) = fill_amounts o r so sr in omega (arith, Trades-open_qty rest)
  Trades-open_qty (takes_part o r q e t so sr more go part p) =
      let (_, left, left_r) = fill_amounts o r so sr in rw p (omega arith)

  pub Trades-count :
      {o : Order F} {q : Queue F} {e : MatchingEngine F} {t : Sweep F} (id : ℕ)
      → Trades now_ns stop o q e t
      → count id t.queue ≤ count id q
  unfolding count
  Trades-count id (done o q e t so h p) = rw p (omega arith)
  Trades-count id (exhausted o e t so p) = rw p (omega arith)
  Trades-count id (beyond_limit o r q e t so h p) = rw p (omega arith)
  Trades-count id (takes o r q e t so sr more go fits rest) = omega (arith, Trades-count id rest)
  Trades-count id (takes_part o r q e t so sr more go part p) =
      let same = fill_order-SameTerms (traded o r) r in rw (p, same.order_id) (omega arith)

  -- A sweep that leaves the order open has nothing more to take.
  pub Trades-StopsAt :
      {o : Order F} {q : Queue F} {e : MatchingEngine F} {t : Sweep F}
      → Trades now_ns stop o q e t
      → 0 < remaining t.order
      → StopsAt stop t.queue
  Trades-StopsAt (done o q e t so h p) m = absurd (omega (arith, ap (λ x. remaining x.order) p))
  Trades-StopsAt (exhausted o e t so p) m = rw p tt
  Trades-StopsAt (beyond_limit o r q e t so h p) m = rw p h
  Trades-StopsAt (takes o r q e t so sr more go fits rest) m = Trades-StopsAt rest m
  Trades-StopsAt (takes_part o r q e t so sr more go part p) m =
      let (_, left, _) = fill_amounts o r so sr in
      absurd (omega (arith, ap (λ x. remaining x.order) p))

  pub Trades-Settled :
      {o : Order F} {q : Queue F} {e : MatchingEngine F} {t : Sweep F}
      → Trades now_ns stop o q e t
      → Settled o
      → Settled t.order
  Trades-Settled (done o q e t so h p) v = rw p v
  Trades-Settled (exhausted o e t so p) v = rw p v
  Trades-Settled (beyond_limit o r q e t so h p) v = rw p v
  Trades-Settled (takes o r q e t so sr more go fits rest) v =
      Trades-Settled rest (fill_order-Settled (traded o r) o)
  Trades-Settled (takes_part o r q e t so sr more go part p) v =
      rw p (fill_order-Settled (traded o r) o)
