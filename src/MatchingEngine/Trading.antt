-- ===== src/MatchingEngine/Trading.antt =====
-- What a sweep does to the order, to the queue and to the quantities of both.
use cpp_matching_engine.Prelude.{
  ℕ, ◌<◌, ◌≤◌, ◌≡◌, inl, inr, refl, Bool, true, false, [], ◌∷◌, arith, min, ◌==◌, nat_eq, All,
  Bool-cases, ◌∙◌, zero-cases,
}
use cpp_matching_engine.Double.{Double}
use cpp_matching_engine.Types.{Order, remaining}
use cpp_matching_engine.PriceTime.{Queue}
use cpp_matching_engine.MatchingEngine.{MatchingEngine, fill_order, record_fill}
use cpp_matching_engine.MatchingEngine.Sweep.{
  Sweep, IsSized, IsOpen, IsOpen-IsSized, fill_order-remaining, sweep,
}

module _ {F : Type 0} where
  -- What a fill leaves as it was.
  pub record SameTerms (o o' : Order F) : Type 0 where
    pub order_id : o'.order_id ≡ o.order_id
    pub trader_id : o'.trader_id ≡ o.trader_id
    pub price : o'.price ≡ o.price
    pub quantity : o'.quantity ≡ o.quantity
    pub side : o'.side ≡ o.side
    pub type : o'.type ≡ o.type
    pub tif : o'.tif ≡ o.tif
    pub symbol : o'.symbol ≡ o.symbol

  pub fill_order-SameTerms : (n : ℕ) (o : Order F) → SameTerms o (fill_order n o)
  unfolding fill_order
  fill_order-SameTerms n o = record {
    order_id = refl;
    trader_id = refl;
    price = refl;
    quantity = refl;
    side = refl;
    type = refl;
    tif = refl;
    symbol = refl;
  }

  pub SameTerms-refl : (o : Order F) → SameTerms o o
  SameTerms-refl o = record {
    order_id = refl;
    trader_id = refl;
    price = refl;
    quantity = refl;
    side = refl;
    type = refl;
    tif = refl;
    symbol = refl;
  }

  pub SameTerms-trans : {o p q : Order F} → SameTerms o p → SameTerms p q → SameTerms o q
  SameTerms-trans s t = record {
    order_id = t.order_id ∙ s.order_id;
    trader_id = t.trader_id ∙ s.trader_id;
    price = t.price ∙ s.price;
    quantity = t.quantity ∙ s.quantity;
    side = t.side ∙ s.side;
    type = t.type ∙ s.type;
    tif = t.tif ∙ s.tif;
    symbol = t.symbol ∙ s.symbol;
  }

module _ {F : Type 0} where
  -- The two orders after a fill between them.
  abbrev pub traded : Order F → Order F → ℕ
  traded o r = min (remaining o) (remaining r)

  abbrev pub taker_after : Order F → Order F → Order F
  taker_after o r = fill_order (traded o r) o

  abbrev pub maker_after : Order F → Order F → Order F
  maker_after o r = fill_order (traded o r) r

module _ {F : Type 0} ⦃d : Double F⦄ (now_ns : ℕ → ℕ) (stop : F → Bool) where
  abbrev pub engine_after : Order F → Order F → MatchingEngine F → MatchingEngine F
  engine_after o r e = record_fill now_ns (taker_after o r) (maker_after o r) (traded o r) r.price e

  -- A sweep as a derivation: it ends because the order is done, the queue is empty or the price is
  -- beyond the limit, and before that takes the orders at the front whole, the last one in part.
  pub data Trades : Order F → Queue F → MatchingEngine F → Sweep F → Type 0 where
    done :
        (o : Order F) (q : Queue F) (e : MatchingEngine F) (t : Sweep F)
        → IsSized o
        → remaining o ≡ 0
        → t ≡ record { order = o; queue = q; engine = e }
        → Trades o q e t
    exhausted :
        (o : Order F) (e : MatchingEngine F) (t : Sweep F)
        → IsSized o
        → t ≡ record { order = o; queue = []; engine = e }
        → Trades o [] e t
    beyond_limit :
        (o r : Order F) (q : Queue F) (e : MatchingEngine F) (t : Sweep F)
        → IsSized o
        → stop r.price ≡ true
        → t ≡ record { order = o; queue = r ∷ q; engine = e }
        → Trades o (r ∷ q) e t
    takes :
        (o r : Order F) (q : Queue F) (e : MatchingEngine F) (t : Sweep F)
        → IsSized o
        → IsOpen r
        → 0 < remaining o
        → stop r.price ≡ false
        → remaining r ≤ remaining o
        → Trades (taker_after o r) q (engine_after o r e) t
        → Trades o (r ∷ q) e t
    takes_part :
        (o r : Order F) (q : Queue F) (e : MatchingEngine F) (t : Sweep F)
        → IsSized o
        → IsOpen r
        → 0 < remaining o
        → stop r.price ≡ false
        → remaining o < remaining r
        → t ≡ record {
          order = taker_after o r;
          queue = maker_after o r ∷ q;
          engine = engine_after o r e;
        }
        → Trades o (r ∷ q) e t

  sweep_taken :
      (o r : Order F) (q : Queue F) (e : MatchingEngine F)
      → 0 < remaining o
      → stop r.price ≡ false
      → (remaining (maker_after o r) == 0) ≡ true
      → sweep now_ns stop o (r ∷ q) e ≡ sweep now_ns stop (taker_after o r) q (engine_after o r e)
  unfolding sweep
  sweep_taken o r q e more go gone = ground arith

  pub sweep-Trades :
      (o : Order F) (q : Queue F) (e : MatchingEngine F)
      → IsSized o
      → All IsOpen q
      → Trades o q e (sweep now_ns stop o q e)
  unfolding sweep
  sweep-Trades o [] e so sq = exhausted o e _ so refl
  sweep-Trades o (r ∷ q) e so sq =
      let (small, left, _, _) = fill_order-remaining (traded o r) o so (omega arith) in
      let (_, left_r, _, _) =
        fill_order-remaining (traded o r) r (IsOpen-IsSized r sq.0).0 (omega arith) in
      elim (zero-cases (remaining o)) [
        | inl e0 ↦ done o (r ∷ q) e _ so e0 (ground arith)
        | inr more ↦ elim (Bool-cases (stop r.price)) [
          | inl e1 ↦ beyond_limit o r q e _ so e1 (ground arith)
          | inr go ↦ elim (Bool-cases (remaining (maker_after o r) == 0)) [
            | inl gone ↦ rw (sweep_taken o r q e more go gone) (
                takes o r q e _ so sq.0 more go (ground arith)
                  (sweep-Trades (taker_after o r) q (engine_after o r e) small sq.1))
            | inr part ↦ takes_part o r q e _ so sq.0 more go (ground arith) (ground arith)
          ]
        ]
      ]
