-- ===== src/MatchingEngine/Reports.antt =====
-- The execution reports of a sweep: two for each fill, in the order of the queue.
use cpp_matching_engine.Prelude.{
  ℕ, ◌+◌, ◌*◌, ◌<◌, ◌≤◌, ◌≡◌, ◌%◌, refl, Bool, false, List, [], ◌∷◌, ◌++◌, arith, ◌∙◌, sym, add64,
  u64_mod, append-nil, append_assoc,
}
use cpp_matching_engine.Double.{Double}
use cpp_matching_engine.Types.{Order, remaining, ExecutionReport}
use cpp_matching_engine.PriceTime.{Queue}
use cpp_matching_engine.MatchingEngine.{MatchingEngine, record_fill, report}
use cpp_matching_engine.MatchingEngine.Sweep.{Sweep, IsSized, IsOpen, IsOpen-IsSized}
use cpp_matching_engine.MatchingEngine.Trading.{
  SameTerms, SameTerms-trans, fill_order-SameTerms, Trades, done, exhausted, beyond_limit, takes,
  takes_part, traded, taker_after, maker_after, engine_after,
}
use cpp_matching_engine.MatchingEngine.Quantities.{fill_amounts}

module _ {F : Type 0} where
  -- A report to the owner of `party` of a fill of `n` at `price`, which `taker` caused.
  pub record Reports (party taker : Order F) (id n : ℕ) (price : F) (x : ExecutionReport F)
      : Type 0 where
    pub exec_id : x.exec_id ≡ id
    pub order_id : x.order_id ≡ party.order_id
    pub aggressor : x.aggressor_order_id ≡ taker.order_id
    pub trader : x.trader_id ≡ party.trader_id
    pub quantity : x.exec_qty ≡ n
    pub exec_price : x.exec_price ≡ price
    pub side : x.side ≡ party.side
    pub symbol : x.symbol ≡ party.symbol

  -- The reports that a sweep of a queue by `taker` sends, from the fill `id` on: each fill takes a
  -- positive quantity of the order at the front, at that order's own price, which is within the
  -- limit, and both owners hear of it under one id.
  pub data FillLog (stop : F → Bool) (taker : Order F)
      : ℕ → Queue F → List (ExecutionReport F) → Type 0 where
    no_fill : (id : ℕ) (q : Queue F) → FillLog stop taker id q []
    fill :
        (id n : ℕ) (r : Order F) (q : Queue F) (x y : ExecutionReport F)
        (log : List (ExecutionReport F))
        → stop r.price ≡ false
        → 0 < n
        → n ≤ remaining r
        → Reports r taker id n r.price x
        → Reports taker taker id n r.price y
        → FillLog stop taker (add64 id 1) q log
        → FillLog stop taker id (r ∷ q) (x ∷ y ∷ log)

  -- The quantity of the reports.
  unfoldable pub reported : List (ExecutionReport F) → ℕ
  reported [] = 0
  reported (x ∷ log) = x.exec_qty + reported log

  report-Reports :
      (party taker p t : Order F) (id ts n : ℕ) (price : F)
      → SameTerms party p
      → SameTerms taker t
      → Reports party taker id n price (report id p t ts price n)
  unfolding report
  report-Reports party taker p t id ts n price sp st = record {
    exec_id = refl;
    order_id = sp.order_id;
    aggressor = st.order_id;
    trader = sp.trader_id;
    quantity = refl;
    exec_price = refl;
    side = sp.side;
    symbol = sp.symbol;
  }

module _ {F : Type 0} ⦃d : Double F⦄ (now_ns : ℕ → ℕ) (stop : F → Bool) (taker : Order F) where
  -- What the engine has sent and counted in a sweep that left `t` of the order `o`.
  pub record Logged (o : Order F) (q : Queue F) (e : MatchingEngine F) (t : Sweep F) : Type 0 where
    pub log : List (ExecutionReport F)
    pub sent : t.engine.sent ≡ e.sent ++ log
    pub fills : FillLog stop taker e.next_exec_id q log
    pub amount : reported log + 2 * remaining t.order ≡ 2 * remaining o
    pub volume :
        (t.engine.volume_traded + remaining t.order) % u64_mod
        ≡ (e.volume_traded + remaining o) % u64_mod
    pub processed : t.engine.orders_processed ≡ e.orders_processed

  idle-Logged :
      (o : Order F) (q p : Queue F) (e : MatchingEngine F) (t : Sweep F)
      → t ≡ record { order = o; queue = p; engine = e }
      → Logged o q e t
  unfolding reported
  idle-Logged o q p e t h = rw h (record {
    log = [];
    sent = sym (append-nil e.sent);
    fills = no_fill e.next_exec_id q;
    amount = omega arith;
    volume = refl;
    processed = refl;
  })

  fill-Logged :
      (o r : Order F) (q : Queue F) (e : MatchingEngine F) (t : Sweep F)
      → SameTerms taker o
      → IsSized o
      → IsOpen r
      → 0 < remaining o
      → stop r.price ≡ false
      → Logged (taker_after o r) q (engine_after now_ns stop o r e) t
      → Logged o (r ∷ q) e t
  unfolding record_fill reported report
  fill-Logged o r q e t same so sr more go rest =
      let (_, left, _) = fill_amounts o r so sr in
      let (_, held) = IsOpen-IsSized r sr in
      let n = traded o r in
      let ts = now_ns e.clock_reads in
      let maker = fill_order-SameTerms n r in
      let taken = SameTerms-trans same (fill_order-SameTerms n o) in
      let x = report e.next_exec_id (maker_after o r) (taker_after o r) ts r.price n in
      let y = report e.next_exec_id (taker_after o r) (taker_after o r) ts r.price n in
      record {
        log = x ∷ y ∷ rest.log;
        sent = rest.sent ∙ append_assoc e.sent (x ∷ y ∷ []) rest.log;
        fills =
            fill e.next_exec_id n r q x y rest.log go (omega arith) (omega arith)
              (report-Reports r taker _ _ e.next_exec_id ts n r.price maker taken)
              (report-Reports taker taker _ _ e.next_exec_id ts n r.price taken taken) rest.fills;
        amount = omega (arith, rest.amount);
        volume = omega (arith, rest.volume);
        processed = rest.processed;
      }

  pub sweep-Logged :
      {o : Order F} {q : Queue F} {e : MatchingEngine F} {t : Sweep F}
      → SameTerms taker o
      → Trades now_ns stop o q e t
      → Logged o q e t
  sweep-Logged same (done o q e t so h p) = idle-Logged o q q e t p
  sweep-Logged same (exhausted o e t so p) = idle-Logged o [] [] e t p
  sweep-Logged same (beyond_limit o r q e t so h p) = idle-Logged o (r ∷ q) (r ∷ q) e t p
  sweep-Logged same (takes o r q e t so sr more go fits rest) =
      fill-Logged o r q e t same so sr more go
        (sweep-Logged (SameTerms-trans same (fill_order-SameTerms (traded o r) o)) rest)
  sweep-Logged same (takes_part o r q e t so sr more go part p) =
      fill-Logged o r q e t same so sr more go
        (idle-Logged (taker_after o r) q (maker_after o r ∷ q) (engine_after now_ns stop o r e) t p)
