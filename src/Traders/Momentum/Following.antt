-- ===== src/Traders/Momentum/Following.antt =====
-- Momentum traders follow the trend: their orders over a run of ticks.
use cpp_matching_engine.Prelude.{
  ℕ, ◌≡◌, refl, sym, ap, ◌∙◌, subst, List, [], ◌∷◌, ◌++◌, Option, some, Bool-cases, Option-cases,
  inl, inr, ◌⊎◌, append-nil, ◌≤◌,
}
use cpp_matching_engine.Double.{Double}
use cpp_matching_engine.Types.{Side, Order, set_symbol}
use cpp_matching_engine.OrderBook.{mid_price}
use cpp_matching_engine.TradingAgent.{number, next_order_id}
use cpp_matching_engine.Traders.{make_order, push_price}
use cpp_matching_engine.Traders.Windows.{last, push_price-last}
use cpp_matching_engine.Traders.Momentum.{MomentumTrader, side_eq, follow_signal, on_tick}
use cpp_matching_engine.Traders.Momentum.Signals.{Tick, run, mids}
use cpp_matching_engine.Traders.Momentum.Trends.{
  changes, sides, trend, trends, answer, act-trend, trends-mids,
}

module _ {F : Type 0} where
  abbrev first_side : Order F → List (Order F) → Side
  first_side o [] = o.side
  first_side o (r ∷ rs) = r.side

module _ {F : Type 0} ⦃d : Double F⦄ where
  -- A tick with the prices `new` behind `ps`: either it makes no order and its trend, if any, is
  -- the last signal, or it makes one for its trend.
  record Ticks (m n : MomentumTrader F) (ps new : List F) (os : List (Order F)) : Type 0 where
    same_cfg : n.cfg ≡ m.cfg
    window : n.price_history ≡ last m.cfg.long_window (ps ++ new)
    follows :
        ((os ≡ [])
          × (n.last_signal ≡ m.last_signal)
          × ((more : List (Option Side))
              → changes m.last_signal (trends m.cfg ps new ++ more) ≡ changes m.last_signal more))
        ⊎ ((o : Order F) × (os ≡ o ∷ [])
            × (n.last_signal ≡ o.side)
            × (trend m.cfg (ps ++ new) ≡ some o.side)
            × ((more : List (Option Side))
                → changes m.last_signal (trends m.cfg ps new ++ more)
                  ≡ o.side ∷ changes o.side more))

  answer-Ticks :
      (o : Order F) (ts : ℕ) (m : MomentumTrader F) (ps : List F) (mid : F) (history : List F)
      → history ≡ last m.cfg.long_window (ps ++ mid ∷ [])
      → let qs = ps ++ mid ∷ [] in
        let (n, os) = answer o ts (trend m.cfg qs) (record m { price_history = history }) in
        Ticks m n ps (mid ∷ []) os
  unfolding follow_signal make_order next_order_id set_symbol
  answer-Ticks o ts m ps mid history window = elim (Option-cases (trend m.cfg (ps ++ mid ∷ []))) [
    | inl quiet ↦ rw quiet (record {
      same_cfg = refl;
      window = window;
      follows = inl (refl, refl, λ more. rw quiet refl);
    })
    | inr (side, moves) ↦ elim (Bool-cases (side_eq side m.last_signal)) [
      | inl again ↦
          rw (moves, follow_signal, again)
            (record {
              same_cfg = refl;
              window = window;
              follows = inl (refl, refl, λ more. rw (moves, again) refl);
            })
      | inr turns ↦
          rw (moves, follow_signal, turns)
            (record {
              same_cfg = refl;
              window = window;
              follows = inr (_, refl, refl, moves, λ more. rw (moves, turns) refl);
            })
    ]
  ]

  on_tick-Ticks :
      (t : Tick F) (m : MomentumTrader F) (ps : List F)
      → m.cfg.short_window ≤ m.cfg.long_window
      → m.price_history ≡ last m.cfg.long_window ps
      → let (n, os) = on_tick t.acquired t.book t.ts m in Ticks m n ps (mids (t ∷ [])) os
  unfolding on_tick
  on_tick-Ticks t m ps h seen = elim (Bool-cases (d.le (mid_price t.book) (number 0))) [
    | inl e ↦
        let run : on_tick t.acquired t.book t.ts m ≡ (m, []) = rw (on_tick, e) refl in
        let none_new : mids (t ∷ []) ≡ [] = rw e refl in
        rw (run, none_new)
          (record {
            same_cfg = refl;
            window = seen ∙ ap (last m.cfg.long_window) (sym (append-nil ps));
            follows = inl (refl, refl, λ more. refl);
          })
    | inr e ↦
        let mid = mid_price t.book in
        let history = push_price m.cfg.long_window mid m.price_history in
        let stored = record m { price_history = history } in
        let window : history ≡ last m.cfg.long_window (ps ++ mid ∷ []) =
          ap (push_price m.cfg.long_window mid) seen ∙ push_price-last m.cfg.long_window mid ps in
        let run : on_tick t.acquired t.book t.ts m
            ≡ answer t.acquired t.ts (trend m.cfg (ps ++ mid ∷ [])) stored =
          rw (on_tick, e) (act-trend t.acquired t.ts stored (ps ++ mid ∷ []) h window) in
        let one_new : mids (t ∷ []) ≡ mid ∷ [] = rw e refl in
        rw (run, one_new) (answer-Ticks t.acquired t.ts m ps mid history window)
  ]

  -- The orders of a run of a trader with the window of `ps`.
  abbrev RunsOn : List (Tick F) → MomentumTrader F → List F → Type 0
  RunsOn ts m ps =
      m.cfg.short_window ≤ m.cfg.long_window
      → m.price_history ≡ last m.cfg.long_window ps
      → sides (run ts m).1 ≡ changes m.last_signal (trends m.cfg ps (mids ts))

  after_tick :
      (ts : List (Tick F)) (m n : MomentumTrader F) (ps new : List F) (os : List (Order F))
      → m.cfg.short_window ≤ m.cfg.long_window
      → Ticks m n ps new os
      → RunsOn ts n (ps ++ new)
      → sides (run ts n).1 ≡ changes n.last_signal (trends m.cfg (ps ++ new) (mids ts))
  after_tick ts m n ps new os h now runs =
      runs (rw now.same_cfg h)
        (now.window ∙ ap (λ c. last c.long_window (ps ++ new)) (sym now.same_cfg))
      ∙ ap (λ c. changes n.last_signal (trends c (ps ++ new) (mids ts))) now.same_cfg

  run-changes : (ts : List (Tick F)) (m : MomentumTrader F) (ps : List F) → RunsOn ts m ps
  unfolding run
  run-changes [] m ps h seen = refl
  run-changes (t ∷ ts) m ps h seen =
      let (n, os) = on_tick t.acquired t.book t.ts m in
      let now = on_tick-Ticks t m ps h seen in
      let qs = ps ++ mids (t ∷ []) in
      let later = trends m.cfg qs (mids ts) in
      let behind : sides (run ts n).1 ≡ changes n.last_signal later =
        after_tick ts m n ps (mids (t ∷ [])) os h now (run-changes ts n qs) in
      let all = ap (changes m.last_signal) (trends-mids m.cfg ps t ts) in
      elim now.follows [
        | inl (none_made, same, skips) ↦
            ap (λ r. sides (r ++ (run ts n).1)) none_made
            ∙ behind
            ∙ ap (λ s. changes s later) same
            ∙ sym (all ∙ skips later)
        | inr (o, made, same, moves, turns) ↦
            ap (λ r. sides (r ++ (run ts n).1)) made
            ∙ ap (λ r. o.side ∷ r) (behind ∙ ap (λ s. changes s later) same)
            ∙ sym (all ∙ turns later)
      ]

  -- If the short window of a momentum trader is not longer than its long one, its history is the
  -- window of some list of prices, and a tick makes an order, then the side of this order is the
  -- trend of those prices with that of the tick behind them, and the sides of its orders over any
  -- further ticks are the changes of the trend from there on. The trend is up if the average of
  -- the last prices of the short window is above that of the long one by more than the threshold,
  -- down if it is below by more, and none while there are fewer prices than the long window.
  pub run-FollowsTrend :
      (t : Tick F) (ts : List (Tick F)) (m n : MomentumTrader F) (o : Order F) (ps : List F)
      → m.cfg.short_window ≤ m.cfg.long_window
      → m.price_history ≡ last m.cfg.long_window ps
      → on_tick t.acquired t.book t.ts m ≡ (n, o ∷ [])
      → let seen = ps ++ mids (t ∷ []) in
        (trend m.cfg seen ≡ some o.side)
        × (sides (run ts n).1 ≡ changes o.side (trends m.cfg seen (mids ts)))
  run-FollowsTrend t ts m n o ps h seen made =
      let now : Ticks m n ps (mids (t ∷ [])) (o ∷ []) =
        subst (λ r. Ticks m r.0 ps (mids (t ∷ [])) r.1) made (on_tick-Ticks t m ps h seen) in
      let qs = ps ++ mids (t ∷ []) in
      let behind : sides (run ts n).1 ≡ changes n.last_signal (trends m.cfg qs (mids ts)) =
        after_tick ts m n ps (mids (t ∷ [])) (o ∷ []) h now (run-changes ts n qs) in
      elim now.follows [
        | inl (none_made, same, skips) ↦ absurd cc
        | inr (r, is, same, moves, turns) ↦
            let same_side : r.side ≡ o.side = ap (λ qs. first_side o qs) (sym is) in
            (
              moves ∙ ap some same_side,
              behind ∙ ap (λ s. changes s (trends m.cfg qs (mids ts))) (same ∙ same_side),
            )
      ]
