-- ===== src/Traders/Momentum/Signals.antt =====
-- The window of prices over a run of ticks.
use cpp_matching_engine.Prelude.{
  ℕ, ◌≡◌, refl, sym, ap, ◌∙◌, List, [], ◌∷◌, ◌++◌, not, ◌&&◌, ltb, length, if◌then◌else◌,
  Bool-cases, inl, inr, append_assoc, append-nil,
}
use cpp_matching_engine.Double.{Double}
use cpp_matching_engine.Types.{Side, buy, sell, Order}
use cpp_matching_engine.OrderBook.{OrderBook, mid_price}
use cpp_matching_engine.TradingAgent.{number}
use cpp_matching_engine.Traders.{push_price}
use cpp_matching_engine.Traders.Windows.{last, push_price-last}
use cpp_matching_engine.Traders.Momentum.{
  MomentumTrader, side_eq, is_bullish, is_bearish, follow_signal, act, on_tick,
}

pub record Tick (F : Type 0) : Type 0 where
  pub acquired : Order F
  pub book : OrderBook F
  pub ts : ℕ

module _ {F : Type 0} ⦃d : Double F⦄ where
  -- The trader after a run of ticks, with the orders that it made.
  unfoldable pub run : List (Tick F) → MomentumTrader F → MomentumTrader F × List (Order F)
  run [] m = (m, [])
  run (t ∷ ts) m =
      let (n, os) = on_tick t.acquired t.book t.ts m in let (k, more) = run ts n in (k, os ++ more)

  -- The middle prices of the ticks that have one.
  abbrev pub mids : List (Tick F) → List F
  mids [] = []
  mids (t ∷ ts) =
      let mid = mid_price t.book in if d.le mid (number 0) then mids ts else mid ∷ mids ts

  -- The trader once it has stored the price of a tick, if there is one.
  abbrev stored : Tick F → MomentumTrader F → MomentumTrader F
  stored t m =
      let mid = mid_price t.book in
      if d.le mid (number 0)
      then m
      else record m { price_history = push_price m.cfg.long_window mid m.price_history }

  -- Settings and prices are the same.
  abbrev Keeps : MomentumTrader F → MomentumTrader F → Type 0
  Keeps m n = (n.cfg ≡ m.cfg) × (n.price_history ≡ m.price_history)

  follow_signal-Keeps :
      (o : Order F) (ts : ℕ) (s : Side) (m : MomentumTrader F) → Keeps m (follow_signal o ts s m).0
  unfolding follow_signal
  follow_signal-Keeps o ts s m = elim (Bool-cases (side_eq s m.last_signal)) [
    | inl e ↦ rw (follow_signal, e) (refl, refl)
    | inr e ↦ rw (follow_signal, e) (refl, refl)
  ]

  act-Keeps : (o : Order F) (ts : ℕ) (m : MomentumTrader F) → Keeps m (act o ts m).0
  unfolding act
  act-Keeps o ts m = elim (Bool-cases (ltb (length m.price_history) m.cfg.long_window)) [
    | inl e ↦ rw (act, e) (refl, refl)
    | inr e ↦ elim (Bool-cases (not (is_bullish m) && not (is_bearish m))) [
      | inl f ↦ rw (act, e, f) (refl, refl)
      | inr f ↦ rw (act, e, f) (follow_signal-Keeps o ts (if is_bullish m then buy else sell) m)
    ]
  ]

  on_tick-Keeps :
      (t : Tick F) (m : MomentumTrader F)
      → Keeps (stored t m) (on_tick t.acquired t.book t.ts m).0 × ((stored t m).cfg ≡ m.cfg)
  unfolding on_tick
  on_tick-Keeps t m = elim (Bool-cases (d.le (mid_price t.book) (number 0))) [
    | inl e ↦ rw (on_tick, e) ((refl, refl), refl)
    | inr e ↦
        let history = push_price m.cfg.long_window (mid_price t.book) m.price_history in
        rw (on_tick, e) (act-Keeps t.acquired t.ts (record m { price_history = history }), refl)
  ]

  stored-last :
      (t : Tick F) (m : MomentumTrader F) (ps : List F)
      → m.price_history ≡ last m.cfg.long_window ps
      → (stored t m).price_history ≡ last m.cfg.long_window (ps ++ mids (t ∷ []))
  stored-last t m ps h = elim (Bool-cases (d.le (mid_price t.book) (number 0))) [
    | inl e ↦ rw e (h ∙ ap (last m.cfg.long_window) (sym (append-nil ps)))
    | inr e ↦
        let mid = mid_price t.book in
        rw e (ap (push_price m.cfg.long_window mid) h ∙ push_price-last m.cfg.long_window mid ps)
  ]

  pub mids-cons : (t : Tick F) (ts : List (Tick F)) → mids (t ∷ ts) ≡ mids (t ∷ []) ++ mids ts
  mids-cons t ts = elim (Bool-cases (d.le (mid_price t.book) (number 0))) [
    | inl e ↦ rw e refl
    | inr e ↦ rw e refl
  ]

  -- If the history of a momentum trader is the window of some list of prices, so many last of
  -- them as the long window says, then after any run of ticks it is the window of that list with
  -- the middle prices of the run behind it, those that are not above zero left out.
  pub run-price_history :
      (ts : List (Tick F)) (m : MomentumTrader F) (ps : List F)
      → m.price_history ≡ last m.cfg.long_window ps
      → (run ts m).0.price_history ≡ last m.cfg.long_window (ps ++ mids ts)
  unfolding run
  run-price_history [] m ps h = h ∙ ap (last m.cfg.long_window) (sym (append-nil ps))
  run-price_history (t ∷ ts) m ps h =
      let ((cfg, kept), same) = on_tick-Keeps t m in
      let n = (on_tick t.acquired t.book t.ts m).0 in
      let here = kept ∙ stored-last t m ps h in
      let size = ap (λ c. c.long_window) (cfg ∙ same) in
      let seen = ps ++ mids (t ∷ []) in
      run-price_history ts n seen (here ∙ ap (λ w. last w seen) (sym size))
      ∙ ap (λ w. last w (seen ++ mids ts)) size
      ∙ ap (last m.cfg.long_window)
          (append_assoc ps (mids (t ∷ [])) (mids ts) ∙ ap (λ r. ps ++ r) (sym (mids-cons t ts)))
