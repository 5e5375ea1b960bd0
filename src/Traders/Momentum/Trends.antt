-- ===== src/Traders/Momentum/Trends.antt =====
-- The trend of a list of prices, and the trader that follows it.
use cpp_matching_engine.Prelude.{
  ℕ, ◌≡◌, refl, sym, ap, ◌∙◌, List, [], ◌∷◌, ◌++◌, Option, none, some, ltb, length, if◌then◌else◌,
  Bool-cases, inl, inr, append_assoc, append-nil, ◌≤◌, ◌-◌, ◌+◌, arith, drop, drop-drop,
  length-drop,
}
use cpp_matching_engine.Double.{Double}
use cpp_matching_engine.Types.{Side, buy, sell, Order}
use cpp_matching_engine.TradingAgent.{number}
use cpp_matching_engine.Traders.{total_from}
use cpp_matching_engine.Traders.Windows.{last}
use cpp_matching_engine.Traders.Momentum.{
  MomentumTrader, Config, side_eq, is_bullish, is_bearish, compute_ma, follow_signal, act,
}
use cpp_matching_engine.Traders.Momentum.Signals.{Tick, mids, mids-cons}

-- The signals that differ from the one before them, the first from `side`.
abbrev pub changes : Side → List (Option Side) → List Side
changes side [] = []
changes side (none ∷ rest) = changes side rest
changes side (some next ∷ rest) =
    if side_eq next side then changes side rest else next ∷ changes next rest

module _ {F : Type 0} where
  abbrev pub sides : List (Order F) → List Side
  sides [] = []
  sides (o ∷ os) = o.side ∷ sides os

  last-last :
      (short long : ℕ) (ps : List F) → short ≤ long → last short (last long ps) ≡ last short ps
  last-last short long ps h =
      let k = length ps - long in
      let count : k + (length (drop k ps) - short) ≡ length ps - short =
        omega (arith, length-drop k ps) in
      drop-drop k (length (drop k ps) - short) ps ∙ ap (λ n. drop n ps) count

module _ {F : Type 0} ⦃d : Double F⦄ where
  abbrev pub average : List F → F
  average ps = d.div (total_from (number 0) ps) (number (length ps))

  -- The trend of prices of which `ps` are all so far: the average of a few last ones is above or
  -- below the average of many last ones by more than the threshold.
  abbrev pub trend : Config F → List F → Option Side
  trend cfg ps =
      let fast = average (last cfg.short_window ps) in
      let slow = average (last cfg.long_window ps) in
      if ltb (length ps) cfg.long_window
      then none
      else if d.lt (d.mul slow (d.add (number 1) cfg.threshold)) fast
      then some buy
      else if d.lt fast (d.mul slow (d.sub (number 1) cfg.threshold))
      then some sell
      else none

  -- The trend after each of the prices that come behind `seen`.
  abbrev pub trends : Config F → List F → List F → List (Option Side)
  trends cfg seen [] = []
  trends cfg seen (p ∷ ps) = trend cfg (seen ++ p ∷ []) ∷ trends cfg (seen ++ p ∷ []) ps

  compute_ma-average :
      (window long : ℕ) (ps : List F)
      → window ≤ long
      → long ≤ length ps
      → compute_ma window (last long ps) ≡ average (last window ps)
  unfolding compute_ma
  compute_ma-average window long ps h enough =
      let size : length (last window ps) ≡ window =
        omega (arith, length-drop (length ps - window) ps) in
      ap (λ qs. d.div (total_from (number 0) qs) (number window)) (last-last window long ps h)
      ∙ ap (λ n. d.div (total_from (number 0) (last window ps)) (number n)) (sym size)

  -- What the trader does on a trend.
  abbrev pub answer :
      Order F → ℕ → Option Side → MomentumTrader F → MomentumTrader F × List (Order F)
  answer o ts none m = (m, [])
  answer o ts (some side) m = follow_signal o ts side m

  pub act-trend :
      (o : Order F) (ts : ℕ) (m : MomentumTrader F) (ps : List F)
      → m.cfg.short_window ≤ m.cfg.long_window
      → m.price_history ≡ last m.cfg.long_window ps
      → act o ts m ≡ answer o ts (trend m.cfg ps) m
  unfolding act
  act-trend o ts m ps h seen =
      let short = m.cfg.short_window in
      let long = m.cfg.long_window in
      let slow = average (last long ps) in
      let fast = average (last short ps) in
      let same : ltb (length m.price_history) long ≡ ltb (length ps) long =
        ap (λ qs. ltb (length qs) long) seen ∙ ground (arith, length-drop (length ps - long) ps) in
      elim (Bool-cases (ltb (length ps) long)) [
        | inl e ↦ rw (act, same, e) refl
        | inr e ↦
            let enough : long ≤ length ps = ground arith in
            let fast_ma : compute_ma short m.price_history ≡ fast =
              ap (compute_ma short) seen ∙ compute_ma-average short long ps h enough in
            let slow_ma : compute_ma long m.price_history ≡ slow =
              ap (compute_ma long) seen ∙ compute_ma-average long long ps (omega arith) enough in
            let over = d.mul slow (d.add (number 1) m.cfg.threshold) in
            let under = d.mul slow (d.sub (number 1) m.cfg.threshold) in
            let bull : is_bullish m ≡ d.lt over fast =
              ap
                (λ r.
                  d.lt (d.mul r (d.add (number 1) m.cfg.threshold))
                    (compute_ma short m.price_history))
                slow_ma
              ∙ ap (d.lt over) fast_ma in
            let bear : is_bearish m ≡ d.lt fast under =
              ap
                (λ r.
                  d.lt r
                    (d.mul (compute_ma long m.price_history) (d.sub (number 1) m.cfg.threshold)))
                fast_ma
              ∙ ap (λ r. d.lt fast (d.mul r (d.sub (number 1) m.cfg.threshold))) slow_ma in
            elim (Bool-cases (d.lt over fast)) [
              | inl up ↦ rw (act, same, e, bull, up) refl
              | inr not_up ↦ elim (Bool-cases (d.lt fast under)) [
                | inl down ↦ rw (act, same, e, bull, bear, not_up, down) refl
                | inr not_down ↦ rw (act, same, e, bull, bear, not_up, not_down) refl
              ]
            ]
      ]

  trends-append :
      (cfg : Config F) (seen ps qs : List F)
      → trends cfg seen (ps ++ qs) ≡ trends cfg seen ps ++ trends cfg (seen ++ ps) qs
  trends-append cfg seen [] qs = ap (λ r. trends cfg r qs) (sym (append-nil seen))
  trends-append cfg seen (p ∷ ps) qs =
      let at = seen ++ p ∷ [] in
      ap (λ r. trend cfg at ∷ r)
        (trends-append cfg at ps qs
          ∙ ap (λ r. trends cfg at ps ++ trends cfg r qs) (append_assoc seen (p ∷ []) ps))

  -- The trends of a run begin with those of its first tick.
  pub trends-mids :
      (cfg : Config F) (ps : List F) (t : Tick F) (ts : List (Tick F))
      → trends cfg ps (mids (t ∷ ts))
        ≡ trends cfg ps (mids (t ∷ [])) ++ trends cfg (ps ++ mids (t ∷ [])) (mids ts)
  trends-mids cfg ps t ts =
      ap (trends cfg ps) (mids-cons t ts) ∙ trends-append cfg ps (mids (t ∷ [])) (mids ts)
