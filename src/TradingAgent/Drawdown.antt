-- ===== src/TradingAgent/Drawdown.antt =====
-- The samples of an agent's profit: the peak and the largest fall from it.
use cpp_matching_engine.Prelude.{
  ℕ, ◌≡◌, List, [], ◌∷◌, true, false, All, Bool-cases, inl, inr, ◌∙◌, sym, ap,
}
use mathlib.Core.Bool.{true≢false}
use cpp_matching_engine.Double.{Double, IsOrdered}
use cpp_matching_engine.Types.{Side, buy, sell, ExecutionReport}
use cpp_matching_engine.TradingAgent.{
  TradingAgent, record_fill, record_side, record_buy, close_long, is_positive, total_pnl,
  record_pnl_sample, larger,
}

-- What happens to an agent between the ticks and on them.
pub data AgentEvent (F : Type 0) : Type 0 where
  fill : ExecutionReport F → AgentEvent F
  sample : F → AgentEvent F

module _ {F : Type 0} ⦃d : Double F⦄ where
  abbrev pub handle : AgentEvent F → TradingAgent F → TradingAgent F
  handle (fill r) a = record_fill r a
  handle (sample current_mid) a = record_pnl_sample current_mid a

  unfoldable pub run : List (AgentEvent F) → TradingAgent F → TradingAgent F
  run [] a = a
  run (e ∷ es) a = run es (handle e a)

  -- The profits that the samples of a run see.
  unfoldable pub sampled : List (AgentEvent F) → TradingAgent F → List F
  sampled [] a = []
  sampled (fill r ∷ es) a = sampled es (record_fill r a)
  sampled (sample current_mid ∷ es) a =
      total_pnl a current_mid ∷ sampled es (record_pnl_sample current_mid a)

  abbrev pub IsAtMost : F → F → Type 0
  IsAtMost a b = d.lt b a ≡ false

  -- No value falls by more than `drop` from one that stands before it.
  abbrev pub HasFall : F → List F → Type 0
  HasFall drop [] = Unit
  HasFall drop (x ∷ xs) = All (λ y. IsAtMost (d.sub x y) drop) xs × HasFall drop xs

-- A larger number less the same is not smaller, which holds of IEEE subtraction as it rounds
-- monotonically.
pub record IsMonotone (F : Type 0) ⦃d : Double F⦄ : Type 0 where
  pub sub_mono : (a b c : F) → IsAtMost a b → IsAtMost (d.sub a c) (d.sub b c)

module _ {F : Type 0} ⦃d : Double F⦄ (laws : IsOrdered F) where
  asymmetric : {a b : F} → d.lt a b ≡ true → IsAtMost a b
  asymmetric {a} {b} h = elim (Bool-cases (d.lt b a)) [
    | inl e ↦ absurd (true≢false (sym (laws.lt_trans a b a h e) ∙ laws.lt_irrefl a))
    | inr e ↦ e
  ]

  IsAtMost-trans : (a b c : F) → IsAtMost a b → IsAtMost b c → IsAtMost a c
  IsAtMost-trans a b c h k = elim (Bool-cases (d.lt c a)) [
    | inr e ↦ e
    | inl e ↦ elim (Bool-cases (d.lt b c)) [
      | inl f ↦ let g = laws.lt_trans b c a f e in absurd (true≢false (sym g ∙ h))
      | inr f ↦
          let g = laws.lt_total b c f k in
          absurd (true≢false (sym e ∙ ap (λ x. d.lt x a) (sym g) ∙ h))
    ]
  ]

  larger-bounds : (a b : F) → IsAtMost a (larger a b) × IsAtMost b (larger a b)
  larger-bounds a b = elim (Bool-cases (d.lt b a)) [
    | inl e ↦ rw e (laws.lt_irrefl a, asymmetric e)
    | inr e ↦ rw e (e, laws.lt_irrefl b)
  ]

  -- The largest profit and the largest fall only grow.
  abbrev Grows : TradingAgent F → TradingAgent F → Type 0
  Grows a b = IsAtMost a.peak_pnl b.peak_pnl × IsAtMost a.max_drawdown b.max_drawdown

  Grows-trans : (a b c : TradingAgent F) → Grows a b → Grows b c → Grows a c
  Grows-trans a b c h k = (IsAtMost-trans _ _ _ h.0 k.0, IsAtMost-trans _ _ _ h.1 k.1)

  Grows-refl : (a : TradingAgent F) → Grows a a
  Grows-refl a = (laws.lt_irrefl _, laws.lt_irrefl _)

  record_side-Grows :
      (side : Side) (price : F) (q : ℕ) (a : TradingAgent F) → Grows a (record_side side price q a)
  unfolding record_buy close_long
  record_side-Grows buy price q a = Grows-refl a
  record_side-Grows sell price q a = elim (Bool-cases (is_positive a.inventory)) [
    | inl e ↦ rw e (Grows-refl a)
    | inr e ↦ rw e (Grows-refl a)
  ]

  handle-Grows : (e : AgentEvent F) (a : TradingAgent F) → Grows a (handle e a)
  unfolding record_pnl_sample record_fill
  handle-Grows (fill r) a = record_side-Grows r.side r.exec_price r.exec_qty _
  handle-Grows (sample mid) a =
      ((larger-bounds (total_pnl a mid) a.peak_pnl).1, (larger-bounds _ a.max_drawdown).1)

  run-Grows : (es : List (AgentEvent F)) (a : TradingAgent F) → Grows a (run es a)
  unfolding run
  run-Grows [] a = Grows-refl a
  run-Grows (e ∷ es) a =
      Grows-trans a (handle e a) (run es (handle e a)) (handle-Grows e a)
        (run-Grows es (handle e a))

  module _ (monotone : IsMonotone F) where
    sample-fall :
        (x mid : F) (a : TradingAgent F)
        → IsAtMost x a.peak_pnl
        → IsAtMost (d.sub x (total_pnl a mid)) (record_pnl_sample mid a).max_drawdown
    unfolding record_pnl_sample
    sample-fall x mid a h =
        let pnl = total_pnl a mid in
        let peak = larger pnl a.peak_pnl in
        IsAtMost-trans _ _ _
          (monotone.sub_mono x peak pnl (IsAtMost-trans _ _ _ h (larger-bounds pnl a.peak_pnl).1))
          (larger-bounds (d.sub peak pnl) a.max_drawdown).0

    sampled-peak :
        (mid : F) (a : TradingAgent F)
        → IsAtMost (total_pnl a mid) (record_pnl_sample mid a).peak_pnl
    unfolding record_pnl_sample
    sampled-peak mid a = (larger-bounds (total_pnl a mid) a.peak_pnl).0

    -- The fall from what the peak has reached to a later sample is counted.
    run-peak :
        (x : F) (es : List (AgentEvent F)) (a : TradingAgent F)
        → IsAtMost x a.peak_pnl
        → All (λ y. IsAtMost (d.sub x y) (run es a).max_drawdown) (sampled es a)
    unfolding run sampled
    run-peak x [] a h = tt
    run-peak x (fill r ∷ es) a h =
        run-peak x es (record_fill r a) (IsAtMost-trans _ _ _ h (handle-Grows (fill r) a).0)
    run-peak x (sample mid ∷ es) a h =
        let b = record_pnl_sample mid a in
        (
          IsAtMost-trans _ _ _ (sample-fall x mid a h) (run-Grows es b).1,
          run-peak x es b (IsAtMost-trans _ _ _ h (handle-Grows (sample mid) a).0),
        )

    -- If no value is NaN and subtraction is monotone: after any sequence of fills and samples,
    -- the profit at a sample is less than the profit at an earlier sample of the sequence by no
    -- more than max_drawdown.
    pub run-max_drawdown :
        (es : List (AgentEvent F)) (a : TradingAgent F)
        → HasFall (run es a).max_drawdown (sampled es a)
    unfolding run sampled
    run-max_drawdown [] a = tt
    run-max_drawdown (fill r ∷ es) a = run-max_drawdown es (record_fill r a)
    run-max_drawdown (sample mid ∷ es) a =
        let b = record_pnl_sample mid a in
        (run-peak _ es b (sampled-peak mid a), run-max_drawdown es b)
