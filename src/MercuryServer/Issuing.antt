-- ===== src/MercuryServer/Issuing.antt =====
-- The submissions of an agent's tick among the ids of the others.
use cpp_matching_engine.Prelude.{
  ℕ, ◌≡◌, ◌≢◌, ◌∙◌, List, some, true, inl, inr, ◌⊎◌, All, All-impl, ◌+◌, ◌*◌, ◌<◌, ◌≤◌, ◌^◌, arith,
  length, nat_eq, list_eq, Bool-cases, ltb,
}
use cpp_matching_engine.Double.{Double, IsOrdered}
use cpp_matching_engine.Types.{Order}
use cpp_matching_engine.Exchange.{Exchange, has_symbol}
use cpp_matching_engine.Exchange.Routing.{IsRouted}
use cpp_matching_engine.TradingAgent.{TradingAgent}
use cpp_matching_engine.Traders.Making.{Issues}
use cpp_matching_engine.MercuryServer.Submissions.{IsUnknown, AreFresh, Grows, submit_all-Grows}
use cpp_matching_engine.MercuryServer.Ids.{
  IsAhead, AreIssued-AreBetween, AreIssued-AreFresh, Grows-IsUnknown, AreFresh-IsUnknown, Forgets,
}
use cpp_matching_engine.MercuryServer.{submit_all}

-- The ids of two traders lie apart.
other_band :
    (t c n u k : ℕ)
    → c + n < 2 ^ 32
    → t ≢ u
    → u * 2 ^ 32 ≤ k
    → k < (u + 1) * 2 ^ 32
    → (k ≤ t * 2 ^ 32 + c) ⊎ (t * 2 ^ 32 + c + n < k)
other_band t c n u k small apart above below = elim (Bool-cases (ltb t u)) [
  | inl e ↦ let less : t < u = ground arith in inr (omega arith)
  | inr e ↦ let more : u < t = ground (arith, apart) in inl (omega arith)
]

outside_low : {t : ℕ} (id k : ℕ) → id < 2 ^ 32 → 0 < t → t * 2 ^ 32 ≤ k → id ≢ k
outside_low id k below h above e = omega arith

module _ {F : Type 0} where
  -- The exchange knows no id that the agent has yet to give, and some ids are the agent's only.
  abbrev pub IsBehind : TradingAgent F → Exchange F → Type 0
  IsBehind a x = (0 < a.trader_id) × IsAhead a.trader_id a.id_counter x

  -- Orders from outside, with ids below those of all agents.
  abbrev pub AreOutside : Exchange F → List (Order F) → Type 0
  AreOutside x os = AreFresh x os × All (λ o. o.order_id < 2 ^ 32) os

module _ {F : Type 0} ⦃d : Double F⦄ where
  -- Cancels keep what is asked of the state.
  pub Forgets-IsBehind :
      (a : TradingAgent F) (x y : Exchange F) → Forgets x y → IsBehind a x → IsBehind a y
  Forgets-IsBehind a x y f (h, ahead) = (h, λ k above below. f.0 k (ahead k above below))

  pub Forgets-AreOutside :
      (os : List (Order F)) (x y : Exchange F) → Forgets x y → AreOutside x os → AreOutside y os
  Forgets-AreOutside os x y f (fresh, low) =
      (AreFresh-IsUnknown os x y (All-impl os (λ o below. f.0 o.order_id) low) fresh, low)

  pub Grows-IsBehind :
      (a : TradingAgent F) (os : List (Order F)) (x y : Exchange F)
      → Grows x os y
      → All (λ o. o.order_id < 2 ^ 32) os
      → IsBehind a x
      → IsBehind a y
  Grows-IsBehind a os x y grows low (some_id, ahead) = (
    some_id,
    λ k above below.
        let apart = λ (o : Order F) (h : o.order_id < 2 ^ 32).
          outside_low o.order_id k h some_id (omega arith) in
        grows.others k (All-impl os apart low) ∙ ahead k above below,
  )

module _ {F : Type 0} ⦃d : Double F⦄ (ord : IsOrdered F) (now_ns : ℕ → ℕ) where
  -- The submissions of an agent's tick: what they keep of the exchange, of the other agent's ids and
  -- of the orders from outside.
  pub issued-submitted :
      (a b other : TradingAgent F) (os external : List (Order F)) (x : Exchange F)
      → IsRouted x
      → Issues a os b
      → a.id_counter + length os < 2 ^ 32
      → IsBehind a x
      → IsBehind other x
      → a.trader_id ≢ other.trader_id
      → other.id_counter < 2 ^ 32
      → AreOutside x external
      → (y : Exchange F) × (submit_all now_ns os x ≡ some y)
        × IsRouted y
        × IsBehind b y
        × IsBehind other y
        × AreOutside y external
        × ((s : List ℕ) → has_symbol s x ≡ true → has_symbol s y ≡ true)
  issued-submitted a b other os external x v issues small (some_id, ahead) (other_id, others) apart
        few (fresh, low) =
      let between = AreIssued-AreBetween a.trader_id a.id_counter os issues.issued in
      let new = AreIssued-AreFresh a.trader_id a.id_counter os x small ahead issues.issued in
      let (y, run, w, grows) = submit_all-Grows ord now_ns os x v new in
      let floor = a.trader_id * 2 ^ 32 + a.id_counter in
      let keep =
        λ (k : ℕ) (outside : (k ≤ floor) ⊎ (floor + length os < k)) (unknown : IsUnknown x k).
          Grows-IsUnknown floor (floor + length os) k os x y grows between outside unknown in
      (
        y,
        run,
        w,
        (
          omega (arith, issues.same_trader),
          λ k above below. keep k (inr (ground (arith, issues.counted, issues.same_trader))) (
              ahead k (ground (arith, issues.counted, issues.same_trader))
                (ground (arith, issues.same_trader))),
        ),
        (
          other_id,
          λ k above below.
              keep k
                (other_band a.trader_id a.id_counter (length os) other.trader_id k small apart
                  (omega arith) below)
                (others k above below),
        ),
        (
          AreFresh-IsUnknown external x y
              (All-impl external (λ o below. keep o.order_id (inl (omega arith))) low) fresh,
          low,
        ),
        grows.listed,
      )
