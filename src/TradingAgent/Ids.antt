-- ===== src/TradingAgent/Ids.antt =====
-- The order ids of an agent: attributable, and never given twice.
use cpp_matching_engine.Prelude.{
  ℕ, zero, suc, ◌≡◌, List, [], ◌∷◌, ◌+◌, ◌*◌, ◌<◌, ◌/◌, ◌%◌, ◌^◌, arith, u64_mod, subst,
}
use cpp_matching_engine.Prelude.Bits.{bit_or-above}
use cpp_matching_engine.TradingAgent.{TradingAgent, next_order_id}

-- `id` is given after the ids up to `last`, and names the agent.
abbrev pub IsIdOf : ℕ → ℕ → ℕ → Type 0
IsIdOf trader_id last id = (last < id) × (id / 2 ^ 32 ≡ trader_id)

abbrev pub AreIdsOf : ℕ → ℕ → List ℕ → Type 0
AreIdsOf trader_id last [] = Unit
AreIdsOf trader_id last (id ∷ ids) = IsIdOf trader_id last id × AreIdsOf trader_id id ids

module _ {F : Type 0} where
  -- The ids of `n` calls.
  unfoldable pub order_ids : ℕ → TradingAgent F → List ℕ
  order_ids zero a = []
  order_ids (suc n) a = let (b, id) = next_order_id a in id ∷ order_ids n b

  -- The agent can number `n` more orders.
  abbrev pub CanNumber : ℕ → TradingAgent F → Type 0
  CanNumber n a = (a.trader_id < 2 ^ 32) × (a.id_counter + n < 2 ^ 32)

  pub next_order_id-value :
      (a : TradingAgent F)
      → CanNumber 1 a
      → (next_order_id a).1 ≡ a.trader_id * 2 ^ 32 + (a.id_counter + 1)
  unfolding next_order_id
  next_order_id-value a (h, k) =
      let high : (a.trader_id * 2 ^ 32) % u64_mod ≡ a.trader_id * 2 ^ 32 = omega arith in
      let low : (a.id_counter + 1) % u64_mod ≡ a.id_counter + 1 = omega arith in
      rw (high, low) (bit_or-above 32 a.trader_id (a.id_counter + 1) (omega arith))

  pub next_order_id-CanNumber :
      (n : ℕ) (a : TradingAgent F) → CanNumber (suc n) a → CanNumber n (next_order_id a).0
  unfolding next_order_id
  next_order_id-CanNumber n a (h, k) =
      let low : (a.id_counter + 1) % u64_mod ≡ a.id_counter + 1 = omega arith in
      (h, rw low (omega arith))

  -- While trader id and counter of an agent stay below 2^32, the order ids that it draws grow
  -- strictly, and each has the trader id in its upper 32 bits.
  pub order_ids-AreIdsOf :
      (n : ℕ) (a : TradingAgent F)
      → CanNumber n a
      → AreIdsOf a.trader_id (a.trader_id * 2 ^ 32 + a.id_counter) (order_ids n a)
  unfolding order_ids next_order_id
  order_ids-AreIdsOf zero a h = tt
  order_ids-AreIdsOf (suc n) a h =
      let low : (a.id_counter + 1) % u64_mod ≡ a.id_counter + 1 = omega arith in
      let id = next_order_id-value a (h.0, omega arith) in
      let later = order_ids-AreIdsOf n (next_order_id a).0 (next_order_id-CanNumber n a h) in
      let here : a.trader_id * 2 ^ 32 + (next_order_id a).0.id_counter ≡ (next_order_id a).1 =
        omega (arith, id, low) in
      (
        (omega (arith, id), omega (arith, id)),
        subst (λ last. AreIdsOf a.trader_id last (order_ids n (next_order_id a).0)) here later,
      )
