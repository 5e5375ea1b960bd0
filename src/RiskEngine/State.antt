-- ===== src/RiskEngine/State.antt =====
-- risk/risk_engine.h: reading the state of a trader in a symbol after a write.
use cpp_matching_engine.Prelude.{
  ℕ, ◌≡◌, refl, ◌&&◌, List, inl, inr, if◌then◌else◌, ◌==◌, nat_eq, list_eq, Bool-cases,
}
use cpp_matching_engine.Prelude.Map
use cpp_matching_engine.Prelude.Map.{Map}
use cpp_matching_engine.RiskEngine.{
  RiskEngine, OrderExposure, TraderRiskState, symbols_of, state_of, put_state,
}

pub symbols_of-put_state :
    (t u : ℕ) (sym : List ℕ) (x : TraderRiskState) (e : RiskEngine)
    → symbols_of u (put_state t sym x e)
      ≡ (if t == u then Map.insert sym x (symbols_of t e) else symbols_of u e)
unfolding symbols_of put_state
symbols_of-put_state t u sym x e = elim (Bool-cases (t == u)) [
  | inl h ↦ rw (symbols_of, put_state, Map.find-insert, h) refl
  | inr h ↦ rw (symbols_of, put_state, Map.find-insert, h) refl
]

-- A write is seen by the reads of its trader and symbol, and by no others.
pub state_of-put_state :
    (t u : ℕ) (sym sym' : List ℕ) (x : TraderRiskState) (e : RiskEngine)
    → state_of u sym' (put_state t sym x e)
      ≡ (if t == u && sym == sym' then x else state_of u sym' e)
unfolding state_of
state_of-put_state t u sym sym' x e = elim (Bool-cases (t == u)) [
  | inl h ↦
      let same : t ≡ u = (nat_eq.same_iff t u).0 h in
      elim (Bool-cases (sym == sym')) [
        | inl k ↦ rw (state_of, symbols_of-put_state t u sym x e, h, Map.find-insert, k) refl
        | inr k ↦ rw (state_of, symbols_of-put_state t u sym x e, h, Map.find-insert, k, same) refl
      ]
  | inr h ↦ rw (state_of, symbols_of-put_state t u sym x e, h) refl
]

-- The exposures are kept apart from the states.
pub state_of-write :
    (t u : ℕ) (sym sym' : List ℕ) (x : TraderRiskState) (e : RiskEngine) (m : Map ℕ OrderExposure)
    → state_of u sym' (record (put_state t sym x e) { order_exposures = m })
      ≡ (if t == u && sym == sym' then x else state_of u sym' e)
unfolding state_of symbols_of
state_of-write t u sym sym' x e m = state_of-put_state t u sym sym' x e
