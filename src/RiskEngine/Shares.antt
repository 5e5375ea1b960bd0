-- ===== src/RiskEngine/Shares.antt =====
-- risk/risk_engine.h: open quantities as sums of the shares of the exposures.
use cpp_matching_engine.Prelude.{
  ℕ, ◌+◌, ◌-◌, ◌<◌, ◌≤◌, ◌≡◌, refl, true, ◌&&◌, List, inl, inr, if◌then◌else◌, ◌==◌, nat_eq,
  list_eq, arith, Bool-cases, subst, sym, ◌∙◌, All, u32_mod, ap,
}
use cpp_matching_engine.Prelude.Int.{ℤ, pos, ◌+ℤ◌, int_laws}
use cpp_matching_engine.Prelude.Map.{Map}
use cpp_matching_engine.Prelude.Totals.{IsDistinct, total}
use cpp_matching_engine.Types.{Side, buy, sell}
use cpp_matching_engine.RiskEngine.{
  RiskEngine, TraderRiskState, OrderExposure, state_of, put_state, open_more, open_less,
}
use cpp_matching_engine.RiskEngine.State.{state_of-write}

abbrev pub open_side : Side → TraderRiskState → ℤ
open_side buy s = s.open_buy_qty
open_side sell s = s.open_sell_qty

-- A quantity of one side, seen from a side.
abbrev pub seen : Side → Side → ℕ → ℕ
seen buy buy q = q
seen sell sell q = q
seen _ _ q = 0

-- What an exposure adds to the open quantity of a trader in a symbol on a side.
abbrev pub share : Side → ℕ → List ℕ → OrderExposure → ℕ
share side t symbol x = if x.trader_id == t && x.symbol == symbol then seen side x.side x.qty else 0

pub record IsAccounted (e : RiskEngine) : Type 0 where
  pub distinct : IsDistinct e.order_exposures
  pub small : All (λ x. x.1.qty < u32_mod) e.order_exposures
  pub balanced :
      (side : Side) (t : ℕ) (symbol : List ℕ)
      → open_side side (state_of t symbol e) ≡ pos (total (share side t symbol) e.order_exposures)

pub balance :
    (a b : ℤ) (p q k n : ℕ) → a +ℤ pos p ≡ b +ℤ pos q → b ≡ pos k → n + p ≡ k + q → a ≡ pos n
balance a b p q k n h e m = grind int_laws

-- A write that moves an exposure from its quantity to another, and the open quantity alike.
pub write-balanced :
    (x : OrderExposure) (n : ℕ) (s : TraderRiskState) (e : RiskEngine) (m : Map ℕ OrderExposure)
    → IsAccounted e
    → ((side : Side) (t : ℕ) (symbol : List ℕ)
        → total (share side t symbol) m + share side t symbol x
          ≡ total (share side t symbol) e.order_exposures
            + share side t symbol (record x { qty = n }))
    → ((side : Side)
        → open_side side s +ℤ pos (seen side x.side x.qty)
          ≡ open_side side (state_of x.trader_id x.symbol e) +ℤ pos (seen side x.side n))
    → (side : Side) (t : ℕ) (symbol : List ℕ)
    → open_side side
        (state_of t symbol (record (put_state x.trader_id x.symbol s e) { order_exposures = m }))
      ≡ pos (total (share side t symbol) m)
write-balanced x n s e m v moved opened side t symbol =
    let written = state_of-write x.trader_id t x.symbol symbol s e m in
    let shift = moved side t symbol in
    let before = total (share side t symbol) e.order_exposures in
    let after = total (share side t symbol) m in
    elim (Bool-cases (x.trader_id == t && x.symbol == symbol)) [
      | inl k ↦
          let k1 : (x.trader_id == t) ≡ true = ground arith in
          let k2 : (x.symbol == symbol) ≡ true = ground arith in
          let move : after + seen side x.side x.qty ≡ before + seen side x.side n =
            (rw k at shift) in
          let old : open_side side (state_of x.trader_id x.symbol e) ≡ pos before =
            subst (λ u. open_side side (state_of u x.symbol e) ≡ pos before)
              (sym ((nat_eq.same_iff x.trader_id t).0 k1))
              (subst (λ w. open_side side (state_of t w e) ≡ pos before)
                (sym ((list_eq.same_iff x.symbol symbol).0 k2)) (v.balanced side t symbol)) in
          ap (open_side side) (written ∙ rw k refl)
          ∙ balance (open_side side s) _ _ _ before after (opened side) old move
      | inr k ↦
          let stay : after + 0 ≡ before + 0 = (rw k at shift) in
          ap (open_side side) (written ∙ rw k refl)
          ∙ v.balanced side t symbol
          ∙ ap (λ n. pos n) (omega arith)
    ]

pub seen-zero : (side side' : Side) → seen side side' 0 ≡ 0
seen-zero buy buy = refl
seen-zero buy sell = refl
seen-zero sell buy = refl
seen-zero sell sell = refl

pub share-zero :
    (side : Side) (t : ℕ) (symbol : List ℕ) (x : OrderExposure)
    → share side t symbol (record x { qty = 0 }) ≡ 0
share-zero side t symbol x = elim (Bool-cases (x.trader_id == t && x.symbol == symbol)) [
  | inl k ↦ rw k (seen-zero side x.side)
  | inr k ↦ rw k refl
]

pub open_more-seen :
    (side side' : Side) (q : ℕ) (s : TraderRiskState)
    → open_side side (open_more side' q s) +ℤ pos 0 ≡ open_side side s +ℤ pos (seen side side' q)
open_more-seen buy buy q s = grind int_laws
open_more-seen buy sell q s = refl
open_more-seen sell buy q s = refl
open_more-seen sell sell q s = grind int_laws

pub open_less-seen :
    (side side' : Side) (q n : ℕ) (s : TraderRiskState)
    → q ≤ n
    → open_side side (open_less side' q s) +ℤ pos (seen side side' n)
      ≡ open_side side s +ℤ pos (seen side side' (n - q))
open_less-seen buy buy q n s h = grind int_laws
open_less-seen buy sell q n s h = refl
open_less-seen sell buy q n s h = refl
open_less-seen sell sell q n s h = grind int_laws
