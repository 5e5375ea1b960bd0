-- ===== src/RiskEngine/Exposure.antt =====
-- risk/risk_engine.h: open quantities and exposures through checks, fills and cancels.
use cpp_matching_engine.Prelude.{
  ℕ, ◌+◌, ◌-◌, ◌<◌, ◌≤◌, ◌≡◌, refl, List, [], ◌∷◌, none, some, inl, inr, ◌==◌, nat_eq, list_eq,
  arith, Bool-cases, Option-cases, sym, ◌∙◌, All, sub32, u32_mod, ap,
}
use cpp_matching_engine.Prelude.Int.{pos, ◌+ℤ◌}
use cpp_matching_engine.Prelude.Map
use cpp_matching_engine.Prelude.Map.{Map}
use cpp_matching_engine.Prelude.Totals.{
  IsDistinct, IsDistinct-insert, IsDistinct-erase, All-insert, All-erase, All-find, total,
  total-insert_new, total-insert_old, total-erase,
}
use cpp_matching_engine.Types.{Side, Side-cases, buy, sell, Order, ExecutionReport, symbol_string}
use cpp_matching_engine.RiskEngine.{
  RiskEngine, TraderRiskState, OrderExposure, state_of, symbols_of, put_state, over_limit,
  open_more, open_less, fill_state, check_order, on_fill, on_cancel, exposure_of, use_exposure,
  new_risk_engine,
}
use cpp_matching_engine.RiskEngine.Limits.{Event, checks, fills, cancels, handle, handle_all}
use cpp_matching_engine.RiskEngine.Shares.{
  open_side, seen, share, IsAccounted, write-balanced, seen-zero, share-zero, open_more-seen,
  open_less-seen,
}

module _ {F : Type 0} where
  check_order-IsAccounted :
      (o : Order F) (e : RiskEngine)
      → o.quantity < u32_mod
      → Map.find o.order_id e.order_exposures ≡ none
      → IsAccounted e
      → IsAccounted (check_order o e).1
  unfolding check_order put_state exposure_of
  check_order-IsAccounted o e fits fresh v =
      let x = exposure_of o in
      let s = state_of x.trader_id x.symbol e in
      elim (Bool-cases (over_limit o.side o.quantity s)) [
        | inl h ↦
            rw (check_order, h)
              (record {
                distinct = v.distinct;
                small = v.small;
                balanced =
                    write-balanced x x.qty s e e.order_exposures v (λ side t symbol. refl)
                      (λ side. refl);
              })
        | inr h ↦
            let added = Map.insert o.order_id x e.order_exposures in
            rw (check_order, h)
              (record {
                distinct = IsDistinct-insert o.order_id x e.order_exposures v.distinct;
                small =
                    All-insert (λ y. y.qty < u32_mod) o.order_id x e.order_exposures fits v.small;
                balanced =
                    write-balanced (record x { qty = 0 }) x.qty (open_more x.side x.qty s) e added v
                      (λ side t symbol. omega (
                        arith,
                        total-insert_new (share side t symbol) o.order_id x e.order_exposures fresh,
                        share-zero side t symbol x,
                      ))
                      (λ side. rw seen-zero (open_more-seen side x.side x.qty s));
              })
      ]

-- A report that belongs to an exposure and does not exceed it.
pub record Belongs {F : Type 0} (r : ExecutionReport F) (x : OrderExposure) : Type 0 where
  pub side : r.side ≡ x.side
  pub trader_id : r.trader_id ≡ x.trader_id
  pub symbol : symbol_string r.symbol ≡ x.symbol
  pub covered : r.exec_qty ≤ x.qty

-- The exposures after some of one has been used.
use_exposure-totals :
    (id : ℕ) (x : OrderExposure) (q : ℕ) (m : Map ℕ OrderExposure)
    → IsDistinct m
    → All (λ y. y.1.qty < u32_mod) m
    → Map.find id m ≡ some x
    → q ≤ x.qty
    → let m' = use_exposure id x q m in
      IsDistinct m'
      × All (λ y. y.1.qty < u32_mod) m'
      × ((side : Side) (t : ℕ) (symbol : List ℕ)
          → total (share side t symbol) m' + share side t symbol x
            ≡ total (share side t symbol) m + share side t symbol (record x { qty = x.qty - q }))
unfolding use_exposure
use_exposure-totals id x q m d small h le =
    let fits = All-find (λ y. y.qty < u32_mod) id x m small h in
    let left : sub32 x.qty q ≡ x.qty - q = omega arith in
    elim (Bool-cases (sub32 x.qty q == 0)) [
      | inl k ↦
          let gone : x.qty - q ≡ 0 = ground arith in
          rw (use_exposure, k)
            (
              IsDistinct-erase id m d,
              All-erase (λ y. y.qty < u32_mod) id m small,
              λ side t symbol. rw gone (
                  omega (
                    arith,
                    total-erase (share side t symbol) id x m d h,
                    share-zero side t symbol x,
                  )),
            )
      | inr k ↦
          rw (use_exposure, k)
            (
              IsDistinct-insert id _ m d,
              All-insert (λ y. y.qty < u32_mod) id _ m (omega (arith, fits, left)) small,
              λ side t symbol. rw (sym left) (total-insert_old (share side t symbol) id _ x m h),
            )
    ]

fill_state-seen :
    (side side' : Side) (q n : ℕ) (s : TraderRiskState)
    → q ≤ n
    → open_side side (fill_state side' q s) +ℤ pos (seen side side' n)
      ≡ open_side side s +ℤ pos (seen side side' (n - q))
fill_state-seen buy buy q n s h = open_less-seen buy buy q n s h
fill_state-seen buy sell q n s h = refl
fill_state-seen sell buy q n s h = refl
fill_state-seen sell sell q n s h = open_less-seen sell sell q n s h

module _ {F : Type 0} where
  on_fill-IsAccounted :
      (r : ExecutionReport F) (e : RiskEngine)
      → ((x : OrderExposure) → Map.find r.order_id e.order_exposures ≡ some x → Belongs r x)
      → IsAccounted e
      → IsAccounted (on_fill r e)
  unfolding on_fill
  on_fill-IsAccounted r e belongs v = elim (Option-cases (Map.find r.order_id e.order_exposures)) [
    | inl h ↦ rw (on_fill, h) v
    | inr (x, h) ↦
        let b = belongs x h in
        let s = state_of x.trader_id x.symbol e in
        let (distinct, small, moved) =
          use_exposure-totals r.order_id x r.exec_qty e.order_exposures v.distinct v.small h
            b.covered in
        rw (on_fill, h, b.side, b.trader_id, b.symbol)
          (record {
            distinct = distinct;
            small = small;
            balanced =
                write-balanced x (x.qty - r.exec_qty) (fill_state x.side r.exec_qty s) e _ v moved
                  (λ side. fill_state-seen side x.side r.exec_qty x.qty s b.covered);
          })
  ]

on_cancel-IsAccounted : (id : ℕ) (e : RiskEngine) → IsAccounted e → IsAccounted (on_cancel id e)
unfolding on_cancel
on_cancel-IsAccounted id e v = elim (Option-cases (Map.find id e.order_exposures)) [
  | inl h ↦ rw (on_cancel, h) v
  | inr (x, h) ↦
      let s = state_of x.trader_id x.symbol e in
      rw (on_cancel, h)
        (record {
          distinct = IsDistinct-erase id e.order_exposures v.distinct;
          small = All-erase (λ y. y.qty < u32_mod) id e.order_exposures v.small;
          balanced =
              write-balanced x 0 (open_less x.side x.qty s) e _ v
                (λ side t symbol. omega (
                  arith,
                  total-erase (share side t symbol) id x e.order_exposures v.distinct h,
                  share-zero side t symbol x,
                ))
                (λ side.
                  open_less-seen side x.side x.qty x.qty s (omega arith)
                  ∙ ap (λ k. open_side side s +ℤ pos (seen side x.side k)) (omega arith));
        })
]

-- What the callers of the risk engine keep to: a new id for each order that is checked, and reports
-- of fills that belong to the exposure of their order.
abbrev pub Keeps : {F : Type 0} → Event F → RiskEngine → Type 0
Keeps (checks o) e = (o.quantity < u32_mod) × (Map.find o.order_id e.order_exposures ≡ none)
Keeps (fills r) e =
    (x : OrderExposure) → Map.find r.order_id e.order_exposures ≡ some x → Belongs r x
Keeps (cancels id) e = Unit

abbrev pub KeepsAll : {F : Type 0} → List (Event F) → RiskEngine → Type 0
KeepsAll [] e = Unit
KeepsAll (x ∷ xs) e = Keeps x e × KeepsAll xs (handle x e)

module _ {F : Type 0} where
  handle-IsAccounted :
      (x : Event F) (e : RiskEngine) → Keeps x e → IsAccounted e → IsAccounted (handle x e)
  handle-IsAccounted (checks o) e k v = check_order-IsAccounted o e k.0 k.1 v
  handle-IsAccounted (fills r) e k v = on_fill-IsAccounted r e k v
  handle-IsAccounted (cancels id) e k v = on_cancel-IsAccounted id e v

  -- Through any sequence of checks of orders with new ids and quantities below 2^32, of fills
  -- that belong to the exposure of their order and do not exceed it, and of cancels, the open
  -- quantity of each trader in each symbol on each side stays the sum of the exposures of its
  -- orders.
  pub handle_all-IsAccounted :
      (xs : List (Event F)) (e : RiskEngine)
      → KeepsAll xs e
      → IsAccounted e
      → IsAccounted (handle_all xs e)
  handle_all-IsAccounted [] e k v = v
  handle_all-IsAccounted (x ∷ xs) e k v =
      handle_all-IsAccounted xs (handle x e) k.1 (handle-IsAccounted x e k.0 v)

pub new_risk_engine-IsAccounted : IsAccounted new_risk_engine
unfolding state_of symbols_of Map.find
new_risk_engine-IsAccounted = record {
  distinct = tt;
  small = tt;
  balanced = λ side t symbol. elim (Side-cases side) [ inl h ↦ rw h refl | inr h ↦ rw h refl ];
}
