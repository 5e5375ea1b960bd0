-- ===== src/TradingAgent/Inventory.antt =====
-- What a run of fills leaves in the inventory and in the counts of an agent.
use cpp_matching_engine.Prelude.{
  ℕ, ◌≡◌, refl, List, [], ◌∷◌, ◌+◌, ◌<◌, ◌≤◌, ◌%◌, arith, u64_mod, add64, length, Bool-cases, inl,
  inr, min,
}
use cpp_matching_engine.Prelude.Int.{ℤ, pos, pos_part, ◌+ℤ◌, int_laws}
use cpp_matching_engine.Double.{Double}
use cpp_matching_engine.Types.{Side, buy, sell, ExecutionReport}
use cpp_matching_engine.TradingAgent.{
  TradingAgent, record_fill, record_side, record_buy, close_long, is_positive,
}

abbrev pub shares_if : Side → Side → ℕ → ℕ
shares_if buy buy q = q
shares_if sell sell q = q
shares_if _ _ q = 0

-- The shares of a fill that close a long position.
abbrev closed : Side → ℕ → ℤ → ℕ
closed buy q inventory = 0
closed sell q inventory = min q (pos_part inventory)

closed-bounds :
    (side : Side) (q : ℕ) (z z' : ℤ)
    → z' +ℤ pos (shares_if sell side q) ≡ z +ℤ pos (shares_if buy side q)
    → (closed side q z ≤ shares_if sell side q)
      × (closed side q z + pos_part z' ≤ pos_part z + shares_if buy side q)
closed-bounds buy q z z' h = (omega arith, grind int_laws)
closed-bounds sell q z z' h = (omega arith, grind int_laws)

module _ {F : Type 0} where
  -- The shares of the fills of a side.
  abbrev pub traded : Side → List (ExecutionReport F) → ℕ
  traded side [] = 0
  traded side (r ∷ rs) = shares_if side r.side r.exec_qty + traded side rs

module _ {F : Type 0} ⦃d : Double F⦄ where
  unfoldable pub record_fills : List (ExecutionReport F) → TradingAgent F → TradingAgent F
  record_fills [] a = a
  record_fills (r ∷ rs) a = record_fills rs (record_fill r a)

  -- What a fill of `q` shares does to the inventory.
  abbrev Moves : Side → ℕ → TradingAgent F → TradingAgent F → Type 0
  Moves side q a b =
      b.inventory +ℤ pos (shares_if sell side q) ≡ a.inventory +ℤ pos (shares_if buy side q)

  close_long-inventory :
      (price : F) (q : ℕ) (a : TradingAgent F) → (close_long price q a).inventory ≡ a.inventory
  unfolding close_long
  close_long-inventory price q a = elim (Bool-cases (is_positive a.inventory)) [
    | inl e ↦ rw e refl
    | inr e ↦ rw e refl
  ]

  record_side-Moves :
      (side : Side) (price : F) (q : ℕ) (a : TradingAgent F)
      → Moves side q a (record_side side price q a)
  unfolding record_buy
  record_side-Moves buy price q a = grind int_laws
  record_side-Moves sell price q a = rw (close_long-inventory price q a) (grind int_laws)

  record_fill-Moves :
      (r : ExecutionReport F) (a : TradingAgent F) → Moves r.side r.exec_qty a (record_fill r a)
  unfolding record_fill
  record_fill-Moves r a =
      record_side-Moves r.side r.exec_price r.exec_qty
        (record a { fill_count = add64 a.fill_count 1 })

  pub record_fills-balance :
      (rs : List (ExecutionReport F)) (a : TradingAgent F)
      → (record_fills rs a).inventory +ℤ pos (traded sell rs) ≡ a.inventory +ℤ pos (traded buy rs)
  unfolding record_fills
  record_fills-balance [] a = refl
  record_fills-balance (r ∷ rs) a =
      let first = record_fill-Moves r a in
      let others = record_fills-balance rs (record_fill r a) in grind int_laws

  close_long-closing :
      (price : F) (q : ℕ) (a : TradingAgent F)
      → a.closing_trades + q < u64_mod
      → (close_long price q a).closing_trades ≡ a.closing_trades + min q (pos_part a.inventory)
  unfolding close_long
  close_long-closing price q a h = elim (Bool-cases (is_positive a.inventory)) [
    | inl e ↦ rw e (ground arith)
    | inr e ↦ rw e (ground arith)
  ]

  record_side-closing :
      (side : Side) (price : F) (q : ℕ) (a : TradingAgent F)
      → a.closing_trades + shares_if sell side q < u64_mod
      → (record_side side price q a).closing_trades ≡ a.closing_trades + closed side q a.inventory
  unfolding record_buy
  record_side-closing buy price q a h = omega arith
  record_side-closing sell price q a h = close_long-closing price q a h

  record_fill-closing :
      (r : ExecutionReport F) (a : TradingAgent F)
      → a.closing_trades + shares_if sell r.side r.exec_qty < u64_mod
      → (record_fill r a).closing_trades ≡ a.closing_trades + closed r.side r.exec_qty a.inventory
  unfolding record_fill
  record_fill-closing r a h =
      record_side-closing r.side r.exec_price r.exec_qty
        (record a { fill_count = add64 a.fill_count 1 }) h

  -- If what a list of fills sells does not carry the count of closing trades to 2^64: after the
  -- fills the inventory is the old one, plus the shares bought, less the shares sold; the count
  -- of closing trades grows by no more than what is sold, and together with a long inventory by
  -- no more than what is bought.
  pub record_fills-inventory :
      (rs : List (ExecutionReport F)) (a : TradingAgent F)
      → a.closing_trades + traded sell rs < u64_mod
      → let b = record_fills rs a in
        (b.inventory +ℤ pos (traded sell rs) ≡ a.inventory +ℤ pos (traded buy rs))
        × (b.closing_trades ≤ a.closing_trades + traded sell rs)
        × (b.closing_trades + pos_part b.inventory
            ≤ a.closing_trades + pos_part a.inventory + traded buy rs)
  unfolding record_fills
  record_fills-inventory [] a h = (refl, omega arith, omega arith)
  record_fills-inventory (r ∷ rs) a h =
      let closing = record_fill-closing r a (omega arith) in
      let (sold, held) =
        closed-bounds r.side r.exec_qty a.inventory (record_fill r a).inventory
          (record_fill-Moves r a) in
      let (total, sells, buys) = record_fills-inventory rs (record_fill r a) (omega arith) in
      (record_fills-balance (r ∷ rs) a, omega arith, omega arith)

  close_long-fill_count :
      (price : F) (q : ℕ) (a : TradingAgent F) → (close_long price q a).fill_count ≡ a.fill_count
  unfolding close_long
  close_long-fill_count price q a = elim (Bool-cases (is_positive a.inventory)) [
    | inl e ↦ rw e refl
    | inr e ↦ rw e refl
  ]

  record_side-fill_count :
      (side : Side) (price : F) (q : ℕ) (a : TradingAgent F)
      → (record_side side price q a).fill_count ≡ a.fill_count
  unfolding record_buy
  record_side-fill_count buy price q a = refl
  record_side-fill_count sell price q a = close_long-fill_count price q a

  pub record_fills-fill_count :
      (rs : List (ExecutionReport F)) (a : TradingAgent F)
      → a.fill_count < u64_mod
      → (record_fills rs a).fill_count ≡ (a.fill_count + length rs) % u64_mod
  unfolding record_fills record_fill
  record_fills-fill_count [] a h = omega arith
  record_fills-fill_count (r ∷ rs) a h =
      let b = record a { fill_count = add64 a.fill_count 1 } in
      let count = record_side-fill_count r.side r.exec_price r.exec_qty b in
      omega (arith, count, record_fills-fill_count rs (record_fill r a) (omega (arith, count)))
