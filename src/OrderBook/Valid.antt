-- ===== src/OrderBook/Valid.antt =====
-- What the book keeps between two calls, on each side and in its index.
use cpp_matching_engine.Prelude.{
  ℕ, ◌+◌, ◌-◌, ◌%◌, ◌≤◌, ◌<◌, ◌≡◌, true, false, List, [], ◌∷◌, ◌++◌, arith, All, All-append,
  All-impl, u32_mod, u64_mod, nat_eq,
}
use cpp_matching_engine.Prelude.Map
use cpp_matching_engine.Double.{Double, IsOrdered}
use cpp_matching_engine.Types.{Side, buy, sell, Order, limit, remaining}
use cpp_matching_engine.Levels.{before}
use cpp_matching_engine.OrderBook.{OrderBook, PriceLevel, LevelMap, is_empty}
use cpp_matching_engine.PriceTime.{Queue, first_some, count, locate, open_qty}

-- The orders of one side, best price first and oldest first within a price.
unfoldable pub queue : {F : Type 0} → LevelMap F → Queue F
queue [] = []
queue ((_, l) ∷ m) = l.orders ++ queue m

-- An order that rests at a price of a side.
pub record IsResting {F : Type 0} (side : Side) (price : F) (o : Order F) : Type 0 where
  pub on_side : o.side ≡ side
  pub at_price : o.price ≡ price
  pub is_limit : o.type ≡ limit
  pub is_open : o.filled_qty < o.quantity
  pub fits : o.quantity < u32_mod

-- A level whose price is its key and whose total is that of its orders, as a 64-bit number.
pub record IsLevel {F : Type 0} (side : Side) (key : F) (l : PriceLevel F) : Type 0 where
  pub keyed : l.price ≡ key
  pub totalled : l.total_qty ≡ open_qty l.orders % u64_mod
  pub resting : All (IsResting side key) l.orders

abbrev pub Follows : {F V : Type 0} ⦃d : Double F⦄ → Side → F → List (F × V) → Type 0
Follows side key m = All (λ e. before side key e.0 ≡ true) m

-- Levels in the order of the comparator, none of them empty.
abbrev pub AreLevels : {F : Type 0} ⦃d : Double F⦄ → Side → LevelMap F → Type 0
AreLevels side [] = Unit
AreLevels side ((key, l) ∷ m) =
    IsLevel side key l × (is_empty l.orders ≡ false) × Follows side key m × AreLevels side m

-- Every id is in one of the queues at most once, and the index says of each id where it rests.
pub record IsValid {F : Type 0} ⦃d : Double F⦄ (b : OrderBook F) : Type 0 where
  pub bid_levels : AreLevels buy b.bids
  pub ask_levels : AreLevels sell b.asks
  pub unique : (id : ℕ) → count id (queue b.bids) + count id (queue b.asks) ≤ 1
  pub indexed :
      (id : ℕ)
      → Map.find id b.order_index ≡ first_some (locate id (queue b.bids)) (locate id (queue b.asks))

module _ {F : Type 0} where
  pub remaining-lt : (o : Order F) → remaining o < u32_mod
  unfolding remaining
  remaining-lt o = omega arith

  pub IsResting-remaining :
      (side : Side) (price : F) (o : Order F)
      → IsResting side price o
      → (remaining o ≡ o.quantity - o.filled_qty) × (0 < remaining o) × (remaining o < u32_mod)
  unfolding remaining
  IsResting-remaining side price o r = ground arith

module _ {F : Type 0} ⦃d : Double F⦄ (ord : IsOrdered F) where
  pub before_irrefl : (side : Side) (a : F) → before side a a ≡ false
  before_irrefl buy a = ord.lt_irrefl a
  before_irrefl sell a = ord.lt_irrefl a

  pub before_trans :
      (side : Side) (a b c : F)
      → before side a b ≡ true
      → before side b c ≡ true
      → before side a c ≡ true
  before_trans buy a b c h k = ord.lt_trans c b a k h
  before_trans sell a b c h k = ord.lt_trans a b c h k

  pub before_total :
      (side : Side) (a b : F) → before side a b ≡ false → before side b a ≡ false → a ≡ b
  before_total buy a b h k = ord.lt_total a b k h
  before_total sell a b h k = ord.lt_total a b h k

  pub before_asymm : (side : Side) (a b : F) → before side a b ≡ true → before side b a ≡ false
  before_asymm side a b h = ground (arith, before_trans side a b a, before_irrefl side a)

  pub Follows-trans :
      {V : Type 0} (side : Side) (a b : F) (m : List (F × V))
      → before side a b ≡ true
      → Follows side b m
      → Follows side a m
  Follows-trans side a b m h f = All-impl m (λ e k. before_trans side a b e.0 h k) f

  -- What follows a key in the map stands behind it in the queue.
  pub Follows-queue :
      (side : Side) (a : F) (m : LevelMap F)
      → AreLevels side m
      → Follows side a m
      → All (λ o. before side a o.price ≡ true) (queue m)
  unfolding queue
  Follows-queue side a [] v f = tt
  Follows-queue side a ((key, l) ∷ m) v f =
      All-append _ l.orders (queue m) (All-impl l.orders (λ o r. rw r.at_price f.0) v.0.resting)
        (Follows-queue side a m v.3 f.1)
