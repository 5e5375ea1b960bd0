-- ===== src/Types.antt =====
-- orderbook/types.h: sides, order kinds, `Order` and `ExecutionReport`.
pub mod Symbol
use cpp_matching_engine.Prelude.{
  ℕ, zero, suc, Bool, true, false, List, [], ◌∷◌, ◌++◌, ◌==◌, nat_eq, if◌then◌else◌, replicate,
  sub32, ◌≡◌, ◌⊎◌, inl, inr, refl,
}

pub data Side : Type 0 where
  buy sell : Side

pub data OrderType : Type 0 where
  limit market : OrderType

pub data OrderStatus : Type 0 where
  new partially_filled filled cancelled rejected : OrderStatus

pub data TimeInForce : Type 0 where
  gtc ioc fok : TimeInForce

-- A `char[8]` or a C string is its list of bytes. The padding of the struct is left out.
pub record Order (F : Type 0) : Type 0 where
  pub order_id : ℕ
  pub trader_id : ℕ
  pub timestamp_ns : ℕ
  pub price : F
  pub quantity : ℕ
  pub filled_qty : ℕ
  pub symbol : List ℕ
  pub side : Side
  pub type : OrderType
  pub status : OrderStatus
  pub tif : TimeInForce

pub record ExecutionReport (F : Type 0) : Type 0 where
  pub exec_id : ℕ
  pub order_id : ℕ
  pub aggressor_order_id : ℕ
  pub trader_id : ℕ
  pub timestamp_ns : ℕ
  pub exec_price : F
  pub exec_qty : ℕ
  pub side : Side
  pub symbol : List ℕ

abbrev pub opposite : Side → Side
opposite buy = sell
opposite sell = buy

pub Side-cases : (s : Side) → (s ≡ buy) ⊎ (s ≡ sell)
Side-cases buy = inl refl
Side-cases sell = inr refl

-- `status == NEW || status == PARTIALLY_FILLED`
abbrev pub status_active : OrderStatus → Bool
status_active new = true
status_active partially_filled = true
status_active _ = false

-- The tests `status == FILLED`, `type == LIMIT` and `tif == FOK`.
abbrev pub is_filled : OrderStatus → Bool
is_filled filled = true
is_filled _ = false

abbrev pub is_limit : OrderType → Bool
is_limit limit = true
is_limit market = false

abbrev pub is_fok : TimeInForce → Bool
is_fok fok = true
is_fok _ = false

-- The bytes of a C string, up to its terminating zero.
unfoldable pub c_string : List ℕ → List ℕ
c_string [] = []
c_string (c ∷ s) = if c == 0 then [] else c ∷ c_string s

-- The `n` bytes that `strncpy(dst, src, n)` writes.
unfoldable pub strncpy : ℕ → List ℕ → List ℕ
strncpy zero s = []
strncpy (suc n) [] = 0 ∷ strncpy n []
strncpy (suc n) (c ∷ s) = if c == 0 then replicate (suc n) 0 else c ∷ strncpy n s

module _ {F : Type 0} where
  unfoldable pub remaining : Order F → ℕ
  remaining o = sub32 o.quantity o.filled_qty

  abbrev pub is_active : Order F → Bool
  is_active o = status_active o.status

  unfoldable pub set_symbol : Order F → List ℕ → Order F
  unfolding strncpy
  set_symbol o sym = record o { symbol = strncpy 7 sym ++ 0 ∷ [] }

-- The string made of a symbol field through a zeroed buffer of nine bytes.
unfoldable pub symbol_string : List ℕ → List ℕ
unfolding strncpy c_string
symbol_string symbol = c_string (strncpy 8 symbol ++ 0 ∷ [])
