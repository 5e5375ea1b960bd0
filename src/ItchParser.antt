-- ===== src/ItchParser.antt =====
-- replay/itch_parser.h: the bytes of a file of ITCH messages, each behind a length of two bytes, made
-- into orders. Host words are little-endian; a byte is a number below 256.
pub mod Bytes
pub mod Framing
pub mod Messages
pub mod Files
use cpp_matching_engine.Prelude.{
  ℕ, zero, suc, Bool, List, [], ◌∷◌, ◌++◌, length, take, drop, replicate, get_elem?, Option, none,
  some, if◌then◌else◌, ◌==◌, nat_eq, ltb, u32_mod, u64_mod, ◌+◌, ◌-◌, ◌*◌, ◌/◌, ◌%◌, ◌^◌,
}
use cpp_matching_engine.Double.{Double}
use cpp_matching_engine.Prelude.Int.{pos}
use cpp_matching_engine.Types.{Side, buy, sell, Order, limit, new, set_symbol}
use Prim.Native.Nat.{bit_and, bit_or}

abbrev pub shl32 : ℕ → ℕ → ℕ
shl32 x n = (x * 2 ^ n) % u32_mod

abbrev pub shl64 : ℕ → ℕ → ℕ
shl64 x n = (x * 2 ^ n) % u64_mod

-- The operands of the 16-bit swap are promoted to `int`; the result is cut to 16 bits.
unfoldable pub bswap16 : ℕ → ℕ
bswap16 x = bit_or (x / 2 ^ 8) (x * 2 ^ 8) % 2 ^ 16

unfoldable pub bswap32 : ℕ → ℕ
bswap32 x =
    bit_or
      (bit_or (bit_or (bit_and (x / 2 ^ 24) 255) (bit_and (shl32 x 8) (255 * 2 ^ 16)))
        (bit_and (x / 2 ^ 8) (255 * 2 ^ 8)))
      (bit_and (shl32 x 24) (255 * 2 ^ 24))

-- The byte of `x` that the mask `0xff << 8 * i` leaves.
abbrev pub masked : ℕ → ℕ → ℕ
masked x i = bit_and x (255 * 2 ^ (8 * i))

unfoldable pub bswap64 : ℕ → ℕ
bswap64 x =
    let seven = bit_or (shl64 (masked x 0) 56) (shl64 (masked x 1) 40) in
    let six = bit_or seven (shl64 (masked x 2) 24) in
    let five = bit_or six (shl64 (masked x 3) 8) in
    let four = bit_or five (masked x 4 / 2 ^ 8) in
    let three = bit_or four (masked x 5 / 2 ^ 24) in
    let two = bit_or three (masked x 6 / 2 ^ 40) in bit_or two (masked x 7 / 2 ^ 56)

-- The number that a word of little-endian bytes has.
abbrev pub read_le : List ℕ → ℕ
read_le [] = 0
read_le (b ∷ bs) = b + 256 * read_le bs

abbrev pub bytes_of : ℕ → ℕ → List ℕ → List ℕ
bytes_of offset n payload = take n (drop offset payload)

abbrev pub byte_at : ℕ → List ℕ → ℕ
byte_at offset payload = elim (get_elem? payload offset) [ none ↦ 0 | some c ↦ c ]

-- The packed struct: 2 + 2 + 8 + 8 + 1 + 4 + 8 + 4 bytes.
pub record ItchAddOrder : Type 0 where
  pub stock_locate : ℕ
  pub tracking_number : ℕ
  pub timestamp : ℕ
  pub order_ref_num : ℕ
  pub buy_sell_indicator : ℕ
  pub shares : ℕ
  pub stock : List ℕ
  pub price : ℕ

abbrev pub sizeof_add_order : ℕ
sizeof_add_order = 37

-- `reinterpret_cast<ItchAddOrder*>(payload.data())`
abbrev pub cast_payload : List ℕ → ItchAddOrder
cast_payload p = record {
  stock_locate = read_le (bytes_of 0 2 p);
  tracking_number = read_le (bytes_of 2 2 p);
  timestamp = read_le (bytes_of 4 8 p);
  order_ref_num = read_le (bytes_of 12 8 p);
  buy_sell_indicator = byte_at 20 p;
  shares = read_le (bytes_of 21 4 p);
  stock = bytes_of 25 8 p;
  price = read_le (bytes_of 33 4 p);
}

-- The loop that copies the symbol up to the first space.
abbrev pub until_space : List ℕ → List ℕ
until_space [] = []
until_space (c ∷ s) = if c == 32 then [] else c ∷ until_space s

-- The buffer `sym`, zeroes behind the characters.
abbrev pub symbol_buffer : List ℕ → List ℕ
symbol_buffer stock = let s = until_space stock in s ++ replicate (9 - length s) 0

abbrev pub side_of : ℕ → Side
side_of c = if c == 66 then buy else sell

-- What an iteration of the loop does: it goes on with the rest of the file, it breaks, or the
-- constructor of `payload` throws, for a length of 2 ^ 64 - 1.
pub data Turn (F : Type 0) : Type 0 where
  next : List ℕ → List (Order F) → Turn F
  breaks : List (Order F) → Turn F
  throws : Turn F

pub data Outcome (F : Type 0) : Type 0 where
  returned : List (Order F) → Outcome F
  thrown : Outcome F

module _ {F : Type 0} ⦃d : Double F⦄ where
  -- The fields that are not set here are those of the object from the pool.
  unfoldable pub order_of : Order F → ItchAddOrder → Order F
  order_of o m =
      set_symbol
        (record o {
          order_id = bswap64 m.order_ref_num;
          trader_id = 0;
          timestamp_ns = bswap64 m.timestamp;
          side = side_of m.buy_sell_indicator;
          type = limit;
          quantity = bswap32 m.shares;
          status = new;
          price = d.div (d.of_int (pos (bswap32 m.price))) (d.of_int (pos 10000));
        })
        (symbol_buffer m.stock)

module _ {F : Type 0} ⦃d : Double F⦄ (acquired : ℕ → Order F) where
  -- `acquired k` is the object that the pool gives to the k-th order of the file.
  unfoldable pub parse_message : ℕ → List ℕ → List (Order F) → List (Order F)
  parse_message msg_type payload orders =
      if msg_type == 65
      then if ltb (length payload) sizeof_add_order
        then orders
        else orders ++ order_of (acquired (length orders)) (cast_payload payload) ∷ []
      else orders

  -- The payload of a message whose length and type are read.
  unfoldable pub parse_payload : ℕ → ℕ → List ℕ → List (Order F) → Turn F
  parse_payload msg_length msg_type rest orders =
      let n = msg_length - 1 in
      if msg_length == 0
      then throws
      else if ltb (length rest) n
      then breaks orders
      else next (drop n rest) (parse_message msg_type (take n rest) orders)

  -- An iteration of the loop; a file that ends within the length or the type breaks it.
  unfoldable pub turn : List ℕ → List (Order F) → Turn F
  turn (a ∷ b ∷ msg_type ∷ rest) orders =
      parse_payload (bswap16 (read_le (a ∷ b ∷ []))) msg_type rest orders
  turn _ orders = breaks orders

  -- The loop, on fuel; `none` if the fuel ends first.
  unfoldable pub parse_loop : ℕ → List ℕ → List (Order F) → Option (Outcome F)
  parse_loop zero bytes orders = none
  parse_loop (suc n) bytes orders = elim (turn bytes orders) [
    | next rest more ↦ parse_loop n rest more
    | breaks more ↦ some (returned more)
    | throws ↦ some thrown
  ]

  -- `none` stands for a file that does not open.
  unfoldable pub parse_file : Option (List ℕ) → Option (Outcome F)
  parse_file none = some (returned [])
  parse_file (some bytes) = parse_loop (suc (length bytes)) bytes []
