-- ===== src/ItchParser/Messages.antt =====
-- The messages of a file, written and parsed again.
use cpp_matching_engine.Prelude.{
  append-nil, ℕ, suc, ◌≡◌, refl, ap, ap₂, ◌∙◌, sym, List, [], ◌∷◌, ◌++◌, length, take, some, arith,
  Bool-cases, inl, inr, ◌⊎◌, ◌≢◌, ltb, ◌==◌, nat_eq, nat_beq, true, false, ◌+◌, ◌-◌, ◌<◌, ◌≤◌, ◌^◌,
  All, length-append, take-append, drop-append, append_assoc, drop, u32_mod, u64_mod,
}
use cpp_matching_engine.Prelude.Int.{pos}
use cpp_matching_engine.Double.{Double}
use cpp_matching_engine.Types.{Order, limit, new, set_symbol}
use cpp_matching_engine.ItchParser.{
  parse_message, parse_loop, parse_file, bswap32, bswap64, read_le, ItchAddOrder, sizeof_add_order,
  cast_payload, order_of, side_of, symbol_buffer,
}
use cpp_matching_engine.ItchParser.Bytes.{bswap32-read_be, bswap64-read_be}
use cpp_matching_engine.ItchParser.Framing.{be_bytes, frame, parse_loop-frame}

-- The fields of the struct as the protocol writes them, the numbers highest byte first.
abbrev pub add_payload : ItchAddOrder → List ℕ
add_payload m =
    be_bytes 2 m.stock_locate
    ++ be_bytes 2 m.tracking_number
    ++ be_bytes 8 m.timestamp
    ++ be_bytes 8 m.order_ref_num
    ++ m.buy_sell_indicator ∷ be_bytes 4 m.shares
    ++ m.stock
    ++ be_bytes 4 m.price

abbrev pub IsAddOrder : ItchAddOrder → Type 0
IsAddOrder m =
    (m.timestamp < u64_mod)
    × (m.order_ref_num < u64_mod)
    × (m.shares < u32_mod)
    × (m.price < u32_mod)
    × (length m.stock ≡ 8)

-- An added order with whatever follows the struct in its payload, or a message that is passed over.
pub data Message : Type 0 where
  adds : ItchAddOrder → List ℕ → Message
  passed : ℕ → List ℕ → Message

abbrev pub encode : Message → List ℕ
encode (adds m extra) = frame 65 (add_payload m ++ extra)
encode (passed t payload) = frame t payload

abbrev pub IsMessage : Message → Type 0
IsMessage (adds m extra) = IsAddOrder m × (length extra + 38 < 2 ^ 16)
IsMessage (passed t payload) =
    (length payload + 1 < 2 ^ 16) × ((t ≢ 65) ⊎ (length payload < sizeof_add_order))

abbrev pub encode_all : List Message → List ℕ
encode_all [] = []
encode_all (m ∷ ms) = encode m ++ encode_all ms

bswap64-be_bytes : (v : ℕ) → v < u64_mod → bswap64 (read_le (be_bytes 8 v)) ≡ v
bswap64-be_bytes v h =
    bswap64-read_be _ _ _ _ _ _ _ _ (omega arith) (omega arith) (omega arith) (omega arith)
      (omega arith) (omega arith) (omega arith) (omega arith)
    ∙ omega arith

bswap32-be_bytes : (v : ℕ) → v < u32_mod → bswap32 (read_le (be_bytes 4 v)) ≡ v
bswap32-be_bytes v h =
    bswap32-read_be _ _ _ _ (omega arith) (omega arith) (omega arith) (omega arith) ∙ omega arith

-- The struct with its numbers as the host reads them.
abbrev swapped : ItchAddOrder → ItchAddOrder
swapped m = record {
  stock_locate = read_le (be_bytes 2 m.stock_locate);
  tracking_number = read_le (be_bytes 2 m.tracking_number);
  timestamp = read_le (be_bytes 8 m.timestamp);
  order_ref_num = read_le (be_bytes 8 m.order_ref_num);
  buy_sell_indicator = m.buy_sell_indicator;
  shares = read_le (be_bytes 4 m.shares);
  stock = m.stock;
  price = read_le (be_bytes 4 m.price);
}

cast_payload-add_payload :
    (m : ItchAddOrder) (extra : List ℕ)
    → length m.stock ≡ 8
    → cast_payload (add_payload m ++ extra) ≡ swapped m
cast_payload-add_payload m extra h =
    let bytes = be_bytes 4 m.price in
    let stock =
      ap (λ n. take n ((m.stock ++ bytes) ++ extra)) (sym h)
      ∙ ap (take (length m.stock)) (append_assoc m.stock bytes extra)
      ∙ take-append m.stock (bytes ++ extra) in
    let price =
      ap (λ n. take 4 (drop n ((m.stock ++ bytes) ++ extra))) (sym h)
      ∙ ap (λ r. take 4 (drop (length m.stock) r)) (append_assoc m.stock bytes extra)
      ∙ ap (take 4) (drop-append m.stock (bytes ++ extra)) in
    ap₂ (λ s p. record (swapped m) { stock = s; price = read_le p }) stock price

module _ {F : Type 0} ⦃d : Double F⦄ where
  -- The order that a message asks for, in an object `o` from the pool.
  abbrev pub added : Order F → ItchAddOrder → Order F
  added o m =
      set_symbol
        (record o {
          order_id = m.order_ref_num;
          trader_id = 0;
          timestamp_ns = m.timestamp;
          side = side_of m.buy_sell_indicator;
          type = limit;
          quantity = m.shares;
          status = new;
          price = d.div (d.of_int (pos m.price)) (d.of_int (pos 10000));
        })
        (symbol_buffer m.stock)

  order_of-add_payload :
      (o : Order F) (m : ItchAddOrder) (extra : List ℕ)
      → IsAddOrder m
      → order_of o (cast_payload (add_payload m ++ extra)) ≡ added o m
  unfolding order_of
  order_of-add_payload o m extra h =
      ap (order_of o) (cast_payload-add_payload m extra h.4)
      ∙ rw
          (
            order_of,
            bswap64-be_bytes m.timestamp h.0,
            bswap64-be_bytes m.order_ref_num h.1,
            bswap32-be_bytes m.shares h.2,
            bswap32-be_bytes m.price h.3,
          )
          refl

module _ {F : Type 0} ⦃d : Double F⦄ (acquired : ℕ → Order F) where
  -- The orders of the messages, when the pool has given `k` objects before.
  abbrev pub added_all : ℕ → List Message → List (Order F)
  added_all k [] = []
  added_all k (adds m extra ∷ ms) = added (acquired k) m ∷ added_all (suc k) ms
  added_all k (passed t payload ∷ ms) = added_all k ms

  length-add_payload :
      (m : ItchAddOrder) (extra : List ℕ)
      → length m.stock ≡ 8
      → length (add_payload m ++ extra) ≡ length extra + 37
  length-add_payload m extra h =
      let bytes = length-append (m.stock ++ be_bytes 4 m.price) extra in
      omega (arith, bytes, length-append m.stock (be_bytes 4 m.price))

  parse_message-adds :
      (m : ItchAddOrder) (extra : List ℕ) (orders : List (Order F))
      → IsAddOrder m
      → parse_message acquired 65 (add_payload m ++ extra) orders
        ≡ orders ++ added (acquired (length orders)) m ∷ []
  unfolding parse_message
  parse_message-adds m extra orders h =
      let long : ltb (length (add_payload m ++ extra)) sizeof_add_order ≡ false =
        ground (arith, length-add_payload m extra h.4) in
      rw (long, order_of-add_payload (acquired (length orders)) m extra h) refl

  parse_message-passed :
      (t : ℕ) (payload : List ℕ) (orders : List (Order F))
      → (t ≢ 65) ⊎ (length payload < sizeof_add_order)
      → parse_message acquired t payload orders ≡ orders
  unfolding parse_message
  parse_message-passed t payload orders (inl h) =
      let other : nat_beq t 65 ≡ false = ground arith in rw other refl
  parse_message-passed t payload orders (inr h) =
      let short : ltb (length payload) sizeof_add_order ≡ true = ground arith in
      elim (Bool-cases (t == 65)) [ inl e ↦ rw (e, short) refl | inr e ↦ rw e refl ]

  -- The messages at the front of the file are parsed, and the loop goes on behind them.
  parse_loop-messages :
      (n : ℕ) (ms : List Message) (rest : List ℕ) (orders : List (Order F))
      → All IsMessage ms
      → parse_loop acquired (length ms + n) (encode_all ms ++ rest) orders
        ≡ parse_loop acquired n rest (orders ++ added_all (length orders) ms)
  parse_loop-messages n [] rest orders h =
      let fuel : 0 + n ≡ n = omega arith in
      ap₂ (λ f os. parse_loop acquired f rest os) fuel (sym (append-nil orders))
  parse_loop-messages n (adds m extra ∷ ms) rest orders ((h, k), hs) =
      let o = added (acquired (length orders)) m in
      let count : length (orders ++ o ∷ []) ≡ suc (length orders) =
        omega (arith, length-append orders (o ∷ [])) in
      let short : length (add_payload m ++ extra) + 1 < 2 ^ 16 =
        omega (arith, length-add_payload m extra h.4) in
      parse_loop-frame acquired (length ms) n 65 (add_payload m ++ extra) (encode_all ms) rest
        orders _ short (parse_message-adds m extra orders h)
      ∙ parse_loop-messages n ms rest (orders ++ o ∷ []) hs
      ∙ ap (parse_loop acquired n rest) (
          ap (λ c. (orders ++ o ∷ []) ++ added_all c ms) count
          ∙ append_assoc orders (o ∷ []) (added_all (suc (length orders)) ms))
  parse_loop-messages n (passed t payload ∷ ms) rest orders ((h, k), hs) =
      parse_loop-frame acquired (length ms) n t payload (encode_all ms) rest orders orders h
        (parse_message-passed t payload orders k)
      ∙ parse_loop-messages n ms rest orders hs

  length-encode_all : (ms : List Message) → length ms ≤ length (encode_all ms)
  length-encode_all [] = omega arith
  length-encode_all (adds m extra ∷ ms) = omega (
    arith,
    length-encode_all ms,
    length-append (frame 65 (add_payload m ++ extra)) (encode_all ms),
  )
  length-encode_all (passed t payload ∷ ms) =
      omega (arith, length-encode_all ms, length-append (frame t payload) (encode_all ms))

  -- The messages of a file leave fuel for what stands behind them.
  pub parse_file-messages :
      (ms : List Message) (rest : List ℕ)
      → All IsMessage ms
      → (n : ℕ) × (parse_file acquired (some (encode_all ms ++ rest))
          ≡ parse_loop acquired (suc n) rest (added_all 0 ms))
  unfolding parse_file
  parse_file-messages ms rest h =
      let size = length (encode_all ms ++ rest) in
      let n = size - length ms in
      let fuel : suc size ≡ length ms + suc n =
        omega (arith, length-encode_all ms, length-append (encode_all ms) rest) in
      (
        n,
        ap (λ f. parse_loop acquired f (encode_all ms ++ rest) []) fuel
            ∙ parse_loop-messages (suc n) ms rest [] h,
      )
