-- ===== src/Tests/Files.antt =====
-- Runs of the theorems on ITCH files.
use cpp_matching_engine.Prelude.{ℕ, ◌≡◌, refl, List, [], ◌∷◌, ◌++◌, some, arith, inl, inr, All}
use cpp_matching_engine.Prelude.Int.{ℤ}
use cpp_matching_engine.Double.Whole.{whole}
use cpp_matching_engine.Types.{Order, buy, limit, gtc}
use cpp_matching_engine.Tests.Data.{order}
use cpp_matching_engine.ItchParser.{
  Outcome, returned, thrown, parse_file, ItchAddOrder, bswap64, read_le,
}
use cpp_matching_engine.ItchParser.Bytes.{read_be, bswap64-read_be}
use cpp_matching_engine.ItchParser.Messages.{
  Message, adds, passed, IsMessage, encode_all, added_all,
}
use cpp_matching_engine.ItchParser.Framing.{parse_file-ends}
use cpp_matching_engine.ItchParser.Files.{parse_file-encode_all, parse_file-zero_length}

-- Every object of the pool is as new.
abbrev fresh : ℕ → Order ℤ
fresh k = order 0 buy limit gtc 0 0

-- "MSFT" in eight bytes, padded with spaces.
abbrev add_msft : ItchAddOrder
add_msft = record {
  stock_locate = 1;
  tracking_number = 2;
  timestamp = 34200000000000;
  order_ref_num = 77;
  buy_sell_indicator = 66;
  shares = 300;
  stock = 77 ∷ 83 ∷ 70 ∷ 84 ∷ 32 ∷ 32 ∷ 32 ∷ 32 ∷ [];
  price = 1500000;
}

-- A message of another type, the added order with two more bytes, and an `A` that is too short.
abbrev messages : List Message
messages = passed 88 (1 ∷ 2 ∷ []) ∷ adds add_msft (9 ∷ 9 ∷ []) ∷ passed 65 (1 ∷ []) ∷ []

messages-AreMessages : All IsMessage messages
messages-AreMessages = (
  (omega arith, inl (ground arith)),
  (
    ((omega arith, omega arith, omega arith, omega arith, refl), omega arith),
    ((omega arith, inr (omega arith)), tt),
  ),
)

bswap64-read_be_example :
    bswap64 (read_le (1 ∷ 2 ∷ 3 ∷ 4 ∷ 5 ∷ 6 ∷ 7 ∷ 200 ∷ []))
    ≡ read_be 0 (1 ∷ 2 ∷ 3 ∷ 4 ∷ 5 ∷ 6 ∷ 7 ∷ 200 ∷ [])
bswap64-read_be_example =
    bswap64-read_be 1 2 3 4 5 6 7 200 (omega arith) (omega arith) (omega arith) (omega arith)
      (omega arith) (omega arith) (omega arith) (omega arith)

parse_file-encode_all_example :
    parse_file fresh (some (encode_all messages ++ 0 ∷ 9 ∷ 65 ∷ 1 ∷ []))
    ≡ some (returned (added_all fresh 0 messages))
parse_file-encode_all_example =
    parse_file-encode_all fresh messages (0 ∷ 9 ∷ 65 ∷ 1 ∷ []) messages-AreMessages
      (omega arith, omega arith, omega arith)

parse_file-zero_length_example :
    parse_file fresh (some (encode_all messages ++ 0 ∷ 0 ∷ 65 ∷ 1 ∷ [])) ≡ some thrown
parse_file-zero_length_example =
    parse_file-zero_length fresh messages 65 (1 ∷ []) messages-AreMessages

parse_file-ends_example : (r : Outcome ℤ) × (parse_file fresh (some (1 ∷ 0 ∷ 65 ∷ [])) ≡ some r)
parse_file-ends_example = parse_file-ends fresh (some (1 ∷ 0 ∷ 65 ∷ []))
