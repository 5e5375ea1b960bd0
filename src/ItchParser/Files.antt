-- ===== src/ItchParser/Files.antt =====
-- What a file returns: all its messages, or nothing if one of them has no length.
use cpp_matching_engine.Prelude.{
  ℕ, ◌≡◌, refl, ◌∙◌, List, [], ◌∷◌, ◌++◌, length, some, arith, ltb, nat_eq, nat_beq, true, false,
  ◌+◌, ◌-◌, ◌*◌, ◌<◌, All,
}
use cpp_matching_engine.Double.{Double}
use cpp_matching_engine.Types.{Order}
use cpp_matching_engine.ItchParser.{
  returned, breaks, throws, thrown, turn, parse_payload, parse_loop, parse_file, bswap16, read_le,
}
use cpp_matching_engine.ItchParser.Bytes.{IsByte, bswap16-read_be}
use cpp_matching_engine.ItchParser.Messages.{
  Message, IsMessage, encode_all, added_all, parse_file-messages,
}

-- What is left of a file that ends within a message.
abbrev pub IsCut : List ℕ → Type 0
IsCut (a ∷ b ∷ t ∷ rest) = IsByte a × IsByte b × (length rest + 1 < 256 * a + b)
IsCut _ = Unit

module _ {F : Type 0} ⦃d : Double F⦄ (acquired : ℕ → Order F) where
  turn-IsCut :
      (rest : List ℕ) (orders : List (Order F))
      → IsCut rest
      → turn acquired rest orders ≡ breaks orders
  unfolding turn parse_payload
  turn-IsCut [] orders h = refl
  turn-IsCut (a ∷ []) orders h = refl
  turn-IsCut (a ∷ b ∷ []) orders h = refl
  turn-IsCut (a ∷ b ∷ t ∷ rest) orders (ha, hb, h) =
      let l = bswap16 (read_le (a ∷ b ∷ [])) in
      let swap = bswap16-read_be a b ha hb in
      let not_zero : nat_beq l 0 ≡ false = ground arith in
      let short : ltb (length rest) (l - 1) ≡ true = ground arith in rw (not_zero, short) refl

  -- A file that holds messages, added orders with fields in range and eight bytes of symbol or
  -- messages that are of another type or too short, and then at most the cut beginning of one
  -- more, is parsed to the added orders, in their order, each with the numbers that were written.
  pub parse_file-encode_all :
      (ms : List Message) (rest : List ℕ)
      → All IsMessage ms
      → IsCut rest
      → parse_file acquired (some (encode_all ms ++ rest))
        ≡ some (returned (added_all acquired 0 ms))
  unfolding parse_loop
  parse_file-encode_all ms rest h k =
      let (n, e) = parse_file-messages acquired ms rest h in
      e ∙ rw (parse_loop, turn-IsCut rest (added_all acquired 0 ms) k) refl

  turn-no_length :
      (t : ℕ) (rest : List ℕ) (orders : List (Order F))
      → turn acquired (0 ∷ 0 ∷ t ∷ rest) orders ≡ throws
  unfolding turn parse_payload bswap16
  turn-no_length t rest orders = refl

  -- A file in which messages, added orders with fields in range and eight bytes of symbol or
  -- messages that are of another type or too short, are followed by a length of zero and at least
  -- one more byte makes parse_file throw, whatever orders it has read and whatever follows.
  pub parse_file-zero_length :
      (ms : List Message) (t : ℕ) (rest : List ℕ)
      → All IsMessage ms
      → parse_file acquired (some (encode_all ms ++ 0 ∷ 0 ∷ t ∷ rest)) ≡ some thrown
  unfolding parse_loop
  parse_file-zero_length ms t rest h =
      let (n, e) = parse_file-messages acquired ms (0 ∷ 0 ∷ t ∷ rest) h in
      e ∙ rw (parse_loop, turn-no_length t rest (added_all acquired 0 ms)) refl
