-- ===== src/ItchParser/Bytes.antt =====
-- The byte swaps read a big-endian number.
use cpp_matching_engine.Prelude.{
  ℕ, ◌≡◌, List, [], ◌∷◌, ◌+◌, ◌*◌, ◌<◌, ◌/◌, ◌^◌, arith, ap, ap₂, ◌∙◌, sym,
}
use cpp_matching_engine.Prelude.Bits.{
  power, bit_and-mask, bit_or-below, bit_or-between, power_positive,
}
use cpp_matching_engine.ItchParser.{bswap16, bswap32, bswap64, read_le, shl32, shl64, masked}
use Prim.Native.Nat.{bit_and, bit_or}

abbrev pub IsByte : ℕ → Type 0
IsByte b = b < 256

-- The number of a list of big-endian bytes, behind the bytes that are read.
abbrev pub read_be : ℕ → List ℕ → ℕ
read_be n [] = n
read_be n (b ∷ bs) = read_be (256 * n + b) bs

pub bswap16-read_be :
    (a b : ℕ) → IsByte a → IsByte b → bswap16 (read_le (a ∷ b ∷ [])) ≡ read_be 0 (a ∷ b ∷ [])
unfolding bswap16
bswap16-read_be a b h k =
    let x = a + 256 * (b + 256 * 0) in
    let high : x / 2 ^ 8 ≡ b = omega arith in rw high (omega (arith, bit_or-below 8 x b k))

-- A byte of a word, and the one that a mask leaves in its place.
masked_byte :
    (n x h b l : ℕ)
    → IsByte b
    → l < power n
    → x ≡ (h * 256 + b) * power n + l
    → bit_and x (255 * power n) ≡ b * power n
masked_byte n x h b l p q e = ap (λ y. bit_and y (255 * power n)) e ∙ bit_and-mask n h b l p q

pub bswap32-read_be :
    (a b c e : ℕ)
    → IsByte a
    → IsByte b
    → IsByte c
    → IsByte e
    → bswap32 (read_le (a ∷ b ∷ c ∷ e ∷ [])) ≡ read_be 0 (a ∷ b ∷ c ∷ e ∷ [])
unfolding bswap32
bswap32-read_be a b c e ha hb hc he =
    let x = read_le (a ∷ b ∷ c ∷ e ∷ []) in
    let first : bit_and (x / 2 ^ 24) (255 * power 0) ≡ e * power 0 =
      masked_byte 0 _ 0 e 0 he (omega arith) (omega arith) in
    let second : bit_and (shl32 x 8) (255 * power 16) ≡ b * power 16 =
      masked_byte 16 _ c b (256 * a) hb (omega arith) (omega arith) in
    let third : bit_and (x / 2 ^ 8) (255 * power 8) ≡ c * power 8 =
      masked_byte 8 _ e c b hc (omega arith) (omega arith) in
    let fourth : bit_and (shl32 x 24) (255 * power 24) ≡ a * power 24 =
      masked_byte 24 _ 0 a 0 ha (omega arith) (omega arith) in
    let one = ap₂ bit_or first second ∙ bit_or-below 16 b (e * power 0) (omega arith) in
    let gap : b * power 16 + e * power 0 ≡ b * 256 * power 8 + e = omega arith in
    let two = ap₂ bit_or (one ∙ gap) third ∙ bit_or-between 8 b c e hc (omega arith) in
    let three = ap₂ bit_or two fourth ∙ bit_or-below 24 a _ (omega arith) in three ∙ omega arith

-- A byte goes below those that a word has already.
append_byte :
    (n a b x y : ℕ)
    → IsByte b
    → x ≡ a * 256 * power n
    → y ≡ b * power n
    → bit_or x y ≡ (a * 256 + b) * power n
append_byte n a b x y h p q =
    let below : 0 < power n = power_positive n in
    let whole : a * 256 * power n + 0 ≡ a * 256 * power n = omega arith in
    ap₂ bit_or (p ∙ sym whole) q ∙ bit_or-between n a b 0 h below ∙ omega arith

-- bswap64 of the word that a little-endian host reads from eight bytes is the number that they
-- write with the highest byte first.
pub bswap64-read_be :
    (a b c e f g i j : ℕ)
    → IsByte a
    → IsByte b
    → IsByte c
    → IsByte e
    → IsByte f
    → IsByte g
    → IsByte i
    → IsByte j
    → bswap64 (read_le (a ∷ b ∷ c ∷ e ∷ f ∷ g ∷ i ∷ j ∷ []))
      ≡ read_be 0 (a ∷ b ∷ c ∷ e ∷ f ∷ g ∷ i ∷ j ∷ [])
unfolding bswap64
bswap64-read_be a b c e f g i j ha hb hc he hf hg hi hj =
    let h7 = read_le (b ∷ c ∷ e ∷ f ∷ g ∷ i ∷ j ∷ []) in
    let h6 = read_le (c ∷ e ∷ f ∷ g ∷ i ∷ j ∷ []) in
    let h5 = read_le (e ∷ f ∷ g ∷ i ∷ j ∷ []) in
    let h4 = read_le (f ∷ g ∷ i ∷ j ∷ []) in
    let h3 = read_le (g ∷ i ∷ j ∷ []) in
    let h2 = read_le (i ∷ j ∷ []) in
    let l2 = read_le (a ∷ b ∷ []) in
    let l3 = read_le (a ∷ b ∷ c ∷ []) in
    let l4 = read_le (a ∷ b ∷ c ∷ e ∷ []) in
    let l5 = read_le (a ∷ b ∷ c ∷ e ∷ f ∷ []) in
    let l6 = read_le (a ∷ b ∷ c ∷ e ∷ f ∷ g ∷ []) in
    let l7 = read_le (a ∷ b ∷ c ∷ e ∷ f ∷ g ∷ i ∷ []) in
    let x = a + 256 * h7 in
    let ma = masked_byte 0 x h7 a 0 ha (omega arith) (omega arith) in
    let mb = masked_byte 8 x h6 b a hb (omega arith) (omega arith) in
    let mc = masked_byte 16 x h5 c l2 hc (omega arith) (omega arith) in
    let me = masked_byte 24 x h4 e l3 he (omega arith) (omega arith) in
    let mf = masked_byte 32 x h3 f l4 hf (omega arith) (omega arith) in
    let mg = masked_byte 40 x h2 g l5 hg (omega arith) (omega arith) in
    let mi = masked_byte 48 x j i l6 hi (omega arith) (omega arith) in
    let mj = masked_byte 56 x 0 j l7 hj (omega arith) (omega arith) in
    let s2 =
      append_byte 48 a b (shl64 (masked x 0) 56) (shl64 (masked x 1) 40) hb (omega arith)
        (omega arith) in
    let s3 =
      append_byte 40 (read_be 0 (a ∷ b ∷ [])) c _ (shl64 (masked x 2) 24) hc (s2 ∙ omega arith)
        (omega arith) in
    let s4 =
      append_byte 32 (read_be 0 (a ∷ b ∷ c ∷ [])) e _ (shl64 (masked x 3) 8) he (s3 ∙ omega arith)
        (omega arith) in
    let s5 =
      append_byte 24 (read_be 0 (a ∷ b ∷ c ∷ e ∷ [])) f _ (masked x 4 / 2 ^ 8) hf (s4 ∙ omega arith)
        (omega arith) in
    let s6 =
      append_byte 16 (read_be 0 (a ∷ b ∷ c ∷ e ∷ f ∷ [])) g _ (masked x 5 / 2 ^ 24) hg
        (s5 ∙ omega arith) (omega arith) in
    let s7 =
      append_byte 8 (read_be 0 (a ∷ b ∷ c ∷ e ∷ f ∷ g ∷ [])) i _ (masked x 6 / 2 ^ 40) hi
        (s6 ∙ omega arith) (omega arith) in
    let s8 =
      append_byte 0 (read_be 0 (a ∷ b ∷ c ∷ e ∷ f ∷ g ∷ i ∷ [])) j _ (masked x 7 / 2 ^ 56) hj
        (s7 ∙ omega arith) (omega arith) in
    s8 ∙ omega arith
