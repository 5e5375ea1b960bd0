-- ===== src/TcpServer/Requests.antt =====
-- The request line of the protocol is read as it was written.
use cpp_matching_engine.Prelude.{
  ℕ, zero, suc, ◌≡◌, refl, sym, ap, ◌∙◌, List, [], ◌∷◌, ◌++◌, Option, some, true, false, Bool-cases,
  inl, inr, if◌then◌else◌, ltb, leb, ◌==◌, nat_eq, ◌+◌, ◌-◌, ◌/◌, ◌%◌, ◌<◌, arith, All,
  append_assoc, u32_mod,
}
use cpp_matching_engine.TcpServer.{
  is_space, is_digit, skip_space, split_word, read_word, digits_value, read_sign, read_digits,
  read_unsigned, parse_request,
}

-- The decimal digits of a number, as characters.
abbrev pub decimal_fuel : ℕ → ℕ → List ℕ
decimal_fuel zero n = []
decimal_fuel (suc f) n =
    let higher = decimal_fuel f (n / 10) in
    if ltb n 10 then (48 + n) ∷ [] else higher ++ (48 + n % 10) ∷ []

abbrev pub decimal : ℕ → List ℕ
decimal n = decimal_fuel (suc n) n

-- "SIDE SYMBOL QUANTITY", and the text of the price.
abbrev pub request_line : List ℕ → List ℕ → ℕ → List ℕ → List ℕ
request_line side symbol qty price = side ++ (32 ∷ (symbol ++ (32 ∷ (decimal qty ++ price))))

-- Characters without a space among them, of which there is at least one.
abbrev pub IsWord : List ℕ → Type 0
IsWord [] = ⊥
IsWord (c ∷ w) = All (λ x. is_space x ≡ false) (c ∷ w)

split_word-append :
    (w rest : List ℕ)
    → All (λ x. is_space x ≡ false) w
    → split_word (w ++ 32 ∷ rest) ≡ (w, 32 ∷ rest)
split_word-append [] rest h = refl
split_word-append (c ∷ w) rest (h, hs) = rw (h, split_word-append w rest hs) refl

read_word-append : (w rest : List ℕ) → IsWord w → read_word (w ++ 32 ∷ rest) ≡ some (w, 32 ∷ rest)
unfolding read_word
read_word-append [] rest h = absurd h
read_word-append (c ∷ w) rest h = rw (read_word, h.0) (ap some (split_word-append (c ∷ w) rest h))

read_word-space : (s : List ℕ) → read_word (32 ∷ s) ≡ read_word s
unfolding read_word
read_word-space s = refl

digit-char : (k : ℕ) → k < 10 → is_digit (48 + k) ≡ true
digit-char k h = ground arith

decimal-value :
    (f n : ℕ) (rest : List ℕ)
    → n < f
    → digits_value 0 (decimal_fuel f n ++ rest) ≡ digits_value n rest
decimal-value zero n rest h = absurd (omega arith)
decimal-value (suc f) n rest h = elim (Bool-cases (ltb n 10)) [
  | inl e ↦ rw (e, digit-char n (ground arith)) (ap (λ v. digits_value v rest) (omega arith))
  | inr e ↦
      let d = 48 + n % 10 in
      rw e (
        ap (digits_value 0) (append_assoc (decimal_fuel f (n / 10)) (d ∷ []) rest)
        ∙ decimal-value f (n / 10) (d ∷ rest) (ground arith)
        ∙ rw (digit-char (n % 10) (omega arith)) (ap (λ v. digits_value v rest) (omega arith)))
]

-- The first character of a number is a digit.
decimal-head :
    (f n : ℕ) → n < f → (c : ℕ) × (s : List ℕ) × (decimal_fuel f n ≡ c ∷ s) × (is_digit c ≡ true)
decimal-head zero n h = absurd (omega arith)
decimal-head (suc f) n h = elim (Bool-cases (ltb n 10)) [
  | inl e ↦ (48 + n, [], rw e refl, digit-char n (ground arith))
  | inr e ↦
      let (c, s, p, q) = decimal-head f (n / 10) (ground arith) in
      (c, s ++ (48 + n % 10) ∷ [], rw (e, p) refl, q)
]

-- A number that begins with a digit is read without a sign.
read_unsigned-digits :
    (c n : ℕ) (s rest : List ℕ)
    → is_digit c ≡ true
    → n < u32_mod
    → digits_value 0 (c ∷ s) ≡ (n, rest)
    → read_unsigned (32 ∷ c ∷ s) ≡ some (n, rest)
unfolding read_unsigned read_digits
read_unsigned-digits c n s rest digit h value =
    let not_space : is_space c ≡ false = ground arith in
    let not_minus : (c == 45) ≡ false = ground arith in
    let not_plus : (c == 43) ≡ false = ground arith in
    let small : leb u32_mod n ≡ false = ground arith in
    let front : read_sign (skip_space (32 ∷ c ∷ s)) ≡ (false, c ∷ s) =
      rw (not_space, not_minus, not_plus) refl in
    ap (λ r. read_digits r.0 r.1) front ∙ rw (read_digits, value, digit, small) refl

read_unsigned-decimal :
    (n : ℕ) (rest : List ℕ)
    → n < u32_mod
    → read_unsigned (32 ∷ (decimal n ++ (32 ∷ rest))) ≡ some (n, 32 ∷ rest)
read_unsigned-decimal n rest h =
    let (c, s, p, digit) = decimal-head (suc n) n (omega arith) in
    let value = decimal-value (suc n) n (32 ∷ rest) (omega arith) in
    ap (λ t. read_unsigned (32 ∷ (t ++ (32 ∷ rest)))) p
    ∙ read_unsigned-digits c n (s ++ (32 ∷ rest)) (32 ∷ rest) digit h
        (ap (λ t. digits_value 0 (t ++ (32 ∷ rest))) (sym p) ∙ value)

read_unsigned-minus :
    (n : ℕ) (rest : List ℕ)
    → 0 < n
    → n < u32_mod
    → read_unsigned (32 ∷ 45 ∷ (decimal n ++ (32 ∷ rest))) ≡ some (u32_mod - n, 32 ∷ rest)
unfolding read_unsigned read_digits
read_unsigned-minus n rest more h =
    let (c, s, p, digit) = decimal-head (suc n) n (omega arith) in
    let value = decimal-value (suc n) n (32 ∷ rest) (omega arith) in
    let small : leb u32_mod n ≡ false = ground arith in
    let found = ap (λ t. digits_value 0 (t ++ (32 ∷ rest))) (sym p) ∙ value in
    let wraps : (u32_mod - n) % u32_mod ≡ u32_mod - n = omega arith in
    ap (λ t. read_unsigned (32 ∷ 45 ∷ (t ++ (32 ∷ rest)))) p
    ∙ rw (read_unsigned, read_digits, found, digit, small, wraps) refl

module _ {F : Type 0} where
  -- A request line of two words, a quantity below 2^32 in decimal and a text that is read as a
  -- price, with a space between each two, is parsed to just these words, this quantity and this
  -- price.
  pub parse_request-request_line :
      (read_double : List ℕ → Option F) (side symbol : List ℕ) (qty : ℕ) (text : List ℕ) (price : F)
      → IsWord side
      → IsWord symbol
      → qty < u32_mod
      → read_double (32 ∷ text) ≡ some price
      → parse_request read_double (request_line side symbol qty (32 ∷ text))
        ≡ some (record { side_str = side; sym = symbol; qty = qty; price = price })
  unfolding parse_request
  parse_request-request_line read_double side symbol qty text price h k small reads =
      let after_sym = decimal qty ++ (32 ∷ text) in
      rw
        (
          parse_request,
          read_word-append side (symbol ++ (32 ∷ after_sym)) h,
          read_word-space (symbol ++ (32 ∷ after_sym)),
          read_word-append symbol after_sym k,
          read_unsigned-decimal qty text small,
          reads,
        )
        refl

  -- A request line of two words, a quantity above zero and below 2^32 in decimal with a minus
  -- sign before it, and a text that is read as a price, with a space between each two, is not
  -- refused: it is parsed to a request for 2^32 shares less the quantity.
  pub parse_request-minus :
      (read_double : List ℕ → Option F) (side symbol : List ℕ) (qty : ℕ) (text : List ℕ) (price : F)
      → IsWord side
      → IsWord symbol
      → 0 < qty
      → qty < u32_mod
      → read_double (32 ∷ text) ≡ some price
      → parse_request read_double
          (side ++ (32 ∷ (symbol ++ (32 ∷ 45 ∷ (decimal qty ++ (32 ∷ text))))))
        ≡ some (record { side_str = side; sym = symbol; qty = u32_mod - qty; price = price })
  unfolding parse_request
  parse_request-minus read_double side symbol qty text price h k more small reads =
      let after_sym = 45 ∷ (decimal qty ++ (32 ∷ text)) in
      rw
        (
          parse_request,
          read_word-append side (symbol ++ (32 ∷ after_sym)) h,
          read_word-space (symbol ++ (32 ∷ after_sym)),
          read_word-append symbol after_sym k,
          read_unsigned-minus qty text more small,
          reads,
        )
        refl
