-- ===== src/ItchParser/Framing.antt =====
-- The loop over the messages of a file: it ends, and it takes one message after the other.
use cpp_matching_engine.Prelude.{
  ℕ, zero, suc, ◌≡◌, refl, ap, ap₂, ◌∙◌, List, [], ◌∷◌, ◌++◌, length, Option, some, none, arith,
  Bool-cases, inl, inr, ◌⊎◌, subst, ◌^◌, ltb, ◌==◌, nat_eq, nat_beq, false, ◌+◌, ◌-◌, ◌<◌, ◌≤◌, ◌/◌,
  ◌%◌, length-append, length-drop, take-append, drop-append, append_assoc,
}
use cpp_matching_engine.Double.{Double}
use cpp_matching_engine.Types.{Order}
use cpp_matching_engine.ItchParser.{
  Turn, next, breaks, throws, Outcome, returned, thrown, turn, parse_payload, parse_message,
  parse_loop, parse_file, bswap16, read_le,
}
use cpp_matching_engine.ItchParser.Bytes.{bswap16-read_be}

module _ {F : Type 0} where
  -- A turn that goes on has read something.
  abbrev Shrinks : ℕ → Turn F → Type 0
  Shrinks n (next rest more) = length rest < n
  Shrinks n (breaks more) = Unit
  Shrinks n throws = Unit

  Shrinks-weaken : (m n : ℕ) (t : Turn F) → m ≤ n → Shrinks m t → Shrinks n t
  Shrinks-weaken m n (next rest more) h k = omega arith
  Shrinks-weaken m n (breaks more) h k = tt
  Shrinks-weaken m n throws h k = tt

  Turn-cases :
      (t : Turn F)
      → ((rest : List ℕ) × (more : List (Order F)) × (t ≡ next rest more))
        ⊎ (((more : List (Order F)) × (t ≡ breaks more)) ⊎ (t ≡ throws))
  Turn-cases (next rest more) = inl (rest, more, refl)
  Turn-cases (breaks more) = inr (inl (more, refl))
  Turn-cases throws = inr (inr refl)

module _ {F : Type 0} ⦃d : Double F⦄ (acquired : ℕ → Order F) where
  parse_payload-Shrinks :
      (l t : ℕ) (rest : List ℕ) (orders : List (Order F))
      → Shrinks (suc (length rest)) (parse_payload acquired l t rest orders)
  unfolding parse_payload
  parse_payload-Shrinks l t rest orders = elim (Bool-cases (l == 0)) [
    | inl e ↦ rw e tt
    | inr e ↦ rw e (elim (Bool-cases (ltb (length rest) (l - 1))) [
      | inl f ↦ rw f tt
      | inr f ↦ rw f (omega (arith, length-drop (l - 1) rest))
    ])
  ]

  turn-Shrinks :
      (bytes : List ℕ) (orders : List (Order F))
      → Shrinks (length bytes) (turn acquired bytes orders)
  unfolding turn
  turn-Shrinks [] orders = tt
  turn-Shrinks (a ∷ []) orders = tt
  turn-Shrinks (a ∷ b ∷ []) orders = tt
  turn-Shrinks (a ∷ b ∷ t ∷ rest) orders =
      Shrinks-weaken _ _ _ (omega arith) (parse_payload-Shrinks _ t rest orders)

  -- The loop returns or throws, whatever bytes the file has.
  parse_loop-ends :
      (n : ℕ) (bytes : List ℕ) (orders : List (Order F))
      → length bytes < n
      → (r : Outcome F) × (parse_loop acquired n bytes orders ≡ some r)
  unfolding parse_loop
  parse_loop-ends zero bytes orders h = absurd (omega arith)
  parse_loop-ends (suc n) bytes orders h = elim (Turn-cases (turn acquired bytes orders)) [
    | inl (rest, more, e) ↦
        let shorter = subst (Shrinks (length bytes)) e (turn-Shrinks bytes orders) in
        rw (parse_loop, e) (parse_loop-ends n rest more (omega arith))
    | inr (inl (more, e)) ↦ rw (parse_loop, e) (returned more, refl)
    | inr (inr e) ↦ rw (parse_loop, e) (thrown, refl)
  ]

  -- parse_file returns orders or throws for every file, whatever its bytes and its fields are.
  pub parse_file-ends :
      (bytes : Option (List ℕ)) → (r : Outcome F) × (parse_file acquired bytes ≡ some r)
  unfolding parse_file
  parse_file-ends none = (returned [], refl)
  parse_file-ends (some bytes) = parse_loop-ends (suc (length bytes)) bytes [] (omega arith)

-- The bytes of a number, the highest first.
abbrev pub be_bytes : ℕ → ℕ → List ℕ
be_bytes zero v = []
be_bytes (suc n) v = be_bytes n (v / 256) ++ v % 256 ∷ []

-- A message behind its length, which counts the type.
abbrev pub frame : ℕ → List ℕ → List ℕ
frame msg_type payload = be_bytes 2 (suc (length payload)) ++ msg_type ∷ payload

module _ {F : Type 0} ⦃d : Double F⦄ (acquired : ℕ → Order F) where
  parse_payload-frame :
      (t : ℕ) (payload rest : List ℕ) (orders : List (Order F))
      → parse_payload acquired (suc (length payload)) t (payload ++ rest) orders
        ≡ next rest (parse_message acquired t payload orders)
  unfolding parse_payload
  parse_payload-frame t payload rest orders =
      let some_bytes : nat_beq (suc (length payload)) 0 ≡ false = ground arith in
      let n : suc (length payload) - 1 ≡ length payload = omega arith in
      let enough : ltb (length (payload ++ rest)) (length payload) ≡ false =
        ground (arith, length-append payload rest) in
      rw (some_bytes, n, enough, drop-append payload rest, take-append payload rest) refl

  pub turn-frame :
      (t : ℕ) (payload rest : List ℕ) (orders : List (Order F))
      → length payload + 1 < 2 ^ 16
      → turn acquired (frame t payload ++ rest) orders
        ≡ next rest (parse_message acquired t payload orders)
  unfolding turn parse_payload
  turn-frame t payload rest orders h =
      let n = suc (length payload) in
      let swapped : bswap16 (read_le (be_bytes 2 n)) ≡ n =
        bswap16-read_be (n / 256 % 256) (n % 256) (omega arith) (omega arith) ∙ omega arith in
      ap (λ l. parse_payload acquired l t (payload ++ rest) orders) swapped
      ∙ parse_payload-frame t payload rest orders

  -- The loop takes a message that stands in front of others.
  pub parse_loop-frame :
      (k n t : ℕ) (payload others rest : List ℕ) (orders more : List (Order F))
      → length payload + 1 < 2 ^ 16
      → parse_message acquired t payload orders ≡ more
      → parse_loop acquired (suc k + n) ((frame t payload ++ others) ++ rest) orders
        ≡ parse_loop acquired (k + n) (others ++ rest) more
  unfolding parse_loop
  parse_loop-frame k n t payload others rest orders more h e =
      let fuel : suc k + n ≡ suc (k + n) = omega arith in
      let bytes = append_assoc (frame t payload) others rest in
      ap₂ (λ f b. parse_loop acquired f b orders) fuel bytes
      ∙ rw (parse_loop, turn-frame t payload (others ++ rest) orders h)
          (ap (parse_loop acquired (k + n) (others ++ rest)) e)
