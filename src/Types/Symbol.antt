-- ===== src/Types/Symbol.antt =====
-- The eight bytes of a symbol, written by `set_symbol` and read by the exchange.
use cpp_matching_engine.Prelude.{
  ℕ, zero, suc, ◌≡◌, refl, List, [], ◌∷◌, ◌++◌, take, ◌==◌, nat_eq, Bool-cases, inl, inr, ap, ◌∙◌,
}
use cpp_matching_engine.Types.{Order, c_string, strncpy, set_symbol, symbol_string}

c_string-append : (xs ys : List ℕ) → c_string (xs ++ 0 ∷ ys) ≡ c_string xs
unfolding c_string
c_string-append [] ys = refl
c_string-append (x ∷ xs) ys = elim (Bool-cases (x == 0)) [
  | inl e ↦ rw e refl
  | inr e ↦ rw e (ap (λ r. x ∷ r) (c_string-append xs ys))
]

c_string-strncpy : (n : ℕ) (s : List ℕ) → c_string (strncpy n s) ≡ take n (c_string s)
unfolding c_string strncpy
c_string-strncpy zero s = refl
c_string-strncpy (suc n) [] = refl
c_string-strncpy (suc n) (c ∷ s) = elim (Bool-cases (c == 0)) [
  | inl e ↦ rw e refl
  | inr e ↦ rw (e, e) (ap (λ r. c ∷ r) (c_string-strncpy n s))
]

take-take : (n : ℕ) (xs : List ℕ) → take (suc n) (take n xs) ≡ take n xs
take-take zero xs = refl
take-take (suc n) [] = refl
take-take (suc n) (x ∷ xs) = ap (λ r. x ∷ r) (take-take n xs)

-- The exchange reads of a symbol that set_symbol has written its first seven characters, up to a
-- zero.
pub symbol_string-set_symbol :
    {F : Type 0} (o : Order F) (sym : List ℕ)
    → symbol_string (set_symbol o sym).symbol ≡ take 7 (c_string sym)
unfolding symbol_string set_symbol
symbol_string-set_symbol o sym =
    let field = strncpy 7 sym ++ 0 ∷ [] in
    c_string-append (strncpy 8 field) []
    ∙ c_string-strncpy 8 field
    ∙ ap (take 8) (c_string-append (strncpy 7 sym) [] ∙ c_string-strncpy 7 sym)
    ∙ take-take 7 (c_string sym)
