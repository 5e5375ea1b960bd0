-- ===== src/Traders/Windows.antt =====
-- A window of prices holds the last of those that were pushed.
use cpp_matching_engine.Prelude.{
  ℕ, zero, suc, ◌≡◌, refl, ap, ◌∙◌, List, [], ◌∷◌, ◌++◌, length, drop, ltb, ◌-◌, ◌≤◌, arith,
  Bool-cases, inl, inr, length-append, length-drop,
}
use cpp_matching_engine.Traders.{push_price, tail}

module _ {F : Type 0} where
  drop-snoc : (n : ℕ) (xs ys : List F) → n ≤ length xs → drop n xs ++ ys ≡ drop n (xs ++ ys)
  drop-snoc zero xs ys h = refl
  drop-snoc (suc n) [] ys h = absurd (omega arith)
  drop-snoc (suc n) (x ∷ xs) ys h = drop-snoc n xs ys (omega arith)

  tail-drop : (n : ℕ) (xs : List F) → tail (drop n xs) ≡ drop (suc n) xs
  tail-drop zero [] = refl
  tail-drop zero (x ∷ xs) = refl
  tail-drop (suc n) [] = refl
  tail-drop (suc n) (x ∷ xs) = tail-drop n xs

  -- The last `window` elements of a list.
  abbrev pub last : ℕ → List F → List F
  last window ps = drop (length ps - window) ps

  pub push_price-last :
      (window : ℕ) (mid : F) (ps : List F)
      → push_price window mid (last window ps) ≡ last window (ps ++ mid ∷ [])
  unfolding push_price
  push_price-last window mid ps =
      let k = length ps - window in
      let longer = drop-snoc k ps (mid ∷ []) (omega arith) in
      let size = length-append (drop k ps) (mid ∷ []) in
      let kept = length-drop k ps in
      let all = length-append ps (mid ∷ []) in
      elim (Bool-cases (ltb window (length (drop k ps ++ mid ∷ [])))) [
        | inl e ↦
            let more : suc k ≡ length (ps ++ mid ∷ []) - window = ground arith in
            rw e (
              ap tail longer
              ∙ tail-drop k (ps ++ mid ∷ [])
              ∙ ap (λ n. drop n (ps ++ mid ∷ [])) more)
        | inr e ↦
            let same : k ≡ length (ps ++ mid ∷ []) - window = ground arith in
            rw e (longer ∙ ap (λ n. drop n (ps ++ mid ∷ [])) same)
      ]
